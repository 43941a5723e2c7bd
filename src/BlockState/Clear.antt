-- ===== src/BlockState/Clear.antt =====
-- About the loop of `project` of src/block_state.rs over the deletions.
use substreams_evm_state.Prelude.{
  ℕ, ◌<◌, ◌≡◌, ◌↔◌, inl, inr, refl, sym, subst, ap, ◌∙◌, false≢true, Bool, true, false, not, ◌||◌,
  Option, none, some, [], ◌∷◌, Bytes, Text, ltb, ltb→lt, lt→ltb, bytes_eq, bytes_eq_iff,
  eq_of_bytes_eq, All, Bool-cases, if◌then◌else◌,
}
use substreams_evm_state.Prelude.Order.{text_ord, pair_ord}
use substreams_evm_state.Btree.{Btree, get}
use substreams_evm_state.Btree.Order.{IsSorted, retain-IsSorted}
use substreams_evm_state.Btree.Lookup.{get-retain, keep}
use substreams_evm_state.Extern.{Hex}
use substreams_evm_state.Proto
use substreams_evm_state.Params.{Filter, matches, hex_text}
use substreams_evm_state.Lifecycle.{Ends}
use substreams_evm_state.BlockState.{SlotKey, Maps, clear_storage, delete_account, delete_accounts}

-- The entry is not one of an account that is deleted at or after the entry's ordinal.
abbrev pub Survives : Hex → Filter → Text → ℕ → Bytes × ℕ → Type 0
Survives hex f address ordinal e = matches f e.0 ≡ true → hex_text hex e.0 ≡ address → e.1 < ordinal

keep_iff :
    {V : Type 0} (p : V → Bool) (o : Option V) (v : V)
    → (keep p o ≡ some v) ↔ ((o ≡ some v) × (p v ≡ true))
keep_iff p none v = (λ h. cc, λ h. cc)
keep_iff p (some w) v = elim (Bool-cases (p w)) [
  | inl e ↦ rw e (λ h. let w≡v : w ≡ v = cc in (h, rw w≡v at e), λ h. h.0)
  | inr e ↦ rw e (
    λ h. cc,
    λ h.
        let w≡v : w ≡ v = cc in absurd (false≢true (sym e ∙ subst (λ x. p x ≡ true) (sym w≡v) h.1)),
  )
]

module _ (hex : Hex) (f : Filter) where
  Survives-test :
      (k : SlotKey) (v : Proto.StorageValue) (a : Bytes) (o : ℕ)
      → matches f a ≡ true
      → ((not (bytes_eq k.0 (hex_text hex a)) || ltb o v.ordinal) ≡ true)
        ↔ Survives hex f k.0 v.ordinal (a, o)
  Survives-test k v a o s = elim (Bool-cases (bytes_eq k.0 (hex_text hex a))) [
    | inl e ↦ rw e (
      λ h m q. ltb→lt o v.ordinal h,
      λ h. lt→ltb o v.ordinal (h s (sym (eq_of_bytes_eq k.0 (hex_text hex a) e))),
    )
    | inr e ↦ rw e (
      λ h m q. absurd (false≢true (sym e ∙ (bytes_eq_iff k.0 (hex_text hex a)).1 (sym q))),
      λ h. refl,
    )
  ]

  get-clear_storage :
      (m : Btree SlotKey Proto.StorageValue) (k : SlotKey) (v : Proto.StorageValue) (a : Bytes)
      (o : ℕ)
      → IsSorted m
      → matches f a ≡ true
      → (get (clear_storage (hex_text hex a) o m) k ≡ some v)
        ↔ ((get m k ≡ some v) × Survives hex f k.0 v.ordinal (a, o))
  unfolding clear_storage
  get-clear_storage m k v a o s selected =
      let p = λ (k : SlotKey) (v : Proto.StorageValue).
        not (bytes_eq k.0 (hex_text hex a)) || ltb o v.ordinal in
      let kept = keep_iff (p k) (get m k) v in
      let t = Survives-test k v a o selected in
      let e = get-retain p m k s in
      (λ h. let (g, q) = kept.0 (sym e ∙ h) in (g, t.0 q), λ h. e ∙ kept.1 (h.0, t.1 h.1))

  -- The loop of the deletions over one of the maps.
  unfoldable pub fold_ends : {M : Type 0} → (Text → ℕ → M → M) → Ends → M → M
  fold_ends clear [] m = m
  fold_ends clear ((a, o) ∷ ends) m =
      fold_ends clear ends (if not (matches f a) then m else clear (hex_text hex a) o m)

  pub fold_ends_selected :
      {M : Type 0} (clear : Text → ℕ → M → M) (a : Bytes) (o : ℕ) (ends : Ends) (m : M)
      → matches f a ≡ true
      → fold_ends clear ((a, o) ∷ ends) m ≡ fold_ends clear ends (clear (hex_text hex a) o m)
  unfolding fold_ends
  fold_ends_selected clear a o ends m e = rw e

  pub fold_ends_skipped :
      {M : Type 0} (clear : Text → ℕ → M → M) (a : Bytes) (o : ℕ) (ends : Ends) (m : M)
      → matches f a ≡ false
      → fold_ends clear ((a, o) ∷ ends) m ≡ fold_ends clear ends m
  unfolding fold_ends
  fold_ends_skipped clear a o ends m e = rw e

  step_storage :
      (skip : Bool) (x : Text) (o : ℕ) (m : Maps)
      → (if skip then m else delete_account x o m).storage
        ≡ (if skip then m.storage else clear_storage x o m.storage)
  unfolding delete_account
  step_storage true x o m = refl
  step_storage false x o m = refl

  storage_of_deletions :
      (ends : Ends) (m : Maps)
      → (delete_accounts hex f ends m).storage ≡ fold_ends clear_storage ends m.storage
  unfolding delete_accounts fold_ends
  storage_of_deletions [] m = refl
  storage_of_deletions ((a, o) ∷ ends) m =
      storage_of_deletions ends
        (if not (matches f a) then m else delete_account (hex_text hex a) o m)
      ∙ ap (fold_ends clear_storage ends) (step_storage (not (matches f a)) (hex_text hex a) o m)

  clear_storage-IsSorted :
      (x : Text) (o : ℕ) (m : Btree SlotKey Proto.StorageValue)
      → IsSorted m
      → IsSorted (clear_storage x o m)
  unfolding clear_storage
  clear_storage-IsSorted x o m s =
      retain-IsSorted (λ k v. not (bytes_eq k.0 x) || ltb o v.ordinal) m s

  fold_storage-IsSorted :
      (ends : Ends) (m : Btree SlotKey Proto.StorageValue)
      → IsSorted m
      → IsSorted (fold_ends clear_storage ends m)
  unfolding fold_ends
  fold_storage-IsSorted [] m s = s
  fold_storage-IsSorted ((a, o) ∷ ends) m s = elim (Bool-cases (matches f a)) [
    | inl e ↦
        rw (fold_ends_selected clear_storage a o ends m e)
          (fold_storage-IsSorted ends _ (clear_storage-IsSorted (hex_text hex a) o m s))
    | inr e ↦ rw (fold_ends_skipped clear_storage a o ends m e) (fold_storage-IsSorted ends m s)
  ]

  fold_storage :
      (ends : Ends) (m : Btree SlotKey Proto.StorageValue) (k : SlotKey) (v : Proto.StorageValue)
      → IsSorted m
      → (get (fold_ends clear_storage ends m) k ≡ some v)
        ↔ ((get m k ≡ some v) × All (Survives hex f k.0 v.ordinal) ends)
  fold_storage [] m k v s = unfold fold_ends in ((λ h. (h, tt)), (λ h. h.0))
  fold_storage ((a, o) ∷ ends) m k v s = elim (Bool-cases (matches f a)) [
    | inr e ↦
        let ih = fold_storage ends m k v s in
        rw (fold_ends_skipped clear_storage a o ends m e) (
          λ h. let (g, q) = ih.0 h in (g, ((λ m _. absurd (false≢true (sym e ∙ m))), q)),
          λ h. ih.1 (h.0, h.1.1),
        )
    | inl e ↦
        let ih =
          fold_storage ends (clear_storage (hex_text hex a) o m) k v
            (clear_storage-IsSorted (hex_text hex a) o m s) in
        let c = get-clear_storage m k v a o s e in
        rw (fold_ends_selected clear_storage a o ends m e) (
          λ h. let (g, q) = ih.0 h in let (g', q') = c.0 g in (g', (q', q)),
          λ h. ih.1 (c.1 (h.0, h.1.0), h.1.1),
        )
  ]

  -- Where the map of storage is sorted: after the deletions an entry is there exactly if it was and
  -- survives each of them, being later than a deletion of its account.
  pub delete_accounts_storage :
      (ends : Ends) (m : Maps) (k : SlotKey) (v : Proto.StorageValue)
      → IsSorted m.storage
      → (get (delete_accounts hex f ends m).storage k ≡ some v)
        ↔ ((get m.storage k ≡ some v) × All (Survives hex f k.0 v.ordinal) ends)
  delete_accounts_storage ends m k v s =
      rw (storage_of_deletions ends m) (fold_storage ends m.storage k v s)

  pub delete_accounts-IsSorted :
      (ends : Ends) (m : Maps)
      → IsSorted m.storage
      → IsSorted (delete_accounts hex f ends m).storage
  delete_accounts-IsSorted ends m s =
      rw (storage_of_deletions ends m) (fold_storage-IsSorted ends m.storage s)
