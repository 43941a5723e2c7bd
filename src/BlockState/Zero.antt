-- ===== src/BlockState/Zero.antt =====
-- The deletions on a map with one row for each account (balances, nonces, codes): the row of a
-- deleted account is set to zero unless it is newer.
use substreams_evm_state.Prelude.{
  ℕ, ◌≤◌, ◌≡◌, ◌⊎◌, inl, inr, refl, sym, subst, ap, ◌∙◌, false≢true, true, false, some, [], ◌∷◌,
  Bytes, Text, arith, ltb, All, Any, Bool-cases, Option-cases, if◌then◌else◌,
}
use substreams_evm_state.Prelude.Order.{text_ord}
use substreams_evm_state.Btree.{Btree, get, insert}
use substreams_evm_state.Btree.Lookup.{get-insert, same, same_self, eq_of_same}
use substreams_evm_state.Extern.{Hex}
use substreams_evm_state.Params.{Filter, matches, hex_text}
use substreams_evm_state.Lifecycle.{Ends}
use substreams_evm_state.BlockState.{is_older}
use substreams_evm_state.BlockState.Clear.{fold_ends, fold_ends_selected, fold_ends_skipped}

-- How a map of rows is cleared: by a row of zero with the deletion's ordinal, unless there is a row
-- that is not older.
pub record Clearing {V : Type 0} (number : V → ℕ) (zero : Text → ℕ → V)
    (clear : Text → ℕ → Btree Text V → Btree Text V) : Type 0 where
  pub clear_lem :
      (x : Text) (o : ℕ) (m : Btree Text V)
      → clear x o m ≡ (if is_older number (get m x) o then insert m x (zero x o) else m)
  pub number-zero : (x : Text) (o : ℕ) → number (zero x o) ≡ o

module _ {V : Type 0} (number : V → ℕ) (zero : Text → ℕ → V)
    (clear : Text → ℕ → Btree Text V → Btree Text V) (c : Clearing number zero clear) where
  -- One deletion: another account's row stays; the account's own row ends at least as late, and is
  -- the old one or zero.
  clear_other :
      (x : Text) (o : ℕ) (m : Btree Text V) (k : Text)
      → same k x ≡ false
      → get (clear x o m) k ≡ get m k
  clear_other x o m k n =
      ap (λ (y : Btree Text V). get y k) (c.clear_lem x o m)
      ∙ ground (arith, get-insert m x (zero x o) k, n)

  clear_self :
      (x : Text) (o : ℕ) (m : Btree Text V)
      → (v : V) × (get (clear x o m) x ≡ some v)
        × (o ≤ number v)
        × ((get m x ≡ some v) ⊎ (v ≡ zero x o))
  clear_self x o m =
      let g = get-insert m x (zero x o) x in
      let r = same_self x in
      let l = ap (λ (y : Btree Text V). get y x) (c.clear_lem x o m) in
      elim (Option-cases (get m x)) [
        | inl e ↦
            (zero x o, l ∙ ground (arith, g, r, e), omega (arith, c.number-zero x o), inr refl)
        | inr (w, e) ↦ elim (Bool-cases (ltb (number w) o)) [
          | inl b ↦
              (zero x o, l ∙ ground (arith, g, r, e, b), omega (arith, c.number-zero x o), inr refl)
          | inr b ↦ (w, l ∙ ground (arith, e, b), ground (arith, b), inl e)
        ]
      ]

  clear_grows :
      (x : Text) (o : ℕ) (m : Btree Text V) (k : Text) {w : V}
      → get m k ≡ some w
      → (v : V) × (get (clear x o m) k ≡ some v) × (number w ≤ number v)
  clear_grows x o m k {w} h = elim (Bool-cases (same k x)) [
    | inr n ↦ (w, clear_other x o m k n ∙ h, omega arith)
    | inl e ↦
        let k≡x = eq_of_same k x e in
        let l = ap (λ (y : Btree Text V). get y k) (c.clear_lem x o m) in
        let g = get-insert m x (zero x o) k in
        let h' : get m x ≡ some w = subst (λ z. get m z ≡ some w) k≡x h in
        elim (Bool-cases (ltb (number w) o)) [
          | inl b ↦
              (zero x o, l ∙ ground (arith, g, e, h', b), ground (arith, b, c.number-zero x o))
          | inr b ↦ (w, l ∙ ground (arith, h', h, b), omega arith)
        ]
  ]

  module _ (hex : Hex) (f : Filter) where
    -- A row of a map never gets older by the deletions.
    pub fold_zero_grows :
        (ends : Ends) (m : Btree Text V) (k : Text) {w : V}
        → get m k ≡ some w
        → (v : V) × (get (fold_ends hex f clear ends m) k ≡ some v) × (number w ≤ number v)
    fold_zero_grows [] m k {w} h = unfold fold_ends in (w, h, omega arith)
    fold_zero_grows ((a, o) ∷ ends) m k {w} h = elim (Bool-cases (matches f a)) [
      | inl e ↦
          let (u, g, l) = clear_grows (hex_text hex a) o m k {w = w} h in
          let (v, g', l') = fold_zero_grows ends (clear (hex_text hex a) o m) k {w = u} g in
          rw (fold_ends_selected hex f clear a o ends m e) (v, g', omega arith)
      | inr e ↦ rw (fold_ends_skipped hex f clear a o ends m e) (fold_zero_grows ends m k {w = w} h)
    ]

    -- The account of the deletion, if it is selected, has a row that is not older.
    abbrev pub HasLater : Btree Text V → Bytes × ℕ → Type 0
    HasLater m e =
        matches f e.0 ≡ true → (v : V) × (get m (hex_text hex e.0) ≡ some v) × (e.1 ≤ number v)

    -- A deleted account has a row that is not older than its deletion.
    pub fold_zero_complete :
        (ends : Ends) (m : Btree Text V) → All (HasLater (fold_ends hex f clear ends m)) ends
    fold_zero_complete [] m = tt
    fold_zero_complete ((a, o) ∷ ends) m = elim (Bool-cases (matches f a)) [
      | inl e ↦
          let (u, g, l, _) = clear_self (hex_text hex a) o m in
          let (v, g', l') =
            fold_zero_grows ends (clear (hex_text hex a) o m) (hex_text hex a) {w = u} g in
          subst (λ y. All (HasLater y) ((a, o) ∷ ends))
            (sym (fold_ends_selected hex f clear a o ends m e))
            ((λ _. (v, g', omega arith)), fold_zero_complete ends (clear (hex_text hex a) o m))
      | inr e ↦
          subst (λ y. All (HasLater y) ((a, o) ∷ ends))
            (sym (fold_ends_skipped hex f clear a o ends m e))
            ((λ s. absurd (false≢true (sym e ∙ s))), fold_zero_complete ends m)
    ]

    -- A row is one that was there, or the zero of a deletion of its account.
    pub fold_zero_sound :
        (ends : Ends) (m : Btree Text V) (k : Text) (v : V)
        → get (fold_ends hex f clear ends m) k ≡ some v
        → (get m k ≡ some v)
          ⊎ Any (λ e. (matches f e.0 ≡ true) × (hex_text hex e.0 ≡ k) × (v ≡ zero k e.1)) ends
    fold_zero_sound [] m k v h = inl (unfold fold_ends in h)
    fold_zero_sound ((a, o) ∷ ends) m k v h = elim (Bool-cases (matches f a)) [
      | inr e ↦
          elim (fold_zero_sound ends m k v (rw (fold_ends_skipped hex f clear a o ends m e) at h)) [
            | inl x ↦ inl x
            | inr x ↦ inr (inr x)
          ]
      | inl e ↦
          let x = hex_text hex a in
          elim (fold_zero_sound ends (clear x o m) k v
            (rw (fold_ends_selected hex f clear a o ends m e) at h)) [
              | inr y ↦ inr (inr y)
              | inl g ↦ elim (Bool-cases (same k x)) [
                | inr n ↦ inl (sym (clear_other x o m k n) ∙ g)
                | inl q ↦
                    let k≡x = eq_of_same k x q in
                    let (u, gu, l, origin) = clear_self x o m in
                    let v≡u : v ≡ u = cc (g, gu, ap (get (clear x o m)) k≡x) in
                    elim origin [
                      | inl old ↦ inl (cc (old, v≡u, ap (get m) k≡x))
                      | inr z ↦ inr (inl (e, sym k≡x, v≡u ∙ z ∙ ap (λ t. zero t o) (sym k≡x)))
                    ]
              ]
            ]
    ]
