-- ===== src/Btree/Fill.antt =====
-- A map that is filled from a list of entries, as the loops of src/block_state.rs fill theirs.
use substreams_evm_state.Prelude.{
  ℕ, ◌≤◌, ◌≡◌, ◌⊎◌, inl, inr, sym, subst, ◌∙◌, true, none, some, List, [], ◌∷◌, arith, All, Any,
  Bool-cases,
}
use substreams_evm_state.Prelude.Order.{Ord}
use substreams_evm_state.Btree.{Btree, get, insert, values}
use substreams_evm_state.Btree.Order.{Above, IsSorted, insert-IsSorted}
use substreams_evm_state.Btree.Lookup.{get-insert, get-Above, same, eq_of_same, same_self}

-- The numbers of the entries ascend.
abbrev pub IsOrdered : {K V : Type 0} → (V → ℕ) → List (K × V) → Type 0
IsOrdered ord [] = Unit
IsOrdered ord (e ∷ es) = All (λ x. ord e.1 ≤ ord x.1) es × IsOrdered ord es

module _ {K V : Type 0} ⦃o : Ord K⦄ where
  unfoldable pub fill : List (K × V) → Btree K V → Btree K V
  fill [] m = m
  fill ((k, v) ∷ es) m = fill es (insert m k v)

  pub fill-IsSorted : (es : List (K × V)) (m : Btree K V) → IsSorted m → IsSorted (fill es m)
  unfolding fill
  fill-IsSorted [] m s = s
  fill-IsSorted ((k, v) ∷ es) m s = fill-IsSorted es (insert m k v) (insert-IsSorted m k v s)

  -- The entry is for the key and has the value.
  abbrev pub IsEntry : K → V → K × V → Type 0
  IsEntry k v e = (e.0 ≡ k) × (e.1 ≡ v)

  -- What the map holds came from it or from the list.
  fill_sound :
      (es : List (K × V)) (m : Btree K V) (k : K) (v : V)
      → get (fill es m) k ≡ some v
      → (get m k ≡ some v) ⊎ Any (IsEntry k v) es
  unfolding fill
  fill_sound [] m k v h = inl h
  fill_sound ((j, w) ∷ es) m k v h = elim (fill_sound es (insert m j w) k v h) [
    | inr x ↦ inr (inr x)
    | inl x ↦
        let g = get-insert m j w k in
        elim (Bool-cases (same k j)) [
          | inl e ↦ inr (inl (sym (eq_of_same k j e), ground (arith, g, x, e)))
          | inr e ↦ inl (ground (arith, g, x, e))
        ]
  ]

  -- A key that the map or the list names has an entry.
  fill_grows :
      (es : List (K × V)) (m : Btree K V) (k : K) {w : V}
      → get m k ≡ some w
      → (v : V) × (get (fill es m) k ≡ some v)
  unfolding fill
  fill_grows [] m k {w} h = (w, h)
  fill_grows ((j, u) ∷ es) m k {w} h = elim (Bool-cases (same k j)) [
    | inl e ↦ fill_grows es (insert m j u) k {w = u} (get-insert m j u k ∙ ground (arith, e))
    | inr e ↦ fill_grows es (insert m j u) k {w = w} (get-insert m j u k ∙ ground (arith, e, h))
  ]

  pub fill_complete :
      (es : List (K × V)) (m : Btree K V) → All (λ e. (v : V) × (get (fill es m) e.0 ≡ some v)) es
  unfolding fill
  fill_complete [] m = tt
  fill_complete ((k, v) ∷ es) m = (
    fill_grows es (insert m k v) k {w = v} (get-insert m k v k ∙ ground (arith, same_self k)),
    fill_complete es (insert m k v),
  )

  module _ (ord : V → ℕ) where
    from_later :
        (n : ℕ) (es : List (K × V)) (k : K) (v : V)
        → All (λ x. n ≤ ord x.1) es
        → Any (IsEntry k v) es
        → n ≤ ord v
    from_later n [] k v a h = absurd h
    from_later n (e ∷ es) k v a (inl h) = subst (λ x. n ≤ ord x) h.1 a.0
    from_later n (e ∷ es) k v a (inr h) = from_later n es k v a.1 h

    -- No entry of the key has a greater number than the one that the map holds.
    pub fill_latest :
        (es : List (K × V)) (m : Btree K V) (k : K) (v : V)
        → IsOrdered ord es
        → get (fill es m) k ≡ some v
        → All (λ e. e.0 ≡ k → ord e.1 ≤ ord v) es
    unfolding fill
    fill_latest [] m k v s h = tt
    fill_latest ((j, w) ∷ es) m k v s h = (
      λ j≡k. elim (fill_sound es (insert m j w) k v h) [
        | inr x ↦ from_later (ord w) es k v s.0 x
        | inl x ↦
            let e = subst (λ z. same z j ≡ true) j≡k (same_self j) in
            let w≡v : w ≡ v = ground (arith, get-insert m j w k, x, e) in
            subst (λ z. ord w ≤ ord z) w≡v (omega arith)
      ],
      fill_latest es (insert m j w) k v s.1 h,
    )

  -- What a filled map holds is an entry of the list.
  pub fill_sound_empty :
      (es : List (K × V)) (k : K) (v : V) → get (fill es []) k ≡ some v → Any (IsEntry k v) es
  unfolding get
  fill_sound_empty es k v h = elim (fill_sound es [] k v h) [ inl x ↦ cc x | inr x ↦ x ]

  -- What holds of each key and its value holds of the values.
  pub All-values :
      (P : V → Type 0) (m : Btree K V)
      → IsSorted m
      → ((k : K) (v : V) → get m k ≡ some v → P v)
      → All P (values m)
  unfolding values get
  All-values P [] s f = tt
  All-values P ((j, w) ∷ m) s f = (
    f j w (ground (arith, o.cmp_refl j)),
    All-values P m s.1 (λ k v h. f k v (below j w m k v s.0 h)),
  )
    where
      below :
          (j : K) (w : V) (m : Btree K V) (k : K) (v : V)
          → Above j m
          → get m k ≡ some v
          → get ((j, w) ∷ m) k ≡ some v
      below j w m k v a h = elim (Bool-cases (same k j)) [
        | inl e ↦
            let n : get m k ≡ none =
              subst (λ z. get m z ≡ none) (sym (eq_of_same k j e)) (get-Above m j a) in
            cc (n, h)
        | inr e ↦ ground (arith, e, h)
      ]

  -- A value that a key has is among the values.
  pub Any-values :
      (P : V → Type 0) (m : Btree K V) (k : K) (v : V) → get m k ≡ some v → P v → Any P (values m)
  unfolding values get
  Any-values P [] k v h p = cc
  Any-values P ((j, w) ∷ m) k v h p = elim (Bool-cases (same k j)) [
    | inl e ↦ let w≡v : w ≡ v = ground (arith, e, h) in inl (subst P (sym w≡v) p)
    | inr e ↦ inr (Any-values P m k v (ground (arith, e, h)) p)
  ]
