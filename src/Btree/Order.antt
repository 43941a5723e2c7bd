-- ===== src/Btree/Order.antt =====
-- The ascending order of a map's keys.
use Prim.Native.Nat.Ordering.{lt}
use substreams_evm_state.Prelude.{Bool, ◌≡◌, [], ◌∷◌, arith, Bool-cases, inl, inr}
use substreams_evm_state.Prelude.Order.{Ord}
use substreams_evm_state.Btree.{Btree, insert, retain}

module _ {ℓ κ} {K : Type ℓ} {V : Type κ} ⦃o : Ord K⦄ where
  -- Every key of the map lies above `k`.
  abbrev pub Above : K → Btree K V → Type 0
  Above k [] = Unit
  Above k ((j, w) ∷ m) = (o.cmp k j ≡ lt) × Above k m

  abbrev pub IsSorted : Btree K V → Type 0
  IsSorted [] = Unit
  IsSorted ((j, w) ∷ m) = Above j m × IsSorted m

  pub Above-trans : (j k : K) (m : Btree K V) → o.cmp j k ≡ lt → Above k m → Above j m
  Above-trans j k [] h a = tt
  Above-trans j k ((i, w) ∷ m) h a = (o.lt_trans j k i h a.0, Above-trans j k m h a.1)

  Above-insert :
      (j : K) (m : Btree K V) (k : K) (v : V) → o.cmp j k ≡ lt → Above j m → Above j (insert m k v)
  unfolding insert
  Above-insert j [] k v h a = (h, tt)
  Above-insert j ((i, w) ∷ m) k v h a = ground (arith, Above-insert j m k v h a.1)

  pub insert-IsSorted : (m : Btree K V) (k : K) (v : V) → IsSorted m → IsSorted (insert m k v)
  unfolding insert
  insert-IsSorted [] k v s = (tt, tt)
  insert-IsSorted ((j, w) ∷ m) k v s = ground (
    arith,
    o.eq_of_cmp k j,
    o.cmp_flip k j,
    Above-trans k j m,
    Above-insert j m k v,
    insert-IsSorted m k v,
  )

  Above-retain : (p : K → V → Bool) (j : K) (m : Btree K V) → Above j m → Above j (retain p m)
  unfolding retain
  Above-retain p j [] a = tt
  Above-retain p j ((i, w) ∷ m) a = ground (arith, Above-retain p j m a.1)

  pub retain-IsSorted : (p : K → V → Bool) (m : Btree K V) → IsSorted m → IsSorted (retain p m)
  unfolding retain
  retain-IsSorted p [] s = tt
  retain-IsSorted p ((j, w) ∷ m) s = elim (Bool-cases (p j w)) [
    | inl e ↦ rw e (Above-retain p j m s.0, retain-IsSorted p m s.1)
    | inr e ↦ rw e (retain-IsSorted p m s.1)
  ]
