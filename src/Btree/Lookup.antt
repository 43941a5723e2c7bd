-- ===== src/Btree/Lookup.antt =====
-- What `get` finds after `insert` and `retain`.
use Prim.Native.Nat.{Ordering}
use Prim.Native.Nat.Ordering.{lt, eq, gt}
use substreams_evm_state.Prelude.{
  Bool, true, false, ◌≡◌, refl, Option, none, some, [], ◌∷◌, arith, if◌then◌else◌,
}
use substreams_evm_state.Prelude.Order.{Ord}
use substreams_evm_state.Btree.{Btree, get, insert, retain}
use substreams_evm_state.Btree.Order.{Above, IsSorted}

abbrev pub keep {κ} : {V : Type κ} → (V → Bool) → Option V → Option V
keep p none = none
keep p (some v) = if p v then some v else none

abbrev is_eq : Ordering → Bool
is_eq eq = true
is_eq lt = false
is_eq gt = false

module _ {ℓ} {K : Type ℓ} ⦃o : Ord K⦄ where
  -- Whether two keys are one.
  abbrev pub same : K → K → Bool
  same j k = is_eq (o.cmp j k)

  pub same_self : (k : K) → same k k ≡ true
  same_self k = ground (arith, o.cmp_refl k)

  pub eq_of_same : (j k : K) → same j k ≡ true → j ≡ k
  eq_of_same j k h = ground (arith, o.eq_of_cmp j k)

module _ {ℓ κ} {K : Type ℓ} {V : Type κ} ⦃o : Ord K⦄ where
  pub get-insert :
      (m : Btree K V) (k : K) (v : V) (j : K)
      → get (insert m k v) j ≡ (if same j k then some v else get m j)
  unfolding get insert
  get-insert [] k v j = ground arith
  get-insert ((i, w) ∷ m) k v j = ground (
    arith,
    get-insert m k v j,
    o.eq_of_cmp k i,
    o.eq_of_cmp j k,
    o.eq_of_cmp j i,
    o.cmp_refl k,
    o.cmp_flip k i,
  )

  pub get-Above : (m : Btree K V) (k : K) → Above k m → get m k ≡ none
  unfolding get
  get-Above [] k a = refl
  get-Above ((j, w) ∷ m) k a = ground (arith, get-Above m k a.1)

  pub get-retain :
      (p : K → V → Bool) (m : Btree K V) (k : K)
      → IsSorted m
      → get (retain p m) k ≡ keep (p k) (get m k)
  unfolding get retain
  get-retain p [] k s = refl
  get-retain p ((j, w) ∷ m) k s =
      ground (arith, get-retain p m k s.1, o.eq_of_cmp k j, get-Above m k, get-Above m j s.0)
