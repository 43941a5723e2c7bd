-- ===== src/Btree.antt =====
-- `std::collections::BTreeMap`, as src/block_state.rs and src/lifecycle.rs use it: the entries in
-- the order of their keys, each key once.
pub mod Order
pub mod Lookup
pub mod Fill
use Prim.Native.Nat.Ordering.{lt, eq, gt}
use substreams_evm_state.Prelude.{
  Bool, true, false, Option, none, some, List, [], ◌∷◌, map, if◌then◌else◌,
}
use substreams_evm_state.Prelude.Order.{Ord}

abbrev pub Btree {ℓ κ} : Type ℓ → Type κ → Type (ℓ ⊔ κ)
Btree K V = List (K × V)

module _ {ℓ κ} {K : Type ℓ} {V : Type κ} ⦃o : Ord K⦄ where
  unfoldable pub get : Btree K V → K → Option V
  get [] k = none
  get ((j, w) ∷ m) k = elim (o.cmp k j) [ eq ↦ some w | _ ↦ get m k ]

  -- The entry of the key is replaced.
  unfoldable pub insert : Btree K V → K → V → Btree K V
  insert [] k v = (k, v) ∷ []
  insert ((j, w) ∷ m) k v = elim (o.cmp k j) [
    | lt ↦ (k, v) ∷ (j, w) ∷ m
    | eq ↦ (k, v) ∷ m
    | gt ↦ (j, w) ∷ insert m k v
  ]

module _ {ℓ κ} {K : Type ℓ} {V : Type κ} where
  unfoldable pub retain : (K → V → Bool) → Btree K V → Btree K V
  retain p [] = []
  retain p ((j, w) ∷ m) = let rest = retain p m in if p j w then (j, w) ∷ rest else rest

  -- `into_values().collect()`
  unfoldable pub values : Btree K V → List V
  values [] = []
  values ((j, w) ∷ m) = w ∷ values m
