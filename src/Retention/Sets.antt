-- ===== src/Retention/Sets.antt =====
-- Sets of texts as ordered maps to the unit, as crates/evm-state/src/retention.rs uses them.
use substreams_evm_state.Prelude.{
  ◌≡◌, sym, true, not, ◌&&◌, ◌||◌, List, [], ◌∷◌, Text, arith, bytes_eq, eq_of_bytes_eq,
  bytes_eq_of_eq, Bool-eq, Bool-cases, Option-cases, inl, inr, All, ok, >>=-eq-ok, ok-injective,
}
use substreams_evm_state.Prelude.Order.{text_ord}
use substreams_evm_state.Btree.{Btree, get, insert}
use substreams_evm_state.Btree.Order.{IsSorted, insert-IsSorted}
use substreams_evm_state.Btree.Lookup.{get-insert, get-retain, same, same_self, eq_of_same}
use substreams_evm_state.Json.{Json}
use substreams_evm_state.Json.Read.{string_field}
use substreams_evm_state.Retention.{
  IdSet, has, object_id, trim_quotes, trim_quotes_end, snapshot_ids, partition_ids, difference,
}

pub same-bytes_eq : (a b : Text) → same a b ≡ bytes_eq b a
same-bytes_eq a b =
    Bool-eq (same a b) (bytes_eq b a) (λ e. bytes_eq_of_eq (sym (eq_of_same a b e)))
      (λ e. subst_same (sym (eq_of_bytes_eq b a e)))
  where
    subst_same : {x y : Text} → x ≡ y → same x y ≡ true
    subst_same {x} e = rw (← e) (same_self x)

pub has-insert :
    {V : Type 0} (m : Btree Text V) (k : Text) (v : V) (j : Text)
    → has (insert m k v) j ≡ (same j k || has m j)
has-insert m k v j = ground (arith, get-insert m k v j)

abbrev pub Subset : IdSet → IdSet → Type 0
Subset a b = (k : Text) → has a k ≡ true → has b k ≡ true

pub Subset-insert : (a : IdSet) (k : Text) → Subset a (insert a k tt)
Subset-insert a k j h = ground (arith, has-insert a k tt j, h)

pub has-insert_self : (a : IdSet) (k : Text) → has (insert a k tt) k ≡ true
has-insert_self a k = ground (arith, has-insert a k tt k, same_self k)

-- The record has an identity, and that is in the set.
abbrev pub IsKept : IdSet → Json → Type 0
IsKept ids row = (id : Text) × (string_field row "snapshot_id" ≡ ok id) × (has ids id ≡ true)

pub IsKept-mono : (a b : IdSet) → Subset a b → (row : Json) → IsKept a row → IsKept b row
IsKept-mono a b s row (id, e, h) = (id, e, s id h)

pub snapshot_ids-IsKept :
    (rows : List Json) (ids ids' : IdSet)
    → snapshot_ids rows ids ≡ ok ids'
    → Subset ids ids' × All (IsKept ids') rows
unfolding snapshot_ids
snapshot_ids-IsKept [] ids ids' h = let e = ok-injective h in ((λ k q. rw e at q), tt)
snapshot_ids-IsKept (row ∷ rows) ids ids' h =
    let (id, i, h1) = >>=-eq-ok (string_field row "snapshot_id") _ h in
    let (s, a) = snapshot_ids-IsKept rows (insert ids id tt) ids' h1 in
    (λ k q. s k (Subset-insert ids id k q), ((id, i, s id (has-insert_self ids id)), a))

pub partition_ids-IsSorted :
    (rows : List Json) (ids ids' : IdSet)
    → partition_ids rows ids ≡ ok ids'
    → IsSorted ids
    → IsSorted ids'
unfolding partition_ids
partition_ids-IsSorted [] ids ids' h s = let e = ok-injective h in rw e at s
partition_ids-IsSorted (row ∷ rows) ids ids' h s =
    let (text, t, h1) = >>=-eq-ok (string_field row "partition") _ h in
    let (id, i, h2) = >>=-eq-ok (object_id (trim_quotes_end (trim_quotes text))) _ h1 in
    partition_ids-IsSorted rows (insert ids id tt) ids' h2 (insert-IsSorted ids id tt s)

pub has-difference :
    (a b : IdSet) (k : Text) → IsSorted a → has (difference a b) k ≡ (has a k && not (has b k))
unfolding difference
has-difference a b k s = elim (Option-cases (get a k)) [
  | inl e ↦ ground (arith, get-retain (λ k v. not (has b k)) a k s, e)
  | inr (v, e) ↦ elim (Bool-cases (has b k)) [
    | inl q ↦ ground (arith, get-retain (λ k v. not (has b k)) a k s, e, q)
    | inr q ↦ ground (arith, get-retain (λ k v. not (has b k)) a k s, e, q)
  ]
]
