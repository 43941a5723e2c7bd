-- ===== src/Retention/Prune.antt =====
-- The statements of `prune` of crates/evm-state/src/retention.rs, and what an interruption between
-- two of them leaves. A table's partitions are a test on their names.
use substreams_evm_state.Prelude.{
  ℕ, zero, suc, ◌≡◌, inl, inr, refl, sym, ◌∙◌, false≢true, Bool, true, false, not, ◌&&◌, Option, ok,
  List, [], ◌∷◌, Text, arith, take, bytes_eq, bytes_eq_refl, eq_of_bytes_eq, Bool-cases, subst,
}
use substreams_evm_state.Prelude.Order.{text_ord}
use substreams_evm_state.Btree.{get}
use substreams_evm_state.Btree.Lookup.{same}
use substreams_evm_state.Json.{Json}
use substreams_evm_state.Retention.{IdSet, has, Plan, Stored, plan}
use substreams_evm_state.Retention.Sets.{same-bytes_eq}
use substreams_evm_state.Retention.Keeps.{plan-IsSafe}

-- `TABLES`
pub data Table : Type 0 where
  checkpoints checkpoint_accounts checkpoint_storage : Table

-- Which partitions the tables hold.
abbrev pub Store : Type 0
Store = Table → Text → Bool

abbrev pub Statement : Type 0
Statement = Table × Text

abbrev pub same_table : Table → Table → Bool
same_table checkpoints checkpoints = true
same_table checkpoint_accounts checkpoint_accounts = true
same_table checkpoint_storage checkpoint_storage = true
same_table _ _ = false

-- `ALTER TABLE table DROP PARTITION id`
unfoldable pub drop : Statement → Store → Store
drop d store t id = store t id && not (same_table d.0 t && bytes_eq d.1 id)

-- The loops of `prune`, as the statements that they run.
unfoldable pub statements : IdSet → List Statement
statements [] = []
statements ((id, u) ∷ ids) =
    (checkpoints, id) ∷ (checkpoint_accounts, id) ∷ (checkpoint_storage, id) ∷ statements ids

unfoldable pub run : List Statement → Store → Store
run [] store = store
run (d ∷ ds) store = run ds (drop d store)

-- The store after the first `n` statements of `prune`.
unfoldable pub prune : ℕ → IdSet → Store → Store
prune n remove store = run (take n (statements remove)) store

-- A generation that is still published has all that it had.
abbrev pub IsWhole : Store → Store → Type 0
IsWhole before now = (id : Text) → now checkpoints id ≡ true → (t : Table) → now t id ≡ before t id

drop_other :
    (d : Statement) (store : Store) (t : Table) (id : Text)
    → bytes_eq d.1 id ≡ false
    → drop d store t id ≡ store t id
unfolding drop
drop_other (c, j) store t id e = elim (Bool-cases (same_table c t)) [
  | inl q ↦ elim (Bool-cases (store t id)) [ inl r ↦ rw (q, r, e) refl | inr r ↦ rw r refl ]
  | inr q ↦ elim (Bool-cases (store t id)) [ inl r ↦ rw (q, r) refl | inr r ↦ rw r refl ]
]

-- The identity is not the first, and not among the others.
not_first :
    (j id : Text) (u : Unit {0}) (ids : IdSet)
    → has ((j, u) ∷ ids) id ≡ false
    → (bytes_eq j id ≡ false) × (has ids id ≡ false)
unfolding get
not_first j id u ids h = elim (Bool-cases (same id j)) [
  | inl e ↦ absurd (false≢true (sym h ∙ ground (arith, e)))
  | inr e ↦ (sym (same-bytes_eq id j) ∙ e, ground (arith, e, h))
]

-- Wherever the statements are interrupted, a generation that is not to be removed has what it had.
pub prune_kept :
    (n : ℕ) (remove : IdSet) (store : Store) (t : Table) (id : Text)
    → has remove id ≡ false
    → prune n remove store t id ≡ store t id
unfolding prune run statements take
prune_kept zero ids store t id h = refl
prune_kept (suc n) [] store t id h = refl
prune_kept (suc zero) ((j, u) ∷ ids) store t id h =
    drop_other (checkpoints, j) store t id (not_first j id u ids h).0
prune_kept (suc (suc zero)) ((j, u) ∷ ids) store t id h =
    let e = (not_first j id u ids h).0 in
    drop_other (checkpoint_accounts, j) (drop (checkpoints, j) store) t id e
    ∙ drop_other (checkpoints, j) store t id e
prune_kept (suc (suc (suc n))) ((j, u) ∷ ids) store t id h =
    let (e, rest) = not_first j id u ids h in
    let s1 = drop (checkpoints, j) store in
    let s2 = drop (checkpoint_accounts, j) s1 in
    prune_kept n ids (drop (checkpoint_storage, j) s2) t id rest
    ∙ drop_other (checkpoint_storage, j) s2 t id e
    ∙ drop_other (checkpoint_accounts, j) s1 t id e
    ∙ drop_other (checkpoints, j) store t id e

dropped_from :
    (d : Statement) (store : Store) (t : Table) (id : Text)
    → drop d store t id ≡ true
    → store t id ≡ true
unfolding drop
dropped_from d store t id h = ground (arith, h)

unpublished :
    (store : Store) (j id : Text)
    → bytes_eq j id ≡ true
    → drop (checkpoints, j) store checkpoints id ≡ false
unfolding drop
unpublished store j id e = ground (arith, e)

-- To unpublish a generation keeps the published ones whole.
publication_first :
    (before store : Store) (j : Text)
    → IsWhole before store
    → IsWhole before (drop (checkpoints, j) store)
publication_first before store j w id h t = elim (Bool-cases (bytes_eq j id)) [
  | inl e ↦ absurd (false≢true (sym (unpublished store j id e) ∙ h))
  | inr e ↦
      drop_other (checkpoints, j) store t id e
      ∙ w id (dropped_from (checkpoints, j) store checkpoints id h) t
]

-- So does to drop the rest of a generation that is no longer published.
rest_after :
    (c : Table) (before store : Store) (j : Text)
    → store checkpoints j ≡ false
    → IsWhole before store
    → IsWhole before (drop (c, j) store)
rest_after c before store j p w id h t = elim (Bool-cases (bytes_eq j id)) [
  | inl e ↦
      let e' = eq_of_bytes_eq j id e in
      let q = dropped_from (c, j) store checkpoints id h in
      absurd (false≢true (sym (subst (λ x. store checkpoints x ≡ false) e' p) ∙ q))
  | inr e ↦ drop_other (c, j) store t id e ∙ w id (dropped_from (c, j) store checkpoints id h) t
]

stays_unpublished :
    (d : Statement) (store : Store) (j : Text)
    → store checkpoints j ≡ false
    → drop d store checkpoints j ≡ false
unfolding drop
stays_unpublished d store j h = ground (arith, h)

unpublished_self : (store : Store) (j : Text) → drop (checkpoints, j) store checkpoints j ≡ false
unfolding drop
unpublished_self store j = ground (arith, bytes_eq_refl j)

statements-IsWhole :
    (n : ℕ) (remove : IdSet) (before store : Store)
    → IsWhole before store
    → IsWhole before (prune n remove store)
unfolding prune run statements take
statements-IsWhole zero ids before store w = w
statements-IsWhole (suc n) [] before store w = w
statements-IsWhole (suc zero) ((j, u) ∷ ids) before store w = publication_first before store j w
statements-IsWhole (suc (suc zero)) ((j, u) ∷ ids) before store w =
    rest_after checkpoint_accounts before (drop (checkpoints, j) store) j (unpublished_self store j)
      (publication_first before store j w)
statements-IsWhole (suc (suc (suc n))) ((j, u) ∷ ids) before store w =
    let s1 = drop (checkpoints, j) store in
    let s2 = drop (checkpoint_accounts, j) s1 in
    let w2 =
      rest_after checkpoint_accounts before s1 j (unpublished_self store j)
        (publication_first before store j w) in
    let p2 = stays_unpublished (checkpoint_accounts, j) s1 j (unpublished_self store j) in
    statements-IsWhole n ids before (drop (checkpoint_storage, j) s2)
      (rest_after checkpoint_storage before s2 j p2 w2)

-- Wherever the statements are interrupted, a generation that is still published has every partition
-- that it had: one that loses a partition is unpublished first.
pub prune-IsWhole : (n : ℕ) (remove : IdSet) (store : Store) → IsWhole store (prune n remove store)
prune-IsWhole n remove store = statements-IsWhole n remove store store (λ id h t. refl)

-- Wherever the statements of an accepted plan are interrupted, what the plan keeps has what it had.
pub pruned_plan_kept :
    (parse_json : Text → Option Json) (s : Stored) (keep_latest : ℕ) (p : Plan) (n : ℕ)
    (store : Store) (t : Table) (id : Text)
    → plan parse_json s keep_latest ≡ ok p
    → has p.keep id ≡ true
    → prune n p.remove store t id ≡ store t id
pruned_plan_kept parse_json s keep_latest p n store t id h k =
    let planned = plan-IsSafe parse_json s keep_latest p h in
    prune_kept n p.remove store t id (ground (arith, planned.safe.removed id, k))
