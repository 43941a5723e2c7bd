-- ===== src/BlockState/StorageRows.antt =====
-- About the storage rows of `project` of src/block_state.rs.
use substreams_evm_state.Prelude.{
  ℕ, ◌≤◌, ◌≡◌, ◌⊎◌, inl, inr, refl, sym, subst, ap, ◌∙◌, some, List, [], ◌∷◌, Bytes, Text, arith,
  All, All-In, Any, Any-mono, All-mono, All-intro_in, ok, ok-injective,
}
use substreams_evm_state.Prelude.Order.{text_ord, pair_ord}
use substreams_evm_state.Prelude.StableSort.{IsSortedBy, sort_by-IsSortedBy}
use substreams_evm_state.Prelude.Int.{as_u64}
use substreams_evm_state.Btree.{Btree, get, values}
use substreams_evm_state.Btree.Order.{IsSorted}
use substreams_evm_state.Btree.Fill.{
  fill, fill-IsSorted, IsEntry, IsOrdered, fill_complete, fill_latest, fill_sound_empty, All-values,
  Any-values,
}
use substreams_evm_state.Extern.{Hex, Decimal, Enums}
use substreams_evm_state.Eth
use substreams_evm_state.Proto
use substreams_evm_state.Proto.{BlockState}
use substreams_evm_state.Params.{Filter, parse}
use substreams_evm_state.Lifecycle.{Ends, deletions}
use substreams_evm_state.Collect.{storage_ord, collect}
use substreams_evm_state.Collect.Records.{collect-IsCollected}
use substreams_evm_state.BlockState.{
  SlotKey, Maps, storage_ordinal, delete_accounts, block_row, project,
}
use substreams_evm_state.BlockState.Checks.{project-Run}
use substreams_evm_state.BlockState.Fold.{
  Pairs, IsStorageRow, add_storage-fill, add_nonces-fill, IsOrdered-of_sorted, All_of_Pairs,
  Any-of_Pairs,
}
use substreams_evm_state.BlockState.Keep.{
  SameRows-trans, SameRows-add_codes, SameRows-add_transactions,
}
use substreams_evm_state.BlockState.Clear.{
  Survives, delete_accounts_storage, delete_accounts-IsSorted,
}
use substreams_evm_state.BlockState.Rows.{
  IsSlot, Wrote, IsBlockEnd, Deleted, IsKept, Survives-cases,
}

module _ (hex : Hex) where
  module _ (f : Filter) (cs : List Proto.StorageChange) (es : List (SlotKey × Proto.StorageValue))
      (ends : Ends) (p : Pairs (IsStorageRow hex) cs es) (s : IsSortedBy storage_ord cs) (m : Maps)
      (stored : fill es [] ≡ m.storage) where
    abbrev final : Btree SlotKey Proto.StorageValue
    final = (delete_accounts hex f ends m).storage

    sorted : IsSorted m.storage
    sorted = subst IsSorted stored (fill-IsSorted es [] tt)

    ordered : IsOrdered storage_ordinal es
    ordered =
        IsOrdered-of_sorted storage_ord storage_ordinal (IsStorageRow hex) (λ c e r. r.ordinal) cs
          es p s

    entry_of :
        (k : SlotKey) (v : Proto.StorageValue)
        → get m.storage k ≡ some v
        → get (fill es []) k ≡ some v
    entry_of k v g = subst (λ x. get x k ≡ some v) (sym stored) g

    keyed :
        (k : SlotKey) (v : Proto.StorageValue)
        → Any (λ c. IsStorageRow hex c (k, v)) cs
        → (v.address ≡ k.0) × (v.slot ≡ k.1)
    keyed k v a = key_of cs a
      where
        key_of :
            (ds : List Proto.StorageChange)
            → Any (λ c. IsStorageRow hex c (k, v)) ds
            → (v.address ≡ k.0) × (v.slot ≡ k.1)
        key_of [] h = absurd h
        key_of (d ∷ ds) (inl h) = (h.row_account, h.row_slot)
        key_of (d ∷ ds) (inr h) = key_of ds h

    row_of :
        (k : SlotKey) (v : Proto.StorageValue)
        → get m.storage k ≡ some v
        → Any (λ c. IsStorageRow hex c (k, v)) cs
    row_of k v g =
        Any-of_Pairs (IsStorageRow hex) (λ c. IsStorageRow hex c (k, v)) (IsEntry k v)
          (λ c e r q.
            subst (λ x. IsStorageRow hex c (x, v)) q.0
              (subst (λ y. IsStorageRow hex c (e.0, y)) q.1 r))
          cs es p (fill_sound_empty es k v (entry_of k v g))

    latest_of :
        (k : SlotKey) (v : Proto.StorageValue)
        → get m.storage k ≡ some v
        → All (λ c. IsSlot hex k.0 k.1 c → storage_ord c ≤ v.ordinal) cs
    latest_of k v g =
        All_of_Pairs (IsStorageRow hex) (λ c. IsSlot hex k.0 k.1 c → storage_ord c ≤ v.ordinal)
          (λ e. e.0 ≡ k → storage_ordinal e.1 ≤ storage_ordinal v)
          (λ c e r q slot. bound c e k v r q slot) cs es p
          (fill_latest storage_ordinal es [] k v ordered (entry_of k v g))
      where
        bound :
            (c : Proto.StorageChange) (e : SlotKey × Proto.StorageValue) (k : SlotKey)
            (v : Proto.StorageValue)
            → IsStorageRow hex c e
            → (e.0 ≡ k → storage_ordinal e.1 ≤ storage_ordinal v)
            → IsSlot hex k.0 k.1 c
            → storage_ord c ≤ v.ordinal
        bound c ((a, t), w) (a', t') v r q slot =
            let e1 : a ≡ a' = sym r.account ∙ slot.0 in
            let e2 : t ≡ t' = ok-injective (sym r.slot ∙ slot.1) in
            omega (arith, q (cc (e1, e2)), r.ordinal)

    Wrote-of :
        (k : SlotKey) (v : Proto.StorageValue)
        → v.address ≡ k.0
        → v.slot ≡ k.1
        → (c : Proto.StorageChange) → IsStorageRow hex c (k, v)
        → Wrote hex v c
    Wrote-of k v a t c r = ((r.account ∙ sym a, r.slot ∙ ap ok (sym t)), r.value, r.ordinal)

    row_IsBlockEnd :
        (k : SlotKey) (v : Proto.StorageValue)
        → get m.storage k ≡ some v
        → All (Survives hex f k.0 v.ordinal) ends
        → IsBlockEnd hex f cs ends v
    row_IsBlockEnd k v g u =
        let w = row_of k v g in
        let (a, t) = keyed k v w in
        record {
          written = Any-mono (λ c. IsStorageRow hex c (k, v)) (Wrote hex v) (Wrote-of k v a t) cs w;
          latest =
              All-mono (λ c. IsSlot hex k.0 k.1 c → storage_ord c ≤ v.ordinal)
                (λ c. IsSlot hex v.address v.slot c → storage_ord c ≤ v.ordinal)
                (λ c l q. l (q.0 ∙ a, q.1 ∙ ap ok t)) cs (latest_of k v g);
          undeleted = subst (λ x. All (Survives hex f x v.ordinal) ends) (sym a) u;
        }

    rows_sound : All (IsBlockEnd hex f cs ends) (values final)
    rows_sound =
        All-values (IsBlockEnd hex f cs ends) final (delete_accounts-IsSorted hex f ends m sorted)
          (λ k v g.
            let (h, u) = (delete_accounts_storage hex f ends m k v sorted).0 g in
            row_IsBlockEnd k v h u)

    kept_of :
        (k : SlotKey) (v : Proto.StorageValue) (c : Proto.StorageChange)
        → IsSlot hex k.0 k.1 c
        → get m.storage k ≡ some v
        → storage_ord c ≤ v.ordinal
        → Any (λ r. (r.address ≡ k.0) × (r.slot ≡ k.1) × (storage_ord c ≤ r.ordinal)) (values final)
          ⊎ Any (Deleted hex f k.0 (storage_ord c)) ends
    kept_of k v c slot g l = elim (Survives-cases hex f k.0 v.ordinal ends) [
      | inl u ↦
          let (a, t) = keyed k v (row_of k v g) in
          inl (
            Any-values (λ r. (r.address ≡ k.0) × (r.slot ≡ k.1) × (storage_ord c ≤ r.ordinal)) final
              k v ((delete_accounts_storage hex f ends m k v sorted).1 (g, u)) (a, t, l))
      | inr d ↦
          inr (
            Any-mono (Deleted hex f k.0 v.ordinal) (Deleted hex f k.0 (storage_ord c)) later ends d)
    ]
      where
        later :
            (e : Bytes × ℕ) → Deleted hex f k.0 v.ordinal e → Deleted hex f k.0 (storage_ord c) e
        later e (q, w, n) = (q, w, omega (arith, n, l))

    -- The entry's slot has a value, and that is at least as late.
    abbrev IsFilled : SlotKey × Proto.StorageValue → Type 0
    IsFilled e =
        (v : Proto.StorageValue) × (get m.storage e.0 ≡ some v) × ((e.1).ordinal ≤ v.ordinal)

    filled : All IsFilled es
    filled = All-intro_in IsFilled es (λ e i.
        let (v, g) =
          All-In (λ e. (v : Proto.StorageValue) × (get (fill es []) e.0 ≡ some v)) e es
            (fill_complete es []) i in
        (
          v,
          subst (λ x. get x e.0 ≡ some v) stored g,
          All-In (λ x. x.0 ≡ e.0 → storage_ordinal x.1 ≤ storage_ordinal v) e es
              (fill_latest storage_ordinal es [] e.0 v ordered g) i refl,
        ))

    rows_complete : All (IsKept hex f ends (values final)) cs
    rows_complete =
        All_of_Pairs (IsStorageRow hex) (IsKept hex f ends (values final)) IsFilled
          (λ c e r q. kept c e r q) cs es p filled
      where
        kept :
            (c : Proto.StorageChange) (e : SlotKey × Proto.StorageValue)
            → IsStorageRow hex c e
            → IsFilled e
            → IsKept hex f ends (values final) c
        kept c ((a, t), x) r (v, g, l) = (
          t,
          r.slot,
          subst
              (λ z.
                Any (λ y. (y.address ≡ z) × (y.slot ≡ t) × (storage_ord c ≤ y.ordinal))
                  (values final)
                ⊎ Any (Deleted hex f z (storage_ord c)) ends)
              (sym r.account)
              (kept_of (a, t) v c (r.account, r.slot) g
                (subst (λ n. n ≤ v.ordinal) (sym r.ordinal) l)),
        )

-- The storage rows of an accepted block's `BlockState`, where `changes` is what `collect` returned
-- for the block and `ends` its deletions. Each row has the value of a storage change, no change of
-- the row's slot is later, and no deletion of its account is at or after the row's ordinal. Each
-- storage change has a slot that can be read, and a row for that slot that is at least as late, or
-- a deletion of its account is at or after the change.
pub project_storage :
    (hex : Hex) (dec : Decimal) (en : Enums) (params : Text) (b : Eth.Block) (bs : BlockState)
    → project hex dec en params b ≡ ok bs
    → (f : Filter) × (changes : Proto.StateChanges) × (ends : Ends) × (parse hex params ≡ ok f)
      × (collect hex dec en params b ≡ ok changes)
      × (deletions en b bs.timestamp ≡ ok ends)
      × All (IsBlockEnd hex f changes.storage_changes ends) bs.storage
      × All (IsKept hex f ends bs.storage) changes.storage_changes
unfolding block_row
project_storage hex dec en params b bs h =
    let run = project-Run hex dec en params b bs h in
    let (es, p, q) = add_storage-fill hex run.changes.storage_changes [] run.storage run.stored in
    let (ns, np, nq, same, x, y) =
      add_nonces-fill hex run.changes.nonce_changes _ run.m1 run.numbered in
    let rows =
      SameRows-trans (SameRows-add_codes hex run.changes.code_changes run.m1 run.m2 run.coded) (
        SameRows-add_transactions hex en run.filter b.transaction_traces run.m2 run.m3
          run.marked) in
    let stored : fill es [] ≡ run.m3.storage = q ∙ same ∙ rows.storage in
    let (f, evs, pf, ke, col) = collect-IsCollected hex dec en params b run.changes run.collected in
    let sorted : IsSortedBy storage_ord run.changes.storage_changes =
      subst (IsSortedBy storage_ord) (sym col.storages) (sort_by-IsSortedBy storage_ord _) in
    let e : values (delete_accounts hex run.filter run.ends run.m3).storage ≡ bs.storage =
      ap (λ (x : BlockState). x.storage) run.row in
    let t : as_u64 run.timestamp.seconds ≡ bs.timestamp =
      ap (λ (x : BlockState). x.timestamp) run.row in
    (
      run.filter,
      run.changes,
      run.ends,
      run.parsed,
      run.collected,
      subst (λ n. deletions en b n ≡ ok run.ends) t run.deleted,
      subst (All (IsBlockEnd hex run.filter run.changes.storage_changes run.ends)) e (
          rows_sound hex run.filter run.changes.storage_changes es run.ends p sorted run.m3 stored),
      subst (λ rs. All (IsKept hex run.filter run.ends rs) run.changes.storage_changes) e
          (rows_complete hex run.filter run.changes.storage_changes es run.ends p sorted run.m3
            stored),
    )
