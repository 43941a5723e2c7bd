-- ===== src/Collect/Records.antt =====
-- About what `collect` of src/lib.rs returns.
use substreams_evm_state.Prelude.{
  ◌≡◌, refl, sym, ap, ◌∙◌, List, [], ◌∷◌, ◌++◌, append_assoc, append-nil, Text, arith,
  if◌then◌else◌, inl, inr, ok, >>=-eq-ok, ok-injective, Result-cases,
}
use substreams_evm_state.Prelude.StableSort.{sort_by}
use substreams_evm_state.Extern.{Hex, Decimal, Enums}
use substreams_evm_state.Eth
use substreams_evm_state.Proto
use substreams_evm_state.Params.{Filter, parse, matches}
use substreams_evm_state.Persist.{collect_block}
use substreams_evm_state.Persist.Events.{
  Event, storage, balance, nonce, code, play, replay, block_events,
}
use substreams_evm_state.Persist.Refinement.{collect_block_refines}
use substreams_evm_state.Collect.{
  storage_change, balance_change, nonce_change, code_change, collector, empty_changes, sort_changes,
  block_authorizations, storage_ord, balance_ord, nonce_ord, code_ord, collect,
}

module _ (dec : Decimal) (f : Filter) where
  -- The record of an event, if it is of the kind and its account is selected.
  unfoldable pub storage_record : Event → List Proto.StorageChange
  storage_record (storage c ctx) = if matches f c.address then storage_change c ctx ∷ [] else []
  storage_record _ = []

  unfoldable pub balance_record : Event → List Proto.BalanceChange
  balance_record (balance c ctx) = if matches f c.address then balance_change dec c ctx ∷ [] else []
  balance_record _ = []

  unfoldable pub nonce_record : Event → List Proto.NonceChange
  nonce_record (nonce c ctx) = if matches f c.address then nonce_change c ctx ∷ [] else []
  nonce_record _ = []

  unfoldable pub code_record : Event → List Proto.CodeChange
  code_record (code c ctx) = if matches f c.address then code_change c ctx ∷ [] else []
  code_record _ = []

  -- The records of each kind, in the order of the events.
  unfoldable pub storage_records : List Event → List Proto.StorageChange
  storage_records [] = []
  storage_records (e ∷ es) = storage_record e ++ storage_records es

  unfoldable pub balance_records : List Event → List Proto.BalanceChange
  balance_records [] = []
  balance_records (e ∷ es) = balance_record e ++ balance_records es

  unfoldable pub nonce_records : List Event → List Proto.NonceChange
  nonce_records [] = []
  nonce_records (e ∷ es) = nonce_record e ++ nonce_records es

  unfoldable pub code_records : List Event → List Proto.CodeChange
  code_records [] = []
  code_records (e ∷ es) = code_record e ++ code_records es

  play_storage :
      (e : Event) (s : Proto.StateChanges)
      → (play (collector dec f) s e).storage_changes ≡ s.storage_changes ++ storage_record e
  unfolding collector storage_record
  play_storage (storage c ctx) s = ground (arith, append-nil s.storage_changes)
  play_storage (balance c ctx) s = ground (arith, append-nil s.storage_changes)
  play_storage (nonce c ctx) s = ground (arith, append-nil s.storage_changes)
  play_storage (code c ctx) s = ground (arith, append-nil s.storage_changes)

  replay_storage :
      (es : List Event) (s : Proto.StateChanges)
      → (replay (collector dec f) s es).storage_changes ≡ s.storage_changes ++ storage_records es
  unfolding storage_records
  replay_storage [] s = sym (append-nil s.storage_changes)
  replay_storage (e ∷ es) s =
      replay_storage es (play (collector dec f) s e)
      ∙ ap (λ r. r ++ storage_records es) (play_storage e s)
      ∙ append_assoc s.storage_changes (storage_record e) (storage_records es)

  play_balance :
      (e : Event) (s : Proto.StateChanges)
      → (play (collector dec f) s e).balance_changes ≡ s.balance_changes ++ balance_record e
  unfolding collector balance_record
  play_balance (storage c ctx) s = ground (arith, append-nil s.balance_changes)
  play_balance (balance c ctx) s = ground (arith, append-nil s.balance_changes)
  play_balance (nonce c ctx) s = ground (arith, append-nil s.balance_changes)
  play_balance (code c ctx) s = ground (arith, append-nil s.balance_changes)

  replay_balance :
      (es : List Event) (s : Proto.StateChanges)
      → (replay (collector dec f) s es).balance_changes ≡ s.balance_changes ++ balance_records es
  unfolding balance_records
  replay_balance [] s = sym (append-nil s.balance_changes)
  replay_balance (e ∷ es) s =
      replay_balance es (play (collector dec f) s e)
      ∙ ap (λ r. r ++ balance_records es) (play_balance e s)
      ∙ append_assoc s.balance_changes (balance_record e) (balance_records es)

  play_nonce :
      (e : Event) (s : Proto.StateChanges)
      → (play (collector dec f) s e).nonce_changes ≡ s.nonce_changes ++ nonce_record e
  unfolding collector nonce_record
  play_nonce (storage c ctx) s = ground (arith, append-nil s.nonce_changes)
  play_nonce (balance c ctx) s = ground (arith, append-nil s.nonce_changes)
  play_nonce (nonce c ctx) s = ground (arith, append-nil s.nonce_changes)
  play_nonce (code c ctx) s = ground (arith, append-nil s.nonce_changes)

  replay_nonce :
      (es : List Event) (s : Proto.StateChanges)
      → (replay (collector dec f) s es).nonce_changes ≡ s.nonce_changes ++ nonce_records es
  unfolding nonce_records
  replay_nonce [] s = sym (append-nil s.nonce_changes)
  replay_nonce (e ∷ es) s =
      replay_nonce es (play (collector dec f) s e)
      ∙ ap (λ r. r ++ nonce_records es) (play_nonce e s)
      ∙ append_assoc s.nonce_changes (nonce_record e) (nonce_records es)

  play_code :
      (e : Event) (s : Proto.StateChanges)
      → (play (collector dec f) s e).code_changes ≡ s.code_changes ++ code_record e
  unfolding collector code_record
  play_code (storage c ctx) s = ground (arith, append-nil s.code_changes)
  play_code (balance c ctx) s = ground (arith, append-nil s.code_changes)
  play_code (nonce c ctx) s = ground (arith, append-nil s.code_changes)
  play_code (code c ctx) s = ground (arith, append-nil s.code_changes)

  replay_code :
      (es : List Event) (s : Proto.StateChanges)
      → (replay (collector dec f) s es).code_changes ≡ s.code_changes ++ code_records es
  unfolding code_records
  replay_code [] s = sym (append-nil s.code_changes)
  replay_code (e ∷ es) s =
      replay_code es (play (collector dec f) s e)
      ∙ ap (λ r. r ++ code_records es) (play_code e s)
      ∙ append_assoc s.code_changes (code_record e) (code_records es)

  play_authorizations :
      (e : Event) (s : Proto.StateChanges)
      → (play (collector dec f) s e).set_code_authorizations ≡ s.set_code_authorizations
  unfolding collector
  play_authorizations (storage c ctx) s = ground arith
  play_authorizations (balance c ctx) s = ground arith
  play_authorizations (nonce c ctx) s = ground arith
  play_authorizations (code c ctx) s = ground arith

  replay_authorizations :
      (es : List Event) (s : Proto.StateChanges)
      → (replay (collector dec f) s es).set_code_authorizations ≡ s.set_code_authorizations
  replay_authorizations [] s = refl
  replay_authorizations (e ∷ es) s =
      replay_authorizations es (play (collector dec f) s e) ∙ play_authorizations e s

events_of_collect :
    (dec : Decimal) (en : Enums) (f : Filter) (b : Eth.Block) (col : Proto.StateChanges)
    → collect_block (collector dec f) en b (empty_changes b) ≡ ok col
    → (es : List Event) × (block_events en b ≡ ok es)
      × (replay (collector dec f) (empty_changes b) es ≡ col)
events_of_collect dec en f b col c =
    let r = sym (collect_block_refines (collector dec f) en b (empty_changes b)) ∙ c in
    elim (Result-cases (block_events en b)) [
      | inl (es, k) ↦ (es, k, ok-injective (rw k at r))
      | inr (e, k) ↦ absurd (ground (arith, k, r))
    ]

-- The result of `collect`: of each kind, the records of the persisted events on the accounts of the
-- filter, sorted by ordinal with ties in their order, and the authorization rows.
pub record IsCollected (dec : Decimal) (en : Enums) (f : Filter) (b : Eth.Block) (es : List Event)
    (out : Proto.StateChanges) : Type 0 where
  pub storages : out.storage_changes ≡ sort_by storage_ord (storage_records dec f es)
  pub balances : out.balance_changes ≡ sort_by balance_ord (balance_records dec f es)
  pub nonces : out.nonce_changes ≡ sort_by nonce_ord (nonce_records dec f es)
  pub codes : out.code_changes ≡ sort_by code_ord (code_records dec f es)
  pub authorizations : out.set_code_authorizations ≡ block_authorizations f b.transaction_traces

-- An accepted block: its parameter was accepted, its events were, and the result holds, of each
-- kind, exactly the records of those events on the selected accounts, sorted stably by ordinal, and
-- the authorization rows of the block.
pub collect-IsCollected :
    (hex : Hex) (dec : Decimal) (en : Enums) (params : Text) (b : Eth.Block)
    (out : Proto.StateChanges)
    → collect hex dec en params b ≡ ok out
    → (f : Filter) × (es : List Event) × (parse hex params ≡ ok f)
      × (block_events en b ≡ ok es)
      × IsCollected dec en f b es out
unfolding collect sort_changes empty_changes
collect-IsCollected hex dec en params b out h =
    let (f, p, h1) = >>=-eq-ok (parse hex params) _ h in
    let (col, c, h2) = >>=-eq-ok (collect_block (collector dec f) en b (empty_changes b)) _ h1 in
    let (es, k, r) = events_of_collect dec en f b col c in
    let e = ok-injective h2 in
    (
      f,
      es,
      p,
      k,
      record {
        storages =
            ap (λ (x : Proto.StateChanges). x.storage_changes) (sym e)
            ∙ ap (sort_by storage_ord) (
                ap (λ (x : Proto.StateChanges). x.storage_changes) (sym r)
                ∙ replay_storage dec f es (empty_changes b));
        balances =
            ap (λ (x : Proto.StateChanges). x.balance_changes) (sym e)
            ∙ ap (sort_by balance_ord) (
                ap (λ (x : Proto.StateChanges). x.balance_changes) (sym r)
                ∙ replay_balance dec f es (empty_changes b));
        nonces =
            ap (λ (x : Proto.StateChanges). x.nonce_changes) (sym e)
            ∙ ap (sort_by nonce_ord) (
                ap (λ (x : Proto.StateChanges). x.nonce_changes) (sym r)
                ∙ replay_nonce dec f es (empty_changes b));
        codes =
            ap (λ (x : Proto.StateChanges). x.code_changes) (sym e)
            ∙ ap (sort_by code_ord) (
                ap (λ (x : Proto.StateChanges). x.code_changes) (sym r)
                ∙ replay_code dec f es (empty_changes b));
        authorizations =
            ap (λ (x : Proto.StateChanges). x.set_code_authorizations) (sym e)
            ∙ ap (λ x. x ++ block_authorizations f b.transaction_traces)
                (ap (λ (x : Proto.StateChanges). x.set_code_authorizations) (sym r)
                  ∙ replay_authorizations dec f es (empty_changes b));
      },
    )
