-- ===== src/Persist/Effects.antt =====
-- What `collect_transaction` and `collect_block` of src/persist.rs feed a sink.
use substreams_evm_state.Prelude.{
  ◌≡◌, ◌↔◌, ◌⊎◌, refl, sym, ◌∙◌, true, List, ◌∷◌, Result, ok, err, ok-injective, All, Any,
}
use substreams_evm_state.Extern.{Enums}
use substreams_evm_state.Eth
use substreams_evm_state.Persist.{Ctx, Sink, collect_transaction, collect_block}
use substreams_evm_state.Persist.Rules.{is_failed}
use substreams_evm_state.Persist.Events.{
  Event, replay, transaction_events, block_events, system_ctx,
}
use substreams_evm_state.Persist.Refinement.{
  result_map, collect_transaction_lem, collect_block_refines,
}
use substreams_evm_state.Persist.Failed.{MayPersist, failed_MayPersist}
use substreams_evm_state.Persist.Complete.{IsStorage, InCall, InSucceeded, IsStorage-persists_iff}

-- A collection that returned was fed a list of events.
fed :
    {S : Type 0} (r : Result (List Event)) (f : List Event → S) (s' : S)
    → result_map f r ≡ ok s'
    → (es : List Event) × (r ≡ ok es) × (f es ≡ s')
fed (ok es) f s' h = (es, refl, ok-injective h)
fed (err e) f s' h = cc

-- What the collection of a transaction that did not succeed feeds its sink: nothing but records of the
-- root call, which are changes of a balance for gas, the sender's nonce increment, and changes of a
-- nonce or a code of a non-discarded authority before the call's begin ordinal.
pub collect_transaction-MayPersist :
    {S : Type 0} (out : Sink S) (en : Enums) (trx : Eth.TransactionTrace) (root : Eth.Call)
    (calls : List Eth.Call) (s s' : S)
    → is_failed en trx ≡ true
    → trx.calls ≡ root ∷ calls
    → collect_transaction out en trx s ≡ ok s'
    → (es : List Event) × All (MayPersist en trx root) es × (replay out s es ≡ s')
collect_transaction-MayPersist out en trx root calls s s' failed roots h =
    let (es, k, r) =
      fed (transaction_events en trx) (replay out s) s'
        (sym (collect_transaction_lem out en trx s) ∙ h) in
    (es, failed_MayPersist en trx root calls es failed roots k, r)

-- What the collection of a block that it accepts feeds its sink: it is fed a storage record with a
-- property `P` exactly if one stands, with another old than new number, in a call that was not
-- reverted of the block's system calls or of a transaction that succeeded.
pub collect_block-InCall_iff :
    (P : Eth.StorageChange → Ctx → Type 0) {S : Type 0} (out : Sink S) (en : Enums) (b : Eth.Block)
    (s s' : S)
    → collect_block out en b s ≡ ok s'
    → (es : List Event) × (replay out s es ≡ s')
      × (Any (IsStorage P) es ↔ (
          Any (λ call. InCall P (system_ctx call) call) b.system_calls
          ⊎ Any (InSucceeded P en) b.transaction_traces))
collect_block-InCall_iff P out en b s s' h =
    let (es, k, r) =
      fed (block_events en b) (replay out s) s' (sym (collect_block_refines out en b s) ∙ h) in
    (es, r, IsStorage-persists_iff P en b es k)
