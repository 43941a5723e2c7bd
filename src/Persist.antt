-- ===== src/Persist.antt =====
-- src/persist.rs: which state changes of a block survived its execution. A `Sink` is a record of
-- the four handlers over a state, and a loop that calls them passes the state on.
pub mod Rules
pub mod Events
pub mod Refinement
pub mod Noop
pub mod Sender
pub mod Failed
pub mod Complete
pub mod Refused
pub mod Effects
use substreams_evm_state.Prelude.{
  ℕ, Bool, true, false, not, ◌&&◌, Option, none, some, List, [], ◌∷◌, Bytes, contains, is_empty,
  ◌==◌, if◌then◌else◌, Result, ok, err, require, ◌>>=◌, ◌>>◌, missing_boundary,
}
use substreams_evm_state.Prelude.Int.{ℤ, pos}
use substreams_evm_state.Extern.{Enums}
use substreams_evm_state.Eth
use substreams_evm_state.Proto.{Scope, tx, tx_failed_persistent, tx_7702, system_call, block}
use Rules.{
  is_failed, is_gas_reason, balance_is_noop, storage_is_noop, nonce_differs, code_differs,
  authorities, Indexed, enumerate, sender_nonce, is_same_record, before_execution,
}

-- Provenance attached to each emitted record.
pub record Ctx : Type 0 where
  pub scope : Scope
  pub tx_hash : Bytes
  pub tx_index : ℕ
  pub tx_status : ℤ
  pub call_index : ℕ

-- `Ctx::block`
abbrev pub block_ctx : Scope → Ctx
block_ctx scope = record {
  scope = scope;
  tx_hash = [];
  tx_index = 0;
  tx_status = pos 0;
  call_index = 0;
}

-- `base`, for a transaction
unfoldable pub base : Enums → Eth.TransactionTrace → Scope → ℕ → Ctx
base en trx scope call_index = record {
  scope = scope;
  tx_hash = trx.hash;
  tx_index = trx.index;
  tx_status = en.status_code (en.status trx.status);
  call_index = call_index;
}

pub record Sink (S : Type 0) : Type 0 where
  pub storage : S → Eth.StorageChange → Ctx → S
  pub balance : S → Eth.BalanceChange → Ctx → S
  pub nonce : S → Eth.NonceChange → Ctx → S
  pub code : S → Eth.CodeChange → Ctx → S

module _ {S : Type 0} (out : Sink S) where
  unfoldable pub emit_storage : List Eth.StorageChange → Ctx → S → S
  emit_storage [] ctx s = s
  emit_storage (c ∷ cs) ctx s =
      emit_storage cs ctx (if not (storage_is_noop c) then out.storage s c ctx else s)

  unfoldable pub emit_balance : List Eth.BalanceChange → Ctx → S → S
  emit_balance [] ctx s = s
  emit_balance (c ∷ cs) ctx s =
      emit_balance cs ctx (if not (balance_is_noop c) then out.balance s c ctx else s)

  unfoldable pub emit_nonce : List Eth.NonceChange → Ctx → S → S
  emit_nonce [] ctx s = s
  emit_nonce (c ∷ cs) ctx s = emit_nonce cs ctx (if nonce_differs c then out.nonce s c ctx else s)

  unfoldable pub emit_code : List Eth.CodeChange → Ctx → S → S
  emit_code [] ctx s = s
  emit_code (c ∷ cs) ctx s = emit_code cs ctx (if code_differs c then out.code s c ctx else s)

  unfoldable pub emit_call_all : Eth.Call → Ctx → S → S
  emit_call_all call ctx s = emit_code call.code_changes ctx (
      emit_nonce call.nonce_changes ctx
        (emit_balance call.balance_changes ctx (emit_storage call.storage_changes ctx s)))

  module _ (en : Enums) where
    -- The calls of a transaction that succeeded.
    unfoldable pub emit_calls : Eth.TransactionTrace → List Eth.Call → S → S
    emit_calls trx [] s = s
    emit_calls trx (call ∷ calls) s =
        emit_calls trx calls
          (if call.state_reverted then s else emit_call_all call (base en trx tx call.index) s)

    -- The gas changes of a failed transaction's root call.
    unfoldable pub emit_gas : List Eth.BalanceChange → Ctx → S → S
    emit_gas [] ctx s = s
    emit_gas (bc ∷ bcs) ctx s =
        emit_gas bcs ctx
          (if is_gas_reason en bc && not (balance_is_noop bc) then out.balance s bc ctx else s)

  unfoldable pub emit_sender : Option Indexed → Ctx → S → S
  emit_sender none ctx s = s
  emit_sender (some n) ctx s = out.nonce s n.1 ctx

  -- The authorization nonces: records of an authority before execution, the sender's one skipped.
  unfoldable pub emit_auth_nonces : Option Indexed → List Bytes → ℕ → List Indexed → Ctx → S → S
  emit_auth_nonces sender auths begin_ordinal [] ctx s = s
  emit_auth_nonces sender auths begin_ordinal (n ∷ ns) ctx s =
      emit_auth_nonces sender auths begin_ordinal ns ctx (
        if is_same_record sender n
        then s
        else if before_execution begin_ordinal (n.1).ordinal
            && contains auths (n.1).address
            && nonce_differs n.1
        then out.nonce s n.1 ctx
        else s)

  unfoldable pub emit_auth_codes : List Bytes → ℕ → List Eth.CodeChange → Ctx → S → S
  emit_auth_codes auths begin_ordinal [] ctx s = s
  emit_auth_codes auths begin_ordinal (c ∷ cs) ctx s = emit_auth_codes auths begin_ordinal cs ctx (
      if before_execution begin_ordinal c.ordinal && contains auths c.address && code_differs c
      then out.code s c ctx
      else s)

  module _ (en : Enums) where
    -- A failed or reverted transaction, at its root call.
    unfoldable pub collect_root : Eth.TransactionTrace → Eth.Call → S → Result S
    collect_root trx root s =
        let ctx = base en trx tx_failed_persistent root.index in
        let sender = sender_nonce trx root.nonce_changes in
        let s' = emit_sender sender ctx (emit_gas en root.balance_changes ctx s) in
        let auths = authorities trx in
        let ctx7702 = base en trx tx_7702 root.index in
        if is_empty auths
        then ok s'
        else if root.begin_ordinal == 0
        then err missing_boundary
        else ok (
            emit_auth_codes auths root.begin_ordinal root.code_changes ctx7702 (
              emit_auth_nonces sender auths root.begin_ordinal (enumerate 0 root.nonce_changes)
                ctx7702 s'))

    unfoldable pub collect_failed : Eth.TransactionTrace → List Eth.Call → S → Result S
    collect_failed trx [] s = ok s
    collect_failed trx (root ∷ calls) s = collect_root trx root s

    unfoldable pub collect_transaction : Eth.TransactionTrace → S → Result S
    collect_transaction trx s =
        if not (is_failed en trx)
        then ok (emit_calls en trx trx.calls s)
        else collect_failed trx trx.calls s

    unfoldable pub collect_transactions : List Eth.TransactionTrace → S → Result S
    collect_transactions [] s = ok s
    collect_transactions (trx ∷ trxs) s = do
      s' ← collect_transaction trx s
      collect_transactions trxs s'

  unfoldable pub emit_system : List Eth.Call → S → S
  emit_system [] s = s
  emit_system (call ∷ calls) s = emit_system calls (
      if call.state_reverted
      then s
      else emit_call_all call (record (block_ctx system_call) { call_index = call.index }) s)

  unfoldable pub collect_block : Enums → Eth.Block → S → Result S
  collect_block en b s = collect_transactions en b.transaction_traces (
      emit_code b.code_changes (block_ctx block)
        (emit_balance b.balance_changes (block_ctx block) (emit_system b.system_calls s)))
