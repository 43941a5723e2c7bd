-- ===== src/Persist/Refinement.antt =====
-- The loops of `collect_block` of src/persist.rs, against the list of events.
use substreams_evm_state.Prelude.{
  ◌≡◌, refl, ap, Option, none, some, List, [], ◌∷◌, arith, filter, Bool-cases, inl, inr, Result, ok,
  err, Bytes, ℕ, is_empty, ◌==◌, Result-cases,
}
use substreams_evm_state.Extern.{Enums}
use substreams_evm_state.Eth
use substreams_evm_state.Proto.{tx}
use substreams_evm_state.Persist.{
  Ctx, base, Sink, emit_storage, emit_balance, emit_nonce, emit_code, emit_call_all, emit_calls,
  emit_gas, emit_sender, emit_auth_nonces, emit_auth_codes, collect_root, collect_failed,
  collect_transaction, collect_transactions, emit_system, collect_block,
}
use substreams_evm_state.Persist.Rules.{Indexed, authorities, is_failed}
use substreams_evm_state.Persist.Events.{
  replay, replay-append, storage_events, balance_events, nonce_events, code_events, call_events,
  calls_events, gas_events, sender_events, auth_nonce_events, auth_code_events, auth_events,
  root_events, failed_events, transaction_events, transactions_events, system_ctx, block_events,
}

abbrev pub result_map {ℓ κ} : {A : Type ℓ} {B : Type κ} → (A → B) → Result A → Result B
result_map f (ok a) = ok (f a)
result_map f (err e) = err e

module _ {S : Type 0} (out : Sink S) where
  emit_storage_lem :
      (cs : List Eth.StorageChange) (ctx : Ctx) (s : S)
      → emit_storage out cs ctx s ≡ replay out s (storage_events ctx cs)
  unfolding emit_storage storage_events filter
  emit_storage_lem [] ctx s = refl
  emit_storage_lem (c ∷ cs) ctx s =
      ground (arith, emit_storage_lem cs ctx s, emit_storage_lem cs ctx (out.storage s c ctx))

  emit_balance_lem :
      (cs : List Eth.BalanceChange) (ctx : Ctx) (s : S)
      → emit_balance out cs ctx s ≡ replay out s (balance_events ctx cs)
  unfolding emit_balance balance_events filter
  emit_balance_lem [] ctx s = refl
  emit_balance_lem (c ∷ cs) ctx s =
      ground (arith, emit_balance_lem cs ctx s, emit_balance_lem cs ctx (out.balance s c ctx))

  emit_nonce_lem :
      (cs : List Eth.NonceChange) (ctx : Ctx) (s : S)
      → emit_nonce out cs ctx s ≡ replay out s (nonce_events ctx cs)
  unfolding emit_nonce nonce_events filter
  emit_nonce_lem [] ctx s = refl
  emit_nonce_lem (c ∷ cs) ctx s =
      ground (arith, emit_nonce_lem cs ctx s, emit_nonce_lem cs ctx (out.nonce s c ctx))

  emit_code_lem :
      (cs : List Eth.CodeChange) (ctx : Ctx) (s : S)
      → emit_code out cs ctx s ≡ replay out s (code_events ctx cs)
  unfolding emit_code code_events filter
  emit_code_lem [] ctx s = refl
  emit_code_lem (c ∷ cs) ctx s =
      ground (arith, emit_code_lem cs ctx s, emit_code_lem cs ctx (out.code s c ctx))

  emit_call_all_lem :
      (call : Eth.Call) (ctx : Ctx) (s : S)
      → emit_call_all out call ctx s ≡ replay out s (call_events ctx call)
  unfolding emit_call_all call_events
  emit_call_all_lem call ctx s =
      simp (emit_storage_lem, emit_balance_lem, emit_nonce_lem, emit_code_lem, replay-append)

  emit_calls_lem :
      (en : Enums) (trx : Eth.TransactionTrace) (calls : List Eth.Call) (s : S)
      → emit_calls out en trx calls s
        ≡ replay out s (calls_events (λ call. base en trx tx call.index) calls)
  unfolding emit_calls calls_events
  emit_calls_lem en trx [] s = refl
  emit_calls_lem en trx (call ∷ calls) s = elim (Bool-cases call.state_reverted) [
    | inl e ↦ simp e (emit_calls_lem en trx calls s)
    | inr e ↦ simp (e, emit_call_all_lem, replay-append) (emit_calls_lem en trx calls _)
  ]

  emit_system_lem :
      (calls : List Eth.Call) (s : S)
      → emit_system out calls s ≡ replay out s (calls_events system_ctx calls)
  unfolding emit_system calls_events
  emit_system_lem [] s = refl
  emit_system_lem (call ∷ calls) s = elim (Bool-cases call.state_reverted) [
    | inl e ↦ simp e (emit_system_lem calls s)
    | inr e ↦ simp (e, emit_call_all_lem, replay-append) (emit_system_lem calls _)
  ]

  emit_gas_lem :
      (en : Enums) (cs : List Eth.BalanceChange) (ctx : Ctx) (s : S)
      → emit_gas out en cs ctx s ≡ replay out s (gas_events en ctx cs)
  unfolding emit_gas gas_events filter
  emit_gas_lem en [] ctx s = refl
  emit_gas_lem en (c ∷ cs) ctx s =
      ground (arith, emit_gas_lem en cs ctx s, emit_gas_lem en cs ctx (out.balance s c ctx))

  emit_sender_lem :
      (n : Option Indexed) (ctx : Ctx) (s : S)
      → emit_sender out n ctx s ≡ replay out s (sender_events ctx n)
  unfolding emit_sender sender_events
  emit_sender_lem none ctx s = refl
  emit_sender_lem (some n) ctx s = refl

  module _ (auths : List Bytes) (begin_ordinal : ℕ) where
    emit_auth_nonces_lem :
        (sender : Option Indexed) (ns : List Indexed) (ctx : Ctx) (s : S)
        → emit_auth_nonces out sender auths begin_ordinal ns ctx s
          ≡ replay out s (auth_nonce_events ctx sender auths begin_ordinal ns)
    unfolding emit_auth_nonces auth_nonce_events filter
    emit_auth_nonces_lem sender [] ctx s = refl
    emit_auth_nonces_lem sender (n ∷ ns) ctx s = ground (
      arith,
      emit_auth_nonces_lem sender ns ctx s,
      emit_auth_nonces_lem sender ns ctx (out.nonce s n.1 ctx),
    )

    emit_auth_codes_lem :
        (cs : List Eth.CodeChange) (ctx : Ctx) (s : S)
        → emit_auth_codes out auths begin_ordinal cs ctx s
          ≡ replay out s (auth_code_events ctx auths begin_ordinal cs)
    unfolding emit_auth_codes auth_code_events filter
    emit_auth_codes_lem [] ctx s = refl
    emit_auth_codes_lem (c ∷ cs) ctx s =
        ground (arith, emit_auth_codes_lem cs ctx s, emit_auth_codes_lem cs ctx (out.code s c ctx))

  module _ (en : Enums) where
    collect_root_lem :
        (trx : Eth.TransactionTrace) (root : Eth.Call) (s : S)
        → collect_root out en trx root s ≡ result_map (replay out s) (root_events en trx root)
    unfolding collect_root root_events auth_events
    collect_root_lem trx root s = elim (Bool-cases (is_empty (authorities trx))) [
      | inl e ↦ simp (e, emit_gas_lem, emit_sender_lem, replay-append)
      | inr e ↦ elim (Bool-cases (root.begin_ordinal == 0)) [
        | inl z ↦ simp (e, z)
        | inr z ↦ simp (
          e, z, emit_gas_lem, emit_sender_lem, emit_auth_nonces_lem, emit_auth_codes_lem,
          replay-append,
        )
      ]
    ]

    collect_failed_lem :
        (trx : Eth.TransactionTrace) (calls : List Eth.Call) (s : S)
        → collect_failed out en trx calls s ≡ result_map (replay out s) (failed_events en trx calls)
    unfolding collect_failed failed_events
    collect_failed_lem trx [] s = refl
    collect_failed_lem trx (root ∷ calls) s = collect_root_lem trx root s

    pub collect_transaction_lem :
        (trx : Eth.TransactionTrace) (s : S)
        → collect_transaction out en trx s ≡ result_map (replay out s) (transaction_events en trx)
    unfolding collect_transaction transaction_events
    collect_transaction_lem trx s = elim (Bool-cases (is_failed en trx)) [
      | inl e ↦ rw e (collect_failed_lem trx trx.calls s)
      | inr e ↦ rw e (ap ok (emit_calls_lem en trx trx.calls s))
    ]

    collect_transactions_lem :
        (trxs : List Eth.TransactionTrace) (s : S)
        → collect_transactions out en trxs s
          ≡ result_map (replay out s) (transactions_events en trxs)
    unfolding collect_transactions transactions_events
    collect_transactions_lem [] s = refl
    collect_transactions_lem (trx ∷ trxs) s = elim (Result-cases (transaction_events en trx)) [
      | inl (es, e) ↦ elim (Result-cases (transactions_events en trxs)) [
        | inl (fs, f) ↦ simp (
          collect_transaction_lem,
          e,
          collect_transactions_lem trxs (replay out s es),
          f,
          replay-append,
        )
        | inr (c, f) ↦
            simp (collect_transaction_lem, e, collect_transactions_lem trxs (replay out s es), f)
      ]
      | inr (c, e) ↦ simp (collect_transaction_lem, e)
    ]

    -- Every sink is fed exactly the persisted events of the block, in order, and an error of the
    -- collection is an error of the list.
    pub collect_block_refines :
        (b : Eth.Block) (s : S)
        → collect_block out en b s ≡ result_map (replay out s) (block_events en b)
    unfolding collect_block block_events
    collect_block_refines b s = elim (Result-cases (transactions_events en b.transaction_traces)) [
      | inl (es, e) ↦ simp (
        collect_transactions_lem, e, emit_code_lem, emit_balance_lem, emit_system_lem,
        replay-append,
      )
      | inr (c, e) ↦ simp (collect_transactions_lem, e)
    ]
