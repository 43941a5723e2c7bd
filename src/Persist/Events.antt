-- ===== src/Persist/Events.antt =====
-- What a block persists, as a list of events written down without loops or handlers, and how a
-- sink consumes such a list.
use substreams_evm_state.Prelude.{
  ℕ, ◌≡◌, refl, Bool, not, ◌&&◌, Option, none, some, List, [], ◌∷◌, ◌++◌, map, Bytes, filter,
  contains, is_empty, ◌==◌, if◌then◌else◌, Result, ok, err, ◌>>=◌, missing_boundary,
}
use substreams_evm_state.Extern.{Enums}
use substreams_evm_state.Eth
use substreams_evm_state.Proto.{tx, tx_failed_persistent, tx_7702, system_call, block}
use substreams_evm_state.Persist.{Ctx, block_ctx, base, Sink}
use substreams_evm_state.Persist.Rules.{
  is_failed, is_gas_reason, balance_is_noop, storage_is_noop, nonce_differs, code_differs,
  authorities, Indexed, enumerate, sender_nonce, is_same_record, before_execution,
}

pub data Event : Type 0 where
  storage : Eth.StorageChange → Ctx → Event
  balance : Eth.BalanceChange → Ctx → Event
  nonce : Eth.NonceChange → Ctx → Event
  code : Eth.CodeChange → Ctx → Event

module _ {S : Type 0} (out : Sink S) where
  abbrev pub play : S → Event → S
  play s (storage c ctx) = out.storage s c ctx
  play s (balance c ctx) = out.balance s c ctx
  play s (nonce c ctx) = out.nonce s c ctx
  play s (code c ctx) = out.code s c ctx

  abbrev pub replay : S → List Event → S
  replay s [] = s
  replay s (e ∷ es) = replay (play s e) es

  pub replay-append : (s : S) (es fs : List Event) → replay s (es ++ fs) ≡ replay (replay s es) fs
  replay-append s [] fs = refl
  replay-append s (e ∷ es) fs = replay-append (play s e) es fs

unfoldable pub storage_events : Ctx → List Eth.StorageChange → List Event
storage_events ctx cs = map (λ c. storage c ctx) (filter (λ c. not (storage_is_noop c)) cs)

unfoldable pub balance_events : Ctx → List Eth.BalanceChange → List Event
balance_events ctx cs = map (λ c. balance c ctx) (filter (λ c. not (balance_is_noop c)) cs)

unfoldable pub nonce_events : Ctx → List Eth.NonceChange → List Event
nonce_events ctx cs = map (λ c. nonce c ctx) (filter nonce_differs cs)

unfoldable pub code_events : Ctx → List Eth.CodeChange → List Event
code_events ctx cs = map (λ c. code c ctx) (filter code_differs cs)

-- Every change of a call.
unfoldable pub call_events : Ctx → Eth.Call → List Event
call_events ctx call =
    storage_events ctx call.storage_changes
    ++ (balance_events ctx call.balance_changes
        ++ (nonce_events ctx call.nonce_changes ++ code_events ctx call.code_changes))

-- The changes of the calls that were not reverted.
unfoldable pub calls_events : (Eth.Call → Ctx) → List Eth.Call → List Event
calls_events ctx [] = []
calls_events ctx (call ∷ calls) =
    (if call.state_reverted then [] else call_events (ctx call) call) ++ calls_events ctx calls

unfoldable pub gas_events : Enums → Ctx → List Eth.BalanceChange → List Event
gas_events en ctx cs =
    map (λ c. balance c ctx) (filter (λ c. is_gas_reason en c && not (balance_is_noop c)) cs)

unfoldable pub sender_events : Ctx → Option Indexed → List Event
sender_events ctx none = []
sender_events ctx (some n) = nonce n.1 ctx ∷ []

-- An authorization's nonce record: before execution, of an authority, a change, not the sender's.
abbrev pub is_auth_nonce : Option Indexed → List Bytes → ℕ → Indexed → Bool
is_auth_nonce sender auths begin_ordinal n =
    not (is_same_record sender n)
    && (before_execution begin_ordinal (n.1).ordinal
        && contains auths (n.1).address
        && nonce_differs n.1)

abbrev pub is_auth_code : List Bytes → ℕ → Eth.CodeChange → Bool
is_auth_code auths begin_ordinal c =
    before_execution begin_ordinal c.ordinal && contains auths c.address && code_differs c

unfoldable pub auth_nonce_events : Ctx → Option Indexed → List Bytes → ℕ → List Indexed → List Event
auth_nonce_events ctx sender auths begin_ordinal ns =
    map (λ n. nonce n.1 ctx) (filter (is_auth_nonce sender auths begin_ordinal) ns)

unfoldable pub auth_code_events : Ctx → List Bytes → ℕ → List Eth.CodeChange → List Event
auth_code_events ctx auths begin_ordinal cs =
    map (λ c. code c ctx) (filter (is_auth_code auths begin_ordinal) cs)

-- What an authorization list adds to a failed transaction.
unfoldable pub auth_events : Enums → Eth.TransactionTrace → Eth.Call → Result (List Event)
auth_events en trx root =
    let ctx = base en trx tx_7702 root.index in
    let sender = sender_nonce trx root.nonce_changes in
    let auths = authorities trx in
    if is_empty auths
    then ok []
    else if root.begin_ordinal == 0
    then err missing_boundary
    else ok (
        auth_nonce_events ctx sender auths root.begin_ordinal (enumerate 0 root.nonce_changes)
        ++ auth_code_events ctx auths root.begin_ordinal root.code_changes)

unfoldable pub root_events : Enums → Eth.TransactionTrace → Eth.Call → Result (List Event)
root_events en trx root = do
  auth ← auth_events en trx root
  let ctx = base en trx tx_failed_persistent root.index
  ok (
      gas_events en ctx root.balance_changes
      ++ (sender_events ctx (sender_nonce trx root.nonce_changes) ++ auth))

unfoldable pub failed_events : Enums → Eth.TransactionTrace → List Eth.Call → Result (List Event)
failed_events en trx [] = ok []
failed_events en trx (root ∷ calls) = root_events en trx root

unfoldable pub transaction_events : Enums → Eth.TransactionTrace → Result (List Event)
transaction_events en trx =
    if not (is_failed en trx)
    then ok (calls_events (λ call. base en trx tx call.index) trx.calls)
    else failed_events en trx trx.calls

unfoldable pub transactions_events : Enums → List Eth.TransactionTrace → Result (List Event)
transactions_events en [] = ok []
transactions_events en (trx ∷ trxs) = do
  es ← transaction_events en trx
  fs ← transactions_events en trxs
  ok (es ++ fs)

abbrev pub system_ctx : Eth.Call → Ctx
system_ctx call = record (block_ctx system_call) { call_index = call.index }

unfoldable pub block_events : Enums → Eth.Block → Result (List Event)
block_events en b = do
  es ← transactions_events en b.transaction_traces
  ok (
      calls_events system_ctx b.system_calls
      ++ (balance_events (block_ctx block) b.balance_changes
          ++ (code_events (block_ctx block) b.code_changes ++ es)))
