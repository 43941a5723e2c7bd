-- ===== src/Lifecycle.antt =====
-- src/lifecycle.rs: account deletion at the end of a transaction (EIP-6780), delegated code
-- included. The walk to the execution account takes fuel, one unit for each call of the transaction
-- and two more: each step but the last visits a call with a new index.
pub mod Walk
pub mod Latest
pub mod Deletions
use substreams_evm_state.Prelude.{
  ℕ, zero, suc, ◌+◌, Bool, true, false, not, ◌&&◌, ◌||◌, Option, none, some, List, [], ◌∷◌, Bytes,
  max, length, any, contains, ltb, leb, ◌==◌, if◌then◌else◌, Result, ok, err, require, ◌>>=◌, ◌>>◌,
  ok_or, cyclic_ancestry, missing_context, unreliable_end_ordinal, system_selfdestruct, out_of_fuel,
}
use substreams_evm_state.Prelude.Order.{text_ord}
use substreams_evm_state.Btree.{Btree, get, insert}
use substreams_evm_state.Extern.{Enums}
use substreams_evm_state.Eth
use substreams_evm_state.Eth.{CallType, callcode, delegate, create}
use substreams_evm_state.Persist.Rules.{is_failed}

abbrev pub bsc_cancun_time : ℕ
bsc_cancun_time = 1_718_863_500

-- `matches!(current.call_type(), CallType::Delegate | CallType::Callcode)`
unfoldable pub is_delegated : Eth.Call → Bool
is_delegated c = elim c.call_type [ delegate ↦ true | callcode ↦ true | _ ↦ false ]

abbrev pub is_create : CallType → Bool
is_create create = true
is_create _ = false

-- The first call with the parent's index, which must not be the call's own.
unfoldable pub find_parent : Eth.Call → List Eth.Call → Option Eth.Call
find_parent current [] = none
find_parent current (parent ∷ calls) =
    if parent.index == current.parent_index && not (parent.index == current.index)
    then some parent
    else find_parent current calls

-- `visited.contains`
unfoldable pub seen : List ℕ → ℕ → Bool
seen [] i = false
seen (v ∷ visited) i = v == i || seen visited i

-- The `while` loop, with fuel.
unfoldable pub walk : ℕ → List Eth.Call → List ℕ → Eth.Call → Result Bytes
walk zero calls visited current = err out_of_fuel
walk (suc fuel) calls visited current = elim (is_delegated current) [
  | false ↦ ok current.address
  | true ↦ elim (seen visited current.index) [
    | true ↦ err cyclic_ancestry
    | false ↦ elim (find_parent current calls) [
      | none ↦ err missing_context
      | some parent ↦ walk fuel calls (current.index ∷ visited) parent
    ]
  ]
]

unfoldable pub execution_address : Eth.Call → List Eth.Call → Result Bytes
execution_address call calls = walk (length calls + 2) calls [] call

-- The accounts that the transaction's calls created.
unfoldable pub created : List Eth.Call → List Bytes
created [] = []
created (c ∷ calls) =
    let rest = created calls in
    if not c.state_reverted && is_create c.call_type then c.address ∷ rest else rest

-- `c.suicide && !c.state_reverted`
abbrev pub is_doomed : Eth.Call → Bool
is_doomed c = c.suicide && not c.state_reverted

-- `entry(account).and_modify(|end| max(end, end_ordinal)).or_insert(end_ordinal)`
unfoldable pub raise : Option ℕ → ℕ → ℕ
raise none e = e
raise (some o) e = max o e

abbrev pub Ends : Type 0
Ends = Btree Bytes ℕ

-- Whether the destruction of the account deletes it: before Cancun, or in the transaction that
-- created it.
unfoldable pub is_deleted : ℕ → List Eth.Call → Bytes → Bool
is_deleted timestamp calls account =
    ltb timestamp bsc_cancun_time || contains (created calls) account

-- One destroying call of a transaction.
unfoldable pub delete_call : ℕ → Eth.TransactionTrace → Eth.Call → Ends → Result Ends
delete_call timestamp trx call ends = do
  account ← execution_address call trx.calls
  if is_deleted timestamp trx.calls account
      then (if trx.end_ordinal == 0 || leb trx.end_ordinal call.end_ordinal
          then err unreliable_end_ordinal
          else ok (insert ends account (raise (get ends account) trx.end_ordinal)))
      else ok ends

unfoldable pub delete_calls : ℕ → Eth.TransactionTrace → List Eth.Call → Ends → Result Ends
delete_calls timestamp trx [] ends = ok ends
delete_calls timestamp trx (call ∷ calls) ends =
    let skip = delete_calls timestamp trx calls ends in
    let run = (do e ← delete_call timestamp trx call ends; delete_calls timestamp trx calls e) in
    if is_doomed call then run else skip

unfoldable pub delete_transactions : Enums → ℕ → List Eth.TransactionTrace → Ends → Result Ends
delete_transactions en timestamp [] ends = ok ends
delete_transactions en timestamp (trx ∷ trxs) ends =
    let skip = delete_transactions en timestamp trxs ends in
    let run = (do
      e ← delete_calls timestamp trx trx.calls ends
      delete_transactions en timestamp trxs e) in
    if is_failed en trx then skip else run

unfoldable pub deletions : Enums → Eth.Block → ℕ → Result Ends
deletions en b timestamp = do
  ends ← delete_transactions en timestamp b.transaction_traces []
  require (not (any is_doomed b.system_calls)) system_selfdestruct
  ok ends
