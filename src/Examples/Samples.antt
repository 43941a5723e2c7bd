-- ===== src/Examples/Samples.antt =====
-- A block of three transactions, and what the modules compute on it.
use substreams_evm_state.Prelude.{
  ℕ, zero, suc, ◌≡◌, refl, true, false, some, List, [], ◌∷◌, Bytes, Text, codes, Result, ok, err,
}
use substreams_evm_state.Prelude.Int.{pos}
use substreams_evm_state.Eth
use substreams_evm_state.Eth.{plain, delegate, create}
use substreams_evm_state.Proto
use substreams_evm_state.Proto.{BlockState}
use substreams_evm_state.Examples.Instances.{
  plain_hex, plain_decimal, plain_enums, encode, decode, digit, digit_value, push_byte, tx_status,
  tx_status_code, change_reason,
}
use substreams_evm_state.Prelude.Lists.{any, all, filter, bytes_eq, contains}
use substreams_evm_state.Prelude.Order.{text_cmp}
use substreams_evm_state.Prelude.StableSort.{insert_by, sort_by}
use substreams_evm_state.Btree.{get, insert, retain, values}
use substreams_evm_state.Params.Words.{
  is_whitespace, is_separator, push_first, words, trim_start, trim, strip_prefix, sort_insert, sort,
  join,
}
use substreams_evm_state.Params.{
  add_account, strip_0x, parse_address, parse_words, parse, hex_text, canonical, matches,
}
use substreams_evm_state.Persist.Rules.{
  is_failed, is_gas_reason, strip_zeros, balance_is_noop, storage_is_noop, authorities,
  is_sender_nonce, enumerate, min_by_ordinal, first_min, sender_nonce,
}
use substreams_evm_state.Persist.{
  base, emit_storage, emit_balance, emit_nonce, emit_code, emit_call_all, emit_calls, emit_gas,
  emit_sender, emit_auth_nonces, emit_auth_codes, collect_root, collect_failed, collect_transaction,
  collect_transactions, emit_system, collect_block,
}
use substreams_evm_state.Persist.Events.{
  storage_events, balance_events, nonce_events, code_events, call_events, calls_events, gas_events,
  sender_events, auth_nonce_events, auth_code_events, auth_events, root_events, failed_events,
  transaction_events, transactions_events, block_events,
}
use substreams_evm_state.Lifecycle.{
  is_delegated, find_parent, seen, walk, execution_address, created, raise, is_deleted, delete_call,
  delete_calls, delete_transactions, deletions,
}
use substreams_evm_state.Collect.{
  origin, bigint_dec, storage_change, balance_change, nonce_change, code_change, collector,
  block_info, empty_changes, authorization_rows, block_authorizations, sort_changes, collect,
}
use substreams_evm_state.Persist.Events.{Event}
use substreams_evm_state.Params.{Filter}
use substreams_evm_state.BlockState.{
  no_rows, zeros, add_effect, clear_storage, clear_balance, clear_nonce, clear_code, delete_account,
  check_transactions, word, add_storage, add_balances, add_nonce, add_nonces, add_code, add_codes,
  add_suicides, add_transactions, delete_accounts, block_row, project,
}

-- `n` bytes `b`
abbrev pub bytes : ℕ → ℕ → Bytes
bytes zero b = []
bytes (suc n) b = b ∷ bytes n b

abbrev pub alice : Bytes
alice = bytes 20 17

abbrev pub bob : Bytes
bob = bytes 20 34

abbrev pub params : Text
params =
    codes "0x1111111111111111111111111111111111111111, 0X2222222222222222222222222222222222222222"

abbrev pub slot : Bytes → Bytes → Bytes → ℕ → Eth.StorageChange
slot address old new ordinal = record {
  address = address;
  key = 5 ∷ [];
  old_value = old;
  new_value = new;
  ordinal = ordinal;
}

abbrev pub nonce : Bytes → ℕ → ℕ → Eth.NonceChange
nonce address old ordinal = record {
  address = address;
  old_value = old;
  new_value = suc old;
  ordinal = ordinal;
}

abbrev pub empty_call : Eth.Call
empty_call = record {
  index = 1;
  parent_index = 0;
  call_type = plain;
  address = alice;
  suicide = false;
  state_reverted = false;
  begin_ordinal = 2;
  end_ordinal = 6;
  storage_changes = [];
  balance_changes = [];
  nonce_changes = [];
  code_changes = [];
}

-- A change that stays, one that does not change the number, and a nonce.
abbrev pub first_call : Eth.Call
first_call = record empty_call {
  storage_changes = slot alice [] (7 ∷ []) 3 ∷ slot alice (0 ∷ 7 ∷ []) (7 ∷ []) 4 ∷ [];
  nonce_changes = nonce alice 0 2 ∷ [];
}

abbrev pub failed_call : Eth.Call
failed_call = record empty_call {
  begin_ordinal = 12;
  storage_changes = slot alice (7 ∷ []) (8 ∷ []) 13 ∷ [];
  nonce_changes = nonce alice 1 11 ∷ [];
}

abbrev pub create_call : Eth.Call
create_call = record empty_call {
  call_type = create;
  address = bob;
  end_ordinal = 25;
  storage_changes = slot bob [] (6 ∷ []) 22 ∷ [];
}

-- Code that runs for its parent's account, and destroys it.
abbrev pub doomed_call : Eth.Call
doomed_call = record empty_call {
  index = 2;
  parent_index = 1;
  call_type = delegate;
  address = bytes 20 51;
  suicide = true;
  end_ordinal = 24;
}

abbrev pub first : Eth.TransactionTrace
first = record {
  hash = bytes 32 1;
  index = 0;
  status = pos 1;
  is_set_code = false;
  from = alice;
  nonce = 0;
  end_ordinal = 8;
  calls = first_call ∷ [];
  set_code_authorizations = [];
}

abbrev pub failing : Eth.TransactionTrace
failing = record first {
  index = 1;
  status = pos 2;
  nonce = 1;
  end_ordinal = 18;
  calls = failed_call ∷ [];
}

abbrev pub deleting : Eth.TransactionTrace
deleting = record first { index = 2; end_ordinal = 28; calls = create_call ∷ doomed_call ∷ [] }

abbrev pub timestamp : Eth.Timestamp
timestamp = record { seconds = pos 1_800_000_000; nanos = pos 0 }

abbrev pub header : Eth.BlockHeader
header = record {
  number = 100;
  parent_hash = bytes 32 2;
  state_root = bytes 32 3;
  coinbase = bytes 20 4;
  timestamp = some timestamp;
}

abbrev pub sample : Eth.Block
sample = record {
  ver = pos 4;
  detail_level = pos 0;
  hash = bytes 32 5;
  number = 100;
  header = some header;
  transaction_traces = first ∷ failing ∷ deleting ∷ [];
  system_calls = [];
  balance_changes = [];
  code_changes = [];
}

abbrev pub or_default : {A : Type 0} → A → Result A → A
or_default a (ok x) = x
or_default a (err e) = a

-- Unfolding it unfolds the code.
unfoldable pub the_code : ℕ
unfolding any all filter bytes_eq contains text_cmp insert_by sort_by get insert retain values
    is_whitespace is_separator push_first words trim_start trim strip_prefix sort_insert sort join
    add_account strip_0x parse_address parse_words parse hex_text canonical matches is_failed
    is_gas_reason strip_zeros balance_is_noop storage_is_noop authorities is_sender_nonce enumerate
    min_by_ordinal first_min sender_nonce base emit_storage emit_balance emit_nonce emit_code
    emit_call_all emit_calls emit_gas emit_sender emit_auth_nonces emit_auth_codes collect_root
    collect_failed collect_transaction collect_transactions emit_system collect_block storage_events
    balance_events nonce_events code_events call_events calls_events gas_events sender_events
    auth_nonce_events auth_code_events auth_events root_events failed_events transaction_events
    transactions_events block_events is_delegated find_parent seen walk execution_address created
    raise is_deleted delete_call delete_calls delete_transactions deletions origin bigint_dec
    storage_change balance_change nonce_change code_change collector block_info empty_changes
    authorization_rows block_authorizations sort_changes collect zeros add_effect clear_storage
    clear_balance clear_nonce clear_code delete_account check_transactions word add_storage
    add_balances add_nonce add_nonces add_code add_codes add_suicides add_transactions
    delete_accounts block_row project encode decode digit digit_value push_byte tx_status
    tx_status_code change_reason
the_code = 0

abbrev pub changes : Proto.StateChanges
changes =
    or_default (empty_changes sample) (collect plain_hex plain_decimal plain_enums params sample)

pub sample_collects : collect plain_hex plain_decimal plain_enums params sample ≡ ok changes
unfolding the_code
sample_collects = refl

abbrev pub accounts : Filter
accounts = record { accounts = bob ∷ alice ∷ [] }

pub sample_parses : parse plain_hex params ≡ ok accounts
unfolding the_code
sample_parses = refl

abbrev pub events : List Event
events = or_default [] (block_events plain_enums sample)

pub sample_happens : block_events plain_enums sample ≡ ok events
unfolding the_code
sample_happens = refl

pub sample_deletes : deletions plain_enums sample 1_800_000_000 ≡ ok ((bob, 28) ∷ [])
unfolding the_code
sample_deletes = refl

abbrev pub state : BlockState
state =
    or_default (block_row plain_hex accounts sample header timestamp no_rows)
      (project plain_hex plain_decimal plain_enums params sample)

pub sample_projects : project plain_hex plain_decimal plain_enums params sample ≡ ok state
unfolding the_code
sample_projects = refl
