-- ===== src/Collect.antt =====
-- `collect` of src/lib.rs: the persisted changes of a block on the selected accounts, each kind
-- sorted by its ordinal.
pub mod Records
use substreams_evm_state.Prelude.{
  ℕ, zero, suc, ◌+◌, ◌%◌, ◌^◌, Bool, true, false, not, ◌||◌, Option, none, some, List, [], ◌∷◌,
  ◌++◌, Bytes, Text, codes, length, is_empty, if◌then◌else◌, Result, ok, err, ◌>>=◌,
}
use substreams_evm_state.Prelude.Int.{ℤ, as_u64}
use substreams_evm_state.Prelude.StableSort.{sort_by}
use substreams_evm_state.Extern.{Hex, Decimal, Enums}
use substreams_evm_state.Eth
use substreams_evm_state.Proto
use substreams_evm_state.Params.{Filter, parse, matches}
use substreams_evm_state.Persist.{Ctx, Sink, collect_block}
use substreams_evm_state.Persist.Rules.{bytes_or_empty}

unfoldable pub origin : ℕ → Ctx → Option Proto.Origin
origin ord ctx = some (record {
  ordinal = ord;
  scope = ctx.scope;
  tx_hash = ctx.tx_hash;
  tx_index = ctx.tx_index;
  tx_status = ctx.tx_status;
  call_index = ctx.call_index;
})

-- Decimal digits; a missing or empty value is "0".
unfoldable pub bigint_dec : Decimal → Option Bytes → Text
bigint_dec dec none = codes "0"
bigint_dec dec (some b) = if not (is_empty b) then dec.decimal b else codes "0"

unfoldable pub storage_change : Eth.StorageChange → Ctx → Proto.StorageChange
storage_change c ctx = record {
  address = c.address;
  key = c.key;
  old_value = c.old_value;
  new_value = c.new_value;
  origin = origin c.ordinal ctx;
}

unfoldable pub balance_change : Decimal → Eth.BalanceChange → Ctx → Proto.BalanceChange
balance_change dec c ctx = record {
  address = c.address;
  old_value = bigint_dec dec c.old_value;
  new_value = bigint_dec dec c.new_value;
  reason = c.reason;
  origin = origin c.ordinal ctx;
}

unfoldable pub nonce_change : Eth.NonceChange → Ctx → Proto.NonceChange
nonce_change c ctx = record {
  address = c.address;
  old_value = c.old_value;
  new_value = c.new_value;
  origin = origin c.ordinal ctx;
}

unfoldable pub code_change : Eth.CodeChange → Ctx → Proto.CodeChange
code_change c ctx = record {
  address = c.address;
  old_hash = c.old_hash;
  new_hash = c.new_hash;
  new_code = c.new_code;
  origin = origin c.ordinal ctx;
}

-- `impl Sink for Collector`: a record of an account that the filter does not match is dropped, and
-- any other is pushed.
unfoldable pub collector : Decimal → Filter → Sink Proto.StateChanges
collector dec f = record {
  storage = λ out c ctx.
      if not (matches f c.address)
      then out
      else record out { storage_changes = out.storage_changes ++ storage_change c ctx ∷ [] };
  balance = λ out c ctx.
      if not (matches f c.address)
      then out
      else record out { balance_changes = out.balance_changes ++ balance_change dec c ctx ∷ [] };
  nonce = λ out c ctx.
      if not (matches f c.address)
      then out
      else record out { nonce_changes = out.nonce_changes ++ nonce_change c ctx ∷ [] };
  code = λ out c ctx.
      if not (matches f c.address)
      then out
      else record out { code_changes = out.code_changes ++ code_change c ctx ∷ [] };
}

abbrev header_timestamp : Option Eth.Timestamp → ℕ
header_timestamp none = 0
header_timestamp (some t) = as_u64 t.seconds

-- `BlockInfo`: what the header lacks is empty or zero.
unfoldable pub block_info : Eth.Block → Option Eth.BlockHeader → Proto.BlockInfo
block_info b none = record {
  number = b.number;
  hash = b.hash;
  parent_hash = [];
  timestamp = 0;
  state_root = [];
  coinbase = [];
  transaction_count = length b.transaction_traces % 2 ^ 32;
}
block_info b (some h) = record {
  number = b.number;
  hash = b.hash;
  parent_hash = h.parent_hash;
  timestamp = header_timestamp h.timestamp;
  state_root = h.state_root;
  coinbase = h.coinbase;
  transaction_count = length b.transaction_traces % 2 ^ 32;
}

unfoldable pub empty_changes : Eth.Block → Proto.StateChanges
empty_changes b = record {
  block = some (block_info b b.header);
  storage_changes = [];
  balance_changes = [];
  nonce_changes = [];
  code_changes = [];
  set_code_authorizations = [];
}

-- The authorization list of one transaction, from place `i` on.
unfoldable pub authorization_rows :
    Filter
    → Eth.TransactionTrace
    → ℕ
    → List Eth.SetCodeAuthorization
    → List Proto.SetCodeAuthorization
authorization_rows f trx i [] = []
authorization_rows f trx i (a ∷ as') =
    let authority = bytes_or_empty a.authority in
    let rest = authorization_rows f trx (i + 1) as' in
    if not (matches f authority || matches f a.address)
    then rest
    else record {
      tx_hash = trx.hash;
      tx_index = trx.index;
      index = i % 2 ^ 32;
      authority = authority;
      delegate = a.address;
      nonce = a.nonce;
      discarded = a.discarded;
      tx_status = trx.status;
    }
      ∷ rest

unfoldable pub block_authorizations :
    Filter → List Eth.TransactionTrace → List Proto.SetCodeAuthorization
block_authorizations f [] = []
block_authorizations f (trx ∷ trxs) =
    let rest = block_authorizations f trxs in
    if not trx.is_set_code
    then rest
    else authorization_rows f trx 0 trx.set_code_authorizations ++ rest

-- `ord`: the ordinal of an origin, zero if it is missing
abbrev pub ord : Option Proto.Origin → ℕ
ord none = 0
ord (some o) = o.ordinal

abbrev pub storage_ord : Proto.StorageChange → ℕ
storage_ord c = ord c.origin

abbrev pub balance_ord : Proto.BalanceChange → ℕ
balance_ord c = ord c.origin

abbrev pub nonce_ord : Proto.NonceChange → ℕ
nonce_ord c = ord c.origin

abbrev pub code_ord : Proto.CodeChange → ℕ
code_ord c = ord c.origin

unfoldable pub sort_changes : Proto.StateChanges → Proto.StateChanges
sort_changes out = record out {
  storage_changes = sort_by storage_ord out.storage_changes;
  balance_changes = sort_by balance_ord out.balance_changes;
  nonce_changes = sort_by nonce_ord out.nonce_changes;
  code_changes = sort_by code_ord out.code_changes;
}

module _ (hex : Hex) (dec : Decimal) (en : Enums) where
  unfoldable pub collect : Text → Eth.Block → Result Proto.StateChanges
  collect params b = do
    f ← parse hex params
    out ← collect_block (collector dec f) en b (empty_changes b)
    ok (
        sort_changes (record out {
          set_code_authorizations =
              out.set_code_authorizations ++ block_authorizations f b.transaction_traces;
        }))
