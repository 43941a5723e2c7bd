-- ===== src/BlockState.antt =====
-- src/block_state.rs: the native projection of a block, one row that holds the block-end values of
-- the selected accounts.
pub mod Fold
pub mod Checks
pub mod Keep
pub mod Clear
pub mod Zero
pub mod Nonces
pub mod Rows
pub mod StorageRows
use substreams_evm_state.Prelude.{
  ℕ, zero, suc, ◌+◌, ◌-◌, Bool, true, false, not, ◌&&◌, ◌||◌, Option, none, some, List, [], ◌∷◌,
  ◌++◌, Bytes, Text, codes, length, is_empty, any, all, ltb, leb, ◌==◌, bytes_eq, if◌then◌else◌,
  Result, ok, err, require, ok_or, ◌>>=◌, ◌>>◌, word_exceeds_32_bytes, accounts_required,
  extended_required, unsupported_version, missing_header, invalid_hash, number_mismatch,
  missing_timestamp, invalid_timestamp, unknown_status, missing_calls, invalid_code_hash,
  missing_origin,
}
use substreams_evm_state.Prelude.Int.{ℤ, pos, negsuc, ◌==ℤ◌, in_range, as_u64}
use substreams_evm_state.Prelude.Order.{text_ord, nat_ord, pair_ord}
use substreams_evm_state.Btree.{Btree, get, insert, retain, values}
use substreams_evm_state.Extern.{Hex, Decimal, Enums}
use substreams_evm_state.Eth
use substreams_evm_state.Proto
use substreams_evm_state.Proto.{BlockState, LifecycleEffect}
use substreams_evm_state.Params.{Filter, parse, canonical, matches, hex_text}
use substreams_evm_state.Persist.Rules.{is_failed}
use substreams_evm_state.Lifecycle.{execution_address, is_doomed, deletions, Ends}
use substreams_evm_state.Collect.{collect}

abbrev pub empty_code_hash : Text
empty_code_hash = codes "0xc5d2460186f7233c927e7db2dcc703c0e500b653ca82273b7bfad8045d85a470"

-- The keys of the storage rows and of the lifecycle rows.
abbrev pub SlotKey : Type 0
SlotKey = Text × Text

abbrev pub LifecycleKey : Type 0
LifecycleKey = Text × (ℕ × Text)

-- The five maps that `project` fills.
pub record Maps : Type 0 where
  pub storage : Btree SlotKey Proto.StorageValue
  pub balances : Btree Text Proto.BalanceValue
  pub nonces : Btree Text Proto.NonceValue
  pub codes : Btree Text Proto.CodeValue
  pub lifecycle : Btree LifecycleKey LifecycleEffect

abbrev pub no_rows : Maps
no_rows = record { storage = []; balances = []; nonces = []; codes = []; lifecycle = [] }

-- `c.origin.unwrap().ordinal`; the panic is the error `missing_origin`.
abbrev pub ordinal_of : Option Proto.Origin → Result ℕ
ordinal_of none = err missing_origin
ordinal_of (some o) = ok o.ordinal

unfoldable pub zeros : ℕ → Text
zeros zero = []
zeros (suc n) = b'0' ∷ zeros n

unfoldable pub add_effect : Text → ℕ → Text → Maps → Maps
add_effect address ordinal kind m = record m {
  lifecycle =
      insert m.lifecycle (address, (ordinal, kind))
        (record { address = address; kind = kind; ordinal = ordinal });
}

-- `is_none_or(|value| value.ordinal < ordinal)`
abbrev pub is_older {ℓ} : {V : Type ℓ} → (V → ℕ) → Option V → ℕ → Bool
is_older key none ordinal = true
is_older key (some v) ordinal = ltb (key v) ordinal

abbrev pub storage_ordinal : Proto.StorageValue → ℕ
storage_ordinal v = v.ordinal

abbrev pub balance_ordinal : Proto.BalanceValue → ℕ
balance_ordinal v = v.ordinal

abbrev pub nonce_ordinal : Proto.NonceValue → ℕ
nonce_ordinal v = v.ordinal

abbrev pub code_ordinal : Proto.CodeValue → ℕ
code_ordinal v = v.ordinal

-- The rows of a deleted account: its older storage goes, and what is older than the deletion is
-- set to zero.
unfoldable pub clear_storage :
    Text → ℕ → Btree SlotKey Proto.StorageValue → Btree SlotKey Proto.StorageValue
clear_storage address ordinal = retain (λ k v. not (bytes_eq k.0 address) || ltb ordinal v.ordinal)

unfoldable pub clear_balance :
    Text → ℕ → Btree Text Proto.BalanceValue → Btree Text Proto.BalanceValue
clear_balance address ordinal m =
    if is_older balance_ordinal (get m address) ordinal
    then insert m address (record { address = address; value = codes "0"; ordinal = ordinal })
    else m

unfoldable pub clear_nonce : Text → ℕ → Btree Text Proto.NonceValue → Btree Text Proto.NonceValue
clear_nonce address ordinal m =
    if is_older nonce_ordinal (get m address) ordinal
    then insert m address (record { address = address; value = 0; ordinal = ordinal })
    else m

unfoldable pub clear_code : Text → ℕ → Btree Text Proto.CodeValue → Btree Text Proto.CodeValue
clear_code address ordinal m =
    if is_older code_ordinal (get m address) ordinal
    then insert m address
        (record { address = address; hash = empty_code_hash; code = codes "0x"; ordinal = ordinal })
    else m

unfoldable pub delete_account : Text → ℕ → Maps → Maps
delete_account address ordinal m =
    let m' = add_effect address ordinal (codes "storage_reset") m in
    record m' {
      storage = clear_storage address ordinal m.storage;
      balances = clear_balance address ordinal m.balances;
      nonces = clear_nonce address ordinal m.nonces;
      codes = clear_code address ordinal m.codes;
    }

-- `seconds >= 0`
abbrev pub is_nonneg : ℤ → Bool
is_nonneg (pos n) = true
is_nonneg (negsuc n) = false

-- The checks on the transactions, in their order.
unfoldable pub check_transactions : List Eth.TransactionTrace → Result (Unit {0})
check_transactions [] = ok tt
check_transactions (trx ∷ trxs) = do
  require (in_range 1 3 trx.status) unknown_status
  require (not (is_empty trx.calls)) missing_calls
  check_transactions trxs

module _ (hex : Hex) where
  unfoldable pub word : Bytes → Result Text
  word bytes =
      if ltb 32 (length bytes)
      then err word_exceeds_32_bytes
      else (let digits = hex.encode bytes in
          ok (codes "0x" ++ (zeros (64 - length digits) ++ digits)))

  unfoldable pub add_storage :
      List Proto.StorageChange
      → Btree SlotKey Proto.StorageValue
      → Result (Btree SlotKey Proto.StorageValue)
  add_storage [] m = ok m
  add_storage (c ∷ cs) m = do
    slot ← word c.key
    value ← word c.new_value
    ordinal ← ordinal_of c.origin
    let address = hex_text hex c.address
    add_storage cs (
        insert m (address, slot)
          (record { address = address; slot = slot; value = value; ordinal = ordinal }))

  unfoldable pub add_balances :
      List Proto.BalanceChange
      → Btree Text Proto.BalanceValue
      → Result (Btree Text Proto.BalanceValue)
  add_balances [] m = ok m
  add_balances (c ∷ cs) m = do
    ordinal ← ordinal_of c.origin
    let address = hex_text hex c.address
    add_balances cs
        (insert m address (record { address = address; value = c.new_value; ordinal = ordinal }))

  unfoldable pub add_nonce : Proto.NonceChange → ℕ → Maps → Maps
  add_nonce c ordinal m =
      let address = hex_text hex c.address in
      let m' =
        if ltb c.new_value c.old_value
        then add_effect address ordinal (codes "nonce_reset") m
        else m in
      record m' {
        nonces =
            insert m'.nonces address
              (record { address = address; value = c.new_value; ordinal = ordinal });
      }

  unfoldable pub add_nonces : List Proto.NonceChange → Maps → Result Maps
  add_nonces [] m = ok m
  add_nonces (c ∷ cs) m = do ordinal ← ordinal_of c.origin; add_nonces cs (add_nonce c ordinal m)

  unfoldable pub add_code : Proto.CodeChange → ℕ → Maps → Maps
  add_code c ordinal m =
      let address = hex_text hex c.address in
      let m' =
        if is_empty c.new_code then add_effect address ordinal (codes "code_cleared") m else m in
      record m' {
        codes = insert m'.codes address (record {
          address = address;
          hash = if is_empty c.new_hash then empty_code_hash else hex_text hex c.new_hash;
          code = hex_text hex c.new_code;
          ordinal = ordinal;
        });
      }

  unfoldable pub add_codes : List Proto.CodeChange → Maps → Result Maps
  add_codes [] m = ok m
  add_codes (c ∷ cs) m = do
    ordinal ← ordinal_of c.origin
    require (length c.new_hash == 32 || (is_empty c.new_hash && is_empty c.new_code))
        invalid_code_hash
    add_codes cs (add_code c ordinal m)

  -- The destroying calls of one transaction, whatever becomes of their accounts.
  unfoldable pub add_suicides : Filter → Eth.TransactionTrace → List Eth.Call → Maps → Result Maps
  add_suicides f trx [] m = ok m
  add_suicides f trx (call ∷ calls) m =
      let skip = add_suicides f trx calls m in
      let run = (do
        account ← execution_address call trx.calls
        add_suicides f trx calls (
            if matches f account
            then add_effect (hex_text hex account) call.end_ordinal (codes "selfdestruct") m
            else m)) in
      if is_doomed call then run else skip

  unfoldable pub add_transactions : Enums → Filter → List Eth.TransactionTrace → Maps → Result Maps
  add_transactions en f [] m = ok m
  add_transactions en f (trx ∷ trxs) m =
      let skip = add_transactions en f trxs m in
      let run = (do m' ← add_suicides f trx trx.calls m; add_transactions en f trxs m') in
      if is_failed en trx then skip else run

  unfoldable pub delete_accounts : Filter → Ends → Maps → Maps
  delete_accounts f [] m = m
  delete_accounts f ((account, ordinal) ∷ ends) m =
      delete_accounts f ends
        (if not (matches f account) then m else delete_account (hex_text hex account) ordinal m)

-- The `BlockState` that `project` returns.
unfoldable pub block_row :
    Hex → Filter → Eth.Block → Eth.BlockHeader → Eth.Timestamp → Maps → BlockState
block_row hex f b header timestamp m = record {
  number = b.number;
  hash = hex_text hex b.hash;
  parent_hash = hex_text hex header.parent_hash;
  timestamp = as_u64 timestamp.seconds;
  state_root = hex_text hex header.state_root;
  producer_version = b.ver;
  accounts = canonical hex f;
  schema_version = 1;
  storage = values m.storage;
  balances = values m.balances;
  nonces = values m.nonces;
  codes = values m.codes;
  lifecycle = values m.lifecycle;
}

module _ (hex : Hex) (dec : Decimal) (en : Enums) where
  unfoldable pub project : Text → Eth.Block → Result BlockState
  project params b = do
    f ← parse hex params
    require (not (is_empty f.accounts)) accounts_required
    require (b.detail_level ==ℤ en.extended) extended_required
    require (in_range 3 5 b.ver) unsupported_version
    header ← ok_or b.header missing_header
    require
        (length b.hash == 32 && length header.parent_hash == 32 && length header.state_root == 32)
        invalid_hash
    require (header.number == b.number) number_mismatch
    timestamp ← ok_or header.timestamp missing_timestamp
    require (is_nonneg timestamp.seconds && in_range 0 999_999_999 timestamp.nanos)
        invalid_timestamp
    check_transactions b.transaction_traces
    changes ← collect hex dec en params b
    storage ← add_storage hex changes.storage_changes []
    balances ← add_balances hex changes.balance_changes []
    m1 ←
        add_nonces hex changes.nonce_changes
          (record no_rows { storage = storage; balances = balances })
    m2 ← add_codes hex changes.code_changes m1
    m3 ← add_transactions hex en f b.transaction_traces m2
    ends ← deletions en b (as_u64 timestamp.seconds)
    let m = delete_accounts hex f ends m3
    ok (block_row hex f b header timestamp m)
