-- ===== src/DbOut.antt =====
-- src/db_out.rs: the rows of the PostgreSQL tables that the changes of a block become. The tables
-- themselves are the package substreams_database_change, so that `project` is the list of the calls
-- that the code makes of it: each `upsert_row` with its keys and the fields that are set. A
-- `HashMap` is the list of its entries; the order in which the code goes through one is not fixed.
pub mod Latest
pub mod Rows
pub mod Project
use substreams_evm_state.Prelude.{
  ℕ, zero, suc, ◌-◌, Bool, true, ◌&&◌, Option, none, some, List, [], ◌∷◌, ◌++◌, map, String, Bytes,
  Text, codes, length, is_empty, bytes_eq, leb, if◌then◌else◌,
}
use substreams_evm_state.Prelude.Int
use substreams_evm_state.Prelude.Int.{ℤ}
use substreams_evm_state.Extern.{Hex}
use substreams_evm_state.Proto
use substreams_evm_state.Proto.{
  Origin, Scope, StateChanges, BlockInfo, unspecified, tx, tx_failed_persistent, tx_7702,
  system_call, block,
}

-- A value that is set. A number stands for itself, and in a key or a timestamp for its decimal text.
pub data Field : Type 0 where
  text : Text → Field
  number : ℕ → Field
  int : ℤ → Field
  flag : Bool → Field

-- A call of `upsert_row`, with the fields of `set` and of `set_if_null`.
pub record Upsert : Type 0 where
  pub table : String
  pub keys : List (String × Field)
  pub fields : List (String × Field)
  pub if_null : List (String × Field)

abbrev pub upsert : String → List (String × Field) → List (String × Field) → Upsert
upsert table keys fields = record { table = table; keys = keys; fields = fields; if_null = [] }

unfoldable pub double_zeros : ℕ → Text
double_zeros zero = []
double_zeros (suc n) = 48 ∷ 48 ∷ double_zeros n

unfoldable pub scope_name : Option Origin → String
scope_name none = "unspecified"
scope_name (some o) = elim o.scope [
  | tx ↦ "tx"
  | tx_failed_persistent ↦ "tx_failed_persistent"
  | tx_7702 ↦ "tx_7702"
  | system_call ↦ "system_call"
  | block ↦ "block"
  | unspecified ↦ "unspecified"
]

abbrev pub no_origin : Origin
no_origin = record {
  ordinal = 0;
  scope = unspecified;
  tx_hash = [];
  tx_index = 0;
  tx_status = Int.pos 0;
  call_index = 0;
}

abbrev pub origin_or : Option Origin → Origin
origin_or none = no_origin
origin_or (some o) = o

abbrev pub no_info : BlockInfo
no_info = record {
  number = 0;
  hash = [];
  parent_hash = [];
  timestamp = 0;
  state_root = [];
  coinbase = [];
  transaction_count = 0;
}

abbrev pub info_or : Option BlockInfo → BlockInfo
info_or none = no_info
info_or (some info) = info

unfoldable pub ord : Option Origin → ℕ
ord none = 0
ord (some o) = o.ordinal

-- `entry(key)`: the entry of a key is made or changed in its place.
module _ {K V : Type 0} (same : K → K → Bool) where
  unfoldable pub update : K → (Option V → V) → List (K × V) → List (K × V)
  update k f [] = (k, f none) ∷ []
  update k f ((j, v) ∷ m) =
      let rest = update k f m in if same j k then (j, f (some v)) ∷ m else (j, v) ∷ rest

  unfoldable pub find : K → List (K × V) → Option V
  find k [] = none
  find k ((j, v) ∷ m) = if same j k then some v else find k m

-- Of two values with their ordinals the second, unless it is the older one.
unfoldable pub newer : {V : Type 0} → ℕ × V → Option (ℕ × V) → ℕ × V
newer e none = e
newer e (some p) = if leb p.0 e.0 then e else p

abbrev pub Slot : Type 0
Slot = Bytes × Bytes

unfoldable pub slot_eq : Slot → Slot → Bool
slot_eq a b = bytes_eq a.0 b.0 && bytes_eq a.1 b.1

-- The loop over the storage changes.
unfoldable pub last_storage :
    List Proto.StorageChange → List (Slot × (ℕ × Bytes)) → List (Slot × (ℕ × Bytes))
last_storage [] m = m
last_storage (c ∷ cs) m =
    last_storage cs (update slot_eq (c.address, c.key) (newer (ord c.origin, c.new_value)) m)

pub record Acc : Type 0 where
  pub balance : Option (ℕ × Text)
  pub nonce : Option (ℕ × ℕ)
  pub code : Option (ℕ × Bytes)

abbrev pub acc_or : Option Acc → Acc
acc_or none = record { balance = none; nonce = none; code = none }
acc_or (some a) = a

abbrev pub Accounts : Type 0
Accounts = List (Bytes × Acc)

-- The loops over the balance, the nonce and the code changes.
unfoldable pub last_balances : List Proto.BalanceChange → Accounts → Accounts
last_balances [] m = m
last_balances (c ∷ cs) m = last_balances cs (
    update bytes_eq c.address
      (λ a. record (acc_or a) {
        balance = some (newer (ord c.origin, c.new_value) (acc_or a).balance);
      })
      m)

unfoldable pub last_nonces : List Proto.NonceChange → Accounts → Accounts
last_nonces [] m = m
last_nonces (c ∷ cs) m = last_nonces cs (
    update bytes_eq c.address
      (λ a. record (acc_or a) { nonce = some (newer (ord c.origin, c.new_value) (acc_or a).nonce) })
      m)

unfoldable pub last_codes : List Proto.CodeChange → Accounts → Accounts
last_codes [] m = m
last_codes (c ∷ cs) m = last_codes cs (
    update bytes_eq c.address
      (λ a. record (acc_or a) { code = some (newer (ord c.origin, c.new_hash) (acc_or a).code) }) m)

unfoldable pub accounts_of : StateChanges → Accounts
accounts_of ch =
    last_codes ch.code_changes (last_nonces ch.nonce_changes (last_balances ch.balance_changes []))

module _ (hex : Hex) where
  abbrev pub hex_of : Bytes → Field
  hex_of b = text (codes "0x" ++ hex.encode b)

  abbrev pub bytea : Bytes → Field
  bytea b = text (codes "\\x" ++ hex.encode b)

  abbrev pub word : Bytes → Field
  word b = text (codes "0x" ++ (double_zeros (32 - length b) ++ hex.encode b))

  -- `set_origin`
  unfoldable pub origin_fields : Option Origin → List (String × Field)
  origin_fields o =
      let d = origin_or o in
      ("scope", text (codes (scope_name (some d))))
      ∷ ("tx_hash", if is_empty d.tx_hash then text [] else hex_of d.tx_hash)
      ∷ ("tx_index", number d.tx_index)
      ∷ ("tx_status", int d.tx_status)
      ∷ ("call_index", number d.call_index)
      ∷ []

  abbrev pub event_keys : BlockInfo → Option Origin → List (String × Field)
  event_keys info o = ("block_num", number info.number) ∷ ("ordinal", number (ord o)) ∷ []

  abbrev pub block_fields : BlockInfo → List (String × Field)
  block_fields info = ("block_hash", hex_of info.hash) ∷ ("timestamp", number info.timestamp) ∷ []

  unfoldable pub block_row : BlockInfo → StateChanges → Upsert
  block_row info ch = upsert "blocks" (("block_num", number info.number) ∷ []) (
      ("block_hash", hex_of info.hash)
      ∷ ("parent_hash", hex_of info.parent_hash)
      ∷ ("timestamp", number info.timestamp)
      ∷ ("state_root", hex_of info.state_root)
      ∷ ("coinbase", hex_of info.coinbase)
      ∷ ("transaction_count", number info.transaction_count)
      ∷ ("storage_changes", number (length ch.storage_changes))
      ∷ ("balance_changes", number (length ch.balance_changes))
      ∷ ("nonce_changes", number (length ch.nonce_changes))
      ∷ ("code_changes", number (length ch.code_changes))
      ∷ [])

  unfoldable pub storage_event : BlockInfo → Proto.StorageChange → Upsert
  storage_event info c = upsert "storage_changes" (event_keys info c.origin) (
      ("address", hex_of c.address)
      ∷ ("slot", word c.key)
      ∷ ("old_value", word c.old_value)
      ∷ ("new_value", word c.new_value)
      ∷ (block_fields info ++ origin_fields c.origin))

  unfoldable pub balance_event : BlockInfo → Proto.BalanceChange → Upsert
  balance_event info c = upsert "balance_changes" (event_keys info c.origin) (
      ("address", hex_of c.address)
      ∷ ("old_value", text c.old_value)
      ∷ ("new_value", text c.new_value)
      ∷ ("reason", int c.reason)
      ∷ (block_fields info ++ origin_fields c.origin))

  unfoldable pub nonce_event : BlockInfo → Proto.NonceChange → Upsert
  nonce_event info c = upsert "nonce_changes" (event_keys info c.origin) (
      ("address", hex_of c.address)
      ∷ ("old_value", number c.old_value)
      ∷ ("new_value", number c.new_value)
      ∷ (block_fields info ++ origin_fields c.origin))

  unfoldable pub code_event : BlockInfo → Proto.CodeChange → Upsert
  code_event info c = upsert "code_changes" (event_keys info c.origin) (
      ("address", hex_of c.address)
      ∷ ("old_hash", hex_of c.old_hash)
      ∷ ("new_hash", hex_of c.new_hash)
      ∷ (block_fields info ++ origin_fields c.origin))

  unfoldable pub authorization_row : BlockInfo → Proto.SetCodeAuthorization → Upsert
  authorization_row info a =
      upsert "set_code_authorizations"
        (("block_num", number info.number)
          ∷ ("tx_hash", hex_of a.tx_hash)
          ∷ ("auth_index", number a.index)
          ∷ [])
        (block_fields info
          ++ ("tx_index", number a.tx_index)
            ∷ ("tx_status", int a.tx_status)
            ∷ ("authority", hex_of a.authority)
            ∷ ("delegate", hex_of a.delegate)
            ∷ ("nonce", number a.nonce)
            ∷ ("discarded", flag a.discarded)
            ∷ [])

  unfoldable pub storage_row : BlockInfo → Slot × (ℕ × Bytes) → Upsert
  storage_row info ((address, slot), (o, value)) =
      upsert "storage" (("address", hex_of address) ∷ ("slot", word slot) ∷ [])
        (("value", word value) ∷ ("block_num", number info.number) ∷ ("ordinal", number o) ∷ [])

  -- The bytecode that a change of code carries.
  unfoldable pub code_rows : BlockInfo → List Proto.CodeChange → List Upsert
  code_rows info [] = []
  code_rows info (c ∷ cs) =
      let rest = code_rows info cs in
      if is_empty c.new_code
      then rest
      else record {
        table = "code";
        keys = ("code_hash", hex_of c.new_hash) ∷ [];
        fields = ("code", bytea c.new_code) ∷ ("size", number (length c.new_code)) ∷ [];
        if_null = ("first_block_num", number info.number) ∷ [];
      }
        ∷ rest

  unfoldable pub balance_fields : BlockInfo → Option (ℕ × Text) → List (String × Field)
  balance_fields info none = []
  balance_fields info (some e) =
      ("balance", text e.1) ∷ ("balance_block_num", number info.number) ∷ []

  unfoldable pub nonce_fields : BlockInfo → Option (ℕ × ℕ) → List (String × Field)
  nonce_fields info none = []
  nonce_fields info (some e) = ("nonce", number e.1) ∷ ("nonce_block_num", number info.number) ∷ []

  unfoldable pub code_fields : BlockInfo → Option (ℕ × Bytes) → List (String × Field)
  code_fields info none = []
  code_fields info (some e) =
      ("code_hash", hex_of e.1) ∷ ("code_block_num", number info.number) ∷ []

  unfoldable pub account_row : BlockInfo → Bytes × Acc → Upsert
  account_row info (address, a) = upsert "accounts" (("address", hex_of address) ∷ []) (
      ("block_num", number info.number)
      ∷ (balance_fields info a.balance ++ (nonce_fields info a.nonce ++ code_fields info a.code)))

  unfoldable pub event_rows : BlockInfo → StateChanges → List Upsert
  event_rows info ch =
      map (storage_event info) ch.storage_changes
      ++ (map (balance_event info) ch.balance_changes
          ++ (map (nonce_event info) ch.nonce_changes
              ++ (map (code_event info) ch.code_changes
                  ++ map (authorization_row info) ch.set_code_authorizations)))

  unfoldable pub project : StateChanges → List Upsert
  project ch =
      let info = info_or ch.block in
      block_row info ch
      ∷ (event_rows info ch
          ++ (map (storage_row info) (last_storage ch.storage_changes [])
              ++ (code_rows info ch.code_changes ++ map (account_row info) (accounts_of ch))))
