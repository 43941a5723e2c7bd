-- ===== src/Proto.antt =====
-- The messages of evm.state.v1 (src/pb/evm.state.v1.rs): what the mapper writes.
use substreams_evm_state.Prelude.{ℕ, Bool, Option, List, Bytes, Text}
use substreams_evm_state.Prelude.Int.{ℤ}

-- Where in the block a change came from.
pub data Scope : Type 0 where
  unspecified tx tx_failed_persistent tx_7702 system_call block : Scope

pub record Origin : Type 0 where
  pub ordinal : ℕ
  pub scope : Scope
  pub tx_hash : Bytes
  pub tx_index : ℕ
  pub tx_status : ℤ
  pub call_index : ℕ

pub record BlockInfo : Type 0 where
  pub number : ℕ
  pub hash : Bytes
  pub parent_hash : Bytes
  pub timestamp : ℕ
  pub state_root : Bytes
  pub coinbase : Bytes
  pub transaction_count : ℕ

pub record StorageChange : Type 0 where
  pub address : Bytes
  pub key : Bytes
  pub old_value : Bytes
  pub new_value : Bytes
  pub origin : Option Origin

pub record BalanceChange : Type 0 where
  pub address : Bytes
  pub old_value : Text
  pub new_value : Text
  pub reason : ℤ
  pub origin : Option Origin

pub record NonceChange : Type 0 where
  pub address : Bytes
  pub old_value : ℕ
  pub new_value : ℕ
  pub origin : Option Origin

pub record CodeChange : Type 0 where
  pub address : Bytes
  pub old_hash : Bytes
  pub new_hash : Bytes
  pub new_code : Bytes
  pub origin : Option Origin

pub record SetCodeAuthorization : Type 0 where
  pub tx_hash : Bytes
  pub tx_index : ℕ
  pub index : ℕ
  pub authority : Bytes
  pub delegate : Bytes
  pub nonce : ℕ
  pub discarded : Bool
  pub tx_status : ℤ

pub record StateChanges : Type 0 where
  pub block : Option BlockInfo
  pub storage_changes : List StorageChange
  pub balance_changes : List BalanceChange
  pub nonce_changes : List NonceChange
  pub code_changes : List CodeChange
  pub set_code_authorizations : List SetCodeAuthorization

pub record StorageValue : Type 0 where
  pub address : Text
  pub slot : Text
  pub value : Text
  pub ordinal : ℕ

pub record BalanceValue : Type 0 where
  pub address : Text
  pub value : Text
  pub ordinal : ℕ

pub record NonceValue : Type 0 where
  pub address : Text
  pub value : ℕ
  pub ordinal : ℕ

pub record CodeValue : Type 0 where
  pub address : Text
  pub hash : Text
  pub code : Text
  pub ordinal : ℕ

pub record LifecycleEffect : Type 0 where
  pub address : Text
  pub kind : Text
  pub ordinal : ℕ

-- One physical row: a whole account-filtered block.
pub record BlockState : Type 0 where
  pub number : ℕ
  pub hash : Text
  pub parent_hash : Text
  pub timestamp : ℕ
  pub state_root : Text
  pub producer_version : ℤ
  pub accounts : Text
  pub schema_version : ℕ
  pub storage : List StorageValue
  pub balances : List BalanceValue
  pub nonces : List NonceValue
  pub codes : List CodeValue
  pub lifecycle : List LifecycleEffect
