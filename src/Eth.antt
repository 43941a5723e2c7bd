-- ===== src/Eth.antt =====
-- The messages of `sf.ethereum.type.v2` (crate `substreams_ethereum`) that the mapper reads, with
-- the fields that it reads. A `u64` is a natural number, and a theorem states its bound where it
-- matters; an enumeration that the program only compares stands decoded.
use substreams_evm_state.Prelude.{ℕ, Bool, Option, List, Bytes}
use substreams_evm_state.Prelude.Int.{ℤ}

pub record StorageChange : Type 0 where
  pub address : Bytes
  pub key : Bytes
  pub old_value : Bytes
  pub new_value : Bytes
  pub ordinal : ℕ

-- A value is an optional `BigInt`: its big-endian bytes.
pub record BalanceChange : Type 0 where
  pub address : Bytes
  pub old_value : Option Bytes
  pub new_value : Option Bytes
  pub reason : ℤ
  pub ordinal : ℕ

pub record NonceChange : Type 0 where
  pub address : Bytes
  pub old_value : ℕ
  pub new_value : ℕ
  pub ordinal : ℕ

pub record CodeChange : Type 0 where
  pub address : Bytes
  pub old_hash : Bytes
  pub new_hash : Bytes
  pub new_code : Bytes
  pub ordinal : ℕ

pub data CallType : Type 0 where
  plain callcode delegate static create : CallType

pub record Call : Type 0 where
  pub index : ℕ
  pub parent_index : ℕ
  pub call_type : CallType
  pub address : Bytes
  pub suicide : Bool
  pub state_reverted : Bool
  pub begin_ordinal : ℕ
  pub end_ordinal : ℕ
  pub storage_changes : List StorageChange
  pub balance_changes : List BalanceChange
  pub nonce_changes : List NonceChange
  pub code_changes : List CodeChange

pub record SetCodeAuthorization : Type 0 where
  pub authority : Option Bytes
  pub address : Bytes
  pub nonce : ℕ
  pub discarded : Bool

pub record TransactionTrace : Type 0 where
  pub hash : Bytes
  pub index : ℕ
  pub status : ℤ
  pub is_set_code : Bool
  pub from : Bytes
  pub nonce : ℕ
  pub end_ordinal : ℕ
  pub calls : List Call
  pub set_code_authorizations : List SetCodeAuthorization

pub record Timestamp : Type 0 where
  pub seconds : ℤ
  pub nanos : ℤ

pub record BlockHeader : Type 0 where
  pub number : ℕ
  pub parent_hash : Bytes
  pub state_root : Bytes
  pub coinbase : Bytes
  pub timestamp : Option Timestamp

pub record Block : Type 0 where
  pub ver : ℤ
  pub detail_level : ℤ
  pub hash : Bytes
  pub number : ℕ
  pub header : Option BlockHeader
  pub transaction_traces : List TransactionTrace
  pub system_calls : List Call
  pub balance_changes : List BalanceChange
  pub code_changes : List CodeChange
