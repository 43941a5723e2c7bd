-- ===== src/Extern.antt =====
-- What the program takes from other packages: the `hex` crate, the decimal text of
-- `substreams::scalar::BigInt`, and the enumerations of `substreams_ethereum`. Each is a parameter
-- of the model, with the documented behaviour that a theorem relies on.
use substreams_evm_state.Prelude.{
  ℕ, ◌+◌, ◌*◌, ◌≤◌, ◌<◌, ◌≡◌, ◌↔◌, ◌⊎◌, Option, some, [], ◌∷◌, Bytes, Text, All, length,
}
use substreams_evm_state.Prelude.Int.{ℤ}

-- Every element is a `u8`.
abbrev pub IsBytes : Bytes → Type 0
IsBytes = All (λ b. b < 256)

abbrev pub IsHexDigit : ℕ → Type 0
IsHexDigit c = (48 ≤ c) × (c ≤ 57) ⊎ (97 ≤ c) × (c ≤ 102)

-- `hex::encode` and `hex::decode`: lower case out, two digits for each byte, either case in.
pub record Hex : Type 0 where
  pub encode : Bytes → Text
  pub decode : Text → Option Bytes
  pub encode_injective : (a b : Bytes) → encode a ≡ encode b → a ≡ b
  pub length-encode : (b : Bytes) → length (encode b) ≡ 2 * length b
  pub encode_digits : (b : Bytes) → IsBytes b → All IsHexDigit (encode b)
  pub decode-encode : (b : Bytes) → IsBytes b → decode (encode b) ≡ some b
  pub decode_bytes : (t : Text) (b : Bytes) → decode t ≡ some b → IsBytes b

-- The number that bytes stand for, the most significant first.
abbrev pub be_value_from : ℕ → Bytes → ℕ
be_value_from acc [] = acc
be_value_from acc (b ∷ bs) = be_value_from (256 * acc + b) bs

abbrev pub be_value : Bytes → ℕ
be_value = be_value_from 0

-- `BigInt::from_unsigned_bytes_be(b).to_string()`: one text for one number.
pub record Decimal : Type 0 where
  pub decimal : Bytes → Text
  pub decimal_iff : (a b : Bytes) → (decimal a ≡ decimal b) ↔ (be_value a ≡ be_value b)

-- `TransactionTraceStatus`
pub data TxStatus : Type 0 where
  unknown succeeded failed reverted : TxStatus

-- `balance_change::Reason`, as far as the program names it
pub data Reason : Type 0 where
  gas_buy gas_refund reward_transaction_fee other : Reason

-- `TransactionTrace::status()`, `as i32`, `BalanceChange::reason()` and `DetaillevelExtended`
pub record Enums : Type 0 where
  pub status : ℤ → TxStatus
  pub status_code : TxStatus → ℤ
  pub reason : ℤ → Reason
  pub extended : ℤ
