-- ===== src/Proof.antt =====
-- The readers of crates/evm-state/src/proof.rs: hexadecimal texts, addresses and quantities, and
-- `canonical_accounts` of crates/evm-state/src/checkpoint.rs on top of them. `U256` is a natural
-- number, and its `from_str_radix` refuses what does not fit 256 bits.
use substreams_evm_state.Prelude.{
  ℕ, ◌+◌, ◌*◌, ◌-◌, ◌%◌, ◌^◌, Bool, not, ◌&&◌, ◌||◌, List, [], ◌∷◌, ◌++◌, Bytes, Text, codes,
  length, is_empty, all, filter, ltb, leb, ◌==◌, if◌then◌else◌, Result, ok, ensure, context, ◌>>=◌,
  ◌>>◌,
}
use substreams_evm_state.Prelude.Order.{text_ord}
use substreams_evm_state.Btree.{Btree, insert}
use substreams_evm_state.Extern.{Hex}
use substreams_evm_state.Params.Words.{words, strip_prefix}
use substreams_evm_state.Json.{Json, Fields, end, field, as_str, as_array}
use substreams_evm_state.Json.Digits.{is_digit}

-- `is_ascii_hexdigit`
abbrev pub is_hex_digit : ℕ → Bool
is_hex_digit c = is_digit c || (leb 97 c && leb c 102) || (leb 65 c && leb c 70)

abbrev pub hex_digit_value : ℕ → ℕ
hex_digit_value c = if is_digit c then c - 48 else (if leb 97 c then c - 87 else c - 55)

unfoldable pub hex_value_from : ℕ → Text → ℕ
hex_value_from n [] = n
hex_value_from n (c ∷ cs) = hex_value_from (16 * n + hex_digit_value c) cs

-- `quantity`; `bit_len() <= bits` is a bound by a power of two.
unfoldable pub quantity : Text → ℕ → Result ℕ
quantity value bits = do
  raw ← context (strip_prefix (codes "0x") value) "expected JSON-RPC hex quantity"
  ensure (not (is_empty raw) && all is_hex_digit raw) "invalid JSON-RPC quantity"
  ensure (ltb (hex_value_from 0 raw) (2 ^ 256)) "quantity exceeds uint256"
  ensure (ltb (hex_value_from 0 raw) (2 ^ bits)) "quantity exceeds its width"
  ok (hex_value_from 0 raw)

-- The keys of a set or of an object, in order.
unfoldable pub keys : {V : Type 0} → Btree Text V → List Text
keys [] = []
keys ((k, v) ∷ m) = k ∷ keys m

unfoldable pub field_names : Fields → List Text
field_names end = []
field_names (field k j rest) = k ∷ field_names rest

-- `map(as_str).collect::<Result<_>>()`
unfoldable pub texts : List Json → Result (List Text)
texts [] = ok []
texts (v ∷ vs) = do t ← context (as_str v) "invalid account address"; ts ← texts vs; ok (t ∷ ts)

-- The three forms of an account filter: a text, an object or a list.
unfoldable pub account_texts : Json → Result (List Text)
account_texts (Json.string text) = ok (filter (λ w. not (is_empty w)) (words text))
account_texts (Json.object fields) = ok (field_names fields)
account_texts values = do vs ← context (as_array values) "account filter must be a list"; texts vs

module _ (hex : Hex) where
  unfoldable pub unhex : Text → Result Bytes
  unhex value = do
    raw ← context (strip_prefix (codes "0x") value) "expected 0x-prefixed hex"
    ensure (length raw % 2 == 0) "expected even-length hex"
    context (hex.decode raw) "invalid hex"

  unfoldable pub fixed : ℕ → Text → Result Bytes
  fixed n value = do
    bytes ← unhex value
    ensure (length bytes == n) "expected another number of bytes"
    ok bytes

  unfoldable pub address : Text → Result Text
  address value = do bytes ← fixed 20 value; ok (codes "0x" ++ hex.encode bytes)

  -- `map(address).collect::<BTreeSet>()`
  unfoldable pub addresses : List Text → Btree Text (Unit {0}) → Result (Btree Text (Unit {0}))
  addresses [] set = ok set
  addresses (t ∷ ts) set = do a ← address t; addresses ts (insert set a tt)

  unfoldable pub canonical_accounts : Json → Result (List Text)
  canonical_accounts values = do
    ts ← account_texts values
    set ← addresses ts []
    ensure (not (is_empty set)) "selected account list is empty"
    ok (keys set)
