-- ===== src/Json/Read.antt =====
-- `string` of crates/evm-state/src/proof.rs and `uint` of crates/evm-state/src/ch.rs.
use substreams_evm_state.Prelude.{
  ℕ, not, ◌&&◌, none, some, String, Text, codes, all, is_empty, Result, ok, ensure, context, ◌>>=◌,
  ◌>>◌,
}
use substreams_evm_state.Json.{Json, get, as_u64, as_str}
use substreams_evm_state.Json.Digits.{is_digit, parse_u64}

unfoldable pub string_field : Json → String → Result Text
string_field value name = elim (get value (codes name)) [
  | none ↦ context none "missing string field"
  | some v ↦ context (as_str v) "missing string field"
]

unfoldable pub uint : Json → Result ℕ
uint value = elim (as_u64 value) [
  | some n ↦ ok n
  | none ↦ do
    text ← context (as_str value) "expected unsigned integer"
    ensure (not (is_empty text) && all is_digit text) "expected unsigned integer"
    context (parse_u64 text) "integer exceeds uint64"
]
