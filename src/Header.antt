-- ===== src/Header.antt =====
-- `verify_header` of crates/evm-state/src/header.rs: an encoded header against the metadata of a
-- checkpoint. The hash and the decoding of RLP are arguments.
pub mod Verified
use substreams_evm_state.Prelude.{
  ℕ, zero, suc, ◌+◌, ◌-◌, ◌*◌, ◌/◌, ◌≡◌, Bool, true, false, not, ◌&&◌, ◌||◌, Option, none, some,
  List, [], ◌∷◌, String, Bytes, Text, codes, length, is_empty, bytes_eq, ltb, leb, ◌==◌,
  if◌then◌else◌, Result, ok, err, ensure, context, ◌>>=◌, ◌>>◌,
}
use substreams_evm_state.Extern.{Hex, be_value}
use substreams_evm_state.Json.{Json, index, as_u64}
use substreams_evm_state.Json.Read.{string_field}
use substreams_evm_state.Proof.{unhex, fixed}

-- An entry of `FIELDS`: the name, the length in bytes and the width in bits.
pub record Entry : Type 0 where
  pub name : String
  pub size : Option ℕ
  pub bits : Option ℕ

abbrev sized : String → ℕ → Entry
sized name n = record { name = name; size = some n; bits = none }

abbrev wide : String → ℕ → Entry
wide name n = record { name = name; size = none; bits = some n }

unfoldable pub entries : List Entry
entries =
    sized "parentHash" 32
    ∷ sized "sha3Uncles" 32
    ∷ sized "miner" 20
    ∷ sized "stateRoot" 32
    ∷ sized "transactionsRoot" 32
    ∷ sized "receiptsRoot" 32
    ∷ sized "logsBloom" 256
    ∷ wide "difficulty" 256
    ∷ wide "number" 64
    ∷ wide "gasLimit" 64
    ∷ wide "gasUsed" 64
    ∷ wide "timestamp" 64
    ∷ record { name = "extraData"; size = none; bits = none }
    ∷ sized "mixHash" 32
    ∷ sized "nonce" 8
    ∷ wide "baseFeePerGas" 256
    ∷ sized "withdrawalsRoot" 32
    ∷ wide "blobGasUsed" 64
    ∷ wide "excessBlobGas" 64
    ∷ sized "parentBeaconBlockRoot" 32
    ∷ sized "requestsHash" 32
    ∷ sized "balHash" 32
    ∷ wide "slotNumber" 64
    ∷ []

-- What the packages do: the hash, and the decoding of an item, a list or a text, that leaves the
-- bytes after it.
pub record Codec : Type 0 where
  pub hex : Hex
  pub keccak256 : Bytes → Bytes
  pub decode_bytes : Bytes → Bool → Option (Bytes × Bytes)

unfoldable pub starts_with_zero : Bytes → Bool
starts_with_zero [] = false
starts_with_zero (b ∷ bs) = b == 0

unfoldable pub is_width : Option ℕ → Bytes → Bool
is_width none value = true
is_width (some bits) value = not (starts_with_zero value) && leb (length value) (bits / 8)

-- `i >= 15`: the entries after the fifteenth may be empty.
unfoldable pub is_size : Option ℕ → Bool → Bytes → Bool
is_size none may_skip value = true
is_size (some n) may_skip value = length value == n || (may_skip && is_empty value)

-- The loop over `fields.iter().zip(FIELDS)`.
unfoldable pub check_fields : ℕ → List Bytes → List Entry → Result (Unit {0})
check_fields i [] es = ok tt
check_fields i (v ∷ vs) [] = ok tt
check_fields i (v ∷ vs) (e ∷ es) = do
  ensure (is_width e.bits v) "invalid header integer"
  ensure (is_size e.size (leb 15 i) v) "invalid header field length"
  check_fields (i + 1) vs es

-- `fields[i]`
unfoldable pub item : List Bytes → ℕ → Bytes
item [] i = []
item (v ∷ vs) zero = v
item (v ∷ vs) (suc i) = item vs i

module _ (c : Codec) where
  -- The loop that reads the fields, of which `room` more may come.
  unfoldable pub read_fields : ℕ → Bytes → Result (List Bytes)
  read_fields zero payload = if is_empty payload then ok [] else (do
    read ← context (c.decode_bytes payload false) "header field must be bytes"
    context none "unsupported header field count")
  read_fields (suc room) payload = if is_empty payload then ok [] else (do
    read ← context (c.decode_bytes payload false) "header field must be bytes"
    let value = read.0
    fields ← read_fields room read.1
    ok (value ∷ fields))

  unfoldable pub check_expected : Bytes → Option Text → Result (Unit {0})
  check_expected digest none = ok tt
  check_expected digest (some expected) = do
    hash ← fixed c.hex 32 expected
    ensure (bytes_eq digest hash) "encoded header differs from expected hash"

  -- The comparison with the metadata, from the left to the right.
  unfoldable pub is_described : List Bytes → Json → Result Bool
  is_described fields summary = do
    parent_text ← string_field summary "parent_hash"
    parent ← fixed c.hex 32 parent_text
    if bytes_eq (item fields 0) parent
        then (do
          root_text ← string_field summary "state_root"
          root ← fixed c.hex 32 root_text
          if bytes_eq (item fields 3) root
              then (do
                number ← context (as_u64 (index summary "number")) "invalid header number"
                if be_value (item fields 8) == number
                    then (do
                      time ← context (as_u64 (index summary "timestamp")) "invalid header timestamp"
                      ok (be_value (item fields 11) == time))
                    else ok false)
              else ok false)
        else ok false

  unfoldable pub verify_header : Text → Json → Option Text → Result Bytes
  verify_header encoded_hex summary expected_hash = do
    encoded ← unhex c.hex encoded_hex
    ensure (leb (length encoded) 104_448) "oversized block header"
    read ← context (c.decode_bytes encoded true) "invalid RLP block header"
    ensure (is_empty read.1) "trailing bytes after RLP header"
    fields ← read_fields 23 read.0
    ensure (leb 15 (length fields)) "unsupported header field count"
    check_fields 0 fields entries
    hash_text ← string_field summary "hash"
    hash ← fixed c.hex 32 hash_text
    ensure (bytes_eq (c.keccak256 encoded) hash) "encoded header differs from checkpoint block hash"
    check_expected (c.keccak256 encoded) expected_hash
    described ← is_described fields summary
    ensure described "checkpoint metadata differs from encoded header"
    ok (c.keccak256 encoded)
