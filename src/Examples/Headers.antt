-- ===== src/Examples/Headers.antt =====
-- A header and a frame, and what the modules compute on them.
use substreams_evm_state.Prelude.{
  ℕ, zero, suc, ◌≡◌, refl, true, false, Bool, Option, some, none, [], ◌∷◌, ◌++◌, Bytes, Text, codes,
  ok, ◌==◌, if◌then◌else◌,
}
use substreams_evm_state.Prelude.Order.{text_ord}
use substreams_evm_state.Json.{Json}
use substreams_evm_state.Header.{
  Codec, entries, starts_with_zero, is_width, is_size, check_fields, item, read_fields,
  check_expected, is_described, verify_header,
}
use substreams_evm_state.Frame.{frame, decode_frame, decode_payload}
use substreams_evm_state.Examples.Instances.{plain_hex, encode}
use substreams_evm_state.Examples.Samples.{bytes}
use substreams_evm_state.Examples.Stores.{obj, text, the_tools}

-- The first `n` bytes, and the rest.
unfoldable pub cut : ℕ → Bytes → Bytes × Bytes
cut zero bs = ([], bs)
cut (suc n) [] = ([], [])
cut (suc n) (b ∷ bs) = let (front, rest) = cut n bs in (b ∷ front, rest)

-- A list is all the bytes, and a text has its length in its first byte, 256 written as 0.
unfoldable pub decode_item : Bytes → Bool → Option (Bytes × Bytes)
decode_item bs true = some (bs, [])
decode_item [] false = none
decode_item (n ∷ bs) false = some (cut (if n == 0 then 256 else n) bs)

abbrev pub codec : Codec
codec = record { hex = plain_hex; keccak256 = λ b. bytes 32 1; decode_bytes = decode_item }

abbrev header : Bytes
header =
    32 ∷ bytes 32 1
    ++ 32 ∷ bytes 32 2
    ++ 20 ∷ bytes 20 3
    ++ 32 ∷ bytes 32 4
    ++ 32 ∷ bytes 32 5
    ++ 32 ∷ bytes 32 6
    ++ 0 ∷ bytes 256 7
    ++ 1 ∷ 8 ∷ 1 ∷ 90 ∷ 1 ∷ 10 ∷ 1 ∷ 11 ∷ 1 ∷ 12 ∷ 1 ∷ 13 ∷ 32 ∷ bytes 32 14
    ++ 8 ∷ bytes 8 15

abbrev pub header_text : Text
header_text = codes "0x" ++ encode header

abbrev hash_text : ℕ → Text
hash_text n = codes "0x" ++ encode (bytes 32 n)

abbrev pub summary : Json
summary = obj (
    (codes "hash", text (hash_text 1))
    ∷ (codes "number", Json.number 90)
    ∷ (codes "parent_hash", text (hash_text 1))
    ∷ (codes "state_root", text (hash_text 4))
    ∷ (codes "timestamp", Json.number 12)
    ∷ [])

abbrev pub expected_text : Option Text
expected_text = some (hash_text 1)

pub header_verifies : verify_header codec header_text summary expected_text ≡ ok (bytes 32 1)
unfolding the_tools text_ord entries starts_with_zero is_width is_size check_fields item read_fields
    check_expected is_described verify_header cut decode_item
header_verifies = refl

abbrev pub framed : Bytes
framed = 0 ∷ 0 ∷ 0 ∷ 0 ∷ 2 ∷ codes "ab"

pub message_frames : frame (codes "ab") ≡ ok framed
unfolding frame
message_frames = refl

pub frame_decodes :
    decode_frame (λ b. ok b) (1 ∷ 0 ∷ 0 ∷ 0 ∷ 2 ∷ codes "ab") (codes "s2") ≡ ok (codes "ab")
unfolding decode_frame decode_payload the_tools
frame_decodes = refl
