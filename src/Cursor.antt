-- ===== src/Cursor.antt =====
-- crates/evm-state/src/cursor.rs: the opaque cursor of a stream. Base64, the cipher and the reading of
-- UTF-8 are arguments. A token is its bytes.
pub mod Final
pub mod Progress
pub mod Saved
use substreams_evm_state.Prelude.{
  ℕ, zero, suc, ◌+◌, ◌-◌, ◌≡◌, Bool, true, false, not, ◌&&◌, ◌||◌, Option, none, some, List, [],
  ◌∷◌, ◌++◌, Bytes, Text, codes, length, is_empty, all, bytes_eq, ltb, leb, ◌==◌, if◌then◌else◌,
  Result, ok, err, ensure, context, ◌>>=◌, ◌>>◌,
}
use substreams_evm_state.Json.Digits.{
  is_digit, is_lower_hex, is_alphanumeric, decimal_from, parse_u64,
}

pub record BlockRef : Type 0 where
  pub number : ℕ
  pub hash : Text

pub record Position : Type 0 where
  pub block : BlockRef
  pub head : BlockRef
  pub lib : BlockRef
  pub step : ℕ

-- What the packages around the cursor do.
pub record Seal : Type 0 where
  pub base64 : Text → Option Bytes
  pub decrypt : Bytes → Option Bytes
  pub utf8 : Bytes → Option Text

-- `trim_end_matches('=')`
unfoldable pub trim_padding : Text → Text
trim_padding [] = []
trim_padding (c ∷ cs) =
    let rest = trim_padding cs in if c == 61 && is_empty rest then [] else c ∷ rest

-- `split(':')`
unfoldable pub push_front : ℕ → List Text → List Text
push_front c [] = (c ∷ []) ∷ []
push_front c (w ∷ ws) = (c ∷ w) ∷ ws

unfoldable pub split_colon : Text → List Text
split_colon [] = [] ∷ []
split_colon (c ∷ cs) = let rest = split_colon cs in if c == 58 then [] ∷ rest else push_front c rest

-- `parts[i]`: the indices are in range by the count of the segments.
unfoldable pub part : List Text → ℕ → Text
part [] i = []
part (p ∷ ps) zero = p
part (p ∷ ps) (suc i) = part ps i

abbrev pub is_segment : List Text → ℕ → Text → Bool
is_segment parts i t = bytes_eq (part parts i) t

abbrev pub has_segments : List Text → Bool
has_segments parts =
    ((is_segment parts 0 (codes "c1") || is_segment parts 0 (codes "c2")) && length parts == 6)
    || (is_segment parts 0 (codes "c3") && length parts == 8)

abbrev pub is_supported : List Text → Bool
is_supported parts =
    is_segment parts 1 (codes "1")
    || (is_segment parts 1 (codes "16") || is_segment parts 1 (codes "17"))

unfoldable pub starts_with_zero : Text → Bool
starts_with_zero [] = false
starts_with_zero (c ∷ cs) = c == 48

unfoldable pub block_ref : Text → Text → Result BlockRef
block_ref number hash = do
  ensure
      (bytes_eq number (codes "0")
        || (not (is_empty number) && (not (starts_with_zero number) && all is_digit number)))
      "invalid BSC block number"
  ensure (length hash == 64 && all is_lower_hex hash) "invalid BSC block hash"
  n ← context (parse_u64 number) "block number exceeds uint64"
  ok (record { number = n; hash = codes "0x" ++ hash })

abbrev pub reference : List Text → ℕ → Result BlockRef
reference parts offset = block_ref (part parts offset) (part parts (offset + 1))

unfoldable pub ref_eq : BlockRef → BlockRef → Bool
ref_eq a b = a.number == b.number && bytes_eq a.hash b.hash

unfoldable pub parse_u8 : Text → Option ℕ
parse_u8 t = if ltb (decimal_from 0 t) 256 then some (decimal_from 0 t) else none

unfoldable pub is_final : BlockRef → BlockRef → BlockRef → Bool
is_final block head lib =
    ref_eq lib block
    && (leb block.number head.number && (not (head.number == block.number) || ref_eq head block))

unfoldable pub decode_parts : List Text → Result Position
decode_parts parts = do
  ensure (has_segments parts) "invalid cursor segments"
  ensure (is_supported parts) "unsupported cursor step"
  block ← reference parts 2
  head ← (if is_segment parts 0 (codes "c1") then ok block else reference parts 4)
  lib ←
      (if is_segment parts 0 (codes "c2")
        then ok block
        else reference parts (if is_segment parts 0 (codes "c1") then 4 else 6))
  ensure (is_final block head lib) "cursor is not on a finalized block"
  step ← context (parse_u8 (part parts 1)) "invalid step"
  ok (record { block = block; head = head; lib = lib; step = step })

unfoldable pub decode : Seal → Text → Result Position
decode seal token = do
  ensure (not (is_empty token) && leb (length token) 2048) "invalid cursor length"
  let bare = trim_padding token
  ensure
      (leb (length token - length bare) 2
        && (not (is_empty bare) && all (λ v. is_alphanumeric v || (v == 95 || v == 45)) bare))
      "invalid cursor alphabet"
  encoded ← context (seal.base64 token) "invalid cursor base64"
  payload ← context (seal.decrypt encoded) "invalid cursor ciphertext"
  text ← context (seal.utf8 payload) "invalid cursor text"
  decode_parts (split_colon text)
