-- ===== src/Json/Digits.antt =====
-- Texts of decimal digits and of hexadecimal digits, and `str::parse::<u64>` on the former.
use substreams_evm_state.Prelude.{
  ℕ, ◌+◌, ◌*◌, ◌-◌, ◌<◌, ◌≡◌, Bool, ◌&&◌, ◌||◌, Option, none, some, [], ◌∷◌, Text, arith, leb, ltb,
  if◌then◌else◌,
}
use substreams_evm_state.Prelude.Int.{u64_mod}

-- `is_ascii_digit`
abbrev pub is_digit : ℕ → Bool
is_digit c = leb 48 c && leb c 57

-- `is_ascii_digit() || (b'a'..=b'f').contains(&v)`
abbrev pub is_lower_hex : ℕ → Bool
is_lower_hex c = is_digit c || (leb 97 c && leb c 102)

-- `is_ascii_alphanumeric`
abbrev pub is_alphanumeric : ℕ → Bool
is_alphanumeric c = is_digit c || (leb 65 c && leb c 90) || (leb 97 c && leb c 122)

-- The number that decimal digits stand for.
unfoldable pub decimal_from : ℕ → Text → ℕ
decimal_from n [] = n
decimal_from n (c ∷ cs) = decimal_from (10 * n + (c - 48)) cs

-- `parse::<u64>()` on digits: refused where it does not fit 64 bits.
unfoldable pub parse_u64 : Text → Option ℕ
parse_u64 t = if ltb (decimal_from 0 t) u64_mod then some (decimal_from 0 t) else none

pub parse_u64-lt : (t : Text) (n : ℕ) → parse_u64 t ≡ some n → n < u64_mod
unfolding parse_u64
parse_u64-lt t n h = ground (arith, h)
