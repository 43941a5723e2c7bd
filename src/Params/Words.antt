-- ===== src/Params/Words.antt =====
-- The text operations of the standard library that src/params.rs uses: `split`, `trim`,
-- `strip_prefix`, `sort` and `join`.
use Prim.Native.Nat.Ordering.{gt}
use mathlib.Core.List.{reverse}
use substreams_evm_state.Prelude.{
  ℕ, Bool, ◌||◌, ◌&&◌, Option, none, some, List, [], ◌∷◌, ◌++◌, Text, leb, ◌==◌, if◌then◌else◌,
}
use substreams_evm_state.Prelude.Order.{text_cmp}

-- `char::is_whitespace`: Unicode's White_Space
unfoldable pub is_whitespace : ℕ → Bool
is_whitespace c =
    (leb 9 c && leb c 13)
    || c == 32
    || c == 0x85
    || c == 0xa0
    || c == 0x1680
    || (leb 0x2000 c && leb c 0x200a)
    || c == 0x2028
    || c == 0x2029
    || c == 0x202f
    || c == 0x205f
    || c == 0x3000

unfoldable pub is_separator : ℕ → Bool
is_separator c = c == b',' || is_whitespace c

unfoldable pub push_first : ℕ → List Text → List Text
push_first c [] = (c ∷ []) ∷ []
push_first c (w ∷ ws) = (c ∷ w) ∷ ws

-- `split(is_separator)`: pieces between separators, empty ones too
unfoldable pub words : Text → List Text
words [] = [] ∷ []
words (c ∷ cs) = let rest = words cs in if is_separator c then [] ∷ rest else push_first c rest

unfoldable pub trim_start : Text → Text
trim_start [] = []
trim_start (c ∷ cs) = let rest = trim_start cs in if is_whitespace c then rest else c ∷ cs

unfoldable pub trim : Text → Text
trim t = reverse (trim_start (reverse (trim_start t)))

unfoldable pub strip_prefix : Text → Text → Option Text
strip_prefix [] t = some t
strip_prefix (p ∷ ps) [] = none
strip_prefix (p ∷ ps) (c ∷ cs) = if p == c then strip_prefix ps cs else none

unfoldable pub sort_insert : Text → List Text → List Text
sort_insert t [] = t ∷ []
sort_insert t (u ∷ us) = elim (text_cmp t u) [ gt ↦ u ∷ sort_insert t us | _ ↦ t ∷ u ∷ us ]

-- `sort()`: any two sorts by a total order agree.
unfoldable pub sort : List Text → List Text
sort [] = []
sort (t ∷ ts) = sort_insert t (sort ts)

unfoldable pub join : ℕ → List Text → Text
join sep [] = []
join sep (t ∷ []) = t
join sep (t ∷ u ∷ us) = t ++ sep ∷ join sep (u ∷ us)
