-- ===== src/Params/Canonical.antt =====
-- About `canonical` of src/params.rs: the list of accounts that is stored beside each block.
use mathlib.Core.List.{reverse, reverse-append, reverse-reverse}
use substreams_evm_state.Prelude.{
  ℕ, ◌≡◌, inl, inr, refl, sym, subst, false≢true, ap, ◌∙◌, true, false, List, [], ◌∷◌, ◌++◌, map,
  Bytes, Text, arith, contains, bytes_eq_of_eq, In-of_contains, All, All-append, All-mono, In, ok,
}
use substreams_evm_state.Extern.{Hex, IsBytes, IsHexDigit}
use substreams_evm_state.Params.{Filter, strip_0x, parse_address, hex_text, canonical}
use substreams_evm_state.Params.Words.{
  is_whitespace, is_separator, push_first, words, trim_start, trim, strip_prefix, sort, join,
}
use substreams_evm_state.Params.Sorting.{IsDistinct, In-sort, sort-IsAscending, ascending_unique}
use substreams_evm_state.Params.Parse.{IsAccount, IsValid, Nodup}

-- No character separates pieces.
abbrev pub IsSolid : Text → Type 0
IsSolid = All (λ c. is_separator c ≡ false)

hex_digit_solid : (c : ℕ) → IsHexDigit c → is_separator c ≡ false
unfolding is_separator is_whitespace
hex_digit_solid c h = ground arith

words-solid : (t : Text) → IsSolid t → words t ≡ t ∷ []
unfolding words push_first
words-solid [] s = refl
words-solid (c ∷ cs) s = rw (words-solid cs s.1) (ground (arith, s.0))

words-join_cons : (t rest : Text) → IsSolid t → words (t ++ b',' ∷ rest) ≡ t ∷ words rest
unfolding words push_first is_separator
words-join_cons [] rest s = refl
words-join_cons (c ∷ cs) rest s = rw (words-join_cons cs rest s.1) (ground (arith, s.0))

-- Splitting a joined list gives the list back.
pub words-join :
    (t : Text) (ts : List Text) → All IsSolid (t ∷ ts) → words (join b',' (t ∷ ts)) ≡ t ∷ ts
unfolding join
words-join t [] s = words-solid t s.0
words-join t (u ∷ us) s =
    words-join_cons t (join b',' (u ∷ us)) s.0 ∙ ap (λ r. t ∷ r) (words-join u us s.1)

trim_start-solid : (t : Text) → IsSolid t → trim_start t ≡ t
unfolding trim_start is_separator
trim_start-solid [] s = refl
trim_start-solid (c ∷ cs) s = ground (arith, s.0)

reverse-IsSolid : (t : Text) → IsSolid t → IsSolid (reverse t)
reverse-IsSolid [] s = tt
reverse-IsSolid (c ∷ cs) s = rw (reverse-append (c ∷ []) cs) (
    All-append (λ c. is_separator c ≡ false) (reverse cs) (c ∷ []) (reverse-IsSolid cs s.1)
      (s.0, tt))

pub trim-solid : (t : Text) → IsSolid t → trim t ≡ t
unfolding trim
trim-solid t s =
    rw (trim_start-solid t s)
      (rw (trim_start-solid (reverse t) (reverse-IsSolid t s)) (reverse-reverse t))

module _ (hex : Hex) where
  pub hex_text-IsSolid : (a : Bytes) → IsBytes a → IsSolid (hex_text hex a)
  unfolding hex_text
  hex_text-IsSolid a h = (
    unfold is_separator is_whitespace in refl,
    (
      unfold is_separator is_whitespace in refl,
      All-mono IsHexDigit (λ c. is_separator c ≡ false) hex_digit_solid (hex.encode a)
          (hex.encode_digits a h),
    ),
  )

  strip_0x-hex_text : (a : Bytes) → strip_0x (hex_text hex a) ≡ hex.encode a
  unfolding strip_0x hex_text strip_prefix
  strip_0x-hex_text a = refl

  hex_text-injective : (a b : Bytes) → hex_text hex a ≡ hex_text hex b → a ≡ b
  hex_text-injective a b h =
      hex.encode_injective a b (sym (strip_0x-hex_text a) ∙ ap strip_0x h ∙ strip_0x-hex_text b)

  pub parse_address-hex_text : (a : Bytes) → IsAccount a → parse_address hex (hex_text hex a) ≡ ok a
  unfolding parse_address
  parse_address-hex_text a v =
      ground (arith, ap hex.decode (strip_0x-hex_text a), hex.decode-encode a v.bytes, v.sized)

  pub In-map : (a : Bytes) (s : List Bytes) → In a s → In (hex_text hex a) (map (hex_text hex) s)
  In-map a [] m = m
  In-map a (b ∷ s) (inl e) = inl (ap (hex_text hex) e)
  In-map a (b ∷ s) (inr m) = inr (In-map a s m)

  pub of_In-map :
      (t : Text) (s : List Bytes)
      → In t (map (hex_text hex) s)
      → (a : Bytes) × (contains s a ≡ true) × (hex_text hex a ≡ t)
  unfolding contains
  of_In-map t [] m = absurd m
  of_In-map t (b ∷ s) (inl e) = (b, ground (arith, bytes_eq_of_eq {a = b} refl), e)
  of_In-map t (b ∷ s) (inr m) = let (a, c, e) = of_In-map t s m in (a, ground (arith, c), e)

  map-IsDistinct : (s : List Bytes) → Nodup s → IsDistinct (map (hex_text hex) s)
  map-IsDistinct [] d = tt
  map-IsDistinct (a ∷ s) d = (
    λ m.
        let (b, c, e) = of_In-map (hex_text hex a) s m in
        false≢true (sym d.0 ∙ subst (λ x. contains s x ≡ true) (hex_text-injective b a e) c),
    map-IsDistinct s d.1,
  )

  In-transfer :
      (r s : List Bytes)
      → ((a : Bytes) → contains r a ≡ true → contains s a ≡ true)
      → (t : Text) → In t (sort (map (hex_text hex) r))
      → In t (sort (map (hex_text hex) s))
  In-transfer r s h t m =
      let (a, c, e) = of_In-map t r ((In-sort t (map (hex_text hex) r)).0 m) in
      (In-sort t (map (hex_text hex) s)).1
        (subst (λ x. In x (map (hex_text hex) s)) e (In-map a s (In-of_contains s a (h a c))))

  -- Filters that hold accounts of 20 bytes, each once, and the same ones, have one canonical text,
  -- whatever the order in which their sets iterate.
  pub canonical_unique :
      (f g : Filter)
      → IsValid f
      → IsValid g
      → ((a : Bytes) → contains f.accounts a ≡ contains g.accounts a)
      → canonical hex f ≡ canonical hex g
  unfolding canonical
  canonical_unique f g v w h = ap (join b',') (
      ascending_unique (sort (map (hex_text hex) f.accounts)) (sort (map (hex_text hex) g.accounts))
        (sort-IsAscending (map (hex_text hex) f.accounts) (map-IsDistinct f.accounts v.once))
        (sort-IsAscending (map (hex_text hex) g.accounts) (map-IsDistinct g.accounts w.once))
        (λ t. (
          In-transfer f.accounts g.accounts (λ a c. sym (h a) ∙ c) t,
          In-transfer g.accounts f.accounts (λ a c. h a ∙ c) t,
        )))
