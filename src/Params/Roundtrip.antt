-- ===== src/Params/Roundtrip.antt =====
-- Parsing the canonical text of a filter.
use substreams_evm_state.Prelude.{
  ◌≡◌, ◌⊎◌, inl, inr, refl, sym, subst, false≢true, ◌∙◌, true, List, [], ◌∷◌, map, Bytes, Text,
  contains, In-of_contains, All, All-In, Any, In, Bool-eq, ok-injective, ok, is_empty,
}
use substreams_evm_state.Extern.{Hex}
use substreams_evm_state.Params.{Filter, parse, hex_text, canonical}
use substreams_evm_state.Params.Words.{words, trim_start, trim, sort, join}
use substreams_evm_state.Params.Sorting.{In-sort}
use substreams_evm_state.Params.Parse.{
  IsAccount, IsValid, Names, IsEntry, parse_iff, contains-parse, parse-IsValid,
}
use substreams_evm_state.Params.Canonical.{
  IsSolid, words-join, trim-solid, hex_text-IsSolid, parse_address-hex_text, In-map, of_In-map,
  canonical_unique,
}

-- What a `sort` holds, it was given.
All_of_In : (P : Text → Type 0) (ts : List Text) → ((t : Text) → In t ts → P t) → All P ts
All_of_In P [] f = tt
All_of_In P (t ∷ ts) f = (f t (inl refl), All_of_In P ts (λ u m. f u (inr m)))

Any-of_In : (P : Text → Type 0) (t : Text) (ts : List Text) → In t ts → P t → Any P ts
Any-of_In P t [] m p = absurd m
Any-of_In P t (u ∷ ts) (inl e) p = inl (subst P (sym e) p)
Any-of_In P t (u ∷ ts) (inr m) p = inr (Any-of_In P t ts m p)

In-of_Any : (P : Text → Type 0) (ts : List Text) → Any P ts → (t : Text) × In t ts × P t
In-of_Any P [] m = absurd m
In-of_Any P (u ∷ ts) (inl p) = (u, inl refl, p)
In-of_Any P (u ∷ ts) (inr m) = let (t, i, p) = In-of_Any P ts m in (t, inr i, p)

In_of_All : (s : List Bytes) (P : Bytes → Type 0) (a : Bytes) → All P s → contains s a ≡ true → P a
In_of_All s P a all c = All-In P a s all (In-of_contains s a c)

trim-empty : is_empty (trim []) ≡ true
unfolding trim trim_start
trim-empty = refl

module _ (hex : Hex) (f : Filter) (v : IsValid f) where
  -- The texts of the filter's accounts, in order.
  abbrev pieces : List Text
  pieces = sort (map (hex_text hex) f.accounts)

  piece_account :
      (t : Text) → In t pieces → (a : Bytes) × (contains f.accounts a ≡ true) × (hex_text hex a ≡ t)
  piece_account t m = of_In-map hex t f.accounts ((In-sort t (map (hex_text hex) f.accounts)).0 m)

  account_piece : (a : Bytes) → contains f.accounts a ≡ true → In (hex_text hex a) pieces
  account_piece a c =
      (In-sort (hex_text hex a) (map (hex_text hex) f.accounts)).1
        (In-map hex a f.accounts (In-of_contains f.accounts a c))

  account : (a : Bytes) → contains f.accounts a ≡ true → IsAccount a
  account a c = In_of_All f.accounts IsAccount a v.accounts c

  piece-IsSolid : (t : Text) → In t pieces → IsSolid t
  piece-IsSolid t m =
      let (a, c, e) = piece_account t m in
      subst IsSolid e (hex_text-IsSolid hex a (account a c).bytes)

  Names-hex_text : (a : Bytes) → contains f.accounts a ≡ true → Names hex (hex_text hex a) a
  Names-hex_text a c =
      let v' = account a c in
      let e = trim-solid (hex_text hex a) (hex_text-IsSolid hex a v'.bytes) in
      rw e (unfold hex_text in refl, parse_address-hex_text hex a v')

  -- Splitting the canonical text gives the pieces, or one empty piece.
  words-canonical :
      (ts : List Text)
      → All IsSolid ts
      → (words (join b',' ts) ≡ ts) ⊎ (words (join b',' ts) ≡ [] ∷ []) × (ts ≡ [])
  words-canonical [] s = inr (unfold words join in refl, refl)
  words-canonical (t ∷ ts) s = inl (words-join t ts s)

  entries : All (IsEntry hex) (words (canonical hex f))
  unfolding canonical
  entries = elim (words-canonical pieces (All_of_In IsSolid pieces piece-IsSolid)) [
    | inl e ↦ rw e (
        All_of_In (IsEntry hex) pieces (λ t m.
          let (a, c, e) = piece_account t m in subst (IsEntry hex) e (inr (a, Names-hex_text a c))))
    | inr (e, none) ↦ rw e (inl trim-empty, tt)
  ]

  Names-one : (b a : Bytes) → contains f.accounts b ≡ true → Names hex (hex_text hex b) a → b ≡ a
  Names-one b a c names = ok-injective (sym (Names-hex_text b c).1 ∙ names.1)

  no-Names : {a : Bytes} → Any (λ w. Names hex w a) ([] ∷ []) → ⊥
  no-Names (inl names) = false≢true (sym names.0 ∙ trim-empty)
  no-Names (inr n) = n

  named :
      (a : Bytes)
      → Any (λ w. Names hex w a) (words (canonical hex f))
      → contains f.accounts a ≡ true
  unfolding canonical
  named a n = elim (words-canonical pieces (All_of_In IsSolid pieces piece-IsSolid)) [
    | inl e ↦
        let (t, m, names) = In-of_Any (λ w. Names hex w a) pieces (rw e at n) in
        let (b, c, b≡t) = piece_account t m in
        let b≡a = Names-one b a c (subst (λ w. Names hex w a) (sym b≡t) names) in
        subst (λ x. contains f.accounts x ≡ true) b≡a c
    | inr (e, none) ↦ absurd (no-Names (rw e at n))
  ]

  to_names :
      (a : Bytes)
      → contains f.accounts a ≡ true
      → Any (λ w. Names hex w a) (words (canonical hex f))
  unfolding canonical
  to_names a c =
      let m = account_piece a c in
      elim (words-canonical pieces (All_of_In IsSolid pieces piece-IsSolid)) [
        | inl e ↦
            rw e (Any-of_In (λ w. Names hex w a) (hex_text hex a) pieces m (Names-hex_text a c))
        | inr (e, none) ↦ absurd (subst (λ ts. In (hex_text hex a) ts) none m)
      ]

  -- Of a filter that holds accounts of 20 bytes, each once: parsing its canonical text is accepted
  -- and gives a filter of the same accounts, which has the same canonical text.
  pub parse-canonical :
      (g : Filter) × (parse hex (canonical hex f) ≡ ok g)
      × ((a : Bytes) → contains g.accounts a ≡ contains f.accounts a)
      × (canonical hex g ≡ canonical hex f)
  parse-canonical =
      let (g, h) = (parse_iff hex (canonical hex f)).1 entries in
      let found = λ (a : Bytes). contains-parse hex (canonical hex f) g a h in
      let agree = λ (a : Bytes).
        Bool-eq (contains g.accounts a) (contains f.accounts a) (λ c. named a ((found a).0 c))
          (λ c. (found a).1 (to_names a c)) in
      (g, h, agree, canonical_unique hex g f (parse-IsValid hex (canonical hex f) g h) v agree)
