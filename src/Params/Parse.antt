-- ===== src/Params/Parse.antt =====
-- About `Filter::parse` and `matches` of src/params.rs.
use substreams_evm_state.Prelude.{
  ◌≡◌, ◌↔◌, ◌⊎◌, inl, inr, refl, sym, false≢true, true, false, List, [], ◌∷◌, Bytes, Text, arith,
  length, ◌==◌, ==_iff, is_empty, contains, bytes_eq, eq_of_bytes_eq, bytes_eq_of_eq, Option-cases,
  ap, ◌∙◌, ok-injective, Result-cases, All, Any, Bool-cases, ok, >>=-eq-ok,
}
use substreams_evm_state.Extern.{Hex, IsBytes}
use substreams_evm_state.Params.{
  Filter, add_account, strip_0x, parse_address, parse_words, parse, matches,
}
use substreams_evm_state.Params.Words.{words, trim}

contains-add_account :
    (a b : Bytes) (s : List Bytes)
    → (contains (add_account a s) b ≡ true) ↔ ((a ≡ b) ⊎ (contains s b ≡ true))
unfolding add_account contains
contains-add_account a b s = (
  λ h. elim (Bool-cases (contains s a)) [
    | inl e ↦ inr (rw e at h)
    | inr e ↦ grind (arith, eq_of_bytes_eq a b)
  ],
  elim [
    | inl e ↦ elim (Bool-cases (contains s a)) [
      | inl old ↦ rw old (rw e at old)
      | inr new ↦ rw new (ground (arith, bytes_eq_of_eq e))
    ]
    | inr e ↦ ground (arith, bytes_eq_of_eq {a = a} {b = b})
  ],
)

-- An account of a filter: 20 bytes.
pub record IsAccount (a : Bytes) : Type 0 where
  pub sized : length a ≡ 20
  pub bytes : IsBytes a

abbrev pub Nodup : List Bytes → Type 0
Nodup [] = Unit
Nodup (a ∷ as') = (contains as' a ≡ false) × Nodup as'

-- The accounts that a filter can hold: each is an account, and stands once.
pub record IsValid (f : Filter) : Type 0 where
  pub accounts : All IsAccount f.accounts
  pub once : Nodup f.accounts

sized_of_contains :
    (s : List Bytes) (a : Bytes) → All IsAccount s → contains s a ≡ true → length a ≡ 20
unfolding contains
sized_of_contains [] a v h = cc
sized_of_contains (b ∷ s) a v h = elim (Bool-cases (bytes_eq b a)) [
  | inl e ↦ rw (← eq_of_bytes_eq b a e) v.0.sized
  | inr e ↦ sized_of_contains s a v.1 (ground (arith, e, h))
]

module _ (hex : Hex) where
  -- The piece names an account.
  abbrev pub Names : Text → Bytes → Type 0
  Names w a = (is_empty (trim w) ≡ false) × (parse_address hex (trim w) ≡ ok a)

  -- The piece is empty or names an account.
  abbrev pub IsEntry : Text → Type 0
  IsEntry w = (is_empty (trim w) ≡ true) ⊎ ((a : Bytes) × Names w a)

  pub parse_address-IsAccount : (t : Text) (a : Bytes) → parse_address hex t ≡ ok a → IsAccount a
  unfolding parse_address
  parse_address-IsAccount t a h = elim (Option-cases (hex.decode (strip_0x t))) [
    | inl e ↦ ground (arith, e, h)
    | inr (b, e) ↦ elim (Bool-cases (length b == 20)) [
      | inl sized ↦
          let b≡a : b ≡ a = ground (arith, e, h, sized) in
          record {
            sized = rw (← b≡a) ((==_iff (length b) 20).0 sized);
            bytes = rw b≡a at (hex.decode_bytes (strip_0x t) b e);
          }
      | inr other ↦ ground (arith, e, h, other)
    ]
  ]

  -- What one step of an accepted loop did.
  parse_words_step :
      (w : Text) (ws : List Text) (s r : List Bytes)
      → parse_words hex (w ∷ ws) s ≡ ok r
      → (is_empty (trim w) ≡ true) × (parse_words hex ws s ≡ ok r)
        ⊎ ((b : Bytes) × Names w b × (parse_words hex ws (add_account b s) ≡ ok r))
  unfolding parse_words
  parse_words_step w ws s r h = elim (Bool-cases (is_empty (trim w))) [
    | inl e ↦ inl (e, ground (arith, e, h))
    | inr e ↦
        let (b, parsed, rest) =
          >>=-eq-ok (parse_address hex (trim w)) (λ b. parse_words hex ws (add_account b s))
            (ground (arith, e, h)) in
        inr (b, (e, parsed), rest)
  ]

  parse_words-contains :
      (ws : List Text) (s r : List Bytes) (a : Bytes)
      → parse_words hex ws s ≡ ok r
      → (contains r a ≡ true) ↔ ((contains s a ≡ true) ⊎ Any (λ w. Names w a) ws)
  unfolding parse_words
  parse_words-contains [] s r a h =
      let e : s ≡ r = cc in (λ c. inl (rw e c), elim [ inl c ↦ rw (← e) c | inr n ↦ absurd n ])
  parse_words-contains (w ∷ ws) s r a h = elim (parse_words_step w ws s r h) [
    | inl (e, rest) ↦
        let ih = parse_words-contains ws s r a rest in
        (
          λ c. elim (ih.0 c) [ inl x ↦ inl x | inr x ↦ inr (inr x) ],
          elim [
            | inl x ↦ ih.1 (inl x)
            | inr (inl n) ↦ ground (arith, e, n.0)
            | inr (inr x) ↦ ih.1 (inr x)
          ],
        )
    | inr (b, names, rest) ↦
        let ih = parse_words-contains ws (add_account b s) r a rest in
        let added = contains-add_account b a s in
        (
          λ c. elim (ih.0 c) [
            | inl x ↦ elim (added.0 x) [
              | inl b≡a ↦ inr (inl (names.0, names.1 ∙ ap ok b≡a))
              | inr old ↦ inl old
            ]
            | inr x ↦ inr (inr x)
          ],
          elim [
            | inl x ↦ ih.1 (inl (added.1 (inr x)))
            | inr (inl n) ↦ ih.1 (inl (added.1 (inl (cc (names.1, n.1)))))
            | inr (inr x) ↦ ih.1 (inr x)
          ],
        )
  ]

  -- The loop returns exactly if every piece is empty or names an account.
  parse_words-total :
      (ws : List Text) (s : List Bytes)
      → ((r : List Bytes) × (parse_words hex ws s ≡ ok r)) ↔ All IsEntry ws
  unfolding parse_words
  parse_words-total [] s = (λ _. tt, λ _. (s, refl))
  parse_words-total (w ∷ ws) s = (
    λ (r, h). elim (parse_words_step w ws s r h) [
      | inl (e, rest) ↦ (inl e, (parse_words-total ws s).0 (r, rest))
      | inr (b, names, rest) ↦
          (inr (b, names), (parse_words-total ws (add_account b s)).0 (r, rest))
    ],
    λ (entry, entries). elim entry [
      | inl e ↦ let (r, rest) = (parse_words-total ws s).1 entries in (r, ground (arith, e, rest))
      | inr (b, names) ↦
          let (r, rest) = (parse_words-total ws (add_account b s)).1 entries in
          (r, ground (arith, names, rest))
    ],
  )

  add_account-IsValid :
      (a : Bytes) (s : List Bytes)
      → IsAccount a
      → All IsAccount s × Nodup s
      → All IsAccount (add_account a s) × Nodup (add_account a s)
  unfolding add_account
  add_account-IsValid a s v h = elim (Bool-cases (contains s a)) [
    | inl e ↦ rw e h
    | inr e ↦ rw e ((v, h.0), (e, h.1))
  ]

  parse_words-IsValid :
      (ws : List Text) (s r : List Bytes)
      → parse_words hex ws s ≡ ok r
      → All IsAccount s × Nodup s
      → All IsAccount r × Nodup r
  unfolding parse_words
  parse_words-IsValid [] s r h v = rw (← ok-injective h) v
  parse_words-IsValid (w ∷ ws) s r h v = elim (parse_words_step w ws s r h) [
    | inl (e, rest) ↦ parse_words-IsValid ws s r rest v
    | inr (b, names, rest) ↦
        parse_words-IsValid ws (add_account b s) r rest
          (add_account-IsValid b s (parse_address-IsAccount (trim w) b names.1) v)
  ]

  accounts_of_parse :
      (t : Text) (f : Filter) → parse hex t ≡ ok f → parse_words hex (words t) [] ≡ ok f.accounts
  unfolding parse
  accounts_of_parse t f h = elim (Result-cases (parse_words hex (words t) [])) [
    | inl (s, e) ↦ ground (arith, e, h)
    | inr (c, e) ↦ ground (arith, e, h)
  ]

  -- A parameter is accepted exactly if each of its pieces is empty or names an account.
  pub parse_iff : (t : Text) → ((f : Filter) × (parse hex t ≡ ok f)) ↔ All IsEntry (words t)
  parse_iff t = (
    λ (f, h). (parse_words-total (words t) []).0 (f.accounts, accounts_of_parse t f h),
    λ entries.
        let (r, h) = (parse_words-total (words t) []).1 entries in
        (record { accounts = r }, unfold parse in rw h),
  )

  -- An accepted filter holds accounts of 20 bytes, each once.
  pub parse-IsValid : (t : Text) (f : Filter) → parse hex t ≡ ok f → IsValid f
  parse-IsValid t f h =
      let (a, n) = parse_words-IsValid (words t) [] f.accounts (accounts_of_parse t f h) (tt, tt) in
      record { accounts = a; once = n }

  -- An account is in an accepted filter exactly if a piece of the parameter names it.
  pub contains-parse :
      (t : Text) (f : Filter) (a : Bytes)
      → parse hex t ≡ ok f
      → (contains f.accounts a ≡ true) ↔ Any (λ w. Names w a) (words t)
  unfolding contains
  contains-parse t f a h =
      let c = parse_words-contains (words t) [] f.accounts a (accounts_of_parse t f h) in
      (λ x. elim (c.0 x) [ inl y ↦ cc y | inr y ↦ y ], λ y. c.1 (inr y))

  nonempty_of_contains : (s : List Bytes) (a : Bytes) → contains s a ≡ true → is_empty s ≡ false
  unfolding contains
  nonempty_of_contains [] a h = cc
  nonempty_of_contains (b ∷ s) a h = refl

  add_account-nonempty : (a : Bytes) (s : List Bytes) → is_empty (add_account a s) ≡ false
  add_account-nonempty a s =
      nonempty_of_contains (add_account a s) a ((contains-add_account a a s).1 (inl refl))

  -- The filter is empty only if every piece was.
  empty_of_parse :
      (ws : List Text) (s r : List Bytes)
      → parse_words hex ws s ≡ ok r
      → (is_empty r ≡ true) ↔ (is_empty s ≡ true) × All (λ w. is_empty (trim w) ≡ true) ws
  unfolding parse_words
  empty_of_parse [] s r h = rw (← ok-injective h) (λ e. (e, tt), λ e. e.0)
  empty_of_parse (w ∷ ws) s r h = elim (parse_words_step w ws s r h) [
    | inl (e, rest) ↦
        let ih = empty_of_parse ws s r rest in
        (λ x. ((ih.0 x).0, (e, (ih.0 x).1)), λ x. ih.1 (x.0, x.1.1))
    | inr (b, names, rest) ↦
        let ih = empty_of_parse ws (add_account b s) r rest in
        (
          λ x. absurd (false≢true (sym (add_account-nonempty b s) ∙ (ih.0 x).0)),
          λ x. absurd (false≢true (sym names.0 ∙ x.1.0)),
        )
  ]

  -- What an accepted filter matches: every account if all pieces are empty, and otherwise exactly
  -- the accounts that a piece names.
  pub matches-parse :
      (t : Text) (f : Filter) (a : Bytes)
      → parse hex t ≡ ok f
      → (matches f a ≡ true)
        ↔ (All (λ w. is_empty (trim w) ≡ true) (words t) ⊎ Any (λ w. Names w a) (words t))
  unfolding matches
  matches-parse t f a h =
      let named = contains-parse t f a h in
      let none_named = empty_of_parse (words t) [] f.accounts (accounts_of_parse t f h) in
      let v = parse-IsValid t f h in
      elim (Bool-cases (is_empty f.accounts)) [
        | inl e ↦ rw e (λ _. inl (none_named.0 e).1, λ _. refl)
        | inr e ↦ rw e (
          λ m. inr (named.0 (ground (arith, m))),
          elim [
            | inl x ↦ absurd (false≢true (sym e ∙ none_named.1 (refl, x)))
            | inr x ↦
                let c = named.1 x in
                rw ((==_iff (length a) 20).1 (sized_of_contains f.accounts a v.accounts c), c)
          ],
        )
      ]
