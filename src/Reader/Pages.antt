-- ===== src/Reader/Pages.antt =====
-- About the pages of crates/evm-state/src/reader.rs: a reader that follows the cursors gets the whole
-- storage of an account, in order, each row once.
use mathlib.Core.List.{append_assoc}
use substreams_evm_state.Prelude.{
  ℕ, zero, suc, ◌+◌, ◌≤◌, ◌<◌, ◌≡◌, ◌⊎◌, inl, inr, refl, sym, ap, ◌∙◌, true, false, ◌&&◌, Option,
  none, some, List, [], ◌∷◌, ◌++◌, Text, arith, length, take, leb, ltb, Bool-cases, All, Result, ok,
  >>=-ok, ensure-ok, context-ok, subst,
}
use substreams_evm_state.Json.{Json, index}
use substreams_evm_state.Json.Read.{string_field, uint}
use substreams_evm_state.Proof.{fixed, address}
use substreams_evm_state.Reader.{
  Coder, Database, Account, last_of, encode_cursor, read_account_unlocked, after_of, next_of, page,
  follow,
}
use substreams_evm_state.Reader.Cursors.{IsCoder, decode_cursor-encode_cursor}

take_all : {A : Type 0} (n : ℕ) (xs : List A) → length xs ≤ n → take n xs ≡ xs
unfolding take
take_all zero [] l = refl
take_all zero (x ∷ xs) l = absurd (omega (arith, l))
take_all (suc n) [] l = refl
take_all (suc n) (x ∷ xs) l = ap (λ ys. x ∷ ys) (take_all n xs (omega (arith, l)))

take-take : {A : Type 0} (m n : ℕ) (xs : List A) → n ≤ m → take n (take m xs) ≡ take n xs
unfolding take
take-take m zero xs l = refl
take-take zero (suc n) xs l = absurd (omega (arith, l))
take-take (suc m) (suc n) [] l = refl
take-take (suc m) (suc n) (x ∷ xs) l = ap (λ ys. x ∷ ys) (take-take m n xs (omega (arith, l)))

length-take : {A : Type 0} (n : ℕ) (xs : List A) → n ≤ length xs → length (take n xs) ≡ n
unfolding take
length-take zero xs l = refl
length-take (suc n) [] l = absurd (omega (arith, l))
length-take (suc n) (x ∷ xs) l = omega (arith, length-take n xs (omega (arith, l)))

last_of-append : (rows : List Json) (r : Json) → last_of (rows ++ r ∷ []) ≡ some r
unfolding last_of
last_of-append [] r = refl
last_of-append (x ∷ []) r = refl
last_of-append (x ∷ y ∷ rows) r = last_of-append (y ∷ rows) r

-- A page that is not the last: its last row, and the rows after it.
record Cut (limit : ℕ) (rows : List Json) : Type 0 where
  front : List Json
  row : Json
  rest : List Json
  whole : rows ≡ front ++ row ∷ rest
  first : take limit rows ≡ front ++ row ∷ []
  size : length rest + limit ≡ length rows

cut : (n : ℕ) (rows : List Json) → n < length rows → Cut (suc n) rows
unfolding take
cut n [] l = absurd (omega (arith, l))
cut zero (r ∷ rows) l = record {
  front = [];
  row = r;
  rest = rows;
  whole = refl;
  first = refl;
  size = omega arith;
}
cut (suc n) (r ∷ rows) l =
    let c = cut n rows (omega (arith, l)) in
    record {
      front = r ∷ c.front;
      row = c.row;
      rest = c.rest;
      whole = ap (λ xs. r ∷ xs) c.whole;
      first = ap (λ xs. r ∷ xs) c.first;
      size = omega (arith, c.size);
    }

All-middle :
    {A : Type 0} (P : A → Type 0) (xs : List A) (y : A) (zs : List A)
    → All P (xs ++ y ∷ zs)
    → P y × All P zs
All-middle P [] y zs h = h
All-middle P (x ∷ xs) y zs h = All-middle P xs y zs h.1

-- A query for at most `n` rows of the account, by slot: from the first one, or after one of them.
pub record IsKeyset (db : Database) (id account : Text) (table : List Json) : Type 0 where
  pub start : (n : ℕ) → db.storage id account [] n ≡ ok (take n table)
  pub after :
      (before : List Json) (row : Json) (rest : List Json) (slot : Text) (n : ℕ)
      → table ≡ before ++ row ∷ rest
      → string_field row "slot" ≡ ok slot
      → db.storage id account slot n ≡ ok (take n rest)

-- A row with a slot of 32 bytes, whose cursor is a token that is neither empty nor too long.
pub record IsListed (c : Coder) (id account : Text) (row : Json) : Type 0 where
  pub slot : Text
  pub bytes : List ℕ
  pub head : ℕ
  pub tail : Text
  pub has_slot : string_field row "slot" ≡ ok slot
  pub valid : fixed c.hex 32 slot ≡ ok bytes
  pub encoded : encode_cursor c id account slot ≡ ok (head ∷ tail)
  pub short : length tail < 1_024

-- A pin, and the account of its checkpoint, that can be read.
pub record IsReadable (c : Coder) (db : Database) (pin : Result Json) (selected id account : Text)
    : Type 0 where
  pub pinned : Json
  pub metadata : Account
  pub nonce : ℕ
  pub has_pin : pin ≡ ok pinned
  pub has_id : string_field pinned "snapshot_id" ≡ ok id
  pub has_address : address c.hex selected ≡ ok account
  pub has_account : read_account_unlocked c db id account ≡ ok metadata
  pub has_nonce : uint (index metadata.row "nonce") ≡ ok nonce

module _ (c : Coder) (db : Database) (pin : Result Json) (selected id account : Text) (limit : ℕ)
    (laws : IsCoder c) (readable : IsReadable c db pin selected id account) (low : 1 ≤ limit)
    (high : limit ≤ 10_000) where
  -- A cursor after which the rows are the given ones.
  record IsBefore (cursor : Option Text) (rows : List Json) : Type 0 where
    slot : Text
    begins : after_of c db id account cursor ≡ ok slot
    answered : (n : ℕ) → db.storage id account slot n ≡ ok (take n rows)

  page-of :
      (cursor : Option Text) (rows : List Json) (next : Option Text)
      → IsBefore cursor rows
      → next_of c db id account limit (take (limit + 1) rows) ≡ ok next
      → page c db pin selected cursor limit
        ≡ ok (record {
          account = readable.metadata;
          storage = take limit (take (limit + 1) rows);
          next_cursor = next;
        })
  unfolding page
  page-of cursor rows next b n =
      >>=-ok _ (ensure-ok "page limit must be between 1 and 10000" (in_range limit low high)) (
        >>=-ok _ readable.has_address (
          >>=-ok _ readable.has_pin (
            >>=-ok _ readable.has_id (
              >>=-ok _ readable.has_account (
                >>=-ok _ readable.has_nonce
                  (>>=-ok _ b.begins (>>=-ok _ (b.answered (limit + 1)) (>>=-ok _ n refl))))))))
    where
      in_range : (n : ℕ) → 1 ≤ n → n ≤ 10_000 → (leb 1 n && leb n 10_000) ≡ true
      in_range n l h = ground arith

  -- The last page.
  last_page :
      (rows : List Json)
      → length rows ≤ limit
      → next_of c db id account limit (take (limit + 1) rows) ≡ ok none
  unfolding next_of
  last_page rows l =
      let e : ltb limit (length (take (limit + 1) rows)) ≡ false =
        rw (take_all (limit + 1) rows (omega (arith, l))) (not_more limit (length rows) l) in
      rw e refl
    where
      not_more : (m n : ℕ) → n ≤ m → ltb m n ≡ false
      not_more m n h = ground arith

  -- Another page, after the last row of this one.
  next_page :
      (rows : List Json) (k : Cut limit rows) (r : IsListed c id account k.row)
      → limit < length rows
      → next_of c db id account limit (take (limit + 1) rows) ≡ ok (some (r.head ∷ r.tail))
  unfolding next_of
  next_page rows k r l =
      let m = length-take (limit + 1) rows (omega (arith, l)) in
      let e : ltb limit (length (take (limit + 1) rows)) ≡ true =
        more limit (length (take (limit + 1) rows)) m in
      let f : take limit (take (limit + 1) rows) ≡ k.front ++ k.row ∷ [] =
        take-take (limit + 1) limit rows (omega arith) ∙ k.first in
      rw e (
        >>=-ok _ (context-ok "empty nonterminal page" (ap last_of f ∙ last_of-append k.front k.row))
          (>>=-ok _ r.has_slot (>>=-ok _ r.encoded refl)))
    where
      more : (m n : ℕ) → n ≡ m + 1 → ltb m n ≡ true
      more m n h = ground arith

  module _ (table : List Json) (keyset : IsKeyset db id account table) where
    rest-IsBefore :
        (before rows : List Json) (k : Cut limit rows) (r : IsListed c id account k.row)
        → table ≡ before ++ rows
        → IsBefore (some (r.head ∷ r.tail)) k.rest
    unfolding after_of
    rest-IsBefore before rows k r t = record {
      slot = r.slot;
      begins =
          decode_cursor-encode_cursor c id account r.slot (r.head ∷ r.tail) r.bytes laws r.valid
            r.encoded (omega (arith, r.short));
      answered = λ n.
          keyset.after (before ++ k.front) k.row k.rest r.slot n
            (t
              ∙ ap (λ xs. before ++ xs) k.whole
              ∙ sym (append_assoc before k.front (k.row ∷ k.rest)))
            r.has_slot;
    }

    follow_rest :
        (fuel : ℕ) (cursor : Option Text) (before rows : List Json)
        → table ≡ before ++ rows
        → All (IsListed c id account) rows
        → IsBefore cursor rows
        → length rows < fuel
        → follow c db fuel pin selected cursor limit ≡ ok rows
    unfolding follow
    follow_rest zero cursor before rows t a b l = absurd (omega (arith, l))
    follow_rest (suc fuel) cursor before rows t a b l = elim (le_or_lt (length rows) limit) [
      | inl few ↦
          let e : take limit (take (limit + 1) rows) ≡ rows =
            take-take (limit + 1) limit rows (omega arith) ∙ take_all limit rows few in
          >>=-ok _ (page-of cursor rows none b (last_page rows few)) (ap ok e)
      | inr many ↦
          let (n, p) = one_less limit low in
          let k : Cut limit rows =
            subst (λ m. Cut m rows) p (cut n rows (omega (arith, many, p))) in
          let (r, a') =
            All-middle (IsListed c id account) k.front k.row k.rest
              (subst (All (IsListed c id account)) k.whole a) in
          let e : take limit (take (limit + 1) rows) ≡ k.front ++ k.row ∷ [] =
            take-take (limit + 1) limit rows (omega arith) ∙ k.first in
          let w : (k.front ++ k.row ∷ []) ++ k.rest ≡ rows =
            append_assoc k.front (k.row ∷ []) k.rest ∙ sym k.whole in
          let t' : table ≡ (before ++ (k.front ++ k.row ∷ [])) ++ k.rest =
            t
            ∙ ap (λ xs. before ++ xs) (sym w)
            ∙ sym (append_assoc before (k.front ++ k.row ∷ []) k.rest) in
          let ih =
            follow_rest fuel (some (r.head ∷ r.tail)) (before ++ (k.front ++ k.row ∷ [])) k.rest t'
              a' (rest-IsBefore before rows k r t) (omega (arith, k.size, low, l)) in
          >>=-ok _ (page-of cursor rows (some (r.head ∷ r.tail)) b (next_page rows k r many))
            (>>=-ok _ ih (ap ok (ap (λ xs. xs ++ k.rest) e ∙ w)))
    ]
      where
        le_or_lt : (m n : ℕ) → (m ≤ n) ⊎ (n < m)
        le_or_lt m n = elim (Bool-cases (leb m n)) [
          | inl e ↦ inl (ground (arith, e))
          | inr e ↦ inr (ground (arith, e))
        ]

        one_less : (m : ℕ) → 1 ≤ m → (n : ℕ) × (suc n ≡ m)
        one_less zero h = absurd (omega (arith, h))
        one_less (suc n) h = (n, refl)

    -- A reader that follows the cursors from the beginning of a listed table, page by page of a limit
    -- that is allowed, comes to the end after no more pages than the table has rows and one, and has
    -- then the rows of the table, in order, each once.
    pub follow_all :
        (fuel : ℕ)
        → All (IsListed c id account) table
        → length table < fuel
        → follow c db fuel pin selected none limit ≡ ok table
    unfolding after_of
    follow_all fuel a l =
        follow_rest fuel none [] table refl a
          (record { slot = []; begins = refl; answered = keyset.start }) l
