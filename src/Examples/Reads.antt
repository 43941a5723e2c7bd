-- ===== src/Examples/Reads.antt =====
-- A checkpoint with two rows of storage, and a reader of it.
use mathlib.Core.Path.{◌≡◌, refl, sym, ap, ◌∙◌, subst}
use substreams_evm_state.Prelude.{
  ℕ, zero, suc, Option, some, none, List, [], ◌∷◌, ◌++◌, Text, codes, length, take, if◌then◌else◌,
  All, Result, ok, err, ok-injective, out_of_fuel, arith,
}
use substreams_evm_state.Json.{Json, Fields, index, is_text, is_number}
use substreams_evm_state.Json
use substreams_evm_state.Json.Read.{string_field}
use substreams_evm_state.Reader.{
  Coder, Database, Account, cursor_value, encode_cursor, decode_cursor, manifest_unlocked,
  read_account_unlocked, last_of, after_of, next_of, page, follow,
}
use substreams_evm_state.Reader.Cursors.{IsCoder}
use substreams_evm_state.Reader.Pages.{IsKeyset, IsListed, IsReadable}
use substreams_evm_state.Examples.Instances.{plain_hex, encode}
use substreams_evm_state.Examples.Samples.{bytes}
use substreams_evm_state.Examples.Stores.{obj, text, arr, id1, the_tools}

abbrev pub account : Text
account = codes "0x0000000000000000000000000000000000000001"

-- The first `n` bytes, and the rest.
unfoldable pub split_at : ℕ → Text → Text × Text
split_at zero t = ([], t)
split_at (suc n) [] = ([], [])
split_at (suc n) (b ∷ t) = (b ∷ (split_at n t).0, (split_at n t).1)

split_at-append : (a r : Text) → split_at (length a) (a ++ r) ≡ (a, r)
unfolding split_at
split_at-append [] r = refl
split_at-append (x ∷ a) r = let e = split_at-append a r in λ i. (x ∷ (e i).0, (e i).1)

abbrev pub manifest : Json
manifest = obj (
    (codes "accounts", arr (text account ∷ []))
    ∷ (codes "header", obj ((codes "number", Json.number 90) ∷ []))
    ∷ (codes "snapshot_id", text id1)
    ∷ (codes "status", text (codes "ready"))
    ∷ [])

-- A cursor is written as its three texts, the first two after their lengths; any other value is an
-- empty text, and stands for the manifest.
unfoldable pub write_value : Json → Result Text
write_value
      (Json.object (
        Json.field k
          (Json.string a)
          (Json.field l (Json.string s) (Json.field m (Json.string i) rest)))) =
    ok (length a ∷ (a ++ length s ∷ (s ++ i)))
write_value v = err out_of_fuel

unfoldable pub read_rest : Text → Text → Option Json
read_rest a [] = none
read_rest a (n ∷ t) = some (cursor_value (split_at n t).1 a (split_at n t).0)

unfoldable pub read_value : Text → Option Json
read_value [] = some manifest
read_value (n ∷ t) = read_rest (split_at n t).0 (split_at n t).1

abbrev pub coder : Coder
coder = record {
  hex = plain_hex;
  write = write_value;
  parse = read_value;
  encode = λ t. t;
  decode = λ t. some t;
}

value-read :
    (id a s : Text)
    → read_value (length a ∷ (a ++ length s ∷ (s ++ id))) ≡ some (cursor_value id a s)
unfolding read_value read_rest
value-read id a s =
    let e = split_at-append a (length s ∷ (s ++ id)) in
    let f = split_at-append s id in
    ap (λ (p : Text × Text). read_rest p.0 p.1) e
    ∙ ap (λ (p : Text × Text). some (cursor_value p.1 a p.0)) f

pub coder-IsCoder : IsCoder coder
unfolding write_value
coder-IsCoder = record {
  decode-encode = λ t. refl;
  parse-write = λ id a s t h.
      subst (λ x. read_value x ≡ some (cursor_value id a s)) (ok-injective h) (value-read id a s);
}

abbrev slot1 : Text
slot1 = codes "0x" ++ encode (bytes 32 1)

abbrev slot2 : Text
slot2 = codes "0x" ++ encode (bytes 32 2)

abbrev pub row1 : Json
row1 = obj ((codes "slot", text slot1) ∷ (codes "value", text slot2) ∷ [])

abbrev pub row2 : Json
row2 = obj ((codes "slot", text slot2) ∷ (codes "value", text slot1) ∷ [])

abbrev pub table : List Json
table = row1 ∷ row2 ∷ []

unfoldable pub rows_after : Text → List Json → List Json
rows_after slot [] = []
rows_after slot (r ∷ rows) =
    let rest = rows_after slot rows in if is_text (index r "slot") slot then rows else rest

abbrev pub database : Database
database = record {
  manifest = λ id. ok (obj ((codes "manifest", text []) ∷ []));
  account = λ id a. ok (obj ((codes "nonce", text (codes "7")) ∷ []));
  storage =
      λ id a slot n. ok (take n (elim slot [ [] ↦ table | b ∷ bs ↦ rows_after (b ∷ bs) table ]));
}

abbrev pub pinned : Json
pinned = obj ((codes "snapshot_id", text id1) ∷ [])

abbrev pub metadata : Account
metadata = record {
  row = obj ((codes "nonce", text (codes "7")) ∷ []);
  header = obj ((codes "number", Json.number 90) ∷ []);
}

pub reader-IsReadable : IsReadable coder database (ok pinned) account id1 account
unfolding the_tools manifest_unlocked read_account_unlocked read_value
reader-IsReadable = record {
  pinned = pinned;
  metadata = metadata;
  nonce = 7;
  has_pin = refl;
  has_id = refl;
  has_address = refl;
  has_account = refl;
  has_nonce = refl;
}

pub table-IsListed : All (IsListed coder id1 account) table
unfolding the_tools encode_cursor write_value
table-IsListed = (
  record {
    slot = slot1;
    bytes = bytes 32 1;
    head = 42;
    tail = account ++ length slot1 ∷ (slot1 ++ id1);
    has_slot = refl;
    valid = refl;
    encoded = refl;
    short = omega arith;
  },
  (
    record {
      slot = slot2;
      bytes = bytes 32 2;
      head = 42;
      tail = account ++ length slot2 ∷ (slot2 ++ id1);
      has_slot = refl;
      valid = refl;
      encoded = refl;
      short = omega arith;
    },
    tt,
  ),
)

after_first :
    (rest : List Json) (slot : Text) (n : ℕ)
    → row2 ∷ [] ≡ rest
    → string_field row1 "slot" ≡ ok slot
    → database.storage id1 account slot n ≡ ok (take n rest)
unfolding the_tools rows_after
after_first rest slot n e h =
    subst (λ s. database.storage id1 account s n ≡ ok (take n rest)) (ok-injective h)
      (ap (λ rs. ok (take n rs)) e)

after_second :
    (rest : List Json) (slot : Text) (n : ℕ)
    → [] ≡ rest
    → string_field row2 "slot" ≡ ok slot
    → database.storage id1 account slot n ≡ ok (take n rest)
unfolding the_tools rows_after
after_second rest slot n e h =
    subst (λ s. database.storage id1 account s n ≡ ok (take n rest)) (ok-injective h)
      (ap (λ rs. ok (take n rs)) e)

pub table-IsKeyset : IsKeyset database id1 account table
table-IsKeyset = record { start = λ n. refl; after = after }
  where
    after :
        (before : List Json) (row : Json) (rest : List Json) (slot : Text) (n : ℕ)
        → table ≡ before ++ row ∷ rest
        → string_field row "slot" ≡ ok slot
        → database.storage id1 account slot n ≡ ok (take n rest)
    after [] row rest slot n t h =
        let r : row1 ≡ row = cc t in
        after_first rest slot n (cc t) (subst (λ x. string_field x "slot" ≡ ok slot) (sym r) h)
    after (x ∷ []) row rest slot n t h =
        let r : row2 ≡ row = cc t in
        after_second rest slot n (cc t) (subst (λ x. string_field x "slot" ≡ ok slot) (sym r) h)
    after (x ∷ y ∷ []) row rest slot n t h = cc t
    after (x ∷ y ∷ z ∷ zs) row rest slot n t h = cc t

pub reader_follows : follow coder database 3 (ok pinned) account none 1 ≡ ok table
unfolding the_tools follow page after_of next_of last_of decode_cursor encode_cursor
    manifest_unlocked read_account_unlocked read_value write_value read_rest split_at rows_after
    is_number
reader_follows = refl
