-- ===== src/Header/Verified.antt =====
-- About `verify_header` of crates/evm-state/src/header.rs: what holds of a header that is accepted.
use substreams_evm_state.Prelude.{
  ℕ, ◌/◌, ◌≢◌, ◌⊎◌, not, ◌&&◌, zero, suc, ◌+◌, ◌≤◌, ◌<◌, ◌≡◌, inl, inr, refl, sym, ap, ◌∙◌,
  false≢true, Bool, true, false, Option, none, some, List, [], ◌∷◌, Bytes, Text, arith, length,
  is_empty, bytes_eq, eq_of_bytes_eq, leb, leb→le, ◌==◌, if◌then◌else◌, Bool-cases, Result, ok,
  ensure, context, >>=-eq-ok, ensure-eq-ok, context-eq-ok, ok-injective, subst,
}
use substreams_evm_state.Extern.{be_value}
use substreams_evm_state.Json.{Json, index, as_u64}
use substreams_evm_state.Json.Read.{string_field}
use substreams_evm_state.Proof.{unhex, fixed}
use substreams_evm_state.Header.{
  Entry, entries, Codec, starts_with_zero, is_width, is_size, check_fields, item, read_fields,
  check_expected, is_described, verify_header,
}

-- The entry at a place of the table.
abbrev pub entry_at : List Entry → ℕ → Option Entry
entry_at [] i = none
entry_at (e ∷ es) zero = some e
entry_at (e ∷ es) (suc i) = entry_at es i

-- An integer of the width: no zero byte in front, and no more bits.
abbrev pub IsWidth : Option ℕ → Bytes → Type 0
IsWidth none value = Unit
IsWidth (some bits) value = ((rest : Bytes) → value ≢ 0 ∷ rest) × (length value ≤ bits / 8)

-- A text of the length; after the fifteenth field it may be empty.
abbrev pub IsSize : Option ℕ → ℕ → Bytes → Type 0
IsSize none k value = Unit
IsSize (some n) k value = (length value ≡ n) ⊎ ((15 ≤ k) × (value ≡ []))

nothing_left : (p : Bytes) → is_empty p ≡ true → p ≡ []
nothing_left [] e = refl
nothing_left (b ∷ bs) e = absurd (false≢true e)

no_zero : (value : Bytes) → not (starts_with_zero value) ≡ true → (rest : Bytes) → value ≢ 0 ∷ rest
unfolding starts_with_zero
no_zero [] h rest e = cc e
no_zero (b ∷ bs) h rest e = let q : b ≡ 0 = cc e in ground (arith, h, q)

is_width-IsWidth : (o : Option ℕ) (value : Bytes) → is_width o value ≡ true → IsWidth o value
unfolding is_width
is_width-IsWidth none value h = tt
is_width-IsWidth (some bits) value h = (no_zero value (ground (arith, h)), ground (arith, h))

is_size-IsSize :
    (o : Option ℕ) (k : ℕ) (value : Bytes) → is_size o (leb 15 k) value ≡ true → IsSize o k value
unfolding is_size
is_size-IsSize none k value h = tt
is_size-IsSize (some n) k value h = elim (Bool-cases (length value == n)) [
  | inl e ↦ inl (ground (arith, e))
  | inr e ↦
      let t : (leb 15 k && is_empty value) ≡ true = rw e at h in
      inr (ground (arith, t), nothing_left value (ground (arith, t)))
]

-- The payload is the encoded fields, one after another, and nothing else.
abbrev pub IsPayload : Codec → Bytes → List Bytes → Type 0
IsPayload c payload [] = payload ≡ []
IsPayload c payload (f ∷ fs) =
    (payload ≢ [])
    × ((rest : Bytes) × ((c.decode_bytes payload false ≡ some (f, rest)) × IsPayload c rest fs))

-- The field at a place has the width and the length of its entry.
pub record IsChecked (first : ℕ) (es : List Entry) (fields : List Bytes) (k : ℕ) : Type 0 where
  pub width : (e : Entry) → entry_at es k ≡ some e → IsWidth e.bits (item fields k)
  pub size : (e : Entry) → entry_at es k ≡ some e → IsSize e.size (first + k) (item fields k)

some_eq : {A : Type 0} {a b : A} → some a ≡ some b → a ≡ b
some_eq h = cc h

check_fields-IsChecked :
    (i : ℕ) (fields : List Bytes) (es : List Entry) (u : Unit {0})
    → check_fields i fields es ≡ ok u
    → (k : ℕ) → k < length fields
    → IsChecked i es fields k
unfolding check_fields item
check_fields-IsChecked i [] es u h k l = absurd (omega (arith, l))
check_fields-IsChecked i (v ∷ vs) [] u h k l = record { width = λ e q. cc q; size = λ e q. cc q }
check_fields-IsChecked i (v ∷ vs) (e ∷ es) u h zero l =
    let (u1, c1, h1) = >>=-eq-ok (ensure (is_width e.bits v) "invalid header integer") _ h in
    let (u2, c2, h2) =
      >>=-eq-ok (ensure (is_size e.size (leb 15 i) v) "invalid header field length") _ h1 in
    let a =
      is_width-IsWidth e.bits v (ensure-eq-ok (is_width e.bits v) "invalid header integer" c1) in
    let b =
      is_size-IsSize e.size i v
        (ensure-eq-ok (is_size e.size (leb 15 i) v) "invalid header field length" c2) in
    let n : i ≡ i + 0 = omega arith in
    record {
      width = λ e' q. subst (λ (x : Entry). IsWidth x.bits v) (some_eq q) a;
      size = λ e' q.
          subst (λ (x : Entry). IsSize x.size (i + 0) v) (some_eq q)
            (subst (λ m. IsSize e.size m v) n b);
    }
check_fields-IsChecked i (v ∷ vs) (e ∷ es) u h (suc k) l =
    let (u1, c1, h1) = >>=-eq-ok (ensure (is_width e.bits v) "invalid header integer") _ h in
    let (u2, c2, h2) =
      >>=-eq-ok (ensure (is_size e.size (leb 15 i) v) "invalid header field length") _ h1 in
    let r = check_fields-IsChecked (i + 1) vs es u h2 k (omega (arith, l)) in
    let n : i + 1 + k ≡ i + suc k = omega arith in
    record {
      width = r.width;
      size = λ e' q. subst (λ m. IsSize e'.size m (item vs k)) n (r.size e' q);
    }

read_fields-le :
    (c : Codec) (room : ℕ) (payload : Bytes) (fields : List Bytes)
    → read_fields c room payload ≡ ok fields
    → length fields ≤ room
unfolding read_fields
read_fields-le c zero payload fields h = elim (Bool-cases (is_empty payload)) [
  | inl e ↦ subst (λ fs. length fs ≤ 0) (ok-injective (rw e at h)) (omega arith)
  | inr e ↦
      let (read, c1, h1) =
        >>=-eq-ok (context (c.decode_bytes payload false) "header field must be bytes") _
          (rw e at h) in
      let q : none ≡ some fields = context-eq-ok none "unsupported header field count" h1 in cc q
]
read_fields-le c (suc room) payload fields h = elim (Bool-cases (is_empty payload)) [
  | inl e ↦ subst (λ fs. length fs ≤ suc room) (ok-injective (rw e at h)) (omega arith)
  | inr e ↦
      let (read, c1, h1) =
        >>=-eq-ok (context (c.decode_bytes payload false) "header field must be bytes") _
          (rw e at h) in
      let (rest, c2, h2) = >>=-eq-ok (read_fields c room read.1) _ h1 in
      let l = read_fields-le c room read.1 rest c2 in
      subst (λ fs. length fs ≤ suc room) (ok-injective h2) (omega (arith, l))
]

not_empty : (p : Bytes) → is_empty p ≡ false → p ≢ []
not_empty p h e = false≢true (sym h ∙ ap (λ x. is_empty x) e)

read_fields-IsPayload :
    (c : Codec) (room : ℕ) (payload : Bytes) (fields : List Bytes)
    → read_fields c room payload ≡ ok fields
    → IsPayload c payload fields
unfolding read_fields
read_fields-IsPayload c zero payload fields h = elim (Bool-cases (is_empty payload)) [
  | inl e ↦ subst (IsPayload c payload) (ok-injective (rw e at h)) (nothing_left payload e)
  | inr e ↦
      let (read, c1, h1) =
        >>=-eq-ok (context (c.decode_bytes payload false) "header field must be bytes") _
          (rw e at h) in
      let q : none ≡ some fields = context-eq-ok none "unsupported header field count" h1 in cc q
]
read_fields-IsPayload c (suc room) payload fields h = elim (Bool-cases (is_empty payload)) [
  | inl e ↦ subst (IsPayload c payload) (ok-injective (rw e at h)) (nothing_left payload e)
  | inr e ↦
      let (read, c1, h1) =
        >>=-eq-ok (context (c.decode_bytes payload false) "header field must be bytes") _
          (rw e at h) in
      let (rest, c2, h2) = >>=-eq-ok (read_fields c room read.1) _ h1 in
      subst (IsPayload c payload) (ok-injective h2) (
        not_empty payload e,
        (
          read.1,
          (
            context-eq-ok (c.decode_bytes payload false) "header field must be bytes" c1,
            read_fields-IsPayload c room read.1 rest c2,
          ),
        ),
      )
]

-- What the metadata says of the fields.
pub record IsDescribed (c : Codec) (summary : Json) (fields : List Bytes) : Type 0 where
  pub parent_text : Text
  pub root_text : Text
  pub has_parent : string_field summary "parent_hash" ≡ ok parent_text
  pub has_root : string_field summary "state_root" ≡ ok root_text
  pub parent : fixed c.hex 32 parent_text ≡ ok (item fields 0)
  pub root : fixed c.hex 32 root_text ≡ ok (item fields 3)
  pub number : as_u64 (index summary "number") ≡ some (be_value (item fields 8))
  pub time : as_u64 (index summary "timestamp") ≡ some (be_value (item fields 11))

-- A test that is no error and not false was passed.
passed :
    (b : Bool) (r : Result Bool)
    → (if b then r else ok false) ≡ ok true
    → (b ≡ true) × (r ≡ ok true)
passed true r h = (refl, h)
passed false r h = absurd (false≢true (ok-injective h))

same_bytes : {r : Result Bytes} {a b : Bytes} → r ≡ ok b → bytes_eq a b ≡ true → r ≡ ok a
same_bytes {a = a} {b = b} e q = e ∙ ap ok (sym (eq_of_bytes_eq a b q))

same_number : {o : Option ℕ} {m n : ℕ} → o ≡ some n → (m == n) ≡ true → o ≡ some m
same_number {m = m} {n = n} e q = let l : n ≡ m = ground (arith, q) in e ∙ ap some l

is_described-IsDescribed :
    (c : Codec) (fields : List Bytes) (summary : Json)
    → is_described c fields summary ≡ ok true
    → IsDescribed c summary fields
unfolding is_described
is_described-IsDescribed c fields summary h =
    let (parent_text, c1, h1) = >>=-eq-ok (string_field summary "parent_hash") _ h in
    let (parent, c2, h2) = >>=-eq-ok (fixed c.hex 32 parent_text) _ h1 in
    let (q1, g1) = passed (bytes_eq (item fields 0) parent) _ h2 in
    let (root_text, c3, h3) = >>=-eq-ok (string_field summary "state_root") _ g1 in
    let (root, c4, h4) = >>=-eq-ok (fixed c.hex 32 root_text) _ h3 in
    let (q2, g2) = passed (bytes_eq (item fields 3) root) _ h4 in
    let (number, c5, h5) =
      >>=-eq-ok (context (as_u64 (index summary "number")) "invalid header number") _ g2 in
    let (q3, g3) = passed (be_value (item fields 8) == number) _ h5 in
    let (time, c6, h6) =
      >>=-eq-ok (context (as_u64 (index summary "timestamp")) "invalid header timestamp") _ g3 in
    record {
      parent_text = parent_text;
      root_text = root_text;
      has_parent = c1;
      has_root = c3;
      parent = same_bytes c2 q1;
      root = same_bytes c4 q2;
      number =
          same_number (context-eq-ok (as_u64 (index summary "number")) "invalid header number" c5)
            q3;
      time =
          same_number
            (context-eq-ok (as_u64 (index summary "timestamp")) "invalid header timestamp" c6)
            (ok-injective h6);
    }

-- The digest is the hash that was expected, if one was.
abbrev pub IsExpected : Codec → Bytes → Option Text → Type 0
IsExpected c digest none = Unit
IsExpected c digest (some expected) = fixed c.hex 32 expected ≡ ok digest

check_expected-IsExpected :
    (c : Codec) (digest : Bytes) (expected : Option Text) (u : Unit {0})
    → check_expected c digest expected ≡ ok u
    → IsExpected c digest expected
unfolding check_expected
check_expected-IsExpected c digest none u h = tt
check_expected-IsExpected c digest (some expected) u h =
    let (hash, c1, h1) = >>=-eq-ok (fixed c.hex 32 expected) _ h in
    same_bytes c1
      (ensure-eq-ok (bytes_eq digest hash) "encoded header differs from expected hash" h1)

-- An accepted header.
pub record IsVerified (c : Codec) (encoded_hex : Text) (summary : Json) (expected : Option Text)
    (digest : Bytes) : Type 0 where
  pub encoded : Bytes
  pub payload : Bytes
  pub fields : List Bytes
  pub hash_text : Text
  pub has_bytes : unhex c.hex encoded_hex ≡ ok encoded
  pub bound : length encoded ≤ 104_448
  pub hashed : c.keccak256 encoded ≡ digest
  pub has_hash : string_field summary "hash" ≡ ok hash_text
  pub hash : fixed c.hex 32 hash_text ≡ ok digest
  pub is_list : c.decode_bytes encoded true ≡ some (payload, [])
  pub read : IsPayload c payload fields
  pub count : (15 ≤ length fields) × (length fields ≤ 23)
  pub checked : (k : ℕ) → k < length fields → IsChecked 0 entries fields k
  pub described : IsDescribed c summary fields
  pub expects : IsExpected c digest expected

-- A header that is accepted is the bytes of its text, a list with nothing after it, whose payload
-- is 15 to 23 encoded fields and nothing else, each field of the width and length of its entry; its hash is returned, and is that of the
-- metadata and the expected one, if there is one; and its parent hash, state root, number and
-- timestamp are those of the metadata.
pub verify_header-IsVerified :
    (c : Codec) (encoded_hex : Text) (summary : Json) (expected : Option Text) (digest : Bytes)
    → verify_header c encoded_hex summary expected ≡ ok digest
    → IsVerified c encoded_hex summary expected digest
unfolding verify_header
verify_header-IsVerified c encoded_hex summary expected digest h =
    let (encoded, c1, h1) = >>=-eq-ok (unhex c.hex encoded_hex) _ h in
    let (u2, c2, h2) =
      >>=-eq-ok (ensure (leb (length encoded) 104_448) "oversized block header") _ h1 in
    let (read, c3, h3) =
      >>=-eq-ok (context (c.decode_bytes encoded true) "invalid RLP block header") _ h2 in
    let (u4, c4, h4) =
      >>=-eq-ok (ensure (is_empty read.1) "trailing bytes after RLP header") _ h3 in
    let (fields, c5, h5) = >>=-eq-ok (read_fields c 23 read.0) _ h4 in
    let (u6, c6, h6) =
      >>=-eq-ok (ensure (leb 15 (length fields)) "unsupported header field count") _ h5 in
    let (u7, c7, h7) = >>=-eq-ok (check_fields 0 fields entries) _ h6 in
    let (hash_text, c8, h8) = >>=-eq-ok (string_field summary "hash") _ h7 in
    let (hash, c9, h9) = >>=-eq-ok (fixed c.hex 32 hash_text) _ h8 in
    let (u10, c10, h10) =
      >>=-eq-ok
        (ensure (bytes_eq (c.keccak256 encoded) hash)
          "encoded header differs from checkpoint block hash")
        _ h9 in
    let (u11, c11, h11) = >>=-eq-ok (check_expected c (c.keccak256 encoded) expected) _ h10 in
    let (described, c12, h12) = >>=-eq-ok (is_described c fields summary) _ h11 in
    let (u13, c13, h13) =
      >>=-eq-ok (ensure described "checkpoint metadata differs from encoded header") _ h12 in
    let d = ensure-eq-ok described "checkpoint metadata differs from encoded header" c13 in
    let left =
      nothing_left read.1 (ensure-eq-ok (is_empty read.1) "trailing bytes after RLP header" c4) in
    subst (IsVerified c encoded_hex summary expected) (ok-injective h13) (record {
      encoded = encoded;
      payload = read.0;
      fields = fields;
      hash_text = hash_text;
      has_bytes = c1;
      bound =
          leb→le (length encoded) 104_448
            (ensure-eq-ok (leb (length encoded) 104_448) "oversized block header" c2);
      hashed = refl;
      has_hash = c8;
      hash = same_bytes c9 (
          ensure-eq-ok (bytes_eq (c.keccak256 encoded) hash)
            "encoded header differs from checkpoint block hash" c10);
      is_list =
          context-eq-ok (c.decode_bytes encoded true) "invalid RLP block header" c3
          ∙ ap (λ r. some (read.0, r)) left;
      read = read_fields-IsPayload c 23 read.0 fields c5;
      count = (
        leb→le 15 (length fields)
            (ensure-eq-ok (leb 15 (length fields)) "unsupported header field count" c6),
        read_fields-le c 23 read.0 fields c5,
      );
      checked = check_fields-IsChecked 0 fields entries u7 c7;
      described = is_described-IsDescribed c fields summary (c12 ∙ ap ok d);
      expects = check_expected-IsExpected c (c.keccak256 encoded) expected u11 c11;
    })
