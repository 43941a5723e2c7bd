-- ===== src/Interval/Blocks.antt =====
-- About the rows that `validate_interval` of crates/evm-state/src/checkpoint.rs accepts.
use substreams_evm_state.Prelude.{
  ℕ, Bytes, ◌+◌, ◌%◌, ◌≤◌, ◌≡◌, inl, inr, sym, ap, ◌∙◌, Bool, true, false, ◌&&◌, Option, none, some,
  List, [], ◌∷◌, Text, codes, arith, length, leb, ◌==◌, if◌then◌else◌, Bool-cases, ok, ensure,
  >>=-eq-ok, ensure-eq-ok, ok-injective, subst,
}
use substreams_evm_state.Prelude.Int.{u64_mod}
use substreams_evm_state.Extern.{Hex}
use substreams_evm_state.Json.{Json, get, index, is_text, json_eq}
use substreams_evm_state.Json.Read.{string_field, uint}
use substreams_evm_state.Proof.{fixed}
use substreams_evm_state.Interval.{
  Walk, follows, same_block, continues, has_filter, check_row, check_rows,
}

-- The two have one hash and one state root.
abbrev pub IsSameBlock : Json → Json → Type 0
IsSameBlock a b =
    (json_eq (index a "hash") (index b "hash") ≡ true)
    × (json_eq (index a "state_root") (index b "state_root") ≡ true)

-- A row of the source's filter and schema and of a supported producer, with the number, whose hash
-- and whose parent's hash are of 32 bytes, and that is the header's block if it is the last one.
pub record IsBlock (hex : Hex) (header : Json) (last : ℕ) (accounts : Text) (n : ℕ) (row : Json)
    : Type 0 where
  pub number : uint (index row "number") ≡ ok n
  pub filter : is_text (index row "accounts") accounts ≡ true
  pub schema : uint (index row "schema_version") ≡ ok 1
  pub producer : ℕ
  pub has_producer : uint (index row "producer_version") ≡ ok producer
  pub supported : (3 ≤ producer) × (producer ≤ 5)
  pub hash : Text
  pub has_hash : string_field row "hash" ≡ ok hash
  pub hash_bytes : Bytes
  pub is_hash : fixed hex 32 hash ≡ ok hash_bytes
  pub parent : Text
  pub has_parent : string_field row "parent_hash" ≡ ok parent
  pub parent_bytes : Bytes
  pub is_parent : fixed hex 32 parent ≡ ok parent_bytes
  pub at_last : n ≡ last → IsSameBlock row header

-- The parent of the row is the one before it, if there is one.
abbrev pub IsAfter : Option Text → Json → Type 0
IsAfter none row = Unit
IsAfter (some hash) row = is_text (index row "parent_hash") hash ≡ true

-- Rows with the numbers from the first one on, each with the hash of the one before as its parent.
abbrev pub IsChain : Hex → Json → ℕ → Text → ℕ → Option Text → List Json → Type 0
IsChain hex header last accounts n previous [] = n ≡ last + 1
IsChain hex header last accounts n previous (row ∷ rows) =
    IsAfter previous row
    × ((b : IsBlock hex header last accounts n row) × IsChain hex header last accounts (n + 1)
          (some b.hash) rows)

-- The row before which there is none continues the base that the source names.
abbrev pub IsBased : Json → List Json → Type 0
IsBased source [] = Unit
IsBased source (row ∷ rows) =
    (parent : Json)
    → get source (codes "parent_hash") ≡ some parent
    → json_eq (index row "parent_hash") parent ≡ true

same_block-IsSameBlock : (a b : Json) → same_block a b ≡ true → IsSameBlock a b
unfolding same_block
same_block-IsSameBlock a b h = (ground (arith, h), ground (arith, h))

pub at_last-IsSameBlock :
    (n last : ℕ) (a b : Json)
    → (if n == last then same_block a b else true) ≡ true
    → n ≡ last
    → IsSameBlock a b
at_last-IsSameBlock n last a b h e =
    let q : (n == last) ≡ true = ground (arith, e) in same_block-IsSameBlock a b (rw q at h)

follows-IsAfter :
    (previous : Option Text) (row : Json) → follows previous row ≡ true → IsAfter previous row
unfolding follows
follows-IsAfter none row h = tt
follows-IsAfter (some hash) row h = h

continues-parent :
    (o : Option Json) (row : Json)
    → continues o row ≡ true
    → (parent : Json) → o ≡ some parent
    → json_eq (index row "parent_hash") parent ≡ true
unfolding continues
continues-parent none row h parent e = cc e
continues-parent (some p) row h parent e =
    let q : p ≡ parent = cc e in subst (λ x. json_eq (index row "parent_hash") x ≡ true) q h

filtered :
    (accounts : Text) (row : Json) (b : Bool)
    → has_filter accounts row ≡ ok b
    → b ≡ true
    → (is_text (index row "accounts") accounts ≡ true) × (uint (index row "schema_version") ≡ ok 1)
unfolding has_filter
filtered accounts row b h t = elim (Bool-cases (is_text (index row "accounts") accounts)) [
  | inl e ↦
      let (v, c, h1) =
        >>=-eq-ok (uint (index row "schema_version")) (λ v. ok (v == 1)) (rw e at h) in
      let q : (v == 1) ≡ true = ok-injective h1 ∙ t in
      let n : v ≡ 1 = ground (arith, q) in (e, c ∙ ap ok n)
  | inr e ↦ let q : ok false ≡ ok b = rw e at h in cc (ok-injective q ∙ t)
]

continued : (n : ℕ) (b : Bool) → n ≡ 0 → (if n == 0 then b else true) ≡ true → b ≡ true
continued n b z h = let q : (n == 0) ≡ true = ground (arith, z) in rw q at h

-- What one row of the loop does.
record IsStep (hex : Hex) (source header : Json) (last : ℕ) (accounts : Text) (row : Json)
    (w w' : Walk) : Type 0 where
  block : IsBlock hex header last accounts w.expected row
  after : IsAfter w.previous row
  based : w.count ≡ 0 → IsBased source (row ∷ [])
  result : w' ≡ record {
    expected = w.expected + 1;
    count = (w.count + 1) % u64_mod;
    previous = some block.hash;
  }

module _ (hex : Hex) where
  check_row-IsStep :
      (source header : Json) (last : ℕ) (accounts : Text) (row : Json) (w w' : Walk)
      → check_row hex source header last accounts row w ≡ ok w'
      → IsStep hex source header last accounts row w w'
  unfolding check_row
  check_row-IsStep source header last accounts row w w' h =
      let (number, c1, h1) = >>=-eq-ok (uint (index row "number")) _ h in
      let (u2, c2, h2) =
        >>=-eq-ok (ensure (number == w.expected) "missing or conflicting block") _ h1 in
      let (b, c3, h3) = >>=-eq-ok (has_filter accounts row) _ h2 in
      let (u4, c4, h4) = >>=-eq-ok (ensure b "account filter or schema changed") _ h3 in
      let (producer, c5, h5) = >>=-eq-ok (uint (index row "producer_version")) _ h4 in
      let (u6, c6, h6) =
        >>=-eq-ok (ensure (leb 3 producer && leb producer 5) "unsupported producer version") _ h5 in
      let (hash, c7, h7) = >>=-eq-ok (string_field row "hash") _ h6 in
      let (hash_bytes, c8, h8) = >>=-eq-ok (fixed hex 32 hash) _ h7 in
      let (parent, c9, h9) = >>=-eq-ok (string_field row "parent_hash") _ h8 in
      let (parent_bytes, c10, h10) = >>=-eq-ok (fixed hex 32 parent) _ h9 in
      let (u11, c11, h11) =
        >>=-eq-ok (ensure (follows w.previous row) "broken parent continuity") _ h10 in
      let (u12, c12, h12) =
        >>=-eq-ok
          (ensure (if number == last then same_block row header else true)
            "stream checkpoint differs from proof header")
          _ h11 in
      let (u13, c13, h13) =
        >>=-eq-ok
          (ensure (if w.count == 0 then continues (get source (codes "parent_hash")) row else true)
            "stream does not continue the base checkpoint")
          _ h12 in
      let q = ensure-eq-ok (number == w.expected) "missing or conflicting block" c2 in
      let n : number ≡ w.expected = ground (arith, q) in
      let (f, s) =
        filtered accounts row b c3 (ensure-eq-ok b "account filter or schema changed" c4) in
      let p = ensure-eq-ok (leb 3 producer && leb producer 5) "unsupported producer version" c6 in
      record {
        block = record {
          number = c1 ∙ ap ok n;
          filter = f;
          schema = s;
          producer = producer;
          has_producer = c5;
          supported = (ground (arith, p), ground (arith, p));
          hash = hash;
          has_hash = c7;
          hash_bytes = hash_bytes;
          is_hash = c8;
          parent = parent;
          has_parent = c9;
          parent_bytes = parent_bytes;
          is_parent = c10;
          at_last = λ e.
              at_last-IsSameBlock number last row header
                (ensure-eq-ok (if number == last then same_block row header else true)
                  "stream checkpoint differs from proof header" c12)
                (n ∙ e);
        };
        after =
            follows-IsAfter w.previous row
              (ensure-eq-ok (follows w.previous row) "broken parent continuity" c11);
        based = λ z parent e.
            continues-parent (get source (codes "parent_hash")) row
              (continued w.count (continues (get source (codes "parent_hash")) row) z (
                ensure-eq-ok
                  (if w.count == 0 then continues (get source (codes "parent_hash")) row else true)
                  "stream does not continue the base checkpoint" c13))
              parent e;
        result = sym (ok-injective h13);
      }

  pub check_rows-IsChain :
      (source header : Json) (last : ℕ) (accounts : Text) (rows : List Json) (w w' : Walk)
      → check_rows hex source header last accounts rows w ≡ ok w'
      → w'.expected ≡ last + 1
      → IsChain hex header last accounts w.expected w.previous rows
        × (w.count ≡ 0 → IsBased source rows)
        × (w'.expected ≡ w.expected + length rows)
        × (w'.count % u64_mod ≡ (w.count + length rows) % u64_mod)
  unfolding check_rows
  check_rows-IsChain source header last accounts [] w w' h e =
      let a = ap (λ (x : Walk). x.expected) (ok-injective h) in
      let b = ap (λ (x : Walk). x.count) (ok-injective h) in
      (a ∙ e, (λ z. tt), omega (arith, a), omega (arith, b))
  check_rows-IsChain source header last accounts (row ∷ rows) w w' h e =
      let (w1, c, h1) = >>=-eq-ok (check_row hex source header last accounts row w) _ h in
      let s = check_row-IsStep source header last accounts row w w1 c in
      let (chain, _, a, b) = check_rows-IsChain source header last accounts rows w1 w' h1 e in
      let p = ap (λ (x : Walk). x.expected) s.result in
      let q = ap (λ (x : Walk). x.count) s.result in
      (
        (
          s.after,
          (
            s.block,
            subst (λ (x : Walk). IsChain hex header last accounts x.expected x.previous rows)
                s.result chain,
          ),
        ),
        s.based,
        omega (arith, a, p),
        omega (arith, b, q),
      )
