-- ===== src/Cursor/Final.antt =====
-- About `decode` of crates/evm-state/src/cursor.rs.
use substreams_evm_state.Prelude.{
  ℕ, All, [], ◌∷◌, ◌-◌, ◌<◌, ◌≤◌, ◌≡◌, ◌⊎◌, inl, inr, refl, Bool, true, false, not, ◌&&◌, ◌||◌,
  some, List, ◌++◌, Text, codes, arith, length, is_empty, all, bytes_eq, eq_of_bytes_eq, leb, ◌==◌,
  if◌then◌else◌, ok, ensure, context, >>=-eq-ok, ensure-eq-ok, context-eq-ok, ok-injective, subst,
  Bool-cases,
}
use substreams_evm_state.Prelude.Int.{u64_mod}
use substreams_evm_state.Json.Digits.{
  is_digit, is_lower_hex, is_alphanumeric, decimal_from, parse_u64, parse_u64-lt,
}
use substreams_evm_state.Cursor.{
  BlockRef, Position, Seal, trim_padding, split_colon, part, is_segment, has_segments, is_supported,
  starts_with_zero, block_ref, reference, ref_eq, parse_u8, is_final, decode_parts, decode,
}

-- A digit of a hash: `0` to `9`, or `a` to `f`.
abbrev pub IsLowerHex : ℕ → Type 0
IsLowerHex c = ((48 ≤ c) × (c ≤ 57)) ⊎ ((97 ≤ c) × (c ≤ 102))

digits-IsLowerHex : (t : Text) → all is_lower_hex t ≡ true → All IsLowerHex t
unfolding all
digits-IsLowerHex [] h = tt
digits-IsLowerHex (c ∷ cs) h = (ground (arith, h), digits-IsLowerHex cs (ground (arith, h)))

-- A block number of 64 bits, and a hash of 64 lower-case hexadecimal digits after `0x`.
pub record IsRef (b : BlockRef) : Type 0 where
  pub bound : b.number < u64_mod
  pub digits : Text
  pub hash : b.hash ≡ codes "0x" ++ digits
  pub count : length digits ≡ 64
  pub lower : All IsLowerHex digits

pub record IsFinal (p : Position) : Type 0 where
  pub block : IsRef p.block
  pub head : IsRef p.head
  pub lib : p.lib ≡ p.block
  pub order : p.block.number ≤ p.head.number
  pub same : p.head.number ≡ p.block.number → p.head ≡ p.block
  pub step : (p.step ≡ 1) ⊎ ((p.step ≡ 16) ⊎ (p.step ≡ 17))

block_ref-IsRef : (number hash : Text) (b : BlockRef) → block_ref number hash ≡ ok b → IsRef b
unfolding block_ref
block_ref-IsRef number hash b h =
    let (u1, c1, h1) =
      >>=-eq-ok
        (ensure
          (bytes_eq number (codes "0")
            || (not (is_empty number) && (not (starts_with_zero number) && all is_digit number)))
          "invalid BSC block number")
        _ h in
    let (u2, c2, h2) =
      >>=-eq-ok (ensure (length hash == 64 && all is_lower_hex hash) "invalid BSC block hash") _
        h1 in
    let (n, c3, h3) = >>=-eq-ok (context (parse_u64 number) "block number exceeds uint64") _ h2 in
    let q = ensure-eq-ok (length hash == 64 && all is_lower_hex hash) "invalid BSC block hash" c2 in
    let l =
      parse_u64-lt number n (context-eq-ok (parse_u64 number) "block number exceeds uint64" c3) in
    let e : record { number = n; hash = codes "0x" ++ hash } ≡ b = ok-injective h3 in
    subst IsRef e (record {
      bound = l;
      digits = hash;
      hash = refl;
      count = ground (arith, q);
      lower = digits-IsLowerHex hash (ground (arith, q));
    })

ref_eq-eq : (a b : BlockRef) → ref_eq a b ≡ true → a ≡ b
unfolding ref_eq
ref_eq-eq a b h =
    let n : a.number ≡ b.number = ground (arith, h) in
    let t : bytes_eq a.hash b.hash ≡ true = ground (arith, h) in
    let e = eq_of_bytes_eq a.hash b.hash t in λ i. record { number = n i; hash = e i }

either :
    (test : Bool) (parts : List Text) (offset : ℕ) (block b : BlockRef)
    → IsRef block
    → (if test then ok block else reference parts offset) ≡ ok b
    → IsRef b
either true parts offset block b r h = subst IsRef (ok-injective h) r
either false parts offset block b r h = block_ref-IsRef _ _ b h

parse_u8-eq :
    (t : Text) (n : ℕ)
    → parse_u8 t ≡ some n
    → (t' : Text) → bytes_eq t t' ≡ true
    → parse_u8 t' ≡ some n
parse_u8-eq t n h t' e = subst (λ x. parse_u8 x ≡ some n) (eq_of_bytes_eq t t' e) h

some_value : {m n : ℕ} → some m ≡ some n → n ≡ m
some_value h = cc h

step-cases :
    (t : Text) (n : ℕ)
    → (bytes_eq t (codes "1") || (bytes_eq t (codes "16") || bytes_eq t (codes "17"))) ≡ true
    → parse_u8 t ≡ some n
    → (n ≡ 1) ⊎ ((n ≡ 16) ⊎ (n ≡ 17))
unfolding parse_u8 decimal_from
step-cases t n h p = elim (Bool-cases (bytes_eq t (codes "1"))) [
  | inl e ↦ inl (some_value (parse_u8-eq t n p (codes "1") e))
  | inr a ↦ elim (Bool-cases (bytes_eq t (codes "16"))) [
    | inl e ↦ inr (inl (some_value (parse_u8-eq t n p (codes "16") e)))
    | inr b ↦
        let c : bytes_eq t (codes "17") ≡ true = rw (a, b) at h in
        inr (inr (some_value (parse_u8-eq t n p (codes "17") c)))
  ]
]

final :
    (block head lib : BlockRef) (step : ℕ)
    → IsRef block
    → IsRef head
    → is_final block head lib ≡ true
    → (step ≡ 1) ⊎ ((step ≡ 16) ⊎ (step ≡ 17))
    → IsFinal (record { block = block; head = head; lib = lib; step = step })
unfolding is_final
final block head lib step b h f s = record {
  block = b;
  head = h;
  lib = ref_eq-eq lib block (ground (arith, f));
  order = ground (arith, f);
  same = λ e. ref_eq-eq head block (ground (arith, f, e));
  step = s;
}

decode_parts-IsFinal : (parts : List Text) (p : Position) → decode_parts parts ≡ ok p → IsFinal p
unfolding decode_parts
decode_parts-IsFinal parts p h =
    let (u1, c1, h1) = >>=-eq-ok (ensure (has_segments parts) "invalid cursor segments") _ h in
    let (u2, c2, h2) = >>=-eq-ok (ensure (is_supported parts) "unsupported cursor step") _ h1 in
    let (block, c3, h3) = >>=-eq-ok (reference parts 2) _ h2 in
    let (head, c4, h4) =
      >>=-eq-ok (if is_segment parts 0 (codes "c1") then ok block else reference parts 4) _ h3 in
    let (lib, c5, h5) =
      >>=-eq-ok
        (if is_segment parts 0 (codes "c2")
          then ok block
          else reference parts (if is_segment parts 0 (codes "c1") then 4 else 6))
        _ h4 in
    let (u6, c6, h6) =
      >>=-eq-ok (ensure (is_final block head lib) "cursor is not on a finalized block") _ h5 in
    let (step, c7, h7) = >>=-eq-ok (context (parse_u8 (part parts 1)) "invalid step") _ h6 in
    let b = block_ref-IsRef _ _ block c3 in
    subst IsFinal (ok-injective h7) (
      final block head lib step b (either (is_segment parts 0 (codes "c1")) parts 4 block head b c4)
        (ensure-eq-ok (is_final block head lib) "cursor is not on a finalized block" c6)
        (step-cases (part parts 1) step
          (ensure-eq-ok (is_supported parts) "unsupported cursor step" c2)
          (context-eq-ok (parse_u8 (part parts 1)) "invalid step" c7)))

-- A cursor that is accepted stands on a final block: its block is the last irreversible one, the head
-- is not before it and, at the same number, is it, the numbers hold in 64 bits, the hashes have 64
-- lower-case hexadecimal digits, and the step is a supported one.
pub decode-IsFinal :
    (seal : Seal) (token : Text) (p : Position) → decode seal token ≡ ok p → IsFinal p
unfolding decode
decode-IsFinal seal token p h =
    let (u1, c1, h1) =
      >>=-eq-ok (ensure (not (is_empty token) && leb (length token) 2048) "invalid cursor length") _
        h in
    let (u2, c2, h2) =
      >>=-eq-ok
        (ensure
          (leb (length token - length (trim_padding token)) 2
            && (not (is_empty (trim_padding token))
                && all (λ v. is_alphanumeric v || (v == 95 || v == 45)) (trim_padding token)))
          "invalid cursor alphabet")
        _ h1 in
    let (encoded, c3, h3) = >>=-eq-ok (context (seal.base64 token) "invalid cursor base64") _ h2 in
    let (payload, c4, h4) =
      >>=-eq-ok (context (seal.decrypt encoded) "invalid cursor ciphertext") _ h3 in
    let (text, c5, h5) = >>=-eq-ok (context (seal.utf8 payload) "invalid cursor text") _ h4 in
    decode_parts-IsFinal (split_colon text) p h5
