-- ===== src/Frame.antt =====
-- The frames of gRPC of crates/evm-state/src/native_stream.rs: `frame`, of an encoded message, and
-- `decode_frame`. What the reader of the s2 compression gives, of one byte more than the limit at
-- most, is an argument.
use substreams_evm_state.Prelude.{
  ℕ, inl, inr, some, context-eq-ok, ◌+◌, ◌/◌, ◌%◌, ◌≤◌, ◌≡◌, ap, true, ◌&&◌, [], ◌∷◌, Bytes, Text,
  codes, length, bytes_eq, leb, leb→le, ◌==◌, arith, if◌then◌else◌, Bool-cases, Result, ok, ensure,
  context, none, ◌>>=◌, ◌>>◌, >>=-eq-ok, ensure-eq-ok, ok-injective, subst,
}
use substreams_evm_state.Extern.{be_value}

-- `LIMIT`
abbrev pub limit : ℕ
limit = 67_108_864

-- `to_be_bytes` on the length as a `u32`
abbrev pub length_bytes : ℕ → Bytes
length_bytes n = n / 16_777_216 % 256 ∷ n / 65_536 % 256 ∷ n / 256 % 256 ∷ n % 256 ∷ []

unfoldable pub frame : Bytes → Result Bytes
frame message = do
  ensure (leb (length message) limit) "gRPC output exceeds size limit"
  ok (
      0
      ∷ length message / 16_777_216 % 256
      ∷ length message / 65_536 % 256
      ∷ length message / 256 % 256
      ∷ length message % 256
      ∷ message)

unfoldable pub decode_payload : (Bytes → Result Bytes) → ℕ → Bytes → Text → Result Bytes
decode_payload s2 flag payload encoding =
    let compressed = (do
      ensure (bytes_eq encoding (codes "s2")) "unsupported gRPC request compression"
      decoded ← s2 payload
      ensure (leb (length decoded) limit) "decoded gRPC request exceeds size limit"
      ok decoded) in
    if flag == 0
    then ok payload
    else (if flag == 1 then compressed else context none "invalid gRPC compression flag")

-- The four bytes after the flag are the length.
unfoldable pub decode_frame : (Bytes → Result Bytes) → Bytes → Text → Result Bytes
decode_frame s2 (flag ∷ a ∷ b ∷ c ∷ d ∷ payload) encoding = do
  ensure
      (leb (be_value (a ∷ b ∷ c ∷ d ∷ [])) limit
        && length payload + 5 == be_value (a ∷ b ∷ c ∷ d ∷ []) + 5)
      "gRPC request must contain one bounded frame"
  decode_payload s2 flag payload encoding
decode_frame s2 _ encoding = context none "truncated gRPC frame"

be_value-length_bytes : (n : ℕ) → n ≤ limit → be_value (length_bytes n) ≡ n
be_value-length_bytes n l = omega (arith, l)

bounded :
    (n : ℕ)
    → n ≤ limit
    → (leb (be_value (length_bytes n)) limit && n + 5 == be_value (length_bytes n) + 5) ≡ true
bounded n l = let e = be_value-length_bytes n l in rw e (ground (arith, l))

-- A frame decodes to the message that it was made of.
pub decode_frame-frame :
    (s2 : Bytes → Result Bytes) (message framed : Bytes) (encoding : Text)
    → frame message ≡ ok framed
    → decode_frame s2 framed encoding ≡ ok message
unfolding frame decode_frame decode_payload
decode_frame-frame s2 message framed encoding h =
    let (u, c, h1) =
      >>=-eq-ok (ensure (leb (length message) limit) "gRPC output exceeds size limit") _ h in
    let l =
      leb→le (length message) limit
        (ensure-eq-ok (leb (length message) limit) "gRPC output exceeds size limit" c) in
    let e = be_value-length_bytes (length message) l in
    subst (λ f. decode_frame s2 f encoding ≡ ok message) (ok-injective h1)
      (ap (λ t. ensure t "gRPC request must contain one bounded frame" >> ok message)
        (bounded (length message) l))

within : (n m : ℕ) → (leb n limit && m + 5 == n + 5) ≡ true → m ≤ limit
within n m t = ground (arith, t)

decode_payload-bound :
    (s2 : Bytes → Result Bytes) (flag : ℕ) (payload : Bytes) (encoding : Text) (message : Bytes)
    → length payload ≤ limit
    → decode_payload s2 flag payload encoding ≡ ok message
    → length message ≤ limit
unfolding decode_payload
decode_payload-bound s2 flag payload encoding message l h = elim (Bool-cases (flag == 0)) [
  | inl e ↦ subst (λ x. length x ≤ limit) (ok-injective (rw e at h)) l
  | inr e ↦ elim (Bool-cases (flag == 1)) [
    | inl q ↦
        let (u, c1, h1) =
          >>=-eq-ok (ensure (bytes_eq encoding (codes "s2")) "unsupported gRPC request compression")
            _ (rw (e, q) at h) in
        let (decoded, c2, h2) = >>=-eq-ok (s2 payload) _ h1 in
        let (u3, c3, h3) =
          >>=-eq-ok (ensure (leb (length decoded) limit) "decoded gRPC request exceeds size limit")
            _ h2 in
        subst (λ x. length x ≤ limit) (ok-injective h3)
          (leb→le (length decoded) limit (
            ensure-eq-ok (leb (length decoded) limit) "decoded gRPC request exceeds size limit" c3))
    | inr q ↦
        let r : none ≡ some message =
          context-eq-ok none "invalid gRPC compression flag" (rw (e, q) at h) in
        cc r
  ]
]

-- What is decoded is within the limit, whatever the compression gives.
pub decode_frame-bound :
    (s2 : Bytes → Result Bytes) (framed : Bytes) (encoding : Text) (message : Bytes)
    → decode_frame s2 framed encoding ≡ ok message
    → length message ≤ limit
unfolding decode_frame
decode_frame-bound s2 (flag ∷ a ∷ b ∷ c ∷ d ∷ payload) encoding message h =
    let (u, c1, h1) =
      >>=-eq-ok
        (ensure
          (leb (be_value (a ∷ b ∷ c ∷ d ∷ [])) limit
            && length payload + 5 == be_value (a ∷ b ∷ c ∷ d ∷ []) + 5)
          "gRPC request must contain one bounded frame")
        _ h in
    let t =
      ensure-eq-ok
        (leb (be_value (a ∷ b ∷ c ∷ d ∷ [])) limit
          && length payload + 5 == be_value (a ∷ b ∷ c ∷ d ∷ []) + 5)
        "gRPC request must contain one bounded frame" c1 in
    decode_payload-bound s2 flag payload encoding message (within _ (length payload) t) h1
decode_frame-bound s2 _ encoding message h =
    let q : none ≡ some message = context-eq-ok none "truncated gRPC frame" h in cc q
