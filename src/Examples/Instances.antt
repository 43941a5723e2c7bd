-- ===== src/Examples/Instances.antt =====
-- Concrete instances of what the model takes from other packages.
use substreams_evm_state.Prelude.{
  ℕ, ◌+◌, ◌*◌, ◌-◌, ◌/◌, ◌%◌, ◌<◌, ◌≡◌, ◌↔◌, inl, inr, refl, ap, ◌==◌, ◌&&◌, Option, some, none, [],
  ◌∷◌, Bytes, Text, arith, length, ltb, leb, ltb→lt, Bool-cases, Option-cases, subst, if◌then◌else◌,
  All,
}
use substreams_evm_state.Prelude.Int.{ℤ, pos, negsuc}
use substreams_evm_state.Extern.{
  IsBytes, IsHexDigit, Hex, Decimal, be_value, TxStatus, unknown, succeeded, failed, reverted,
  Reason, gas_buy, gas_refund, reward_transaction_fee, other, Enums,
}

unfoldable pub digit : ℕ → ℕ
digit n = if ltb n 10 then 48 + n else 87 + n

unfoldable pub encode : Bytes → Text
encode [] = []
encode (b ∷ bs) = digit (b / 16) ∷ digit (b % 16) ∷ encode bs

unfoldable pub digit_value : ℕ → Option ℕ
digit_value c =
    if leb 48 c && leb c 57
    then some (c - 48)
    else (if leb 97 c && leb c 102
        then some (c - 87)
        else (if leb 65 c && leb c 70 then some (c - 55) else none))

unfoldable pub push_byte : Option ℕ → Option ℕ → Option Bytes → Option Bytes
push_byte (some h) (some l) (some bs) = some ((16 * h + l) ∷ bs)
push_byte _ _ _ = none

unfoldable pub decode : Text → Option Bytes
decode [] = some []
decode (c ∷ []) = none
decode (c ∷ d ∷ t) = push_byte (digit_value c) (digit_value d) (decode t)

pub digit-injective : (m n : ℕ) → digit m ≡ digit n → m ≡ n
unfolding digit
digit-injective m n h = ground (arith, h)

pub digit_value-digit : (n : ℕ) → n < 16 → digit_value (digit n) ≡ some n
unfolding digit digit_value
digit_value-digit n l = ground (arith, l)

digit_value_small : (c n : ℕ) → digit_value c ≡ some n → n < 16
unfolding digit_value
digit_value_small c n h = ground (arith, h)

digit-IsHexDigit : (n : ℕ) → n < 16 → IsHexDigit (digit n)
unfolding digit
digit-IsHexDigit n l = elim (Bool-cases (ltb n 10)) [
  | inl e ↦ rw e (inl (omega arith, omega (arith, ltb→lt n 10 e)))
  | inr e ↦ rw e (inr (ground (arith, e), omega (arith, l)))
]

pub length-encode : (b : Bytes) → length (encode b) ≡ 2 * length b
unfolding encode
length-encode [] = refl
length-encode (b ∷ bs) = omega (arith, length-encode bs)

pub encode-injective : (a b : Bytes) → encode a ≡ encode b → a ≡ b
unfolding encode
encode-injective [] [] h = refl
encode-injective [] (b ∷ bs) h = cc
encode-injective (a ∷ xs) [] h = cc
encode-injective (a ∷ xs) (b ∷ bs) h =
    let q = digit-injective (a / 16) (b / 16) (cc h) in
    let r = digit-injective (a % 16) (b % 16) (cc h) in
    let e : a ≡ b = omega (arith, q, r) in let t = encode-injective xs bs (cc h) in cc (e, t)

pub encode_digits : (b : Bytes) → IsBytes b → All IsHexDigit (encode b)
unfolding encode
encode_digits [] v = tt
encode_digits (b ∷ bs) v =
    let high = digit-IsHexDigit (b / 16) (omega (arith, v.0)) in
    let low = digit-IsHexDigit (b % 16) (omega arith) in (high, (low, encode_digits bs v.1))

pub decode-encode : (b : Bytes) → IsBytes b → decode (encode b) ≡ some b
unfolding encode decode push_byte
decode-encode [] v = refl
decode-encode (b ∷ bs) v =
    let h = digit_value-digit (b / 16) (omega (arith, v.0)) in
    let l = digit_value-digit (b % 16) (omega arith) in
    let r = decode-encode bs v.1 in
    let e : 16 * (b / 16) + b % 16 ≡ b = omega arith in rw (h, l, r) (ap (λ x. some (x ∷ bs)) e)

push_byte-IsBytes :
    (c d : ℕ) (o : Option Bytes) (b : Bytes)
    → ((bs : Bytes) → o ≡ some bs → IsBytes bs)
    → push_byte (digit_value c) (digit_value d) o ≡ some b
    → IsBytes b
unfolding push_byte
push_byte-IsBytes c d o b v h = elim (Option-cases (digit_value c)) [
  | inl e ↦ absurd (ground (arith, rw e at h))
  | inr (x, e) ↦ elim (Option-cases (digit_value d)) [
    | inl e' ↦ absurd (ground (arith, rw (e, e') at h))
    | inr (y, e') ↦ elim (Option-cases o) [
      | inl e'' ↦ absurd (ground (arith, rw (e, e', e'') at h))
      | inr (bs, e'') ↦
          let r : some ((16 * x + y) ∷ bs) ≡ some b = rw (e, e', e'') at h in
          let q : (16 * x + y) ∷ bs ≡ b = cc r in
          subst IsBytes q
            (omega (arith, digit_value_small c x e, digit_value_small d y e'), v bs e'')
    ]
  ]
]

pub decode_bytes : (t : Text) (b : Bytes) → decode t ≡ some b → IsBytes b
unfolding decode
decode_bytes [] b h = let e : [] ≡ b = cc in subst IsBytes e tt
decode_bytes (c ∷ []) b h = cc
decode_bytes (c ∷ d ∷ t) b h = push_byte-IsBytes c d (decode t) b (decode_bytes t) h

-- Lower-case digits out, either case in.
abbrev pub plain_hex : Hex
plain_hex = record {
  encode = encode;
  decode = decode;
  encode_injective = encode-injective;
  length-encode = length-encode;
  encode_digits = encode_digits;
  decode-encode = decode-encode;
  decode_bytes = decode_bytes;
}

first-injective : (m n : ℕ) → (m ∷ []) ≡ (n ∷ []) → m ≡ n
first-injective m n h = cc h

pub plain_decimal_iff :
    (a b : Bytes) → ((be_value a ∷ []) ≡ (be_value b ∷ [])) ↔ (be_value a ≡ be_value b)
plain_decimal_iff a b = (first-injective (be_value a) (be_value b), ap (λ n. n ∷ []))

-- A number's text is here the number.
abbrev pub plain_decimal : Decimal
plain_decimal = record { decimal = λ b. be_value b ∷ []; decimal_iff = plain_decimal_iff }

unfoldable pub tx_status : ℤ → TxStatus
tx_status (negsuc n) = unknown
tx_status (pos n) =
    if n == 1
    then succeeded
    else (if n == 2 then failed else (if n == 3 then reverted else unknown))

unfoldable pub tx_status_code : TxStatus → ℤ
tx_status_code unknown = pos 0
tx_status_code succeeded = pos 1
tx_status_code failed = pos 2
tx_status_code reverted = pos 3

unfoldable pub change_reason : ℤ → Reason
change_reason (negsuc n) = other
change_reason (pos n) =
    if n == 5
    then reward_transaction_fee
    else (if n == 9 then gas_buy else (if n == 10 then gas_refund else other))

abbrev pub plain_enums : Enums
plain_enums = record {
  status = tx_status;
  status_code = tx_status_code;
  reason = change_reason;
  extended = pos 0;
}
