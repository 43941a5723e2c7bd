-- ===== src/Persist/Noop.antt =====
-- About the no-op tests of src/persist.rs, and the zeros that values start with.
use substreams_evm_state.Prelude.{
  ℕ, ◌+◌, ◌*◌, ◌≤◌, ◌<◌, ◌≡◌, ◌≢◌, ◌↔◌, refl, sym, ap, ◌∙◌, true, [], ◌∷◌, Bytes, arith, length,
  ◌==◌, bytes_eq, bytes_eq_of_eq, eq_of_bytes_eq, Bool-cases, inl, inr,
}
use native.Mathlib.Decide.{dec_lt}
use substreams_evm_state.Extern.{IsBytes, be_value, be_value_from}
use substreams_evm_state.Eth
use substreams_evm_state.Persist.Rules.{
  strip_zeros, bytes_or_empty, balance_is_noop, storage_is_noop,
}

be_value-strip_zeros : (b : Bytes) → be_value (strip_zeros b) ≡ be_value b
unfolding strip_zeros
be_value-strip_zeros [] = refl
be_value-strip_zeros (x ∷ b) = elim (Bool-cases (x == 0)) [
  | inl e ↦ rw e (be_value-strip_zeros b ∙ ap (λ n. be_value_from n b) (ground (arith, e)))
  | inr e ↦ rw e
]

strip_zeros-IsBytes : (b : Bytes) → IsBytes b → IsBytes (strip_zeros b)
unfolding strip_zeros
strip_zeros-IsBytes [] h = tt
strip_zeros-IsBytes (x ∷ b) h = elim (Bool-cases (x == 0)) [
  | inl e ↦ rw e (strip_zeros-IsBytes b h.1)
  | inr e ↦ rw e h
]

-- No zero stands in front.
abbrev IsStripped : Bytes → Type 0
IsStripped [] = Unit
IsStripped (x ∷ b) = 0 < x

strip_zeros-IsStripped : (b : Bytes) → IsStripped (strip_zeros b)
unfolding strip_zeros
strip_zeros-IsStripped [] = tt
strip_zeros-IsStripped (x ∷ b) = elim (Bool-cases (x == 0)) [
  | inl e ↦ rw e (strip_zeros-IsStripped b)
  | inr e ↦ rw e (ground (arith, e))
]

-- Digits of one length that stand for one number, behind given numbers, are the same digits.
same_length :
    (xs ys : Bytes) (a b : ℕ)
    → IsBytes xs
    → IsBytes ys
    → length xs ≡ length ys
    → be_value_from a xs ≡ be_value_from b ys
    → (a ≡ b) × (xs ≡ ys)
same_length [] [] a b hx hy l e = (e, refl)
same_length [] (y ∷ ys) a b hx hy l e = absurd (omega arith)
same_length (x ∷ xs) [] a b hx hy l e = absurd (omega arith)
same_length (x ∷ xs) (y ∷ ys) a b hx hy l e =
    let (heads, tails) = same_length xs ys (256 * a + x) (256 * b + y) hx.1 hy.1 (omega arith) e in
    (omega arith, ground (arith, tails, heads, hx.0, hy.0))

-- A positive number in front of as many digits stands for more.
longer :
    (ys xs : Bytes) (b : ℕ)
    → IsBytes xs
    → IsBytes ys
    → 0 < b
    → length xs ≤ length ys
    → be_value_from 0 xs ≢ be_value_from b ys
longer [] xs b hx hy p l e = absurd (omega (arith, (same_length xs [] 0 b hx hy (omega arith) e).0))
longer (y ∷ ys) xs b hx hy p l e = elim (dec_lt (length ys) (length xs)) [
  | yes q ↦ absurd (omega (arith, (same_length xs (y ∷ ys) 0 b hx hy (omega arith) e).0))
  | no q ↦ longer ys xs (256 * b + y) hx hy.1 (omega arith) (omega arith) e
]

stripped_unique :
    (xs ys : Bytes)
    → IsBytes xs
    → IsBytes ys
    → IsStripped xs
    → IsStripped ys
    → be_value xs ≡ be_value ys
    → xs ≡ ys
stripped_unique [] [] hx hy sx sy e = refl
stripped_unique [] (y ∷ ys) hx hy sx sy e =
    absurd (longer ys [] (256 * 0 + y) tt hy.1 (omega arith) (omega arith) e)
stripped_unique (x ∷ xs) [] hx hy sx sy e =
    absurd (longer xs [] (256 * 0 + x) tt hx.1 (omega arith) (omega arith) (sym e))
stripped_unique (x ∷ xs) (y ∷ ys) hx hy sx sy e = elim (dec_lt (length xs) (length ys)) [
  | yes p ↦ absurd (longer ys (x ∷ xs) (256 * 0 + y) hx hy.1 (omega arith) (omega arith) e)
  | no p ↦ elim (dec_lt (length ys) (length xs)) [
    | yes q ↦ absurd (longer xs (y ∷ ys) (256 * 0 + x) hy hx.1 (omega arith) (omega arith) (sym e))
    | no q ↦ (same_length (x ∷ xs) (y ∷ ys) 0 0 hx hy (omega arith) e).1
  ]
]

pub strip_zeros_iff :
    (a b : Bytes)
    → IsBytes a
    → IsBytes b
    → (bytes_eq (strip_zeros a) (strip_zeros b) ≡ true) ↔ (be_value a ≡ be_value b)
strip_zeros_iff a b ha hb = (
  λ h.
      sym (be_value-strip_zeros a)
      ∙ ap be_value (eq_of_bytes_eq (strip_zeros a) (strip_zeros b) h)
      ∙ be_value-strip_zeros b,
  λ e. bytes_eq_of_eq (
      stripped_unique (strip_zeros a) (strip_zeros b) (strip_zeros-IsBytes a ha)
        (strip_zeros-IsBytes b hb) (strip_zeros-IsStripped a) (strip_zeros-IsStripped b)
        (be_value-strip_zeros a ∙ e ∙ sym (be_value-strip_zeros b))),
)

-- A storage record whose words are bytes is dropped as a no-op exactly if its old and new words
-- are one number.
pub storage_is_noop_iff :
    (c : Eth.StorageChange)
    → IsBytes c.old_value
    → IsBytes c.new_value
    → (storage_is_noop c ≡ true) ↔ (be_value c.old_value ≡ be_value c.new_value)
unfolding storage_is_noop
storage_is_noop_iff c = strip_zeros_iff c.old_value c.new_value

-- A balance record whose values are bytes is dropped as a no-op exactly if its old and new values
-- are one number, where a value that is missing counts as zero.
pub balance_is_noop_iff :
    (c : Eth.BalanceChange)
    → IsBytes (bytes_or_empty c.old_value)
    → IsBytes (bytes_or_empty c.new_value)
    → (balance_is_noop c ≡ true)
      ↔ (be_value (bytes_or_empty c.old_value) ≡ be_value (bytes_or_empty c.new_value))
unfolding balance_is_noop
balance_is_noop_iff c = strip_zeros_iff (bytes_or_empty c.old_value) (bytes_or_empty c.new_value)
