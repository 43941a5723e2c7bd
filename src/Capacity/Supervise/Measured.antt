-- ===== src/Capacity/Supervise/Measured.antt =====
-- About `Stats::record` in crates/evm-state/src/capacity.rs.
use substreams_evm_state.Prelude.{
  ℕ, ◌≡◌, ap, ◌∙◌, subst, true, false, Result, ok, err, >>=-eq-ok, ok-injective, err_absurd,
}
use substreams_evm_state.Prelude.Order.{text_ord}
use substreams_evm_state.Json.{Json, index, is_true}
use substreams_evm_state.Capacity.Guard.{Stats, tally}
use substreams_evm_state.Capacity.Supervise.{
  Answer, measured, faulted, value_of, with_value, record_at, record_sample, tally_input, Sampling,
}
use substreams_evm_state.Capacity.Supervise.Honest.{
  IsHonest, IsHonestAnswer, failure-IsHonest, failure-refused,
}

-- A sample that was measured and admitted.
abbrev pub IsAdmitted : Sampling → Type 0
IsAdmitted x =
    (value : Json) × ((x.answer ≡ measured value) × (is_true (index value "admitted") ≡ true))

value_of-IsHonest :
    (a : Answer) (started : ℕ) (finished : Result ℕ) (value : Json)
    → IsHonestAnswer a
    → value_of a started finished ≡ ok value
    → IsHonest value × (is_true (index value "admitted") ≡ true → a ≡ measured value)
unfolding value_of
value_of-IsHonest (measured v) started finished value honest h =
    let e : v ≡ value = ok-injective h in (subst IsHonest e honest, λ a. ap measured e)
value_of-IsHonest (faulted f) started finished value honest h =
    let (now, c, h1) = >>=-eq-ok finished _ h in
    let e = ok-injective h1 in
    (
      subst IsHonest e (failure-IsHonest f started now),
      λ a.
          cc (
            subst (λ v. is_true (index v "admitted") ≡ false) e (failure-refused f started now),
            a,
          ),
    )

with_value-eq-ok :
    (p : Stats × Result (Unit {0})) (x : Sampling) (started : ℕ) (value : Json)
    → (with_value p x started).1 ≡ ok value
    → value_of x.answer started x.finished ≡ ok value
unfolding with_value
with_value-eq-ok (s, err e) x started value h = err_absurd h
with_value-eq-ok (s, ok u) x started value h =
    let (v, c, h1) = >>=-eq-ok (value_of x.answer started x.finished) _ h in
    let (u', d, h2) = >>=-eq-ok x.logged _ h1 in c ∙ h2

record_at-IsHonest :
    (started : Result ℕ) (x : Sampling) (s : Stats) (value : Json)
    → IsHonestAnswer x.answer
    → (record_at started x s).1 ≡ ok value
    → IsHonest value × (is_true (index value "admitted") ≡ true → IsAdmitted x)
unfolding record_at
record_at-IsHonest (err e) x s value honest h = err_absurd h
record_at-IsHonest (ok started) x s value honest h =
    let (a, b) =
      value_of-IsHonest x.answer started x.finished value honest
        (with_value-eq-ok (tally (tally_input x.answer) s) x started value h) in
    (a, λ e. (value, (b e, e)))

pub record_sample-IsHonest :
    (x : Sampling) (s : Stats) (value : Json)
    → IsHonestAnswer x.answer
    → (record_sample x s).1 ≡ ok value
    → IsHonest value × (is_true (index value "admitted") ≡ true → IsAdmitted x)
unfolding record_sample
record_sample-IsHonest x s value honest h = record_at-IsHonest x.started x s value honest h
