-- ===== src/Capacity/Retried.antt =====
-- About the loops of crates/evm-state/src/capacity.rs that repeat a measurement.
use substreams_evm_state.Prelude.{
  ℕ, zero, suc, ◌+◌, ◌-◌, ◌≤◌, ◌<◌, ◌≡◌, ◌⊎◌, inl, inr, refl, sym, ap, ◌∙◌, Bool, true, false, ◌&&◌,
  Bytes, arith, ltb, Bool-cases,
}
use substreams_evm_state.Capacity.Scan.{
  Failure, Attempt, done, failed, retry, retry_scan, retry_local, is_directory_changed,
  is_not_found,
}

-- The answer is a failure that the loop repeats after.
abbrev pub is_transient : {T : Type 0} → (Failure → Bool) → Attempt T → Bool
is_transient transient (done output) = false
is_transient transient (failed e) = transient e

-- A loop that returned: its result is the answer of its last call, after at most five calls; each
-- earlier answer was transient, and so is the last only if it is the fifth.
pub record IsRetried {T : Type 0} (transient : Failure → Bool) (scan : ℕ → Attempt T) (first : ℕ)
    (r : Attempt T × ℕ) : Type 0 where
  pub last : r.0 ≡ scan (r.1 - 1)
  pub calls : (first < r.1) × (r.1 ≤ 5)
  pub earlier : (j : ℕ) → first ≤ j → j + 1 < r.1 → is_transient transient (scan j) ≡ true
  pub final : (r.1 ≡ 5) ⊎ (is_transient transient (scan (r.1 - 1)) ≡ false)

Attempt-cases :
    {T : Type 0} (a : Attempt T)
    → ((output : T) × (a ≡ done output)) ⊎ ((e : Failure) × (a ≡ failed e))
Attempt-cases (done output) = inl (output, refl)
Attempt-cases (failed e) = inr (e, refl)

once :
    {T : Type 0} (transient : Failure → Bool) (scan : ℕ → Attempt T) (attempt : ℕ) (a : Attempt T)
    → scan attempt ≡ a
    → attempt < 5
    → (attempt ≡ 4) ⊎ (is_transient transient a ≡ false)
    → IsRetried transient scan attempt (a, attempt + 1)
once transient scan attempt a e l t =
    let n : attempt + 1 - 1 ≡ attempt = omega arith in
    record {
      last = sym (ap scan n ∙ e);
      calls = (omega arith, omega (arith, l));
      earlier = λ j p q. absurd (omega (arith, p, q));
      final = elim t [
        | inl k ↦ inl (omega (arith, k))
        | inr f ↦ inr (ap (is_transient transient) (ap scan n ∙ e) ∙ f)
      ];
    }

later :
    {T : Type 0} (transient : Failure → Bool) (scan : ℕ → Attempt T) (attempt : ℕ) (e : Failure)
    (r : Attempt T × ℕ)
    → scan attempt ≡ failed e
    → transient e ≡ true
    → IsRetried transient scan (attempt + 1) r
    → IsRetried transient scan attempt r
later transient scan attempt e r s t h = record {
  last = h.last;
  calls = (omega (arith, h.calls.0), h.calls.1);
  earlier = λ j p q. elim (at_or_after attempt j p) [
    | inl k ↦ ap (is_transient transient) (ap scan k ∙ s) ∙ t
    | inr k ↦ h.earlier j k q
  ];
  final = h.final;
}
  where
    at_or_after : (a j : ℕ) → a ≤ j → (j ≡ a) ⊎ (a + 1 ≤ j)
    at_or_after a j p = elim (Bool-cases (ltb a j)) [
      | inl e ↦ inr (ground (arith, e))
      | inr e ↦ inl (ground (arith, e, p))
    ]

retry-IsRetried :
    {T : Type 0} (transient : Failure → Bool) (rounds : ℕ) (scan : ℕ → Attempt T) (attempt : ℕ)
    → rounds + attempt ≡ 5
    → 0 < rounds
    → IsRetried transient scan attempt (retry transient rounds scan attempt)
unfolding retry
retry-IsRetried transient zero scan attempt e l = absurd (omega (arith, l))
retry-IsRetried transient (suc rounds) scan attempt e l = elim (Attempt-cases (scan attempt)) [
  | inl (output, s) ↦
      rw (s, retry) (once transient scan attempt (done output) s (omega (arith, e)) (inr refl))
  | inr (f, s) ↦ elim (Bool-cases (ltb attempt 4 && transient f)) [
    | inl t ↦
        rw (s, t, retry)
          (later transient scan attempt f _ s (ground (arith, t)) (
            retry-IsRetried transient rounds scan (attempt + 1) (omega (arith, e))
              (ground (arith, t, e))))
    | inr t ↦
        rw (s, t, retry)
          (once transient scan attempt (failed f) s (omega (arith, e)) (stopped attempt f t e))
  ]
]
  where
    stopped :
        (attempt : ℕ) (f : Failure)
        → (ltb attempt 4 && transient f) ≡ false
        → suc rounds + attempt ≡ 5
        → (attempt ≡ 4) ⊎ (transient f ≡ false)
    stopped attempt f t e = elim (Bool-cases (transient f)) [
      | inr q ↦ inr q
      | inl q ↦ inl (ground (arith, t, q, e))
    ]

-- A scan that a changing directory disturbs is called at most five times: the result is the answer
-- of the last call, each earlier one failed for a changed directory, and so did the last only if
-- it is the fifth.
pub retry_scan-IsRetried :
    (scan : ℕ → Attempt Bytes) → IsRetried is_directory_changed scan 0 (retry_scan scan)
unfolding retry_scan
retry_scan-IsRetried scan = retry-IsRetried is_directory_changed 5 scan 0 refl (omega arith)

pub retry_local-IsRetried :
    {T : Type 0} (sample : ℕ → Attempt T) → IsRetried is_not_found sample 0 (retry_local sample)
unfolding retry_local
retry_local-IsRetried sample = retry-IsRetried is_not_found 5 sample 0 refl (omega arith)
