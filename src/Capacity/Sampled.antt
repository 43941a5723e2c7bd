-- ===== src/Capacity/Sampled.antt =====
-- About `guard` and `Stats` of crates/evm-state/src/capacity.rs.
use substreams_evm_state.Prelude.{
  ℕ, ◌+◌, ◌%◌, ◌≤◌, ◌<◌, ◌≡◌, refl, sym, ap, ◌∙◌, true, Option, none, some, List, [], ◌∷◌, Text,
  arith, length, All, Result, ok, err, ensure, >>=-eq-ok, ensure-eq-ok, ok-injective, err_absurd,
  subst,
}
use substreams_evm_state.Prelude.Int.{u64_mod}
use substreams_evm_state.Json.{Json, index, is_true}
use substreams_evm_state.Json.Read.{uint}
use substreams_evm_state.Capacity.Paths.{Path'}
use substreams_evm_state.Capacity.Guard.{
  Sampler, Event, measured, check_paths, check_destination, write, take_sample, guard, Stats,
  gap_after, note_time, note_bytes, tally, tally_on, tally_all,
}

check_paths-inside :
    (meter : Sampler) (paths : List Path') (u : Unit {0})
    → check_paths meter paths ≡ ok u
    → All (λ p. meter.contains p ≡ ok true) paths
unfolding check_paths
check_paths-inside meter [] u h = tt
check_paths-inside meter (p ∷ ps) u h =
    let (inside, c, h1) = >>=-eq-ok (meter.contains p) _ h in
    let (u', e, h2) =
      >>=-eq-ok (ensure inside "operation uses a directory outside the declared capacity roots") _
        h1 in
    (
      c
          ∙ ap ok (
              ensure-eq-ok inside "operation uses a directory outside the declared capacity roots"
                e),
      check_paths-inside meter ps u h2,
    )

-- The paths that the destination names.
abbrev pub listed : Option Path' → List Path'
listed none = []
listed (some p) = p ∷ []

check_destination-inside :
    (meter : Sampler) (destination : Option Path') (u : Unit {0})
    → check_destination meter destination ≡ ok u
    → All (λ p. meter.contains p ≡ ok true) (listed destination)
unfolding check_destination
check_destination-inside meter none u h = tt
check_destination-inside meter (some p) u h =
    let (inside, c, h1) = >>=-eq-ok (meter.contains p) _ h in
    (c ∙ ap ok (ensure-eq-ok inside "capacity events directory is outside declared roots" h1), tt)

take_sample-ok :
    (store : Path' → Event → Result (Unit {0})) (destination : Option Path') (stage : Text)
    (answer : Result Json) (value : Json)
    → take_sample store destination stage answer ≡ ok value
    → (answer ≡ ok value) × (write store destination (measured value stage) ≡ ok tt)
unfolding take_sample
take_sample-ok store destination stage (err e) value h =
    let (u, c, h1) = >>=-eq-ok (write store destination (Event.incomplete e stage)) _ h in cc h1
take_sample-ok store destination stage (ok v) value h =
    let (u, c, h1) = >>=-eq-ok (write store destination (measured v stage)) _ h in
    let e : v ≡ value = ok-injective h1 in
    (ap ok e, ap (λ x. write store destination (measured x stage)) (sym e) ∙ c)

-- The record of an event was handed to the store, where there is a destination.
abbrev pub IsStored : (Path' → Event → Result (Unit {0})) → Option Path' → Event → Type 0
IsStored store none event = Unit
IsStored store (some destination) event = store destination event ≡ ok tt

write-IsStored :
    (store : Path' → Event → Result (Unit {0})) (destination : Option Path') (event : Event)
    → write store destination event ≡ ok tt
    → IsStored store destination event
unfolding write
write-IsStored store none event h = tt
write-IsStored store (some destination) event h = h

-- A guard that lets an operation pass: every required path and the destination of its events lie in
-- the declared roots, the sampler gave the sample that is returned, the sample admits, and where
-- there is a destination, the store took the sample with its stage for it without an error.
pub guard-admitted :
    (store : Path' → Event → Result (Unit {0})) (meter : Sampler) (required : List Path')
    (stage : Text) (destination : Option Path') (value : Json)
    → guard store meter required stage destination ≡ ok value
    → All (λ p. meter.contains p ≡ ok true) required
      × All (λ p. meter.contains p ≡ ok true) (listed destination)
      × (meter.sample ≡ ok value)
      × (is_true (index value "admitted") ≡ true)
      × IsStored store destination (measured value stage)
unfolding guard
guard-admitted store meter required stage destination value h =
    let (u1, c1, h1) = >>=-eq-ok (check_paths meter required) _ h in
    let (u2, c2, h2) = >>=-eq-ok (check_destination meter destination) _ h1 in
    let (v, c3, h3) = >>=-eq-ok (take_sample store destination stage meter.sample) _ h2 in
    let (u4, c4, h4) =
      >>=-eq-ok (ensure (is_true (index v "admitted")) "capacity guard rejected operation") _ h3 in
    let e : v ≡ value = ok-injective h4 in
    let (s, w) = take_sample-ok store destination stage meter.sample v c3 in
    (
      check_paths-inside meter required u1 c1,
      check_destination-inside meter destination u2 c2,
      s ∙ ap ok e,
      ap (λ (x : Json). is_true (index x "admitted")) (sym e)
          ∙ ensure-eq-ok (is_true (index v "admitted")) "capacity guard rejected operation" c4,
      write-IsStored store destination (measured value stage)
          (ap (λ x. write store destination (measured x stage)) (sym e) ∙ w),
    )

-- An answer that was counted: a failure, or a sample whose bytes the peak is not below.
abbrev pub IsCounted : ℕ → Result Json → Type 0
IsCounted peak (err e) = Unit
IsCounted peak (ok value) =
    (bytes : ℕ) × (uint (index value "accounted_allocated_bytes") ≡ ok bytes) × (bytes ≤ peak)

IsCounted-le : (m n : ℕ) → m ≤ n → (answer : Result Json) → IsCounted m answer → IsCounted n answer
IsCounted-le m n l (err e) h = tt
IsCounted-le m n l (ok value) (b, e, k) = (b, e, omega (arith, k, l))

-- What one answer does to the tally, if it can be read.
pub record IsTallied (count : ℕ) (s s' : Stats) : Type 0 where
  pub total : s'.samples + s'.failures ≡ s.samples + s.failures + count
  pub peak : s.peak ≤ s'.peak
  pub gap : s.max_gap ≤ s'.max_gap

counted : (n : ℕ) → n + 1 < u64_mod → (n + 1) % u64_mod ≡ n + 1
counted n l = omega (arith, l)

gap_after-le : (last : Option ℕ) (now gap : ℕ) → gap ≤ gap_after last now gap
unfolding gap_after
gap_after-le none now gap = omega arith
gap_after-le (some l) now gap = omega arith

note_time-ok :
    (answer : Result ℕ) (s s' : Stats) (u : Unit {0})
    → note_time answer s ≡ (s', ok u)
    → (s'.samples ≡ s.samples)
      × (s'.failures ≡ s.failures)
      × (s'.peak ≡ s.peak)
      × (s.max_gap ≤ s'.max_gap)
unfolding note_time
note_time-ok (err e) s s' u h = err_absurd (ap (λ (x : Stats × Result (Unit {0})). x.1) h)
note_time-ok (ok now) s s' u h =
    let e : s' ≡ _ = sym (ap (λ (x : Stats × Result (Unit {0})). x.0) h) in
    (
      ap (λ (x : Stats). x.samples) e,
      ap (λ (x : Stats). x.failures) e,
      ap (λ (x : Stats). x.peak) e,
      subst (λ n. s.max_gap ≤ n) (sym (ap (λ (x : Stats). x.max_gap) e))
          (gap_after-le s.last now s.max_gap),
    )

note_bytes-ok :
    (answer : Result ℕ) (value : Json) (s s' : Stats) (u : Unit {0})
    → note_bytes value answer s ≡ (s', ok u)
    → IsTallied 0 s s' × ((bytes : ℕ) × (answer ≡ ok bytes) × (bytes ≤ s'.peak))
unfolding note_bytes
note_bytes-ok (err e) value s s' u h = err_absurd (ap (λ (x : Stats × Result (Unit {0})). x.1) h)
note_bytes-ok (ok bytes) value s s' u h =
    let (a, b, c, d) = note_time-ok _ _ s' u h in
    (
      record { total = omega (arith, a, b); peak = omega (arith, c); gap = d },
      (bytes, refl, omega (arith, c)),
    )

step :
    (answer : Result Json) (s s' : Stats) (u : Unit {0})
    → s.samples + s.failures + 1 < u64_mod
    → tally answer s ≡ (s', ok u)
    → IsTallied 1 s s' × IsCounted s'.peak answer
unfolding tally
step (err e) s s' u l h =
    let q = ap (λ (x : Stats × Result (Unit {0})). x.0) h in
    let a : s.samples ≡ s'.samples = ap (λ (x : Stats). x.samples) q in
    let b : (s.failures + 1) % u64_mod ≡ s'.failures = ap (λ (x : Stats). x.failures) q in
    let c : s.peak ≡ s'.peak = ap (λ (x : Stats). x.peak) q in
    let d : s.max_gap ≡ s'.max_gap = ap (λ (x : Stats). x.max_gap) q in
    let n = counted s.failures (omega (arith, l)) in
    (record { total = omega (arith, a, b, n); peak = omega (arith, c); gap = omega (arith, d) }, tt)
step (ok value) s s' u l h =
    let (t, b) = note_bytes-ok (uint (index value "accounted_allocated_bytes")) value _ s' u h in
    let n = counted s.samples (omega (arith, l)) in
    (record { total = omega (arith, t.total, n); peak = t.peak; gap = t.gap }, b)

tally_on-ok :
    (p : Stats × Result (Unit {0})) (next : Stats → Stats × Result (Unit {0})) (s' : Stats)
    (u : Unit {0})
    → tally_on p next ≡ (s', ok u)
    → (s1 : Stats) × (p ≡ (s1, ok tt)) × (next s1 ≡ (s', ok u))
unfolding tally_on
tally_on-ok (s, err e) next s' u h = err_absurd (ap (λ (x : Stats × Result (Unit {0})). x.1) h)
tally_on-ok (s, ok v) next s' u h = (s, refl, h)

-- A run of the tally that reads every answer, and counts less than 64 bits hold: it counts each
-- answer once, as a sample or a failure, and no sample has more bytes than the peak.
pub tally_all-IsCounted :
    (answers : List (Result Json)) (s s' : Stats) (u : Unit {0})
    → s.samples + s.failures + length answers < u64_mod
    → tally_all answers s ≡ (s', ok u)
    → IsTallied (length answers) s s' × All (IsCounted s'.peak) answers
unfolding tally_all
tally_all-IsCounted [] s s' u l h =
    let q = ap (λ (x : Stats × Result (Unit {0})). x.0) h in
    let a : s.samples ≡ s'.samples = ap (λ (x : Stats). x.samples) q in
    let b : s.failures ≡ s'.failures = ap (λ (x : Stats). x.failures) q in
    let c : s.peak ≡ s'.peak = ap (λ (x : Stats). x.peak) q in
    let d : s.max_gap ≡ s'.max_gap = ap (λ (x : Stats). x.max_gap) q in
    (record { total = omega (arith, a, b); peak = omega (arith, c); gap = omega (arith, d) }, tt)
tally_all-IsCounted (answer ∷ answers) s s' u l h =
    let (s1, c, h1) = tally_on-ok (tally answer s) (λ x. tally_all answers x) s' u h in
    let (t, b) = step answer s s1 tt (omega (arith, l)) c in
    let (t', bs) = tally_all-IsCounted answers s1 s' u (omega (arith, l, t.total)) h1 in
    (
      record {
        total = omega (arith, t.total, t'.total);
        peak = omega (arith, t.peak, t'.peak);
        gap = omega (arith, t.gap, t'.gap);
      },
      (IsCounted-le s1.peak s'.peak t'.peak answer b, bs),
    )
