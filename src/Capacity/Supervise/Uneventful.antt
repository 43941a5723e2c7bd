-- ===== src/Capacity/Supervise/Uneventful.antt =====
-- About the loop of `supervise` in crates/evm-state/src/capacity.rs.
use substreams_evm_state.Prelude.{
  ◌≡◌, ◌⊎◌, inl, inr, refl, sym, ap, ◌∙◌, subst, Bool, true, false, not, ◌||◌, Option, none, some,
  List, [], ◌∷◌, is_empty, All, Result, ok, err, if◌then◌else◌, codes,
}
use substreams_evm_state.Prelude.Order.{text_ord}
use substreams_evm_state.Prelude.Int.{ℤ}
use substreams_evm_state.Json.{Json, index, is_true}
use substreams_evm_state.Capacity.Guard.{Stats}
use substreams_evm_state.Capacity.Supervise.{
  Reasons, note_value, record_sample, is_some, interrupt, Round, Supervision, Outcome, ended,
  running, after_reasons, after_sample, round_at, round, continue, rounds,
}
use substreams_evm_state.Capacity.Supervise.Honest.{
  IsHonest, IsHonestAnswer, insert-is_empty, note_value-IsQuietNote,
}
use substreams_evm_state.Capacity.Supervise.Measured.{IsAdmitted, record_sample-IsHonest}

-- Rounds with admitted samples and no signal, up to the one after which the command had exited.
abbrev pub IsUneventful : List Round → ℤ → Type 0
IsUneventful [] code = ⊥
IsUneventful (r ∷ rs) code =
    IsAdmitted r.sampling
    × ((r.stopped ≡ false)
        × ((r.exited ≡ ok (some code)) ⊎ ((r.exited ≡ ok none) × IsUneventful rs code)))

-- An end of a round that is no error.
abbrev IsGoing : Outcome → Type 0
IsGoing (ended (err e)) = ⊥
IsGoing (ended (ok u)) = Unit
IsGoing running = Unit

interrupt-is_empty :
    (stopped : Bool) (rs : Reasons)
    → is_empty (interrupt stopped rs) ≡ true
    → (stopped ≡ false) × (is_empty rs ≡ true)
unfolding interrupt
interrupt-is_empty true rs h = cc (insert-is_empty rs (codes "supervisor_interrupted") tt, h)
interrupt-is_empty false rs h = (refl, h)

-- The end of a round in which nothing happened: the command has exited, or it goes on.
abbrev ending : Option ℤ → Outcome
ending none = running
ending (some code) = ended (ok tt)

or_ending :
    (result : Option ℤ) (b : Bool)
    → b ≡ true
    → (if is_some result || not b then ended (ok tt) else running) ≡ ending result
or_ending none true h = refl
or_ending (some code) true h = refl
or_ending result false h = cc h

record IsCalm (p : Reasons × Result (Unit {0})) (stopped : Bool) (run : Supervision)
    (q : Supervision × Outcome) : Type 0 where
  noted : p.1 ≡ ok tt
  calm : stopped ≡ false
  empty : is_empty p.0 ≡ true
  result : q.0.result ≡ run.result
  outcome : q.1 ≡ ending run.result

after_reasons-IsCalm :
    (p : Reasons × Result (Unit {0})) (stopped : Bool) (run : Supervision)
    → IsGoing (after_reasons p stopped run).1
    → is_empty (after_reasons p stopped run).0.reasons ≡ true
    → IsCalm p stopped run (after_reasons p stopped run)
unfolding after_reasons
after_reasons-IsCalm (rs, err e) stopped run g h = elim g [ ]
after_reasons-IsCalm (rs, ok u) stopped run g h =
    let (a, b) = interrupt-is_empty stopped rs h in
    record {
      noted = refl;
      calm = a;
      empty = b;
      result = refl;
      outcome = or_ending run.result (is_empty (interrupt stopped rs)) h;
    }

-- A round whose end is no error and leaves no reason.
record IsQuietRound (r : Round) (run : Supervision) (q : Supervision × Outcome) : Type 0 where
  exited : r.exited ≡ ok q.0.result
  admitted : IsAdmitted r.sampling
  calm : r.stopped ≡ false
  before : is_empty run.reasons ≡ true
  outcome : q.1 ≡ ending q.0.result

after_sample-IsQuietRound :
    (r : Round) (run : Supervision) (p : Stats × Result Json)
    → r.exited ≡ ok run.result
    → ((value : Json)
        → p.1 ≡ ok value
        → IsHonest value × (is_true (index value "admitted") ≡ true → IsAdmitted r.sampling))
    → IsGoing (after_sample p r.stopped run).1
    → is_empty (after_sample p r.stopped run).0.reasons ≡ true
    → IsQuietRound r run (after_sample p r.stopped run)
unfolding after_sample
after_sample-IsQuietRound r run (s, err e) x f g h = elim g [ ]
after_sample-IsQuietRound r run (s, ok value) x f g h =
    let (honest, admitted) = f value refl in
    let c =
      after_reasons-IsCalm (note_value value run.reasons) r.stopped (record run { stats = s }) g
        h in
    let n = note_value-IsQuietNote value run.reasons tt honest c.noted c.empty in
    record {
      exited = x ∙ ap ok (sym c.result);
      admitted = admitted n.admitted;
      calm = c.calm;
      before = n.before;
      outcome = c.outcome ∙ ap ending (sym c.result);
    }

round_at-IsQuietRound :
    (e : Result (Option ℤ)) (r : Round) (run : Supervision)
    → r.exited ≡ e
    → IsHonestAnswer r.sampling.answer
    → IsGoing (round_at e r run).1
    → is_empty (round_at e r run).0.reasons ≡ true
    → IsQuietRound r run (round_at e r run)
unfolding round_at
round_at-IsQuietRound (err e) r run x honest g h = elim g [ ]
round_at-IsQuietRound (ok code) r run x honest g h =
    let q =
      after_sample-IsQuietRound r (record run { result = code })
        (record_sample r.sampling run.stats) x
        (λ value e. record_sample-IsHonest r.sampling run.stats value honest e) g h in
    record {
      exited = q.exited;
      admitted = q.admitted;
      calm = q.calm;
      before = q.before;
      outcome = q.outcome;
    }

round-IsQuietRound :
    (r : Round) (run : Supervision)
    → IsHonestAnswer r.sampling.answer
    → IsGoing (round r run).1
    → is_empty (round r run).0.reasons ≡ true
    → IsQuietRound r run (round r run)
unfolding round
round-IsQuietRound r run honest g h = round_at-IsQuietRound r.exited r run refl honest g h

ending-ended : (o : Option ℤ) → ended (ok tt) ≡ ending o → (code : ℤ) × (o ≡ some code)
ending-ended none h = cc h
ending-ended (some code) h = (code, refl)

ending-running : (o : Option ℤ) → running ≡ ending o → o ≡ none
ending-running none h = refl
ending-running (some code) h = cc h

-- The loop ends with its round, or goes on.
continue-cases :
    (q : Supervision × Outcome) (next : Supervision → Option (Supervision × Result (Unit {0})))
    (run : Supervision) (r : Result (Unit {0}))
    → continue q next ≡ some (run, r)
    → (q ≡ (run, ended r)) ⊎ ((q.1 ≡ running) × (next q.0 ≡ some (run, r)))
unfolding continue
continue-cases (run', ended r') next run r h =
    let e : (run', r') ≡ (run, r) = cc h in
    inl (ap (λ (x : Supervision × Result (Unit {0})). (x.0, ended x.1)) e)
continue-cases (run', running) next run r h = inr (refl, h)

-- A loop that ends without an error and without a reason.
pub record IsQuietLoop (rs : List Round) (run run' : Supervision) : Type 0 where
  pub before : is_empty run.reasons ≡ true
  pub code : ℤ
  pub result : run'.result ≡ some code
  pub uneventful : IsUneventful rs code

pub rounds-IsQuietLoop :
    (rs : List Round) (run run' : Supervision)
    → All (λ (r : Round). IsHonestAnswer r.sampling.answer) rs
    → rounds rs run ≡ some (run', ok tt)
    → is_empty run'.reasons ≡ true
    → IsQuietLoop rs run run'
unfolding rounds
rounds-IsQuietLoop [] run run' honest h e = cc h
rounds-IsQuietLoop (r ∷ rs) run run' honest h e =
    elim (continue-cases (round r run) (λ x. rounds rs x) run' (ok tt) h) [
      | inl q ↦
          let out : ended (ok tt) ≡ (round r run).1 =
            sym (ap (λ (x : Supervision × Outcome). x.1) q) in
          let same : run' ≡ (round r run).0 = sym (ap (λ (x : Supervision × Outcome). x.0) q) in
          let n =
            round-IsQuietRound r run honest.0 (subst IsGoing out tt)
              (subst (λ (x : Supervision). is_empty x.reasons ≡ true) same e) in
          let (code, c) = ending-ended (round r run).0.result (out ∙ n.outcome) in
          record {
            before = n.before;
            code = code;
            result = ap (λ (x : Supervision). x.result) same ∙ c;
            uneventful = (n.admitted, (n.calm, inl (n.exited ∙ ap ok c)));
          }
      | inr (q, h1) ↦
          let l = rounds-IsQuietLoop rs (round r run).0 run' honest.1 h1 e in
          let n = round-IsQuietRound r run honest.0 (subst IsGoing (sym q) tt) l.before in
          let c = ending-running (round r run).0.result (sym q ∙ n.outcome) in
          record {
            before = n.before;
            code = l.code;
            result = l.result;
            uneventful = (n.admitted, (n.calm, inr ((n.exited ∙ ap ok c), l.uneventful)));
          }
    ]
