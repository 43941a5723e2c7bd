-- ===== src/Capacity/Supervise/Completed.antt =====
-- About the report of `supervise` in crates/evm-state/src/capacity.rs.
use substreams_evm_state.Prelude.{
  ℕ, ◌≡◌, refl, sym, ap, ◌∙◌, true, not, ◌&&◌, Option, none, some, List, [], is_empty, All, Result,
  ok, err, >>=-eq-ok, ok-injective, codes, arith,
}
use substreams_evm_state.Prelude.Order.{text_ord}
use substreams_evm_state.Prelude.Int.{pos}
use substreams_evm_state.Json.{Json, index, is_true}
use substreams_evm_state.Capacity.Guard.{no_samples}
use substreams_evm_state.Capacity.Supervise.{Reasons, record_sample, Round, Supervision, start}
use substreams_evm_state.Capacity.Supervise.Report.{
  note_guards, Report, is_zero, Session, all_reasons, prepare, report, report_on, supervise_from,
  supervise,
}
use substreams_evm_state.Capacity.Supervise.Honest.{IsHonest, IsHonestAnswer, insert-is_empty}
use substreams_evm_state.Capacity.Supervise.Refused.{note_guards-admitted}
use substreams_evm_state.Capacity.Supervise.Measured.{IsAdmitted, record_sample-IsHonest}
use substreams_evm_state.Capacity.Supervise.Uneventful.{IsUneventful}
use substreams_evm_state.Capacity.Supervise.Ending.{is_zero-pos, start-IsQuietStart}

all_reasons-is_empty :
    (r : Result (Unit {0})) (rs : Reasons)
    → is_empty (all_reasons r rs) ≡ true
    → (r ≡ ok tt) × (is_empty rs ≡ true)
unfolding all_reasons
all_reasons-is_empty (ok u) rs h = (refl, h)
all_reasons-is_empty (err e) rs h = cc (insert-is_empty rs (codes "supervisor_error") tt, h)

-- What a report that says `completed` is about.
pub record IsCompleted (x : Session) : Type 0 where
  pub admitted : IsAdmitted x.first
  pub started : x.spawned ≡ ok tt
  pub uneventful : IsUneventful x.rounds (pos 0)
  pub guards : List Json
  pub has_guards : x.guards ≡ ok guards
  pub all_admitted : All (λ guard. is_true (index guard "admitted") ≡ true) guards

-- Each answer of the sampler and each file of a guard that is not admitted gives a reason.
pub record IsHonestSession (x : Session) : Type 0 where
  pub first : IsHonestAnswer x.first.answer
  pub rounds : All (λ (r : Round). IsHonestAnswer r.sampling.answer) x.rounds
  pub guards : (gs : List Json) → x.guards ≡ ok gs → All IsHonest gs

-- What a report needs to say `completed`.
record IsCleanEnd (x : Session) (end : Supervision × Result (Unit {0})) : Type 0 where
  no_error : end.1 ≡ ok tt
  no_reason : is_empty end.0.reasons ≡ true
  zero : end.0.result ≡ some (pos 0)
  guards : List Json
  has_guards : x.guards ≡ ok guards
  all_admitted : All (λ guard. is_true (index guard "admitted") ≡ true) guards

report-IsCleanEnd :
    (x : Session) (started : ℕ) (end : Supervision × Result (Unit {0})) (r : Report)
    → IsHonestSession x
    → report x started end ≡ ok r
    → r.completed ≡ true
    → IsCleanEnd x end
unfolding report
report-IsCleanEnd x started (run, execute) r honest h c =
    let (guards, q1, h1) = >>=-eq-ok x.guards _ h in
    let (g, q2, h2) =
      >>=-eq-ok
        (note_guards guards (record {
          peak = run.stats.peak;
          failures = 0;
          rejected = [];
          reasons = all_reasons execute run.reasons;
        }))
        _ h1 in
    let (finished, q3, h3) = >>=-eq-ok x.finished _ h2 in
    let (u, q4, h4) = >>=-eq-ok x.stored _ h3 in
    let d : (is_zero run.result && is_empty g.reasons && not run.unconfirmed) ≡ true =
      ap (λ (x : Report). x.completed) (ok-injective h4) ∙ c in
    let zero : is_zero run.result ≡ true = ground (arith, d) in
    let empty : is_empty g.reasons ≡ true = ground (arith, d) in
    let (all, e) = note_guards-admitted guards _ g (honest.guards guards q1) q2 empty in
    let (a, b) = all_reasons-is_empty execute run.reasons e in
    record {
      no_error = a;
      no_reason = b;
      zero = is_zero-pos run.result zero;
      guards = guards;
      has_guards = q1;
      all_admitted = all;
    }

report_on-IsCompleted :
    (x : Session) (started : ℕ) (o : Option (Supervision × Result (Unit {0}))) (r : Report)
    → o ≡ start (record_sample x.first no_samples) x.spawned x.rounds x.terminated
    → IsHonestSession x
    → report_on x started o ≡ some (ok r)
    → r.completed ≡ true
    → IsCompleted x
unfolding report_on
report_on-IsCompleted x started none r o honest h c = cc h
report_on-IsCompleted x started (some end) r o honest h c =
    let e : report x started end ≡ ok r = cc h in
    let clean = report-IsCleanEnd x started end r honest e c in
    let s =
      start-IsQuietStart (record_sample x.first no_samples) x.first x.spawned x.rounds x.terminated
        end (λ value q. record_sample-IsHonest x.first no_samples value honest.first q)
        honest.rounds (sym o) clean.no_error clean.no_reason clean.zero in
    record {
      admitted = s.admitted;
      started = s.started;
      uneventful = s.uneventful;
      guards = clean.guards;
      has_guards = clean.has_guards;
      all_admitted = clean.all_admitted;
    }

supervise_from-IsCompleted :
    (p : Result ℕ) (x : Session) (r : Report)
    → IsHonestSession x
    → supervise_from p x ≡ some (ok r)
    → r.completed ≡ true
    → IsCompleted x
unfolding supervise_from
supervise_from-IsCompleted (err e) x r honest h c = cc h
supervise_from-IsCompleted (ok started) x r honest h c =
    report_on-IsCompleted x started
      (start (record_sample x.first no_samples) x.spawned x.rounds x.terminated) r refl honest h c

-- A report of `supervise` that says `completed`, of a session in which each answer of the sampler and
-- each guard's file that is not admitted gives a reason: the first sample was admitted, the command
-- was started, the samples of the rounds were measured and admitted with no signal up to the round in
-- which it had exited, with 0, and the files of all guards are admitted.
pub supervise-IsCompleted :
    (x : Session) (r : Report)
    → IsHonestSession x
    → supervise x ≡ some (ok r)
    → r.completed ≡ true
    → IsCompleted x
unfolding supervise
supervise-IsCompleted x r honest h c = supervise_from-IsCompleted (prepare x) x r honest h c
