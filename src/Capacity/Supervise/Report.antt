-- ===== src/Capacity/Supervise/Report.antt =====
-- The guards' files and the report of `supervise` in crates/evm-state/src/capacity.rs. The report is
-- a record: its configuration, the hash of it and the constant fields are left out. The count of the
-- rejected guards does not wrap, as there are fewer files than it holds.
use substreams_evm_state.Prelude.{
  ℕ, ◌+◌, Bool, true, false, not, ◌&&◌, Option, none, some, List, [], ◌∷◌, ◌++◌, Text, codes, max,
  is_empty, length, any, if◌then◌else◌, ◌==◌, Result, ok, err, ensure, context, ◌>>=◌, ◌>>◌,
}
use substreams_evm_state.Prelude.Order.{text_ord}
use substreams_evm_state.Prelude.Int.{ℤ, pos, negsuc}
use substreams_evm_state.Btree.{insert}
use substreams_evm_state.Json.{Json, get, index, as_array, is_true, is_text}
use substreams_evm_state.Json.Read.{string_field, uint}
use substreams_evm_state.Capacity.Guard.{no_samples}
use substreams_evm_state.Capacity.Supervise.{
  Sampling, record_sample, Reasons, add_reasons, Supervision, Round, start,
}

-- What the files of the guards add: the peak, the incomplete samples, the stages that were rejected
-- and their reasons.
pub record Guards : Type 0 where
  pub peak : ℕ
  pub failures : ℕ
  pub rejected : List Text
  pub reasons : Reasons

unfoldable pub peak_of : Option Json → ℕ → Result ℕ
peak_of none peak = ok peak
peak_of (some bytes) peak = do n ← uint bytes; ok (max peak n)

unfoldable pub ok_reasons : Reasons × Result (Unit {0}) → Guards → Result Guards
ok_reasons (rs, err e) g = err e
ok_reasons (rs, ok u) g = ok (record g { reasons = rs })

unfoldable pub reject : Json → List Json → Guards → Result Guards
reject guard causes g = do
  stage ← string_field guard "stage"
  ok_reasons (add_reasons causes g.reasons) (record g { rejected = g.rejected ++ stage ∷ [] })

unfoldable pub note_causes : Bool → Json → List Json → Guards → Result Guards
note_causes true guard causes g = ok g
note_causes false guard causes g = reject guard causes g

unfoldable pub note_guard : Json → Guards → Result Guards
note_guard guard g = do
  peak ← peak_of (get guard (codes "accounted_allocated_bytes")) g.peak
  causes ← context (as_array (index guard "reasons")) "invalid capacity guard reasons"
  note_causes (is_true (index guard "admitted")) guard causes (record g {
    peak = peak;
    failures =
        g.failures
        + (if any (λ c. is_text c (codes "incomplete_capacity_sample")) causes then 1 else 0);
  })

unfoldable pub note_guards : List Json → Guards → Result Guards
note_guards [] g = ok g
note_guards (guard ∷ guards) g = do g' ← note_guard guard g; note_guards guards g'

-- The report, `completed` or `stopped`.
pub record Report : Type 0 where
  pub started : ℕ
  pub finished : ℕ
  pub samples : ℕ
  pub failed_samples : ℕ
  pub peak : ℕ
  pub max_gap : ℕ
  pub guard_samples : ℕ
  pub failed_guard_samples : ℕ
  pub rejected_guard_stages : List Text
  pub command_exit_code : Option ℤ
  pub stop_reasons : Reasons
  pub unconfirmed : Bool
  pub completed : Bool

-- `result == Some(0)`
unfoldable pub is_zero : Option ℤ → Bool
is_zero none = false
is_zero (some (pos n)) = n == 0
is_zero (some (negsuc n)) = false

-- What `supervise` meets: its arguments, the declared roots, the clock once the output directory is
-- there, the first sample, the start of the command, the rounds, its end, the files of the guards,
-- the clock at the end and the write of the report.
pub record Session : Type 0 where
  pub command : List Text
  pub interval_allowed : Bool
  pub inside : Result Bool
  pub prepared : Result ℕ
  pub first : Sampling
  pub spawned : Result (Unit {0})
  pub rounds : List Round
  pub terminated : Result ℤ
  pub guards : Result (List Json)
  pub finished : Result ℕ
  pub stored : Result (Unit {0})

unfoldable pub all_reasons : Result (Unit {0}) → Reasons → Reasons
all_reasons (ok u) rs = rs
all_reasons (err e) rs = insert rs (codes "supervisor_error") tt

unfoldable pub report : Session → ℕ → Supervision × Result (Unit {0}) → Result Report
report x started (run, execute) = do
  guards ← x.guards
  g ← note_guards guards (record {
    peak = run.stats.peak;
    failures = 0;
    rejected = [];
    reasons = all_reasons execute run.reasons;
  })
  finished ← x.finished
  x.stored
  ok (record {
    started = started;
    finished = finished;
    samples = run.stats.samples;
    failed_samples = run.stats.failures;
    peak = g.peak;
    max_gap = run.stats.max_gap;
    guard_samples = length guards;
    failed_guard_samples = g.failures;
    rejected_guard_stages = g.rejected;
    command_exit_code = run.result;
    stop_reasons = g.reasons;
    unconfirmed = run.unconfirmed;
    completed = is_zero run.result && is_empty g.reasons && not run.unconfirmed;
  })

unfoldable pub report_on :
    Session → ℕ → Option (Supervision × Result (Unit {0})) → Option (Result Report)
report_on x started none = none
report_on x started (some end) = some (report x started end)

unfoldable pub prepare : Session → Result ℕ
prepare x = do
  ensure (not (is_empty x.command)) "capacity-run requires a command after --"
  ensure x.interval_allowed "sample interval must be between 0.1 and 60 seconds"
  inside ← x.inside
  ensure inside "capacity report directory must be inside a declared local root"
  x.prepared

unfoldable pub supervise_from : Result ℕ → Session → Option (Result Report)
supervise_from (err e) x = some (err e)
supervise_from (ok started) x =
    report_on x started (start (record_sample x.first no_samples) x.spawned x.rounds x.terminated)

-- `supervise`: no report as long as the command still runs.
unfoldable pub supervise : Session → Option (Result Report)
supervise x = supervise_from (prepare x) x
