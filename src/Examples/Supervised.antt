-- ===== src/Examples/Supervised.antt =====
-- The theorem about the report of `supervise`, applied to a command that exits after two rounds.
use substreams_evm_state.Prelude.{
  ℕ, ◌≡◌, refl, true, false, none, some, [], ◌∷◌, codes, any, bytes_eq, All, ok, ok-injective,
  subst,
}
use substreams_evm_state.Prelude.Int.{pos}
use substreams_evm_state.Json.{Json, index, get, find, as_array, is_true, items, is_text, as_u64}
use substreams_evm_state.Json
use substreams_evm_state.Json.Read.{uint}
use substreams_evm_state.Capacity.Guard.{gap_after, note_time, note_bytes, tally}
use substreams_evm_state.Capacity.Supervise.{
  Sampling, measured, record_sample, record_at, with_value, value_of, note_value, interrupt,
  after_reasons, after_sample, round_at, round, continue, rounds, is_error, finish, finish_all,
  run_command, start,
}
use substreams_evm_state.Capacity.Supervise.Report.{
  peak_of, note_causes, note_guard, note_guards, Report, is_zero, Session, all_reasons, report,
  report_on, prepare, supervise_from, supervise,
}
use substreams_evm_state.Capacity.Supervise.Honest.{IsHonest}
use substreams_evm_state.Capacity.Supervise.Completed.{
  IsCompleted, IsHonestSession, supervise-IsCompleted,
}
use substreams_evm_state.Examples.Stores.{obj, fields}

-- A sample that was admitted.
abbrev value : ℕ → ℕ → Json
value bytes now = obj (
    (codes "accounted_allocated_bytes", Json.number bytes)
    ∷ (codes "admitted", Json.bool true)
    ∷ (codes "reasons", Json.array Json.nil)
    ∷ (codes "sample_finished_ns", Json.number now)
    ∷ [])

abbrev sampling : ℕ → ℕ → Sampling
sampling bytes now = record {
  started = ok now;
  answer = measured (value bytes now);
  finished = ok now;
  logged = ok tt;
}

-- The command runs through one round and has exited in the next; a guard of it measured more.
abbrev session : Session
session = record {
  command = codes "clickhouse" ∷ [];
  interval_allowed = true;
  inside = ok true;
  prepared = ok 1;
  first = sampling 5 2;
  spawned = ok tt;
  rounds =
      record { exited = ok none; sampling = sampling 8 3; stopped = false }
      ∷ record { exited = ok (some (pos 0)); sampling = sampling 6 7; stopped = false }
      ∷ [];
  terminated = ok (pos 9);
  guards = ok (value 9 4 ∷ []);
  finished = ok 8;
  stored = ok tt;
}

abbrev session_report : Report
session_report = record {
  started = 1;
  finished = 8;
  samples = 3;
  failed_samples = 0;
  peak = 9;
  max_gap = 4;
  guard_samples = 1;
  failed_guard_samples = 0;
  rejected_guard_stages = [];
  command_exit_code = some (pos 0);
  stop_reasons = [];
  unconfirmed = false;
  completed = true;
}

session_reported : supervise session ≡ some (ok session_report)
unfolding supervise supervise_from report_on report prepare start run_command finish_all finish
    rounds continue round round_at after_sample after_reasons interrupt note_value record_sample
    record_at with_value value_of tally note_bytes note_time gap_after uint as_u64 index get find
    bytes_eq is_true fields items as_array is_error note_guards note_guard note_causes peak_of
    all_reasons is_zero any is_text
session_reported = refl

value-IsHonest : (bytes now : ℕ) → IsHonest (value bytes now)
unfolding fields index get find bytes_eq is_true
value-IsHonest bytes now h = cc h

session-IsHonest : IsHonestSession session
session-IsHonest = record {
  first = value-IsHonest 5 2;
  rounds = (value-IsHonest 8 3, (value-IsHonest 6 7, tt));
  guards = λ gs e. subst (All IsHonest) (ok-injective e) (value-IsHonest 9 4, tt);
}

supervise-IsCompleted_example : IsCompleted session
supervise-IsCompleted_example =
    supervise-IsCompleted session session_report session-IsHonest session_reported refl
