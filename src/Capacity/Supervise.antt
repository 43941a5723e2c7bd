-- ===== src/Capacity/Supervise.antt =====
-- `failure`, `Stats::record` and `supervise` of crates/evm-state/src/capacity.rs: a command that runs
-- while its storage is sampled. What happens is an argument: the answers of the sampler with the
-- clock and the log, whether the command has exited and a signal has come, how it was ended, and the
-- files of its guards. The output directory and the hash of the configuration are left out.
pub mod Report
pub mod Honest
pub mod Measured
pub mod Uneventful
pub mod Completed
pub mod Ending
pub mod Refused
use substreams_evm_state.Prelude.{
  ℕ, ◌+◌, Bool, true, false, not, ◌&&◌, ◌||◌, Option, none, some, List, [], ◌∷◌, ◌++◌, String, Text,
  codes, max, is_empty, length, any, if◌then◌else◌, Result, ok, err, message, ensure, context,
  ◌>>=◌, ◌>>◌,
}
use substreams_evm_state.Prelude.Order.{text_ord}
use substreams_evm_state.Prelude.Int.{ℤ, pos, negsuc}
use substreams_evm_state.Btree.{Btree, insert}
use substreams_evm_state.Json
use substreams_evm_state.Json.{
  Json, nil, item, end, field, get, index, as_str, as_array, is_true, is_text,
}
use substreams_evm_state.Json.Read.{string_field, uint}
use substreams_evm_state.Capacity.Guard.{Stats, no_samples, tally}

-- What an error of the sampler carries: the stage, the kind and the code of an error of input and
-- output, and the failed inspection of Docker.
pub record DockerFault : Type 0 where
  pub operation : Text
  pub directory_changed : Bool
  pub timed_out : Bool

pub record Fault : Type 0 where
  pub stage : Option Text
  pub io_error : Option (Text × Json)
  pub docker : Option DockerFault

pub data Answer : Type 0 where
  measured : Json → Answer
  faulted : Fault → Answer

-- One call of `record`: the clock before it, the answer, the clock after a failed one, and the log.
pub record Sampling : Type 0 where
  pub started : Result ℕ
  pub answer : Answer
  pub finished : Result ℕ
  pub logged : Result (Unit {0})

unfoldable pub stage_fields : Option Text → Json.Fields → Json.Fields
stage_fields none fs = fs
stage_fields (some stage) fs = field (codes "measurement_stage") (Json.string stage) fs

unfoldable pub io_fields : Option (Text × Json) → Json.Fields → Json.Fields
io_fields none fs = fs
io_fields (some (kind, code)) fs =
    field (codes "io_error_kind") (Json.string kind) (field (codes "io_error_code") code fs)

unfoldable pub docker_fields : Option DockerFault → Json.Fields
docker_fields none = end
docker_fields (some d) = field (codes "inspection_operation") (Json.string d.operation) (
    field (codes "directory_changed") (Json.bool d.directory_changed)
      (field (codes "timed_out") (Json.bool d.timed_out) end))

unfoldable pub error_type : Option DockerFault → Text
error_type none = codes "CapacityError"
error_type (some d) = codes "DockerCapacityError"

-- `failure`, its fields in the order in which they are set.
unfoldable pub failure : Fault → ℕ → ℕ → Json
failure f started finished = Json.object (
    field (codes "format_version") (Json.number 1) (
      field (codes "sample_started_ns") (Json.number started) (
        field (codes "sample_finished_ns") (Json.number finished) (
          field (codes "admitted") (Json.bool false) (
            field (codes "reasons")
              (Json.array (item (Json.string (codes "incomplete_capacity_sample")) nil))
              (field (codes "error_type") (Json.string (error_type f.docker))
                (stage_fields f.stage (io_fields f.io_error (docker_fields f.docker)))))))))

unfoldable pub value_of : Answer → ℕ → Result ℕ → Result Json
value_of (measured value) started finished = ok value
value_of (faulted f) started finished = do now ← finished; ok (failure f started now)

abbrev pub tally_input : Answer → Result Json
tally_input (measured value) = ok value
tally_input (faulted f) = err (message "incomplete sample")

unfoldable pub with_value : Stats × Result (Unit {0}) → Sampling → ℕ → Stats × Result Json
with_value (s, err e) x started = (s, err e)
with_value (s, ok u) x started =
    (s, (do value ← value_of x.answer started x.finished; x.logged; ok value))

unfoldable pub record_at : Result ℕ → Sampling → Stats → Stats × Result Json
record_at (err e) x s = (s, err e)
record_at (ok started) x s = with_value (tally (tally_input x.answer) s) x started

-- `Stats::record`
unfoldable pub record_sample : Sampling → Stats → Stats × Result Json
record_sample x s = record_at x.started x s

abbrev pub Reasons : Type 0
Reasons = Btree Text (Unit {0})

-- The reasons of a value, as far as they can be read.
unfoldable pub add_reason :
    Option Text → Reasons → (Reasons → Reasons × Result (Unit {0})) → Reasons × Result (Unit {0})
add_reason none rs next = (rs, err (message "invalid sample reason"))
add_reason (some t) rs next = next (insert rs t tt)

unfoldable pub add_reasons : List Json → Reasons → Reasons × Result (Unit {0})
add_reasons [] rs = (rs, ok tt)
add_reasons (j ∷ js) rs = add_reason (as_str j) rs (λ rs'. add_reasons js rs')

unfoldable pub note_reasons : Option (List Json) → Reasons → Reasons × Result (Unit {0})
note_reasons none rs = (rs, err (message "invalid sample reasons"))
note_reasons (some js) rs = add_reasons js rs

unfoldable pub note_value : Json → Reasons → Reasons × Result (Unit {0})
note_value value rs =
    if is_true (index value "admitted")
    then (rs, ok tt)
    else note_reasons (as_array (index value "reasons")) rs

-- The variables of `supervise`.
pub record Supervision : Type 0 where
  pub stats : Stats
  pub reasons : Reasons
  pub result : Option ℤ
  pub unconfirmed : Bool

-- What one round of the loop meets.
pub record Round : Type 0 where
  pub exited : Result (Option ℤ)
  pub sampling : Sampling
  pub stopped : Bool

abbrev pub is_some : {A : Type 0} → Option A → Bool
is_some none = false
is_some (some a) = true

unfoldable pub interrupt : Bool → Reasons → Reasons
interrupt stopped rs = if stopped then insert rs (codes "supervisor_interrupted") tt else rs

-- Whether a round ends the loop: with its result, or not.
pub data Outcome : Type 0 where
  ended : Result (Unit {0}) → Outcome
  running : Outcome

unfoldable pub after_reasons :
    Reasons × Result (Unit {0}) → Bool → Supervision → Supervision × Outcome
after_reasons (rs, err e) stopped run = (record run { reasons = rs }, ended (err e))
after_reasons (rs, ok u) stopped run = (
  record run { reasons = interrupt stopped rs },
  if is_some run.result || not (is_empty (interrupt stopped rs)) then ended (ok tt) else running,
)

unfoldable pub after_sample : Stats × Result Json → Bool → Supervision → Supervision × Outcome
after_sample (s, err e) stopped run = (record run { stats = s }, ended (err e))
after_sample (s, ok value) stopped run =
    after_reasons (note_value value run.reasons) stopped (record run { stats = s })

unfoldable pub round_at : Result (Option ℤ) → Round → Supervision → Supervision × Outcome
round_at (err e) r run = (run, ended (err e))
round_at (ok code) r run =
    after_sample (record_sample r.sampling run.stats) r.stopped (record run { result = code })

unfoldable pub round : Round → Supervision → Supervision × Outcome
round r run = round_at r.exited r run

-- The loop over the rounds; with no round left the command still runs.
unfoldable pub continue :
    Supervision × Outcome
    → (Supervision → Option (Supervision × Result (Unit {0})))
    → Option (Supervision × Result (Unit {0}))
continue (run, ended result) rest = some (run, result)
continue (run, running) rest = rest run

unfoldable pub rounds : List Round → Supervision → Option (Supervision × Result (Unit {0}))
rounds [] run = none
rounds (r ∷ rs) run = continue (round r run) (λ run'. rounds rs run')

-- The end of the command: it is terminated, or complete.
unfoldable pub is_error : Result (Unit {0}) → Bool
is_error (ok u) = false
is_error (err e) = true

unfoldable pub terminate : Result ℤ → Supervision → Supervision
terminate (ok status) run = record run { result = some status }
terminate (err e) run = record run { unconfirmed = true }

unfoldable pub finish : Result ℤ → Supervision × Result (Unit {0}) → Supervision × Result (Unit {0})
finish terminated (run, result) = (
  if not (is_some run.result) || (not (is_empty run.reasons) || is_error result)
      then terminate terminated run
      else run,
  result,
)

unfoldable pub finish_all :
    Result ℤ → Option (Supervision × Result (Unit {0})) → Option (Supervision × Result (Unit {0}))
finish_all terminated none = none
finish_all terminated (some r) = some (finish terminated r)

-- The first sample, and the command if it admits.
unfoldable pub run_command :
    Bool
    → Reasons × Result (Unit {0})
    → Stats
    → Result (Unit {0})
    → List Round
    → Result ℤ
    → Option (Supervision × Result (Unit {0}))
run_command false (noted, r) s spawned rs terminated =
    some (record { stats = s; reasons = noted; result = none; unconfirmed = false }, r)
run_command true noted s (err e) rs terminated =
    some (record { stats = s; reasons = []; result = none; unconfirmed = false }, err e)
run_command true noted s (ok u) rs terminated =
    finish_all terminated
      (rounds rs (record { stats = s; reasons = []; result = none; unconfirmed = false }))

unfoldable pub start :
    Stats × Result Json
    → Result (Unit {0})
    → List Round
    → Result ℤ
    → Option (Supervision × Result (Unit {0}))
start (s, err e) spawned rs terminated =
    some (record { stats = s; reasons = []; result = none; unconfirmed = false }, err e)
start (s, ok value) spawned rs terminated =
    run_command (is_true (index value "admitted")) (note_value value []) s spawned rs terminated
