-- ===== src/Capacity/Guard.antt =====
-- `guard` and the tally `Stats` of crates/evm-state/src/capacity.rs, over any sampler. The record of
-- an event is what `atomic_json` is asked to write, and its result an argument; the clock that
-- stamps a failed sample does not fail here.
use substreams_evm_state.Prelude.{
  ℕ, ◌+◌, ◌-◌, ◌%◌, Bool, Option, none, some, List, [], ◌∷◌, Text, max, Result, Error, ok, err,
  ensure, ◌>>=◌, ◌>>◌,
}
use substreams_evm_state.Prelude.Int.{u64_mod}
use substreams_evm_state.Json.{Json, index, is_true}
use substreams_evm_state.Json.Read.{uint}
use substreams_evm_state.Capacity.Paths.{Path'}

-- `CapacitySampler`: whether a path lies in the declared roots, and a sample.
pub record Sampler : Type 0 where
  pub contains : Path' → Result Bool
  pub sample : Result Json

-- What is written beside a sample: the measured value or the failure, with the stage.
pub data Event : Type 0 where
  measured : Json → Text → Event
  incomplete : Error → Text → Event

unfoldable pub check_paths : Sampler → List Path' → Result (Unit {0})
check_paths meter [] = ok tt
check_paths meter (path ∷ paths) = do
  inside ← meter.contains path
  ensure inside "operation uses a directory outside the declared capacity roots"
  check_paths meter paths

unfoldable pub check_destination : Sampler → Option Path' → Result (Unit {0})
check_destination meter none = ok tt
check_destination meter (some destination) = do
  inside ← meter.contains destination
  ensure inside "capacity events directory is outside declared roots"

-- The event is written where there is a destination.
unfoldable pub write :
    (Path' → Event → Result (Unit {0})) → Option Path' → Event → Result (Unit {0})
write store none event = ok tt
write store (some destination) event = store destination event

unfoldable pub take_sample :
    (Path' → Event → Result (Unit {0})) → Option Path' → Text → Result Json → Result Json
take_sample store destination stage (ok value) = do
  write store destination (measured value stage)
  ok value
take_sample store destination stage (err e) = do write store destination (incomplete e stage); err e

unfoldable pub guard :
    (Path' → Event → Result (Unit {0})) → Sampler → List Path' → Text → Option Path' → Result Json
guard store meter required stage destination = do
  check_paths meter required
  check_destination meter destination
  value ← take_sample store destination stage meter.sample
  ensure (is_true (index value "admitted")) "capacity guard rejected operation"
  ok value

-- `Stats`, and the wrap of its counters.
pub record Stats : Type 0 where
  pub samples : ℕ
  pub failures : ℕ
  pub peak : ℕ
  pub max_gap : ℕ
  pub last : Option ℕ

abbrev pub no_samples : Stats
no_samples = record { samples = 0; failures = 0; peak = 0; max_gap = 0; last = none }

unfoldable pub gap_after : Option ℕ → ℕ → ℕ → ℕ
gap_after none now gap = gap
gap_after (some last) now gap = max gap (now - last)

unfoldable pub note_time : Result ℕ → Stats → Stats × Result (Unit {0})
note_time (err e) s = (s, err e)
note_time (ok now) s =
    (record s { max_gap = gap_after s.last now s.max_gap; last = some now }, ok tt)

unfoldable pub note_bytes : Json → Result ℕ → Stats → Stats × Result (Unit {0})
note_bytes value (err e) s = (s, err e)
note_bytes value (ok bytes) s =
    note_time (uint (index value "sample_finished_ns")) (record s { peak = max s.peak bytes })

-- The tally of `record`, for the answer of the sampler: an answer whose fields cannot be read is an
-- error after the counter moved.
unfoldable pub tally : Result Json → Stats → Stats × Result (Unit {0})
tally (err e) s = (record s { failures = (s.failures + 1) % u64_mod }, ok tt)
tally (ok value) s =
    note_bytes value (uint (index value "accounted_allocated_bytes"))
      (record s { samples = (s.samples + 1) % u64_mod })

-- The tally of answer after answer, until one is an error.
unfoldable pub tally_on :
    Stats × Result (Unit {0}) → (Stats → Stats × Result (Unit {0})) → Stats × Result (Unit {0})
tally_on (s, err e) next = (s, err e)
tally_on (s, ok u) next = next s

unfoldable pub tally_all : List (Result Json) → Stats → Stats × Result (Unit {0})
tally_all [] s = (s, ok tt)
tally_all (answer ∷ answers) s = tally_on (tally answer s) (λ s'. tally_all answers s')
