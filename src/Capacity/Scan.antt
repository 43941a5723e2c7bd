-- ===== src/Capacity/Scan.antt =====
-- The measurements of crates/evm-state/src/capacity.rs that a child process or a directory walk
-- makes: the decoding of their output, and the two loops that repeat them. The n-th call of a
-- measurement is its value at n, and the pauses between the calls are left out.
use mathlib.Core.List.{reverse}
use substreams_evm_state.Prelude.{
  ℕ, zero, suc, ◌+◌, Bool, true, false, not, ◌&&◌, Option, none, some, [], ◌∷◌, Bytes, Text, codes,
  is_empty, all, bytes_eq, ltb, ◌==◌, if◌then◌else◌, Result, ensure, context, ◌>>=◌, ◌>>◌,
}
use substreams_evm_state.Params.Words.{strip_prefix}
use substreams_evm_state.Json.Digits.{is_digit, parse_u64}

pub data Operation : Type 0 where
  container_inspection data_directory_scan host_bind_verification : Operation

-- `DockerCapacityError`, and the other errors as far as the loops tell them apart. `unreachable` is
-- the panic at the end of the loops.
pub record DockerCapacityError : Type 0 where
  pub operation : Operation
  pub timed_out : Bool
  pub directory_changed : Bool

pub data Failure : Type 0 where
  docker : DockerCapacityError → Failure
  not_found : Failure
  other : Failure
  unreachable : Failure

pub data Attempt (T : Type 0) : Type 0 where
  done : T → Attempt T
  failed : Failure → Attempt T

-- The output of a child process, where it did not time out.
pub record Output : Type 0 where
  pub success : Bool
  pub code : Option ℕ
  pub stderr : Text
  pub stdout : Bytes

-- `str::contains`
unfoldable pub contains_text : Text → Text → Bool
contains_text needle [] = is_empty needle
contains_text needle (c ∷ cs) = elim (strip_prefix needle (c ∷ cs)) [
  | some rest ↦ true
  | none ↦ contains_text needle cs
]

abbrev pub is_scan : Operation → Bool
is_scan data_directory_scan = true
is_scan _ = false

abbrev pub is_bounded : Operation → Bool
is_bounded container_inspection = false
is_bounded _ = true

abbrev pub is_code : Option ℕ → ℕ → Bool
is_code none n = false
is_code (some code) n = code == n

unfoldable pub decode_docker_output : Operation → Option Output → Attempt Bytes
decode_docker_output operation none =
    failed (docker (record { operation = operation; timed_out = true; directory_changed = false }))
decode_docker_output operation (some output) =
    if not output.success
    then failed (
        docker (record {
          operation = operation;
          timed_out = is_bounded operation && is_code output.code 124;
          directory_changed =
              is_scan operation
              && (is_code output.code 1
                  && (contains_text (codes "No such file or directory") output.stderr
                      && not (contains_text (codes "Permission denied") output.stderr)));
        }))
    else done output.stdout

-- The two tests for a directory that changed under the scan.
unfoldable pub is_directory_changed : Failure → Bool
is_directory_changed (docker e) = e.directory_changed
is_directory_changed _ = false

unfoldable pub is_not_found : Failure → Bool
is_not_found not_found = true
is_not_found _ = false

-- The loop, for the rounds that are left: the last answer, and the number of calls.
unfoldable pub retry : {T : Type 0} → (Failure → Bool) → ℕ → (ℕ → Attempt T) → ℕ → Attempt T × ℕ
retry transient zero scan attempt = (failed unreachable, attempt)
retry transient (suc rounds) scan attempt = elim (scan attempt) [
  | done output ↦ (done output, attempt + 1)
  | failed e ↦ elim (ltb attempt 4 && transient e) [
    | true ↦ retry transient rounds scan (attempt + 1)
    | false ↦ (failed e, attempt + 1)
  ]
]

unfoldable pub retry_scan : (ℕ → Attempt Bytes) → Attempt Bytes × ℕ
retry_scan scan = retry is_directory_changed 5 scan 0

unfoldable pub retry_local : {T : Type 0} → (ℕ → Attempt T) → Attempt T × ℕ
retry_local sample = retry is_not_found 5 sample 0

-- `du_total`: what comes after the last zero but for trailing zeros is a number, a tab and `total`.
unfoldable pub skip_zeros : Bytes → Bytes
skip_zeros [] = []
skip_zeros (b ∷ bs) = let rest = skip_zeros bs in if b == 0 then rest else b ∷ bs

unfoldable pub until_zero : Bytes → Bytes
until_zero [] = []
until_zero (b ∷ bs) = let rest = until_zero bs in if b == 0 then [] else b ∷ rest

unfoldable pub last_piece : Bytes → Bytes
last_piece output = reverse (until_zero (skip_zeros (reverse output)))

-- `split_once('\t')`
unfoldable pub push_left : ℕ → Option (Text × Text) → Option (Text × Text)
push_left c none = none
push_left c (some (l, r)) = some (c ∷ l, r)

unfoldable pub split_tab : Text → Option (Text × Text)
split_tab [] = none
split_tab (c ∷ cs) = let rest = split_tab cs in if c == 9 then some ([], cs) else push_left c rest

-- The reading of UTF-8 is an argument.
unfoldable pub du_total : (Bytes → Option Text) → Bytes → Result ℕ
du_total utf8 output = do
  text ← context (utf8 (last_piece output)) "invalid UTF-8"
  parts ← context (split_tab text) "invalid ClickHouse data-directory measurement"
  ensure (bytes_eq parts.1 (codes "total") && (not (is_empty parts.0) && all is_digit parts.0))
      "invalid ClickHouse data-directory measurement"
  context (parse_u64 parts.0) "invalid ClickHouse data-directory measurement"
