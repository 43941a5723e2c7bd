-- ===== src/Cursor/Progress.antt =====
-- The durable progress of crates/evm-state/src/cursor.rs: `binding`, `validate`, `load_progress`,
-- `save_progress` and `observe`. The answers of the database, SHA-256, the canonical text of a JSON
-- value and the result of `atomic_json` are arguments. `texts` reads the accounts, so that its message
-- stands for that of `validate`.
use substreams_evm_state.Prelude.{
  ℕ, Bool, true, false, ◌&&◌, Option, none, some, List, [], ◌∷◌, ◌++◌, Bytes, Text, codes, take,
  bytes_eq, leb, ◌==◌, if◌then◌else◌, Result, ok, err, ensure, context, ◌>>=◌, ◌>>◌,
}
use substreams_evm_state.Extern.{Hex}
use substreams_evm_state.Json.{
  Json, Fields, end, field, get, index, as_array, is_text, json_eq, same_field,
}
use substreams_evm_state.Json.Read.{string_field, uint}
use substreams_evm_state.Proof.{texts}
use substreams_evm_state.Params.Words.{join, trim}
use substreams_evm_state.Cursor.{BlockRef, Position, Seal, decode}

-- `serde_json::to_value` of a position
abbrev pub ref_value : BlockRef → Json
ref_value b =
    Json.object (
      field (codes "hash") (Json.string b.hash) (field (codes "number") (Json.number b.number) end))

abbrev pub position_value : Position → Json
position_value p = Json.object (
    field (codes "block") (ref_value p.block) (
      field (codes "head") (ref_value p.head)
        (field (codes "lib") (ref_value p.lib) (field (codes "step") (Json.number p.step) end))))

-- What `json!` makes of the fields of a binding, its keys in order.
abbrev pub binding_value : Text → Text → Text → Json
binding_value run_id uuid digest = Json.object (
    field (codes "database_uuid") (Json.string uuid) (
      field (codes "format_version") (Json.number 1) (
        field (codes "identity_sha256") (Json.string digest)
          (field (codes "run_id") (Json.string run_id) end))))

-- `record["cursor"]` and `record["position"]`, set on a binding
abbrev pub progress_value : Text → Text → Text → Text → Position → Json
progress_value run_id uuid digest token position = Json.object (
    field (codes "cursor") (Json.string token) (
      field (codes "database_uuid") (Json.string uuid) (
        field (codes "format_version") (Json.number 1) (
          field (codes "identity_sha256") (Json.string digest) (
            field (codes "position") (position_value position)
              (field (codes "run_id") (Json.string run_id) end))))))

-- The record is in the file `durable_progress.json`, if it is there.
pub record Stored : Type 0 where
  pub present : Result Bool
  pub contents : Result Json

-- The packages and the database.
pub record World : Type 0 where
  pub seal : Seal
  pub hex : Hex
  pub sha256 : Bytes → Bytes
  pub canonical_json : Json → Result Text
  pub state_blocks : ℕ → Result (List Json)
  pub markers : ℕ → Result (List Json)

-- `trim_start_matches("0x")`
unfoldable pub trim_0x : Text → Text
trim_0x [] = []
trim_0x (a ∷ []) = a ∷ []
trim_0x (a ∷ b ∷ cs) = let rest = trim_0x cs in if a == 48 && b == 120 then rest else a ∷ b ∷ cs

-- The digest that binds a progress to its run, with the two identities.
pub record Binding : Type 0 where
  pub run_id : Text
  pub uuid : Text
  pub digest : Text

unfoldable pub has_marker : Text → List Json → Result Bool
has_marker hash (m ∷ []) = do
  t ← string_field m "hash"
  ok (bytes_eq (codes "0x" ++ trim_0x t) hash)
has_marker hash _ = ok false

unfoldable pub has_row : Position → Text → List Json → List Json → Result Bool
has_row p accounts (row ∷ []) marks =
    if is_text (index row "hash") p.block.hash && is_text (index row "accounts") accounts
    then (do
      schema ← uint (index row "schema_version")
      if schema == 1
          then (do
            producer ← uint (index row "producer_version")
            if leb 3 producer && leb producer 5 then has_marker p.block.hash marks else ok false)
          else ok false)
    else ok false
has_row p accounts _ marks = ok false

module _ (w : World) (run : Json) where
  unfoldable pub binding : Result Binding
  binding = do
    identity ← context (get run (codes "identity")) "missing native run identity"
    run_id ← string_field run "run_id"
    uuid ← string_field run "database_uuid"
    text ← w.canonical_json identity
    ok (record { run_id = run_id; uuid = uuid; digest = w.hex.encode (w.sha256 text) })

  unfoldable pub validate : Text → Result Position
  validate token = do
    position ← decode w.seal token
    start ← uint (index (index run "identity") "start_block")
    ensure (leb start position.block.number) "native cursor precedes its run's start"
    rows ← w.state_blocks position.block.number
    marks ← w.markers position.block.number
    listed ←
        context (as_array (index (index run "identity") "accounts")) "missing native account filter"
    accounts ← texts listed
    matched ← has_row position (join 44 accounts) rows marks
    ensure matched "native cursor does not match its complete block data and marker"
    ok position

  -- `expected.as_object().unwrap().iter().all(..)`
  unfoldable pub agrees : Fields → Json → Bool
  agrees end stored = true
  agrees (field key value rest) stored =
      same_field (get stored key) (some value) && agrees rest stored

  unfoldable pub is_bound : Json → Json → Bool
  is_bound (Json.object fields) stored = agrees fields stored
  is_bound _ stored = false

  unfoldable pub load_progress : Stored → Result Json
  load_progress file = do
    stored ← file.contents
    b ← binding
    ensure (is_bound (binding_value b.run_id b.uuid b.digest) stored)
        "durable progress belongs to another native run"
    token ← string_field stored "cursor"
    position ← validate token
    ensure (json_eq (index stored "position") (position_value position))
        "durable progress position is corrupt"
    ok stored

  -- The end of `save_progress`: the new record replaces the file.
  unfoldable pub replace : Result (Unit {0}) → Text → Position → Result (Json × Stored)
  replace written token position = do
    b ← binding
    written
    let stored = progress_value b.run_id b.uuid b.digest token position
    ok (stored, record { present = ok true; contents = ok stored })

  -- `save_progress`, which returns the file beside the record. Where it fails, the file is as before
  -- or, of a write that failed late, may hold the new record.
  unfoldable pub save_progress : Result (Unit {0}) → Stored → Text → Result (Json × Stored)
  save_progress written file token = do
    position ← validate token
    present ← file.present
    if present
        then (do
          previous ← load_progress file
          n ← uint (index (index (index previous "position") "block") "number")
          ensure (leb n position.block.number) "native cursor regressed behind durable progress"
          if is_text (index previous "cursor") token
              then ok (previous, file)
              else replace written token position)
        else replace written token position

  -- `observe`, of the bytes of `cursor.txt` if it is there.
  unfoldable pub observe_token :
      Result (Unit {0}) → Stored → Option Text → Result (Option Json × Stored)
  observe_token written file none = ok (none, file)
  observe_token written file (some text) = elim (decode w.seal (trim text)) [
    | err e ↦ ok (none, file)
    | ok position ↦ do saved ← save_progress written file (trim text); ok (some saved.0, saved.1)
  ]

  unfoldable pub observe :
      Result (Unit {0}) → Stored → Option (Result Bytes) → Result (Option Json × Stored)
  observe written file none = ok (none, file)
  observe written file (some contents) = do
    bytes ← contents
    observe_token written file (w.seal.utf8 (take 2049 bytes))
