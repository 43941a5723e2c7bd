-- ===== src/History.antt =====
-- crates/evm-state/src/history.rs: which partitions of the native history are dropped. The answers
-- of the database, the manifest of the checkpoint and the durable progress are arguments, and an
-- error where reading them fails.
pub mod Protects
use substreams_evm_state.Prelude.{
  ℕ, ◌+◌, ◌-◌, ◌^◌, ◌≡◌, Bool, true, false, not, ◌&&◌, Option, none, some, List, [], ◌∷◌, ◌++◌,
  String, Text, codes, length, any, all, filter, contains, ltb, leb, ◌==◌, if◌then◌else◌, Result,
  ok, err, ensure, context, ◌>>=◌, ◌>>◌,
}
use substreams_evm_state.Prelude.Order.{text_ord}
use substreams_evm_state.Prelude.Int.{u64_mod}
use substreams_evm_state.Btree.{Btree, get, insert}
use substreams_evm_state.Extern.{Hex}
use substreams_evm_state.Json
use substreams_evm_state.Json.{Json, index, is_text, json_eq, as_array, same_field}
use substreams_evm_state.Json.Read.{string_field, uint}
use substreams_evm_state.Params.Words.{sort}
use substreams_evm_state.Proof.{canonical_accounts}
use substreams_evm_state.Retention.{has}

-- `saturating_add` on `u64`; `saturating_sub` is the subtraction of the natural numbers.
abbrev pub saturating_add : ℕ → ℕ → ℕ
saturating_add a b = if ltb (a + b) u64_mod then a + b else u64_mod - 1

abbrev pub least : ℕ → ℕ → ℕ
least a b = if leb a b then a else b

-- `PARTITIONS`
abbrev pub state_blocks : Text
state_blocks = codes "state_blocks"

abbrev pub markers : Text
markers = codes "_blocks_"

-- The loop over the tables' schemas.
unfoldable pub read_schemas : List Json → Btree Text Json → Result (Btree Text Json)
read_schemas [] schemas = ok schemas
read_schemas (row ∷ rows) schemas = do
  name ← string_field row "name"
  ensure (not (has schemas name)) "duplicate native history table"
  read_schemas rows (insert schemas name (index row "partition_key"))

-- `Value::Object(schemas) == json!(PARTITIONS)`: both tables, `_blocks_` first in the order of keys.
unfoldable pub is_qualified : Btree Text Json → Bool
is_qualified ((a, p) ∷ (b, q) ∷ []) =
    has ((a, p) ∷ []) markers
    && (has ((b, q) ∷ []) state_blocks
        && (is_text p (codes "toYYYYMM(timestamp)")
            && is_text q (codes "toDate(_block_timestamp_)")))
is_qualified _ = false

-- What the database answers: the schemas, and the partitions of a table whose last block precedes a
-- number.
pub record Answers : Type 0 where
  pub schemas : Result (List Json)
  pub partitions : Text → ℕ → Result (List Json)

pub record Partitions : Type 0 where
  pub of_state_blocks : List Json
  pub of_markers : List Json

unfoldable pub partitions_before : Answers → ℕ → Result Partitions
partitions_before db before = do
  rows ← db.schemas
  schemas ← read_schemas rows []
  ensure (is_qualified schemas)
      "native history schema does not match the qualified partition layout"
  of_state_blocks ← db.partitions state_blocks before
  of_markers ← db.partitions markers before
  ok (record { of_state_blocks = of_state_blocks; of_markers = of_markers })

-- The statements of `drop_partitions`: the table and the partition's name.
unfoldable pub drops : Text → List Json → Result (List (Text × Text))
drops table [] = ok []
drops table (partition ∷ partitions) = do
  id ← string_field partition "id"
  rest ← drops table partitions
  ok ((table, id) ∷ rest)

unfoldable pub drop_partitions : Partitions → Result (List (Text × Text))
drop_partitions p = do
  first ← drops state_blocks p.of_state_blocks
  second ← drops markers p.of_markers
  ok (first ++ second)

-- The loop's variables.
pub record Protection : Type 0 where
  pub floor : ℕ
  pub protected : List Text

pub record Plan : Type 0 where
  pub protected_checkpoints : List Text
  pub remove_before : ℕ
  pub keep_blocks : ℕ
  pub durable_block : Json
  pub partitions : Partitions

-- The fields in which a checkpoint's source and this one agree.
abbrev pub same_source : Json → Json → Bool
same_source a b =
    all (λ key. same_field (Json.get a key) (Json.get b key))
      (codes "database_uuid"
        ∷ codes "package_sha256"
        ∷ codes "schema_hash"
        ∷ codes "module_hash"
        ∷ codes "accounts"
        ∷ [])

unfoldable pub covers : Json → List Json → Bool
covers source (c ∷ []) = same_source c source
covers source _ = false

module _ (hex : Hex) (parse_json : Text → Option Json) where
  -- One retained checkpoint of the loop.
  unfoldable pub protect : List Text → Json → Protection → Result Protection
  protect selected row p = do
    manifest ← string_field row "manifest"
    checkpoint ← context (parse_json manifest) "invalid JSON"
    ensure
        (is_text (index checkpoint "status") (codes "ready")
          && json_eq (index checkpoint "snapshot_id") (index row "snapshot_id"))
        "invalid retained checkpoint prevents native history cleanup"
    accounts ← canonical_accounts hex (index checkpoint "accounts")
    if any (λ a. contains selected a) accounts
        then (do
          number ← uint (index (index checkpoint "header") "number")
          id ← string_field checkpoint "snapshot_id"
          ok (record { floor = least p.floor number; protected = p.protected ++ id ∷ [] }))
        else ok p

  unfoldable pub protect_all : List Text → List Json → Protection → Result Protection
  protect_all selected [] p = ok p
  protect_all selected (row ∷ rows) p = do p' ← protect selected row p; protect_all selected rows p'

  -- `plan`, for the run and source of the writer, the manifest of the checkpoint, the durable
  -- progress, the retained checkpoints and the answers of the database.
  unfoldable pub plan :
      Answers → Json → Json → Result Json → Result Json → Result (List Json) → ℕ → Result Plan
  plan db run source manifest durable retained keep_blocks = do
    ensure (ltb 0 keep_blocks) "keep_blocks must be at least one"
    ready ← manifest
    sources ← context (as_array (index ready "sources")) "invalid checkpoint sources"
    ensure
        (covers source (
          filter (λ s. same_field (Json.get s (codes "run_id")) (Json.get run (codes "run_id")))
            sources))
        "checkpoint does not cover this exact native source"
    selected ← canonical_accounts hex (index (index run "identity") "accounts")
    covered ← canonical_accounts hex (index ready "accounts")
    ensure (all (λ a. contains covered a) selected) "checkpoint does not cover all source accounts"
    progress ← durable
    tip ← uint (index (index (index progress "position") "block") "number")
    floor ← uint (index (index ready "header") "number")
    ensure (leb floor tip) "native progress has not reached the checkpoint"
    rows ← retained
    p ← protect_all selected rows (record { floor = floor; protected = [] })
    let before = least (saturating_add p.floor 1) (tip - (keep_blocks - 1))
    partitions ← partitions_before db before
    ok (record {
      protected_checkpoints = sort p.protected;
      remove_before = before;
      keep_blocks = keep_blocks;
      durable_block = index (index progress "position") "block";
      partitions = partitions;
    })
