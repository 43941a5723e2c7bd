-- ===== src/Retention.antt =====
-- crates/evm-state/src/retention.rs: which checkpoint generations are removed. The rows that the
-- database returns, the reading of JSON text and the pins are arguments: a query or a file that
-- fails is an error among them. A `BTreeSet` is an ordered map to the unit.
pub mod Sets
pub mod Newest
pub mod Keeps
pub mod Ranked
pub mod Prune
use substreams_evm_state.Prelude.{
  ℕ, ◌≡◌, Bool, true, false, not, ◌&&◌, Option, none, some, List, [], ◌∷◌, map, String, Text, codes,
  length, is_empty, all, take, leb, ◌==◌, if◌then◌else◌, Result, ok, err, ensure, context, ◌>>=◌,
  ◌>>◌,
}
use substreams_evm_state.Prelude.Order.{text_ord}
use substreams_evm_state.Prelude.StableSort.{sort_by}
use substreams_evm_state.Btree.{Btree, get, insert, retain}
use substreams_evm_state.Json.{Json, index, as_str, as_array, is_text, json_eq}
use substreams_evm_state.Json.Digits.{is_lower_hex}
use substreams_evm_state.Json.Read.{string_field, uint}

-- `control::object_id`
unfoldable pub object_id : Text → Result Text
object_id id = do
  ensure (length id == 32 && all is_lower_hex id) "expected a 32-character checkpoint or pin ID"
  ok id

abbrev pub IdSet : Type 0
IdSet = Btree Text (Unit {0})

-- `contains` and `contains_key`
abbrev pub has : {V : Type 0} → Btree Text V → Text → Bool
has m k = elim (get m k) [ some v ↦ true | none ↦ false ]

-- `trim_matches('\'')`
unfoldable pub trim_quotes : Text → Text
trim_quotes [] = []
trim_quotes (c ∷ cs) = let rest = trim_quotes cs in if c == 39 then rest else c ∷ cs

unfoldable pub trim_quotes_end : Text → Text
trim_quotes_end [] = []
trim_quotes_end (c ∷ cs) =
    let rest = trim_quotes_end cs in if c == 39 && is_empty rest then [] else c ∷ rest

-- A file of the pin directory: whether its extension is `json`, its stem where that is a text, and
-- its contents.
pub record PinFile : Type 0 where
  pub is_json : Bool
  pub stem : Option Text
  pub contents : Result Text

module _ (parse_json : Text → Option Json) where
  -- `reader::read_pin`
  unfoldable pub read_pin : Json → Text → Result Text → Result Json
  read_pin control_id pin_id contents = do
    id ← object_id pin_id
    text ← contents
    record' ← context (parse_json text) "invalid JSON"
    ensure
        (is_text (index record' "pin_id") pin_id && json_eq (index record' "control_id") control_id)
        "pin belongs to another controller or is corrupt"
    snapshot ← string_field record' "snapshot_id"
    id' ← object_id snapshot
    ok record'

  -- The loop of `pins_unlocked`: each pin with its time.
  unfoldable pub read_pins : Json → List PinFile → Result (List (ℕ × Json))
  read_pins control_id [] = ok []
  read_pins control_id (file ∷ files) =
      let rest = read_pins control_id files in
      let read = (do
        stem ← context file.stem "invalid pin file"
        pin ← read_pin control_id stem file.contents
        created ← uint (index pin "created_at")
        pins ← rest
        ok ((created, pin) ∷ pins)) in
      if file.is_json then read else rest

  -- A row of `checkpoints`, as `plan_unlocked` reads it.
  unfoldable pub ready_record : Json → Result Json
  ready_record row = do
    manifest ← string_field row "manifest"
    value ← context (parse_json manifest) "invalid JSON"
    id ← string_field row "snapshot_id"
    id' ← object_id id
    ensure
        (is_text (index value "snapshot_id") id' && is_text (index value "status") (codes "ready"))
        "invalid ready manifest blocks retention"
    ok value

  unfoldable pub ready_records : List Json → Result (List Json)
  ready_records [] = ok []
  ready_records (row ∷ rows) = do
    value ← ready_record row
    values ← ready_records rows
    ok (value ∷ values)

-- `reader::pins_unlocked`
unfoldable pub pins_unlocked : (Text → Option Json) → Json → List PinFile → Result (List Json)
pins_unlocked parse_json control_id files = do
  pins ← read_pins parse_json control_id files
  ok (map (λ p. p.1) (sort_by (λ p. p.0) pins))

-- `map(string(row, "snapshot_id")).collect::<BTreeSet>()`
unfoldable pub snapshot_ids : List Json → IdSet → Result IdSet
snapshot_ids [] ids = ok ids
snapshot_ids (row ∷ rows) ids = do
  id ← string_field row "snapshot_id"
  snapshot_ids rows (insert ids id tt)

-- `latest` and `keep`
pub record Kept : Type 0 where
  pub latest : Btree Text Text
  pub keep : IdSet

unfoldable pub note_account : Json → Json → Kept → Result Kept
note_account row value kept = do
  account ← context (as_str value) "invalid checkpoint account"
  if has kept.latest account then ok kept else (do
    id ← string_field row "snapshot_id"
    ok (record { latest = insert kept.latest account id; keep = insert kept.keep id tt }))

unfoldable pub note_accounts : Json → List Json → Kept → Result Kept
note_accounts row [] kept = ok kept
note_accounts row (value ∷ accounts) kept = do
  kept' ← note_account row value kept
  note_accounts row accounts kept'

unfoldable pub note_records : List Json → Kept → Result Kept
note_records [] kept = ok kept
note_records (row ∷ rows) kept = do
  accounts ← context (as_array (index row "accounts")) "invalid checkpoint accounts"
  kept' ← note_accounts row accounts kept
  note_records rows kept'

unfoldable pub keep_pins : IdSet → List Json → IdSet → Result IdSet
keep_pins ready [] keep = ok keep
keep_pins ready (pin ∷ pins) keep = do
  id ← string_field pin "snapshot_id"
  ensure (has ready id) "a pinned checkpoint is missing; retention stopped"
  keep_pins ready pins (insert keep id tt)

unfoldable pub partition_ids : List Json → IdSet → Result IdSet
partition_ids [] ids = ok ids
partition_ids (row ∷ rows) ids = do
  text ← string_field row "partition"
  id ← object_id (trim_quotes_end (trim_quotes text))
  partition_ids rows (insert ids id tt)

-- `difference`
unfoldable pub difference : IdSet → IdSet → IdSet
difference a b = retain (λ k v. not (has b k)) a

pub record Plan : Type 0 where
  pub keep : IdSet
  pub remove : IdSet
  pub unpublished_candidates : IdSet
  pub pins : List Json
  pub latest_for_account : Btree Text Text
  pub keep_latest : ℕ

-- `require_partitioned_schema`, on the rows of its query
unfoldable pub require_partitioned_schema : Result (List Json) → Result (Unit {0})
require_partitioned_schema answer = do
  rows ← answer
  ensure
      (length rows == 3
        && all (λ row. is_text (index row "partition_key") (codes "snapshot_id")) rows)
      "checkpoint tables use an old prototype schema; export and import into a fresh database before retention"

-- What `plan_unlocked` is told: the answers of its three queries, and the files of the pins.
pub record Stored : Type 0 where
  pub schema : Result (List Json)
  pub checkpoints : Result (List Json)
  pub pins : List PinFile
  pub control_id : Json
  pub parts : Result (List Json)

-- `plan_unlocked`; each pin of the plan is given whole.
unfoldable pub plan : (Text → Option Json) → Stored → ℕ → Result Plan
plan parse_json s keep_latest = do
  ensure (leb 1 keep_latest) "keep_latest must be at least one"
  require_partitioned_schema s.schema
  rows ← s.checkpoints
  records ← ready_records parse_json rows
  ready ← snapshot_ids records []
  first ← snapshot_ids (take keep_latest records) []
  kept ← note_records records (record { latest = []; keep = first })
  pins ← pins_unlocked parse_json s.control_id s.pins
  keep ← keep_pins ready pins kept.keep
  parts ← s.parts
  partitions ← partition_ids parts []
  let remove = difference partitions keep
  ok (record {
    keep = keep;
    remove = remove;
    unpublished_candidates = difference remove ready;
    pins = pins;
    latest_for_account = kept.latest;
    keep_latest = keep_latest;
  })
