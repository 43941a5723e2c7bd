-- ===== src/Examples/Stores.antt =====
-- Small stores, answers and measurements, and what the modules about crates/evm-state compute on
-- them.
use substreams_evm_state.Prelude.{
  ℕ, ◌≡◌, inl, inr, refl, true, Option, none, some, List, [], ◌∷◌, Text, codes, bytes_eq, All,
  if◌then◌else◌, Result, ok, err, any, all, filter, contains, take, ltb, ltb→lt, Bool-cases,
  ok-injective, subst, out_of_fuel,
}
use substreams_evm_state.Prelude.StableSort.{insert_by, sort_by}
use substreams_evm_state.Prelude.Order.{text_cmp, text_ord}
use substreams_evm_state.Json.{
  Json, Fields, Items, items, of_list, find, get, index, as_u64, as_str, as_array, is_text, is_true,
  json_eq, same_field,
}
use substreams_evm_state.Json
use substreams_evm_state.Json.Digits.{decimal_from, parse_u64}
use substreams_evm_state.Json.Read.{string_field, uint}
use substreams_evm_state.Btree
use substreams_evm_state.Params.Words.{
  words, is_separator, is_whitespace, push_first, strip_prefix, sort, sort_insert,
}
use substreams_evm_state.Examples.Instances.{
  plain_hex, encode, decode, digit, digit_value, push_byte,
}
use substreams_evm_state.Proof.{
  keys, field_names, texts, account_texts, unhex, fixed, address, addresses, canonical_accounts,
}
use substreams_evm_state.Examples.Samples.{or_default}
use substreams_evm_state.Retention
use substreams_evm_state.Retention.{
  object_id, trim_quotes, trim_quotes_end, PinFile, read_pin, read_pins, pins_unlocked,
  ready_record, ready_records, snapshot_ids, note_account, note_accounts, note_records, keep_pins,
  partition_ids, difference, require_partitioned_schema, Stored, has,
}
use substreams_evm_state.Retention.Prune.{Store}
use substreams_evm_state.History
use substreams_evm_state.History.{
  read_schemas, is_qualified, Answers, Partitions, partitions_before, covers, protect, protect_all,
}
use substreams_evm_state.History.Protects.{EndsBefore, IsExact}
use substreams_evm_state.Capacity.Paths
use substreams_evm_state.Capacity.Paths.{
  Path', starts_with, path_eq, path_cmp, is_after, dedup_after, dedup, add_roots, roots,
}
use substreams_evm_state.Capacity.Limits.{
  push_char, split_path, named, relative, components, is_absolute, add_disk, add_disks,
  destinations, Disks, data_disks,
}
use substreams_evm_state.Capacity.Guard.{
  Sampler, Event, check_paths, check_destination, write, take_sample, guard, Stats, no_samples,
  gap_after, note_time, note_bytes, tally, tally_on, tally_all,
}

unfoldable pub fields : List (Text × Json) → Fields
fields [] = Json.end
fields ((k, v) ∷ fs) = Json.field k v (fields fs)

abbrev pub obj : List (Text × Json) → Json
obj fs = Json.object (fields fs)

abbrev pub text : Text → Json
text t = Json.string t

abbrev pub arr : List Json → Json
arr js = Json.array (of_list js)

abbrev pub id1 : Text
id1 = codes "00000000000000000000000000000001"

abbrev pub id2 : Text
id2 = codes "00000000000000000000000000000002"

abbrev pub source : Json
source = obj ((codes "run_id", text (codes "r")) ∷ [])

-- A published record of one account.
abbrev pub published : Text → Json
published id = obj (
    (codes "accounts", arr (text (codes "0x0000000000000000000000000000000000000001") ∷ []))
    ∷ (codes "header", obj ((codes "number", Json.number 90) ∷ []))
    ∷ (codes "snapshot_id", text id)
    ∷ (codes "sources", arr (source ∷ []))
    ∷ (codes "status", text (codes "ready"))
    ∷ [])

abbrev pub pinned : Json
pinned = obj (
    (codes "control_id", text (codes "c"))
    ∷ (codes "created_at", Json.number 7)
    ∷ (codes "pin_id", text id2)
    ∷ (codes "snapshot_id", text id1)
    ∷ [])

-- A reader of the texts that the samples have.
abbrev pub parse_json : Text → Option Json
parse_json t =
    if bytes_eq t (codes "1")
    then some (published id1)
    else (if bytes_eq t (codes "2")
        then some (published id2)
        else (if bytes_eq t (codes "p") then some pinned else none))

abbrev pub row : Text → Text → Json
row manifest id = obj ((codes "manifest", text manifest) ∷ (codes "snapshot_id", text id) ∷ [])

abbrev pub partition : Text → Json
partition id = obj ((codes "partition", text id) ∷ [])

abbrev pub partitioned : Json
partitioned = obj ((codes "partition_key", text (codes "snapshot_id")) ∷ [])

-- Two records, the newer one of them pinned too.
abbrev pub stored : Stored
stored = record {
  schema = ok (partitioned ∷ partitioned ∷ partitioned ∷ []);
  checkpoints = ok (row (codes "1") id1 ∷ row (codes "2") id2 ∷ []);
  pins = record { is_json = true; stem = some id2; contents = ok (codes "p") } ∷ [];
  control_id = text (codes "c");
  parts = ok (partition id1 ∷ partition id2 ∷ []);
}

abbrev pub full : Store
full t id = true

abbrev pub ready : Json
ready = published id1

abbrev pub run : Json
run = obj (
    (
      codes "identity",
      obj ((codes "accounts", text (codes "0x0000000000000000000000000000000000000001")) ∷ []),
    )
    ∷ (codes "run_id", text (codes "r"))
    ∷ [])

abbrev pub progress : Json
progress = obj (
    (codes "position", obj ((codes "block", obj ((codes "number", Json.number 100) ∷ [])) ∷ []))
    ∷ [])

abbrev pub schema : Text → Text → Json
schema name key = obj ((codes "name", text name) ∷ (codes "partition_key", text key) ∷ [])

-- One partition, whose last block is 40.
abbrev pub last_block : Json
last_block = obj ((codes "id", text (codes "202401")) ∷ (codes "last", Json.number 40) ∷ [])

abbrev pub answers : Answers
answers = record {
  schemas = ok (
      schema (codes "state_blocks") (codes "toDate(_block_timestamp_)")
      ∷ schema (codes "_blocks_") (codes "toYYYYMM(timestamp)")
      ∷ []);
  partitions = λ table n. if ltb 40 n then ok (last_block ∷ []) else ok [];
}

unfoldable pub the_tools : ℕ
unfolding any all filter contains take bytes_eq text_cmp insert_by sort_by fields items of_list find
    get index as_u64 as_str as_array is_text is_true json_eq same_field decimal_from parse_u64
    string_field uint Btree.get Btree.insert Btree.retain strip_prefix words is_separator
    is_whitespace push_first sort sort_insert Paths.sort Paths.sort_insert encode decode digit
    digit_value push_byte keys field_names texts account_texts unhex fixed address addresses
    canonical_accounts object_id trim_quotes trim_quotes_end read_pin read_pins pins_unlocked
    ready_record ready_records snapshot_ids note_account note_accounts note_records keep_pins
    partition_ids difference require_partitioned_schema Retention.plan read_schemas is_qualified
    partitions_before covers protect protect_all History.plan starts_with path_eq path_cmp is_after
    dedup_after dedup add_roots roots push_char split_path named relative components is_absolute
    add_disk add_disks destinations data_disks check_paths check_destination write take_sample guard
    gap_after note_time note_bytes tally tally_on tally_all
the_tools = 0

pub answers-IsExact : IsExact answers
unfolding the_tools text_ord
answers-IsExact table n rows h = elim (Bool-cases (ltb 40 n)) [
  | inl e ↦
      let q : ok (last_block ∷ []) ≡ ok rows = rw e at h in
      subst (All (EndsBefore n)) (ok-injective q) ((40, refl, ltb→lt 40 n e), tt)
  | inr e ↦ let q : ok [] ≡ ok rows = rw e at h in subst (All (EndsBefore n)) (ok-injective q) tt
]

abbrev pub stored_plan : Retention.Plan
stored_plan =
    or_default
      (record {
        keep = [];
        remove = [];
        unpublished_candidates = [];
        pins = [];
        latest_for_account = [];
        keep_latest = 0;
      })
      (Retention.plan parse_json stored 1)

pub stored_plans : Retention.plan parse_json stored 1 ≡ ok stored_plan
unfolding the_tools text_ord
stored_plans = refl

pub stored_keeps : has stored_plan.keep id1 ≡ true
unfolding the_tools text_ord
stored_keeps = refl

pub stored_removes : has stored_plan.remove id2 ≡ true
unfolding the_tools text_ord
stored_removes = refl

abbrev pub history_plan : History.Plan
history_plan =
    or_default
      (record {
        protected_checkpoints = [];
        remove_before = 0;
        keep_blocks = 0;
        durable_block = Json.null;
        partitions = record { of_state_blocks = []; of_markers = [] };
      })
      (History.plan plain_hex parse_json answers run source (ok ready) (ok progress)
        (ok (row (codes "1") id1 ∷ [])) 5)

pub history_plans :
    History.plan plain_hex parse_json answers run source
      (ok ready)
      (ok progress)
      (ok (row (codes "1") id1 ∷ []))
      5
    ≡ ok history_plan
unfolding the_tools text_ord
history_plans = refl

pub history_removes : history_plan.partitions.of_state_blocks ≡ last_block ∷ []
unfolding the_tools text_ord
history_removes = refl

abbrev pub paths : List Path'
paths = (codes "a" ∷ codes "b" ∷ []) ∷ (codes "a" ∷ []) ∷ (codes "c" ∷ []) ∷ (codes "a" ∷ []) ∷ []

pub paths_have_roots : roots paths ≡ (codes "a" ∷ []) ∷ (codes "c" ∷ []) ∷ []
unfolding the_tools text_ord
paths_have_roots = refl

abbrev pub disk : Json
disk = obj (
    (codes "free_space", Json.number 60)
    ∷ (codes "is_remote", Json.number 0)
    ∷ (codes "path", text (codes "/data/disk/"))
    ∷ (codes "total_space", text (codes "100"))
    ∷ (codes "type", text (codes "Local"))
    ∷ (codes "unreserved_space", Json.number 50)
    ∷ [])

abbrev pub container : Json
container = obj (
    (
      codes "Mounts",
      arr (
          obj
            ((codes "Destination", text (codes "/data")) ∷ (codes "Type", text (codes "bind")) ∷ [])
          ∷ []),
    )
    ∷ [])

abbrev pub measured_disks : Disks
measured_disks = record {
  available = 50;
  paths = (codes "/" ∷ codes "data" ∷ codes "disk" ∷ []) ∷ [];
}

pub disks_measured : data_disks container (disk ∷ []) ≡ ok measured_disks
unfolding the_tools text_ord
disks_measured = refl

abbrev pub sample : Json
sample = obj (
    (codes "accounted_allocated_bytes", Json.number 12)
    ∷ (codes "admitted", Json.bool true)
    ∷ (codes "sample_finished_ns", text (codes "1000"))
    ∷ [])

abbrev pub meter : Sampler
meter = record { contains = λ p. ok (starts_with p (codes "data" ∷ [])); sample = ok sample }

abbrev pub store : Path' → Event → Result (Unit {0})
store p e = ok tt

abbrev pub required : List Path'
required = (codes "data" ∷ codes "state" ∷ []) ∷ []

abbrev pub events_path : Option Path'
events_path = some (codes "data" ∷ codes "events" ∷ [])

pub guard_admits : guard store meter required (codes "start") events_path ≡ ok sample
unfolding the_tools text_ord
guard_admits = refl

abbrev pub tallied : Stats
tallied = record { samples = 1; failures = 1; peak = 12; max_gap = 0; last = some 1000 }

pub sample_tallies : tally_all (ok sample ∷ err out_of_fuel ∷ []) no_samples ≡ (tallied, ok tt)
unfolding the_tools text_ord
sample_tallies = refl
