-- ===== src/Retention/Keeps.antt =====
-- About the plan of crates/evm-state/src/retention.rs: what it keeps, and what it removes.
use substreams_evm_state.Prelude.{
  ℕ, ◌≡◌, ◌∙◌, true, not, ◌&&◌, Option, some, List, [], ◌∷◌, Text, take, All, All-mono, ok,
  >>=-eq-ok, ok-injective, ensure, ensure-eq-ok, subst, leb,
}
use substreams_evm_state.Prelude.Order.{text_ord}
use substreams_evm_state.Btree.{get, insert}
use substreams_evm_state.Btree.Order.{IsSorted}
use substreams_evm_state.Json.{Json}
use substreams_evm_state.Json.Read.{string_field}
use substreams_evm_state.Retention.{
  IdSet, has, Kept, Stored, Plan, plan, require_partitioned_schema, ready_records, snapshot_ids,
  note_records, pins_unlocked, keep_pins, partition_ids, difference,
}
use substreams_evm_state.Retention.Sets.{
  Subset, Subset-insert, has-insert_self, IsKept, IsKept-mono, snapshot_ids-IsKept,
  partition_ids-IsSorted, has-difference,
}
use substreams_evm_state.Retention.Newest.{newest, records-IsNoted, HasId}

keep_pins-IsKept :
    (ready : IdSet) (pins : List Json) (keep keep' : IdSet)
    → keep_pins ready pins keep ≡ ok keep'
    → Subset keep keep' × All (IsKept keep') pins
unfolding keep_pins
keep_pins-IsKept ready [] keep keep' h = let e = ok-injective h in ((λ k q. rw e at q), tt)
keep_pins-IsKept ready (pin ∷ pins) keep keep' h =
    let (id, i, h1) = >>=-eq-ok (string_field pin "snapshot_id") _ h in
    let (u, c, h2) =
      >>=-eq-ok (ensure (has ready id) "a pinned checkpoint is missing; retention stopped") _ h1 in
    let (s, a) = keep_pins-IsKept ready pins (insert keep id tt) keep' h2 in
    (λ k q. s k (Subset-insert keep id k q), ((id, i, s id (has-insert_self keep id)), a))

-- What a plan promises of the published records, the pins and the stored partitions.
pub record IsSafe (records : List Json) (partitions : IdSet) (keep_latest : ℕ) (p : Plan)
    : Type 0 where
  pub positive : leb 1 keep_latest ≡ true
  pub first : All (IsKept p.keep) (take keep_latest records)
  pub latest : (a : Text) → get p.latest_for_account a ≡ newest records a
  pub newest_kept : (a id : Text) → newest records a ≡ some id → has p.keep id ≡ true
  pub pinned : All (IsKept p.keep) p.pins
  pub removed : (id : Text) → has p.remove id ≡ (has partitions id && not (has p.keep id))

-- The plan that the parts of a run make.
made :
    (records : List Json) (ready first partitions keep : IdSet) (kept : Kept) (pins : List Json)
    (keep_latest : ℕ)
    → leb 1 keep_latest ≡ true
    → snapshot_ids records [] ≡ ok ready
    → snapshot_ids (take keep_latest records) [] ≡ ok first
    → note_records records (record { latest = []; keep = first }) ≡ ok kept
    → keep_pins ready pins kept.keep ≡ ok keep
    → IsSorted partitions
    → IsSafe records partitions keep_latest (record {
      keep = keep;
      remove = difference partitions keep;
      unpublished_candidates = difference (difference partitions keep) ready;
      pins = pins;
      latest_for_account = kept.latest;
      keep_latest = keep_latest;
    })
unfolding get
made records ready first partitions keep kept pins keep_latest l r f n k s =
    let (_, ids) = snapshot_ids-IsKept records [] ready r in
    let (_, firsts) = snapshot_ids-IsKept (take keep_latest records) [] first f in
    let (grows, pinned) = keep_pins-IsKept ready pins kept.keep keep k in
    let noted =
      records-IsNoted records (record { latest = []; keep = first }) kept
        (All-mono (IsKept ready) HasId (λ row i. (i.0, i.1)) records ids) n in
    record {
      positive = l;
      first =
          All-mono (IsKept first) (IsKept keep)
            (IsKept-mono first keep (λ id i. grows id (noted.grows id i)))
            (take keep_latest records) firsts;
      latest = noted.latest;
      newest_kept = λ a id e. grows id (noted.keeping (λ a id g. cc g) a id (noted.latest a ∙ e));
      pinned = pinned;
      removed = λ id. has-difference partitions keep id s;
    }

-- The answers that a plan is made of, read without an error, and what it promises of them.
pub record IsPlanned (parse_json : Text → Option Json) (s : Stored) (keep_latest : ℕ) (p : Plan)
    : Type 0 where
  pub rows : List Json
  pub records : List Json
  pub parts : List Json
  pub partitions : IdSet
  pub checkpoints : s.checkpoints ≡ ok rows
  pub parsed : ready_records parse_json rows ≡ ok records
  pub stored : s.parts ≡ ok parts
  pub read : partition_ids parts [] ≡ ok partitions
  pub pins : pins_unlocked parse_json s.control_id s.pins ≡ ok p.pins
  pub safe : IsSafe records partitions keep_latest p

-- An accepted plan, of the published records in the order of the answer: it keeps the first records,
-- as many as asked for and at least one, the first record of each account, which it names, and the
-- record of each pin; and it removes exactly the stored partitions that it does not keep.
pub plan-IsSafe :
    (parse_json : Text → Option Json) (s : Stored) (keep_latest : ℕ) (p : Plan)
    → plan parse_json s keep_latest ≡ ok p
    → IsPlanned parse_json s keep_latest p
unfolding plan
plan-IsSafe parse_json s keep_latest p h =
    let (u1, c1, h1) =
      >>=-eq-ok (ensure (leb 1 keep_latest) "keep_latest must be at least one") _ h in
    let (u2, c2, h2) = >>=-eq-ok (require_partitioned_schema s.schema) _ h1 in
    let (rows, c3, h3) = >>=-eq-ok s.checkpoints _ h2 in
    let (records, c4, h4) = >>=-eq-ok (ready_records parse_json rows) _ h3 in
    let (ready, c5, h5) = >>=-eq-ok (snapshot_ids records []) _ h4 in
    let (first, c6, h6) = >>=-eq-ok (snapshot_ids (take keep_latest records) []) _ h5 in
    let (kept, c7, h7) =
      >>=-eq-ok (note_records records (record { latest = []; keep = first })) _ h6 in
    let (pins, c8, h8) = >>=-eq-ok (pins_unlocked parse_json s.control_id s.pins) _ h7 in
    let (keep, c9, h9) = >>=-eq-ok (keep_pins ready pins kept.keep) _ h8 in
    let (parts, c10, h10) = >>=-eq-ok s.parts _ h9 in
    let (partitions, c11, h11) = >>=-eq-ok (partition_ids parts []) _ h10 in
    record {
      rows = rows;
      records = records;
      parts = parts;
      partitions = partitions;
      checkpoints = c3;
      parsed = c4;
      stored = c10;
      read = c11;
      pins =
          subst (λ (q : Plan). pins_unlocked parse_json s.control_id s.pins ≡ ok q.pins)
            (ok-injective h11) c8;
      safe = subst (IsSafe records partitions keep_latest) (ok-injective h11) (
          made records ready first partitions keep kept pins keep_latest
            (ensure-eq-ok (leb 1 keep_latest) "keep_latest must be at least one" c1) c5 c6 c7 c9
            (partition_ids-IsSorted parts [] partitions c11 tt));
    }
