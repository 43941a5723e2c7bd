-- ===== src/Retention/Ranked.antt =====
-- About the plan of crates/evm-state/src/retention.rs where the database gives the checkpoints newest
-- first, as its query asks: what is kept is the newest by the numbers of the blocks.
use substreams_evm_state.Prelude.{
  ℕ, Option-cases, zero, suc, ◌≤◌, ◌≡◌, refl, sym, ap, ◌∙◌, false≢true, true, false, Option, none,
  some, List, [], ◌∷◌, ◌++◌, Text, String, All-mono, arith, take, length, all, All, Any, inl, inr,
  Bool-cases, ◌&&◌, ◌==◌, ok, ensure, context, >>=-eq-ok, ensure-eq-ok, ok-injective, subst,
  eq_of_bytes_eq, codes,
}
use substreams_evm_state.Btree.{get}
use substreams_evm_state.Prelude.Order.{text_ord}
use substreams_evm_state.Json
use substreams_evm_state.Json.{Json, index, as_str, is_text}
use substreams_evm_state.Json.Digits.{is_lower_hex}
use substreams_evm_state.Json.Read.{string_field}
use substreams_evm_state.Retention.{Stored, Plan, plan, object_id, ready_record, ready_records}
use substreams_evm_state.Retention.Newest.{lists, id_of-ok, newest, HasId}
use substreams_evm_state.Retention.Keeps.{IsPlanned, plan-IsSafe}

-- The block of the second record is not after that of the first one. `block` gives the number of the
-- block of a checkpoint, the column `block_number` of its row.
abbrev pub IsNotNewer : (Text → ℕ) → Json → Json → Type 0
IsNotNewer block x y =
    (i j : Text)
    → string_field x "snapshot_id" ≡ ok i
    → string_field y "snapshot_id" ≡ ok j
    → block j ≤ block i

-- `ORDER BY block_number DESC`
abbrev pub IsNewestFirst : (Text → ℕ) → List Json → Type 0
IsNewestFirst block [] = Unit
IsNewestFirst block (row ∷ rows) = All (IsNotNewer block row) rows × IsNewestFirst block rows

-- The identity is that of a record of the account, and no record of the account has a later block; or
-- there is none, and no record is one of the account.
abbrev pub IsLatestOf : (Text → ℕ) → List Json → Text → Option Text → Type 0
IsLatestOf block records a none = All (λ r. lists r a ≡ false) records
IsLatestOf block records a (some id) =
    Any (λ r. (lists r a ≡ true) × (string_field r "snapshot_id" ≡ ok id)) records
    × All
        (λ r.
          lists r a ≡ true → (j : Text) → string_field r "snapshot_id" ≡ ok j → block j ≤ block id)
        records

-- The records that a plan keeps for their age are not older than the others, and it names the latest
-- record of each account.
pub record IsRanked (block : Text → ℕ) (records : List Json) (keep_latest : ℕ) (p : Plan)
    : Type 0 where
  pub older : List Json
  pub split : records ≡ take keep_latest records ++ older
  pub newer : All (λ x. All (IsNotNewer block x) older) (take keep_latest records)
  pub latest : (a : Text) → IsLatestOf block records a (get p.latest_for_account a)

All-suffix : {A : Type 0} (P : A → Type 0) (xs ys : List A) → All P (xs ++ ys) → All P ys
All-suffix P [] ys h = h
All-suffix P (x ∷ xs) ys h = All-suffix P xs ys h.1

split_newest :
    (block : Text → ℕ) (n : ℕ) (xs : List Json)
    → IsNewestFirst block xs
    → (older : List Json) × (xs ≡ take n xs ++ older)
      × All (λ x. All (IsNotNewer block x) older) (take n xs)
unfolding take
split_newest block zero xs h = (xs, refl, tt)
split_newest block (suc n) [] h = ([], refl, tt)
split_newest block (suc n) (x ∷ xs) h =
    let (older, e, a) = split_newest block n xs h.1 in
    (
      older,
      ap (λ ys. x ∷ ys) e,
      (
        All-suffix (IsNotNewer block x) (take n xs) older (subst (All (IsNotNewer block x)) e h.0),
        a,
      ),
    )

extended :
    (block : Text → ℕ) (row : Json) (rows : List Json) (a : Text) (o : Option Text)
    → lists row a ≡ false
    → IsLatestOf block rows a o
    → IsLatestOf block (row ∷ rows) a o
extended block row rows a none e h = (e, h)
extended block row rows a (some id) e h = (inr h.0, ((λ t. absurd (false≢true (sym e ∙ t))), h.1))

newest-IsLatestOf :
    (block : Text → ℕ) (records : List Json)
    → All HasId records
    → IsNewestFirst block records
    → (a : Text) → IsLatestOf block records a (newest records a)
unfolding newest
newest-IsLatestOf block [] ids o a = tt
newest-IsLatestOf block (row ∷ rows) ids o a = elim (Bool-cases (lists row a)) [
  | inl e ↦
      let (id, i) = ids.0 in
      let named : newest (row ∷ rows) a ≡ some id = rw e (id_of-ok row id i) in
      subst (IsLatestOf block (row ∷ rows) a) (sym named) (
        inl (e, i),
        (
          (λ t j q. subst (λ x. block x ≤ block id) (ok-injective (sym i ∙ q)) (omega arith)),
          All-mono (IsNotNewer block row)
              (λ r.
                lists r a ≡ true
                → (j : Text) → string_field r "snapshot_id" ≡ ok j
                → block j ≤ block id)
              (λ r f t j q. f id j i q) rows o.0,
        ),
      )
  | inr e ↦
      let same : newest (row ∷ rows) a ≡ newest rows a = rw e refl in
      subst (IsLatestOf block (row ∷ rows) a) (sym same)
        (extended block row rows a (newest rows a) e (newest-IsLatestOf block rows ids.1 o.1 a))
]

object_id-eq : (id id' : Text) → object_id id ≡ ok id' → id ≡ id'
unfolding object_id
object_id-eq id id' h =
    let (u, c, h1) =
      >>=-eq-ok
        (ensure (length id == 32 && all is_lower_hex id)
          "expected a 32-character checkpoint or pin ID")
        _ h in
    ok-injective h1

as_str-of_is_text : (v : Json) (t : Text) → is_text v t ≡ true → as_str v ≡ some t
unfolding is_text as_str
as_str-of_is_text (Json.string u) t h = ap some (eq_of_bytes_eq u t h)
as_str-of_is_text Json.null t h = cc h
as_str-of_is_text (Json.bool b) t h = cc h
as_str-of_is_text (Json.number n) t h = cc h
as_str-of_is_text (Json.other_number n) t h = cc h
as_str-of_is_text (Json.array n) t h = cc h
as_str-of_is_text (Json.object n) t h = cc h

no_text : (t : Text) → is_text Json.null t ≡ true → ⊥
unfolding is_text
no_text t h = cc h

text_field :
    (v : Json) (key : String) (t : Text)
    → is_text (index v key) t ≡ true
    → string_field v key ≡ ok t
unfolding string_field index
text_field v key t h = elim (Option-cases (Json.get v (codes key))) [
  | inl e ↦ absurd (no_text t (rw (e, index) at h))
  | inr (w, e) ↦
      rw (e, string_field)
        (ap (λ o. context o "missing string field") (as_str-of_is_text w t (rw (e, index) at h)))
]

module _ (parse_json : Text → Option Json) (block : Text → ℕ) where
  ready_record-id :
      (row value : Json)
      → ready_record parse_json row ≡ ok value
      → (id : Text) × (string_field row "snapshot_id" ≡ ok id)
        × (string_field value "snapshot_id" ≡ ok id)
  unfolding ready_record
  ready_record-id row value h =
      let (manifest, c1, h1) = >>=-eq-ok (string_field row "manifest") _ h in
      let (v, c2, h2) = >>=-eq-ok (context (parse_json manifest) "invalid JSON") _ h1 in
      let (id, c3, h3) = >>=-eq-ok (string_field row "snapshot_id") _ h2 in
      let (id', c4, h4) = >>=-eq-ok (object_id id) _ h3 in
      let (u, c5, h5) =
        >>=-eq-ok
          (ensure
            (is_text (index v "snapshot_id") id' && is_text (index v "status") (codes "ready"))
            "invalid ready manifest blocks retention")
          _ h4 in
      let t =
        ensure-eq-ok
          (is_text (index v "snapshot_id") id' && is_text (index v "status") (codes "ready"))
          "invalid ready manifest blocks retention" c5 in
      (
        id',
        c3 ∙ ap ok (object_id-eq id id' c4),
        subst (λ x. string_field x "snapshot_id" ≡ ok id') (ok-injective h5)
            (text_field v "snapshot_id" id' (ground (arith, t))),
      )

  ready_records-IsNotNewer :
      (row value : Json) (rows values : List Json)
      → ready_record parse_json row ≡ ok value
      → ready_records parse_json rows ≡ ok values
      → All (IsNotNewer block row) rows
      → All (IsNotNewer block value) values
  unfolding ready_records
  ready_records-IsNotNewer row value [] values r h a =
      subst (All (IsNotNewer block value)) (ok-injective h) tt
  ready_records-IsNotNewer row value (row' ∷ rows) values r h a =
      let (v, c1, h1) = >>=-eq-ok (ready_record parse_json row') _ h in
      let (vs, c2, h2) = >>=-eq-ok (ready_records parse_json rows) _ h1 in
      let (id, i, i') = ready_record-id row value r in
      let (k, j, j') = ready_record-id row' v c1 in
      let not_newer : IsNotNewer block value v = λ x y p q.
        subst (λ z. block y ≤ block z) (ok-injective (sym i' ∙ p))
          (subst (λ z. block z ≤ block id) (ok-injective (sym j' ∙ q)) (a.0 id k i j)) in
      subst (All (IsNotNewer block value)) (ok-injective h2)
        (not_newer, ready_records-IsNotNewer row value rows vs r c2 a.1)

  ready_records-IsNewestFirst :
      (rows records : List Json)
      → ready_records parse_json rows ≡ ok records
      → IsNewestFirst block rows
      → IsNewestFirst block records × All HasId records
  unfolding ready_records
  ready_records-IsNewestFirst [] records h o =
      subst (λ rs. IsNewestFirst block rs × All HasId rs) (ok-injective h) (tt, tt)
  ready_records-IsNewestFirst (row ∷ rows) records h o =
      let (v, c1, h1) = >>=-eq-ok (ready_record parse_json row) _ h in
      let (vs, c2, h2) = >>=-eq-ok (ready_records parse_json rows) _ h1 in
      let (rest, ids) = ready_records-IsNewestFirst rows vs c2 o.1 in
      let (id, i, i') = ready_record-id row v c1 in
      subst (λ rs. IsNewestFirst block rs × All HasId rs) (ok-injective h2)
        ((ready_records-IsNotNewer row v rows vs c1 c2 o.0, rest), ((id, i'), ids))

  -- An accepted plan, where the database gives the published checkpoints in the descending order of
  -- their blocks: it keeps as many of the records as asked for and at least one, none of them older
  -- than one of the others, the record of each account after whose block there is none of the
  -- account, which it names, and the record of each pin; and it removes exactly the stored
  -- partitions that it does not keep.
  pub plan-IsRanked :
      (s : Stored) (keep_latest : ℕ) (p : Plan)
      → ((rows : List Json) → s.checkpoints ≡ ok rows → IsNewestFirst block rows)
      → plan parse_json s keep_latest ≡ ok p
      → (planned : IsPlanned parse_json s keep_latest p) × IsRanked block planned.records
          keep_latest p
  plan-IsRanked s keep_latest p o h =
      let planned = plan-IsSafe parse_json s keep_latest p h in
      let (order, ids) =
        ready_records-IsNewestFirst planned.rows planned.records planned.parsed
          (o planned.rows planned.checkpoints) in
      let (older, e, a) = split_newest block keep_latest planned.records order in
      (
        planned,
        record {
          older = older;
          split = e;
          newer = a;
          latest = λ t.
              subst (IsLatestOf block planned.records t) (sym (planned.safe.latest t))
                (newest-IsLatestOf block planned.records ids order t);
        },
      )
