-- ===== src/Retention/Newest.antt =====
-- The record of each account that comes first, which is the newest one in the order that the query
-- asks for, and the loop of crates/evm-state/src/retention.rs over it.
use substreams_evm_state.Prelude.{
  ◌≡◌, refl, sym, ap, ◌∙◌, Bool, true, false, ◌||◌, Option, none, some, List, [], ◌∷◌, Text, arith,
  any, All, subst, Bool-cases, Option-cases, inl, inr, if◌then◌else◌, Result, ok, err, context,
  >>=-eq-ok, context-eq-ok, ok-injective, false≢true,
}
use substreams_evm_state.Prelude.Order.{text_ord}
use substreams_evm_state.Btree.{Btree, get, insert}
use substreams_evm_state.Btree.Lookup.{get-insert, same, eq_of_same}
use substreams_evm_state.Json.{Json, index, as_str, as_array, is_text}
use substreams_evm_state.Json.Read.{string_field}
use substreams_evm_state.Retention.{has, Kept, note_account, note_accounts, note_records}
use substreams_evm_state.Retention.Sets.{Subset, Subset-insert, has-insert_self, same-bytes_eq}

abbrev pub or_empty : Option (List Json) → List Json
or_empty none = []
or_empty (some vs) = vs

-- Whether the record lists the account.
unfoldable pub lists : Json → Text → Bool
lists row a = any (λ v. is_text v a) (or_empty (as_array (index row "accounts")))

abbrev pub to_option : {A : Type 0} → Result A → Option A
to_option (ok a) = some a
to_option (err e) = none

unfoldable pub id_of : Json → Option Text
id_of row = to_option (string_field row "snapshot_id")

-- The identity of the first record that lists the account.
unfoldable pub newest : List Json → Text → Option Text
newest [] a = none
newest (row ∷ rows) a = if lists row a then id_of row else newest rows a

abbrev pub first_of : {A : Type 0} → Option A → Option A → Option A
first_of (some a) o = some a
first_of none o = o

first_of_assoc :
    {A : Type 0} (x y z : Option A) → first_of (first_of x y) z ≡ first_of x (first_of y z)
first_of_assoc (some a) y z = refl
first_of_assoc none y z = refl

-- The newest identities are kept.
abbrev pub IsKeeping : Kept → Type 0
IsKeeping k = (a id : Text) → get k.latest a ≡ some id → has k.keep id ≡ true

-- What a part of the loop did: the accounts that `found` has are known now, and nothing was lost.
pub record IsNoted (found : Text → Option Text) (k k' : Kept) : Type 0 where
  pub latest : (a : Text) → get k'.latest a ≡ first_of (get k.latest a) (found a)
  pub grows : Subset k.keep k'.keep
  pub keeping : IsKeeping k → IsKeeping k'

trans :
    (f g h : Text → Option Text) (k k' k'' : Kept)
    → ((a : Text) → h a ≡ first_of (f a) (g a))
    → IsNoted f k k'
    → IsNoted g k' k''
    → IsNoted h k k''
trans f g h k k' k'' e p q = record {
  latest = λ a.
      q.latest a
      ∙ ap (λ o. first_of o (g a)) (p.latest a)
      ∙ first_of_assoc (get k.latest a) (f a) (g a)
      ∙ ap (first_of (get k.latest a)) (sym (e a));
  grows = λ id i. q.grows id (p.grows id i);
  keeping = λ i. q.keeping (p.keeping i);
}

text_of :
    (value : Json) (t : Text)
    → context (as_str value) "invalid checkpoint account" ≡ ok t
    → (a : Text) → is_text value a ≡ same a t
unfolding as_str is_text
text_of (Json.string u) t h a = let e : u ≡ t = ok-injective h in sym (rw e (same-bytes_eq a t))
text_of Json.null t h a = cc
text_of (Json.bool b) t h a = cc
text_of (Json.number n) t h a = cc
text_of (Json.other_number n) t h a = cc
text_of (Json.array n) t h a = cc
text_of (Json.object n) t h a = cc

-- A known account stays as it was.
known :
    (m : Btree Text Text) (t : Text) (o : Option Text)
    → has m t ≡ true
    → (a : Text) → get m a ≡ first_of (get m a) (if same a t then o else none)
known m t o h a = elim (Bool-cases (same a t)) [
  | inr n ↦ elim (Option-cases (get m a)) [ inl e ↦ rw (e, n) refl | inr (v, e) ↦ rw e refl ]
  | inl e ↦
      let h' : has m a ≡ true = subst (λ x. has m x ≡ true) (sym (eq_of_same a t e)) h in
      elim (Option-cases (get m a)) [ inl q ↦ ground (arith, h', q) | inr (v, q) ↦ rw q refl ]
]

fresh :
    (m : Btree Text Text) (t id : Text)
    → has m t ≡ false
    → (a : Text) → get (insert m t id) a ≡ first_of (get m a) (if same a t then some id else none)
fresh m t id h a = elim (Bool-cases (same a t)) [
  | inr n ↦ elim (Option-cases (get m a)) [
    | inl e ↦ ground (arith, get-insert m t id a, e, n)
    | inr (v, e) ↦ ground (arith, get-insert m t id a, e, n)
  ]
  | inl e ↦
      let h' : has m a ≡ false = subst (λ x. has m x ≡ false) (sym (eq_of_same a t e)) h in
      elim (Option-cases (get m a)) [
        | inl q ↦ ground (arith, get-insert m t id a, e, q)
        | inr (v, q) ↦ absurd (false≢true (sym h' ∙ ground (arith, q)))
      ]
]

pub id_of-ok :
    (row : Json) (id : Text) → string_field row "snapshot_id" ≡ ok id → id_of row ≡ some id
unfolding id_of
id_of-ok row id h = ap to_option h

fresh-IsKeeping :
    (k : Kept) (t id : Text)
    → IsKeeping k
    → IsKeeping (record { latest = insert k.latest t id; keep = insert k.keep id tt })
fresh-IsKeeping k t id i a id' g = elim (Bool-cases (same a t)) [
  | inl e ↦
      let q : id ≡ id' = ground (arith, get-insert k.latest t id a, e, g) in
      subst (λ x. has (insert k.keep id tt) x ≡ true) q (has-insert_self k.keep id)
  | inr e ↦ Subset-insert k.keep id id' (i a id' (ground (arith, get-insert k.latest t id a, e, g)))
]

account-IsNoted :
    (row value : Json) (k k' : Kept)
    → note_account row value k ≡ ok k'
    → IsNoted (λ a. if is_text value a then id_of row else none) k k'
unfolding note_account
account-IsNoted row value k k' h =
    let (t, s, h1) = >>=-eq-ok (context (as_str value) "invalid checkpoint account") _ h in
    elim (Bool-cases (has k.latest t)) [
      | inl e ↦
          let q : k ≡ k' = ok-injective (rw e at h1) in
          subst (IsNoted (λ a. if is_text value a then id_of row else none) k) q (record {
            latest = λ a. rw (text_of value t s a) (known k.latest t (id_of row) e a);
            grows = λ id i. i;
            keeping = λ i. i;
          })
      | inr e ↦
          let (id, i, h2) = >>=-eq-ok (string_field row "snapshot_id") _ (rw e at h1) in
          subst (IsNoted (λ a. if is_text value a then id_of row else none) k) (ok-injective h2)
            (record {
              latest = λ a. rw (text_of value t s a, id_of-ok row id i) (fresh k.latest t id e a);
              grows = Subset-insert k.keep id;
              keeping = fresh-IsKeeping k t id;
            })
    ]

none-IsNoted : (k : Kept) → IsNoted (λ a. none) k k
none-IsNoted k = record {
  latest = λ a. same_option (get k.latest a);
  grows = λ id i. i;
  keeping = λ i. i;
}
  where
    same_option : (o : Option Text) → o ≡ first_of o none
    same_option none = refl
    same_option (some a) = refl

either :
    (x y : Bool) (o : Option Text)
    → (if x || y then o else none) ≡ first_of (if x then o else none) (if y then o else none)
either true true none = refl
either true false none = refl
either true y (some a) = refl
either false y o = refl

accounts-IsNoted :
    (row : Json) (vs : List Json) (k k' : Kept)
    → note_accounts row vs k ≡ ok k'
    → IsNoted (λ a. if any (λ v. is_text v a) vs then id_of row else none) k k'
unfolding note_accounts any
accounts-IsNoted row [] k k' h = subst (IsNoted (λ a. none) k) (ok-injective h) (none-IsNoted k)
accounts-IsNoted row (v ∷ vs) k k' h =
    let (k1, n, h1) = >>=-eq-ok (note_account row v k) _ h in
    trans (λ a. if is_text v a then id_of row else none)
      (λ a. if any (λ v. is_text v a) vs then id_of row else none)
      (λ a. if any (λ v. is_text v a) (v ∷ vs) then id_of row else none) k k1 k'
      (λ a. either (is_text v a) (any (λ v. is_text v a) vs) (id_of row))
      (account-IsNoted row v k k1 n) (accounts-IsNoted row vs k1 k' h1)

-- A record's identity can be read.
abbrev pub HasId : Json → Type 0
HasId row = (id : Text) × (string_field row "snapshot_id" ≡ ok id)

first_branch :
    (row : Json) (vs : List Json) (a id : Text) (rows : List Json)
    → as_array (index row "accounts") ≡ some vs
    → id_of row ≡ some id
    → newest (row ∷ rows) a
      ≡ first_of (if any (λ v. is_text v a) vs then id_of row else none) (newest rows a)
unfolding newest lists
first_branch row vs a id rows e i =
    rw (e, i) (branch (any (λ v. is_text v a) vs) id (newest rows a))
  where
    branch :
        (b : Bool) (id : Text) (o : Option Text)
        → (if b then some id else o) ≡ first_of (if b then some id else none) o
    branch true id o = refl
    branch false id o = refl

pub records-IsNoted :
    (rows : List Json) (k k' : Kept)
    → All HasId rows
    → note_records rows k ≡ ok k'
    → IsNoted (newest rows) k k'
unfolding note_records newest lists
records-IsNoted [] k k' d h = subst (IsNoted (λ a. none) k) (ok-injective h) (none-IsNoted k)
records-IsNoted (row ∷ rows) k k' d h =
    let (vs, c, h1) =
      >>=-eq-ok (context (as_array (index row "accounts")) "invalid checkpoint accounts") _ h in
    let (k1, n, h2) = >>=-eq-ok (note_accounts row vs k) _ h1 in
    let (id, i) = d.0 in
    trans (λ a. if any (λ v. is_text v a) vs then id_of row else none) (newest rows)
      (newest (row ∷ rows)) k k1 k'
      (λ a.
        first_branch row vs a id rows
          (context-eq-ok (as_array (index row "accounts")) "invalid checkpoint accounts" c)
          (id_of-ok row id i))
      (accounts-IsNoted row vs k k1 n) (records-IsNoted rows k1 k' d.1 h2)
