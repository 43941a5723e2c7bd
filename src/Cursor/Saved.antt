-- ===== src/Cursor/Saved.antt =====
-- About `save_progress` and `load_progress` of crates/evm-state/src/cursor.rs.
use substreams_evm_state.Prelude.{
  ℕ, ◌≤◌, ◌≡◌, ◌⊎◌, inl, inr, refl, ap, ◌∙◌, Bool, true, false, ◌&&◌, Text, arith, bytes_eq,
  bytes_eq_refl, leb, leb→le, ◌==◌, if◌then◌else◌, Result, ok, ensure, ◌>>=◌, ◌>>◌, >>=-eq-ok,
  ensure-eq-ok, ok-injective, >>=-ok, ensure-ok, subst, Bool-cases,
}
use substreams_evm_state.Json.{Json, get, find, index, as_str, as_u64, is_text, json_eq, same_field}
use substreams_evm_state.Json.Read.{string_field, uint}
use substreams_evm_state.Cursor.{BlockRef, Position}
use substreams_evm_state.Cursor.Progress.{
  ref_value, position_value, binding_value, progress_value, Stored, World, Binding, binding,
  validate, agrees, is_bound, load_progress, replace, save_progress,
}

block_number : Json → Result ℕ
block_number stored = uint (index (index (index stored "position") "block") "number")

eq_refl : (n : ℕ) → (n == n) ≡ true
eq_refl n = ground arith

and_true : {a b : Bool} → a ≡ true → b ≡ true → (a && b) ≡ true
and_true e f = rw (e, f) refl

ref_value_self : (b : BlockRef) → json_eq (ref_value b) (ref_value b) ≡ true
unfolding json_eq bytes_eq
ref_value_self b = and_true (bytes_eq_refl b.hash) (and_true (eq_refl b.number) refl)

position_value_self : (p : Position) → json_eq (position_value p) (position_value p) ≡ true
unfolding json_eq bytes_eq
position_value_self p = and_true (ref_value_self p.block) (
    and_true (ref_value_self p.head)
      (and_true (ref_value_self p.lib) (and_true (eq_refl p.step) refl)))

binding-bound :
    (w : World) (run : Json) (a b c token : Text) (p : Position)
    → is_bound w run (binding_value a b c) (progress_value a b c token p) ≡ true
unfolding is_bound agrees same_field get find json_eq bytes_eq
binding-bound w run a b c token p =
    and_true (bytes_eq_refl b)
      (and_true refl (and_true (bytes_eq_refl c) (and_true (bytes_eq_refl a) refl)))

token_of :
    (a b c token : Text) (p : Position)
    → string_field (progress_value a b c token p) "cursor" ≡ ok token
unfolding string_field get find bytes_eq as_str
token_of a b c token p = refl

position_of :
    (a b c token : Text) (p : Position)
    → index (progress_value a b c token p) "position" ≡ position_value p
unfolding index get find bytes_eq
position_of a b c token p = refl

number_of :
    (a b c token : Text) (p : Position)
    → block_number (progress_value a b c token p) ≡ ok p.block.number
unfolding block_number index get find bytes_eq uint as_u64
number_of a b c token p = refl

-- The record that a save writes loads again.
written-loads :
    (w : World) (run : Json) (b : Binding) (token : Text) (p : Position)
    → binding w run ≡ ok b
    → validate w run token ≡ ok p
    → load_progress w run (record {
      present = ok true;
      contents = ok (progress_value b.run_id b.uuid b.digest token p);
    })
      ≡ ok (progress_value b.run_id b.uuid b.digest token p)
unfolding load_progress
written-loads w run b token p eb ev = >>=-ok _ eb (
    >>=-ok _
      (ensure-ok "durable progress belongs to another native run"
        (binding-bound w run b.run_id b.uuid b.digest token p))
      (>>=-ok _ (token_of b.run_id b.uuid b.digest token p) (
        >>=-ok _ ev (
          >>=-ok _
            (ensure-ok "durable progress position is corrupt" (
              ap (λ x. json_eq x (position_value p)) (position_of b.run_id b.uuid b.digest token p)
              ∙ position_value_self p))
            refl))))

-- A record that a save of a token at a position gives, with the file after it.
record IsReplaced (w : World) (run : Json) (p : Position) (saved : Json × Stored) : Type 0 where
  loads : load_progress w run saved.1 ≡ ok saved.0
  number : block_number saved.0 ≡ ok p.block.number

replace-IsReplaced :
    (w : World) (run : Json) (written : Result (Unit {0})) (token : Text) (p : Position)
    (saved : Json × Stored)
    → validate w run token ≡ ok p
    → replace w run written token p ≡ ok saved
    → IsReplaced w run p saved
unfolding replace
replace-IsReplaced w run written token p saved ev h =
    let (b, c, h1) = >>=-eq-ok (binding w run) _ h in
    let (u, c2, h2) = >>=-eq-ok written _ h1 in
    subst (IsReplaced w run p) (ok-injective h2) (record {
      loads = written-loads w run b token p c ev;
      number = number_of b.run_id b.uuid b.digest token p;
    })

-- A record that was there before, and its block number, which the new one does not precede.
pub record IsForward (w : World) (run : Json) (file : Stored) (saved : Json) : Type 0 where
  pub previous : Json
  pub before : ℕ
  pub after : ℕ
  pub loaded : load_progress w run file ≡ ok previous
  pub had : uint (index (index (index previous "position") "block") "number") ≡ ok before
  pub has : uint (index (index (index saved "position") "block") "number") ≡ ok after
  pub order : before ≤ after

-- What a save gives.
pub record IsSaved (w : World) (run : Json) (file : Stored) (saved : Json × Stored) : Type 0 where
  pub loads : load_progress w run saved.1 ≡ ok saved.0
  pub forward : (file.present ≡ ok false) ⊎ IsForward w run file saved.0

replaced :
    (w : World) (run : Json) (p : Position) (file : Stored) (previous : Json) (n : ℕ)
    (saved : Json × Stored)
    → load_progress w run file ≡ ok previous
    → block_number previous ≡ ok n
    → n ≤ p.block.number
    → IsReplaced w run p saved
    → IsSaved w run file saved
unfolding block_number
replaced w run p file previous n saved l e o r = record {
  loads = r.loads;
  forward = inr (record {
    previous = previous;
    before = n;
    after = p.block.number;
    loaded = l;
    had = e;
    has = r.number;
    order = o;
  });
}

-- A save that succeeds leaves a file that loads the record it returns; and where a record was there
-- before, that one loads too and its block number is not above the new one.
pub save_progress-IsSaved :
    (w : World) (run : Json) (written : Result (Unit {0})) (file : Stored) (token : Text)
    (saved : Json × Stored)
    → save_progress w run written file token ≡ ok saved
    → IsSaved w run file saved
unfolding save_progress block_number
save_progress-IsSaved w run written file token saved h =
    let (p, c, h1) = >>=-eq-ok (validate w run token) _ h in
    let (present, c2, h2) = >>=-eq-ok file.present _ h1 in go p c present c2 h2
  where
    go :
        (p : Position)
        → validate w run token ≡ ok p
        → (present : Bool) → file.present ≡ ok present
        → (if present
            then (do
              previous ← load_progress w run file
              n ← uint (index (index (index previous "position") "block") "number")
              ensure (leb n p.block.number) "native cursor regressed behind durable progress"
              if is_text (index previous "cursor") token
                  then ok (previous, file)
                  else replace w run written token p)
            else replace w run written token p)
          ≡ ok saved
        → IsSaved w run file saved
    go p c false e h =
        let r = replace-IsReplaced w run written token p saved c h in
        record { loads = r.loads; forward = inl e }
    go p c true e h =
        let (previous, c1, h1) = >>=-eq-ok (load_progress w run file) _ h in
        let (n, c2, h2) =
          >>=-eq-ok (uint (index (index (index previous "position") "block") "number")) _ h1 in
        let (u, c3, h3) =
          >>=-eq-ok
            (ensure (leb n p.block.number) "native cursor regressed behind durable progress") _
            h2 in
        let o = leb→le n p.block.number (
          ensure-eq-ok (leb n p.block.number) "native cursor regressed behind durable progress"
            c3) in
        elim (Bool-cases (is_text (index previous "cursor") token)) [
          | inl q ↦
              let s : ok (previous, file) ≡ ok saved = rw q at h3 in
              subst (IsSaved w run file) (ok-injective s) (record {
                loads = c1;
                forward = inr (record {
                  previous = previous;
                  before = n;
                  after = n;
                  loaded = c1;
                  had = c2;
                  has = c2;
                  order = omega arith;
                });
              })
          | inr q ↦
              replaced w run p file previous n saved c1 c2 o
                (replace-IsReplaced w run written token p saved c (rw q at h3))
        ]
