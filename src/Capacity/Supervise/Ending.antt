-- ===== src/Capacity/Supervise/Ending.antt =====
-- About the end of the command in `supervise` in crates/evm-state/src/capacity.rs.
use substreams_evm_state.Prelude.{
  ◌≡◌, inl, inr, refl, sym, ap, ◌∙◌, subst, Bool, true, false, not, ◌||◌, Option, none, some, List,
  [], is_empty, Bool-cases, All, Result, ok, err, arith,
}
use substreams_evm_state.Prelude.Order.{text_ord}
use substreams_evm_state.Prelude.Int.{ℤ, pos, negsuc}
use substreams_evm_state.Json.{Json, index, is_true}
use substreams_evm_state.Capacity.Guard.{Stats}
use substreams_evm_state.Capacity.Supervise.{
  Reasons, note_value, Sampling, is_some, Round, Supervision, rounds, is_error, terminate, finish,
  finish_all, run_command, start,
}
use substreams_evm_state.Capacity.Supervise.Report.{is_zero}
use substreams_evm_state.Capacity.Supervise.Honest.{IsHonest, IsHonestAnswer}
use substreams_evm_state.Capacity.Supervise.Measured.{IsAdmitted}
use substreams_evm_state.Capacity.Supervise.Uneventful.{IsUneventful, rounds-IsQuietLoop}

pub is_zero-pos : (o : Option ℤ) → is_zero o ≡ true → o ≡ some (pos 0)
unfolding is_zero
is_zero-pos none h = cc h
is_zero-pos (some (pos n)) h = let e : n ≡ 0 = ground (arith, h) in ap (λ k. some (pos k)) e
is_zero-pos (some (negsuc n)) h = cc h

-- Neither the error nor the reasons change at the end of the command.
finish-reasons :
    (t : Result ℤ) (p : Supervision × Result (Unit {0}))
    → ((finish t p).0.reasons ≡ p.0.reasons) × ((finish t p).1 ≡ p.1)
unfolding finish terminate
finish-reasons (ok c) (run, r) =
    elim (Bool-cases (not (is_some run.result) || (not (is_empty run.reasons) || is_error r))) [
      | inl e ↦ rw e (refl, refl)
      | inr e ↦ rw e (refl, refl)
    ]
finish-reasons (err e) (run, r) =
    elim (Bool-cases (not (is_some run.result) || (not (is_empty run.reasons) || is_error r))) [
      | inl e ↦ rw e (refl, refl)
      | inr e ↦ rw e (refl, refl)
    ]

no_end :
    (o : Option ℤ) (code : ℤ) (b : Bool)
    → o ≡ some code
    → b ≡ true
    → (not (is_some o) || (not b || is_error (ok tt))) ≡ false
unfolding is_error
no_end none code b h e = cc h
no_end (some c) code true h e = refl
no_end (some c) code false h e = cc e

-- A command that has exited with no reason to end it keeps its result.
finish-result :
    (t : Result ℤ) (run : Supervision) (code : ℤ)
    → run.result ≡ some code
    → is_empty run.reasons ≡ true
    → (finish t (run, ok tt)).0.result ≡ some code
unfolding finish
finish-result t run code h e = let q = no_end run.result code (is_empty run.reasons) h e in rw q h

-- A command that ends without an error and without a reason.
record IsQuietEnd (rs : List Round) (result : Option ℤ) : Type 0 where
  code : ℤ
  has_result : result ≡ some code
  uneventful : IsUneventful rs code

finish_all-IsQuietEnd :
    (t : Result ℤ) (rs : List Round) (run : Supervision)
    (o : Option (Supervision × Result (Unit {0}))) (q : Supervision × Result (Unit {0}))
    → All (λ (r : Round). IsHonestAnswer r.sampling.answer) rs
    → o ≡ rounds rs run
    → finish_all t o ≡ some q
    → q.1 ≡ ok tt
    → is_empty q.0.reasons ≡ true
    → IsQuietEnd rs q.0.result
unfolding finish_all
finish_all-IsQuietEnd t rs run none q honest o h u e = cc h
finish_all-IsQuietEnd t rs run (some (run', r)) q honest o h u e =
    let s : finish t (run', r) ≡ q = cc h in
    let (a, b) = finish-reasons t (run', r) in
    let v : r ≡ ok tt = sym b ∙ ap (λ (x : Supervision × Result (Unit {0})). x.1) s ∙ u in
    let empty : is_empty run'.reasons ≡ true =
      ap (λ rs. is_empty rs) (sym a ∙ ap (λ (x : Supervision × Result (Unit {0})). x.0.reasons) s)
      ∙ e in
    let l = rounds-IsQuietLoop rs run run' honest (sym o ∙ ap (λ r. some (run', r)) v) empty in
    record {
      code = l.code;
      has_result =
          ap (λ (x : Supervision × Result (Unit {0})). x.0.result) (sym s)
          ∙ ap (λ r. (finish t (run', r)).0.result) v
          ∙ finish-result t run' l.code l.result empty;
      uneventful = l.uneventful;
    }

-- What a start had that led to an exit with 0, no error and no reason.
pub record IsQuietStart (x : Sampling) (spawned : Result (Unit {0})) (rs : List Round)
    : Type 0 where
  pub admitted : IsAdmitted x
  pub started : spawned ≡ ok tt
  pub uneventful : IsUneventful rs (pos 0)

run_command-IsQuietStart :
    (b : Bool) (noted : Reasons × Result (Unit {0})) (s : Stats) (spawned : Result (Unit {0}))
    (rs : List Round) (t : Result ℤ) (q : Supervision × Result (Unit {0}))
    → All (λ (r : Round). IsHonestAnswer r.sampling.answer) rs
    → run_command b noted s spawned rs t ≡ some q
    → q.1 ≡ ok tt
    → is_empty q.0.reasons ≡ true
    → q.0.result ≡ some (pos 0)
    → (b ≡ true) × ((spawned ≡ ok tt) × IsUneventful rs (pos 0))
unfolding run_command
run_command-IsQuietStart false (noted, r) s spawned rs t q honest h u e z =
    let w : (Supervision.result
          (record { stats = s; reasons = noted; result = none; unconfirmed = false }))
        ≡ q.0.result =
      cc h in
    cc (w ∙ z)
run_command-IsQuietStart true noted s (err why) rs t q honest h u e z = cc h
run_command-IsQuietStart true noted s (ok tt) rs t q honest h u e z =
    let l =
      finish_all-IsQuietEnd t rs
        (record { stats = s; reasons = []; result = none; unconfirmed = false })
        (rounds rs (record { stats = s; reasons = []; result = none; unconfirmed = false })) q
        honest refl h u e in
    let c : l.code ≡ pos 0 = cc (sym l.has_result ∙ z) in
    (refl, (refl, subst (IsUneventful rs) c l.uneventful))

pub start-IsQuietStart :
    (p : Stats × Result Json) (x : Sampling) (spawned : Result (Unit {0})) (rs : List Round)
    (t : Result ℤ) (q : Supervision × Result (Unit {0}))
    → ((value : Json)
        → p.1 ≡ ok value
        → IsHonest value × (is_true (index value "admitted") ≡ true → IsAdmitted x))
    → All (λ (r : Round). IsHonestAnswer r.sampling.answer) rs
    → start p spawned rs t ≡ some q
    → q.1 ≡ ok tt
    → is_empty q.0.reasons ≡ true
    → q.0.result ≡ some (pos 0)
    → IsQuietStart x spawned rs
unfolding start
start-IsQuietStart (s, err e) x spawned rs t q f honest h u n z = cc h
start-IsQuietStart (s, ok value) x spawned rs t q f honest h u n z =
    let (a, (b, c)) =
      run_command-IsQuietStart (is_true (index value "admitted")) (note_value value []) s spawned rs
        t q honest h u n z in
    let (o, admitted) = f value refl in
    record { admitted = admitted a; started = b; uneventful = c }
