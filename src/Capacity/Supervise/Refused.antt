-- ===== src/Capacity/Supervise/Refused.antt =====
-- About the guards' files in `supervise` of crates/evm-state/src/capacity.rs.
use substreams_evm_state.Prelude.{
  ◌≡◌, refl, sym, ap, ◌∙◌, subst, Bool, true, false, List, [], ◌∷◌, ◌++◌, is_empty, All, Result, ok,
  err, context, >>=-eq-ok, ok-injective, err_absurd, context-eq-ok, codes,
}
use substreams_evm_state.Json.{Json, get, index, as_array, is_true}
use substreams_evm_state.Json.Read.{string_field}
use substreams_evm_state.Capacity.Supervise.{Reasons, add_reasons}
use substreams_evm_state.Capacity.Supervise.Report.{
  Guards, peak_of, ok_reasons, reject, note_causes, note_guard, note_guards,
}
use substreams_evm_state.Capacity.Supervise.Honest.{IsHonest, add_reasons-found}

ok_reasons-eq-ok :
    (p : Reasons × Result (Unit {0})) (g g' : Guards)
    → ok_reasons p g ≡ ok g'
    → (p.1 ≡ ok tt) × (p.0 ≡ g'.reasons)
unfolding ok_reasons
ok_reasons-eq-ok (rs, err e) g g' h = err_absurd h
ok_reasons-eq-ok (rs, ok u) g g' h = (refl, ap (λ (x : Guards). x.reasons) (ok-injective h))

note_causes-admitted :
    (b : Bool) (guard : Json) (causes : List Json) (g g' : Guards)
    → (b ≡ false → (j : Json) × ((js : List Json) × (causes ≡ j ∷ js)))
    → note_causes b guard causes g ≡ ok g'
    → is_empty g'.reasons ≡ true
    → (b ≡ true) × (is_empty g.reasons ≡ true)
unfolding note_causes reject
note_causes-admitted true guard causes g g' f h e =
    (refl, ap (λ (x : Guards). is_empty x.reasons) (ok-injective h) ∙ e)
note_causes-admitted false guard causes g g' f h e =
    let (j, (js, q)) = f refl in
    let (stage, c, h1) = >>=-eq-ok (string_field guard "stage") _ h in
    let (a, b) =
      ok_reasons-eq-ok (add_reasons causes g.reasons)
        (record g { rejected = g.rejected ++ stage ∷ [] }) g' h1 in
    let found =
      add_reasons-found j js g.reasons tt
        (subst (λ xs. (add_reasons xs g.reasons).1 ≡ ok tt) q a) in
    let left =
      subst (λ xs. is_empty (add_reasons xs g.reasons).0 ≡ true) q (ap (λ rs. is_empty rs) b ∙ e) in
    cc (found, left)

note_guard-admitted :
    (guard : Json) (g g' : Guards)
    → IsHonest guard
    → note_guard guard g ≡ ok g'
    → is_empty g'.reasons ≡ true
    → (is_true (index guard "admitted") ≡ true) × (is_empty g.reasons ≡ true)
unfolding note_guard
note_guard-admitted guard g g' honest h e =
    let (peak, c, h1) =
      >>=-eq-ok (peak_of (get guard (codes "accounted_allocated_bytes")) g.peak) _ h in
    let (causes, d, h2) =
      >>=-eq-ok (context (as_array (index guard "reasons")) "invalid capacity guard reasons") _
        h1 in
    let q = context-eq-ok (as_array (index guard "reasons")) "invalid capacity guard reasons" d in
    note_causes-admitted (is_true (index guard "admitted")) guard causes _ g'
      (λ a. let (j, (js, r)) = honest a in (j, (js, cc (sym q ∙ r)))) h2 e

-- Guards that leave no reason were all admitted, and found none.
pub note_guards-admitted :
    (guards : List Json) (g g' : Guards)
    → All IsHonest guards
    → note_guards guards g ≡ ok g'
    → is_empty g'.reasons ≡ true
    → All (λ guard. is_true (index guard "admitted") ≡ true) guards × (is_empty g.reasons ≡ true)
unfolding note_guards
note_guards-admitted [] g g' honest h e =
    (tt, ap (λ (x : Guards). is_empty x.reasons) (ok-injective h) ∙ e)
note_guards-admitted (guard ∷ guards) g g' honest h e =
    let (g1, c, h1) = >>=-eq-ok (note_guard guard g) _ h in
    let (rest, e1) = note_guards-admitted guards g1 g' honest.1 h1 e in
    let (a, e0) = note_guard-admitted guard g g1 honest.0 c e1 in ((a, rest), e0)
