-- ===== src/Capacity/Supervise/Honest.antt =====
-- About `supervise` of crates/evm-state/src/capacity.rs.
use substreams_evm_state.Prelude.{
  ℕ, ◌≡◌, inl, inr, refl, sym, subst, bytes_eq, true, false, Option, none, some, List, [], ◌∷◌,
  Text, is_empty, Bool-cases, Result, ok, err_absurd,
}
use substreams_evm_state.Prelude.Order.{text_ord, Ord, Ordering-cases}
use substreams_evm_state.Btree.{Btree, insert}
use substreams_evm_state.Json
use substreams_evm_state.Json.{Json, index, as_str, as_array, is_true}
use substreams_evm_state.Capacity.Supervise.{
  Reasons, add_reason, add_reasons, note_reasons, note_value, Answer, measured, faulted, Fault,
  failure,
}

-- A value that is not admitted gives a reason.
abbrev pub IsHonest : Json → Type 0
IsHonest value =
    is_true (index value "admitted") ≡ false
    → (j : Json) × ((js : List Json) × (as_array (index value "reasons") ≡ some (j ∷ js)))

-- So does a sampler, in each value that it measured.
abbrev pub IsHonestAnswer : Answer → Type 0
IsHonestAnswer (measured value) = IsHonest value
IsHonestAnswer (faulted f) = Unit

pub insert-is_empty {ℓ κ} :
    {K : Type ℓ} {V : Type κ} ⦃o : Ord K⦄ (m : Btree K V) (k : K) (v : V)
    → is_empty (insert m k v) ≡ false
unfolding insert
insert-is_empty [] k v = refl
insert-is_empty ⦃o⦄ ((j, w) ∷ m) k v = elim (Ordering-cases (o.cmp k j)) [
  | inl e ↦ rw (e, is_empty) refl
  | inr (inl e) ↦ rw (e, is_empty) refl
  | inr (inr e) ↦ rw (e, is_empty) refl
]

add_reason-grows :
    (o : Option Text) (rs : Reasons) (next : Reasons → Reasons × Result (Unit {0}))
    → ((rs' : Reasons) → is_empty rs' ≡ false → is_empty (next rs').0 ≡ false)
    → is_empty rs ≡ false
    → is_empty (add_reason o rs next).0 ≡ false
unfolding add_reason
add_reason-grows none rs next f h = h
add_reason-grows (some t) rs next f h = f (insert rs t tt) (insert-is_empty rs t tt)

-- Reasons that are there stay there.
add_reasons-grows :
    (js : List Json) (rs : Reasons) → is_empty rs ≡ false → is_empty (add_reasons js rs).0 ≡ false
unfolding add_reasons
add_reasons-grows [] rs h = h
add_reasons-grows (j ∷ js) rs h =
    add_reason-grows (as_str j) rs (λ rs'. add_reasons js rs')
      (λ rs' h'. add_reasons-grows js rs' h') h

add_reason-found :
    (o : Option Text) (js : List Json) (rs : Reasons) (u : Unit {0})
    → (add_reason o rs (λ rs'. add_reasons js rs')).1 ≡ ok u
    → is_empty (add_reason o rs (λ rs'. add_reasons js rs')).0 ≡ false
unfolding add_reason
add_reason-found none js rs u h = err_absurd h
add_reason-found (some t) js rs u h =
    add_reasons-grows js (insert rs t tt) (insert-is_empty rs t tt)

pub add_reasons-found :
    (j : Json) (js : List Json) (rs : Reasons) (u : Unit {0})
    → (add_reasons (j ∷ js) rs).1 ≡ ok u
    → is_empty (add_reasons (j ∷ js) rs).0 ≡ false
unfolding add_reasons
add_reasons-found j js rs u h = add_reason-found (as_str j) js rs u h

note_reasons-found :
    (o : Option (List Json)) (j : Json) (js : List Json) (rs : Reasons) (u : Unit {0})
    → o ≡ some (j ∷ js)
    → (note_reasons o rs).1 ≡ ok u
    → is_empty (note_reasons o rs).0 ≡ false
unfolding note_reasons
note_reasons-found none j js rs u e h = cc e
note_reasons-found (some js') j js rs u e h =
    let q : js' ≡ j ∷ js = cc e in
    subst (λ xs. is_empty (add_reasons xs rs).0 ≡ false) (sym q)
      (add_reasons-found j js rs u (subst (λ xs. (add_reasons xs rs).1 ≡ ok u) q h))

-- A value with no reason after its note: it is admitted, and there was none before.
pub record IsQuietNote (value : Json) (rs : Reasons) : Type 0 where
  pub before : is_empty rs ≡ true
  pub admitted : is_true (index value "admitted") ≡ true

pub note_value-IsQuietNote :
    (value : Json) (rs : Reasons) (u : Unit {0})
    → IsHonest value
    → (note_value value rs).1 ≡ ok u
    → is_empty (note_value value rs).0 ≡ true
    → IsQuietNote value rs
unfolding note_value
note_value-IsQuietNote value rs u honest h e =
    elim (Bool-cases (is_true (index value "admitted"))) [
      | inl a ↦ record { before = rw a at e; admitted = a }
      | inr a ↦
          let (j, (js, q)) = honest a in
          let found =
            note_reasons-found (as_array (index value "reasons")) j js rs u q (rw a at h) in
          let none_left : is_empty (note_reasons (as_array (index value "reasons")) rs).0 ≡ true =
            rw a at e in
          cc (found, none_left)
    ]

pub failure-IsHonest : (f : Fault) (started finished : ℕ) → IsHonest (failure f started finished)
unfolding failure as_array index Json.get Json.find bytes_eq Json.items
failure-IsHonest f started finished h = (_, (_, refl))

pub failure-refused :
    (f : Fault) (started finished : ℕ)
    → is_true (index (failure f started finished) "admitted") ≡ false
unfolding failure index Json.get Json.find bytes_eq is_true
failure-refused f started finished = refl
