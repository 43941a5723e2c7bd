-- ===== src/Prelude/Errors.antt =====
-- Fallible code: the errors of the program, each named for its message, and their monad.
use Prim.Native.String.{String}
use mathlib.Core.Path.{◌≡◌, refl, ap, ◌∙◌}
use mathlib.Core.Logic.{◌⊎◌, inl, inr}
use mathlib.Core.Bool.{Bool, true, false}
use substreams_evm_state.Prelude.Tests.{if◌then◌else◌}
use mathlib.Core.Option.{Option, none, some}

pub data Error : Type 0 where
  invalid_address expected_20_bytes : Error
  word_exceeds_32_bytes : Error
  accounts_required extended_required unsupported_version missing_header invalid_hash : Error
  number_mismatch missing_timestamp invalid_timestamp unknown_status missing_calls : Error
  invalid_code_hash : Error
  cyclic_ancestry missing_context unreliable_end_ordinal system_selfdestruct : Error
  missing_boundary : Error
  missing_origin : Error
  out_of_fuel : Error
  message : String → Error

-- A value, or the error of the early return.
pub data Result {κ} (T : Type κ) : Type κ where
  err : Error → Result T
  ok : T → Result T

-- `?`: the error ends the function.
infixl 5 ◌>>=◌ ◌>>◌
abbrev pub ◌>>=◌ {κ μ} : {S : Type κ} {T : Type μ} → Result S → (S → Result T) → Result T
err why >>= next = err why
ok value >>= next = next value

abbrev pub IsOk {κ} : {T : Type κ} → Result T → Type 0
IsOk (err why) = ⊥
IsOk (ok value) = Unit

-- `ok_or_else`
abbrev pub ok_or {κ} : {T : Type κ} → Option T → Error → Result T
ok_or (some value) why = ok value
ok_or none why = err why

-- `ensure!`, `require`: an early return of the error where the condition fails
abbrev pub require : Bool → Error → Result (Unit {0})
require condition why = ok_or (if condition then some tt else none) why

abbrev pub ◌>>◌ {κ} : {T : Type κ} → Result (Unit {0}) → Result T → Result T
first >> rest = first >>= λ _. rest

-- A chain that returned: its first part did, and the rest on that value.
pub >>=-eq-ok {κ μ} :
    {S : Type κ} {T : Type μ} (r : Result S) (next : S → Result T) {value : T}
    → (r >>= next) ≡ ok value
    → (s : S) × (r ≡ ok s) × (next s ≡ ok value)
>>=-eq-ok (err why) next h = cc
>>=-eq-ok (ok s) next h = (s, refl, h)

pub require-eq-ok : (b : Bool) (e : Error) {u : Unit {0}} → require b e ≡ ok u → b ≡ true
require-eq-ok true e h = refl
require-eq-ok false e h = cc

pub ok-injective {ℓ} : {A : Type ℓ} {a b : A} → ok a ≡ ok b → a ≡ b
ok-injective h = cc

-- An error is no result.
pub err_absurd {ℓ ℓ'} : {A : Type ℓ} {B : Type ℓ'} {e : Error} {a : A} → err e ≡ ok a → B
err_absurd h = cc h

pub Result-cases {ℓ} :
    {A : Type ℓ} (r : Result A) → ((a : A) × (r ≡ ok a)) ⊎ ((e : Error) × (r ≡ err e))
Result-cases (ok a) = inl (a, refl)
Result-cases (err e) = inr (e, refl)

-- `context`: the value, or the error with this message.
abbrev pub context {κ} : {T : Type κ} → Option T → String → Result T
context (some value) why = ok value
context none why = err (message why)

-- `ensure!` with its message
abbrev pub ensure : Bool → String → Result (Unit {0})
ensure condition why = require condition (message why)

pub context-eq-ok {κ} :
    {T : Type κ} (o : Option T) (why : String) {value : T}
    → context o why ≡ ok value
    → o ≡ some value
context-eq-ok none why h = cc
context-eq-ok (some t) why h = cc

pub ensure-eq-ok : (b : Bool) (why : String) {u : Unit {0}} → ensure b why ≡ ok u → b ≡ true
ensure-eq-ok true why h = refl
ensure-eq-ok false why h = cc

-- The steps of a chain that succeeds.
pub >>=-ok :
    {A B : Type 0} {r : Result A} {a : A} (f : A → Result B) {s : Result B}
    → r ≡ ok a
    → f a ≡ s
    → (r >>= f) ≡ s
>>=-ok f e h = ap (λ x. x >>= f) e ∙ h

pub ensure-ok : {b : Bool} (why : String) → b ≡ true → ensure b why ≡ ok tt
ensure-ok why e = ap (λ x. ensure x why) e

pub context-ok :
    {A : Type 0} {o : Option A} {a : A} (why : String) → o ≡ some a → context o why ≡ ok a
context-ok why e = ap (λ x. context x why) e
