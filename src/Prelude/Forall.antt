-- ===== src/Prelude/Forall.antt =====
-- A predicate of every element, and of some element, by recursion.
use mathlib.Core.Path.{◌≡◌, refl}
use mathlib.Core.Logic.{◌⊎◌, ◌↔◌, inl, inr}
use mathlib.Core.Bool.{Bool, true, false≢true}
use mathlib.Core.List.{List, [], ◌∷◌, ◌++◌, map}
use native.Mathlib.Omega.{arith}
use substreams_evm_state.Prelude.Tests.{Bool-cases}
use substreams_evm_state.Prelude.Lists.{Bytes, filter, bytes_eq, eq_of_bytes_eq, contains}

abbrev pub All {ℓ κ} : {A : Type ℓ} → (A → Type κ) → List A → Type κ
All P [] = Unit
All P (x ∷ xs) = P x × All P xs

-- Where the element stands in the list is kept.
abbrev pub Any {ℓ} : {A : Type ℓ} → (A → Type 0) → List A → Type 0
Any P [] = ⊥
Any P (x ∷ xs) = P x ⊎ Any P xs

-- `a` is an element.
abbrev pub In : {A : Type 0} → A → List A → Type 0
In a xs = Any (λ x. x ≡ a) xs

module _ {ℓ κ} {A : Type ℓ} (P : A → Type κ) where
  pub All-append : (xs ys : List A) → All P xs → All P ys → All P (xs ++ ys)
  All-append [] ys h k = k
  All-append (x ∷ xs) ys h k = (h.0, All-append xs ys h.1 k)

  pub All-filter : (p : A → Bool) (xs : List A) → All P xs → All P (filter p xs)
  unfolding filter
  All-filter p [] h = tt
  All-filter p (x ∷ xs) h = elim (Bool-cases (p x)) [
    | inl e ↦ rw e (h.0, All-filter p xs h.1)
    | inr e ↦ rw e (All-filter p xs h.1)
  ]

  pub All-mono {μ} : (Q : A → Type μ) → ((x : A) → P x → Q x) → (xs : List A) → All P xs → All Q xs
  All-mono Q f [] h = tt
  All-mono Q f (x ∷ xs) h = (f x h.0, All-mono Q f xs h.1)

  pub All-intro : ((x : A) → P x) → (xs : List A) → All P xs
  All-intro f [] = tt
  All-intro f (x ∷ xs) = (f x, All-intro f xs)

-- What passes a filter passed the test.
pub All-filter_test {ℓ} :
    {A : Type ℓ} (p : A → Bool) (xs : List A) → All (λ x. p x ≡ true) (filter p xs)
unfolding filter
All-filter_test p [] = tt
All-filter_test p (x ∷ xs) = elim (Bool-cases (p x)) [
  | inl e ↦ rw e (e, All-filter_test p xs)
  | inr e ↦ rw e (All-filter_test p xs)
]

-- What holds of the image of each element that passes holds of all that is kept.
pub All-map_filter {ℓ κ μ} :
    {A : Type ℓ} {B : Type κ} (P : B → Type μ) (f : A → B) (p : A → Bool)
    → ((x : A) → p x ≡ true → P (f x))
    → (xs : List A) → All P (map f (filter p xs))
unfolding filter
All-map_filter P f p h [] = tt
All-map_filter P f p h (x ∷ xs) = elim (Bool-cases (p x)) [
  | inl e ↦ rw e (h x e, All-map_filter P f p h xs)
  | inr e ↦ rw e (All-map_filter P f p h xs)
]

-- What holds of every element holds of an element.
pub All-In : {A : Type 0} (P : A → Type 0) (a : A) (xs : List A) → All P xs → In a xs → P a
All-In P a [] h m = absurd m
All-In P a (x ∷ xs) h (inl e) = rw e at (h.0)
All-In P a (x ∷ xs) h (inr m) = All-In P a xs h.1 m

pub All-intro_in :
    {A : Type 0} (P : A → Type 0) (xs : List A) → ((x : A) → In x xs → P x) → All P xs
All-intro_in P [] f = tt
All-intro_in P (x ∷ xs) f = (f x (inl refl), All-intro_in P xs (λ y i. f y (inr i)))

pub All-map_filter_in {κ μ} :
    {A : Type 0} {B : Type κ} (P : B → Type μ) (f : A → B) (p : A → Bool) (xs : List A)
    → ((x : A) → In x xs → p x ≡ true → P (f x))
    → All P (map f (filter p xs))
unfolding filter
All-map_filter_in P f p [] h = tt
All-map_filter_in P f p (x ∷ xs) h = elim (Bool-cases (p x)) [
  | inl e ↦ rw e (h x (inl refl) e, All-map_filter_in P f p xs (λ y i. h y (inr i)))
  | inr e ↦ rw e (All-map_filter_in P f p xs (λ y i. h y (inr i)))
]

pub In-of_contains : (s : List Bytes) (a : Bytes) → contains s a ≡ true → In a s
unfolding contains
In-of_contains [] a h = cc
In-of_contains (b ∷ s) a h = elim (Bool-cases (bytes_eq b a)) [
  | inl e ↦ inl (eq_of_bytes_eq b a e)
  | inr e ↦ inr (In-of_contains s a (ground (arith, e, h)))
]

module _ {ℓ} {A : Type ℓ} (P : A → Type 0) where
  pub Any-append : (xs ys : List A) → Any P (xs ++ ys) ↔ (Any P xs ⊎ Any P ys)
  Any-append [] ys = (λ h. inr h, elim [ inl h ↦ absurd h | inr h ↦ h ])
  Any-append (x ∷ xs) ys =
      let ih = Any-append xs ys in
      (
        elim [
          | inl h ↦ inl (inl h)
          | inr h ↦ elim (ih.0 h) [ inl k ↦ inl (inr k) | inr k ↦ inr k ]
        ],
        elim [
          | inl (inl h) ↦ inl h
          | inl (inr h) ↦ inr (ih.1 (inl h))
          | inr h ↦ inr (ih.1 (inr h))
        ],
      )

-- Something holds of what is kept exactly if it holds of the image of an element that passes.
pub Any-map_filter {ℓ κ} :
    {A : Type ℓ} {B : Type κ} (P : B → Type 0) (f : A → B) (p : A → Bool) (xs : List A)
    → Any P (map f (filter p xs)) ↔ Any (λ x. (p x ≡ true) × P (f x)) xs
unfolding filter
Any-map_filter P f p [] = (λ h. h, λ h. h)
Any-map_filter P f p (x ∷ xs) =
    let ih = Any-map_filter P f p xs in
    elim (Bool-cases (p x)) [
      | inl e ↦ rw e (
        elim [ inl h ↦ inl (refl, h) | inr h ↦ inr (ih.0 h) ],
        elim [ inl h ↦ inl h.1 | inr h ↦ inr (ih.1 h) ],
      )
      | inr e ↦ rw e (λ h. inr (ih.0 h), elim [ inl h ↦ absurd (false≢true h.0) | inr h ↦ ih.1 h ])
    ]

pub Any-mono {ℓ} :
    {A : Type ℓ} (P Q : A → Type 0) → ((x : A) → P x → Q x) → (xs : List A) → Any P xs → Any Q xs
Any-mono P Q f [] h = h
Any-mono P Q f (x ∷ xs) (inl h) = inl (f x h)
Any-mono P Q f (x ∷ xs) (inr h) = inr (Any-mono P Q f xs h)

pub Any-none {ℓ} : {A : Type ℓ} (P : A → Type 0) → ((x : A) → ¬ P x) → (xs : List A) → ¬ Any P xs
Any-none P f [] h = h
Any-none P f (x ∷ xs) (inl h) = f x h
Any-none P f (x ∷ xs) (inr h) = Any-none P f xs h
