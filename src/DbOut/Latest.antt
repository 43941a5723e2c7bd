-- ===== src/DbOut/Latest.antt =====
-- About the maps of src/db_out.rs: of each key the change of greatest ordinal is kept, and of those
-- of one ordinal the last.
use substreams_evm_state.Prelude.{
  ℕ, ◌≤◌, ◌<◌, ◌≡◌, ◌≢◌, ◌↔◌, ◌⊎◌, inl, inr, refl, ap, ◌∙◌, Bool, true, false, Option, none, some,
  List, [], ◌∷◌, arith, bytes_eq_iff, eq_of_bytes_eq, leb, if◌then◌else◌, Bool-cases, All,
}
use substreams_evm_state.DbOut.{update, find, newer, Slot, slot_eq}

-- The value that is kept of a list: what comes before it is not later, what comes after it is
-- earlier.
abbrev pub IsLast : {V : Type 0} → List (ℕ × V) → ℕ × V → Type 0
IsLast [] e = ⊥
IsLast (x ∷ xs) e = ((x ≡ e) × All (λ y. y.0 < e.0) xs) ⊎ ((x.0 ≤ e.0) × IsLast xs e)

-- Of no value none is kept, and of one or more one.
abbrev pub IsBest : {V : Type 0} → List (ℕ × V) → Option (ℕ × V) → Type 0
IsBest xs none = xs ≡ []
IsBest xs (some e) = IsLast xs e

-- What a run of `newer` keeps.
unfoldable pub best : {V : Type 0} → Option (ℕ × V) → List (ℕ × V) → Option (ℕ × V)
best o [] = o
best o (x ∷ xs) = best (some (newer x o)) xs

some_eq : {A : Type 0} {a b : A} → some a ≡ some b → a ≡ b
some_eq h = cc h

module _ {V : Type 0} where
  before : (e y : ℕ × V) (ys : List (ℕ × V)) (n : ℕ) → IsLast (y ∷ ys) e → n ≤ y.0 → n ≤ e.0
  before e y ys n (inl (p, a)) l = let r = ap (λ (t : ℕ × V). t.0) p in omega (arith, r, l)
  before e y ys n (inr (m, k)) l = omega (arith, m, l)

  kept :
      (s x : ℕ × V) (xs : List (ℕ × V)) (e : ℕ × V)
      → IsLast (newer x (some s) ∷ xs) e
      → IsLast (s ∷ x ∷ xs) e
  unfolding newer
  kept s x xs e h = elim (Bool-cases (leb s.0 x.0)) [
    | inl q ↦
        let h' : IsLast (x ∷ xs) e = rw q at h in inr (before e x xs s.0 h' (ground (arith, q)), h')
    | inr q ↦
        let h' : IsLast (s ∷ xs) e = rw q at h in
        let l : x.0 < s.0 = ground (arith, q) in
        elim h' [
          | inl (p, a) ↦ let r = ap (λ (t : ℕ × V). t.0) p in inl (p, (omega (arith, l, r), a))
          | inr (m, k) ↦ inr (m, inr (omega (arith, l, m), k))
        ]
  ]

  best-IsLast :
      (s : ℕ × V) (xs : List (ℕ × V)) (e : ℕ × V) → best (some s) xs ≡ some e → IsLast (s ∷ xs) e
  unfolding best
  best-IsLast s [] e h = inl (some_eq h, tt)
  best-IsLast s (x ∷ xs) e h = kept s x xs e (best-IsLast (newer x (some s)) xs e h)

  -- A run from nothing keeps the last of the greatest.
  pub best-IsBest : (xs : List (ℕ × V)) (o : Option (ℕ × V)) → best none xs ≡ o → IsBest xs o
  unfolding best newer
  best-IsBest [] none h = refl
  best-IsBest [] (some e) h = cc h
  best-IsBest (x ∷ xs) none h = absurd (best_some x xs h)
    where
      best_some : (s : ℕ × V) (xs : List (ℕ × V)) → best (some s) xs ≢ none
      best_some s [] q = cc q
      best_some s (x ∷ xs) q = best_some (newer x (some s)) xs q
  best-IsBest (x ∷ xs) (some e) h = best-IsLast x xs e h

-- A test of keys that is their equality.
abbrev pub IsEquality : {K : Type 0} → (K → K → Bool) → Type 0
IsEquality {K} same = (j k : K) → (same j k ≡ true) ↔ (j ≡ k)

module _ {K V : Type 0} (same : K → K → Bool) (same_iff : IsEquality same) where
  pub find-update :
      (k j : K) (f : Option V → V) (m : List (K × V))
      → find same k (update same j f m)
        ≡ (if same j k then some (f (find same j m)) else find same k m)
  unfolding find update
  find-update k j f [] = refl
  find-update k j f ((i, v) ∷ m) =
      ground (arith, same_iff i j, same_iff i k, same_iff j k, find-update k j f m)

  -- The keys are there once.
  abbrev pub IsOnce : List (K × V) → Type 0
  IsOnce [] = Unit
  IsOnce ((j, v) ∷ m) = (find same j m ≡ none) × IsOnce m

  pub update-IsOnce :
      (j : K) (f : Option V → V) (m : List (K × V)) → IsOnce m → IsOnce (update same j f m)
  unfolding find update
  update-IsOnce j f [] h = (refl, tt)
  update-IsOnce j f ((i, v) ∷ m) h = elim (Bool-cases (same i j)) [
    | inl e ↦ rw e h
    | inr e ↦
        let e' : same j i ≡ false = ground (arith, same_iff i j, same_iff j i, e) in
        let q = find-update i j f m in rw e ((q ∙ rw e' h.0), update-IsOnce j f m h.1)
  ]

pub slot_eq_iff : IsEquality slot_eq
unfolding slot_eq
slot_eq_iff (a, b) (c, d) = (
  λ h.
      let p : a ≡ c = eq_of_bytes_eq a c (ground (arith, h)) in
      let q : b ≡ d = eq_of_bytes_eq b d (ground (arith, h)) in λ i. (p i, q i),
  λ h.
      let p = (bytes_eq_iff a c).1 (ap (λ (s : Slot). s.0) h) in
      let q = (bytes_eq_iff b d).1 (ap (λ (s : Slot). s.1) h) in rw (p, q) refl,
)
