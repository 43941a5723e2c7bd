-- ===== src/Prelude/StableSort.antt =====
-- `sort_by_key` on lists: stable, by a number.
use Prim.Native.Nat.{ℕ, ◌≤◌}
use mathlib.Core.Path.{◌≡◌, refl}
use mathlib.Core.Logic.{inl, inr}
use mathlib.Core.List.{List, [], ◌∷◌}
use native.Mathlib.Omega.{arith}
use substreams_evm_state.Prelude.Tests.{leb, ◌==◌, if◌then◌else◌, Bool-cases}
use substreams_evm_state.Prelude.Lists.{filter}
use substreams_evm_state.Prelude.Forall.{All, All-mono}

module _ {ℓ} {A : Type ℓ} (key : A → ℕ) where
  -- Before the first element whose key is not smaller.
  unfoldable pub insert_by : A → List A → List A
  insert_by x [] = x ∷ []
  insert_by x (y ∷ ys) = if leb (key x) (key y) then x ∷ y ∷ ys else y ∷ insert_by x ys

  unfoldable pub sort_by : List A → List A
  sort_by [] = []
  sort_by (x ∷ xs) = insert_by x (sort_by xs)

  abbrev pub IsSortedBy : List A → Type 0
  IsSortedBy [] = Unit
  IsSortedBy (x ∷ xs) = All (λ y. key x ≤ key y) xs × IsSortedBy xs

  All-insert_by : (P : A → Type 0) (x : A) (ys : List A) → P x → All P ys → All P (insert_by x ys)
  unfolding insert_by
  All-insert_by P x [] p a = (p, tt)
  All-insert_by P x (y ∷ ys) p a = elim (Bool-cases (leb (key x) (key y))) [
    | inl e ↦ rw e (p, a)
    | inr e ↦ rw e (a.0, All-insert_by P x ys p a.1)
  ]

  pub All-sort_by : (P : A → Type 0) (xs : List A) → All P xs → All P (sort_by xs)
  unfolding sort_by
  All-sort_by P [] a = tt
  All-sort_by P (x ∷ xs) a = All-insert_by P x (sort_by xs) a.0 (All-sort_by P xs a.1)

  insert_by-IsSortedBy : (x : A) (ys : List A) → IsSortedBy ys → IsSortedBy (insert_by x ys)
  unfolding insert_by
  insert_by-IsSortedBy x [] s = (tt, tt)
  insert_by-IsSortedBy x (y ∷ ys) s = elim (Bool-cases (leb (key x) (key y))) [
    | inl e ↦
        let le : key x ≤ key y = ground (arith, e) in
        let below =
          All-mono (λ z. key y ≤ key z) (λ z. key x ≤ key z) (λ z k. omega arith) ys s.0 in
        rw e ((le, below), s)
    | inr e ↦ rw e (
      All-insert_by (λ z. key y ≤ key z) x ys (ground (arith, e)) s.0,
      insert_by-IsSortedBy x ys s.1,
    )
  ]

  -- The keys of the result ascend.
  pub sort_by-IsSortedBy : (xs : List A) → IsSortedBy (sort_by xs)
  unfolding sort_by
  sort_by-IsSortedBy [] = tt
  sort_by-IsSortedBy (x ∷ xs) = insert_by-IsSortedBy x (sort_by xs) (sort_by-IsSortedBy xs)

  -- The elements of one key keep their order, and none is lost or added.
  abbrev pub at_key : ℕ → List A → List A
  at_key k = filter (λ x. key x == k)

  at_key-insert_by : (k : ℕ) (x : A) (ys : List A) → at_key k (insert_by x ys) ≡ at_key k (x ∷ ys)
  unfolding insert_by filter
  at_key-insert_by k x [] = refl
  at_key-insert_by k x (y ∷ ys) = ground (arith, at_key-insert_by k x ys)

  pub at_key-sort_by : (k : ℕ) (xs : List A) → at_key k (sort_by xs) ≡ at_key k xs
  unfolding sort_by filter
  at_key-sort_by k [] = refl
  at_key-sort_by k (x ∷ xs) = ground (arith, at_key-insert_by k x (sort_by xs), at_key-sort_by k xs)
