-- ===== src/Prelude/Order.antt =====
-- `Ord`, as `BTreeMap` and `sort` ask for it, with the orders of numbers, texts and pairs.
use Prim.Native.Nat.{ℕ, compare, Ordering}
use Prim.Native.Nat.Ordering.{lt, eq, gt}
use mathlib.Core.Path.{◌≡◌, refl}
use mathlib.Core.Logic.{◌⊎◌, inl, inr}
use mathlib.Core.List.{List, [], ◌∷◌}
use native.Mathlib.Omega.{arith}

abbrev pub flip : Ordering → Ordering
flip lt = gt
flip eq = eq
flip gt = lt

abbrev pub then_cmp : Ordering → Ordering → Ordering
then_cmp lt o = lt
then_cmp eq o = o
then_cmp gt o = gt

-- The contract of `cmp`: turned around it gives the opposite answer, and so on.
pub record IsOrder {κ} {T : Type κ} (cmp : T → T → Ordering) : Type κ where
  pub cmp_flip : (x y : T) → cmp y x ≡ flip (cmp x y)
  pub eq_of_cmp : (x y : T) → cmp x y ≡ eq → x ≡ y
  pub lt_trans : (x y z : T) → cmp x y ≡ lt → cmp y z ≡ lt → cmp x z ≡ lt
  pub cmp_refl : (x : T) → cmp x x ≡ eq

pub record Ord {κ} (T : Type κ) : Type κ where
  pub cmp : T → T → Ordering
  pub lawful : IsOrder cmp
  pub open lawful use *

pub nat-IsOrder : IsOrder compare
nat-IsOrder = record {
  cmp_flip = λ x y. ground arith;
  eq_of_cmp = λ x y h. ground arith;
  lt_trans = λ x y z p q. ground arith;
  cmp_refl = λ x. ground arith;
}

instance unfoldable pub nat_ord : Ord ℕ
nat_ord = record { cmp = compare; lawful = nat-IsOrder }

-- Texts compare by their characters, a proper prefix first.
unfoldable pub text_cmp : List ℕ → List ℕ → Ordering
text_cmp [] [] = eq
text_cmp [] (b ∷ bs) = lt
text_cmp (a ∷ as') [] = gt
text_cmp (a ∷ as') (b ∷ bs) = then_cmp (compare a b) (text_cmp as' bs)

text_cmp_refl : (a : List ℕ) → text_cmp a a ≡ eq
unfolding text_cmp
text_cmp_refl [] = refl
text_cmp_refl (a ∷ as') = ground (arith, text_cmp_refl as')

eq_of_text_cmp : (a b : List ℕ) → text_cmp a b ≡ eq → a ≡ b
unfolding text_cmp
eq_of_text_cmp [] [] h = refl
eq_of_text_cmp [] (b ∷ bs) h = ground arith
eq_of_text_cmp (a ∷ as') [] h = ground arith
eq_of_text_cmp (a ∷ as') (b ∷ bs) h = ground (arith, eq_of_text_cmp as' bs)

text_cmp-flip : (a b : List ℕ) → text_cmp b a ≡ flip (text_cmp a b)
unfolding text_cmp
text_cmp-flip [] [] = refl
text_cmp-flip [] (b ∷ bs) = refl
text_cmp-flip (a ∷ as') [] = refl
text_cmp-flip (a ∷ as') (b ∷ bs) = ground (arith, text_cmp-flip as' bs)

text_lt_trans : (a b c : List ℕ) → text_cmp a b ≡ lt → text_cmp b c ≡ lt → text_cmp a c ≡ lt
unfolding text_cmp
text_lt_trans [] [] c p q = q
text_lt_trans [] (b ∷ bs) [] p q = ground arith
text_lt_trans [] (b ∷ bs) (c ∷ cs) p q = refl
text_lt_trans (a ∷ as') [] c p q = ground arith
text_lt_trans (a ∷ as') (b ∷ bs) [] p q = ground arith
text_lt_trans (a ∷ as') (b ∷ bs) (c ∷ cs) p q = ground (arith, text_lt_trans as' bs cs)

pub text-IsOrder : IsOrder text_cmp
text-IsOrder = record {
  cmp_refl = text_cmp_refl;
  eq_of_cmp = eq_of_text_cmp;
  cmp_flip = text_cmp-flip;
  lt_trans = text_lt_trans;
}

instance unfoldable pub text_ord : Ord (List ℕ)
unfolding text_cmp
text_ord = record { cmp = text_cmp; lawful = text-IsOrder }

module _ {ℓ κ} {A : Type ℓ} {B : Type κ} ⦃a : Ord A⦄ ⦃b : Ord B⦄ where
  -- Pairs compare by their first parts first.
  abbrev pub pair_cmp : A × B → A × B → Ordering
  pair_cmp x y = then_cmp (a.cmp x.0 y.0) (b.cmp x.1 y.1)

  pub pair-IsOrder : IsOrder {T = A × B} pair_cmp
  pair-IsOrder = record {
    cmp_refl = λ x. ground (arith, a.cmp_refl x.0, b.cmp_refl x.1);
    eq_of_cmp = λ x y h. ground (arith, a.eq_of_cmp x.0 y.0, b.eq_of_cmp x.1 y.1);
    cmp_flip = λ x y. ground (arith, a.cmp_flip x.0 y.0, b.cmp_flip x.1 y.1);
    lt_trans = λ x y z p q. grind (
      arith,
      a.eq_of_cmp x.0 y.0,
      a.eq_of_cmp y.0 z.0,
      a.lt_trans x.0 y.0 z.0,
      b.lt_trans x.1 y.1 z.1,
    );
  }

  instance unfoldable pub pair_ord : Ord (A × B)
  pair_ord = record { cmp = pair_cmp; lawful = pair-IsOrder }

pub Ordering-cases : (o : Ordering) → (o ≡ lt) ⊎ ((o ≡ eq) ⊎ (o ≡ gt))
Ordering-cases lt = inl refl
Ordering-cases eq = inr (inl refl)
Ordering-cases gt = inr (inr refl)
