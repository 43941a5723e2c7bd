-- ===== src/Params/Sorting.antt =====
-- `sort` on texts that differ: one ascending list for one set of texts.
use Prim.Native.Nat.Ordering.{lt}
use substreams_evm_state.Prelude.{
  ◌≡◌, ◌↔◌, ◌⊎◌, inl, inr, refl, sym, subst, List, [], ◌∷◌, Text, arith, All, All-mono, All-In, In,
}
use substreams_evm_state.Prelude.Order.{text_cmp, text-IsOrder, Ordering-cases}
use substreams_evm_state.Params.Words.{sort_insert, sort}

abbrev pub Below : Text → List Text → Type 0
Below t us = All (λ u. text_cmp t u ≡ lt) us

abbrev pub IsAscending : List Text → Type 0
IsAscending [] = Unit
IsAscending (t ∷ us) = Below t us × IsAscending us

abbrev pub IsDistinct : List Text → Type 0
IsDistinct [] = Unit
IsDistinct (t ∷ us) = (In t us → ⊥) × IsDistinct us

In-sort_insert : (t u : Text) (us : List Text) → In u (sort_insert t us) ↔ ((t ≡ u) ⊎ In u us)
unfolding sort_insert
In-sort_insert t u [] = (λ h. h, λ h. h)
In-sort_insert t u (v ∷ us) = let ih = In-sort_insert t u us in ground (arith, ih)

pub In-sort : (u : Text) (us : List Text) → In u (sort us) ↔ In u us
unfolding sort
In-sort u [] = (λ h. h, λ h. h)
In-sort u (t ∷ us) =
    let ih = In-sort u us in
    let at_head = In-sort_insert t u (sort us) in
    (
      λ h. elim (at_head.0 h) [ inl e ↦ inl e | inr m ↦ inr (ih.0 m) ],
      elim [ inl e ↦ at_head.1 (inl e) | inr m ↦ at_head.1 (inr (ih.1 m)) ],
    )

Below-sort_insert :
    (s t : Text) (us : List Text) → text_cmp s t ≡ lt → Below s us → Below s (sort_insert t us)
unfolding sort_insert
Below-sort_insert s t [] h b = (h, tt)
Below-sort_insert s t (u ∷ us) h b = ground (arith, Below-sort_insert s t us h b.1)

Below-trans : (s t : Text) (us : List Text) → text_cmp s t ≡ lt → Below t us → Below s us
Below-trans s t us h =
    All-mono (λ u. text_cmp t u ≡ lt) (λ u. text_cmp s u ≡ lt)
      (λ u k. text-IsOrder.lt_trans s t u h k) us

sort_insert-IsAscending :
    (t : Text) (us : List Text) → (In t us → ⊥) → IsAscending us → IsAscending (sort_insert t us)
unfolding sort_insert
sort_insert-IsAscending t [] n a = (tt, tt)
sort_insert-IsAscending t (u ∷ us) n a =
    let rest = sort_insert-IsAscending t us (λ m. n (inr m)) a.1 in
    elim (Ordering-cases (text_cmp t u)) [
      | inl below ↦ rw (below, sort_insert) ((below, Below-trans t u us below a.0), a)
      | inr (inl same) ↦ absurd (n (inl (sym (text-IsOrder.eq_of_cmp t u same))))
      | inr (inr above) ↦
          rw (above, sort_insert)
            (Below-sort_insert u t us (ground (arith, text-IsOrder.cmp_flip t u, above)) a.0, rest)
    ]

pub sort-IsAscending : (us : List Text) → IsDistinct us → IsAscending (sort us)
unfolding sort
sort-IsAscending [] d = tt
sort-IsAscending (t ∷ us) d =
    sort_insert-IsAscending t (sort us) (λ m. d.0 ((In-sort t us).0 m)) (sort-IsAscending us d.1)

text_lt_irrefl : (t : Text) → text_cmp t t ≡ lt → ⊥
text_lt_irrefl t h = cc (text-IsOrder.cmp_refl t)

Below-of_In : (t u : Text) (us : List Text) → Below t us → In u us → text_cmp t u ≡ lt
Below-of_In t u us b m = All-In (λ u. text_cmp t u ≡ lt) u us b m

heads_agree :
    (t u : Text) (ts us : List Text)
    → Below t ts
    → Below u us
    → In u (t ∷ ts)
    → In t (u ∷ us)
    → t ≡ u
heads_agree t u ts us a b (inl e) m = e
heads_agree t u ts us a b (inr m) (inl e) = sym e
heads_agree t u ts us a b (inr m) (inr n) = absurd (
    text_lt_irrefl t
      (text-IsOrder.lt_trans t u t (Below-of_In t u ts a m) (Below-of_In u t us b n)))

-- A member that is not the head is in the tail.
In-tail : (t w : Text) (ts us : List Text) → Below t ts → In w ts → (t ≡ w) ⊎ In w us → In w us
In-tail t w ts us a m (inl e) =
    absurd (text_lt_irrefl t (subst (λ x. text_cmp t x ≡ lt) (sym e) (Below-of_In t w ts a m)))
In-tail t w ts us a m (inr n) = n

-- Ascending lists with the same members are one list.
pub ascending_unique :
    (ts us : List Text)
    → IsAscending ts
    → IsAscending us
    → ((w : Text) → In w ts ↔ In w us)
    → ts ≡ us
ascending_unique [] [] a b h = refl
ascending_unique [] (u ∷ us) a b h = absurd ((h u).1 (inl refl))
ascending_unique (t ∷ ts) [] a b h = absurd ((h t).0 (inl refl))
ascending_unique (t ∷ ts) (u ∷ us) a b h =
    let e = heads_agree t u ts us a.0 b.0 ((h u).1 (inl refl)) ((h t).0 (inl refl)) in
    let tails = ascending_unique ts us a.1 b.1 (λ w. (
      λ m. In-tail t w ts us a.0 m (rw e ((h w).0 (inr m))),
      λ m. In-tail u w us ts b.0 m (rw (← e) ((h w).1 (inr m))),
    )) in
    cc
