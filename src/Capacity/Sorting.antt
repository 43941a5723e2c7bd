-- ===== src/Capacity/Sorting.antt =====
-- About the sorting and `dedup` of `roots` of crates/evm-state/src/capacity.rs.
use substreams_evm_state.Prelude.{
  ℕ, ◌≤◌, ◌≡◌, ◌↔◌, inl, inr, refl, true, List, [], ◌∷◌, arith, length, eq_of_bytes_eq, Bool-cases,
  All, All-mono, subst,
}
use substreams_evm_state.Capacity.Paths.{
  Path', path_eq, is_after, sort_insert, sort, dedup_after, dedup,
}

eq_of_path_eq : (p q : Path') → path_eq p q ≡ true → p ≡ q
unfolding path_eq
eq_of_path_eq [] [] h = refl
eq_of_path_eq [] (q ∷ qs) h = cc
eq_of_path_eq (p ∷ ps) [] h = cc
eq_of_path_eq (p ∷ ps) (q ∷ qs) h = ground (arith, eq_of_bytes_eq p q, eq_of_path_eq ps qs)

-- A path that another starts with is not longer, and of one length they are equal.
abbrev pub IsShortest : ℕ → List Path' → Type 0
IsShortest n ps = All (λ q. n ≤ length q) ps

-- Shorter paths come first.
abbrev pub IsByLength : List Path' → Type 0
IsByLength [] = Unit
IsByLength (p ∷ ps) = IsShortest (length p) ps × IsByLength ps

IsShortest-sort_insert :
    (n : ℕ) (p : Path') (ps : List Path')
    → n ≤ length p
    → IsShortest n ps
    → IsShortest n (sort_insert p ps)
unfolding sort_insert is_after
IsShortest-sort_insert n p [] l s = (l, tt)
IsShortest-sort_insert n p (q ∷ qs) l s = ground (arith, IsShortest-sort_insert n p qs l s.1)

pub IsShortest-le : (m n : ℕ) (ps : List Path') → m ≤ n → IsShortest n ps → IsShortest m ps
IsShortest-le m n ps l s =
    All-mono (λ q. n ≤ length q) (λ q. m ≤ length q) (λ q k. omega (arith, l, k)) ps s

sort_insert-IsByLength :
    (p : Path') (ps : List Path') → IsByLength ps → IsByLength (sort_insert p ps)
unfolding sort_insert is_after
sort_insert-IsByLength p [] s = (tt, tt)
sort_insert-IsByLength p (q ∷ qs) s = ground (
  arith,
  sort_insert-IsByLength p qs s.1,
  IsShortest-sort_insert (length q) p qs,
  IsShortest-le (length p) (length q) qs,
)

pub sort-IsByLength : (ps : List Path') → IsByLength (sort ps)
unfolding sort
sort-IsByLength [] = tt
sort-IsByLength (p ∷ ps) = sort_insert-IsByLength p (sort ps) (sort-IsByLength ps)

module _ (P : Path' → Type 0) where
  sort_insert_all : (p : Path') (ps : List Path') → All P (sort_insert p ps) ↔ (P p × All P ps)
  unfolding sort_insert
  sort_insert_all p [] = (λ h. h, λ h. h)
  sort_insert_all p (q ∷ qs) =
      let ih = sort_insert_all p qs in
      elim (Bool-cases (is_after p q)) [
        | inl e ↦
            rw e ((λ h. ((ih.0 h.1).0, (h.0, (ih.0 h.1).1))), (λ h. (h.1.0, ih.1 (h.0, h.1.1))))
        | inr e ↦ rw e ((λ h. h), (λ h. h))
      ]

  pub sort_all : (ps : List Path') → All P (sort ps) ↔ All P ps
  unfolding sort
  sort_all [] = (λ h. h, λ h. h)
  sort_all (p ∷ ps) =
      let s = sort_insert_all p (sort ps) in
      let ih = sort_all ps in ((λ h. ((s.0 h).0, ih.0 (s.0 h).1)), (λ h. s.1 (h.0, ih.1 h.1)))

  dedup_after_all : (p : Path') (ps : List Path') → P p → All P (dedup_after p ps) ↔ All P ps
  unfolding dedup_after
  dedup_after_all p [] h = (λ k. k, λ k. k)
  dedup_after_all p (q ∷ qs) h = elim (Bool-cases (path_eq p q)) [
    | inl e ↦
        let ih = dedup_after_all p qs h in
        rw e ((λ k. (subst P (eq_of_path_eq p q e) h, ih.0 k)), (λ k. ih.1 k.1))
    | inr e ↦ rw e (
      (λ k. (k.0, (dedup_after_all q qs k.0).0 k.1)),
      (λ k. (k.0, (dedup_after_all q qs k.0).1 k.1)),
    )
  ]

  pub dedup_all : (ps : List Path') → All P (dedup ps) ↔ All P ps
  unfolding dedup
  dedup_all [] = (λ k. k, λ k. k)
  dedup_all (p ∷ ps) = (
    (λ k. (k.0, (dedup_after_all p ps k.0).0 k.1)),
    (λ k. (k.0, (dedup_after_all p ps k.0).1 k.1)),
  )

dedup_after-IsByLength :
    (p : Path') (ps : List Path')
    → IsShortest (length p) ps
    → IsByLength ps
    → IsShortest (length p) (dedup_after p ps) × IsByLength (dedup_after p ps)
unfolding dedup_after
dedup_after-IsByLength p [] s b = (tt, tt)
dedup_after-IsByLength p (q ∷ qs) s b = elim (Bool-cases (path_eq p q)) [
  | inl e ↦ rw e (dedup_after-IsByLength p qs s.1 b.1)
  | inr e ↦
      let ih = dedup_after-IsByLength q qs b.0 b.1 in
      rw e ((s.0, IsShortest-le (length p) (length q) (dedup_after q qs) s.0 ih.0), (ih.0, ih.1))
]

pub dedup-IsByLength : (ps : List Path') → IsByLength ps → IsByLength (dedup ps)
unfolding dedup
dedup-IsByLength [] b = tt
dedup-IsByLength (p ∷ ps) b = dedup_after-IsByLength p ps b.0 b.1
