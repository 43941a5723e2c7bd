-- ===== src/Capacity/Roots.antt =====
-- About `roots` of crates/evm-state/src/capacity.rs.
use substreams_evm_state.Prelude.{
  ◌≤◌, ◌≡◌, inl, inr, refl, sym, ◌∙◌, false≢true, Bool, true, false, List, [], ◌∷◌, ◌++◌, arith,
  length, any, bytes_eq_refl, eq_of_bytes_eq, Bool-cases, if◌then◌else◌, All, All-append, All-intro,
  All-intro_in, Any, Any-append, In, subst,
}
use substreams_evm_state.Capacity.Paths.{Path', starts_with, sort, dedup, add_roots, roots}
use substreams_evm_state.Capacity.Sorting.{
  IsShortest, IsByLength, sort-IsByLength, sort_all, dedup_all, dedup-IsByLength,
}

starts_with_self : (p : Path') → starts_with p p ≡ true
unfolding starts_with
starts_with_self [] = refl
starts_with_self (p ∷ ps) = ground (arith, bytes_eq_refl p, starts_with_self ps)

length-starts_with : (p q : Path') → starts_with p q ≡ true → length q ≤ length p
unfolding starts_with
length-starts_with p [] h = omega arith
length-starts_with [] (q ∷ qs) h = cc
length-starts_with (p ∷ ps) (q ∷ qs) h = ground (arith, length-starts_with ps qs)

eq_of_starts_with : (p q : Path') → starts_with p q ≡ true → length p ≤ length q → p ≡ q
unfolding starts_with
eq_of_starts_with [] [] h l = refl
eq_of_starts_with (p ∷ ps) [] h l = absurd (omega (arith, l))
eq_of_starts_with [] (q ∷ qs) h l = cc
eq_of_starts_with (p ∷ ps) (q ∷ qs) h l =
    ground (arith, eq_of_bytes_eq p q, eq_of_starts_with ps qs)

add_roots_all :
    (P : Path' → Type 0) (ps result : List Path')
    → All P ps
    → All P result
    → All P (add_roots ps result)
unfolding add_roots
add_roots_all P [] result h k = k
add_roots_all P (p ∷ ps) result h k =
    elim (Bool-cases (any (λ parent. starts_with p parent) result)) [
      | inl e ↦ rw e (add_roots_all P ps result h.1 k)
      | inr e ↦
          rw e
            (add_roots_all P ps (result ++ p ∷ []) h.1 (All-append P result (p ∷ []) k (h.0, tt)))
    ]

-- Some root is the path or above it.
abbrev pub IsCovered : List Path' → Path' → Type 0
IsCovered rs p = Any (λ r. starts_with p r ≡ true) rs

Any-any : {A : Type 0} (f : A → Bool) (xs : List A) → any f xs ≡ true → Any (λ x. f x ≡ true) xs
unfolding any
Any-any f [] h = cc
Any-any f (x ∷ xs) h = elim (Bool-cases (f x)) [
  | inl e ↦ inl e
  | inr e ↦ inr (Any-any f xs (ground (arith, e, h)))
]

All-any : {A : Type 0} (f : A → Bool) (xs : List A) → any f xs ≡ false → All (λ x. f x ≡ false) xs
unfolding any
All-any f [] h = tt
All-any f (x ∷ xs) h = elim (Bool-cases (f x)) [
  | inl e ↦ absurd (false≢true (sym h ∙ ground (arith, e)))
  | inr e ↦ (e, All-any f xs (ground (arith, e, h)))
]

add_roots_keeps :
    (p : Path') (ps result : List Path') → IsCovered result p → IsCovered (add_roots ps result) p
unfolding add_roots
add_roots_keeps p [] result h = h
add_roots_keeps p (q ∷ qs) result h =
    elim (Bool-cases (any (λ parent. starts_with q parent) result)) [
      | inl e ↦ rw e (add_roots_keeps p qs result h)
      | inr e ↦ rw e (
          add_roots_keeps p qs (result ++ q ∷ [])
            ((Any-append (λ r. starts_with p r ≡ true) result (q ∷ [])).1 (inl h)))
    ]

covered :
    (p : Path') (result : List Path')
    → IsCovered (if any (λ parent. starts_with p parent) result then result else result ++ p ∷ []) p
covered p result = elim (Bool-cases (any (λ parent. starts_with p parent) result)) [
  | inl e ↦ rw e (Any-any (λ parent. starts_with p parent) result e)
  | inr e ↦ rw e (
      (Any-append (λ r. starts_with p r ≡ true) result (p ∷ [])).1 (inr (inl (starts_with_self p))))
]

add_roots-IsCovered : (ps result : List Path') → All (IsCovered (add_roots ps result)) ps
unfolding add_roots
add_roots-IsCovered [] result = tt
add_roots-IsCovered (p ∷ ps) result = (
  add_roots_keeps p ps
      (if any (λ parent. starts_with p parent) result then result else result ++ p ∷ [])
      (covered p result),
  add_roots-IsCovered ps
      (if any (λ parent. starts_with p parent) result then result else result ++ p ∷ []),
)

-- Neither path is the other one or above it.
abbrev pub IsApart : Path' → Path' → Type 0
IsApart p q = (starts_with p q ≡ false) × (starts_with q p ≡ false)

abbrev pub IsAntichain : List Path' → Type 0
IsAntichain [] = Unit
IsAntichain (r ∷ rs) = All (IsApart r) rs × IsAntichain rs

IsAntichain-append :
    (rs : List Path') (p : Path')
    → IsAntichain rs
    → All (λ r. IsApart r p) rs
    → IsAntichain (rs ++ p ∷ [])
IsAntichain-append [] p h k = (tt, tt)
IsAntichain-append (r ∷ rs) p h k =
    (All-append (IsApart r) rs (p ∷ []) h.0 (k.0, tt), IsAntichain-append rs p h.1 k.1)

-- A path that starts with none of the shorter ones is apart from them.
apart :
    (p : Path') (rs : List Path')
    → All (λ r. starts_with p r ≡ false) rs
    → All (λ r. length r ≤ length p) rs
    → All (λ r. IsApart r p) rs
apart p [] h l = tt
apart p (r ∷ rs) h l = elim (Bool-cases (starts_with r p)) [
  | inr e ↦ ((e, h.0), apart p rs h.1 l.1)
  | inl e ↦
      let q = eq_of_starts_with r p e l.0 in
      absurd
        (false≢true (sym h.0 ∙ subst (λ x. starts_with p x ≡ true) (sym q) (starts_with_self p)))
]

add_roots-IsAntichain :
    (ps result : List Path')
    → IsByLength ps
    → All (λ p. All (λ r. length r ≤ length p) result) ps
    → IsAntichain result
    → IsAntichain (add_roots ps result)
unfolding add_roots
add_roots-IsAntichain [] result s l h = h
add_roots-IsAntichain (p ∷ ps) result s l h =
    elim (Bool-cases (any (λ parent. starts_with p parent) result)) [
      | inl e ↦ rw e (add_roots-IsAntichain ps result s.1 l.1 h)
      | inr e ↦ rw e (
          add_roots-IsAntichain ps (result ++ p ∷ []) s.1 (longer p ps result l.1 s.0) (
            IsAntichain-append result p h
              (apart p result (All-any (λ parent. starts_with p parent) result e) l.0)))
    ]
  where
    longer :
        (p : Path') (ps result : List Path')
        → All (λ q. All (λ r. length r ≤ length q) result) ps
        → IsShortest (length p) ps
        → All (λ q. All (λ r. length r ≤ length q) (result ++ p ∷ [])) ps
    longer p [] result l s = tt
    longer p (q ∷ qs) result l s = (
      All-append (λ r. length r ≤ length q) result (p ∷ []) l.0 (s.0, tt),
      longer p qs result l.1 s.1,
    )

-- The roots are among the paths, none of them is or lies under another, and each path is or lies
-- under one of them.
pub roots-IsAntichain :
    (paths : List Path')
    → All (λ r. In r paths) (roots paths)
      × IsAntichain (roots paths)
      × All (IsCovered (roots paths)) paths
unfolding roots
roots-IsAntichain paths = (
  add_roots_all (λ r. In r paths) (dedup (sort paths)) []
      ((dedup_all (λ r. In r paths) (sort paths)).1
        ((sort_all (λ r. In r paths) paths).1 (All-intro_in (λ r. In r paths) paths (λ x i. i))))
      tt,
  add_roots-IsAntichain (dedup (sort paths)) []
      (dedup-IsByLength (sort paths) (sort-IsByLength paths))
      (All-intro (λ p. All (λ (r : Path'). length r ≤ length p) []) (λ p. tt) (dedup (sort paths)))
      tt,
  (sort_all (IsCovered (roots paths)) paths).0 (
      (dedup_all (IsCovered (roots paths)) (sort paths)).0
        (add_roots-IsCovered (dedup (sort paths)) [])),
)
