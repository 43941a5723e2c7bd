-- ===== src/Lifecycle/Walk.antt =====
-- About the walk to the execution account of src/lifecycle.rs.
use substreams_evm_state.Prelude.{
  ℕ, zero, suc, ◌+◌, ◌≤◌, ◌<◌, ◌≡◌, ◌≢◌, inl, inr, refl, subst, ap, Bool, true, false, not, ◌&&◌,
  some, List, [], ◌∷◌, Bytes, arith, length, filter, length-filter-le, ◌==◌, All, All-In, All-mono,
  In, Bool-cases, Option-cases, ok, err, cyclic_ancestry, out_of_fuel,
}
use substreams_evm_state.Eth
use substreams_evm_state.Lifecycle.{is_delegated, find_parent, seen, walk, execution_address}

module _ (calls : List Eth.Call) where
  -- `r` is the call whose account the call `c` runs in: up the parents while the code is delegated.
  pub data Ancestor : Eth.Call → Eth.Call → Type 0 where
    here : {c : Eth.Call} → is_delegated c ≡ false → Ancestor c c
    up :
        {c p r : Eth.Call}
        → is_delegated c ≡ true
        → find_parent c calls ≡ some p
        → Ancestor p r
        → Ancestor c r

  -- The steps of the walk, by the call that it stands at.
  walk_sound :
      (fuel : ℕ) (visited : List ℕ) (c : Eth.Call) (a : Bytes)
      → walk fuel calls visited c ≡ ok a
      → (r : Eth.Call) × Ancestor c r × (r.address ≡ a)
  unfolding walk
  walk_sound zero visited c a h = cc
  walk_sound (suc fuel) visited c a h = elim (Bool-cases (is_delegated c)) [
    | inl e ↦ elim (Bool-cases (seen visited c.index)) [
      | inl s ↦ absurd (ground (arith, e, s, h))
      | inr s ↦ elim (Option-cases (find_parent c calls)) [
        | inl f ↦ absurd (ground (arith, e, s, f, h))
        | inr (p, f) ↦
            let (r, anc, q) =
              walk_sound fuel (c.index ∷ visited) p a (ground (arith, e, s, f, h)) in
            (r, up e f anc, q)
      ]
    ]
    | inr e ↦ (c, here e, ground (arith, e, h))
  ]

  In-find_parent : (c p : Eth.Call) (cs : List Eth.Call) → find_parent c cs ≡ some p → In p cs
  unfolding find_parent
  In-find_parent c p [] h = cc
  In-find_parent c p (d ∷ cs) h =
      elim (Bool-cases (d.index == c.parent_index && not (d.index == c.index))) [
        | inl e ↦ inl (ground (arith, e, h))
        | inr e ↦ inr (In-find_parent c p cs (ground (arith, e, h)))
      ]

-- The calls that the walk has not visited.
abbrev is_fresh : List ℕ → Eth.Call → Bool
is_fresh visited c = not (seen visited c.index)

fresh : List ℕ → List Eth.Call → ℕ
fresh visited cs = length (filter (is_fresh visited) cs)

fresh-le :
    (i : ℕ) (visited : List ℕ) (cs : List Eth.Call) → fresh (i ∷ visited) cs ≤ fresh visited cs
unfolding fresh filter seen
fresh-le i visited [] = omega arith
fresh-le i visited (c ∷ cs) = ground (arith, fresh-le i visited cs)

-- A visit to a call that was not visited leaves fewer.
fresh-lt :
    (c : Eth.Call) (visited : List ℕ) (cs : List Eth.Call)
    → In c cs
    → seen visited c.index ≡ false
    → fresh (c.index ∷ visited) cs < fresh visited cs
unfolding fresh filter seen
fresh-lt c visited [] m n = absurd m
fresh-lt c visited (d ∷ cs) (inl e) n =
    ground (arith, ap (λ (x : Eth.Call). x.index) e, fresh-le c.index visited cs)
fresh-lt c visited (d ∷ cs) (inr m) n = ground (arith, fresh-lt c visited cs m n)

walk_ends :
    (calls : List Eth.Call) (fuel : ℕ) (visited : List ℕ) (c : Eth.Call)
    → In c calls
    → fresh visited calls < fuel
    → walk fuel calls visited c ≢ err out_of_fuel
unfolding walk
walk_ends calls zero visited c m f h = absurd (omega arith)
walk_ends calls (suc fuel) visited c m f h = elim (Bool-cases (is_delegated c)) [
  | inl e ↦ elim (Bool-cases (seen visited c.index)) [
    | inl s ↦ ground (arith, e, s, h)
    | inr s ↦ elim (Option-cases (find_parent c calls)) [
      | inl q ↦ ground (arith, e, s, q, h)
      | inr (p, q) ↦
          walk_ends calls fuel (c.index ∷ visited) p (In-find_parent calls c p calls q)
            (omega (arith, fresh-lt c visited calls m s)) (ground (arith, e, s, q, h))
    ]
  ]
  | inr e ↦ ground (arith, e, h)
]

first_step :
    (c : Eth.Call) (calls : List Eth.Call)
    → walk (suc (length calls + 1)) calls [] c ≢ err out_of_fuel
unfolding walk seen
first_step c calls h = elim (Bool-cases (is_delegated c)) [
  | inl e ↦ elim (Option-cases (find_parent c calls)) [
    | inl q ↦ ground (arith, e, q, h)
    | inr (p, q) ↦
        walk_ends calls (length calls + 1) (c.index ∷ []) p (In-find_parent calls c p calls q)
          (unfold fresh in omega (arith, length-filter-le (is_fresh (c.index ∷ [])) calls))
          (ground (arith, e, q, h))
  ]
  | inr e ↦ ground (arith, e, h)
]

-- The walk ends on its fuel, whatever the calls: one unit for each call and two more are enough.
pub execution_address_ends :
    (c : Eth.Call) (calls : List Eth.Call) → execution_address c calls ≢ err out_of_fuel
unfolding execution_address
execution_address_ends c calls h =
    let e : length calls + 2 ≡ suc (length calls + 1) = omega arith in
    first_step c calls (subst (λ f. walk f calls [] c ≡ err out_of_fuel) e h)

-- An account that is found is that of a call, up the delegated calls, that runs in its own context.
pub execution_address_sound :
    (c : Eth.Call) (calls : List Eth.Call) (a : Bytes)
    → execution_address c calls ≡ ok a
    → (r : Eth.Call) × Ancestor calls c r × (r.address ≡ a)
unfolding execution_address
execution_address_sound c calls a h = walk_sound calls (length calls + 2) [] c a h

-- Each call stands below the call that made it.
abbrev pub IsBelowParent : Eth.Call → Type 0
IsBelowParent c = c.parent_index < c.index

parent_index :
    (c p : Eth.Call) (cs : List Eth.Call) → find_parent c cs ≡ some p → p.index ≡ c.parent_index
unfolding find_parent
parent_index c p [] h = cc
parent_index c p (d ∷ cs) h =
    elim (Bool-cases (d.index == c.parent_index && not (d.index == c.index))) [
      | inl e ↦
          let d≡p : d ≡ p = ground (arith, e, h) in
          ground (arith, e, ap (λ (x : Eth.Call). x.index) d≡p)
      | inr e ↦ parent_index c p cs (ground (arith, e, h))
    ]

unseen : (visited : List ℕ) (i : ℕ) → All (λ v. i < v) visited → seen visited i ≡ false
unfolding seen
unseen [] i a = refl
unseen (v ∷ visited) i a = ground (arith, unseen visited i a.1, a.0)

walk_tree :
    (calls : List Eth.Call) (fuel : ℕ) (visited : List ℕ) (c : Eth.Call)
    → All IsBelowParent calls
    → IsBelowParent c
    → All (λ v. c.index < v) visited
    → walk fuel calls visited c ≢ err cyclic_ancestry
unfolding walk
walk_tree calls zero visited c t b a h = ground (arith, h)
walk_tree calls (suc fuel) visited c t b a h = elim (Bool-cases (is_delegated c)) [
  | inl e ↦
      let s = unseen visited c.index a in
      elim (Option-cases (find_parent c calls)) [
        | inl q ↦ ground (arith, e, s, q, h)
        | inr (p, q) ↦
            let i = parent_index c p calls q in
            walk_tree calls fuel (c.index ∷ visited) p t
              (All-In IsBelowParent p calls t (In-find_parent calls c p calls q))
              (
                omega arith,
                All-mono (λ v. c.index < v) (λ v. p.index < v) (λ v k. omega arith) visited a,
              )
              (ground (arith, e, s, q, h))
      ]
  | inr e ↦ ground (arith, e, h)
]

-- In a tree of calls, where each parent has a smaller index, no ancestry is reported cyclic.
pub execution_address_tree :
    (c : Eth.Call) (calls : List Eth.Call)
    → All IsBelowParent calls
    → IsBelowParent c
    → execution_address c calls ≢ err cyclic_ancestry
unfolding execution_address
execution_address_tree c calls t b = walk_tree calls (length calls + 2) [] c t b tt
