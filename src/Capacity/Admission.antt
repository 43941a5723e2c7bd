-- ===== src/Capacity/Admission.antt =====
-- About `admission_reasons` and `data_disks` of crates/evm-state/src/capacity.rs.
use substreams_evm_state.Prelude.{
  ℕ, false, some, Text, All-In, All-mono, context-eq-ok, ◌+◌, ◌-◌, ◌≤◌, ◌<◌, ◌≡◌, ◌↔◌, inl, inr, ap,
  ◌∙◌, Bool, true, not, ◌&&◌, List, [], ◌∷◌, codes, arith, any, all, bytes_eq, is_empty, ltb, leb,
  ◌==◌, ==_iff, Bool-cases, if◌then◌else◌, All, Result, ok, ensure, context, >>=-eq-ok,
  ensure-eq-ok, ok-injective, subst,
}
use substreams_evm_state.Prelude.Int.{u64_mod}
use substreams_evm_state.Json.{Json, index, as_array, is_text}
use substreams_evm_state.Json.Read.{string_field, uint}
use substreams_evm_state.Capacity.Paths.{Path', starts_with, roots}
use substreams_evm_state.Capacity.Roots.{IsCovered, IsAntichain, roots-IsAntichain}
use substreams_evm_state.Capacity.Limits.{
  components, is_absolute, Disks, add_disk, add_disks, destinations, data_disks, admission_reasons,
}
use substreams_evm_state.Capacity.Mounts.{
  IsMounted, IsPlaced, add_disks-IsPlaced, destinations-IsMounted,
}
use substreams_evm_state.History.{least}

-- No reason is given exactly if the used bytes and the headroom together stay below the budget and
-- the floor of free space is kept.
pub admission_reasons_none_iff :
    (used headroom budget available min_free : ℕ)
    → (admission_reasons used headroom budget available min_free ≡ [])
      ↔ ((used + headroom < budget) × (min_free ≤ available))
unfolding admission_reasons
admission_reasons_none_iff used headroom budget available min_free =
    elim (Bool-cases (leb budget (used + headroom))) [
      | inl e ↦ elim (Bool-cases (ltb available min_free)) [
        | inl q ↦ ground (arith, e, q)
        | inr q ↦ ground (arith, e, q)
      ]
      | inr e ↦ elim (Bool-cases (ltb available min_free)) [
        | inl q ↦ ground (arith, e, q)
        | inr q ↦ ground (arith, e, q)
      ]
    ]

-- The disk's counters are consistent, and what is available is in both of them.
pub record IsMeasured (available : ℕ) (disk : Json) : Type 0 where
  pub total : ℕ
  pub free : ℕ
  pub unreserved : ℕ
  pub kind : is_text (index disk "type") (codes "Local") ≡ true
  pub is_local : uint (index disk "is_remote") ≡ ok 0
  pub has_total : uint (index disk "total_space") ≡ ok total
  pub has_free : uint (index disk "free_space") ≡ ok free
  pub has_unreserved : uint (index disk "unreserved_space") ≡ ok unreserved
  pub within : (free ≤ total) × (unreserved ≤ total)
  pub bound : (available ≤ free) × (available ≤ unreserved)

lower : (m n : ℕ) → m ≤ n → (disk : Json) → IsMeasured n disk → IsMeasured m disk
lower m n l disk h = record {
  total = h.total;
  free = h.free;
  unreserved = h.unreserved;
  kind = h.kind;
  is_local = h.is_local;
  has_total = h.has_total;
  has_free = h.has_free;
  has_unreserved = h.has_unreserved;
  within = h.within;
  bound = (omega (arith, l, h.bound), omega (arith, l, h.bound));
}

remote_zero :
    (disk : Json) (remote : ℕ)
    → (if is_text (index disk "type") (codes "Local") then uint (index disk "is_remote") else ok 1)
      ≡ ok remote
    → (remote == 0) ≡ true
    → (is_text (index disk "type") (codes "Local") ≡ true) × (uint (index disk "is_remote") ≡ ok 0)
remote_zero disk remote h z = elim (Bool-cases (is_text (index disk "type") (codes "Local"))) [
  | inl e ↦
      let r : uint (index disk "is_remote") ≡ ok remote = rw e at h in
      (e, r ∙ ap ok ((==_iff remote 0).0 z))
  | inr e ↦
      let r : ◌≡◌ {A = Result ℕ} (ok 1) (ok remote) = rw e at h in
      let q = ok-injective r in absurd (ground (arith, z, q))
]

add_disk-IsMeasured :
    (disk : Json) (d d' : Disks)
    → add_disk disk d ≡ ok d'
    → (d'.available ≤ d.available) × IsMeasured d'.available disk
unfolding add_disk
add_disk-IsMeasured disk d d' h =
    let (remote, c1, h1) =
      >>=-eq-ok
        (if is_text (index disk "type") (codes "Local")
          then uint (index disk "is_remote")
          else ok 1)
        _ h in
    let (u2, c2, h2) =
      >>=-eq-ok
        (ensure (remote == 0) "complete capacity measurement requires local ClickHouse data disks")
        _ h1 in
    let (total, c3, h3) = >>=-eq-ok (uint (index disk "total_space")) _ h2 in
    let (free, c4, h4) = >>=-eq-ok (uint (index disk "free_space")) _ h3 in
    let (unreserved, c5, h5) = >>=-eq-ok (uint (index disk "unreserved_space")) _ h4 in
    let (u6, c6, h6) =
      >>=-eq-ok
        (ensure (ltb 0 total && (leb free total && leb unreserved total))
          "invalid ClickHouse disk capacity counters")
        _ h5 in
    let (path, c7, h7) = >>=-eq-ok (string_field disk "path") _ h6 in
    let (u8, c8, h8) =
      >>=-eq-ok
        (ensure (is_absolute path && not (any (λ c. bytes_eq c (codes "..")) (components path)))
          "ClickHouse data disks must be on declared persistent container mounts")
        _ h7 in
    let e : least (least d.available free) unreserved ≡ d'.available =
      ap (λ (x : Disks). x.available) (ok-injective h8) in
    let zero = remote_zero disk remote c1 (
      ensure-eq-ok (remote == 0)
        "complete capacity measurement requires local ClickHouse data disks" c2) in
    let t =
      ensure-eq-ok (ltb 0 total && (leb free total && leb unreserved total))
        "invalid ClickHouse disk capacity counters" c6 in
    subst (λ n. (n ≤ d.available) × IsMeasured n disk) e
      (
        (below d.available free unreserved).0,
        record {
          total = total;
          free = free;
          unreserved = unreserved;
          kind = zero.0;
          is_local = zero.1;
          has_total = c3;
          has_free = c4;
          has_unreserved = c5;
          within = ground (arith, t);
          bound = (below d.available free unreserved).1;
        },
      )
  where
    below :
        (a b c : ℕ)
        → (least (least a b) c ≤ a) × ((least (least a b) c ≤ b) × (least (least a b) c ≤ c))
    below a b c = ground arith

add_disks-IsMeasured :
    (disks : List Json) (d d' : Disks)
    → add_disks disks d ≡ ok d'
    → (d'.available ≤ d.available) × All (IsMeasured d'.available) disks
unfolding add_disks
add_disks-IsMeasured [] d d' h =
    let e = ap (λ (x : Disks). x.available) (ok-injective h) in (omega (arith, e), tt)
add_disks-IsMeasured (disk ∷ disks) d d' h =
    let (d1, c, h1) = >>=-eq-ok (add_disk disk d) _ h in
    let (l, m) = add_disk-IsMeasured disk d d1 c in
    let (l', m') = add_disks-IsMeasured disks d1 d' h1 in
    (omega (arith, l, l'), (lower d'.available d1.available l' disk m, m'))

-- The disk has an absolute path without `..`, at or below one of the roots.
pub record IsServed (paths : List Path') (disk : Json) : Type 0 where
  pub path : Text
  pub has_path : string_field disk "path" ≡ ok path
  pub absolute : is_absolute path ≡ true
  pub plain : any (λ c. bytes_eq c (codes "..")) (components path) ≡ false
  pub covered : IsCovered paths (components path)

placed-IsServed :
    (paths roots' : List Path') (disk : Json)
    → All (IsCovered roots') paths
    → IsPlaced paths disk
    → IsServed roots' disk
placed-IsServed paths roots' disk c p = record {
  path = p.path;
  has_path = p.has_path;
  absolute = p.absolute;
  plain = p.plain;
  covered = All-In (IsCovered roots') (components p.path) paths c p.inside;
}

all-All : {A : Type 0} (f : A → Bool) (xs : List A) → all f xs ≡ true → All (λ x. f x ≡ true) xs
unfolding all
all-All f [] h = tt
all-All f (x ∷ xs) h = (ground (arith, h), all-All f xs (ground (arith, h)))

-- What an accepted measurement of the disks gives: each disk is of the local type, not remote and
-- consistent, and what is available is at most its free and its unreserved space; its path is
-- absolute, has no `..` and lies at or below one of the roots; no root lies under another, and each
-- lies at or below the destination of a bind or volume mount of the container.
pub data_disks-IsMeasured :
    (info : Json) (disks : List Json) (d : Disks)
    → data_disks info disks ≡ ok d
    → All (IsMeasured d.available) disks
      × All (IsServed d.paths) disks
      × IsAntichain d.paths
      × ((listed : List Json) × (as_array (index info "Mounts") ≡ some listed)
          × All (IsMounted listed) d.paths)
unfolding data_disks
data_disks-IsMeasured info disks d h =
    let (u1, c1, h1) =
      >>=-eq-ok
        (ensure (not (is_empty disks))
          "complete capacity measurement requires local ClickHouse data disks")
        _ h in
    let (d1, c2, h2) =
      >>=-eq-ok (add_disks disks (record { available = u64_mod - 1; paths = [] })) _ h1 in
    let (listed, c3, h3) =
      >>=-eq-ok (context (as_array (index info "Mounts")) "invalid container mounts") _ h2 in
    let (mounts, c4, h4) = >>=-eq-ok (destinations listed) _ h3 in
    let (u5, c5, h5) =
      >>=-eq-ok
        (ensure (all (λ p. any (λ m. starts_with p m) mounts) (roots d1.paths))
          "ClickHouse data disks must be on declared persistent container mounts")
        _ h4 in
    let e = ok-injective h5 in
    let (_, measured) =
      add_disks-IsMeasured disks (record { available = u64_mod - 1; paths = [] }) d1 c2 in
    let (_, placed) =
      add_disks-IsPlaced disks (record { available = u64_mod - 1; paths = [] }) d1 c2 in
    let under =
      all-All (λ p. any (λ m. starts_with p m) mounts) (roots d1.paths)
        (ensure-eq-ok (all (λ p. any (λ m. starts_with p m) mounts) (roots d1.paths))
          "ClickHouse data disks must be on declared persistent container mounts" c5) in
    subst
      (λ (x : Disks).
        All (IsMeasured x.available) disks
        × All (IsServed x.paths) disks
        × IsAntichain x.paths
        × ((listed : List Json) × (as_array (index info "Mounts") ≡ some listed)
            × All (IsMounted listed) x.paths))
      e
      (
        measured,
        All-mono (IsPlaced d1.paths) (IsServed (roots d1.paths))
            (λ disk p.
              placed-IsServed d1.paths (roots d1.paths) disk (roots-IsAntichain d1.paths).2 p)
            disks placed,
        (roots-IsAntichain d1.paths).1,
        (
          listed,
          context-eq-ok (as_array (index info "Mounts")) "invalid container mounts" c3,
          All-mono (λ p. any (λ m. starts_with p m) mounts ≡ true) (IsMounted listed)
              (λ p a. destinations-IsMounted p listed mounts c4 a) (roots d1.paths) under,
        ),
      )
