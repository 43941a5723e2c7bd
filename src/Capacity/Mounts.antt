-- ===== src/Capacity/Mounts.antt =====
-- Where `data_disks` of crates/evm-state/src/capacity.rs puts the disks: on the container's mounts.
use substreams_evm_state.Prelude.{
  ◌≡◌, ◌⊎◌, inl, inr, refl, sym, ap, Bool, true, false, not, ◌&&◌, ◌||◌, List, [], ◌∷◌, ◌++◌, Text,
  codes, arith, any, bytes_eq, ltb, leb, ◌==◌, Bool-cases, if◌then◌else◌, All, Any, In, ok, ensure,
  >>=-eq-ok, ensure-eq-ok, ok-injective, subst, Any-append, false_of_not,
}
use substreams_evm_state.Json.{Json, index, is_text}
use substreams_evm_state.Json.Read.{string_field, uint}
use substreams_evm_state.Capacity.Paths.{Path', starts_with}
use substreams_evm_state.Capacity.Limits.{
  components, is_absolute, Disks, add_disk, add_disks, destinations,
}

-- A bind or volume mount of the container, at or above the path.
pub record IsMountOf (p : Path') (m : Json) : Type 0 where
  pub kind :
      (is_text (index m "Type") (codes "bind") ≡ true)
      ⊎ (is_text (index m "Type") (codes "volume") ≡ true)
  pub destination : Text
  pub has_destination : string_field m "Destination" ≡ ok destination
  pub above : starts_with p (components destination) ≡ true

-- The path lies on a mount of the list.
abbrev pub IsMounted : List Json → Path' → Type 0
IsMounted listed p = Any (IsMountOf p) listed

either : (a b : Bool) → (a || b) ≡ true → (a ≡ true) ⊎ (b ≡ true)
either true b h = inl refl
either false b h = inr h

pub destinations-IsMounted :
    (p : Path') (listed : List Json) (mounts : List Path')
    → destinations listed ≡ ok mounts
    → any (λ m. starts_with p m) mounts ≡ true
    → IsMounted listed p
unfolding destinations any
destinations-IsMounted p [] mounts h a =
    let e : mounts ≡ [] = sym (ok-injective h) in
    let q : any (λ m. starts_with p m) [] ≡ true =
      subst (λ ms. any (λ m. starts_with p m) ms ≡ true) e a in
    cc q
destinations-IsMounted p (m ∷ ms) mounts h a =
    elim (Bool-cases
      (is_text (index m "Type") (codes "bind") || is_text (index m "Type") (codes "volume"))) [
        | inl e ↦
            let (path, c1, h1) = >>=-eq-ok (string_field m "Destination") _ (rw e at h) in
            let (paths, c2, h2) = >>=-eq-ok (destinations ms) _ h1 in
            let q : any (λ m. starts_with p m) (components path ∷ paths) ≡ true =
              subst (λ ms. any (λ m. starts_with p m) ms ≡ true) (sym (ok-injective h2)) a in
            elim (Bool-cases (starts_with p (components path))) [
              | inl s ↦ inl (record {
                kind =
                    either (is_text (index m "Type") (codes "bind"))
                      (is_text (index m "Type") (codes "volume")) e;
                destination = path;
                has_destination = c1;
                above = s;
              })
              | inr s ↦ inr (destinations-IsMounted p ms paths c2 (rw s at q))
            ]
        | inr e ↦ inr (destinations-IsMounted p ms mounts (rw e at h) a)
      ]

-- The disk has an absolute path without `..` that is one of the paths.
pub record IsPlaced (paths : List Path') (disk : Json) : Type 0 where
  pub path : Text
  pub has_path : string_field disk "path" ≡ ok path
  pub absolute : is_absolute path ≡ true
  pub plain : any (λ c. bytes_eq c (codes "..")) (components path) ≡ false
  pub inside : In (components path) paths

add_disk-IsPlaced :
    (disk : Json) (d d' : Disks)
    → add_disk disk d ≡ ok d'
    → ((p : Path') → In p d.paths → In p d'.paths) × IsPlaced d'.paths disk
unfolding add_disk
add_disk-IsPlaced disk d d' h =
    let (remote, c1, h1) =
      >>=-eq-ok
        (if is_text (index disk "type") (codes "Local")
          then uint (index disk "is_remote")
          else ok 1)
        _ h in
    let (u2, c2, h2) =
      >>=-eq-ok
        (ensure (remote == 0) "complete capacity measurement requires local ClickHouse data disks")
        _ h1 in
    let (total, c3, h3) = >>=-eq-ok (uint (index disk "total_space")) _ h2 in
    let (free, c4, h4) = >>=-eq-ok (uint (index disk "free_space")) _ h3 in
    let (unreserved, c5, h5) = >>=-eq-ok (uint (index disk "unreserved_space")) _ h4 in
    let (u6, c6, h6) =
      >>=-eq-ok
        (ensure (ltb 0 total && (leb free total && leb unreserved total))
          "invalid ClickHouse disk capacity counters")
        _ h5 in
    let (path, c7, h7) = >>=-eq-ok (string_field disk "path") _ h6 in
    let (u8, c8, h8) =
      >>=-eq-ok
        (ensure (is_absolute path && not (any (λ c. bytes_eq c (codes "..")) (components path)))
          "ClickHouse data disks must be on declared persistent container mounts")
        _ h7 in
    let e : d.paths ++ components path ∷ [] ≡ d'.paths =
      ap (λ (x : Disks). x.paths) (ok-injective h8) in
    let t =
      ensure-eq-ok (is_absolute path && not (any (λ c. bytes_eq c (codes "..")) (components path)))
        "ClickHouse data disks must be on declared persistent container mounts" c8 in
    (
      λ p i. subst (In p) e ((Any-append (λ x. x ≡ p) d.paths (components path ∷ [])).1 (inl i)),
      record {
        path = path;
        has_path = c7;
        absolute = ground (arith, t);
        plain =
            false_of_not (any (λ c. bytes_eq c (codes "..")) (components path)) (ground (arith, t));
        inside = subst (In (components path)) e (
            (Any-append (λ x. x ≡ components path) d.paths (components path ∷ [])).1
              (inr (inl refl)));
      },
    )

pub add_disks-IsPlaced :
    (disks : List Json) (d d' : Disks)
    → add_disks disks d ≡ ok d'
    → ((p : Path') → In p d.paths → In p d'.paths) × All (IsPlaced d'.paths) disks
unfolding add_disks
add_disks-IsPlaced [] d d' h =
    let e = ap (λ (x : Disks). x.paths) (ok-injective h) in (λ p i. subst (In p) e i, tt)
add_disks-IsPlaced (disk ∷ disks) d d' h =
    let (d1, c, h1) = >>=-eq-ok (add_disk disk d) _ h in
    let (f, a) = add_disk-IsPlaced disk d d1 c in
    let (g, as') = add_disks-IsPlaced disks d1 d' h1 in
    (
      λ p i. g p (f p i),
      (
        record {
          path = a.path;
          has_path = a.has_path;
          absolute = a.absolute;
          plain = a.plain;
          inside = g (components a.path) a.inside;
        },
        as',
      ),
    )
