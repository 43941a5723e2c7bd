-- ===== src/Capacity/Paths.antt =====
-- Paths as lists of components, and `roots` of crates/evm-state/src/capacity.rs.
use Prim.Native.Nat.{compare, Ordering}
use Prim.Native.Nat.Ordering.{lt, eq, gt}
use substreams_evm_state.Prelude.{
  Bool, true, false, ◌&&◌, List, [], ◌∷◌, ◌++◌, Text, length, any, bytes_eq, if◌then◌else◌,
}
use substreams_evm_state.Prelude.Order.{text_cmp, then_cmp}

-- The components of a path.
abbrev pub Path' : Type 0
Path' = List Text

-- `Path::starts_with`: by whole components
unfoldable pub starts_with : Path' → Path' → Bool
starts_with path [] = true
starts_with [] (q ∷ parent) = false
starts_with (p ∷ path) (q ∷ parent) = bytes_eq p q && starts_with path parent

unfoldable pub path_eq : Path' → Path' → Bool
path_eq [] [] = true
path_eq [] (q ∷ qs) = false
path_eq (p ∷ ps) [] = false
path_eq (p ∷ ps) (q ∷ qs) = bytes_eq p q && path_eq ps qs

-- The order of paths, by their components; of a path with `..`, the code's order may be another.
unfoldable pub path_cmp : Path' → Path' → Ordering
path_cmp [] [] = eq
path_cmp [] (q ∷ qs) = lt
path_cmp (p ∷ ps) [] = gt
path_cmp (p ∷ ps) (q ∷ qs) = then_cmp (text_cmp p q) (path_cmp ps qs)

-- `sort_by_key(|p| (p.components().count(), p.clone()))`
abbrev pub key_cmp : Path' → Path' → Ordering
key_cmp p q = then_cmp (compare (length p) (length q)) (path_cmp p q)

unfoldable pub is_after : Path' → Path' → Bool
is_after p q = elim (key_cmp p q) [ gt ↦ true | _ ↦ false ]

unfoldable pub sort_insert : Path' → List Path' → List Path'
sort_insert p [] = p ∷ []
sort_insert p (q ∷ qs) =
    let rest = sort_insert p qs in if is_after p q then q ∷ rest else p ∷ q ∷ qs

unfoldable pub sort : List Path' → List Path'
sort [] = []
sort (p ∷ ps) = sort_insert p (sort ps)

-- `dedup`: of equal neighbours the first stays.
unfoldable pub dedup_after : Path' → List Path' → List Path'
dedup_after p [] = []
dedup_after p (q ∷ qs) =
    let skip = dedup_after p qs in
    let keep = dedup_after q qs in if path_eq p q then skip else q ∷ keep

unfoldable pub dedup : List Path' → List Path'
dedup [] = []
dedup (p ∷ ps) = p ∷ dedup_after p ps

-- The loop of `roots`.
unfoldable pub add_roots : List Path' → List Path' → List Path'
add_roots [] result = result
add_roots (p ∷ ps) result =
    add_roots ps (if any (λ parent. starts_with p parent) result then result else result ++ p ∷ [])

unfoldable pub roots : List Path' → List Path'
roots paths = add_roots (dedup (sort paths)) []
