-- ===== src/Capacity/Limits.antt =====
-- The measured limits of crates/evm-state/src/capacity.rs: `integer`, `data_disks` and
-- `admission_reasons`, and the container check `verify_container`. The parser of URLs is an
-- argument.
use substreams_evm_state.Prelude.{
  ℕ, ◌+◌, ◌-◌, Bool, true, false, not, ◌&&◌, ◌||◌, Option, none, some, List, [], ◌∷◌, ◌++◌, String,
  Text, codes, is_empty, any, all, filter, bytes_eq, ltb, leb, ◌==◌, if◌then◌else◌, Result, ok,
  ensure, context, ◌>>=◌, ◌>>◌,
}
use substreams_evm_state.Prelude.Int.{u64_mod}
use substreams_evm_state.Json.{Json, index, as_u64, as_array, is_text, is_true}
use substreams_evm_state.Json.Read.{string_field, uint}
use substreams_evm_state.Capacity.Paths.{Path', starts_with, roots}
use substreams_evm_state.History.{least}

unfoldable pub integer : Json → String → ℕ → Result ℕ
integer config key minimum = do
  value ← context (as_u64 (index config key)) "must be an integer"
  ensure (leb minimum value) "must be an integer not below its minimum"
  ok value

-- `Path::components`: the root is a component of an absolute path, empty pieces are skipped, and a
-- `.` that does not begin a relative path.
unfoldable pub push_char : ℕ → List Text → List Text
push_char c [] = (c ∷ []) ∷ []
push_char c (w ∷ ws) = (c ∷ w) ∷ ws

unfoldable pub split_path : Text → List Text
split_path [] = [] ∷ []
split_path (c ∷ cs) = let rest = split_path cs in if c == 47 then [] ∷ rest else push_char c rest

-- `is_absolute`
unfoldable pub is_absolute : Text → Bool
is_absolute [] = false
is_absolute (c ∷ cs) = c == 47

unfoldable pub named : List Text → Path'
named ws = filter (λ w. not (is_empty w) && not (bytes_eq w (codes "."))) ws

unfoldable pub relative : List Text → Path'
relative [] = []
relative (w ∷ ws) = if is_empty w then named ws else w ∷ named ws

unfoldable pub components : Text → Path'
components t = if is_absolute t then codes "/" ∷ named (split_path t) else relative (split_path t)

-- `data_disks`: one disk of the loop, and the loop.
pub record Disks : Type 0 where
  pub available : ℕ
  pub paths : List Path'

unfoldable pub add_disk : Json → Disks → Result Disks
add_disk disk d = do
  remote ←
      (if is_text (index disk "type") (codes "Local") then uint (index disk "is_remote") else ok 1)
  ensure (remote == 0) "complete capacity measurement requires local ClickHouse data disks"
  total ← uint (index disk "total_space")
  free ← uint (index disk "free_space")
  unreserved ← uint (index disk "unreserved_space")
  ensure (ltb 0 total && (leb free total && leb unreserved total))
      "invalid ClickHouse disk capacity counters"
  path ← string_field disk "path"
  ensure (is_absolute path && not (any (λ c. bytes_eq c (codes "..")) (components path)))
      "ClickHouse data disks must be on declared persistent container mounts"
  ok (record {
    available = least (least d.available free) unreserved;
    paths = d.paths ++ components path ∷ [];
  })

unfoldable pub add_disks : List Json → Disks → Result Disks
add_disks [] d = ok d
add_disks (disk ∷ disks) d = do d' ← add_disk disk d; add_disks disks d'

-- The destinations of the container's bind and volume mounts.
unfoldable pub destinations : List Json → Result (List Path')
destinations [] = ok []
destinations (m ∷ ms) =
    let rest = destinations ms in
    let read = (do
      path ← string_field m "Destination"
      paths ← rest
      ok (components path ∷ paths)) in
    if is_text (index m "Type") (codes "bind") || is_text (index m "Type") (codes "volume")
    then read
    else rest

unfoldable pub data_disks : Json → List Json → Result Disks
data_disks info disks = do
  ensure (not (is_empty disks)) "complete capacity measurement requires local ClickHouse data disks"
  d ← add_disks disks (record { available = u64_mod - 1; paths = [] })
  listed ← context (as_array (index info "Mounts")) "invalid container mounts"
  mounts ← destinations listed
  ensure (all (λ p. any (λ m. starts_with p m) mounts) (roots d.paths))
      "ClickHouse data disks must be on declared persistent container mounts"
  ok (record { available = d.available; paths = roots d.paths })

-- `admission_reasons`; the sum is one of `u128`, which two `u64` do not exceed.
pub data Reason : Type 0 where
  budget_headroom_exhausted filesystem_free_space_below_floor : Reason

unfoldable pub admission_reasons : ℕ → ℕ → ℕ → ℕ → ℕ → List Reason
admission_reasons used headroom budget available min_free =
    (if leb budget (used + headroom) then budget_headroom_exhausted ∷ [] else [])
    ++ (if ltb available min_free then filesystem_free_space_below_floor ∷ [] else [])

-- What `reqwest::Url` gives of an endpoint.
pub record Url : Type 0 where
  pub scheme : Text
  pub host : Option Text
  pub username : Text
  pub password : Option Text
  pub port : Option ℕ

unfoldable pub is_local_host : Option Text → Bool
is_local_host none = false
is_local_host (some h) = bytes_eq h (codes "localhost") || bytes_eq h (codes "127.0.0.1")

unfoldable pub is_none : {A : Type 0} → Option A → Bool
is_none none = true
is_none (some a) = false

unfoldable pub is_previous : Option Text → Text → Bool
is_previous none id = true
is_previous (some previous) id = bytes_eq previous id

unfoldable pub port_or : Option ℕ → ℕ
port_or none = 80
port_or (some port) = port

-- `entries.iter().any(..)` over the bindings of the container's HTTP port, where there are any
unfoldable pub is_published : Json → Text → Bool
is_published info port =
    elim (as_array (index (index (index info "NetworkSettings") "Ports") "8123/tcp")) [
      | none ↦ false
      | some entries ↦
          any
            (λ binding.
              is_text (index binding "HostPort") port
              && (is_text (index binding "HostIp") (codes "127.0.0.1")
                  || is_text (index binding "HostIp") (codes "0.0.0.0")
                  || is_text (index binding "HostIp") []))
            entries
    ]

unfoldable pub verify_container :
    (Text → Option Url) → (ℕ → Text) → Json → Text → Option Text → Result Text
verify_container parse_url decimal info endpoint previous = do
  id ← string_field info "Id"
  ensure (is_previous previous id) "ClickHouse capacity container was replaced"
  url ← context (parse_url endpoint) "invalid local capacity endpoint"
  ensure
      (bytes_eq url.scheme (codes "http")
        && (is_local_host url.host && (is_empty url.username && is_none url.password)))
      "Docker capacity measurement requires a local published HTTP endpoint"
  ensure
      (is_true (index (index info "State") "Running")
        && is_published info (decimal (port_or url.port)))
      "capacity container does not own the configured ClickHouse HTTP endpoint"
  ok id
