-- ===== src/Interval.antt =====
-- `validate_interval` of crates/evm-state/src/checkpoint.rs: the blocks of a source up to the block
-- of a checkpoint form one chain. The rows that the database gives for a range are an argument, and a
-- row that cannot be read is an error of the whole answer. The sums of `u64` wrap around.
pub mod Blocks
pub mod Begins
pub mod Chain
use substreams_evm_state.Prelude.{
  ℕ, ◌+◌, ◌-◌, ◌%◌, ◌^◌, Bool, true, false, ◌&&◌, Option, none, some, List, [], ◌∷◌, Text, codes,
  ltb, leb, ◌==◌, if◌then◌else◌, Result, ok, err, ensure, ◌>>=◌, ◌>>◌,
}
use substreams_evm_state.Prelude.Int.{u64_mod}
use substreams_evm_state.Extern.{Hex}
use substreams_evm_state.Json.{Json, get, index, is_text, json_eq}
use substreams_evm_state.Json.Read.{string_field, uint}
use substreams_evm_state.Params.Words.{join}
use substreams_evm_state.Proof.{fixed, canonical_accounts}

-- The variables of the loop.
pub record Walk : Type 0 where
  pub expected : ℕ
  pub count : ℕ
  pub previous : Option Text

unfoldable pub follows : Option Text → Json → Bool
follows none row = true
follows (some hash) row = is_text (index row "parent_hash") hash

-- The two fields by which a row is compared with a header.
unfoldable pub same_block : Json → Json → Bool
same_block a b =
    json_eq (index a "hash") (index b "hash")
    && json_eq (index a "state_root") (index b "state_root")

-- The base that the first row is to continue, if the source names one.
unfoldable pub continues : Option Json → Json → Bool
continues none row = true
continues (some parent) row = json_eq (index row "parent_hash") parent

unfoldable pub has_filter : Text → Json → Result Bool
has_filter accounts row =
    if is_text (index row "accounts") accounts
    then (do schema ← uint (index row "schema_version"); ok (schema == 1))
    else ok false

module _ (hex : Hex) where
  -- One row of the loop.
  unfoldable pub check_row : Json → Json → ℕ → Text → Json → Walk → Result Walk
  check_row source header last accounts row w = do
    number ← uint (index row "number")
    ensure (number == w.expected) "missing or conflicting block"
    filtered ← has_filter accounts row
    ensure filtered "account filter or schema changed"
    producer ← uint (index row "producer_version")
    ensure (leb 3 producer && leb producer 5) "unsupported producer version"
    hash ← string_field row "hash"
    hash_bytes ← fixed hex 32 hash
    parent ← string_field row "parent_hash"
    parent_bytes ← fixed hex 32 parent
    ensure (follows w.previous row) "broken parent continuity"
    ensure (if number == last then same_block row header else true)
        "stream checkpoint differs from proof header"
    ensure (if w.count == 0 then continues (get source (codes "parent_hash")) row else true)
        "stream does not continue the base checkpoint"
    ok (record { expected = w.expected + 1; count = (w.count + 1) % u64_mod; previous = some hash })

  unfoldable pub check_rows : Json → Json → ℕ → Text → List Json → Walk → Result Walk
  check_rows source header last accounts [] w = ok w
  check_rows source header last accounts (row ∷ rows) w = do
    w' ← check_row source header last accounts row w
    check_rows source header last accounts rows w'

  -- Where the loop begins: at the start of the source, or after the block of its bootstrap.
  unfoldable pub beginning : Json → Json → ℕ → ℕ → Option Json → Result Walk
  beginning source header start last none =
      ok (record { expected = start; count = 0; previous = none })
  beginning source header start last (some prefix) = do
    number ← uint (index (index prefix "header") "number")
    ensure (json_eq (index source "start_block") (index prefix "start_block") && leb number last)
        "checkpoint range cannot use this compacted bootstrap prefix"
    hash ← string_field (index prefix "header") "hash"
    ensure (if number + 1 == last + 1 then same_block (index prefix "header") header else true)
        "bootstrap checkpoint differs from proof header"
    ok (record {
      expected = number + 1;
      count = (number + 1 + u64_mod - start) % u64_mod;
      previous = some hash;
    })

  unfoldable pub validate_interval : (ℕ → ℕ → Result (List Json)) → Json → Json → Result ℕ
  validate_interval answer source header = do
    start ← uint (index source "start_block")
    last ← uint (index header "number")
    ensure (leb start last && ltb last (u64_mod - 1)) "invalid checkpoint input range"
    accounts ← canonical_accounts hex (index source "accounts")
    w ← beginning source header start last (get source (codes "bootstrap"))
    rows ← answer w.expected last
    w' ← check_rows source header last (join 44 accounts) rows w
    ensure (w'.expected == last + 1) "incomplete stream"
    ok w'.count
