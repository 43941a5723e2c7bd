-- ===== src/Examples/Checkpoints.antt =====
-- The theorems about the reads and the inputs of a checkpoint, and about the rows of src/db_out.rs,
-- applied to small tables, chains and blocks.
use substreams_evm_state.Prelude.{
  ℕ, ◌-◌, ◌≡◌, refl, Option, some, none, List, [], ◌∷◌, ◌++◌, Bytes, Text, codes, arith, bytes_eq,
  bytes_eq_iff, Result, ok,
}
use substreams_evm_state.Prelude.Order.{text_ord}
use substreams_evm_state.Json.{Json}
use substreams_evm_state.Proto
use substreams_evm_state.Prelude.Int
use substreams_evm_state.Params.Words.{join}
use substreams_evm_state.Reader.{follow}
use substreams_evm_state.Reader.Pages.{follow_all}
use substreams_evm_state.Interval.{
  follows, same_block, continues, has_filter, check_row, check_rows, beginning, validate_interval,
}
use substreams_evm_state.Interval.Chain.{IsComplete, validate_interval-IsComplete}
use substreams_evm_state.DbOut.{accounts_of, acc_or, find}
use substreams_evm_state.DbOut.Latest.{IsOnce}
use substreams_evm_state.DbOut.Rows.{IsSettled, accounts_of-IsSettled}
use substreams_evm_state.Examples.Instances.{plain_hex, encode}
use substreams_evm_state.Examples.Samples.{bytes, alice}
use substreams_evm_state.Examples.Stores.{obj, text, the_tools}
use substreams_evm_state.Examples.Reads.{
  account, coder, coder-IsCoder, database, pinned, reader-IsReadable, table, table-IsListed,
  table-IsKeyset,
}
use substreams_evm_state.Examples.Stores.{id1}

follow_all_example : follow coder database 3 (ok pinned) account none 1 ≡ ok table
follow_all_example =
    follow_all coder database (ok pinned) account id1 account 1 coder-IsCoder reader-IsReadable
      (omega arith) (omega arith) table table-IsKeyset 3 table-IsListed (omega arith)

abbrev hash_of : ℕ → Text
hash_of n = codes "0x" ++ encode (bytes 32 n)

-- A block of the chain: its number and its hash, on the block before.
abbrev block_of : ℕ → Json
block_of n = obj (
    (codes "accounts", text account)
    ∷ (codes "hash", text (hash_of n))
    ∷ (codes "number", Json.number n)
    ∷ (codes "parent_hash", text (hash_of (n - 1)))
    ∷ (codes "producer_version", Json.number 4)
    ∷ (codes "schema_version", Json.number 1)
    ∷ (codes "state_root", text (hash_of 7))
    ∷ [])

-- A source that begins at block 7 with a bootstrap of that block.
abbrev source : Json
source = obj (
    (codes "accounts", text account)
    ∷ (
      codes "bootstrap",
      obj (
          (
            codes "header",
            obj (
                (codes "hash", text (hash_of 7))
                ∷ (codes "number", Json.number 7)
                ∷ (codes "state_root", text (hash_of 7))
                ∷ []),
          )
          ∷ (codes "start_block", Json.number 7)
          ∷ []),
    )
    ∷ (codes "start_block", Json.number 7)
    ∷ [])

abbrev header : Json
header = obj (
    (codes "hash", text (hash_of 9))
    ∷ (codes "number", Json.number 9)
    ∷ (codes "state_root", text (hash_of 7))
    ∷ [])

abbrev answer : ℕ → ℕ → Result (List Json)
answer first last = ok (block_of 8 ∷ block_of 9 ∷ [])

chain_validates : validate_interval plain_hex answer source header ≡ ok 3
unfolding the_tools text_ord join follows same_block continues has_filter check_row check_rows
    beginning validate_interval
chain_validates = refl

validate_interval-IsComplete_example : IsComplete plain_hex answer source header 3
validate_interval-IsComplete_example =
    validate_interval-IsComplete plain_hex answer source header 3 chain_validates

abbrev at_ordinal : ℕ → Option Proto.Origin
at_ordinal n = some (record {
  ordinal = n;
  scope = Proto.tx;
  tx_hash = [];
  tx_index = 0;
  tx_status = Int.pos 1;
  call_index = 1;
})

abbrev written : ℕ → ℕ → Proto.StorageChange
written n value = record {
  address = alice;
  key = 1 ∷ [];
  old_value = [];
  new_value = value ∷ [];
  origin = at_ordinal n;
}

abbrev changes : Proto.StateChanges
changes = record {
  block = none;
  storage_changes = written 5 1 ∷ written 7 2 ∷ written 6 3 ∷ [];
  balance_changes = [];
  nonce_changes =
      record { address = alice; old_value = 0; new_value = 1; origin = at_ordinal 4 } ∷ [];
  code_changes = [];
  set_code_authorizations = [];
}

accounts_of-IsSettled_example :
    IsOnce bytes_eq bytes_eq_iff (accounts_of changes)
    × ((a : Bytes) → IsSettled changes a (acc_or (find bytes_eq a (accounts_of changes))))
accounts_of-IsSettled_example = accounts_of-IsSettled changes
