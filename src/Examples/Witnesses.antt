-- ===== src/Examples/Witnesses.antt =====
-- The theorems applied to the sample block.
use substreams_evm_state.Prelude.{
  ℕ, ◌≤◌, ◌≡◌, ◌≢◌, ◌↔◌, ◌⊎◌, refl, Bool, true, false, ◌||◌, bytes_eq, some, none, List, [], ◌∷◌,
  Bytes, codes, arith, contains, is_empty, ok, err, All, Any, In, cyclic_ancestry, out_of_fuel,
}
use substreams_evm_state.Prelude.Int.{pos}
use substreams_evm_state.Prelude.Order.{text_ord, pair_ord}
use substreams_evm_state.Btree.{get}
use substreams_evm_state.Extern.{be_value}
use substreams_evm_state.Eth
use substreams_evm_state.Proto
use substreams_evm_state.Params.{hex_text, Filter, parse, canonical, matches}
use substreams_evm_state.Params.Words.{words, trim}
use substreams_evm_state.Params.Parse.{
  Names, IsEntry, IsValid, matches-parse, parse_iff, parse-IsValid,
}
use substreams_evm_state.Params.Canonical.{canonical_unique}
use substreams_evm_state.Params.Roundtrip.{parse-canonical}
use substreams_evm_state.Persist.{Ctx, collect_transaction, collect_block}
use substreams_evm_state.Persist.Rules.{
  storage_is_noop, balance_is_noop, sender_nonce, enumerate, is_failed,
}
use substreams_evm_state.Persist.Events.{Event, system_ctx, block_events, replay}
use substreams_evm_state.Persist.Refinement.{result_map, collect_block_refines}
use substreams_evm_state.Persist.Complete.{IsStorage, InCall, InSucceeded}
use substreams_evm_state.Persist.Failed.{MayPersist}
use substreams_evm_state.Persist.Effects.{collect_transaction-MayPersist, collect_block-InCall_iff}
use substreams_evm_state.Persist.Refused.{IsRefused, Verdict, collect_block_verdict}
use substreams_evm_state.Persist.Sender.{IsSenderNonce, sender_nonce-some, sender_nonce-none}
use substreams_evm_state.Persist.Noop.{storage_is_noop_iff, balance_is_noop_iff}
use substreams_evm_state.Lifecycle.{Ends, execution_address, deletions}
use substreams_evm_state.Lifecycle.Walk.{
  Ancestor, execution_address_ends, execution_address_sound, execution_address_tree,
}
use substreams_evm_state.Lifecycle.Deletions.{IsLatest, deletions-IsLatest}
use substreams_evm_state.Collect.{collect, collector, empty_changes}
use substreams_evm_state.Collect.Records.{IsCollected, collect-IsCollected}
use substreams_evm_state.BlockState.{Maps, no_rows, delete_accounts}
use substreams_evm_state.BlockState.Checks.{IsEnvelope, IsIdentified, project-IsEnvelope}
use substreams_evm_state.BlockState.Clear.{Survives, delete_accounts_storage}
use substreams_evm_state.BlockState.Nonces.{
  zero_nonce, delete_accounts_nonces, delete_accounts_zero_nonces,
}
use substreams_evm_state.BlockState.Rows.{IsBlockEnd, IsKept}
use substreams_evm_state.BlockState.StorageRows.{project_storage}
use substreams_evm_state.Examples.Instances.{plain_hex, plain_decimal, plain_enums}
use substreams_evm_state.Examples.Samples.{
  or_default, alice, bob, params, slot, nonce, failed_call, create_call, doomed_call, failing,
  sample, changes, accounts, state, the_code, sample_collects, sample_parses, sample_deletes,
  sample_projects,
}

project_storage_example :
    (f : Filter) × (changes : Proto.StateChanges) × (ends : Ends) × (parse plain_hex params ≡ ok f)
    × (collect plain_hex plain_decimal plain_enums params sample ≡ ok changes)
    × (deletions plain_enums sample state.timestamp ≡ ok ends)
    × All (IsBlockEnd plain_hex f changes.storage_changes ends) state.storage
    × All (IsKept plain_hex f ends state.storage) changes.storage_changes
project_storage_example =
    project_storage plain_hex plain_decimal plain_enums params sample state sample_projects

collect-IsCollected_example :
    (f : Filter) × (es : List Event) × (parse plain_hex params ≡ ok f)
    × (block_events plain_enums sample ≡ ok es)
    × IsCollected plain_decimal plain_enums f sample es changes
collect-IsCollected_example =
    collect-IsCollected plain_hex plain_decimal plain_enums params sample changes sample_collects

collect_block_refines_example :
    collect_block (collector plain_decimal accounts) plain_enums sample (empty_changes sample)
    ≡ result_map
        (replay (collector plain_decimal accounts) (empty_changes sample))
        (block_events plain_enums sample)
collect_block_refines_example =
    collect_block_refines (collector plain_decimal accounts) plain_enums sample
      (empty_changes sample)

abbrev collected : Proto.StateChanges
collected =
    or_default (empty_changes sample)
      (collect_block (collector plain_decimal accounts) plain_enums sample (empty_changes sample))

sample_collected :
    collect_block (collector plain_decimal accounts) plain_enums sample (empty_changes sample)
    ≡ ok collected
unfolding the_code
sample_collected = refl

abbrev OfBob : Eth.StorageChange → Ctx → Type 0
OfBob c ctx = c.address ≡ bob

collect_block-InCall_iff_example :
    (es : List Event) × (replay (collector plain_decimal accounts) (empty_changes sample) es
      ≡ collected)
    × (Any (IsStorage OfBob) es ↔ (
        Any (λ call. InCall OfBob (system_ctx call) call) sample.system_calls
        ⊎ Any (InSucceeded OfBob plain_enums) sample.transaction_traces))
collect_block-InCall_iff_example =
    collect_block-InCall_iff OfBob (collector plain_decimal accounts) plain_enums sample
      (empty_changes sample) collected sample_collected

abbrev after_failing : Proto.StateChanges
after_failing = or_default (empty_changes sample) (
    collect_transaction (collector plain_decimal accounts) plain_enums failing
      (empty_changes sample))

failing_collected :
    collect_transaction
      (collector plain_decimal accounts)
      plain_enums
      failing
      (empty_changes sample)
    ≡ ok after_failing
unfolding the_code
failing_collected = refl

failing_fails : is_failed plain_enums failing ≡ true
unfolding the_code
failing_fails = refl

collect_transaction-MayPersist_example :
    (es : List Event) × All (MayPersist plain_enums failing failed_call) es
    × (replay (collector plain_decimal accounts) (empty_changes sample) es ≡ after_failing)
collect_transaction-MayPersist_example =
    collect_transaction-MayPersist (collector plain_decimal accounts) plain_enums failing
      failed_call [] (empty_changes sample) after_failing failing_fails refl failing_collected

deletions-IsLatest_example :
    IsLatest plain_enums 1_800_000_000 bob sample.transaction_traces
      (get {K = Bytes} ((bob, 28) ∷ []) bob)
deletions-IsLatest_example =
    deletions-IsLatest plain_enums 1_800_000_000 bob sample ((bob, 28) ∷ []) sample_deletes

project-IsEnvelope_example :
    (f : Filter) × (h : Eth.BlockHeader) × (t : Eth.Timestamp) × (parse plain_hex params ≡ ok f)
    × IsEnvelope plain_enums f sample h t
    × IsIdentified plain_hex f sample h t state
project-IsEnvelope_example =
    project-IsEnvelope plain_hex plain_decimal plain_enums params sample state sample_projects

collect_block_verdict_example :
    Verdict
      (collect_block (collector plain_decimal accounts) plain_enums sample (empty_changes sample))
      (Any (IsRefused plain_enums) sample.transaction_traces)
collect_block_verdict_example =
    collect_block_verdict plain_enums (collector plain_decimal accounts) sample
      (empty_changes sample)

abbrev tree : List Eth.Call
tree = create_call ∷ doomed_call ∷ []

execution_address_ends_example : execution_address doomed_call tree ≢ err out_of_fuel
execution_address_ends_example = execution_address_ends doomed_call tree

doomed_runs : execution_address doomed_call tree ≡ ok bob
unfolding the_code
doomed_runs = refl

execution_address_sound_example : (r : Eth.Call) × Ancestor tree doomed_call r × (r.address ≡ bob)
execution_address_sound_example = execution_address_sound doomed_call tree bob doomed_runs

execution_address_tree_example : execution_address doomed_call tree ≢ err cyclic_ancestry
execution_address_tree_example =
    execution_address_tree doomed_call tree (omega arith, (omega arith, tt)) (omega arith)

matches-parse_example : (matches accounts alice ≡ true) ↔ (
    All (λ w. is_empty (trim w) ≡ true) (words params)
    ⊎ Any (λ w. Names plain_hex w alice) (words params))
matches-parse_example = matches-parse plain_hex params accounts alice sample_parses

parse_iff_example :
    ((f : Filter) × (parse plain_hex params ≡ ok f)) ↔ All (IsEntry plain_hex) (words params)
parse_iff_example = parse_iff plain_hex params

accounts-IsValid : IsValid accounts
accounts-IsValid = parse-IsValid plain_hex params accounts sample_parses

parse-canonical_example :
    (g : Filter) × (parse plain_hex (canonical plain_hex accounts) ≡ ok g)
    × ((a : Bytes) → contains g.accounts a ≡ contains accounts.accounts a)
    × (canonical plain_hex g ≡ canonical plain_hex accounts)
parse-canonical_example = parse-canonical plain_hex accounts accounts-IsValid

canonical_accounts :
    canonical plain_hex accounts
    ≡ codes "0x1111111111111111111111111111111111111111,0x2222222222222222222222222222222222222222"
unfolding the_code
canonical_accounts = refl

-- The accounts in the other order.
abbrev swapped : Filter
swapped = record { accounts = alice ∷ bob ∷ [] }

swapped_parses :
    parse plain_hex
      (codes "0x2222222222222222222222222222222222222222,1111111111111111111111111111111111111111")
    ≡ ok swapped
unfolding the_code
swapped_parses = refl

swapped-IsValid : IsValid swapped
swapped-IsValid = parse-IsValid plain_hex _ swapped swapped_parses

contains-swapped : (a : Bytes) → contains accounts.accounts a ≡ contains swapped.accounts a
unfolding contains
contains-swapped a = or_swap (bytes_eq bob a) (bytes_eq alice a)
  where
    or_swap : (x y : Bool) → (x || (y || false)) ≡ (y || (x || false))
    or_swap true true = refl
    or_swap true false = refl
    or_swap false true = refl
    or_swap false false = refl

canonical_unique_example : canonical plain_hex accounts ≡ canonical plain_hex swapped
canonical_unique_example =
    canonical_unique plain_hex accounts swapped accounts-IsValid swapped-IsValid contains-swapped

abbrev nonces : List Eth.NonceChange
nonces = nonce bob 1 9 ∷ nonce alice 1 11 ∷ nonce alice 1 14 ∷ []

sender_chosen : sender_nonce failing nonces ≡ some (1, nonce alice 1 11)
unfolding the_code
sender_chosen = refl

sender_nonce-some_example :
    In (1, nonce alice 1 11) (enumerate 0 nonces)
    × IsSenderNonce failing (nonce alice 1 11)
    × All (λ m. IsSenderNonce failing m.1 → 11 ≤ (m.1).ordinal) (enumerate 0 nonces)
sender_nonce-some_example = sender_nonce-some failing nonces (1, nonce alice 1 11) sender_chosen

no_sender : sender_nonce failing (nonce bob 1 9 ∷ nonce alice 0 3 ∷ []) ≡ none
unfolding the_code
no_sender = refl

sender_nonce-none_example :
    All (λ m. ¬ IsSenderNonce failing m.1) (enumerate 0 (nonce bob 1 9 ∷ nonce alice 0 3 ∷ []))
sender_nonce-none_example =
    sender_nonce-none failing (nonce bob 1 9 ∷ nonce alice 0 3 ∷ []) no_sender

abbrev padded : Eth.StorageChange
padded = slot alice (0 ∷ 7 ∷ []) (7 ∷ []) 4

storage_is_noop_iff_example :
    (storage_is_noop padded ≡ true) ↔ (be_value (0 ∷ 7 ∷ []) ≡ be_value (7 ∷ []))
storage_is_noop_iff_example =
    storage_is_noop_iff padded (omega arith, (omega arith, tt)) (omega arith, tt)

abbrev credited : Eth.BalanceChange
credited = record {
  address = alice;
  old_value = none;
  new_value = some (0 ∷ 9 ∷ []);
  reason = pos 9;
  ordinal = 4;
}

balance_is_noop_iff_example :
    (balance_is_noop credited ≡ true) ↔ (be_value [] ≡ be_value (0 ∷ 9 ∷ []))
balance_is_noop_iff_example = balance_is_noop_iff credited tt (omega arith, (omega arith, tt))

abbrev row : Proto.StorageValue
row = record {
  address = codes "0x2222222222222222222222222222222222222222";
  slot = codes "0x05";
  value = codes "0x06";
  ordinal = 22;
}

abbrev stored : Maps
stored = record no_rows { storage = ((row.address, row.slot), row) ∷ [] }

delete_accounts_storage_example :
    (get
        (delete_accounts plain_hex accounts ((bob, 28) ∷ []) stored).storage
        (row.address, row.slot)
      ≡ some row)
    ↔ ((get stored.storage (row.address, row.slot) ≡ some row)
        × All (Survives plain_hex accounts row.address row.ordinal) ((bob, 28) ∷ []))
delete_accounts_storage_example =
    delete_accounts_storage plain_hex accounts ((bob, 28) ∷ []) stored (row.address, row.slot) row
      (tt, tt)

-- Of the sample, one row of storage is left.
sample_rows :
    state.storage
    ≡ (record {
      address = codes "0x1111111111111111111111111111111111111111";
      slot = codes "0x0000000000000000000000000000000000000000000000000000000000000005";
      value = codes "0x0000000000000000000000000000000000000000000000000000000000000007";
      ordinal = 3;
    })
      ∷ []
unfolding the_code pair_ord text_ord
sample_rows = refl

delete_accounts_nonces_example :
    All
      (λ (e : Bytes × ℕ).
        (matches accounts e.0 ≡ false)
        ⊎ ((v : Proto.NonceValue) × (get
                (delete_accounts plain_hex accounts ((bob, 28) ∷ []) stored).nonces
                (hex_text plain_hex e.0)
              ≡ some v)
            × (e.1 ≤ v.ordinal)))
      ((bob, 28) ∷ [])
delete_accounts_nonces_example = delete_accounts_nonces plain_hex accounts ((bob, 28) ∷ []) stored

nonce_cleared :
    get (delete_accounts plain_hex accounts ((bob, 28) ∷ []) stored).nonces row.address
    ≡ some (zero_nonce row.address 28)
unfolding the_code text_ord
nonce_cleared = refl

delete_accounts_zero_nonces_example :
    (get stored.nonces row.address ≡ some (zero_nonce row.address 28))
    ⊎ Any
        (λ (e : Bytes × ℕ).
          (matches accounts e.0 ≡ true)
          × (hex_text plain_hex e.0 ≡ row.address)
          × (zero_nonce row.address 28 ≡ zero_nonce row.address e.1))
        ((bob, 28) ∷ [])
delete_accounts_zero_nonces_example =
    delete_accounts_zero_nonces plain_hex accounts ((bob, 28) ∷ []) stored row.address
      (zero_nonce row.address 28) nonce_cleared
