-- ===== src/History/Protects.antt =====
-- About the plan of crates/evm-state/src/history.rs: what stays of the native history.
use substreams_evm_state.Prelude.{
  ℕ, ◌+◌, ◌-◌, ◌≤◌, ◌<◌, ◌≡◌, ◌⊎◌, false, Option, some, List, [], Text, any, contains, All, Result,
  ok, ensure, >>=-eq-ok, ok-injective, subst,
}
use substreams_evm_state.Extern.{Hex}
use substreams_evm_state.Json
use substreams_evm_state.Json.{Json, index}
use substreams_evm_state.Json.Read.{string_field, uint}
use substreams_evm_state.Proof.{canonical_accounts}
use substreams_evm_state.History.{
  Answers, Partitions, partitions_before, read_schemas, is_qualified, state_blocks, markers, Plan,
}

-- The partition ends before the block.
abbrev pub EndsBefore : ℕ → Json → Type 0
EndsBefore n row = (last : ℕ) × (uint (index row "last") ≡ ok last) × (last < n)

-- What the query asks for: only partitions whose last block precedes the number.
abbrev pub IsExact : Answers → Type 0
IsExact db =
    (table : Text) (n : ℕ) (rows : List Json)
    → db.partitions table n ≡ ok rows
    → All (EndsBefore n) rows

pub partitions_before-EndsBefore :
    (db : Answers) (n : ℕ) (p : Partitions)
    → IsExact db
    → partitions_before db n ≡ ok p
    → All (EndsBefore n) p.of_state_blocks × All (EndsBefore n) p.of_markers
unfolding partitions_before
partitions_before-EndsBefore db n p exact h =
    let (rows, c1, h1) = >>=-eq-ok db.schemas _ h in
    let (schemas, c2, h2) = >>=-eq-ok (read_schemas rows []) _ h1 in
    let (u, c3, h3) =
      >>=-eq-ok
        (ensure (is_qualified schemas)
          "native history schema does not match the qualified partition layout")
        _ h2 in
    let (a, c4, h4) = >>=-eq-ok (db.partitions state_blocks n) _ h3 in
    let (b, c5, h5) = >>=-eq-ok (db.partitions markers n) _ h4 in
    let e = ok-injective h5 in
    (
      subst (λ (q : Partitions). All (EndsBefore n) q.of_state_blocks) e
          (exact state_blocks n a c4),
      subst (λ (q : Partitions). All (EndsBefore n) q.of_markers) e (exact markers n b c5),
    )

module _ (hex : Hex) (parse_json : Text → Option Json) where
  -- A retained checkpoint: it has no account of the source, or a block number that is not below the
  -- floor.
  pub record IsProtected (selected : List Text) (floor : ℕ) (row : Json) : Type 0 where
    pub manifest : Text
    pub checkpoint : Json
    pub accounts : List Text
    pub read : string_field row "manifest" ≡ ok manifest
    pub parsed : parse_json manifest ≡ some checkpoint
    pub listed : canonical_accounts hex (index checkpoint "accounts") ≡ ok accounts
    pub safe :
        (any (λ a. contains selected a) accounts ≡ false)
        ⊎ ((number : ℕ) × (uint (index (index checkpoint "header") "number") ≡ ok number)
            × (floor ≤ number))

  -- The partition ends at or before the block, and as many blocks before the tip as are to stay.
  abbrev pub IsSpent : ℕ → ℕ → ℕ → Json → Type 0
  IsSpent number keep_blocks tip row =
      (last : ℕ) × (uint (index row "last") ≡ ok last)
      × (last ≤ number)
      × (last + keep_blocks ≤ tip)

  -- The answers that a plan is made of, read without an error, and what it may remove of them.
  pub record IsCleaned (run : Json) (manifest durable : Result Json) (retained : Result (List Json))
      (keep_blocks : ℕ) (p : Plan) : Type 0 where
    pub ready : Json
    pub progress : Json
    pub number : ℕ
    pub tip : ℕ
    pub selected : List Text
    pub rows : List Json
    pub has_ready : manifest ≡ ok ready
    pub has_progress : durable ≡ ok progress
    pub has_rows : retained ≡ ok rows
    pub has_number : uint (index (index ready "header") "number") ≡ ok number
    pub has_tip : uint (index (index (index progress "position") "block") "number") ≡ ok tip
    pub has_selected :
        canonical_accounts hex (index (index run "identity") "accounts") ≡ ok selected
    pub state_blocks_spent : All (IsSpent number keep_blocks tip) p.partitions.of_state_blocks
    pub markers_spent : All (IsSpent number keep_blocks tip) p.partitions.of_markers
    pub rows_protected : All (IsProtected selected (p.remove_before - 1)) rows
