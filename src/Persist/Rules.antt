-- ===== src/Persist/Rules.antt =====
-- src/persist.rs: the tests that decide which records persist.
use substreams_evm_state.Prelude.{
  ℕ, ◌+◌, Bool, true, false, not, ◌&&◌, Option, none, some, List, [], ◌∷◌, Bytes, filter, is_empty,
  bytes_eq, ltb, ◌==◌, if◌then◌else◌,
}
use substreams_evm_state.Prelude.Int.{u64_mod}
use substreams_evm_state.Extern.{
  Enums, TxStatus, succeeded, Reason, gas_buy, gas_refund, reward_transaction_fee,
}
use substreams_evm_state.Eth

abbrev is_succeeded : TxStatus → Bool
is_succeeded succeeded = true
is_succeeded _ = false

abbrev is_gas : Reason → Bool
is_gas gas_buy = true
is_gas gas_refund = true
is_gas reward_transaction_fee = true
is_gas _ = false

module _ (en : Enums) where
  unfoldable pub is_failed : Eth.TransactionTrace → Bool
  is_failed trx = not (is_succeeded (en.status trx.status))

  unfoldable pub is_gas_reason : Eth.BalanceChange → Bool
  is_gas_reason bc = is_gas (en.reason bc.reason)

unfoldable pub strip_zeros : Bytes → Bytes
strip_zeros [] = []
strip_zeros (b ∷ bs) = let rest = strip_zeros bs in if b == 0 then rest else b ∷ bs

-- `map(|v| v.bytes.as_slice()).unwrap_or(&[])`
abbrev pub bytes_or_empty : Option Bytes → Bytes
bytes_or_empty none = []
bytes_or_empty (some b) = b

unfoldable pub balance_is_noop : Eth.BalanceChange → Bool
balance_is_noop bc =
    bytes_eq (strip_zeros (bytes_or_empty bc.old_value)) (strip_zeros (bytes_or_empty bc.new_value))

unfoldable pub storage_is_noop : Eth.StorageChange → Bool
storage_is_noop sc = bytes_eq (strip_zeros sc.old_value) (strip_zeros sc.new_value)

-- `c.old_value != c.new_value`
abbrev pub nonce_differs : Eth.NonceChange → Bool
nonce_differs c = not (c.old_value == c.new_value)

-- `c.old_hash != c.new_hash`
abbrev pub code_differs : Eth.CodeChange → Bool
code_differs c = not (bytes_eq c.old_hash c.new_hash)

authority_of : List Eth.SetCodeAuthorization → List Bytes
authority_of [] = []
authority_of (a ∷ as') =
    let rest = authority_of as' in
    elim a.authority [
      | none ↦ rest
      | some bytes ↦ if not a.discarded && not (is_empty bytes) then bytes ∷ rest else rest
    ]

-- The `HashSet` is only asked whether it is empty and what it contains.
unfoldable pub authorities : Eth.TransactionTrace → List Bytes
unfolding authority_of
authorities trx = if trx.is_set_code then authority_of trx.set_code_authorizations else []

-- `Some(n.new_value) == trx.nonce.checked_add(1)`
abbrev pub is_increment : ℕ → ℕ → Bool
is_increment nonce new = ltb (nonce + 1) u64_mod && new == nonce + 1

-- The filter of `sender_nonce`.
unfoldable pub is_sender_nonce : Eth.TransactionTrace → Eth.NonceChange → Bool
is_sender_nonce trx n =
    ltb 0 n.ordinal
    && bytes_eq n.address trx.from
    && n.old_value == trx.nonce
    && is_increment trx.nonce n.new_value

-- A record with its place in the list, which stands for its address (`std::ptr::eq`).
abbrev pub Indexed : Type 0
Indexed = ℕ × Eth.NonceChange

unfoldable pub enumerate : ℕ → List Eth.NonceChange → List Indexed
enumerate i [] = []
enumerate i (n ∷ ns) = (i, n) ∷ enumerate (i + 1) ns

-- `min_by_key(|n| n.ordinal)`: the first of the least, after `best`.
unfoldable pub min_by_ordinal : Indexed → List Indexed → Indexed
min_by_ordinal best [] = best
min_by_ordinal best (n ∷ ns) =
    min_by_ordinal (if ltb (n.1).ordinal (best.1).ordinal then n else best) ns

unfoldable pub first_min : List Indexed → Option Indexed
first_min [] = none
first_min (n ∷ ns) = some (min_by_ordinal n ns)

unfoldable pub sender_nonce : Eth.TransactionTrace → List Eth.NonceChange → Option Indexed
sender_nonce trx ns = first_min (filter (λ n. is_sender_nonce trx n.1) (enumerate 0 ns))

-- `sender_nonce.is_some_and(|sender| std::ptr::eq(nc, sender))`
abbrev pub is_same_record : Option Indexed → Indexed → Bool
is_same_record none n = false
is_same_record (some s) n = s.0 == n.0

-- `before_execution`, for the root call's begin ordinal
abbrev pub before_execution : ℕ → ℕ → Bool
before_execution begin_ordinal ordinal = ltb 0 ordinal && ltb ordinal begin_ordinal
