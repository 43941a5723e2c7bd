-- ===== src/Persist/Failed.antt =====
-- About the branch of `collect_transaction` of src/persist.rs for a transaction that did not succeed.
use substreams_evm_state.Prelude.{
  ℕ, ◌<◌, ◌≡◌, ◌≢◌, ◌⊎◌, refl, sym, ap, ◌∙◌, subst, false≢true, true, false, not, List, [], ◌∷◌,
  ◌&&◌, Bytes, arith, contains, bytes_eq_of_eq, is_empty, ◌==◌, All, All-append, All-map_filter_in,
  In, ◌+◌, Bool-cases, inl, inr, ok, ok-injective, Option-cases, Result-cases,
}
use substreams_evm_state.Extern.{Enums}
use substreams_evm_state.Eth
use substreams_evm_state.Proto.{tx_failed_persistent, tx_7702}
use substreams_evm_state.Persist.{Ctx, base}
use substreams_evm_state.Persist.Rules.{
  is_failed, is_gas_reason, balance_is_noop, code_differs, authorities, Indexed, enumerate,
  sender_nonce,
}
use substreams_evm_state.Persist.Events.{
  Event, storage, balance, nonce, code, gas_events, sender_events, is_auth_nonce, is_auth_code,
  auth_nonce_events, auth_code_events, auth_events, root_events, failed_events, transaction_events,
}
use substreams_evm_state.Persist.Sender.{IsSenderNonce, sender_nonce-some}

code_ne : (c : Eth.CodeChange) → code_differs c ≡ true → c.old_hash ≢ c.new_hash
code_ne c h e = false≢true (sym (ap not (bytes_eq_of_eq e)) ∙ h)

In-enumerate : (n : Indexed) (i : ℕ) (ns : List Eth.NonceChange) → In n (enumerate i ns) → In n.1 ns
unfolding enumerate
In-enumerate n i [] m = absurd m
In-enumerate n i (c ∷ ns) (inl e) = inl (ap (λ (x : Indexed). x.1) e)
In-enumerate n i (c ∷ ns) (inr m) = inr (In-enumerate n (i + 1) ns m)

module _ (en : Enums) (trx : Eth.TransactionTrace) (root : Eth.Call) where
  -- The record was written by the authorization list: after the transaction began and before its
  -- root call did, for one of its authorities.
  abbrev pub IsAuthorized : Bytes → ℕ → Ctx → Type 0
  IsAuthorized address ordinal ctx =
      (contains (authorities trx) address ≡ true)
      × (0 < ordinal)
      × (ordinal < root.begin_ordinal)
      × (ctx ≡ base en trx tx_7702 root.index)

  -- What may persist of a failed transaction: records of its root call.
  abbrev pub MayPersist : Event → Type 0
  MayPersist (storage c ctx) = ⊥
  MayPersist (balance c ctx) =
      In c root.balance_changes
      × (is_gas_reason en c ≡ true)
      × (balance_is_noop c ≡ false)
      × (ctx ≡ base en trx tx_failed_persistent root.index)
  MayPersist (nonce c ctx) =
      In c root.nonce_changes
      × (IsSenderNonce trx c × (ctx ≡ base en trx tx_failed_persistent root.index)
          ⊎ (c.old_value ≢ c.new_value) × IsAuthorized c.address c.ordinal ctx)
  MayPersist (code c ctx) =
      In c root.code_changes × (c.old_hash ≢ c.new_hash) × IsAuthorized c.address c.ordinal ctx

  gas_MayPersist :
      All MayPersist
        (gas_events en (base en trx tx_failed_persistent root.index) root.balance_changes)
  unfolding gas_events
  gas_MayPersist =
      All-map_filter_in MayPersist (λ c. balance c (base en trx tx_failed_persistent root.index))
        (λ c. is_gas_reason en c && not (balance_is_noop c)) root.balance_changes
        (λ c i e. (i, ground (arith, e), ground (arith, e), refl))

  sender_MayPersist : All MayPersist (
      sender_events
        (base en trx tx_failed_persistent root.index)
        (sender_nonce trx root.nonce_changes))
  unfolding sender_events
  sender_MayPersist = elim (Option-cases (sender_nonce trx root.nonce_changes)) [
    | inl e ↦ rw e tt
    | inr (n, e) ↦
        let (i, s, _) = sender_nonce-some trx root.nonce_changes n e in
        rw e ((In-enumerate n 0 root.nonce_changes i, inl (s, refl)), tt)
  ]

  auth_nonce_MayPersist : All MayPersist (
      auth_nonce_events
        (base en trx tx_7702 root.index)
        (sender_nonce trx root.nonce_changes)
        (authorities trx)
        root.begin_ordinal
        (enumerate 0 root.nonce_changes))
  unfolding auth_nonce_events
  auth_nonce_MayPersist =
      All-map_filter_in MayPersist (λ n. nonce n.1 (base en trx tx_7702 root.index))
        (is_auth_nonce (sender_nonce trx root.nonce_changes) (authorities trx) root.begin_ordinal)
        (enumerate 0 root.nonce_changes)
        (λ n i e. (
          In-enumerate n 0 root.nonce_changes i,
          inr (ground (arith, e), (ground (arith, e), ground (arith, e), ground (arith, e), refl)),
        ))

  auth_code_MayPersist : All MayPersist (
      auth_code_events
        (base en trx tx_7702 root.index)
        (authorities trx)
        root.begin_ordinal
        root.code_changes)
  unfolding auth_code_events
  auth_code_MayPersist =
      All-map_filter_in MayPersist (λ c. code c (base en trx tx_7702 root.index))
        (is_auth_code (authorities trx) root.begin_ordinal) root.code_changes
        (λ c i e. (
          i,
          code_ne c (ground (arith, e)),
          (ground (arith, e), ground (arith, e), ground (arith, e), refl),
        ))

  auth_events-MayPersist : (es : List Event) → auth_events en trx root ≡ ok es → All MayPersist es
  unfolding auth_events
  auth_events-MayPersist es h = elim (Bool-cases (is_empty (authorities trx))) [
    | inl e ↦ subst (All MayPersist) (ok-injective (rw e at h)) tt
    | inr e ↦ elim (Bool-cases (root.begin_ordinal == 0)) [
      | inl z ↦ absurd (ground (arith, e, z, h))
      | inr z ↦ subst (All MayPersist) (ok-injective (rw (e, z) at h)) (
          All-append MayPersist
            (auth_nonce_events (base en trx tx_7702 root.index)
              (sender_nonce trx root.nonce_changes) (authorities trx) root.begin_ordinal
              (enumerate 0 root.nonce_changes))
            (auth_code_events (base en trx tx_7702 root.index) (authorities trx) root.begin_ordinal
              root.code_changes)
            auth_nonce_MayPersist auth_code_MayPersist)
    ]
  ]

  root_events-MayPersist : (es : List Event) → root_events en trx root ≡ ok es → All MayPersist es
  unfolding root_events
  root_events-MayPersist es h = elim (Result-cases (auth_events en trx root)) [
    | inl (auth, e) ↦ subst (All MayPersist) (ok-injective (rw e at h)) (
        All-append MayPersist
          (gas_events en (base en trx tx_failed_persistent root.index) root.balance_changes) _
          gas_MayPersist
          (All-append MayPersist
            (sender_events (base en trx tx_failed_persistent root.index)
              (sender_nonce trx root.nonce_changes))
            auth sender_MayPersist (auth_events-MayPersist auth e)))
    | inr (c, e) ↦ absurd (ground (arith, e, h))
  ]

-- `calls.first()`
abbrev pub IsRoot : Eth.Call → List Eth.Call → Type 0
IsRoot root [] = ⊥
IsRoot root (call ∷ calls) = call ≡ root

-- Of a transaction that did not succeed nothing persists but gas changes of its root call, the
-- sender's nonce increment, and changes that its authorization list made before execution.
pub failed_MayPersist :
    (en : Enums) (trx : Eth.TransactionTrace) (root : Eth.Call) (calls : List Eth.Call)
    (es : List Event)
    → is_failed en trx ≡ true
    → trx.calls ≡ root ∷ calls
    → transaction_events en trx ≡ ok es
    → All (MayPersist en trx root) es
unfolding transaction_events failed_events
failed_MayPersist en trx root calls es failed roots h =
    root_events-MayPersist en trx root es (ground (arith, failed, roots, h))
