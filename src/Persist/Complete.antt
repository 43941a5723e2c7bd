-- ===== src/Persist/Complete.antt =====
-- About the storage records in the list of a block's events (src/persist.rs).
use substreams_evm_state.Prelude.{
  ◌≡◌, ◌↔◌, ◌⊎◌, inl, inr, refl, sym, ◌∙◌, false≢true, Bool, true, false, not, List, [], ◌∷◌, ◌++◌,
  arith, All, Any, Any-append, Any-map_filter, Any-mono, Any-none, >>=-eq-ok, if◌then◌else◌,
  Bool-cases, ok, ok-injective,
}
use substreams_evm_state.Extern.{Enums}
use substreams_evm_state.Eth
use substreams_evm_state.Proto.{tx, block}
use substreams_evm_state.Persist.{Ctx, block_ctx, base}
use substreams_evm_state.Persist.Rules.{
  is_failed, storage_is_noop, balance_is_noop, nonce_differs, code_differs,
}
use substreams_evm_state.Persist.Events.{
  Event, storage, balance, nonce, code, storage_events, balance_events, nonce_events, code_events,
  call_events, calls_events, failed_events, transaction_events, transactions_events, system_ctx,
  block_events,
}
use substreams_evm_state.Persist.Failed.{MayPersist, failed_MayPersist}

-- The event is the record of a storage change for which `P` holds.
abbrev pub IsStorage : (Eth.StorageChange → Ctx → Type 0) → Event → Type 0
IsStorage P (storage c ctx) = P c ctx
IsStorage P (balance c ctx) = ⊥
IsStorage P (nonce c ctx) = ⊥
IsStorage P (code c ctx) = ⊥

module _ (P : Eth.StorageChange → Ctx → Type 0) where
  -- A change of the call, of two different numbers, for which `P` holds.
  abbrev pub InCall : Ctx → Eth.Call → Type 0
  InCall ctx call =
      (call.state_reverted ≡ false)
      × Any (λ c. (storage_is_noop c ≡ false) × P c ctx) call.storage_changes

  no_balance :
      (ctx : Ctx) (cs : List Eth.BalanceChange) → ¬ Any (IsStorage P) (balance_events ctx cs)
  unfolding balance_events
  no_balance ctx cs h =
      Any-none (λ c. (not (balance_is_noop c) ≡ true) × ⊥) (λ c k. k.1) cs
        ((Any-map_filter (IsStorage P) (λ c. balance c ctx) (λ c. not (balance_is_noop c)) cs).0 h)

  no_nonce : (ctx : Ctx) (cs : List Eth.NonceChange) → ¬ Any (IsStorage P) (nonce_events ctx cs)
  unfolding nonce_events
  no_nonce ctx cs h =
      Any-none (λ c. (nonce_differs c ≡ true) × ⊥) (λ c k. k.1) cs
        ((Any-map_filter (IsStorage P) (λ c. nonce c ctx) nonce_differs cs).0 h)

  no_code : (ctx : Ctx) (cs : List Eth.CodeChange) → ¬ Any (IsStorage P) (code_events ctx cs)
  unfolding code_events
  no_code ctx cs h =
      Any-none (λ c. (code_differs c ≡ true) × ⊥) (λ c k. k.1) cs
        ((Any-map_filter (IsStorage P) (λ c. code c ctx) code_differs cs).0 h)

  -- A storage record that is no no-op, and for which `P` holds.
  abbrev Differs : Ctx → Eth.StorageChange → Type 0
  Differs ctx c = (storage_is_noop c ≡ false) × P c ctx

  storage_events_iff :
      (ctx : Ctx) (cs : List Eth.StorageChange)
      → Any (IsStorage P) (storage_events ctx cs) ↔ Any (Differs ctx) cs
  unfolding storage_events
  storage_events_iff ctx cs =
      let passes = λ (c : Eth.StorageChange). not (storage_is_noop c) in
      let m = Any-map_filter (IsStorage P) (λ c. storage c ctx) passes cs in
      (
        λ h.
            Any-mono (λ c. (passes c ≡ true) × P c ctx) (Differs ctx)
              (λ c k. (ground (arith, k.0), k.1)) cs (m.0 h),
        λ h. m.1 (
            Any-mono (Differs ctx) (λ c. (passes c ≡ true) × P c ctx)
              (λ c k. (ground (arith, k.0), k.1)) cs h),
      )

  call_events_iff :
      (ctx : Ctx) (call : Eth.Call)
      → Any (IsStorage P) (call_events ctx call) ↔ Any (Differs ctx) call.storage_changes
  unfolding call_events
  call_events_iff ctx call =
      let codes = code_events ctx call.code_changes in
      let nonces = nonce_events ctx call.nonce_changes in
      let balances = balance_events ctx call.balance_changes in
      let s1 =
        Any-append (IsStorage P) (storage_events ctx call.storage_changes)
          (balances ++ (nonces ++ codes)) in
      let s2 = Any-append (IsStorage P) balances (nonces ++ codes) in
      let s3 = Any-append (IsStorage P) nonces codes in
      let s = storage_events_iff ctx call.storage_changes in
      (
        λ h. elim (s1.0 h) [
          | inl k ↦ s.0 k
          | inr k ↦ elim (s2.0 k) [
            | inl x ↦ absurd (no_balance ctx call.balance_changes x)
            | inr x ↦ elim (s3.0 x) [
              | inl y ↦ absurd (no_nonce ctx call.nonce_changes y)
              | inr y ↦ absurd (no_code ctx call.code_changes y)
            ]
          ]
        ],
        λ h. s1.1 (inl (s.1 h)),
      )

  skipped_iff :
      (reverted : Bool) (es fs : List Event)
      → Any (IsStorage P) ((if reverted then [] else es) ++ fs)
        ↔ ((reverted ≡ false) × Any (IsStorage P) es ⊎ Any (IsStorage P) fs)
  skipped_iff true es fs = (λ h. inr h, elim [ inl h ↦ absurd (false≢true (sym h.0)) | inr h ↦ h ])
  skipped_iff false es fs =
      let split = Any-append (IsStorage P) es fs in
      (
        λ h. elim (split.0 h) [ inl k ↦ inl (refl, k) | inr k ↦ inr k ],
        elim [ inl h ↦ split.1 (inl h.1) | inr h ↦ split.1 (inr h) ],
      )

  calls_events_iff :
      (ctx : Eth.Call → Ctx) (calls : List Eth.Call)
      → Any (IsStorage P) (calls_events ctx calls) ↔ Any (λ call. InCall (ctx call) call) calls
  unfolding calls_events
  calls_events_iff ctx [] = (λ h. h, λ h. h)
  calls_events_iff ctx (call ∷ calls) =
      let ih = calls_events_iff ctx calls in
      let c = call_events_iff (ctx call) call in
      let s =
        skipped_iff call.state_reverted (call_events (ctx call) call) (calls_events ctx calls) in
      (
        λ h. elim (s.0 h) [ inl k ↦ inl (k.0, c.0 k.1) | inr k ↦ inr (ih.0 k) ],
        elim [ inl h ↦ s.1 (inl (h.0, c.1 h.1)) | inr h ↦ s.1 (inr (ih.1 h)) ],
      )

  -- A change of a call of the transaction, which succeeded.
  abbrev pub InSucceeded : Enums → Eth.TransactionTrace → Type 0
  InSucceeded en trx =
      (is_failed en trx ≡ false) × Any (λ call. InCall (base en trx tx call.index) call) trx.calls

  MayPersist-IsStorage :
      (en : Enums) (trx : Eth.TransactionTrace) (root : Eth.Call) (es : List Event)
      → All (MayPersist en trx root) es
      → ¬ Any (IsStorage P) es
  MayPersist-IsStorage en trx root [] a h = h
  MayPersist-IsStorage en trx root (storage c ctx ∷ es) a h = a.0
  MayPersist-IsStorage en trx root (balance c ctx ∷ es) a (inl h) = h
  MayPersist-IsStorage en trx root (balance c ctx ∷ es) a (inr h) =
      MayPersist-IsStorage en trx root es a.1 h
  MayPersist-IsStorage en trx root (nonce c ctx ∷ es) a (inl h) = h
  MayPersist-IsStorage en trx root (nonce c ctx ∷ es) a (inr h) =
      MayPersist-IsStorage en trx root es a.1 h
  MayPersist-IsStorage en trx root (code c ctx ∷ es) a (inl h) = h
  MayPersist-IsStorage en trx root (code c ctx ∷ es) a (inr h) =
      MayPersist-IsStorage en trx root es a.1 h

  failed-IsStorage :
      (en : Enums) (trx : Eth.TransactionTrace) (calls : List Eth.Call) (es : List Event)
      → is_failed en trx ≡ true
      → trx.calls ≡ calls
      → transaction_events en trx ≡ ok es
      → ¬ Any (IsStorage P) es
  unfolding transaction_events failed_events
  failed-IsStorage en trx [] es f c h =
      let e : [] ≡ es = ok-injective (ground (arith, f, c, h)) in rw (← e) (λ k. k)
  failed-IsStorage en trx (root ∷ calls) es f c h =
      MayPersist-IsStorage en trx root es (failed_MayPersist en trx root calls es f c h)

  transaction_events_iff :
      (en : Enums) (trx : Eth.TransactionTrace) (es : List Event)
      → transaction_events en trx ≡ ok es
      → Any (IsStorage P) es ↔ InSucceeded en trx
  unfolding transaction_events
  transaction_events_iff en trx es h = elim (Bool-cases (is_failed en trx)) [
    | inl e ↦ (
      λ k. absurd (failed-IsStorage en trx trx.calls es e refl h k),
      λ k. absurd (false≢true (sym k.0 ∙ e)),
    )
    | inr e ↦
        let c = calls_events_iff (λ call. base en trx tx call.index) trx.calls in
        let same : calls_events (λ call. base en trx tx call.index) trx.calls ≡ es =
          ok-injective (rw e at h) in
        (λ k. (e, c.0 (rw same k)), λ k. rw (← same) (c.1 k.1))
  ]

  transactions_events_iff :
      (en : Enums) (trxs : List Eth.TransactionTrace) (es : List Event)
      → transactions_events en trxs ≡ ok es
      → Any (IsStorage P) es ↔ Any (InSucceeded en) trxs
  unfolding transactions_events
  transactions_events_iff en [] es h = rw (← ok-injective h) ((λ k. k), (λ k. k))
  transactions_events_iff en (trx ∷ trxs) es h =
      let (fs, e, h') = >>=-eq-ok (transaction_events en trx) _ h in
      let (gs, e', h'') = >>=-eq-ok (transactions_events en trxs) _ h' in
      let t = transaction_events_iff en trx fs e in
      let ih = transactions_events_iff en trxs gs e' in
      let split = Any-append (IsStorage P) fs gs in
      rw (← ok-injective h'') (
        λ k. elim (split.0 k) [ inl x ↦ inl (t.0 x) | inr x ↦ inr (ih.0 x) ],
        elim [ inl x ↦ split.1 (inl (t.1 x)) | inr x ↦ split.1 (inr (ih.1 x)) ],
      )

  -- A storage record persists in a block exactly if it changes the number of its slot and stands in
  -- a call that was not reverted, of the block's system calls or of a transaction that succeeded.
  pub IsStorage-persists_iff :
      (en : Enums) (b : Eth.Block) (es : List Event)
      → block_events en b ≡ ok es
      → Any (IsStorage P) es ↔ (
          Any (λ call. InCall (system_ctx call) call) b.system_calls
          ⊎ Any (InSucceeded en) b.transaction_traces)
  unfolding block_events
  IsStorage-persists_iff en b es h =
      let (fs, e, h') = >>=-eq-ok (transactions_events en b.transaction_traces) _ h in
      let codes = code_events (block_ctx block) b.code_changes in
      let balances = balance_events (block_ctx block) b.balance_changes in
      let system = calls_events system_ctx b.system_calls in
      let s1 = Any-append (IsStorage P) system (balances ++ (codes ++ fs)) in
      let s2 = Any-append (IsStorage P) balances (codes ++ fs) in
      let s3 = Any-append (IsStorage P) codes fs in
      let c = calls_events_iff system_ctx b.system_calls in
      let t = transactions_events_iff en b.transaction_traces fs e in
      rw (← ok-injective h') (
        λ k. elim (s1.0 k) [
          | inl x ↦ inl (c.0 x)
          | inr x ↦ elim (s2.0 x) [
            | inl y ↦ absurd (no_balance (block_ctx block) b.balance_changes y)
            | inr y ↦ elim (s3.0 y) [
              | inl z ↦ absurd (no_code (block_ctx block) b.code_changes z)
              | inr z ↦ inr (t.0 z)
            ]
          ]
        ],
        elim [ inl x ↦ s1.1 (inl (c.1 x)) | inr x ↦ s1.1 (inr (s2.1 (inr (s3.1 (inr (t.1 x)))))) ],
      )
