-- ===== src/Persist/Refused.antt =====
-- About the error of `collect_block` of src/persist.rs.
use substreams_evm_state.Prelude.{
  ◌≡◌, ◌⊎◌, inl, inr, sym, ◌∙◌, false≢true, true, false, List, [], ◌∷◌, is_empty, ◌==◌, ==_iff, Any,
  Bool-cases, Result, Error, ok, err, missing_boundary, IsOk, ◌>>=◌, ◌++◌,
}
use substreams_evm_state.Extern.{Enums}
use substreams_evm_state.Eth
use substreams_evm_state.Persist.{Sink, collect_block}
use substreams_evm_state.Persist.Rules.{is_failed, authorities}
use substreams_evm_state.Persist.Events.{
  replay, auth_events, root_events, failed_events, transaction_events, transactions_events,
  block_events,
}
use substreams_evm_state.Persist.Refinement.{result_map, collect_block_refines}

-- The root call has no begin ordinal.
abbrev pub NoBoundary : List Eth.Call → Type 0
NoBoundary [] = ⊥
NoBoundary (root ∷ calls) = root.begin_ordinal ≡ 0

-- A transaction that did not succeed has an authority, and nothing tells its authorizations from
-- what its execution did.
pub record IsRefused (en : Enums) (trx : Eth.TransactionTrace) : Type 0 where
  pub failed : is_failed en trx ≡ true
  pub authorized : is_empty (authorities trx) ≡ false
  pub unbounded : NoBoundary trx.calls

-- The result is the error of a refused case, or a value where nothing is refused.
abbrev pub Verdict : {A : Type 0} → Result A → Type 0 → Type 0
Verdict r Refused = (r ≡ err missing_boundary) × Refused ⊎ IsOk r × ¬ Refused

IsOk-map : {A B : Type 0} (r : Result A) (f : A → B) → IsOk r → IsOk (r >>= λ a. ok (f a))
IsOk-map (ok a) f h = tt
IsOk-map (err e) f h = h

IsOk-bind :
    {A B : Type 0} (r : Result A) (f : A → Result B)
    → IsOk r
    → ((a : A) → IsOk (f a))
    → IsOk (r >>= f)
IsOk-bind (ok a) f h k = k a
IsOk-bind (err e) f h k = h

bind_err :
    {A B : Type 0} (r : Result A) (f : A → Result B) {e : Error}
    → IsOk r
    → ((a : A) → f a ≡ err e)
    → (r >>= f) ≡ err e
bind_err (ok a) f h k = k a
bind_err (err e) f h k = absurd h

IsOk-result_map : {A B : Type 0} (f : A → B) (r : Result A) → IsOk r → IsOk (result_map f r)
IsOk-result_map f (ok a) h = tt
IsOk-result_map f (err e) h = h

module _ (en : Enums) where
  auth_verdict :
      (trx : Eth.TransactionTrace) (root : Eth.Call)
      → Verdict
          (auth_events en trx root)
          ((is_empty (authorities trx) ≡ false) × (root.begin_ordinal ≡ 0))
  unfolding auth_events
  auth_verdict trx root = elim (Bool-cases (is_empty (authorities trx))) [
    | inl e ↦ inr (rw e tt, λ k. false≢true (sym k.0 ∙ e))
    | inr e ↦ elim (Bool-cases (root.begin_ordinal == 0)) [
      | inl z ↦ inl (rw (e, z), (e, (==_iff root.begin_ordinal 0).0 z))
      | inr z ↦ inr (rw (e, z) tt, λ k. false≢true (sym z ∙ (==_iff root.begin_ordinal 0).1 k.1))
    ]
  ]

  root_verdict :
      (trx : Eth.TransactionTrace) (root : Eth.Call)
      → Verdict
          (root_events en trx root)
          ((is_empty (authorities trx) ≡ false) × (root.begin_ordinal ≡ 0))
  unfolding root_events
  root_verdict trx root = elim (auth_verdict trx root) [
    | inl (e, r) ↦ inl (rw e, r)
    | inr (o, n) ↦ inr (IsOk-map (auth_events en trx root) _ o, n)
  ]

  failed_verdict :
      (trx : Eth.TransactionTrace) (calls : List Eth.Call)
      → Verdict
          (failed_events en trx calls)
          ((is_empty (authorities trx) ≡ false) × NoBoundary calls)
  unfolding failed_events
  failed_verdict trx [] = inr (tt, λ k. k.1)
  failed_verdict trx (root ∷ calls) = root_verdict trx root

  transaction_verdict :
      (trx : Eth.TransactionTrace) → Verdict (transaction_events en trx) (IsRefused en trx)
  unfolding transaction_events
  transaction_verdict trx = elim (Bool-cases (is_failed en trx)) [
    | inl e ↦ elim (failed_verdict trx trx.calls) [
      | inl (h, r) ↦ inl (rw e h, record { failed = e; authorized = r.0; unbounded = r.1 })
      | inr (h, n) ↦ inr (rw e h, λ k. n (k.authorized, k.unbounded))
    ]
    | inr e ↦ inr (rw e tt, λ k. false≢true (sym e ∙ k.failed))
  ]

  transactions_verdict :
      (trxs : List Eth.TransactionTrace)
      → Verdict (transactions_events en trxs) (Any (IsRefused en) trxs)
  unfolding transactions_events
  transactions_verdict [] = inr (tt, λ k. k)
  transactions_verdict (trx ∷ trxs) = elim (transaction_verdict trx) [
    | inl (e, r) ↦ inl (rw e, inl r)
    | inr (o, n) ↦ elim (transactions_verdict trxs) [
      | inl (f, r) ↦ inl (bind_err (transaction_events en trx) _ o (λ es. rw f), inr r)
      | inr (q, m) ↦ inr (
        IsOk-bind (transaction_events en trx) _ o
            (λ es. IsOk-map (transactions_events en trxs) (λ fs. es ++ fs) q),
        elim [ inl k ↦ n k | inr k ↦ m k ],
      )
    ]
  ]

  -- The collection of a block is refused, for the missing boundary, exactly if one of its
  -- transactions did not succeed, has a non-discarded authority and has a root call whose begin
  -- ordinal is zero; otherwise it returns.
  pub collect_block_verdict :
      {S : Type 0} (out : Sink S) (b : Eth.Block) (s : S)
      → Verdict (collect_block out en b s) (Any (IsRefused en) b.transaction_traces)
  unfolding block_events
  collect_block_verdict out b s = elim (transactions_verdict b.transaction_traces) [
    | inl (e, r) ↦ inl (collect_block_refines out en b s ∙ rw e, r)
    | inr (o, n) ↦ inr (
      rw (collect_block_refines out en b s) (
          IsOk-result_map (replay out s) (block_events en b)
            (IsOk-map (transactions_events en b.transaction_traces) _ o)),
      n,
    )
  ]
