-- ===== src/Lifecycle/Deletions.antt =====
-- About what `deletions` of src/lifecycle.rs returns.
use substreams_evm_state.Prelude.{
  ℕ, ◌≤◌, ◌≡◌, ◌⊎◌, inl, inr, sym, subst, ap, ◌∙◌, false≢true, false, not, Option, none, some, List,
  [], ◌∷◌, Bytes, arith, any, All, Any, Bool-cases, ok, >>=-eq-ok, require, system_selfdestruct,
  ok-injective,
}
use substreams_evm_state.Prelude.Order.{text_ord}
use substreams_evm_state.Btree.{get}
use substreams_evm_state.Extern.{Enums}
use substreams_evm_state.Eth
use substreams_evm_state.Persist.Rules.{is_failed}
use substreams_evm_state.Lifecycle.{
  is_doomed, raise, Ends, delete_calls, delete_transactions, deletions,
}
use substreams_evm_state.Lifecycle.Latest.{Deletes, delete_calls-get}

some_eq : {v w : ℕ} → some v ≡ some w → v ≡ w
some_eq h = cc

module _ (en : Enums) (timestamp : ℕ) (a : Bytes) where
  -- The transaction succeeded, and one of its calls deletes the account.
  abbrev pub DeletesAt : Eth.TransactionTrace → Type 0
  DeletesAt trx = (is_failed en trx ≡ false) × Any (Deletes timestamp trx a) trx.calls

  -- The entry is the end of a transaction that deletes the account, and of the last one.
  pub record IsLatest (trxs : List Eth.TransactionTrace) (entry : Option ℕ) : Type 0 where
    pub sound : (o : ℕ) → entry ≡ some o → Any (λ trx. DeletesAt trx × (trx.end_ordinal ≡ o)) trxs
    pub complete :
        All (λ trx. DeletesAt trx → (o : ℕ) × (entry ≡ some o) × (trx.end_ordinal ≤ o)) trxs

  -- The same, where an earlier part of the block had left the entry `o`.
  record Continues (o : Option ℕ) (trxs : List Eth.TransactionTrace) (r : Option ℕ) : Type 0 where
    sound :
        (v : ℕ)
        → r ≡ some v
        → (o ≡ some v) ⊎ Any (λ trx. DeletesAt trx × (trx.end_ordinal ≡ v)) trxs
    complete : All (λ trx. DeletesAt trx → (v : ℕ) × (r ≡ some v) × (trx.end_ordinal ≤ v)) trxs
    grows : (w : ℕ) → o ≡ some w → (v : ℕ) × (r ≡ some v) × (w ≤ v)

  raise_cases : (o : Option ℕ) (e v : ℕ) → raise o e ≡ v → (o ≡ some v) ⊎ (e ≡ v)
  unfolding raise
  raise_cases none e v h = inr h
  raise_cases (some w) e v h = ground (arith, h)

  le-raise : (o : Option ℕ) (e : ℕ) → e ≤ raise o e
  unfolding raise
  le-raise none e = omega arith
  le-raise (some w) e = omega arith

  raise-grows : (o : Option ℕ) (e w : ℕ) → o ≡ some w → w ≤ raise o e
  unfolding raise
  raise-grows none e w h = cc
  raise-grows (some v) e w h = ground (arith, h)

  delete_transactions-get :
      (trxs : List Eth.TransactionTrace) (m m' : Ends)
      → delete_transactions en timestamp trxs m ≡ ok m'
      → Continues (get m a) trxs (get m' a)
  unfolding delete_transactions
  delete_transactions-get [] m m' h =
      let e : get m a ≡ get m' a = ap (λ (x : Ends). get x a) (ok-injective h) in
      record {
        sound = λ v k. inl (e ∙ k);
        complete = tt;
        grows = λ w k. (w, sym e ∙ k, omega arith);
      }
  delete_transactions-get (trx ∷ trxs) m m' h = elim (Bool-cases (is_failed en trx)) [
    | inl f ↦
        let ih = delete_transactions-get trxs m m' (ground (arith, f, h)) in
        record {
          sound = λ v k. elim (ih.sound v k) [ inl x ↦ inl x | inr x ↦ inr (inr x) ];
          complete = (λ d. absurd (false≢true (sym d.0 ∙ f)), ih.complete);
          grows = ih.grows;
        }
    | inr s ↦
        let (m1, e, h') =
          >>=-eq-ok (delete_calls timestamp trx trx.calls m)
            (λ x. delete_transactions en timestamp trxs x) (ground (arith, s, h)) in
        let ih = delete_transactions-get trxs m1 m' h' in
        elim (delete_calls-get timestamp trx trx.calls m m1 a e) [
          | inl (d, q) ↦ record {
            sound = λ v k. elim (ih.sound v k) [
              | inl x ↦ elim (raise_cases (get m a) trx.end_ordinal v (some_eq (sym q ∙ x))) [
                | inl y ↦ inl y
                | inr y ↦ inr (inl ((s, d), y))
              ]
              | inr x ↦ inr (inr x)
            ];
            complete = (
              λ _.
                  let (v, r, l) = ih.grows (raise (get m a) trx.end_ordinal) q in
                  (v, r, omega (arith, le-raise (get m a) trx.end_ordinal)),
              ih.complete,
            );
            grows = λ w k.
                let (v, r, l) = ih.grows (raise (get m a) trx.end_ordinal) q in
                (v, r, omega (arith, raise-grows (get m a) trx.end_ordinal w k));
          }
          | inr (n, q) ↦ record {
            sound = λ v k. elim (ih.sound v k) [ inl x ↦ inl (sym q ∙ x) | inr x ↦ inr (inr x) ];
            complete = (λ d. absurd (n d.1), ih.complete);
            grows = λ w k. ih.grows w (q ∙ k);
          }
        ]
  ]

  -- In the deletions of an accepted block an account has an entry exactly if a transaction that
  -- succeeded deletes it, and the entry is the greatest end ordinal of those transactions.
  pub deletions-IsLatest :
      (b : Eth.Block) (m : Ends)
      → deletions en b timestamp ≡ ok m
      → IsLatest b.transaction_traces (get m a)
  unfolding deletions get
  deletions-IsLatest b m h =
      let (m1, e, h') = >>=-eq-ok (delete_transactions en timestamp b.transaction_traces []) _ h in
      let (u, r, h'') =
        >>=-eq-ok (require (not (any is_doomed b.system_calls)) system_selfdestruct) _ h' in
      let c = delete_transactions-get b.transaction_traces [] m1 e in
      subst (λ (x : Ends). IsLatest b.transaction_traces (get x a)) (ok-injective h'')
        (record {
          sound = λ o k. elim (c.sound o k) [ inl x ↦ cc x | inr x ↦ x ];
          complete = c.complete;
        })
