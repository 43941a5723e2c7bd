-- ===== src/Lifecycle/Latest.antt =====
-- About the loop of `deletions` of src/lifecycle.rs over the calls of one transaction.
use substreams_evm_state.Prelude.{
  ℕ, ◌<◌, ◌≡◌, ◌⊎◌, inl, inr, sym, subst, ap, ◌∙◌, false≢true, true, false, ◌||◌, Option, none,
  some, List, [], ◌∷◌, Bytes, arith, leb, ◌==◌, Any, Bool-cases, ok, >>=-eq-ok, ok-injective,
}
use substreams_evm_state.Prelude.Order.{text_ord}
use substreams_evm_state.Btree.{get, insert}
use substreams_evm_state.Btree.Lookup.{get-insert, same, eq_of_same, same_self}
use substreams_evm_state.Eth
use substreams_evm_state.Lifecycle.{
  execution_address, is_doomed, is_deleted, raise, Ends, delete_call, delete_calls,
}

module _ (timestamp : ℕ) (trx : Eth.TransactionTrace) where
  -- The call destroys the account, and the destruction deletes it.
  pub record Deletes (a : Bytes) (call : Eth.Call) : Type 0 where
    pub doomed : is_doomed call ≡ true
    pub account : execution_address call trx.calls ≡ ok a
    pub deleted : is_deleted timestamp trx.calls a ≡ true

  -- What a call's step did: it entered the account of its deletion, or nothing.
  abbrev Stepped : Eth.Call → Ends → Ends → Bytes → Type 0
  Stepped call m m' b =
      (is_deleted timestamp trx.calls b ≡ true)
        × (call.end_ordinal < trx.end_ordinal)
        × (m' ≡ insert m b (raise (get m b) trx.end_ordinal))
      ⊎ (is_deleted timestamp trx.calls b ≡ false) × (m' ≡ m)

  delete_call_step :
      (call : Eth.Call) (m m' : Ends)
      → delete_call timestamp trx call m ≡ ok m'
      → (b : Bytes) × (execution_address call trx.calls ≡ ok b) × Stepped call m m' b
  unfolding delete_call
  delete_call_step call m m' h =
      let (b, e, h') = >>=-eq-ok (execution_address call trx.calls) _ h in
      (
        b,
        e,
        elim (Bool-cases (is_deleted timestamp trx.calls b)) [
          | inr n ↦ inr (n, sym (ok-injective (rw n at h')))
          | inl y ↦
              elim (Bool-cases (trx.end_ordinal == 0 || leb trx.end_ordinal call.end_ordinal)) [
                | inl bad ↦ absurd (ground (arith, y, bad, h'))
                | inr good ↦ inl (y, ground (arith, good), sym (ok-injective (rw (y, good) at h')))
              ]
        ],
      )

  -- The account's entry after the step: raised if the call deletes it, and as it was if not.
  delete_call-get :
      (call : Eth.Call) (m m' : Ends) (a : Bytes)
      → is_doomed call ≡ true
      → delete_call timestamp trx call m ≡ ok m'
      → Deletes a call × (get m' a ≡ some (raise (get m a) trx.end_ordinal))
        ⊎ (¬ Deletes a call) × (get m' a ≡ get m a)
  delete_call-get call m m' a d h =
      let (b, e, s) = delete_call_step call m m' h in
      elim s [
        | inr (n, m≡) ↦ inr (
          λ k.
              let b≡a : b ≡ a = ok-injective (sym e ∙ k.account) in
              false≢true
                (sym n ∙ subst (λ x. is_deleted timestamp trx.calls x ≡ true) (sym b≡a) k.deleted),
          ap (λ (x : Ends). get x a) m≡,
        )
        | inl (y, l, m≡) ↦ elim (Bool-cases (same a b)) [
          | inl q ↦
              let a≡b = eq_of_same a b q in
              inl (
                record {
                  doomed = d;
                  account = subst (λ x. execution_address call trx.calls ≡ ok x) (sym a≡b) e;
                  deleted = subst (λ x. is_deleted timestamp trx.calls x ≡ true) (sym a≡b) y;
                },
                ap (λ (x : Ends). get x a) m≡
                    ∙ get-insert m b (raise (get m b) trx.end_ordinal) a
                    ∙ ground (arith, q, ap (get m) a≡b),
              )
          | inr q ↦ inr (
            λ k.
                let b≡a : b ≡ a = ok-injective (sym e ∙ k.account) in
                false≢true (sym q ∙ subst (λ x. same a x ≡ true) (sym b≡a) (same_self a)),
            ap (λ (x : Ends). get x a) m≡
                ∙ get-insert m b (raise (get m b) trx.end_ordinal) a
                ∙ ground (arith, q),
          )
        ]
      ]

  raise_again : (o : Option ℕ) (e : ℕ) → raise (some (raise o e)) e ≡ raise o e
  unfolding raise
  raise_again none e = omega arith
  raise_again (some o) e = omega arith

  -- The account's entry after the loop: raised if one of the calls deletes it.
  pub delete_calls-get :
      (calls : List Eth.Call) (m m' : Ends) (a : Bytes)
      → delete_calls timestamp trx calls m ≡ ok m'
      → Any (Deletes a) calls × (get m' a ≡ some (raise (get m a) trx.end_ordinal))
        ⊎ (¬ Any (Deletes a) calls) × (get m' a ≡ get m a)
  unfolding delete_calls
  delete_calls-get [] m m' a h = inr (λ k. k, ap (λ (x : Ends). get x a) (sym (ok-injective h)))
  delete_calls-get (call ∷ calls) m m' a h = elim (Bool-cases (is_doomed call)) [
    | inr n ↦ elim (delete_calls-get calls m m' a (ground (arith, n, h))) [
      | inl (k, e) ↦ inl (inr k, e)
      | inr (k, e) ↦ inr (elim [ inl x ↦ false≢true (sym n ∙ x.doomed) | inr x ↦ k x ], e)
    ]
    | inl y ↦
        let (m1, e, h') =
          >>=-eq-ok (delete_call timestamp trx call m) (λ x. delete_calls timestamp trx calls x)
            (ground (arith, y, h)) in
        let rest = delete_calls-get calls m1 m' a h' in
        elim (delete_call-get call m m1 a y e) [
          | inl (k, q) ↦ inl (
            inl k,
            elim rest [
              | inl (_, r) ↦
                  r
                  ∙ ap (λ o. some (raise o trx.end_ordinal)) q
                  ∙ ap some (raise_again (get m a) trx.end_ordinal)
              | inr (_, r) ↦ r ∙ q
            ],
          )
          | inr (n, q) ↦ elim rest [
            | inl (k, r) ↦ inl (inr k, r ∙ ap (λ o. some (raise o trx.end_ordinal)) q)
            | inr (k, r) ↦ inr (elim [ inl x ↦ n x | inr x ↦ k x ], r ∙ q)
          ]
        ]
  ]
