-- ===== src/BlockState/Keep.antt =====
-- The steps of `project` that leave values alone.
use substreams_evm_state.Prelude.{
  ℕ, ◌≡◌, inl, inr, refl, ap, ◌∙◌, Bool, true, false, List, [], ◌∷◌, Text, codes, arith, is_empty,
  length, ◌==◌, ◌||◌, ◌&&◌, Bool-cases, ok, require, invalid_code_hash, >>=-eq-ok, ok-injective,
  if◌then◌else◌,
}
use substreams_evm_state.Extern.{Hex, Enums}
use substreams_evm_state.Eth
use substreams_evm_state.Proto
use substreams_evm_state.Params.{Filter, hex_text, matches}
use substreams_evm_state.Persist.Rules.{is_failed}
use substreams_evm_state.Lifecycle.{execution_address, is_doomed}
use substreams_evm_state.BlockState.{
  Maps, ordinal_of, add_effect, add_code, add_codes, add_suicides, add_transactions,
}

-- The rows of storage, balances and nonces are the same.
pub record SameRows (m m' : Maps) : Type 0 where
  pub storage : m.storage ≡ m'.storage
  pub balances : m.balances ≡ m'.balances
  pub nonces : m.nonces ≡ m'.nonces

SameRows-refl : {m m' : Maps} → m ≡ m' → SameRows m m'
SameRows-refl e = record {
  storage = ap (λ (x : Maps). x.storage) e;
  balances = ap (λ (x : Maps). x.balances) e;
  nonces = ap (λ (x : Maps). x.nonces) e;
}

pub SameRows-trans : {a b c : Maps} → SameRows a b → SameRows b c → SameRows a c
SameRows-trans p q = record {
  storage = p.storage ∙ q.storage;
  balances = p.balances ∙ q.balances;
  nonces = p.nonces ∙ q.nonces;
}

SameRows-if :
    (b : Bool) (m : Maps) (x : Text) (o : ℕ) (kind : Text)
    → SameRows m (if b then add_effect x o kind m else m)
unfolding add_effect
SameRows-if true m x o kind = record { storage = refl; balances = refl; nonces = refl }
SameRows-if false m x o kind = record { storage = refl; balances = refl; nonces = refl }

module _ (hex : Hex) where
  SameRows-add_code : (c : Proto.CodeChange) (n : ℕ) (m : Maps) → SameRows m (add_code hex c n m)
  unfolding add_code
  SameRows-add_code c n m =
      let s =
        SameRows-if (is_empty c.new_code) m (hex_text hex c.address) n (codes "code_cleared") in
      record { storage = s.storage; balances = s.balances; nonces = s.nonces }

  pub SameRows-add_codes :
      (cs : List Proto.CodeChange) (m m' : Maps) → add_codes hex cs m ≡ ok m' → SameRows m m'
  unfolding add_codes
  SameRows-add_codes [] m m' h = SameRows-refl (ok-injective h)
  SameRows-add_codes (c ∷ cs) m m' h =
      let (n, o, h1) = >>=-eq-ok (ordinal_of c.origin) _ h in
      let (u, r, h2) =
        >>=-eq-ok
          (require (length c.new_hash == 32 || (is_empty c.new_hash && is_empty c.new_code))
            invalid_code_hash)
          _ h1 in
      SameRows-trans (SameRows-add_code c n m) (SameRows-add_codes cs (add_code hex c n m) m' h2)

  SameRows-add_suicides :
      (f : Filter) (trx : Eth.TransactionTrace) (calls : List Eth.Call) (m m' : Maps)
      → add_suicides hex f trx calls m ≡ ok m'
      → SameRows m m'
  unfolding add_suicides
  SameRows-add_suicides f trx [] m m' h = SameRows-refl (ok-injective h)
  SameRows-add_suicides f trx (call ∷ calls) m m' h = elim (Bool-cases (is_doomed call)) [
    | inr n ↦ SameRows-add_suicides f trx calls m m' (ground (arith, n, h))
    | inl y ↦
        let (a, e, h1) =
          >>=-eq-ok (execution_address call trx.calls)
            (λ account. add_suicides hex f trx calls (
              if matches f account
              then add_effect (hex_text hex account) call.end_ordinal (codes "selfdestruct") m
              else m))
            (ground (arith, y, h)) in
        SameRows-trans
          (SameRows-if (matches f a) m (hex_text hex a) call.end_ordinal (codes "selfdestruct"))
          (SameRows-add_suicides f trx calls _ m' h1)
  ]

  pub SameRows-add_transactions :
      (en : Enums) (f : Filter) (trxs : List Eth.TransactionTrace) (m m' : Maps)
      → add_transactions hex en f trxs m ≡ ok m'
      → SameRows m m'
  unfolding add_transactions
  SameRows-add_transactions en f [] m m' h = SameRows-refl (ok-injective h)
  SameRows-add_transactions en f (trx ∷ trxs) m m' h = elim (Bool-cases (is_failed en trx)) [
    | inl y ↦ SameRows-add_transactions en f trxs m m' (ground (arith, y, h))
    | inr n ↦
        let (m1, e, h1) =
          >>=-eq-ok (add_suicides hex f trx trx.calls m) (λ x. add_transactions hex en f trxs x)
            (ground (arith, n, h)) in
        SameRows-trans (SameRows-add_suicides f trx trx.calls m m1 e)
          (SameRows-add_transactions en f trxs m1 m' h1)
  ]
