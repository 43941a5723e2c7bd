-- ===== src/BlockState/Fold.antt =====
-- About the loops of `project` of src/block_state.rs over the changes.
use substreams_evm_state.Prelude.{
  ℕ, ◌≤◌, ◌≡◌, inl, inr, refl, sym, ap, ◌∙◌, Option, none, some, List, [], ◌∷◌, Text, arith, ltb,
  All, Any, Bool-cases, ok, >>=-eq-ok, ok-injective,
}
use substreams_evm_state.Prelude.Order.{text_ord, pair_ord}
use substreams_evm_state.Prelude.StableSort.{IsSortedBy}
use substreams_evm_state.Btree.{Btree, insert}
use substreams_evm_state.Btree.Fill.{fill, IsOrdered}
use substreams_evm_state.Extern.{Hex}
use substreams_evm_state.Proto
use substreams_evm_state.Params.{hex_text}
use substreams_evm_state.Collect.{ord, storage_ord, nonce_ord}
use substreams_evm_state.BlockState.{
  SlotKey, Maps, ordinal_of, add_effect, word, add_storage, add_nonce, add_nonces,
}

-- The lists have one length, and `R` holds at each place.
abbrev pub Pairs {ℓ κ} : {A : Type ℓ} {B : Type κ} → (A → B → Type 0) → List A → List B → Type 0
Pairs R [] [] = Unit
Pairs R [] (y ∷ ys) = ⊥
Pairs R (x ∷ xs) [] = ⊥
Pairs R (x ∷ xs) (y ∷ ys) = R x y × Pairs R xs ys

ordinal_of-ok : (o : Option Proto.Origin) (n : ℕ) → ordinal_of o ≡ ok n → ord o ≡ n
ordinal_of-ok none n h = cc
ordinal_of-ok (some o) n h = ok-injective h

module _ (hex : Hex) where
  -- The storage row of a change: its account, its slot and its new value as texts.
  pub record IsStorageRow (c : Proto.StorageChange) (e : SlotKey × Proto.StorageValue)
      : Type 0 where
    pub account : hex_text hex c.address ≡ (e.0).0
    pub slot : word hex c.key ≡ ok (e.0).1
    pub row_account : (e.1).address ≡ (e.0).0
    pub row_slot : (e.1).slot ≡ (e.0).1
    pub value : word hex c.new_value ≡ ok (e.1).value
    pub ordinal : storage_ord c ≡ (e.1).ordinal

  pub add_storage-fill :
      (cs : List Proto.StorageChange) (m m' : Btree SlotKey Proto.StorageValue)
      → add_storage hex cs m ≡ ok m'
      → (es : List (SlotKey × Proto.StorageValue)) × Pairs IsStorageRow cs es × (fill es m ≡ m')
  unfolding add_storage fill
  add_storage-fill [] m m' h = ([], tt, ok-injective h)
  add_storage-fill (c ∷ cs) m m' h =
      let (slot, s, h1) = >>=-eq-ok (word hex c.key) _ h in
      let (value, v, h2) = >>=-eq-ok (word hex c.new_value) _ h1 in
      let (ordinal, o, h3) = >>=-eq-ok (ordinal_of c.origin) _ h2 in
      let a = hex_text hex c.address in
      let row : Proto.StorageValue = record {
        address = a;
        slot = slot;
        value = value;
        ordinal = ordinal;
      } in
      let (es, p, q) = add_storage-fill cs (insert m (a, slot) row) m' h3 in
      (
        ((a, slot), row) ∷ es,
        (
          record {
            account = refl;
            slot = s;
            row_account = refl;
            row_slot = refl;
            value = v;
            ordinal = ordinal_of-ok c.origin ordinal o;
          },
          p,
        ),
        q,
      )

  pub record IsNonceRow (c : Proto.NonceChange) (e : Text × Proto.NonceValue) : Type 0 where
    pub account : hex_text hex c.address ≡ e.0
    pub row_account : (e.1).address ≡ e.0
    pub value : c.new_value ≡ (e.1).value
    pub ordinal : nonce_ord c ≡ (e.1).ordinal

  add_nonce_others :
      (c : Proto.NonceChange) (n : ℕ) (m : Maps)
      → ((add_nonce hex c n m).storage ≡ m.storage)
        × ((add_nonce hex c n m).balances ≡ m.balances)
        × ((add_nonce hex c n m).codes ≡ m.codes)
        × ((add_nonce hex c n m).nonces
            ≡ insert m.nonces
                (hex_text hex c.address)
                (record { address = hex_text hex c.address; value = c.new_value; ordinal = n }))
  unfolding add_nonce add_effect
  add_nonce_others c n m = elim (Bool-cases (ltb c.new_value c.old_value)) [
    | inl e ↦ rw e (refl, refl, refl, refl)
    | inr e ↦ rw e (refl, refl, refl, refl)
  ]

  pub add_nonces-fill :
      (cs : List Proto.NonceChange) (m m' : Maps)
      → add_nonces hex cs m ≡ ok m'
      → (es : List (Text × Proto.NonceValue)) × Pairs IsNonceRow cs es
        × (fill es m.nonces ≡ m'.nonces)
        × (m.storage ≡ m'.storage)
        × (m.balances ≡ m'.balances)
        × (m.codes ≡ m'.codes)
  unfolding add_nonces fill
  add_nonces-fill [] m m' h =
      let e = ok-injective h in
      (
        [],
        tt,
        ap (λ (x : Maps). x.nonces) e,
        ap (λ (x : Maps). x.storage) e,
        ap (λ (x : Maps). x.balances) e,
        ap (λ (x : Maps). x.codes) e,
      )
  add_nonces-fill (c ∷ cs) m m' h =
      let (n, o, h1) = >>=-eq-ok (ordinal_of c.origin) _ h in
      let (es, p, q, s, b, k) = add_nonces-fill cs (add_nonce hex c n m) m' h1 in
      let (s', b', k', q') = add_nonce_others c n m in
      let a = hex_text hex c.address in
      let row : Proto.NonceValue = record { address = a; value = c.new_value; ordinal = n } in
      (
        (a, row) ∷ es,
        (
          record {
            account = refl;
            row_account = refl;
            value = refl;
            ordinal = ordinal_of-ok c.origin n o;
          },
          p,
        ),
        sym (ap (fill es) q') ∙ q,
        sym s' ∙ s,
        sym b' ∙ b,
        sym k' ∙ k,
      )

-- Rows whose ordinals are those of sorted changes ascend.
pub IsOrdered-of_sorted {ℓ} :
    {C : Type ℓ} {K V : Type 0} (key : C → ℕ) (number : V → ℕ) (R : C → K × V → Type 0)
    → ((c : C) (e : K × V) → R c e → key c ≡ number e.1)
    → (cs : List C) (es : List (K × V)) → Pairs R cs es
    → IsSortedBy key cs
    → IsOrdered number es
IsOrdered-of_sorted key number R f [] [] p s = tt
IsOrdered-of_sorted key number R f [] (e ∷ es) p s = absurd p
IsOrdered-of_sorted key number R f (c ∷ cs) [] p s = absurd p
IsOrdered-of_sorted {C = C} {K = K} {V = V} key number R f (c ∷ cs) (e ∷ es) p s =
    (below cs es p.1 s.0, IsOrdered-of_sorted key number R f cs es p.1 s.1)
  where
    below :
        (cs : List C) (es : List (K × V))
        → Pairs R cs es
        → All (λ d. key c ≤ key d) cs
        → All (λ x. number e.1 ≤ number x.1) es
    below [] [] q a = tt
    below [] (x ∷ xs) q a = absurd q
    below (d ∷ ds) [] q a = absurd q
    below (d ∷ ds) (x ∷ xs) q a = (omega (arith, f c e p.0, f d x q.0, a.0), below ds xs q.1 a.1)

module _ {ℓ} {C : Type ℓ} {E : Type 0} (R : C → E → Type 0) where
  -- What holds of each entry holds of each change, through `R`.
  pub All_of_Pairs :
      (P : C → Type 0) (Q : E → Type 0)
      → ((c : C) (e : E) → R c e → Q e → P c)
      → (cs : List C) (es : List E) → Pairs R cs es
      → All Q es
      → All P cs
  All_of_Pairs P Q f [] [] p a = tt
  All_of_Pairs P Q f [] (e ∷ es) p a = absurd p
  All_of_Pairs P Q f (c ∷ cs) [] p a = absurd p
  All_of_Pairs P Q f (c ∷ cs) (e ∷ es) p a = (f c e p.0 a.0, All_of_Pairs P Q f cs es p.1 a.1)

  -- What holds of some entry holds of some change, through `R`.
  pub Any-of_Pairs :
      (P : C → Type 0) (Q : E → Type 0)
      → ((c : C) (e : E) → R c e → Q e → P c)
      → (cs : List C) (es : List E) → Pairs R cs es
      → Any Q es
      → Any P cs
  Any-of_Pairs P Q f [] [] p a = a
  Any-of_Pairs P Q f [] (e ∷ es) p a = absurd p
  Any-of_Pairs P Q f (c ∷ cs) [] p a = absurd p
  Any-of_Pairs P Q f (c ∷ cs) (e ∷ es) p (inl a) = inl (f c e p.0 a)
  Any-of_Pairs P Q f (c ∷ cs) (e ∷ es) p (inr a) = inr (Any-of_Pairs P Q f cs es p.1 a)
