-- ===== src/Persist/Sender.antt =====
-- The nonce record that a failed transaction keeps for its sender.
use substreams_evm_state.Prelude.{
  ◌+◌, ◌≤◌, ◌<◌, ◌≡◌, ◌↔◌, refl, sym, ap, subst, ◌∙◌, false≢true, Bool, true, false, none, some,
  List, [], ◌∷◌, arith, ltb, eq_of_bytes_eq, bytes_eq_of_eq, filter, All, All-mono, In, Bool-cases,
  inl, inr, if◌then◌else◌,
}
use substreams_evm_state.Prelude.Int.{u64_mod}
use substreams_evm_state.Eth
use substreams_evm_state.Persist.Rules.{
  is_sender_nonce, Indexed, enumerate, min_by_ordinal, first_min, sender_nonce,
}

-- The record is the sender's increment: it has an ordinal, the sender's address, and takes the
-- transaction's nonce to the next one, which fits 64 bits.
pub record IsSenderNonce (trx : Eth.TransactionTrace) (n : Eth.NonceChange) : Type 0 where
  pub ordered : 0 < n.ordinal
  pub sender : n.address ≡ trx.from
  pub old : n.old_value ≡ trx.nonce
  pub new : n.new_value ≡ trx.nonce + 1
  pub fits : trx.nonce + 1 < u64_mod

pub is_sender_nonce_iff :
    (trx : Eth.TransactionTrace) (n : Eth.NonceChange)
    → (is_sender_nonce trx n ≡ true) ↔ IsSenderNonce trx n
unfolding is_sender_nonce
is_sender_nonce_iff trx n = (
  λ h. record {
    ordered = ground (arith, h);
    sender = eq_of_bytes_eq n.address trx.from (ground (arith, h));
    old = ground (arith, h);
    new = ground (arith, h);
    fits = ground (arith, h);
  },
  λ v. ground (arith, bytes_eq_of_eq v.sender),
)

abbrev Least : Indexed → List Indexed → Type 0
Least n ns = All (λ m. (n.1).ordinal ≤ (m.1).ordinal) ns

Least-trans :
    (a b : Indexed) (ns : List Indexed) → (a.1).ordinal ≤ (b.1).ordinal → Least b ns → Least a ns
Least-trans a b ns h =
    All-mono (λ m. (b.1).ordinal ≤ (m.1).ordinal) (λ m. (a.1).ordinal ≤ (m.1).ordinal)
      (λ m k. omega arith) ns

-- The chosen record is one of the list, and none of the list has a smaller ordinal.
min_by_ordinal_lem :
    (best : Indexed) (ns : List Indexed)
    → In (min_by_ordinal best ns) (best ∷ ns) × Least (min_by_ordinal best ns) (best ∷ ns)
unfolding min_by_ordinal
min_by_ordinal_lem best [] = (inl refl, (omega arith, tt))
min_by_ordinal_lem best (n ∷ ns) = elim (Bool-cases (ltb (n.1).ordinal (best.1).ordinal)) [
  | inl e ↦
      let (i, l) = min_by_ordinal_lem n ns in
      subst (λ m. In m (best ∷ n ∷ ns) × Least m (best ∷ n ∷ ns))
        (ap (λ b. min_by_ordinal (if b then n else best) ns) (sym e))
        (inr i, (ground (arith, e, l.0), l))
  | inr e ↦
      let (i, l) = min_by_ordinal_lem best ns in
      subst (λ m. In m (best ∷ n ∷ ns) × Least m (best ∷ n ∷ ns))
        (ap (λ b. min_by_ordinal (if b then n else best) ns) (sym e))
        (elim i [ inl p ↦ inl p | inr p ↦ inr (inr p) ], (l.0, (ground (arith, e, l.0), l.1)))
]

first_min-some : (ns : List Indexed) (n : Indexed) → first_min ns ≡ some n → In n ns × Least n ns
unfolding first_min
first_min-some [] n h = cc
first_min-some (m ∷ ns) n h =
    let e : min_by_ordinal m ns ≡ n = cc in
    subst (λ x. In x (m ∷ ns) × Least x (m ∷ ns)) e (min_by_ordinal_lem m ns)

first_min-none : (ns : List Indexed) → first_min ns ≡ none → ns ≡ []
unfolding first_min
first_min-none [] h = refl
first_min-none (m ∷ ns) h = cc

In-filter :
    (p : Indexed → Bool) (n : Indexed) (ns : List Indexed)
    → In n (filter p ns)
    → In n ns × (p n ≡ true)
unfolding filter
In-filter p n [] m = absurd m
In-filter p n (x ∷ ns) m = elim (Bool-cases (p x)) [
  | inl e ↦
      let m' : In n (x ∷ filter p ns) = rw e at m in
      elim m' [
        | inl x≡n ↦ (inl x≡n, rw x≡n at e)
        | inr r ↦ let (i, q) = In-filter p n ns r in (inr i, q)
      ]
  | inr e ↦ let (i, q) = In-filter p n ns (rw e at m) in (inr i, q)
]

Least-of_filter :
    (p : Indexed → Bool) (a : Indexed) (ns : List Indexed)
    → Least a (filter p ns)
    → All (λ m. p m ≡ true → (a.1).ordinal ≤ (m.1).ordinal) ns
unfolding filter
Least-of_filter p a [] l = tt
Least-of_filter p a (x ∷ ns) l = elim (Bool-cases (p x)) [
  | inl e ↦
      let l' : Least a (x ∷ filter p ns) = rw e at l in ((λ _. l'.0), Least-of_filter p a ns l'.1)
  | inr e ↦ ((λ h. absurd (false≢true (sym e ∙ h))), Least-of_filter p a ns (rw e at l))
]

-- The chosen nonce record is a sender's increment of the list, and no sender's increment of the
-- list has a smaller ordinal.
pub sender_nonce-some :
    (trx : Eth.TransactionTrace) (ns : List Eth.NonceChange) (n : Indexed)
    → sender_nonce trx ns ≡ some n
    → In n (enumerate 0 ns)
      × IsSenderNonce trx n.1
      × All (λ m. IsSenderNonce trx m.1 → (n.1).ordinal ≤ (m.1).ordinal) (enumerate 0 ns)
unfolding sender_nonce
sender_nonce-some trx ns n h =
    let p = λ (m : Indexed). is_sender_nonce trx m.1 in
    let (i, l) = first_min-some (filter p (enumerate 0 ns)) n h in
    let (j, t) = In-filter p n (enumerate 0 ns) i in
    (
      j,
      (is_sender_nonce_iff trx n.1).0 t,
      All-mono (λ m. p m ≡ true → (n.1).ordinal ≤ (m.1).ordinal)
          (λ m. IsSenderNonce trx m.1 → (n.1).ordinal ≤ (m.1).ordinal)
          (λ m f v. f ((is_sender_nonce_iff trx m.1).1 v)) (enumerate 0 ns)
          (Least-of_filter p n (enumerate 0 ns) l),
    )

filter_none :
    (p : Indexed → Bool) (ns : List Indexed) → filter p ns ≡ [] → All (λ m. p m ≡ false) ns
unfolding filter
filter_none p [] h = tt
filter_none p (x ∷ ns) h = elim (Bool-cases (p x)) [
  | inl e ↦ absurd (ground (arith, e, h))
  | inr e ↦ (e, filter_none p ns (rw e at h))
]

-- No record is chosen only if none is a sender's increment.
pub sender_nonce-none :
    (trx : Eth.TransactionTrace) (ns : List Eth.NonceChange)
    → sender_nonce trx ns ≡ none
    → All (λ m. ¬ IsSenderNonce trx m.1) (enumerate 0 ns)
unfolding sender_nonce
sender_nonce-none trx ns h =
    let p = λ (m : Indexed). is_sender_nonce trx m.1 in
    All-mono (λ m. p m ≡ false) (λ m. ¬ IsSenderNonce trx m.1)
      (λ m e v. false≢true (sym e ∙ (is_sender_nonce_iff trx m.1).1 v)) (enumerate 0 ns)
      (filter_none p (enumerate 0 ns) (first_min-none (filter p (enumerate 0 ns)) h))
