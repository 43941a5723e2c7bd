-- ===== src/BlockState/Rows.antt =====
-- What a storage row of `project` of src/block_state.rs is to the changes and the deletions.
use substreams_evm_state.Prelude.{
  ℕ, ◌≤◌, ◌≡◌, ◌⊎◌, inl, inr, sym, ◌∙◌, false≢true, leb→le, true, List, [], ◌∷◌, Bytes, Text, arith,
  leb, bytes_eq, eq_of_bytes_eq, All, Any, Bool-cases, ok, bytes_eq_of_eq,
}
use substreams_evm_state.Prelude.Order.{text_ord, pair_ord}
use substreams_evm_state.Extern.{Hex}
use substreams_evm_state.Proto
use substreams_evm_state.Proto.{BlockState}
use substreams_evm_state.Params.{Filter, hex_text, matches}
use substreams_evm_state.Lifecycle.{Ends}
use substreams_evm_state.Collect.{storage_ord}
use substreams_evm_state.BlockState.{word}
use substreams_evm_state.BlockState.Clear.{Survives}

module _ (hex : Hex) where
  -- The change is to the row's slot.
  abbrev pub IsSlot : Text → Text → Proto.StorageChange → Type 0
  IsSlot address slot c = (hex_text hex c.address ≡ address) × (word hex c.key ≡ ok slot)

  -- The row is that of the change.
  abbrev pub Wrote : Proto.StorageValue → Proto.StorageChange → Type 0
  Wrote r c =
      IsSlot r.address r.slot c × (word hex c.new_value ≡ ok r.value) × (storage_ord c ≡ r.ordinal)

  -- A row: a change wrote it, no later change wrote its slot, and no deletion of its account came
  -- at or after it.
  pub record IsBlockEnd (f : Filter) (cs : List Proto.StorageChange) (ends : Ends)
      (r : Proto.StorageValue) : Type 0 where
    pub written : Any (Wrote r) cs
    pub latest : All (λ c. IsSlot r.address r.slot c → storage_ord c ≤ r.ordinal) cs
    pub undeleted : All (Survives hex f r.address r.ordinal) ends

  -- The account was deleted at or after the ordinal.
  abbrev pub Deleted : Filter → Text → ℕ → Bytes × ℕ → Type 0
  Deleted f address ordinal e =
      (matches f e.0 ≡ true) × (hex_text hex e.0 ≡ address) × (ordinal ≤ e.1)

  -- The slot of a change can be read, and has a row that is at least as late, or its account was
  -- deleted at or after the change.
  abbrev pub IsKept : Filter → Ends → List Proto.StorageValue → Proto.StorageChange → Type 0
  IsKept f ends rows c =
      (slot : Text) × (word hex c.key ≡ ok slot)
      × (Any
            (λ r.
              (r.address ≡ hex_text hex c.address) × (r.slot ≡ slot) × (storage_ord c ≤ r.ordinal))
            rows
          ⊎ Any (Deleted f (hex_text hex c.address) (storage_ord c)) ends)

  pub Survives-cases :
      (f : Filter) (address : Text) (n : ℕ) (ends : Ends)
      → All (Survives hex f address n) ends ⊎ Any (Deleted f address n) ends
  Survives-cases f address n [] = inl tt
  Survives-cases f address n ((a, o) ∷ ends) = elim (Survives-cases f address n ends) [
    | inr x ↦ inr (inr x)
    | inl rest ↦ elim (Bool-cases (matches f a)) [
      | inr e ↦ inl ((λ s _. absurd (false≢true (sym e ∙ s))), rest)
      | inl e ↦ elim (Bool-cases (bytes_eq (hex_text hex a) address)) [
        | inr q ↦ inl ((λ s x. absurd (false≢true (sym q ∙ bytes_eq_of_eq x))), rest)
        | inl q ↦ elim (Bool-cases (leb n o)) [
          | inl l ↦ inr (inl (e, eq_of_bytes_eq (hex_text hex a) address q, leb→le n o l))
          | inr l ↦ inl ((λ _ _. ground (arith, l)), rest)
        ]
      ]
    ]
  ]
