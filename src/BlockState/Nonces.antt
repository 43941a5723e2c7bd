-- ===== src/BlockState/Nonces.antt =====
-- About the nonce rows of `project` of src/block_state.rs after the deletions.
use substreams_evm_state.Prelude.{
  ℕ, ◌≤◌, ◌≡◌, ◌⊎◌, refl, ap, ◌∙◌, Bool, true, false, not, some, [], ◌∷◌, Text, All, All-mono, Any,
  Bool-cases, inl, inr, if◌then◌else◌,
}
use substreams_evm_state.Prelude.Order.{text_ord}
use substreams_evm_state.Btree.{get}
use substreams_evm_state.Extern.{Hex}
use substreams_evm_state.Proto
use substreams_evm_state.Params.{Filter, matches, hex_text}
use substreams_evm_state.Lifecycle.{Ends}
use substreams_evm_state.BlockState.{
  Maps, nonce_ordinal, clear_nonce, delete_account, delete_accounts,
}
use substreams_evm_state.BlockState.Clear.{fold_ends}
use substreams_evm_state.BlockState.Zero.{Clearing, HasLater, fold_zero_complete, fold_zero_sound}

abbrev pub zero_nonce : Text → ℕ → Proto.NonceValue
zero_nonce address ordinal = record { address = address; value = 0; ordinal = ordinal }

clear_nonce-Clearing : Clearing nonce_ordinal zero_nonce clear_nonce
unfolding clear_nonce
clear_nonce-Clearing = record { clear_lem = λ x o m. refl; number-zero = λ x o. refl }

step_nonces :
    (skip : Bool) (x : Text) (o : ℕ) (m : Maps)
    → (if skip then m else delete_account x o m).nonces
      ≡ (if skip then m.nonces else clear_nonce x o m.nonces)
unfolding delete_account
step_nonces true x o m = refl
step_nonces false x o m = refl

module _ (hex : Hex) (f : Filter) where
  nonces_of_deletions :
      (ends : Ends) (m : Maps)
      → (delete_accounts hex f ends m).nonces ≡ fold_ends hex f clear_nonce ends m.nonces
  unfolding delete_accounts fold_ends
  nonces_of_deletions [] m = refl
  nonces_of_deletions ((a, o) ∷ ends) m =
      nonces_of_deletions ends
        (if not (matches f a) then m else delete_account (hex_text hex a) o m)
      ∙ ap (fold_ends hex f clear_nonce ends) (step_nonces (not (matches f a)) (hex_text hex a) o m)

  -- Of each deletion: the account is not selected, or after the deletions it has a nonce row that is
  -- not older than its deletion.
  pub delete_accounts_nonces :
      (ends : Ends) (m : Maps)
      → All
          (λ e.
            (matches f e.0 ≡ false)
            ⊎ ((v : Proto.NonceValue) × (get
                    (delete_accounts hex f ends m).nonces
                    (hex_text hex e.0)
                  ≡ some v)
                × (e.1 ≤ v.ordinal)))
          ends
  delete_accounts_nonces ends m = rw (nonces_of_deletions ends m) (
      All-mono
        (HasLater nonce_ordinal zero_nonce clear_nonce clear_nonce-Clearing hex f
          (fold_ends hex f clear_nonce ends m.nonces))
        (λ e.
          (matches f e.0 ≡ false)
          ⊎ ((v : Proto.NonceValue) × (get (fold_ends hex f clear_nonce ends m.nonces)
                  (hex_text hex e.0)
                ≡ some v)
              × (e.1 ≤ v.ordinal)))
        (λ e later. elim (Bool-cases (matches f e.0)) [
          | inl selected ↦ inr (later selected)
          | inr skipped ↦ inl skipped
        ])
        ends
        (fold_zero_complete nonce_ordinal zero_nonce clear_nonce clear_nonce-Clearing hex f ends
          m.nonces))

  -- A nonce row that is there after the deletions was there before, or is the zero row of a deletion
  -- of its account, with the deletion's ordinal.
  pub delete_accounts_zero_nonces :
      (ends : Ends) (m : Maps) (k : Text) (v : Proto.NonceValue)
      → get (delete_accounts hex f ends m).nonces k ≡ some v
      → (get m.nonces k ≡ some v)
        ⊎ Any (λ e. (matches f e.0 ≡ true) × (hex_text hex e.0 ≡ k) × (v ≡ zero_nonce k e.1)) ends
  delete_accounts_zero_nonces ends m k v h =
      fold_zero_sound nonce_ordinal zero_nonce clear_nonce clear_nonce-Clearing hex f ends m.nonces
        k v (rw (nonces_of_deletions ends m) at h)
