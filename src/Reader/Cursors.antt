-- ===== src/Reader/Cursors.antt =====
-- About the storage cursors of crates/evm-state/src/reader.rs.
use substreams_evm_state.Prelude.{
  ℕ, ◌≤◌, ◌≡◌, refl, true, ◌&&◌, some, List, Text, arith, length, bytes_eq, bytes_eq_refl, leb, ok,
  >>=-eq-ok, >>=-ok, ensure-ok, context-ok, ok-injective, subst,
}
use substreams_evm_state.Json.{get, find, index, as_str, is_text, is_number}
use substreams_evm_state.Json.Read.{string_field}
use substreams_evm_state.Proof.{fixed}
use substreams_evm_state.Reader.{Coder, cursor_value, encode_cursor, decode_cursor}

-- Base64 and the JSON text of a cursor are read back.
pub record IsCoder (c : Coder) : Type 0 where
  pub decode-encode : (t : Text) → c.decode (c.encode t) ≡ some t
  pub parse-write :
      (id account slot t : Text)
      → c.write (cursor_value id account slot) ≡ ok t
      → c.parse t ≡ some (cursor_value id account slot)

of_token :
    (id account slot : Text) → string_field (cursor_value id account slot) "after_slot" ≡ ok slot
unfolding string_field get find bytes_eq as_str
of_token id account slot = refl

belongs :
    (id account slot : Text)
    → (is_number (index (cursor_value id account slot) "version") 1
        && (is_text (index (cursor_value id account slot) "snapshot_id") id
            && is_text (index (cursor_value id account slot) "address") account))
      ≡ true
unfolding index get find bytes_eq is_number is_text
belongs id account slot = rw (bytes_eq_refl id, bytes_eq_refl account) refl

-- A cursor of a checkpoint and an account gives back the slot that it was made of, if the slot is one
-- and the cursor is not too long.
pub decode_cursor-encode_cursor :
    (c : Coder) (id account slot token : Text) (bytes : List ℕ)
    → IsCoder c
    → fixed c.hex 32 slot ≡ ok bytes
    → encode_cursor c id account slot ≡ ok token
    → length token ≤ 1_024
    → decode_cursor c token id account ≡ ok slot
unfolding encode_cursor decode_cursor
decode_cursor-encode_cursor c id account slot token bytes laws f h l =
    let (t, w, h1) = >>=-eq-ok (c.write (cursor_value id account slot)) _ h in
    let e : c.encode t ≡ token = ok-injective h1 in
    >>=-ok _ (ensure-ok "oversized storage cursor" (le→leb l)) (
      >>=-ok _
        (context-ok "invalid storage cursor"
          (subst (λ x. c.decode x ≡ some t) e (laws.decode-encode t)))
        (>>=-ok _ (context-ok "invalid JSON" (laws.parse-write id account slot t w)) (
          >>=-ok _
            (ensure-ok "cursor belongs to another checkpoint or account" (belongs id account slot))
            (>>=-ok _ (of_token id account slot) (>>=-ok _ f refl)))))
  where
    le→leb : {m n : ℕ} → m ≤ n → leb m n ≡ true
    le→leb h = ground arith
