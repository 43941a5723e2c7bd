-- ===== src/Reader.antt =====
-- The reads of a published checkpoint: `manifest_unlocked` and `read_account_unlocked` of
-- crates/evm-state/src/checkpoint.rs, and the storage cursors and pages of
-- crates/evm-state/src/reader.rs. The answers of the database, the pin, base64 and the writing and
-- reading of JSON text are arguments. The locks that a reader holds are left out.
pub mod Cursors
pub mod Pages
use substreams_evm_state.Prelude.{
  ℕ, zero, suc, ◌+◌, Bool, true, false, ◌&&◌, Option, none, some, List, [], ◌∷◌, ◌++◌, Text, codes,
  length, bytes_eq, any, take, ltb, leb, if◌then◌else◌, Result, ok, err, out_of_fuel, ensure,
  context, ◌>>=◌, ◌>>◌,
}
use substreams_evm_state.Extern.{Hex}
use substreams_evm_state.Json
use substreams_evm_state.Json.{Json, end, field, index, as_array, is_text, is_number}
use substreams_evm_state.Json.Read.{string_field, uint}
use substreams_evm_state.Proof.{fixed, address}
use substreams_evm_state.Retention.{object_id}

-- What the packages around the reads do.
pub record Coder : Type 0 where
  pub hex : Hex
  pub write : Json → Result Text
  pub parse : Text → Option Json
  pub encode : Text → Text
  pub decode : Text → Option Text

abbrev pub cursor_value : Text → Text → Text → Json
cursor_value id account slot = Json.object (
    field (codes "address") (Json.string account) (
      field (codes "after_slot") (Json.string slot) (
        field (codes "snapshot_id") (Json.string id)
          (field (codes "version") (Json.number 1) end))))

-- The queries: the manifest of a checkpoint, the row of an account, and at most so many storage rows
-- of an account, by slot and after one.
pub record Database : Type 0 where
  pub manifest : Text → Result Json
  pub account : Text → Text → Result Json
  pub storage : Text → Text → Text → ℕ → Result (List Json)

-- The row of an account, and the header that it is given with.
pub record Account : Type 0 where
  pub row : Json
  pub header : Json

pub record Page : Type 0 where
  pub account : Account
  pub storage : List Json
  pub next_cursor : Option Text

-- `rows.last()`
unfoldable pub last_of : List Json → Option Json
last_of [] = none
last_of (r ∷ []) = some r
last_of (r ∷ s ∷ rows) = last_of (s ∷ rows)

module _ (c : Coder) where
  unfoldable pub encode_cursor : Text → Text → Text → Result Text
  encode_cursor id account slot = do
    text ← c.write (cursor_value id account slot)
    ok (c.encode text)

  unfoldable pub decode_cursor : Text → Text → Text → Result Text
  decode_cursor token id account = do
    ensure (leb (length token) 1_024) "oversized storage cursor"
    text ← context (c.decode token) "invalid storage cursor"
    value ← context (c.parse text) "invalid JSON"
    ensure
        (is_number (index value "version") 1
          && (is_text (index value "snapshot_id") id && is_text (index value "address") account))
        "cursor belongs to another checkpoint or account"
    slot ← string_field value "after_slot"
    bytes ← fixed c.hex 32 slot
    ok slot

  module _ (db : Database) where
    unfoldable pub manifest_unlocked : Text → Result Json
    manifest_unlocked id = do
      id' ← object_id id
      row ← db.manifest id
      text ← string_field row "manifest"
      value ← context (c.parse text) "invalid JSON"
      ensure
          (is_text (index value "snapshot_id") id && is_text (index value "status") (codes "ready"))
          "checkpoint has no valid ready manifest"
      ok value

    unfoldable pub read_account_unlocked : Text → Text → Result Account
    read_account_unlocked id selected = do
      published ← manifest_unlocked id
      account ← address c.hex selected
      accounts ← context (as_array (index published "accounts")) "invalid checkpoint accounts"
      ensure (any (λ a. is_text a account) accounts) "account is not ready in this checkpoint"
      row ← db.account id account
      ok (record { row = row; header = index published "header" })

    -- The slot after which a page begins: none is the empty text.
    unfoldable pub after_of : Text → Text → Option Text → Result Text
    after_of id account none = ok []
    after_of id account (some []) = ok []
    after_of id account (some (t ∷ token)) = decode_cursor (t ∷ token) id account

    unfoldable pub next_of : Text → Text → ℕ → List Json → Result (Option Text)
    next_of id account limit rows =
        if ltb limit (length rows)
        then (do
          row ← context (last_of (take limit rows)) "empty nonterminal page"
          slot ← string_field row "slot"
          token ← encode_cursor id account slot
          ok (some token))
        else ok none

    -- `page`, of the result of `read_pin`.
    unfoldable pub page : Result Json → Text → Option Text → ℕ → Result Page
    page pin selected cursor limit = do
      ensure (leb 1 limit && leb limit 10_000) "page limit must be between 1 and 10000"
      account ← address c.hex selected
      pinned ← pin
      id ← string_field pinned "snapshot_id"
      metadata ← read_account_unlocked id account
      nonce ← uint (index metadata.row "nonce")
      after ← after_of id account cursor
      rows ← db.storage id account after (limit + 1)
      next ← next_of id account limit rows
      ok (record { account = metadata; storage = take limit rows; next_cursor = next })

    -- A reader that goes on while there is a next page, for so many pages.
    unfoldable pub follow : ℕ → Result Json → Text → Option Text → ℕ → Result (List Json)
    follow zero pin selected cursor limit = err out_of_fuel
    follow (suc fuel) pin selected cursor limit = do
      p ← page pin selected cursor limit
      elim p.next_cursor [
        | none ↦ ok p.storage
        | some token ↦ do rest ← follow fuel pin selected (some token) limit; ok (p.storage ++ rest)
      ]
