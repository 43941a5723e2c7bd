-- ===== src/Examples/Cursors.antt =====
-- A cursor, a run and its database, and what the modules compute on them.
use substreams_evm_state.Prelude.{ℕ, ◌≡◌, refl, false, some, [], ◌∷◌, ◌++◌, Text, codes, take, ok}
use substreams_evm_state.Prelude.Order.{text_ord}
use substreams_evm_state.Json.{Json}
use substreams_evm_state.Params.Words.{join}
use substreams_evm_state.Cursor
use substreams_evm_state.Cursor.{
  BlockRef, Position, Seal, trim_padding, push_front, split_colon, part, starts_with_zero,
  block_ref, ref_eq, parse_u8, is_final, decode_parts,
}
use substreams_evm_state.Cursor.Progress
use substreams_evm_state.Cursor.Progress.{
  World, trim_0x, has_marker, has_row, binding, validate, agrees, is_bound, load_progress, replace,
  save_progress,
}
use substreams_evm_state.Examples.Instances.{plain_hex}
use substreams_evm_state.Examples.Samples.{bytes, or_default}
use substreams_evm_state.Examples.Stores.{obj, text, arr, the_tools}

unfoldable the_cursor : ℕ
unfolding the_tools trim_padding push_front split_colon part starts_with_zero block_ref ref_eq
    parse_u8 is_final decode_parts Cursor.decode trim_0x has_marker has_row binding validate agrees
    is_bound load_progress replace save_progress join
the_cursor = 0

abbrev hash : Text
hash = bytes 64 97

-- A seal that opens every token to one payload, and a run whose block is there.
abbrev pub seal : Seal
seal = record {
  base64 = λ t. some t;
  decrypt = λ b. some (codes "c1:16:90:" ++ hash ++ codes ":90:" ++ hash);
  utf8 = λ b. some b;
}

abbrev pub position : Position
position = record { block = at; head = at; lib = at; step = 16 }
  where
    at : BlockRef
    at = record { number = 90; hash = codes "0x" ++ hash }

pub token_decodes : Cursor.decode seal (codes "abc") ≡ ok position
unfolding the_cursor text_ord
token_decodes = refl

abbrev pub native_run : Json
native_run = obj (
    (codes "database_uuid", text (codes "u"))
    ∷ (
      codes "identity",
      obj (
          (codes "accounts", arr (text (codes "a") ∷ []))
          ∷ (codes "start_block", Json.number 80)
          ∷ []),
    )
    ∷ (codes "run_id", text (codes "r"))
    ∷ [])

abbrev pub world : World
world = record {
  seal = seal;
  hex = plain_hex;
  sha256 = λ b. take 4 b;
  canonical_json = λ j. ok (codes "{}");
  state_blocks = λ n. ok (
      obj (
        (codes "accounts", text (codes "a"))
        ∷ (codes "hash", text (codes "0x" ++ hash))
        ∷ (codes "producer_version", Json.number 4)
        ∷ (codes "schema_version", Json.number 1)
        ∷ [])
      ∷ []);
  markers = λ n. ok (obj ((codes "hash", text hash) ∷ []) ∷ []);
}

abbrev pub no_progress : Progress.Stored
no_progress = record { present = ok false; contents = ok Json.null }

abbrev pub first_save : Json × Progress.Stored
first_save =
    or_default (Json.null, no_progress)
      (save_progress world native_run (ok tt) no_progress (codes "abc"))

pub token_saves : save_progress world native_run (ok tt) no_progress (codes "abc") ≡ ok first_save
unfolding the_cursor text_ord
token_saves = refl

-- A second save, over the record of the first.
abbrev pub second_save : Json × Progress.Stored
second_save =
    or_default (Json.null, no_progress)
      (save_progress world native_run (ok tt) first_save.1 (codes "abd"))

pub token_saves_again :
    save_progress world native_run (ok tt) first_save.1 (codes "abd") ≡ ok second_save
unfolding the_cursor text_ord
token_saves_again = refl
