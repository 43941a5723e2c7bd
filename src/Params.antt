-- ===== src/Params.antt =====
-- src/params.rs: the account filter of the modules' parameter. A text is the list of its
-- characters, and the `HashSet` of accounts a list that holds each account once.
pub mod Words
pub mod Parse
pub mod Sorting
pub mod Canonical
pub mod Roundtrip
use substreams_evm_state.Prelude.{
  Bool, true, false, none, some, List, [], ◌∷◌, ◌++◌, map, Bytes, Text, codes, length, is_empty,
  contains, ◌==◌, if◌then◌else◌, Result, ok, err, ◌>>=◌, invalid_address, expected_20_bytes,
}
use substreams_evm_state.Extern.{Hex}
use Words.{words, trim, strip_prefix, sort, join}

pub record Filter : Type 0 where
  pub accounts : List Bytes

-- `HashSet::insert`
unfoldable pub add_account : Bytes → List Bytes → List Bytes
add_account a accounts = if contains accounts a then accounts else a ∷ accounts

-- `strip_prefix("0x").or_else(|| strip_prefix("0X")).unwrap_or(raw)`
unfoldable pub strip_0x : Text → Text
strip_0x raw = elim (strip_prefix (codes "0x") raw) [
  | some rest ↦ rest
  | none ↦ elim (strip_prefix (codes "0X") raw) [ some rest ↦ rest | none ↦ raw ]
]

module _ (hex : Hex) where
  -- One entry of the list: exactly 20 bytes of hexadecimal digits.
  unfoldable pub parse_address : Text → Result Bytes
  parse_address raw = elim (hex.decode (strip_0x raw)) [
    | none ↦ err invalid_address
    | some bytes ↦ if length bytes == 20 then ok bytes else err expected_20_bytes
  ]

  -- The loop over the pieces of the parameter; empty ones are skipped.
  unfoldable pub parse_words : List Text → List Bytes → Result (List Bytes)
  parse_words [] accounts = ok accounts
  parse_words (w ∷ ws) accounts =
      let raw = trim w in
      let skip = parse_words ws accounts in
      let take = (do addr ← parse_address raw; parse_words ws (add_account addr accounts)) in
      if is_empty raw then skip else take

  unfoldable pub parse : Text → Result Filter
  parse params = do accounts ← parse_words (words params) []; ok (record { accounts = accounts })

  -- The `0x` form of an account.
  unfoldable pub hex_text : Bytes → Text
  hex_text bytes = codes "0x" ++ hex.encode bytes

  unfoldable pub canonical : Filter → Text
  canonical f = join b',' (sort (map hex_text f.accounts))

-- `matches`: no configured account means every account; an address of another length than 20 is
-- in no set.
unfoldable pub matches : Filter → Bytes → Bool
matches f address =
    if is_empty f.accounts
    then true
    else if length address == 20
    then contains f.accounts address
    else false
