-- ===== src/Interval/Chain.antt =====
-- About `validate_interval` of crates/evm-state/src/checkpoint.rs: the sources that it accepts.
use substreams_evm_state.Prelude.{
  ℕ, ◌+◌, ◌-◌, ◌%◌, ◌≤◌, ◌<◌, ◌≡◌, true, ◌&&◌, Option, List, Text, codes, arith, length, leb, ltb,
  ◌==◌, Result, ok, ensure, >>=-eq-ok, ensure-eq-ok, ok-injective,
}
use substreams_evm_state.Prelude.Int.{u64_mod}
use substreams_evm_state.Extern.{Hex}
use substreams_evm_state.Json.{Json, get, index}
use substreams_evm_state.Json.Read.{uint}
use substreams_evm_state.Params.Words.{join}
use substreams_evm_state.Proof.{canonical_accounts}
use substreams_evm_state.Interval.{Walk, check_rows, beginning, validate_interval}
use substreams_evm_state.Interval.Blocks.{IsChain, IsBased, check_rows-IsChain}
use substreams_evm_state.Interval.Begins.{
  IsBeginning, beginning-counted, beginning-IsBeginning, beginning-fresh,
}

module _ (hex : Hex) where
  -- What a source that is accepted has up to the last block.
  pub record IsComplete (answer : ℕ → ℕ → Result (List Json)) (source header : Json) (count : ℕ)
      : Type 0 where
    pub start : ℕ
    pub last : ℕ
    pub accounts : List Text
    pub first : ℕ
    pub previous : Option Text
    pub rows : List Json
    pub has_start : uint (index source "start_block") ≡ ok start
    pub has_last : uint (index header "number") ≡ ok last
    pub has_accounts : canonical_accounts hex (index source "accounts") ≡ ok accounts
    pub order : (start ≤ last) × (last + 1 < u64_mod)
    pub begins :
        IsBeginning source header start last (get source (codes "bootstrap")) first previous
    pub answered : answer first last ≡ ok rows
    pub chain : IsChain hex header last (join 44 accounts) first previous rows
    pub based : first ≡ start → IsBased source rows
    pub total : first + length rows ≡ last + 1
    pub counted : (count + start) % u64_mod ≡ last + 1

  -- The parts of a run that was accepted.
  complete :
      (answer : ℕ → ℕ → Result (List Json)) (source header : Json) (count start last : ℕ)
      (accounts : List Text) (w : Walk) (rows : List Json) (w' : Walk)
      → uint (index source "start_block") ≡ ok start
      → uint (index header "number") ≡ ok last
      → (leb start last && ltb last (u64_mod - 1)) ≡ true
      → canonical_accounts hex (index source "accounts") ≡ ok accounts
      → beginning hex source header start last (get source (codes "bootstrap")) ≡ ok w
      → answer w.expected last ≡ ok rows
      → check_rows hex source header last (join 44 accounts) rows w ≡ ok w'
      → (w'.expected == last + 1) ≡ true
      → w'.count ≡ count
      → IsComplete answer source header count
  complete answer source header count start last accounts w rows w' c1 c2 range c4 c5 c6 c7 q g =
      let low : start ≤ last = ground (arith, range) in
      let high : last + 1 < u64_mod = ground (arith, range) in
      let e : w'.expected ≡ last + 1 = ground (arith, q) in
      let (chain, based, a, b) =
        check_rows-IsChain hex source header last (join 44 accounts) rows w w' c7 e in
      let f =
        beginning-counted hex source header start last (get source (codes "bootstrap")) w
          (omega (arith, low, high)) c5 in
      record {
        start = start;
        last = last;
        accounts = accounts;
        first = w.expected;
        previous = w.previous;
        rows = rows;
        has_start = c1;
        has_last = c2;
        has_accounts = c4;
        order = (low, high);
        begins =
            beginning-IsBeginning hex source header start last (get source (codes "bootstrap")) w
              c5;
        answered = c6;
        chain = chain;
        based = λ z. based (
            beginning-fresh hex source header start last (get source (codes "bootstrap")) w
              (omega (arith, low, high)) high c5 z);
        total = omega (arith, a, e);
        counted = omega (arith, a, b, e, f, g, high);
      }

  -- A source that is accepted has one row for each number, from its start, or from the number after
  -- the block of its bootstrap, up to the block of the header: each of the source's accounts, of the
  -- schema and of a supported producer, each with the hash of the one before, and the first one with
  -- that of the bootstrap, as its parent, the last one with the hash and the state root of the header;
  -- a bootstrap begins where the source does, and where the rows begin at the start, the first one
  -- continues the base that the source names. The count that is returned is that of the blocks from
  -- the start on, as a `u64`.
  pub validate_interval-IsComplete :
      (answer : ℕ → ℕ → Result (List Json)) (source header : Json) (count : ℕ)
      → validate_interval hex answer source header ≡ ok count
      → IsComplete answer source header count
  unfolding validate_interval
  validate_interval-IsComplete answer source header count h =
      let (start, c1, h1) = >>=-eq-ok (uint (index source "start_block")) _ h in
      let (last, c2, h2) = >>=-eq-ok (uint (index header "number")) _ h1 in
      let (u3, c3, h3) =
        >>=-eq-ok
          (ensure (leb start last && ltb last (u64_mod - 1)) "invalid checkpoint input range") _
          h2 in
      let (accounts, c4, h4) = >>=-eq-ok (canonical_accounts hex (index source "accounts")) _ h3 in
      let (w, c5, h5) =
        >>=-eq-ok (beginning hex source header start last (get source (codes "bootstrap"))) _ h4 in
      let (rows, c6, h6) = >>=-eq-ok (answer w.expected last) _ h5 in
      let (w', c7, h7) =
        >>=-eq-ok (check_rows hex source header last (join 44 accounts) rows w) _ h6 in
      let (u8, c8, h8) = >>=-eq-ok (ensure (w'.expected == last + 1) "incomplete stream") _ h7 in
      complete answer source header count start last accounts w rows w' c1 c2
        (ensure-eq-ok (leb start last && ltb last (u64_mod - 1)) "invalid checkpoint input range"
          c3)
        c4 c5 c6 c7 (ensure-eq-ok (w'.expected == last + 1) "incomplete stream" c8)
        (ok-injective h8)
