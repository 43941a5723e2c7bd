-- ===== src/Interval/Begins.antt =====
-- About where `validate_interval` of crates/evm-state/src/checkpoint.rs begins.
use substreams_evm_state.Prelude.{
  ℕ, ◌+◌, ◌%◌, ◌≤◌, ◌<◌, ◌≡◌, sym, ap, true, ◌&&◌, Option, none, some, Text, arith, leb, ◌==◌,
  if◌then◌else◌, ok, ensure, >>=-eq-ok, ensure-eq-ok, ok-injective,
}
use substreams_evm_state.Prelude.Int.{u64_mod}
use substreams_evm_state.Extern.{Hex}
use substreams_evm_state.Json.{Json, index, json_eq}
use substreams_evm_state.Json.Read.{string_field, uint}
use substreams_evm_state.Interval.{Walk, same_block, beginning}
use substreams_evm_state.Interval.Blocks.{IsSameBlock, at_last-IsSameBlock}

-- The bootstrap of a source, which begins where the source does and ends not after the last block:
-- its number and its hash, and that it is the header's block if its number is the last.
pub record IsBootstrap (source header : Json) (last : ℕ) (prefix : Json) (number : ℕ) (hash : Text)
    : Type 0 where
  pub has_number : uint (index (index prefix "header") "number") ≡ ok number
  pub begins : json_eq (index source "start_block") (index prefix "start_block") ≡ true
  pub order : number ≤ last
  pub has_hash : string_field (index prefix "header") "hash" ≡ ok hash
  pub at_last : number ≡ last → IsSameBlock (index prefix "header") header

-- The first number of the chain and the block before it: the start and none, or what comes after the
-- bootstrap and the bootstrap's block.
abbrev pub IsBeginning : Json → Json → ℕ → ℕ → Option Json → ℕ → Option Text → Type 0
IsBeginning source header start last none first previous = (first ≡ start) × (previous ≡ none)
IsBeginning source header start last (some prefix) first previous =
    (number : ℕ) × ((hash : Text) × (IsBootstrap source header last prefix number hash
        × ((first ≡ number + 1) × (previous ≡ some hash))))

module _ (hex : Hex) where
  pub beginning-counted :
      (source header : Json) (start last : ℕ) (prefix : Option Json) (w : Walk)
      → start < u64_mod
      → beginning hex source header start last prefix ≡ ok w
      → (w.count + start) % u64_mod ≡ w.expected % u64_mod
  unfolding beginning
  beginning-counted source header start last none w l h =
      let e = ok-injective h in
      let a = ap (λ (x : Walk). x.expected) e in
      let b = ap (λ (x : Walk). x.count) e in omega (arith, a, b)
  beginning-counted source header start last (some prefix) w l h =
      let (number, c1, h1) = >>=-eq-ok (uint (index (index prefix "header") "number")) _ h in
      let (u2, c2, h2) =
        >>=-eq-ok
          (ensure
            (json_eq (index source "start_block") (index prefix "start_block") && leb number last)
            "checkpoint range cannot use this compacted bootstrap prefix")
          _ h1 in
      let (hash, c3, h3) = >>=-eq-ok (string_field (index prefix "header") "hash") _ h2 in
      let (u4, c4, h4) =
        >>=-eq-ok
          (ensure
            (if number + 1 == last + 1 then same_block (index prefix "header") header else true)
            "bootstrap checkpoint differs from proof header")
          _ h3 in
      let e = ok-injective h4 in
      let a = ap (λ (x : Walk). x.expected) e in
      let b = ap (λ (x : Walk). x.count) e in omega (arith, a, b, l)

  pub beginning-IsBeginning :
      (source header : Json) (start last : ℕ) (prefix : Option Json) (w : Walk)
      → beginning hex source header start last prefix ≡ ok w
      → IsBeginning source header start last prefix w.expected w.previous
  unfolding beginning
  beginning-IsBeginning source header start last none w h =
      let e = sym (ok-injective h) in
      (ap (λ (x : Walk). x.expected) e, ap (λ (x : Walk). x.previous) e)
  beginning-IsBeginning source header start last (some prefix) w h =
      let (number, c1, h1) = >>=-eq-ok (uint (index (index prefix "header") "number")) _ h in
      let (u2, c2, h2) =
        >>=-eq-ok
          (ensure
            (json_eq (index source "start_block") (index prefix "start_block") && leb number last)
            "checkpoint range cannot use this compacted bootstrap prefix")
          _ h1 in
      let (hash, c3, h3) = >>=-eq-ok (string_field (index prefix "header") "hash") _ h2 in
      let (u4, c4, h4) =
        >>=-eq-ok
          (ensure
            (if number + 1 == last + 1 then same_block (index prefix "header") header else true)
            "bootstrap checkpoint differs from proof header")
          _ h3 in
      let e = sym (ok-injective h4) in
      let q =
        ensure-eq-ok
          (json_eq (index source "start_block") (index prefix "start_block") && leb number last)
          "checkpoint range cannot use this compacted bootstrap prefix" c2 in
      (
        number,
        (
          hash,
          (
            record {
              has_number = c1;
              begins = ground (arith, q);
              order = ground (arith, q);
              has_hash = c3;
              at_last = λ m.
                  at_last-IsSameBlock (number + 1) (last + 1) (index prefix "header") header
                    (ensure-eq-ok
                      (if number + 1 == last + 1
                        then same_block (index prefix "header") header
                        else true)
                      "bootstrap checkpoint differs from proof header" c4)
                    (omega (arith, m));
            },
            (ap (λ (x : Walk). x.expected) e, ap (λ (x : Walk). x.previous) e),
          ),
        ),
      )

  pub beginning-fresh :
      (source header : Json) (start last : ℕ) (prefix : Option Json) (w : Walk)
      → start < u64_mod
      → last + 1 < u64_mod
      → beginning hex source header start last prefix ≡ ok w
      → w.expected ≡ start
      → w.count ≡ 0
  unfolding beginning
  beginning-fresh source header start last none w l m h e =
      sym (ap (λ (x : Walk). x.count) (ok-injective h))
  beginning-fresh source header start last (some prefix) w l m h e =
      let (number, c1, h1) = >>=-eq-ok (uint (index (index prefix "header") "number")) _ h in
      let (u2, c2, h2) =
        >>=-eq-ok
          (ensure
            (json_eq (index source "start_block") (index prefix "start_block") && leb number last)
            "checkpoint range cannot use this compacted bootstrap prefix")
          _ h1 in
      let (hash, c3, h3) = >>=-eq-ok (string_field (index prefix "header") "hash") _ h2 in
      let (u4, c4, h4) =
        >>=-eq-ok
          (ensure
            (if number + 1 == last + 1 then same_block (index prefix "header") header else true)
            "bootstrap checkpoint differs from proof header")
          _ h3 in
      let a = ap (λ (x : Walk). x.expected) (ok-injective h4) in
      let b = ap (λ (x : Walk). x.count) (ok-injective h4) in omega (arith, a, b, e, l)
