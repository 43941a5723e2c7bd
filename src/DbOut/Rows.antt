-- ===== src/DbOut/Rows.antt =====
-- About the rows of the current state of src/db_out.rs.
use substreams_evm_state.Prelude.{
  ℕ, ◌≡◌, inl, inr, refl, sym, ap, ◌∙◌, Option, some, List, [], ◌∷◌, Bytes, Text, bytes_eq,
  bytes_eq_iff, eq_of_bytes_eq, if◌then◌else◌, Bool-cases,
}
use substreams_evm_state.Proto
use substreams_evm_state.Proto.{StateChanges}
use substreams_evm_state.DbOut.{
  update, find, newer, Slot, slot_eq, ord, last_storage, Acc, acc_or, Accounts, last_balances,
  last_nonces, last_codes, accounts_of,
}
use substreams_evm_state.DbOut.Latest.{
  IsBest, best, best-IsBest, find-update, IsOnce, update-IsOnce, slot_eq_iff,
}

-- The values that the changes give to a slot, and to the balance, the nonce and the code of an
-- account, in their order.
abbrev pub at_slot : Slot → List Proto.StorageChange → List (ℕ × Bytes)
at_slot k [] = []
at_slot k (c ∷ cs) =
    let rest = at_slot k cs in
    if slot_eq (c.address, c.key) k then (ord c.origin, c.new_value) ∷ rest else rest

abbrev pub balances_at : Bytes → List Proto.BalanceChange → List (ℕ × Text)
balances_at a [] = []
balances_at a (c ∷ cs) =
    let rest = balances_at a cs in
    if bytes_eq c.address a then (ord c.origin, c.new_value) ∷ rest else rest

abbrev pub nonces_at : Bytes → List Proto.NonceChange → List (ℕ × ℕ)
nonces_at a [] = []
nonces_at a (c ∷ cs) =
    let rest = nonces_at a cs in
    if bytes_eq c.address a then (ord c.origin, c.new_value) ∷ rest else rest

abbrev pub codes_at : Bytes → List Proto.CodeChange → List (ℕ × Bytes)
codes_at a [] = []
codes_at a (c ∷ cs) =
    let rest = codes_at a cs in
    if bytes_eq c.address a then (ord c.origin, c.new_hash) ∷ rest else rest

last_storage-best :
    (k : Slot) (cs : List Proto.StorageChange) (m : List (Slot × (ℕ × Bytes)))
    → find slot_eq k (last_storage cs m) ≡ best (find slot_eq k m) (at_slot k cs)
unfolding last_storage best
last_storage-best k [] m = refl
last_storage-best k (c ∷ cs) m =
    let j : Slot = (c.address, c.key) in
    let f = newer (ord c.origin, c.new_value) in
    let u = find-update slot_eq slot_eq_iff k j f m in
    elim (Bool-cases (slot_eq j k)) [
      | inl e ↦
          let q : j ≡ k = (slot_eq_iff j k).0 e in
          let v : find slot_eq k (update slot_eq j f m) ≡ some (f (find slot_eq k m)) =
            (rw e at u) ∙ ap (λ x. some (f (find slot_eq x m))) q in
          last_storage-best k cs (update slot_eq j f m) ∙ rw (e, v) refl
      | inr e ↦
          let v : find slot_eq k (update slot_eq j f m) ≡ find slot_eq k m = rw e at u in
          last_storage-best k cs (update slot_eq j f m) ∙ rw (e, v) refl
    ]

last_storage-IsOnce :
    (cs : List Proto.StorageChange) (m : List (Slot × (ℕ × Bytes)))
    → IsOnce slot_eq slot_eq_iff m
    → IsOnce slot_eq slot_eq_iff (last_storage cs m)
unfolding last_storage
last_storage-IsOnce [] m h = h
last_storage-IsOnce (c ∷ cs) m h =
    last_storage-IsOnce cs (update slot_eq (c.address, c.key) (newer (ord c.origin, c.new_value)) m)
      (update-IsOnce slot_eq slot_eq_iff (c.address, c.key) (newer (ord c.origin, c.new_value)) m h)

-- Each slot has one entry at most, and the entry of a slot is the last of the greatest ordinal among
-- the changes of the slot, if there is one.
pub last_storage-IsBest :
    (cs : List Proto.StorageChange)
    → IsOnce slot_eq slot_eq_iff (last_storage cs [])
      × ((k : Slot) → IsBest (at_slot k cs) (find slot_eq k (last_storage cs [])))
unfolding find
last_storage-IsBest cs = (
  last_storage-IsOnce cs [] tt,
  λ k. best-IsBest (at_slot k cs) _ (sym (last_storage-best k cs [])),
)

-- The entry of an account after its change.
account_after :
    (a j : Bytes) (f : Option Acc → Acc) (m : Accounts)
    → acc_or (find bytes_eq a (update bytes_eq j f m))
      ≡ (if bytes_eq j a then f (find bytes_eq a m) else acc_or (find bytes_eq a m))
account_after a j f m =
    let u = find-update bytes_eq bytes_eq_iff a j f m in
    elim (Bool-cases (bytes_eq j a)) [
      | inl e ↦
          let q = eq_of_bytes_eq j a e in
          let v : find bytes_eq a (update bytes_eq j f m) ≡ some (f (find bytes_eq j m)) =
            rw e at u in
          ap acc_or v ∙ ap (λ x. f (find bytes_eq x m)) q ∙ rw e refl
      | inr e ↦ ap acc_or (rw e at u) ∙ rw e refl
    ]

last_balances-best :
    (a : Bytes) (cs : List Proto.BalanceChange) (m : Accounts)
    → acc_or (find bytes_eq a (last_balances cs m)) ≡ record (acc_or (find bytes_eq a m)) {
      balance = best (acc_or (find bytes_eq a m)).balance (balances_at a cs);
    }
unfolding last_balances best
last_balances-best a [] m = refl
last_balances-best a (c ∷ cs) m =
    let f : Option Acc → Acc = λ o. record (acc_or o) {
      balance = some (newer (ord c.origin, c.new_value) (acc_or o).balance);
    } in
    let ih = last_balances-best a cs (update bytes_eq c.address f m) in
    elim (Bool-cases (bytes_eq c.address a)) [
      | inl e ↦ rw e (rw (account_after a c.address f m, e) at ih)
      | inr e ↦ rw e (rw (account_after a c.address f m, e) at ih)
    ]

last_nonces-best :
    (a : Bytes) (cs : List Proto.NonceChange) (m : Accounts)
    → acc_or (find bytes_eq a (last_nonces cs m)) ≡ record (acc_or (find bytes_eq a m)) {
      nonce = best (acc_or (find bytes_eq a m)).nonce (nonces_at a cs);
    }
unfolding last_nonces best
last_nonces-best a [] m = refl
last_nonces-best a (c ∷ cs) m =
    let f : Option Acc → Acc = λ o. record (acc_or o) {
      nonce = some (newer (ord c.origin, c.new_value) (acc_or o).nonce);
    } in
    let ih = last_nonces-best a cs (update bytes_eq c.address f m) in
    elim (Bool-cases (bytes_eq c.address a)) [
      | inl e ↦ rw e (rw (account_after a c.address f m, e) at ih)
      | inr e ↦ rw e (rw (account_after a c.address f m, e) at ih)
    ]

last_codes-best :
    (a : Bytes) (cs : List Proto.CodeChange) (m : Accounts)
    → acc_or (find bytes_eq a (last_codes cs m)) ≡ record (acc_or (find bytes_eq a m)) {
      code = best (acc_or (find bytes_eq a m)).code (codes_at a cs);
    }
unfolding last_codes best
last_codes-best a [] m = refl
last_codes-best a (c ∷ cs) m =
    let f : Option Acc → Acc =
      λ o. record (acc_or o) { code = some (newer (ord c.origin, c.new_hash) (acc_or o).code) } in
    let ih = last_codes-best a cs (update bytes_eq c.address f m) in
    elim (Bool-cases (bytes_eq c.address a)) [
      | inl e ↦ rw e (rw (account_after a c.address f m, e) at ih)
      | inr e ↦ rw e (rw (account_after a c.address f m, e) at ih)
    ]

last_balances-IsOnce :
    (cs : List Proto.BalanceChange) (m : Accounts)
    → IsOnce bytes_eq bytes_eq_iff m
    → IsOnce bytes_eq bytes_eq_iff (last_balances cs m)
unfolding last_balances
last_balances-IsOnce [] m h = h
last_balances-IsOnce (c ∷ cs) m h =
    last_balances-IsOnce cs _ (update-IsOnce bytes_eq bytes_eq_iff c.address _ m h)

last_nonces-IsOnce :
    (cs : List Proto.NonceChange) (m : Accounts)
    → IsOnce bytes_eq bytes_eq_iff m
    → IsOnce bytes_eq bytes_eq_iff (last_nonces cs m)
unfolding last_nonces
last_nonces-IsOnce [] m h = h
last_nonces-IsOnce (c ∷ cs) m h =
    last_nonces-IsOnce cs _ (update-IsOnce bytes_eq bytes_eq_iff c.address _ m h)

last_codes-IsOnce :
    (cs : List Proto.CodeChange) (m : Accounts)
    → IsOnce bytes_eq bytes_eq_iff m
    → IsOnce bytes_eq bytes_eq_iff (last_codes cs m)
unfolding last_codes
last_codes-IsOnce [] m h = h
last_codes-IsOnce (c ∷ cs) m h =
    last_codes-IsOnce cs _ (update-IsOnce bytes_eq bytes_eq_iff c.address _ m h)

-- What the changes of a block make of an account.
pub record IsSettled (ch : StateChanges) (a : Bytes) (acc : Acc) : Type 0 where
  pub balance : IsBest (balances_at a ch.balance_changes) acc.balance
  pub nonce : IsBest (nonces_at a ch.nonce_changes) acc.nonce
  pub code : IsBest (codes_at a ch.code_changes) acc.code

-- Each account has one entry at most, and what it says of the balance, the nonce and the code is
-- each the last of the greatest ordinal among the changes of the account, if there is one.
pub accounts_of-IsSettled :
    (ch : StateChanges)
    → IsOnce bytes_eq bytes_eq_iff (accounts_of ch)
      × ((a : Bytes) → IsSettled ch a (acc_or (find bytes_eq a (accounts_of ch))))
unfolding accounts_of find
accounts_of-IsSettled ch =
    let m1 = last_balances ch.balance_changes [] in
    let m2 = last_nonces ch.nonce_changes m1 in
    (
      last_codes-IsOnce ch.code_changes m2
          (last_nonces-IsOnce ch.nonce_changes m1 (last_balances-IsOnce ch.balance_changes [] tt)),
      λ a.
          let e1 = last_balances-best a ch.balance_changes [] in
          let e2 = last_nonces-best a ch.nonce_changes m1 in
          let e3 = last_codes-best a ch.code_changes m2 in
          record {
            balance = best-IsBest (balances_at a ch.balance_changes) _ (
                sym (
                  ap (λ (x : Acc). x.balance) e3
                  ∙ ap (λ (x : Acc). x.balance) e2
                  ∙ ap (λ (x : Acc). x.balance) e1));
            nonce = best-IsBest (nonces_at a ch.nonce_changes) _ (
                sym (
                  ap (λ (x : Acc). x.nonce) e3
                  ∙ ap (λ (x : Acc). x.nonce) e2
                  ∙ ap (λ (x : Acc). best x.nonce (nonces_at a ch.nonce_changes)) e1));
            code = best-IsBest (codes_at a ch.code_changes) _ (
                sym (
                  ap (λ (x : Acc). x.code) e3
                  ∙ ap (λ (x : Acc). best x.code (codes_at a ch.code_changes))
                      (e2
                        ∙ ap
                            (λ (x : Acc). record x {
                              nonce = best x.nonce (nonces_at a ch.nonce_changes);
                            })
                            e1)));
          },
    )
