-- ===== src/BlockState/Checks.antt =====
-- About the checks of `project` of src/block_state.rs, and the values of a run.
use substreams_evm_state.Prelude.{
  ◌≡◌, ◌++◌, codes, sym, ap, ◌∙◌, ==_iff, true, false, not, ◌&&◌, Option, none, some, List, [], ◌∷◌,
  Text, length, is_empty, ◌==◌, All, false_of_not, Error, ok, require, ok_or, >>=-eq-ok,
  require-eq-ok, ok-injective, accounts_required, extended_required, unsupported_version,
  missing_header, invalid_hash, number_mismatch, missing_timestamp, invalid_timestamp,
  unknown_status, missing_calls,
}
use substreams_evm_state.Prelude.Int.{◌==ℤ◌, in_range, as_u64}
use substreams_evm_state.Btree.{Btree}
use substreams_evm_state.Extern.{Hex, Decimal, Enums}
use substreams_evm_state.Eth
use substreams_evm_state.Proto
use substreams_evm_state.Proto.{BlockState}
use substreams_evm_state.Params.{Filter, parse, canonical, hex_text}
use substreams_evm_state.Lifecycle.{deletions, Ends}
use substreams_evm_state.Collect.{collect}
use substreams_evm_state.BlockState.{
  SlotKey, Maps, no_rows, is_nonneg, check_transactions, add_storage, add_balances, add_nonces,
  add_codes, add_transactions, delete_accounts, block_row, project,
}

ok_or-eq-ok : {A : Type 0} (o : Option A) (e : Error) (a : A) → ok_or o e ≡ ok a → o ≡ some a
ok_or-eq-ok none e a h = cc
ok_or-eq-ok (some x) e a h = cc

-- A transaction that `check_transactions` accepts.
pub record IsChecked (trx : Eth.TransactionTrace) : Type 0 where
  pub status : in_range 1 3 trx.status ≡ true
  pub calls : is_empty trx.calls ≡ false

check_transactions-IsChecked :
    (trxs : List Eth.TransactionTrace) (u : Unit {0})
    → check_transactions trxs ≡ ok u
    → All IsChecked trxs
unfolding check_transactions
check_transactions-IsChecked [] u h = tt
check_transactions-IsChecked (trx ∷ trxs) u h =
    let (u1, s, h1) = >>=-eq-ok (require (in_range 1 3 trx.status) unknown_status) _ h in
    let (u2, c, h2) = >>=-eq-ok (require (not (is_empty trx.calls)) missing_calls) _ h1 in
    (
      record {
        status = require-eq-ok (in_range 1 3 trx.status) unknown_status s;
        calls =
            false_of_not (is_empty trx.calls)
              (require-eq-ok (not (is_empty trx.calls)) missing_calls c);
      },
      check_transactions-IsChecked trxs u h2,
    )

-- The checks of the envelope: accounts are selected, the block is Extended, of a supported version,
-- with a consistent header, and its transactions are complete.
pub record IsEnvelope (en : Enums) (f : Filter) (b : Eth.Block) (h : Eth.BlockHeader)
    (t : Eth.Timestamp) : Type 0 where
  pub selected : is_empty f.accounts ≡ false
  pub extended : (b.detail_level ==ℤ en.extended) ≡ true
  pub version : in_range 3 5 b.ver ≡ true
  pub header : b.header ≡ some h
  pub hashes :
      (length b.hash == 32 && length h.parent_hash == 32 && length h.state_root == 32) ≡ true
  pub number : (h.number == b.number) ≡ true
  pub timestamp : h.timestamp ≡ some t
  pub time : (is_nonneg t.seconds && in_range 0 999_999_999 t.nanos) ≡ true
  pub transactions : All IsChecked b.transaction_traces

-- The values of an accepted run, in its order.
pub record Run (hex : Hex) (dec : Decimal) (en : Enums) (params : Text) (b : Eth.Block)
    (bs : BlockState) : Type 0 where
  pub filter : Filter
  pub header : Eth.BlockHeader
  pub timestamp : Eth.Timestamp
  pub changes : Proto.StateChanges
  pub storage : Btree SlotKey Proto.StorageValue
  pub balances : Btree Text Proto.BalanceValue
  pub m1 : Maps
  pub m2 : Maps
  pub m3 : Maps
  pub ends : Ends
  pub parsed : parse hex params ≡ ok filter
  pub envelope : IsEnvelope en filter b header timestamp
  pub collected : collect hex dec en params b ≡ ok changes
  pub stored : add_storage hex changes.storage_changes [] ≡ ok storage
  pub balanced : add_balances hex changes.balance_changes [] ≡ ok balances
  pub numbered :
      add_nonces hex changes.nonce_changes
        (record no_rows { storage = storage; balances = balances })
      ≡ ok m1
  pub coded : add_codes hex changes.code_changes m1 ≡ ok m2
  pub marked : add_transactions hex en filter b.transaction_traces m2 ≡ ok m3
  pub deleted : deletions en b (as_u64 timestamp.seconds) ≡ ok ends
  pub row : block_row hex filter b header timestamp (delete_accounts hex filter ends m3) ≡ bs

pub project-Run :
    (hex : Hex) (dec : Decimal) (en : Enums) (params : Text) (b : Eth.Block) (bs : BlockState)
    → project hex dec en params b ≡ ok bs
    → Run hex dec en params b bs
unfolding project
project-Run hex dec en params b bs h =
    let (f, p, h1) = >>=-eq-ok (parse hex params) _ h in
    let (u1, c1, h2) = >>=-eq-ok (require (not (is_empty f.accounts)) accounts_required) _ h1 in
    let (u2, c2, h3) =
      >>=-eq-ok (require (b.detail_level ==ℤ en.extended) extended_required) _ h2 in
    let (u3, c3, h4) = >>=-eq-ok (require (in_range 3 5 b.ver) unsupported_version) _ h3 in
    let (hd, c4, h5) = >>=-eq-ok (ok_or b.header missing_header) _ h4 in
    let sized = length b.hash == 32 && length hd.parent_hash == 32 && length hd.state_root == 32 in
    let (u5, c5, h6) = >>=-eq-ok (require sized invalid_hash) _ h5 in
    let (u6, c6, h7) = >>=-eq-ok (require (hd.number == b.number) number_mismatch) _ h6 in
    let (ts, c7, h8) = >>=-eq-ok (ok_or hd.timestamp missing_timestamp) _ h7 in
    let timely = is_nonneg ts.seconds && in_range 0 999_999_999 ts.nanos in
    let (u8, c8, h9) = >>=-eq-ok (require timely invalid_timestamp) _ h8 in
    let (u9, c9, h10) = >>=-eq-ok (check_transactions b.transaction_traces) _ h9 in
    let (ch, c10, h11) = >>=-eq-ok (collect hex dec en params b) _ h10 in
    let (st, c11, h12) = >>=-eq-ok (add_storage hex ch.storage_changes []) _ h11 in
    let (ba, c12, h13) = >>=-eq-ok (add_balances hex ch.balance_changes []) _ h12 in
    let (m1, c13, h14) =
      >>=-eq-ok (add_nonces hex ch.nonce_changes (record no_rows { storage = st; balances = ba })) _
        h13 in
    let (m2, c14, h15) = >>=-eq-ok (add_codes hex ch.code_changes m1) _ h14 in
    let (m3, c15, h16) = >>=-eq-ok (add_transactions hex en f b.transaction_traces m2) _ h15 in
    let (ends, c16, h17) = >>=-eq-ok (deletions en b (as_u64 ts.seconds)) _ h16 in
    record {
      filter = f;
      header = hd;
      timestamp = ts;
      changes = ch;
      storage = st;
      balances = ba;
      m1 = m1;
      m2 = m2;
      m3 = m3;
      ends = ends;
      parsed = p;
      envelope = record {
        selected =
            false_of_not (is_empty f.accounts)
              (require-eq-ok (not (is_empty f.accounts)) accounts_required c1);
        extended = require-eq-ok (b.detail_level ==ℤ en.extended) extended_required c2;
        version = require-eq-ok (in_range 3 5 b.ver) unsupported_version c3;
        header = ok_or-eq-ok b.header missing_header hd c4;
        hashes = require-eq-ok sized invalid_hash c5;
        number = require-eq-ok (hd.number == b.number) number_mismatch c6;
        timestamp = ok_or-eq-ok hd.timestamp missing_timestamp ts c7;
        time = require-eq-ok timely invalid_timestamp c8;
        transactions = check_transactions-IsChecked b.transaction_traces u9 c9;
      };
      collected = c10;
      stored = c11;
      balanced = c12;
      numbered = c13;
      coded = c14;
      marked = c15;
      deleted = c16;
      row = ok-injective h17;
    }

-- The identity of the row: the block's number, its hash, its parent's and its state root in
-- hexadecimal, its time, the version of its producer, the selected accounts and the schema.
pub record IsIdentified (hex : Hex) (f : Filter) (b : Eth.Block) (h : Eth.BlockHeader)
    (t : Eth.Timestamp) (bs : BlockState) : Type 0 where
  pub number : bs.number ≡ h.number
  pub hash : bs.hash ≡ codes "0x" ++ hex.encode b.hash
  pub parent_hash : bs.parent_hash ≡ codes "0x" ++ hex.encode h.parent_hash
  pub timestamp : bs.timestamp ≡ as_u64 t.seconds
  pub state_root : bs.state_root ≡ codes "0x" ++ hex.encode h.state_root
  pub producer_version : bs.producer_version ≡ b.ver
  pub accounts : bs.accounts ≡ canonical hex f
  pub schema_version : bs.schema_version ≡ 1

-- An accepted block selects at least one account, is at the Extended detail level and of version 3
-- to 5, has three hashes of 32 bytes, a header with the block's number and a timestamp that is not
-- negative with nanoseconds in range, and only transactions of a known status with calls. The
-- state's number, parent hash, time and state root are those of the header, its hash and producer
-- version those of the block, its accounts the canonical text of the filter, and its schema the
-- first.
pub project-IsEnvelope :
    (hex : Hex) (dec : Decimal) (en : Enums) (params : Text) (b : Eth.Block) (bs : BlockState)
    → project hex dec en params b ≡ ok bs
    → (f : Filter) × (h : Eth.BlockHeader) × (t : Eth.Timestamp) × (parse hex params ≡ ok f)
      × IsEnvelope en f b h t
      × IsIdentified hex f b h t bs
unfolding block_row hex_text
project-IsEnvelope hex dec en params b bs h =
    let run = project-Run hex dec en params b bs h in
    let row = sym run.row in
    (
      run.filter,
      run.header,
      run.timestamp,
      run.parsed,
      run.envelope,
      record {
        number =
            ap (λ (x : BlockState). x.number) row
            ∙ sym ((==_iff run.header.number b.number).0 run.envelope.number);
        hash = ap (λ (x : BlockState). x.hash) row;
        parent_hash = ap (λ (x : BlockState). x.parent_hash) row;
        timestamp = ap (λ (x : BlockState). x.timestamp) row;
        state_root = ap (λ (x : BlockState). x.state_root) row;
        producer_version = ap (λ (x : BlockState). x.producer_version) row;
        accounts = ap (λ (x : BlockState). x.accounts) row;
        schema_version = ap (λ (x : BlockState). x.schema_version) row;
      },
    )
