-- ===== src/Lib.antt =====
-- The state projection of substreams-evm-state.
--
-- The program is a Substreams package: for each block of a chain it finds the changes of account
-- state that survived the block's execution, for the accounts that a parameter selects, and writes
-- them out. Its parts, and the files that model them:
--
-- * src/params.rs, the account filter: Params (`parse`, `canonical`, `matches`), with the text
--   functions that it uses in Params/Words. A text is the list of its characters and the set of
--   accounts a list without repetition.
-- * src/persist.rs, the persistence rules: Persist (`collect_block`, `collect_transaction`), its
--   tests in Persist/Rules. The trait `Sink` is a record of four handlers over a state that each
--   loop passes on. Persist/Events is an independent description: the list of the events of a block.
-- * src/lifecycle.rs, account deletion: Lifecycle (`execution_address`, `deletions`).
-- * src/lib.rs, the map handlers: Collect (`collect`), which parses the filter, lets
--   `collect_block` feed the collecting sink, adds the authorization rows and sorts by ordinal.
-- * src/block_state.rs, the native projection: BlockState (`project`), which checks the envelope,
--   collects, folds the changes into five ordered maps and applies the deletions.
-- * src/db_out.rs, the rows of the PostgreSQL tables: DbOut (`project`), as the calls that it makes of
--   the table package.
-- * src/pb/evm.state.v1.rs, the messages: Proto.
--
-- Around the package stands the Rust crate crates/evm-state, the tools that keep checkpoints of the
-- state in a database. Of its files in crates/evm-state/src:
--
-- * proof.rs and ch.rs, the readers of texts and of JSON values: Json, Json/Read, Json/Digits and
--   Proof (`unhex`, `address`, `quantity`, `uint`). A value of serde_json is a data type.
-- * retention.rs, which checkpoint generations are removed, with the pins of reader.rs and the
--   identities of control.rs: Retention (`plan`), Retention/Prune (`prune`, as the statements that it
--   runs and the store after some of them).
-- * history.rs, which partitions of the native history are dropped: History (`plan`,
--   `partitions_before`, `drop_partitions`).
-- * capacity.rs, the limits on storage: Capacity/Paths (`roots`), Capacity/Limits (`data_disks`,
--   `admission_reasons`, `verify_container`), Capacity/Scan (`retry_scan`, `du_total`),
--   Capacity/Guard (`guard`, `Stats`), Capacity/Supervise (`failure`, `Stats::record`, `supervise`).
-- * cursor.rs, the cursors of a stream and the durable progress of a run: Cursor (`decode`),
--   Cursor/Progress (`validate`, `load_progress`, `save_progress`, `observe`).
-- * checkpoint.rs, the inputs and reads of a checkpoint: Interval (`validate_interval`), Reader
--   (`manifest_unlocked`, `read_account_unlocked`), and with reader.rs the pages of an account's
--   storage: Reader (`encode_cursor`, `decode_cursor`, `page`). Reader's `follow` is a client that asks
--   for page after page; its fuel is the number of pages that it asks for at most.
-- * header.rs, an encoded block header against the metadata of a checkpoint: Header
--   (`verify_header`).
-- * native_stream.rs, the frames of gRPC: Frame (`frame`, `decode_frame`).
--
-- The answers of the database, the contents of files, the parsers of JSON and of URLs, the reading of
-- UTF-8, base64, the cipher, the hashes, the decoding of RLP and the samples of a meter are arguments
-- of these definitions, an error where they fail. What a theorem takes of an answer, as the order that
-- a query asks for, is a hypothesis of it. `read_fields` has room for the 23 fields that the
-- code admits before it stops.
-- `retry_scan` and `retry_local` make five calls at most, as the code does.
--
-- Code of other packages is a parameter or a plain model of its documented behaviour: Extern has the
-- hex crate, the decimal text of a BigInt and the enumerations of the Ethereum messages as records,
-- Eth the fields of those messages that the program reads, and Btree the standard ordered map as a
-- list sorted by key, with Prelude/StableSort for the standard stable sort.
--
-- Errors are values of one type, Prelude/Errors; a panic of `unwrap` is one of them. The walk to
-- the execution account has fuel, one unit for each call and two more: each step visits a call with
-- a new index, so the walk ends before its fuel does. An ordinal, nonce or timestamp is a natural
-- number: the code compares them, and where it adds or casts, the bound of 64 bits is written out.
--
-- Not modelled: the log lines, the encoding of messages (generated code), and the rest of
-- crates/evm-state: the selection of sources in `build` of checkpoint.rs, the ingestion, the RPC
-- client, the qualification tools and the command line, most of which is database, process and
-- network input and output. Of the modelled files: the locks, the clock, the pauses between calls
-- and the sizes that are only reported. What a run of `supervise` meets, the exits of its command
-- among it, is an argument, with the rounds of its loop as a list: as long as the command still
-- runs after the last of them there is no report.
--
-- The samples and the runs of the theorems on them stand in Examples.
pub mod Prelude
pub mod Btree
pub mod Extern
pub mod Eth
pub mod Json
pub mod Proof
pub mod Retention
pub mod History
pub mod Cursor
pub mod Header
pub mod Frame
pub mod Interval
pub mod Reader
pub mod Capacity
pub mod Proto
pub mod Params
pub mod Persist
pub mod Lifecycle
pub mod Collect
pub mod BlockState
pub mod DbOut
pub mod Examples
