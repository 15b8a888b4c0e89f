-- ===== src/Lib.antt =====
-- A Bitcask-style log-structured key/value store: an append-only log in numbered data files, a keydir in
-- memory that leads each key to its last record, and a server in front of it.
--
-- The parts, from the bytes up:
--   Prelude       lists, bytes, Boolean tests and maps over the native numbers
--   Error         src/storage/error.rs, KvsError and Result
--   Wire          to_le_bytes and from_le_bytes of Rust's unsigned integers
--   BytesUtil     src/storage/bytes_util.rs, reads at a cursor
--   Crc32         the crate crc32fast: a hash of bytes into a u32, and nothing more is used of it
--   Command       src/storage/command.rs, the records of the log
--   IndexValue    src/storage/index_value.rs, entries of the keydir and the records of hint files
--   RecordReader  src/storage/record_reader.rs, the records of a file one after another
--   Index         src/storage/index.rs, the keydir in sixteen maps
--   Files         the calls of std::fs that the engine makes: names, inodes, appends, what is durable;
--                 Names and Text, the names of files and their texts
--   Exec          methods on a state that fail and keep what they did before
--   Decimal       numbers as decimal texts
--   Config        src/storage/config.rs and src/storage/policy.rs
--   Bitcask       src/storage/bitcask.rs: State (Shared, WriterState and failing calls), Write (append
--                 and what follows it, set, remove), Read (get), Loader (Loader::replay),
--                 Engine (the engine as a store, on the system of Calm, in which no call fails),
--                 Merge (run_compaction, finish_output, MergeOutput), Open (open behind the lock),
--                 Close (Handle::drop, and a turn of the compaction thread)
--   Utf8          std::str::from_utf8
--   KvStore       src/storage/kvstore.rs, the interface of a store and the choice of its engine
--   LockFile      src/storage/lock_file.rs, which engine has a directory
--   SledStore     src/storage/sled_store.rs on a database that stands for the crate sled
--   Network       src/network/error.rs, src/network/protocol.rs and src/network/resp.rs (Resp)
--   Server        src/bin/kvs-server.rs, the handling of a connection in either protocol
--   Whitespace    trim and split_whitespace of std's str
--   Repl          src/repl_helper.rs and src/bin/kvs.rs, the commands of a terminal on a store
--   Client        src/bin/kvs-client.rs, the same commands over a connection
--
-- A write is `append`: the record goes to the active file, the keydir is published, the counters move,
-- and compaction trigger, durability policy and rotation follow. Every call of the system in it may fail
-- at any point (Bitcask.State.Env), a write after any number of bytes, and the state that an error
-- leaves is part of the result. `get` runs beside a writer and a merge: it is given the state at each of
-- its three looks, and goes round again when the file of its entry is gone; its fuel is the number of
-- rounds, and one round is enough where the state stands still or an appending writer alone changes it:
-- Concurrent.History lists the states that the actions of `append` leave, and the looks fall on any of
-- them in their order; a sync or a rotation is one action there. A loop over a file is given one turn more
-- than the file has bytes, and a record takes at least eight; a loop over a connection is given one more
-- than it carries bytes, and a frame takes at least one.
--
-- Two assumptions are made of the outside: a crc is below 2^32, and a buffer is shorter than 2^63 bytes,
-- as Rust's allocator promises. `usize` is 64 bits wide, and machine arithmetic wraps where it is not
-- checked. `append` holds the writer's lock and takes a bucket's in it, no thread takes another lock while
-- it holds a bucket's, and none panics, so locks and their poisoning are left out.
--
-- A merge is modelled as one thread runs it, with no writer in between. Its calls fail at any point, seeks
-- and reads included; a sealed file whose metadata cannot be had counts 0 in the total of the sizes. The
-- files of Merge follow it call by call: Ready and Start its beginning, Walk the loop over the files, Loop,
-- Records and Copy the loop over one, Finish and Publish its outputs, Budget their ids, Preserves the whole.
--
-- Opening takes a directory with the store's own files, on a disk that does not fail. Durable follows a
-- store from its requests through a crash to the next opening; the steps of a merge are not part of it.
--
-- Not modelled: main of the server with its listener and threads, the arguments of the programs, logging.
pub mod Prelude
pub mod Error
pub mod Wire
pub mod BytesUtil
pub mod Crc32
pub mod Command
pub mod IndexValue
pub mod RecordReader
pub mod Index
pub mod Files
pub mod Exec
pub mod Decimal
pub mod Config
pub mod Utf8
pub mod Bitcask
pub mod KvStore
pub mod LockFile
pub mod SledStore
pub mod Network
pub mod Server
pub mod Whitespace
pub mod Repl
pub mod Client
mod Tests
