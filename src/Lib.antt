-- ===== src/Lib.antt =====
-- A model of the bitcask storage engine (bitcask-rs/src), with what makes it correct.
--
-- The engine keeps an append-only log of records in numbered data files and an index from keys to
-- positions in them. A write encodes a record, appends it to the active file and updates the index;
-- a read asks the index for a position and reads the record there; opening an engine rebuilds the
-- index from the files.
--
-- Which file models what:
--   Base, Exec, Map, Decimal: shared names; methods as functions from a state to an outcome and
--     the state; hash maps with numeric keys; printing and parsing of numbers,
--     with Decimal/RoundTrip.
--   Errors: bitcask-rs/src/errors.rs, and the outcome of a call (`Ok`, `Err`, panic; `stuck` marks
--     a loop of the model that ran out of fuel).
--   Codec: the functions of prost, bytes and crc32fast, a parameter with their documented laws.
--   Fs, Disk, Fio: the data directory, what the operating system answers (`Os`, `DirAnswers`), and
--     bitcask-rs/src/fio. Fio/Reads has the lemmas on reads at an offset.
--   Data/LogRecord, Data/DataFile: bitcask-rs/src/data, with the encodings in
--     Data/LogRecord/Encode and the reading of records in Data/DataFile/Read.
--   Options: bitcask-rs/src/options.rs and `check_options`.
--   Keys: the sequence number in front of a key, from bitcask-rs/src/batch.rs.
--   Index, Index/BTree, Index/SkipList, Index/BPlusTree: bitcask-rs/src/index/mod.rs, btree.rs,
--     skiplist.rs and bptree.rs; Index/BPlusTree/Represents has the map that a bucket stands for,
--     Index/Sorted the order of the keys, Index/Iterate the BTree's iterator, and Index/Iterate/Seek,
--     Index/SkipList/Seek and Index/BPlusTree/Seek what the iterators return after a `seek`.
--   Iterator: bitcask-rs/src/iterator.rs, with `flod` in Iterator/Fold and `seek` in
--     Iterator/Scan.
--   Engine: `put`, `get`, `delete` and `append_log_record` of bitcask-rs/src/db.rs. Engine/Files has
--   the layout of the files, Engine/Append the append, Engine/Bounds its bounds, Engine/Stored and Engine/SameFiles the
--   values in the files, Engine/Refine the abstract map.
--   Load: `load_index_from_data_files` and `update_index` of bitcask-rs/src/db.rs. Load/File has the
--   loop over one file, Load/Meaning the map that a log describes, Load/Points and Load/Recover the
--   index that points to it, Load/Files all the files, Load/Numbers the
--   sequence numbers, Load/Deletion the records of `delete`, Load/Transactions a file with the log of
--   one transaction.
--   Batch: the rest of bitcask-rs/src/batch.rs. Batch/Log has the log of a transaction, Batch/Items
--   the loop that appends the records, Batch/Commit the commit. The batch's `HashMap` is a list of
--   its entries, which `put` and `delete` keep in the order of insertion; the theorems about `commit`
--   hold for a list in any order, those about a push and a pop for that one.
--   Merge: bitcask-rs/src/merge.rs. Merge/Run has `merge`, Merge/Rotate `ratate_merge_files` with its
--   proof in Merge/Closed, Merge/Adopt `load_merge_files`, Merge/Hint `load_index_from_hint_file` with
--   its proof in Merge/Hint/Replay.
--   Open: `Engine::open` of bitcask-rs/src/db.rs. Open/DataFiles has `load_data_files`, Open/SeqNo
--   `load_seq_no` and `close`, Open/Sorting and Open/Listing what the opening does to the files,
--   Open/Closing what it finds of a closed engine's sequence number.
--   Durable: what a restart finds. Durable/Records, Durable/Logged and Durable/Gather relate the
--   files to one log, Durable/Store and Durable/Commit have `put` and `commit`, Durable/Lost
--   has `delete`, Durable/Opened, Durable/Reopen and Durable/Restart have `open`, and Durable/Runs has
--   sequences of calls and restarts.
--   Stats: `sync`, `stat` and `backup` of bitcask-rs/src/db.rs, with bitcask-rs/src/util/file.rs;
--   Stats/Copy has what a copy holds, Stats/Backup the opening of a backup.
--   Redis: redis/src. Redis/Meta has the encodings of meta.rs, Redis/Strings the strings of types.rs
--   with generic.rs, Redis/Ops the hashes, sets and lists, with proofs in
--   Redis/Ops/Members for sets, and for lists in Redis/Ops/Pops (the metadata), Redis/Ops/Parts (the
--   keys of the elements), Redis/Ops/Sequence, Redis/Ops/Push and Redis/Ops/Taken, Redis/ZSet the sorted sets, Redis/Server the commands of
--   main.rs.
--   Http: http/src/main.rs.
--   Samples: a concrete codec, and the theorems at concrete values.
--
-- Bounds: numbers are natural numbers with the wrap-around of `u32`, `u64` and `usize` written out
-- (a release build; a debug build would panic where they wrap). The loops over data files and hint
-- files take fuel: each record takes a round, and the end of a file one. The loop of `flod` takes a
-- round for each key and one for the end.
--
-- Not modelled: locks and threads (each method is one step); listening, routing and JSON of the
-- servers, and the containers of crossbeam-skiplist and jammdb, which are parameters;
-- arithmetic of floating-point numbers.
pub mod Base
pub mod Errors
pub mod Exec
pub mod Codec
pub mod Map
pub mod Fs
pub mod Disk
pub mod Fio
pub mod Data
pub mod Keys
pub mod Options
pub mod Index
pub mod Engine
pub mod Decimal
pub mod Iterator
pub mod Stats
pub mod Load
pub mod Batch
pub mod Merge
pub mod Open
pub mod Durable
pub mod Redis
pub mod Http
pub mod Samples
