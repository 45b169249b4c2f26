-- ===== src/Lib.antt =====
-- bitcask-go: a key-value store over append-only data files with an index in memory.
--
-- A data directory holds numbered data files. A write encodes a log record (data/log_record.go),
-- appends it to the active file (data/data_file.go over fio/), and puts the record's position into
-- an index (index/); a read looks the position up and reads the record back. db.go joins these.
--
-- Which module is about which part:
--   Common      names, list lemmas, equality tests, association lists for Go maps; Common.Result is
--               (value, error) or a panic, Common.Exec a method that changes state, and
--               Common.Exec.Post what a method ensures on return and on error.
--   Varint, Crc, Decimal  encoding/binary, hash/crc32 and strconv of Go's standard library.
--   Fio         fio/: a disk is its files and the answers that the system will give to the opens,
--               writes, syncs and closes to come; a failing write may store a prefix. IoManager is
--               FileIO or MMap; MMap panics where it is written or synced.
--   Data.Record data/log_record.go; Data.File data/data_file.go. Records, positions and headers are
--               records of the same fields.
--   Index       index/index.go: Indexer is the interface, its methods with the laws that the database
--               relies on; Index.BTree fills it from index/btree.go over the tree of google/btree,
--               Index.Art from index/art.go over the tree of go-adaptive-radix-tree,
--               and Index.Iterator holds the iterator of both, with sort.Search of the standard library;
--               Index.BPlusTree is index/bptree.go over a bucket and a cursor of bbolt, where
--               nothing is said of the memory of a value once its transaction is over.
--   Iterator    iterator.go.
--   Batch       batch.go: Batch.Key the keys of log records, Batch.Stage Put and Delete of a batch,
--               Batch.Append and Batch.Publish the two loops of Commit, Batch.Commit the whole, Batch.Durable
--               what it adds to the log.
--   Db          db.go: Db.State the struct and options.go, Db.Append appendLogRecord, Db.Ops Put, Get
--               and Delete, Db.Refine the map that they implement.
--   Db.Log      what a log stands for: the contract of loadIndexFromDataFiles.
--   Db.Load     what Open loads: Db.Load itself loadDataFiles and the function
--               updateIndex, and getNonMergeFileId of merge.go; Db.Load.Loop loadIndexFromDataFiles,
--               Db.Load.Start resetIoType, loadSeqNo, loadIndexFromHintFile of merge.go and the whole.
--               Db.Load.Scan is about one file, Replay about the index, Files about all files, Whole
--               about loadIndexFromDataFiles, Open about loadDataFiles.
--   Db.Close    Close and Sync of db.go; Db.Fold Fold and ListKeys.
--   Db.Open     Open of db.go over what the system answers, with checkOptions and NewIndexer; Stat.
--   Db.Merge    LoadMergeFiles of merge.go, and Db.Merge.Run its Merge, over what utils.DirSize and
--               utils.AvailableDIskSize answer. A directory is there where a file is in it.
--   Db.Durable  the log in the data files, what writes add to it, and opening a directory again.
--   Redis.Meta  redis/meta.go; Redis.Types Set, Get and findMetadata of redis/types.go, and
--               redis/generic.go. What time.Now() answers is an argument, and so is the version that
--               findMetadata makes from it. The other commands of redis/types.go write batches, as
--               Batch.Ranging sees them: Redis.Part what they share, Redis.Hashes, Redis.Sets,
--               Redis.Lists and Redis.SortedSets, the last over float64 and strconv as a parameter.
--   Tests       runs of the model, and the theorems at concrete inputs.
--
-- Numbers: uint32, uint64, int64 and int are words, written out modulo 2 ^ 32 or 2 ^ 64; a signed
-- word is in two's complement, so DecodeLogRecordPos and the read at an offset take any int64.
-- A slice has any length; PutVarint has room in its buffer for the length of every slice below
-- 2 ^ 34 bytes. No theorem but the bounds on record lengths needs more.
--
-- Fuel: the loops of loadIndexFromDataFiles, loadIndexFromHintFile and Merge over one file have one round
-- more than the file has bytes. It is enough, because a record takes seven bytes and more. skipToNext
-- has one round more than there are items, as have the loops of HKeys, HValues
-- and HGetAll; sort.Search has as many rounds as there are items. LAll has a round for each index
-- between the two marks, which are words.
--
-- A method of DB is one step: its locks are left out, and so are failures of Stat and of reads
-- inside a file. A data file is named by its directory and its number; the name %09d.data itself and
-- other names that end in .data are left out, so no name fails to be a number. The file of the lock
-- and that of a B+ tree are on the disk where the disk is given with them; Open does not make them.
-- The trees of github.com/google/btree, go-adaptive-radix-tree and bbolt are other projects' code:
-- the index is a parameter with laws.
--
-- Not modelled: http/http.go, which is glue over net/http; check.go, which prints timings; examples/;
-- utils/file.go and utils/rank_kv.go, which are system calls and random test data; DB.Backup, which
-- only copies the directory; and the calls that open and close the file of a B+ tree.
pub mod Common
pub mod Redis
pub mod Varint
pub mod Crc
pub mod Decimal
pub mod Fio
pub mod Data
pub mod Index
pub mod Iterator
pub mod Batch
pub mod Db
mod Tests
