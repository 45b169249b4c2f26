-- ===== src/Db/Load.antt =====
-- db.go: loadDataFiles and loadIndexFromDataFiles, and getNonMergeFileId of merge.go.
pub mod Loop
pub mod Scan
pub mod Replay
pub mod Files
pub mod Whole
pub mod Open
pub mod Start
use bitcask_go.Common.{
  ℕ, zero, suc, ◌+◌, ◌%◌, ◌^◌, Bool, true, false, ◌&&◌, Option, none, some, List, [], ◌∷◌, ◌++◌,
  Bytes, length, ltb, leb, ◌==◌, if◌then◌else◌,
}
use bitcask_go.Common.Assoc.{Assoc, lookup, insert, remove}
use bitcask_go.Common.Eq.{nat_eq, bytes_beq}
use bitcask_go.Common.Result.{Res, ok, err, panicked, eof, invalid_number}
use bitcask_go.Common.Result
use bitcask_go.Common.Exec.{Exec, pure, raise, reads, modify, ◌>>=◌, ◌>>◌}
use bitcask_go.Varint.{u32}
use bitcask_go.Decimal.{atoi}
use bitcask_go.Fio.{
  Disk, FilePath, FileName, data_file, merge_finished_file, file_exists, contents, stander_fio,
  memory_map,
}
use bitcask_go.Data.Record.{
  LogRecord, LogRecordPos, TransactionRecord, log_record_deleted, log_record_txn_finished,
}
use bitcask_go.Data.File.{DataFile, open_data_file, open_merge_finished_file, read_log_record}
use bitcask_go.Index.{Indexer}
use bitcask_go.Batch.Key.{parse_log_record_key, non_transaction_seq_no}
use bitcask_go.Db.State.{Options, Db, on_disk, add_reclaim, file_of}
use bitcask_go.Db.Ops.{reclaim_of}

-- os.ReadDir, and the ids in the names that end in .data
abbrev pub id_of : FileName → List ℕ → List ℕ
id_of (data_file i) ids = i ∷ ids
id_of _ ids = ids

unfoldable pub data_file_ids : Bytes → Assoc FilePath Bytes → List ℕ
data_file_ids dir [] = []
data_file_ids dir ((p, bs) ∷ rest) =
    let ids = data_file_ids dir rest in if bytes_beq p.dir dir then id_of p.name ids else ids

-- sort.Ints
abbrev pub insert_int : ℕ → List ℕ → List ℕ
insert_int i [] = i ∷ []
insert_int i (j ∷ js) = if leb i j then i ∷ j ∷ js else j ∷ insert_int i js

unfoldable pub sort_ints : List ℕ → List ℕ
sort_ints [] = []
sort_ints (i ∷ is) = insert_int i (sort_ints is)

-- How the value of a record of strconv is taken.
abbrev pub number_or_error : Option ℕ → Res ℕ
number_or_error none = err invalid_number
number_or_error (some n) = ok n

module _ {ix : Indexer} where
  -- the last file becomes the active one
  abbrev pub keep_open : List ℕ → ℕ → DataFile → Exec (Db ix) (Unit {0})
  keep_open [] id f = modify (λ db. record db { active_file = some f })
  keep_open (j ∷ js) id f =
      modify (λ db. record db { older_files = insert (u32 id) f db.older_files })

  unfoldable pub open_files : ℕ → List ℕ → Exec (Db ix) (Unit {0})
  open_files io_type [] = pure tt
  open_files io_type (i ∷ is) = do
    f ← λ db. on_disk (open_data_file db.options.dir_path (u32 i) io_type) db
    keep_open is i f
    open_files io_type is

  unfoldable pub load_data_files : Exec (Db ix) (Unit {0})
  load_data_files db =
      let ids = sort_ints (data_file_ids db.options.dir_path db.disk.files) in
      open_files (if db.options.mmap_at_startup then memory_map else stander_fio) ids
        (record db { file_ids = ids })

  unfoldable pub get_non_merge_file_id : Bytes → Exec (Db ix) ℕ
  get_non_merge_file_id dir = do
    f ← on_disk (open_merge_finished_file dir)
    r ← reads (λ db. read_log_record f 0 db.disk)
    id ← reads (λ db. number_or_error (atoi r.0.value))
    pure (u32 id)

  -- hasMerge and nonMergeFileId: an id where a merge has finished
  abbrev pub merged_below : Bytes → Exec (Db ix) (Option ℕ)
  merged_below dir db =
      if file_exists db.disk (record { dir = dir; name = merge_finished_file })
      then (get_non_merge_file_id dir >>= λ id. pure (some id)) db
      else pure none db

  -- updateIndex
  unfoldable pub update_index : Bytes → ℕ → LogRecordPos → Db ix → Db ix
  update_index key type pos db =
      if type == log_record_deleted
      then (let (index, old) = ix.delete key db.index in
          add_reclaim (reclaim_of old.0) (add_reclaim pos.size (record db { index = index })))
      else (let (index, old) = ix.put key pos db.index in
          add_reclaim (reclaim_of old) (record db { index = index }))
