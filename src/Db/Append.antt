-- ===== src/Db/Append.antt =====
-- db.go: appendLogRecord and setActiveDataFile.
pub mod Rotate
pub mod Retire
pub mod Write
pub mod Whole
pub mod Healthy
use bitcask_go.Common.{
  ℕ, ◌+◌, ◌%◌, ◌^◌, Bool, ◌&&◌, ◌||◌, Option, none, some, Bytes, ltb, leb, if◌then◌else◌,
}
use bitcask_go.Common.Assoc.{insert}
use bitcask_go.Common.Eq.{nat_eq}
use bitcask_go.Common.Result.{ok}
use bitcask_go.Common.Exec.{Exec, continue, pure, modify, ◌>>=◌, ◌>>◌}
use bitcask_go.Varint.{u32, signed_lt}
use bitcask_go.Fio.{stander_fio}
use bitcask_go.Data.Record.{LogRecord, LogRecordPos, encode_log_record}
use bitcask_go.Data.File
use bitcask_go.Data.File.{DataFile, open_data_file}
use bitcask_go.Index.{Indexer}
use bitcask_go.Db.State.{Options, Db, on_disk, with_active}

-- the id of the file that setActiveDataFile opens
abbrev pub next_file_id : Option DataFile → ℕ
next_file_id none = 0
next_file_id (some f) = u32 (f.file_id + 1)

-- needSync
unfoldable pub need_sync : Options → ℕ → Bool
need_sync o bytes_write =
    o.sync_writes || (ltb 0 o.bytes_per_sync && leb o.bytes_per_sync bytes_write)

module _ {ix : Indexer} where
  unfoldable pub set_active_data_file : Exec (Db ix) (Unit {0})
  set_active_data_file db =
      (do
        f ← on_disk (open_data_file db.options.dir_path (next_file_id db.active_file) stander_fio)
        modify (λ db'. record db' { active_file = some f }))
        db

  abbrev pub ensure_file : Option DataFile → Exec (Db ix) (Unit {0})
  ensure_file none = set_active_data_file
  ensure_file (some f) = pure tt

  -- the data file is made at the first write
  unfoldable pub ensure_active_file : Exec (Db ix) (Unit {0})
  ensure_active_file db = ensure_file db.active_file db

  -- a record that does not fit into the active file goes to a new one
  unfoldable pub retire_file : DataFile → Exec (Db ix) (Unit {0})
  retire_file f = do
    on_disk (File.sync f)
    modify (λ db. record db { older_files = insert f.file_id f db.older_files })
    set_active_data_file

  unfoldable pub rotate_file : ℕ → DataFile → Exec (Db ix) (Unit {0})
  rotate_file size f db =
      if signed_lt db.options.data_file_size ((f.write_off + size) % 2 ^ 64)
      then retire_file f db
      else pure tt db

  unfoldable pub rotate_active_file : ℕ → Exec (Db ix) (Unit {0})
  rotate_active_file size = with_active (rotate_file size)

  unfoldable pub write_active_file : Bytes → Exec (Db ix) (Unit {0})
  write_active_file buf =
      with_active (λ f. do
        f' ← on_disk (File.write f buf)
        modify (λ db. record db { active_file = some f' }))

  -- bytesWrite is a uint
  unfoldable pub count_and_sync : ℕ → Exec (Db ix) (Unit {0})
  count_and_sync size db =
      let db' : Db ix = record db { bytes_write = (db.bytes_write + size) % 2 ^ 64 } in
      if need_sync db'.options db'.bytes_write
      then (do
        with_active (λ f. on_disk (File.sync f))
        modify (λ db''. record db'' { bytes_write = 0 }))
          db'
      else pure tt db'

  -- the write to the active file, and the position of the record
  unfoldable pub write_record : LogRecord → Exec (Db ix) LogRecordPos
  write_record r = with_active (λ f. do
    write_active_file (encode_log_record r).0
    count_and_sync (encode_log_record r).1
    with_active (λ g.
        pure
          (record { fid = g.file_id; offset = f.write_off; size = u32 (encode_log_record r).1 })))

  unfoldable pub append_log_record : LogRecord → Exec (Db ix) LogRecordPos
  append_log_record r = do
    ensure_active_file
    rotate_active_file (encode_log_record r).1
    write_record r
