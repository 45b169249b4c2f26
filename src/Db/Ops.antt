-- ===== src/Db/Ops.antt =====
-- db.go: Put, Get and Delete.
use bitcask_go.Common.{
  ℕ, Bool, true, false, Option, none, some, [], Bytes, length, ◌==◌, if◌then◌else◌,
}
use bitcask_go.Common.Result
use bitcask_go.Common.Result.{
  Res, ok, err, panicked, key_is_empty, key_not_found, data_file_not_found, index_update_failed,
}
use bitcask_go.Common.Exec.{Exec, pure, raise, ◌>>=◌}
use bitcask_go.Data.Record.{LogRecord, LogRecordPos, log_record_normal, log_record_deleted}
use bitcask_go.Data.File.{DataFile, read_log_record}
use bitcask_go.Index.{Indexer}
use bitcask_go.Batch.Key.{log_record_key_with_seq, non_transaction_seq_no}
use bitcask_go.Db.State.{Db, add_reclaim, file_of}
use bitcask_go.Db.Append.{append_log_record}

-- The old position that an update of the index returned can be reclaimed.
abbrev pub reclaim_of : Option LogRecordPos → ℕ
reclaim_of none = 0
reclaim_of (some p) = p.size

-- what is left of a record that was read: a deletion has no value
abbrev pub value_of : LogRecord × ℕ → Res Bytes
value_of (r, size) = if r.type == log_record_deleted then err key_not_found else ok r.value

module _ {ix : Indexer} where
  -- db.index.Put and the reclaim of what it replaced
  unfoldable pub put_index : Bytes → LogRecordPos → Exec (Db ix) (Unit {0})
  put_index key pos db =
      let (index, old) = ix.put key pos db.index in
      (add_reclaim (reclaim_of old) (record db { index = index }), ok tt)

  unfoldable pub put : Bytes → Bytes → Exec (Db ix) (Unit {0})
  put key value = if length key == 0 then raise key_is_empty else do
    pos ← append_log_record (record {
      key = log_record_key_with_seq key non_transaction_seq_no;
      value = value;
      type = log_record_normal;
    })
    put_index key pos

  unfoldable pub read_value : Option DataFile → ℕ → Db ix → Res Bytes
  read_value none offset db = err data_file_not_found
  read_value (some f) offset db = Result.◌>>=◌ (read_log_record f offset db.disk) value_of

  abbrev pub read_position : Option DataFile → LogRecordPos → Db ix → Res Bytes
  read_position none pos db = panicked
  read_position (some f) pos db = read_value (file_of f pos.fid db) pos.offset db

  -- The method follows db.activeFile first: nil is a panic.
  unfoldable pub get_value_by_position : LogRecordPos → Db ix → Res Bytes
  get_value_by_position pos db = read_position db.active_file pos db

  abbrev pub get_indexed : Option LogRecordPos → Db ix → Res Bytes
  get_indexed none db = err key_not_found
  get_indexed (some pos) db = get_value_by_position pos db

  unfoldable pub get : Bytes → Db ix → Res Bytes
  get key db = if length key == 0 then err key_is_empty else get_indexed (ix.get key db.index) db

  abbrev pub deleted : Option LogRecordPos → Bool → Exec (Db ix) (Unit {0})
  deleted old false = raise index_update_failed
  deleted none true = λ db. (db, panicked)
  deleted (some p) true = λ db. (add_reclaim p.size db, ok tt)

  -- db.index.Delete and the reclaim of what it removed; the deletion's record can be reclaimed too
  unfoldable pub delete_index : Bytes → Exec (Db ix) (Unit {0})
  delete_index key db =
      let (index, old) = ix.delete key db.index in
      let db' : Db ix = record db { index = index } in deleted old.0 old.1 db'

  abbrev pub delete_known : Bytes → Option LogRecordPos → Exec (Db ix) (Unit {0})
  delete_known key none = pure tt
  delete_known key (some known) = do
    pos ← append_log_record (record {
      key = log_record_key_with_seq key non_transaction_seq_no;
      value = [];
      type = log_record_deleted;
    })
    λ db. delete_index key (add_reclaim pos.size db)

  unfoldable pub delete : Bytes → Exec (Db ix) (Unit {0})
  delete key db =
      if length key == 0 then raise key_is_empty db else delete_known key (ix.get key db.index) db
