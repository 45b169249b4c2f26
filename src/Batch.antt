-- ===== src/Batch.antt =====
-- batch.go: WriteBatch. The order in which Go ranges over the pending writes is chosen anew by each
-- loop, so a commit is given one order for the log and one for the index.
pub mod Key
pub mod Append
pub mod Publish
pub mod Stays
pub mod Stage
pub mod Commit
pub mod Durable
pub mod Ranging
use bitcask_go.Common.{
  ℕ, ◌+◌, ◌%◌, ◌^◌, Bool, ◌&&◌, not, Option, none, some, List, [], ◌∷◌, Bytes, length, ltb, ◌==◌,
  if◌then◌else◌,
}
use bitcask_go.Common.Assoc.{Assoc, lookup, insert, remove}
use bitcask_go.Common.Eq.{bytes_eq}
use bitcask_go.Common.Result.{Res, ok, err, panicked, key_is_empty, exceed_max_batch_num}
use bitcask_go.Common.Exec.{Exec, pure, raise, ◌>>=◌, ◌>>◌}
use bitcask_go.Data.Record.{
  LogRecord, LogRecordPos, log_record_normal, log_record_deleted, log_record_txn_finished,
}
use bitcask_go.Data.File
use bitcask_go.Data.File.{DataFile}
use bitcask_go.Index.{Indexer, b_plus_tree}
use bitcask_go.Batch.Key.{log_record_key_with_seq}
use bitcask_go.Db.State.{Db, on_disk, add_reclaim}
use bitcask_go.Db.Append.{append_log_record}
use bitcask_go.Db.Ops.{put_index, reclaim_of}

-- txnFinKey
abbrev pub txn_fin_key : Bytes
txn_fin_key = b't' ∷ b'x' ∷ b'n' ∷ b'-' ∷ b'f' ∷ b'i' ∷ b'n' ∷ []

pub record WriteBatchOptions : Type 0 where
  pub max_batch_num : ℕ
  pub sync_writes : Bool

-- The batch's lock is left out; the database is passed beside it.
pub record WriteBatch : Type 0 where
  pub options : WriteBatchOptions
  pub pending_writes : Assoc Bytes LogRecord

unfoldable pub put : Bytes → Bytes → Exec WriteBatch (Unit {0})
put key value wb = if length key == 0 then raise key_is_empty wb else (
  record wb {
    pending_writes =
        insert key (record { key = key; value = value; type = log_record_normal })
          wb.pending_writes;
  },
  ok tt,
)

-- A key that the index does not have is only dropped from the pending writes.
abbrev pub stage_deletion :
    Bytes → Option LogRecordPos → Assoc Bytes LogRecord → Assoc Bytes LogRecord
stage_deletion key none pending = remove key pending
stage_deletion key (some pos) pending =
    insert key (record { key = key; value = []; type = log_record_deleted }) pending

abbrev pub with_seq : ℕ → LogRecord → LogRecord
with_seq seq_no r = record {
  key = log_record_key_with_seq r.key seq_no;
  value = r.value;
  type = r.type;
}

abbrev pub finished_record : ℕ → LogRecord
finished_record seq_no = record {
  key = log_record_key_with_seq txn_fin_key seq_no;
  value = [];
  type = log_record_txn_finished;
}

module _ {ix : Indexer} where
  -- The panic is for a B+ tree whose sequence number is lost.
  unfoldable pub new_write_batch : WriteBatchOptions → Db ix → Res WriteBatch
  new_write_batch opts db =
      if db.options.indexer_type == b_plus_tree && (not db.seq_no_file_exists && not db.is_initial)
      then panicked
      else ok (record { options = opts; pending_writes = [] })

  unfoldable pub delete : Bytes → Db ix → Exec WriteBatch (Unit {0})
  delete key db wb = if length key == 0 then raise key_is_empty wb else (
    record wb { pending_writes = stage_deletion key (ix.get key db.index) wb.pending_writes },
    ok tt,
  )

  -- the loop that writes the records to the log, and where each of them came to lie
  unfoldable pub write_all :
      ℕ → List LogRecord → Assoc Bytes LogRecordPos → Exec (Db ix) (Assoc Bytes LogRecordPos)
  write_all seq_no [] positions = pure positions
  write_all seq_no (r ∷ rs) positions = do
    pos ← append_log_record (with_seq seq_no r)
    write_all seq_no rs (insert r.key pos positions)

  -- The loop stores nil for a key that has no position; there is none, and no nil in this index.
  abbrev pub put_position : Bytes → Option LogRecordPos → Exec (Db ix) (Unit {0})
  put_position key none db = (db, panicked)
  put_position key (some pos) db = put_index key pos db

  unfoldable pub drop_index : Bytes → Exec (Db ix) (Unit {0})
  drop_index key db =
      let (index, old) = ix.delete key db.index in
      (add_reclaim (reclaim_of old.0) (record db { index = index }), ok tt)

  unfoldable pub publish : Assoc Bytes LogRecordPos → LogRecord → Exec (Db ix) (Unit {0})
  publish positions r =
      if r.type == log_record_normal
      then put_position r.key (lookup r.key positions)
      else if r.type == log_record_deleted
      then drop_index r.key
      else pure tt

  -- the loop that updates the index
  unfoldable pub publish_all : Assoc Bytes LogRecordPos → List LogRecord → Exec (Db ix) (Unit {0})
  publish_all positions [] = pure tt
  publish_all positions (r ∷ rs) = do publish positions r; publish_all positions rs

  abbrev pub sync_file : Option DataFile → Exec (Db ix) (Unit {0})
  sync_file none = pure tt
  sync_file (some f) = on_disk (File.sync f)

  unfoldable pub sync_active : Bool → Exec (Db ix) (Unit {0})
  sync_active sync_writes db = if sync_writes then sync_file db.active_file db else pure tt db

  -- the transaction `seq_no`: its records, the record of its end, and then the index
  unfoldable pub run_transaction :
      Bool → ℕ → List LogRecord → List LogRecord → Exec (Db ix) (Unit {0})
  run_transaction sync_writes seq_no log_order index_order = do
    positions ← write_all seq_no log_order []
    append_log_record (finished_record seq_no)
    sync_active sync_writes
    publish_all positions index_order

  -- atomic.AddUint64(&db.seqNo, 1)
  abbrev pub next_seq_no : Db ix → ℕ
  next_seq_no db = (db.seq_no + 1) % 2 ^ 64

  -- What a commit does to the database; the batch is empty after a commit that returned.
  unfoldable pub commit : List LogRecord → List LogRecord → WriteBatch → Exec (Db ix) WriteBatch
  commit log_order index_order wb db =
      if length wb.pending_writes == 0
      then (db, ok wb)
      else if ltb wb.options.max_batch_num (length wb.pending_writes)
      then (db, err exceed_max_batch_num)
      else (do
        run_transaction wb.options.sync_writes (next_seq_no db) log_order index_order
        pure (record wb { pending_writes = [] }))
          (record db { seq_no = next_seq_no db })
