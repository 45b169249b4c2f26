-- ===== src/Db/Load/Loop.antt =====
-- loadIndexFromDataFiles of db.go: the loop over the files and over their records.
use bitcask_go.Common.{
  ℕ, zero, suc, ◌+◌, ◌%◌, ◌^◌, Bool, false, Option, none, some, List, [], ◌∷◌, ◌++◌, Bytes, length,
  ltb, ◌==◌, if◌then◌else◌,
}
use mathlib.Core.Option
use bitcask_go.Common.Assoc.{Assoc, lookup, insert, remove}
use bitcask_go.Common.Eq.{nat_eq}
use bitcask_go.Common.Fuelled
use bitcask_go.Common.Fuelled.{Fuelled, or_panic}
use bitcask_go.Common.Result.{Res, ok, err, panicked, eof, ◌>>=◌}
use bitcask_go.Varint.{u32}
use bitcask_go.Fio.{contents}
use bitcask_go.Data.Record.{LogRecord, LogRecordPos, TransactionRecord, log_record_txn_finished}
use bitcask_go.Data.File.{DataFile, read_log_record}
use bitcask_go.Index.{Indexer}
use bitcask_go.Batch.Key.{parse_log_record_key, non_transaction_seq_no}
use bitcask_go.Db.State.{Db, file_of}
use bitcask_go.Db.Load.{update_index, merged_below}

-- The variables of the loop: the database, the records of transactions that have not finished, and
-- the highest sequence number so far.
pub record Loading (ix : Indexer) : Type 0 where
  pub db : Db ix
  pub transaction_records : Assoc ℕ (List TransactionRecord)
  pub current_seq_no : ℕ

abbrev pub or_nil {ℓ} : {A : Type ℓ} → Option (List A) → List A
or_nil none = []
or_nil (some xs) = xs

abbrev pub at_offset : ℕ → DataFile → DataFile
at_offset offset f = record f { write_off = offset }

abbrev pub max : ℕ → ℕ → ℕ
max a b = if ltb a b then b else a

abbrev pub skipped : Option ℕ → ℕ → Bool
skipped none file_id = false
skipped (some non_merge_file_id) file_id = ltb file_id non_merge_file_id

module _ {ix : Indexer} where
  unfoldable pub update_all : List TransactionRecord → Db ix → Db ix
  update_all [] db = db
  update_all (t ∷ ts) db = update_all ts (update_index t.record_of.key t.record_of.type t.pos db)

  -- What one record does, once its key is parsed.
  unfoldable pub load_parsed : LogRecord → LogRecordPos → Bytes → ℕ → Loading ix → Loading ix
  load_parsed r pos real_key seq_no s =
      let s' : Loading ix = record s { current_seq_no = max s.current_seq_no seq_no } in
      let records = or_nil (lookup seq_no s.transaction_records) in
      if seq_no == non_transaction_seq_no
      then record s' { db = update_index real_key r.type pos s.db }
      else if r.type == log_record_txn_finished
      then record s' {
        db = update_all records s.db;
        transaction_records = remove seq_no s.transaction_records;
      }
      else record s' {
        transaction_records =
            insert seq_no
              (records
                ++ record {
                  record_of = record { key = real_key; value = r.value; type = r.type };
                  pos = pos;
                }
                  ∷ [])
              s.transaction_records;
      }

  -- One round: the record at the offset, and the offset behind it.
  unfoldable pub load_round : ℕ → DataFile → ℕ → Loading ix → Res (Loading ix × ℕ)
  load_round file_id f offset s = do
    found ← read_log_record f offset s.db.disk
    parsed ← parse_log_record_key found.0.key
    let pos : LogRecordPos = record { fid = file_id; offset = offset; size = u32 found.1 }
    ok (load_parsed found.0 pos parsed.0 parsed.1 s, (offset + found.1) % 2 ^ 64)

  abbrev pub load_more :
      Res (Loading ix × ℕ)
      → ℕ
      → Loading ix
      → (ℕ → Loading ix → Fuelled (Loading ix × ℕ))
      → Fuelled (Loading ix × ℕ)
  load_more (ok (s', offset')) offset s next = next offset' s'
  load_more (err eof) offset s next = some (ok (s, offset))
  load_more (err e) offset s next = some (err e)
  load_more panicked offset s next = some panicked

  -- The loop over one file, to the end of the file.
  unfoldable pub load_file : ℕ → ℕ → DataFile → ℕ → Loading ix → Fuelled (Loading ix × ℕ)
  load_file zero file_id f offset s = none
  load_file (suc fuel) file_id f offset s =
      load_more (load_round file_id f offset s) offset s (load_file fuel file_id f)

  -- every record takes a byte and more
  abbrev pub fuel_for : DataFile → Db ix → ℕ
  fuel_for f db = suc (length (contents db.disk f.io_manager.path))

  -- db.activeFile.FileId and the file of an id: nil is a panic
  abbrev pub file_to_load : Option DataFile → ℕ → Db ix → Res DataFile
  file_to_load none file_id db = panicked
  file_to_load (some active) file_id db = or_panic (file_of active file_id db)

  -- the last file is the active one, and is written where its last record ends
  abbrev pub set_write_off : List ℕ → ℕ → Loading ix → Loading ix
  set_write_off [] offset s = record s {
    db = record s.db { active_file = Option.map (at_offset offset) s.db.active_file };
  }
  set_write_off (i ∷ is) offset s = s

  unfoldable pub load_one : Option ℕ → ℕ → List ℕ → Loading ix → Fuelled (Loading ix)
  load_one merged id rest s =
      if skipped merged (u32 id)
      then some (ok s)
      else Fuelled.◌>>=◌ (some (file_to_load s.db.active_file (u32 id) s.db)) (λ f.
        Fuelled.◌>>=◌ (load_file (fuel_for f s.db) (u32 id) f 0 s)
          (λ (s', offset). some (ok (set_write_off rest offset s'))))

  unfoldable pub load_files : Option ℕ → List ℕ → Loading ix → Fuelled (Loading ix)
  load_files merged [] s = some (ok s)
  load_files merged (i ∷ is) s =
      Fuelled.◌>>=◌ (load_one merged i is s) (λ s'. load_files merged is s')

  -- Open drops the database where this fails, so the state beside an error is the one before.
  abbrev pub loaded : Db ix → Fuelled (Loading ix) → Option (Db ix × Res (Unit {0}))
  loaded db none = none
  loaded db (some (ok s)) = some (record s.db { seq_no = s.current_seq_no }, ok tt)
  loaded db (some (err e)) = some (db, err e)
  loaded db (some panicked) = some (db, panicked)

  abbrev pub load_above : Db ix × Res (Option ℕ) → Option (Db ix × Res (Unit {0}))
  load_above (db, ok merged) = loaded db (
      load_files merged db.file_ids
        (record { db = db; transaction_records = []; current_seq_no = non_transaction_seq_no }))
  load_above (db, err e) = some (db, err e)
  load_above (db, panicked) = some (db, panicked)

  unfoldable pub load_index_from_data_files : Db ix → Option (Db ix × Res (Unit {0}))
  load_index_from_data_files db =
      if length db.file_ids == 0
      then some (db, ok tt)
      else load_above (merged_below db.options.dir_path db)
