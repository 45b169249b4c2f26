-- ===== src/Db/Merge/Run.antt =====
-- merge.go: Merge. The database that it opens in the merge directory shares the disk with the one that
-- is merged, and the struct of its options: Merge sets the path and the syncing in both.
use bitcask_go.Common.{
  ℕ, zero, suc, ◌+◌, ◌-◌, ◌%◌, ◌^◌, Bool, true, false, ◌&&◌, Option, none, some, List, [], ◌∷◌,
  Bytes, leb, ◌==◌, if◌then◌else◌,
}
use bitcask_go.Common.Assoc.{Assoc, insert}
use bitcask_go.Common.Eq.{nat_eq}
use bitcask_go.Common.Result
use bitcask_go.Common.Result.{
  Res, ok, err, panicked, eof, io_failed, merge_is_process, merge_ratio_unreached,
  data_directory_corrupted,
}
use bitcask_go.Common.Exec.{Exec, pure, modify, ◌>>=◌, ◌>>◌}
use bitcask_go.Decimal.{format_uint}
use bitcask_go.Fio.{Disk, FileName, on_answer, next_answer, later_answers}
use bitcask_go.Data.Record.{LogRecord, LogRecordPos, log_record_normal, encode_log_record}
use bitcask_go.Data.File
use bitcask_go.Data.File.{
  DataFile, open_hint_file, open_merge_finished_file, read_log_record, write_hint_record,
}
use bitcask_go.Index.{Indexer}
use bitcask_go.Batch.Key.{log_record_key_with_seq, parse_log_record_key, non_transaction_seq_no}
use bitcask_go.Db.State.{Db, on_disk, with_active}
use bitcask_go.Db.Append.{set_active_data_file, append_log_record}
use bitcask_go.Db.Close
use bitcask_go.Db.Load.Loop.{fuel_for}
use bitcask_go.Db.Merge.{Paths, get_merge_path, names_in, without_dir, without_first}
use bitcask_go.Db.Open.{Answers, open_database}

-- What the system answers to Merge: utils.DirSize, utils.AvailableDIskSize, and whether the quotient of
-- the two sizes as float32 is below the ratio.
pub record Sizes : Type 0 where
  pub dir_size : Res ℕ
  pub available : Res ℕ
  pub is_below : ℕ → ℕ → ℕ → Bool

-- sort.Slice by the ids
abbrev pub insert_file : DataFile → List DataFile → List DataFile
insert_file f [] = f ∷ []
insert_file f (g ∷ gs) = if leb f.file_id g.file_id then f ∷ g ∷ gs else g ∷ insert_file f gs

unfoldable pub sort_files : Assoc ℕ DataFile → List DataFile
sort_files [] = []
sort_files ((i, f) ∷ rest) = insert_file f (sort_files rest)

-- os.RemoveAll where the directory is there, and os.MkdirAll
abbrev pub removed_dir : Bytes → List FileName → Exec Disk (Unit {0})
removed_dir dir [] d = (d, ok tt)
removed_dir dir (name ∷ names) d =
    let d' : Disk = record d { answers = later_answers d.answers } in
    on_answer (next_answer d.answers) (record d' { files = without_dir dir d.files }, ok tt)
      (λ n. (record d' { files = without_first n dir d.files }, err io_failed))

abbrev pub made_dir : Exec Disk (Unit {0})
made_dir d =
    let d' : Disk = record d { answers = later_answers d.answers } in
    on_answer (next_answer d.answers) (d', ok tt) (λ n. (d', err io_failed))

unfoldable pub clear_dir : Bytes → Exec Disk (Unit {0})
clear_dir dir d = (do removed_dir dir (names_in dir d.files); made_dir) d

-- A record is live where the index has its position.
abbrev pub is_live : Option LogRecordPos → ℕ → ℕ → Bool
is_live none fid offset = false
is_live (some pos) fid offset = (pos.fid == fid) && (pos.offset == offset)

-- merge.finished
abbrev pub merge_finished_key : Bytes
merge_finished_key =
    b'm' ∷ b'e' ∷ b'r' ∷ b'g' ∷ b'e' ∷ b'.' ∷ b'f' ∷ b'i' ∷ b'n' ∷ b'i' ∷ b's' ∷ b'h' ∷ b'e' ∷ b'd'
    ∷ []

abbrev pub finished_record : ℕ → LogRecord
finished_record id = record {
  key = merge_finished_key;
  value = format_uint id;
  type = log_record_normal;
}

-- The two databases and the hint file; the disk is that of `db`.
pub record Merging (ix : Indexer) : Type 0 where
  pub db : Db ix
  pub merge_db : Db ix
  pub hint_file : DataFile

module _ {ix : Indexer} where
  abbrev pub in_merge_db : {A : Type 0} → Exec (Db ix) A → Exec (Merging ix) A
  in_merge_db m s =
      let (merge_db, r) = m (record s.merge_db { disk = s.db.disk }) in
      (record s { db = record s.db { disk = merge_db.disk }; merge_db = merge_db }, r)

  abbrev pub in_disk : {A : Type 0} → Exec Disk A → Exec (Merging ix) A
  in_disk m s = let (d, r) = m s.db.disk in (record s { db = record s.db { disk = d } }, r)

  -- A live record is written to the merge database, without its transaction, and its position to the
  -- hint file.
  unfoldable pub rewrite : LogRecord → Bytes → Exec (Merging ix) (Unit {0})
  rewrite r real_key = do
    pos ← in_merge_db (
        append_log_record
          (record r { key = log_record_key_with_seq real_key non_transaction_seq_no }))
    hint ← λ s. in_disk (write_hint_record s.hint_file real_key pos) s
    modify (λ s. record s { hint_file = hint })

  abbrev pub keep_live : DataFile → ℕ → LogRecord → Bytes → Exec (Merging ix) (Unit {0})
  keep_live f offset r real_key s =
      if is_live (ix.get real_key s.db.index) f.file_id offset
      then rewrite r real_key s
      else pure tt s

  abbrev pub keep : DataFile → ℕ → LogRecord → Exec (Merging ix) (Unit {0})
  keep f offset r = do parsed ← λ s. (s, parse_log_record_key r.key); keep_live f offset r parsed.0

  abbrev pub then_next :
      Merging ix × Res (Unit {0})
      → (Merging ix → Option (Merging ix × Res (Unit {0})))
      → Option (Merging ix × Res (Unit {0}))
  then_next (s, ok u) next = next s
  then_next (s, err e) next = some (s, err e)
  then_next (s, panicked) next = some (s, panicked)

  abbrev pub merge_record :
      DataFile
      → ℕ
      → Res (LogRecord × ℕ)
      → Merging ix
      → (ℕ → Merging ix → Option (Merging ix × Res (Unit {0})))
      → Option (Merging ix × Res (Unit {0}))
  merge_record f offset (ok (r, size)) s next =
      then_next (keep f offset r s) (next ((offset + size) % 2 ^ 64))
  merge_record f offset (err eof) s next = some (s, ok tt)
  merge_record f offset (err e) s next = some (s, err e)
  merge_record f offset panicked s next = some (s, panicked)

  unfoldable pub merge_file : ℕ → DataFile → ℕ → Merging ix → Option (Merging ix × Res (Unit {0}))
  merge_file zero f offset s = none
  merge_file (suc fuel) f offset s =
      merge_record f offset (read_log_record f offset s.db.disk) s (merge_file fuel f)

  abbrev pub and_next :
      Option (Merging ix × Res (Unit {0}))
      → (Merging ix → Option (Merging ix × Res (Unit {0})))
      → Option (Merging ix × Res (Unit {0}))
  and_next none next = none
  and_next (some m) next = then_next m next

  unfoldable pub merge_files : List DataFile → Merging ix → Option (Merging ix × Res (Unit {0}))
  merge_files [] s = some (s, ok tt)
  merge_files (f ∷ fs) s = and_next (merge_file (fuel_for f s.db) f 0 s) (merge_files fs)

  unfoldable pub finish_merge : Bytes → ℕ → Exec (Merging ix) (Unit {0})
  finish_merge merge_path id = do
    λ s. in_disk (File.sync s.hint_file) s
    in_merge_db Close.sync
    f ← in_disk (open_merge_finished_file merge_path)
    f' ← in_disk (File.write f (encode_log_record (finished_record id)).0)
    in_disk (File.sync f')

  -- Whether a merge may begin.
  unfoldable pub may_merge : Sizes → Db ix → Res (Unit {0})
  may_merge sizes db =
      if db.is_merging
      then err merge_is_process
      else Result.◌>>=◌ sizes.dir_size (λ total.
        if sizes.is_below db.reclaim_size total db.options.data_file_merge_ratio
        then err merge_ratio_unreached
        else Result.◌>>=◌ sizes.available (λ available.
          if leb available ((total + 2 ^ 64 - db.reclaim_size) % 2 ^ 64)
          then err data_directory_corrupted
          else ok tt))

  -- The active file becomes an older one; the id of the new one, and the files to merge.
  unfoldable pub retire_all : Exec (Db ix) (ℕ × List DataFile)
  retire_all = do
    modify (λ db. record db { is_merging = true })
    with_active (λ f. do
      on_disk (File.sync f)
      modify (λ db. record db { older_files = insert f.file_id f db.older_files })
      set_active_data_file)
    λ db. with_active (λ f. pure (f.file_id, sort_files db.older_files)) db

  -- mergeOptions is the pointer db.options.
  abbrev pub with_merge_options : Bytes → Db ix → Db ix
  with_merge_options merge_path db = record db {
    options = record db.options { dir_path = merge_path; sync_writes = false };
  }

  abbrev pub ended_merge : Option (Merging ix × Res (Unit {0})) → Option (Db ix × Res (Unit {0}))
  ended_merge none = none
  ended_merge (some (s, r)) = some (s.db, r)

  abbrev pub with_hint :
      Bytes
      → ℕ
      → List DataFile
      → Db ix
      → Db ix
      → Disk × Res DataFile
      → Option (Db ix × Res (Unit {0}))
  with_hint merge_path id files db merge_db (d, ok hint) = ended_merge (
      and_next
        (merge_files files
          (record { db = record db { disk = d }; merge_db = merge_db; hint_file = hint }))
        (λ s. some (finish_merge merge_path id s)))
  with_hint merge_path id files db merge_db (d, err e) = some (record db { disk = d }, err e)
  with_hint merge_path id files db merge_db (d, panicked) = some (record db { disk = d }, panicked)

  abbrev pub with_merge_db :
      Bytes
      → ℕ
      → List DataFile
      → Db ix
      → Option (Disk × Res (Db ix))
      → Option (Db ix × Res (Unit {0}))
  with_merge_db merge_path id files db none = none
  with_merge_db merge_path id files db (some (d, ok merge_db)) =
      with_hint merge_path id files db merge_db (open_hint_file merge_path d)
  with_merge_db merge_path id files db (some (d, err e)) = some (record db { disk = d }, err e)
  with_merge_db merge_path id files db (some (d, panicked)) =
      some (record db { disk = d }, panicked)

  abbrev pub in_cleared :
      Paths
      → Answers ix
      → Bytes
      → ℕ × List DataFile
      → Db ix × Res (Unit {0})
      → Option (Db ix × Res (Unit {0}))
  in_cleared paths sys merge_path (id, files) (db, ok u) =
      let db' = with_merge_options merge_path db in
      with_merge_db merge_path id files db' (open_database paths sys db'.options db'.disk)
  in_cleared paths sys merge_path todo (db, err e) = some (db, err e)
  in_cleared paths sys merge_path todo (db, panicked) = some (db, panicked)

  abbrev pub in_retired :
      Paths → Answers ix → Db ix × Res (ℕ × List DataFile) → Option (Db ix × Res (Unit {0}))
  in_retired paths sys (db, ok todo) =
      let merge_path = get_merge_path paths db.options.dir_path in
      in_cleared paths sys merge_path todo (on_disk (clear_dir merge_path) db)
  in_retired paths sys (db, err e) = some (db, err e)
  in_retired paths sys (db, panicked) = some (db, panicked)

  -- defer db.isMerging = false
  abbrev pub no_longer_merging : Option (Db ix × Res (Unit {0})) → Option (Db ix × Res (Unit {0}))
  no_longer_merging none = none
  no_longer_merging (some (db, r)) = some (record db { is_merging = false }, r)

  abbrev pub merge_if :
      Paths → Answers ix → Db ix → Res (Unit {0}) → Option (Db ix × Res (Unit {0}))
  merge_if paths sys db (ok u) = no_longer_merging (in_retired paths sys (retire_all db))
  merge_if paths sys db (err e) = some (db, err e)
  merge_if paths sys db panicked = some (db, panicked)

  abbrev pub merge_active :
      Paths → Answers ix → Sizes → Db ix → Option DataFile → Option (Db ix × Res (Unit {0}))
  merge_active paths sys sizes db none = some (db, ok tt)
  merge_active paths sys sizes db (some f) = merge_if paths sys db (may_merge sizes db)

  -- A merge may not end on the fuel of its loops over the files.
  unfoldable pub merge : Paths → Answers ix → Sizes → Db ix → Option (Db ix × Res (Unit {0}))
  merge paths sys sizes db = merge_active paths sys sizes db db.active_file
