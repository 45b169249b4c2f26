-- ===== src/Db/Load/Start.antt =====
-- db.go: what Open does once the directory is locked and no merge is left behind: it opens the data
-- files and finds the index, from the hint file and the data files or in the B+ tree.
use bitcask_go.Common.{
  ℕ, zero, suc, ◌+◌, ◌%◌, ◌^◌, Bool, true, false, Option, none, some, List, [], ◌∷◌, ◌==◌,
  if◌then◌else◌,
}
use bitcask_go.Common.Assoc.{insert}
use bitcask_go.Common.Eq.{nat_eq}
use bitcask_go.Common.Fuelled.{Fuelled}
use bitcask_go.Common.Result.{Res, ok, err, panicked, eof}
use bitcask_go.Common.Result
use bitcask_go.Common.Exec.{Exec, pure, reads, modify, ◌>>=◌, ◌>>◌}
use bitcask_go.Decimal.{parse_uint}
use bitcask_go.Fio
use bitcask_go.Fio.{Disk, contents, file_exists, hint_file, seq_no_file, stander_fio, remove_file}
use bitcask_go.Data.Record.{decode_log_record_pos}
use bitcask_go.Data.File.{
  DataFile, open_hint_file, open_seq_no_file, read_log_record, set_io_manager,
}
use bitcask_go.Index.{Indexer, b_plus_tree}
use bitcask_go.Db.State.{Options, Db, on_disk}
use bitcask_go.Db.Load.{load_data_files, number_or_error}
use bitcask_go.Db.Load.Loop.{fuel_for, load_index_from_data_files}

-- A step of Open that may not end on its fuel; the state beside an error is not used again.
abbrev pub Step : Indexer → Type 0
Step ix = Db ix → Option (Db ix × Res (Unit {0}))

module _ {ix : Indexer} where
  -- One round of loadIndexFromHintFile.
  unfoldable pub hint_round : DataFile → ℕ → Db ix → Res (Db ix × ℕ)
  hint_round f offset db = Result.◌>>=◌ (read_log_record f offset db.disk) (λ found.
      Result.◌>>=◌ (decode_log_record_pos found.0.value) (λ pos.
        ok
          (record db { index = (ix.put found.0.key pos db.index).0 }, (offset + found.1) % 2 ^ 64)))

  abbrev pub hint_more : Res (Db ix × ℕ) → Db ix → (ℕ → Db ix → Fuelled (Db ix)) → Fuelled (Db ix)
  hint_more (ok (db', offset')) db next = next offset' db'
  hint_more (err eof) db next = some (ok db)
  hint_more (err e) db next = some (err e)
  hint_more panicked db next = some panicked

  unfoldable pub load_hints : ℕ → DataFile → ℕ → Db ix → Fuelled (Db ix)
  load_hints zero f offset db = none
  load_hints (suc fuel) f offset db = hint_more (hint_round f offset db) db (load_hints fuel f)

  abbrev pub ended : Db ix → Fuelled (Db ix) → Option (Db ix × Res (Unit {0}))
  ended db none = none
  ended db (some (ok db')) = some (db', ok tt)
  ended db (some (err e)) = some (db, err e)
  ended db (some panicked) = some (db, panicked)

  abbrev pub hints_of : Db ix × Res DataFile → Option (Db ix × Res (Unit {0}))
  hints_of (db, ok f) = ended db (load_hints (fuel_for f db) f 0 db)
  hints_of (db, err e) = some (db, err e)
  hints_of (db, panicked) = some (db, panicked)

  unfoldable pub load_index_from_hint_file : Step ix
  load_index_from_hint_file db =
      let dir = db.options.dir_path in
      if file_exists db.disk (record { dir = dir; name = hint_file })
      then hints_of (on_disk (open_hint_file dir) db)
      else some (db, ok tt)

  -- The files of olderFiles, in an order that the map chooses.
  unfoldable pub reset_files : List (ℕ × DataFile) → Exec (Db ix) (Unit {0})
  reset_files [] = pure tt
  reset_files ((i, f) ∷ rest) = do
    f' ← λ db. on_disk (set_io_manager f db.options.dir_path stander_fio) db
    modify (λ db. record db { older_files = insert i f' db.older_files })
    reset_files rest

  abbrev pub reset_active : Option DataFile → Exec (Db ix) (Unit {0})
  reset_active none = pure tt
  reset_active (some f) = do
    f' ← λ db. on_disk (set_io_manager f db.options.dir_path stander_fio) db
    modify (λ db. record db { active_file = some f' })
    λ db. reset_files db.older_files db

  unfoldable pub reset_io_type : Exec (Db ix) (Unit {0})
  reset_io_type db = reset_active db.active_file db

  unfoldable pub load_seq_no : Exec (Db ix) (Unit {0})
  load_seq_no db =
      let path : Fio.FilePath = record { dir = db.options.dir_path; name = seq_no_file } in
      if file_exists db.disk path
      then (do
        f ← on_disk (open_seq_no_file db.options.dir_path)
        r ← reads (λ db'. read_log_record f 0 db'.disk)
        seq_no ← reads (λ db'. number_or_error (parse_uint r.0.value))
        modify (λ db'. record db' { seq_no = seq_no; seq_no_file_exists = true })
        on_disk (remove_file path))
          db
      else pure tt db

  -- The active file is written at its end: its records are not read.
  abbrev pub at_end : Option DataFile → Exec (Db ix) (Unit {0})
  at_end none = pure tt
  at_end (some f) = modify (λ db. record db {
    active_file = some (record f { write_off = Fio.size f.io_manager db.disk });
  })

  abbrev pub and_then : Option (Db ix × Res (Unit {0})) → Step ix → Option (Db ix × Res (Unit {0}))
  and_then none k = none
  and_then (some (db, ok u)) k = k db
  and_then (some (db, err e)) k = some (db, err e)
  and_then (some (db, panicked)) k = some (db, panicked)

  abbrev pub reset_if_mapped : Step ix
  reset_if_mapped db = some ((if db.options.mmap_at_startup then reset_io_type else pure tt) db)

  abbrev pub load_index : Step ix
  load_index db =
      if db.options.indexer_type == b_plus_tree
      then some ((do load_seq_no; λ db'. at_end db'.active_file db') db)
      else and_then (and_then (load_index_from_hint_file db) load_index_from_data_files)
          reset_if_mapped

  -- The DB struct that Open makes.
  abbrev pub new_db : Options → Bool → Disk → ix.Index → Db ix
  new_db options is_initial disk index = record {
    options = options;
    file_ids = [];
    active_file = none;
    older_files = [];
    index = index;
    seq_no = 0;
    is_merging = false;
    seq_no_file_exists = false;
    is_initial = is_initial;
    bytes_write = 0;
    reclaim_size = 0;
    disk = disk;
  }

  unfoldable pub load_database : Step ix
  load_database db = and_then (some (load_data_files db)) load_index
