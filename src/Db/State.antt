-- ===== src/Db/State.antt =====
-- The DB struct of db.go and the options of options.go, and how a method reaches the disk.
use bitcask_go.Common.{ℕ, ◌+◌, ◌%◌, ◌^◌, Bool, Option, none, some, List, Bytes, ◌==◌, if◌then◌else◌}
use bitcask_go.Common.Assoc.{Assoc, lookup}
use bitcask_go.Common.Eq.{nat_eq}
use bitcask_go.Common.Result.{panicked}
use bitcask_go.Common.Exec.{Exec}
use bitcask_go.Fio.{Disk}
use bitcask_go.Data.File.{DataFile}
use bitcask_go.Index.{Indexer}

-- data_file_size is an int64 and bytes_per_sync a uint; data_file_merge_ratio, a float32, is the word
-- that IEEE 754 encodes it in.
pub record Options : Type 0 where
  pub dir_path : Bytes
  pub data_file_size : ℕ
  pub sync_writes : Bool
  pub bytes_per_sync : ℕ
  pub indexer_type : ℕ
  pub mmap_at_startup : Bool
  pub data_file_merge_ratio : ℕ

-- The locks are left out: a method is one step. `disk` is what the process shares with the system.
pub record Db (ix : Indexer) : Type 0 where
  pub options : Options
  pub file_ids : List ℕ
  pub active_file : Option DataFile
  pub older_files : Assoc ℕ DataFile
  pub index : ix.Index
  pub seq_no : ℕ
  pub is_merging : Bool
  pub seq_no_file_exists : Bool
  pub is_initial : Bool
  pub bytes_write : ℕ
  pub reclaim_size : ℕ
  pub disk : Disk

module _ {ix : Indexer} where
  abbrev pub on_disk : {A : Type 0} → Exec Disk A → Exec (Db ix) A
  on_disk m db = let (d, r) = m db.disk in (record db { disk = d }, r)

  -- db.activeFile, where a method follows the pointer: nil is a panic
  abbrev pub with_file :
      {A : Type 0} → Option DataFile → (DataFile → Exec (Db ix) A) → Exec (Db ix) A
  with_file none k db = (db, panicked)
  with_file (some f) k db = k f db

  abbrev pub with_active : {A : Type 0} → (DataFile → Exec (Db ix) A) → Exec (Db ix) A
  with_active k db = with_file db.active_file k db

  -- reclaimSize is an int64
  abbrev pub add_reclaim : ℕ → Db ix → Db ix
  add_reclaim n db = record db { reclaim_size = (db.reclaim_size + n) % 2 ^ 64 }

  -- the file of an id: the active one, or one of the older ones
  unfoldable pub file_of : DataFile → ℕ → Db ix → Option DataFile
  file_of active fid db = if active.file_id == fid then some active else lookup fid db.older_files
