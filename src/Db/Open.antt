-- ===== src/Db/Open.antt =====
-- db.go: checkOptions, and Open over what the system answers; Stat.
pub mod Reopen
use bitcask_go.Common.{
  ℕ, ◌+◌, ◌^◌, Bool, true, false, ◌||◌, ◌&&◌, not, Option, none, some, Bytes, length, ltb, ◌==◌,
  if◌then◌else◌,
}
use bitcask_go.Common.Result.{
  Res, ok, err, panicked, ◌>>=◌, ◌>>◌, invalid_options, database_is_using,
}
use bitcask_go.Varint.{signed_lt}
use bitcask_go.Fio.{Disk}
use bitcask_go.Index.{Indexer, b_tree, art, b_plus_tree}
use bitcask_go.Data.File.{DataFile}
use bitcask_go.Db.State.{Options, Db}
use bitcask_go.Db.Load.Start.{new_db, and_then, load_database}
use bitcask_go.Db.Merge.{Paths, load_merge_files}

-- The comparisons of a float32 with 0 and 1: 2139095040 encodes the infinity and 1065353216 the 1; a
-- greater word than the infinity encodes no number.
abbrev pub is_below_zero : ℕ → Bool
is_below_zero w = ltb (2 ^ 31) w && not (ltb (2 ^ 31 + 2139095040) w)

abbrev pub is_above_one : ℕ → Bool
is_above_one w = ltb 1065353216 w && not (ltb 2139095040 w)

unfoldable pub check_options : Options → Res (Unit {0})
check_options options =
    if length options.dir_path == 0
    then err invalid_options
    else if not (signed_lt 0 options.data_file_size)
    then err invalid_options
    else if is_below_zero options.data_file_merge_ratio
        || is_above_one options.data_file_merge_ratio
    then err invalid_options
    else ok tt

-- What the system answers to Open: whether the directory is missing, how making it ends, whether the
-- lock is held, how many entries the directory has then, and the index that is kept on disk.
pub record Answers (ix : Indexer) : Type 0 where
  pub missing : Bool
  pub made : Res (Unit {0})
  pub hold : Res Bool
  pub entries : Res ℕ
  pub on_disk : Res ix.Index

-- NewIndexer of index/index.go
unfoldable pub new_indexer : (ix : Indexer) → ℕ → Res ix.Index → Res ix.Index
new_indexer ix type opened =
    if (type == b_tree) || (type == art)
    then ok ix.empty
    else if type == b_plus_tree
    then opened
    else panicked

abbrev pub if_held : {A : Type 0} → Bool → Res A → Res A
if_held hold r = if hold then r else err database_is_using

module _ {ix : Indexer} where
  -- The DB struct, or how Open ends before it is made.
  unfoldable pub prepare : Answers ix → Options → Disk → Res (Db ix)
  prepare sys options disk = do
    check_options options
    if sys.missing then sys.made else ok tt
    hold ← sys.hold
    if_held hold (do
      n ← sys.entries
      index ← new_indexer ix options.indexer_type sys.on_disk
      ok (new_db options (sys.missing || (n == 0)) disk index))

  abbrev pub finish : Option (Db ix × Res (Unit {0})) → Option (Disk × Res (Db ix))
  finish none = none
  finish (some (db, ok u)) = some (db.disk, ok db)
  finish (some (db, err e)) = some (db.disk, err e)
  finish (some (db, panicked)) = some (db.disk, panicked)

  abbrev pub load : Paths → Disk → Res (Db ix) → Option (Disk × Res (Db ix))
  load paths disk (ok db) = finish (and_then (some (load_merge_files paths db)) load_database)
  load paths disk (err e) = some (disk, err e)
  load paths disk panicked = some (disk, panicked)

  unfoldable pub open_database : Paths → Answers ix → Options → Disk → Option (Disk × Res (Db ix))
  open_database paths sys options disk = load paths disk (prepare sys options disk)

-- The statistics of a database; `disk_size` is what utils.DirSize answers.
pub record Stat : Type 0 where
  pub key_num : ℕ
  pub data_file_num : ℕ
  pub reclaimable_size : ℕ
  pub disk_size : ℕ

abbrev pub with_active_file : Option DataFile → ℕ → ℕ
with_active_file none n = n
with_active_file (some f) n = n + 1

module _ {ix : Indexer} where
  abbrev pub stat_of : Db ix → Res ℕ → Res Stat
  stat_of db (ok n) = ok (record {
    key_num = ix.size db.index;
    data_file_num = with_active_file db.active_file (length db.older_files);
    reclaimable_size = db.reclaim_size;
    disk_size = n;
  })
  stat_of db (err e) = panicked
  stat_of db panicked = panicked

  unfoldable pub stat : Res ℕ → Db ix → Res Stat
  stat dir_size db = stat_of db dir_size
