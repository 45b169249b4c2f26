-- ===== src/Db/Merge.antt =====
-- merge.go: the directory of a merge, and LoadMergeFiles, which takes its files over when the database
-- is opened. A directory is there where a file is in it.
pub mod Moves
pub mod Names
pub mod Finished
pub mod Adopted
pub mod Run
use bitcask_go.Common.{
  ℕ, zero, suc, ◌+◌, Bool, true, false, ◌||◌, not, Option, none, some, List, [], ◌∷◌, ◌++◌, Bytes,
  if◌then◌else◌,
}
use bitcask_go.Common.Assoc.{Assoc, lookup, insert, remove}
use bitcask_go.Common.Eq.{◌=?◌, bytes_eq, bytes_beq}
use bitcask_go.Common.Result.{Res, ok, err, panicked, io_failed}
use bitcask_go.Common.Exec.{Exec, pure, ◌>>=◌, ◌>>◌}
use bitcask_go.Fio.{
  Disk, FilePath, FileName, name_beq, path_eq, merge_finished_file, seq_no_file, lock_file,
  on_answer, next_answer, later_answers, remove_file,
}
use bitcask_go.Data.File.{get_data_file_name}
use bitcask_go.Index.{Indexer}
use bitcask_go.Db.State.{Db, on_disk}
use bitcask_go.Db.Load.{get_non_merge_file_id}

-- path.Clean, path.Dir, path.Base and filepath.Join of Go's standard library
pub record Paths : Type 0 where
  pub clean : Bytes → Bytes
  pub dir : Bytes → Bytes
  pub base : Bytes → Bytes
  pub join : Bytes → Bytes → Bytes

-- -merge
abbrev pub merge_dir_name : Bytes
merge_dir_name = b'-' ∷ b'm' ∷ b'e' ∷ b'r' ∷ b'g' ∷ b'e' ∷ []

unfoldable pub get_merge_path : Paths → Bytes → Bytes
get_merge_path paths dir_path =
    paths.join (paths.dir (paths.clean dir_path)) (paths.base dir_path ++ merge_dir_name)

-- os.ReadDir
unfoldable pub names_in : Bytes → Assoc FilePath Bytes → List FileName
names_in dir [] = []
names_in dir ((p, bs) ∷ rest) =
    let names = names_in dir rest in if p.dir =? dir then p.name ∷ names else names

abbrev pub has_name : FileName → List FileName → Bool
has_name n [] = false
has_name n (name ∷ names) = name_beq name n || has_name n names

-- The names but those of the file of the sequence number and of the lock file.
unfoldable pub merge_file_names : List FileName → List FileName
merge_file_names [] = []
merge_file_names (name ∷ names) =
    let rest = merge_file_names names in
    if name_beq name seq_no_file
    then rest
    else if name_beq name lock_file
    then rest
    else name ∷ rest

-- os.Rename; it fails where there is no such file.
abbrev pub renamed : FilePath → FilePath → Option Bytes → Exec Disk (Unit {0})
renamed src dst none d = (record d { answers = later_answers d.answers }, err io_failed)
renamed src dst (some bs) d =
    let d' : Disk = record d { answers = later_answers d.answers } in
    on_answer (next_answer d.answers)
      (record d' { files = insert dst bs (remove src d.files) }, ok tt) (λ n. (d', err io_failed))

unfoldable pub rename_file : FilePath → FilePath → Exec Disk (Unit {0})
rename_file src dst d = renamed src dst (lookup src d.files) d

-- The files of a directory are removed, all of them or the first n.
unfoldable pub without_dir : Bytes → Assoc FilePath Bytes → Assoc FilePath Bytes
without_dir dir [] = []
without_dir dir ((p, bs) ∷ rest) =
    let kept = without_dir dir rest in if p.dir =? dir then kept else (p, bs) ∷ kept

unfoldable pub without_first : ℕ → Bytes → Assoc FilePath Bytes → Assoc FilePath Bytes
without_first n dir [] = []
without_first zero dir (entry ∷ rest) = entry ∷ rest
without_first (suc n) dir ((p, bs) ∷ rest) = elim (p.dir =? dir) [
  | true ↦ without_first n dir rest
  | false ↦ (p, bs) ∷ without_first (suc n) dir rest
]

-- _ = os.RemoveAll
unfoldable pub remove_all : Bytes → Disk → Disk
remove_all dir d =
    let d' : Disk = record d { answers = later_answers d.answers } in
    on_answer (next_answer d.answers) (record d' { files = without_dir dir d.files })
      (λ n. record d' { files = without_first n dir d.files })

abbrev pub remove_there : FilePath → Option Bytes → Exec Disk (Unit {0})
remove_there p none d = (d, ok tt)
remove_there p (some bs) d = remove_file p d

-- The data files with ids from i on are removed, n of them, where they are there.
unfoldable pub remove_old : Bytes → ℕ → ℕ → Exec Disk (Unit {0})
remove_old dir zero i d = (d, ok tt)
remove_old dir (suc n) i d =
    (do
      remove_there (get_data_file_name dir i) (lookup (get_data_file_name dir i) d.files)
      remove_old dir n (i + 1))
      d

unfoldable pub move_files : Bytes → Bytes → List FileName → Exec Disk (Unit {0})
move_files src dst [] = pure tt
move_files src dst (name ∷ names) = do
  rename_file (record { dir = src; name = name }) (record { dir = dst; name = name })
  move_files src dst names

module _ {ix : Indexer} where
  -- What LoadMergeFiles does with a directory in which a merge has finished.
  unfoldable pub adopt : Bytes → List FileName → Exec (Db ix) (Unit {0})
  adopt merge_path names = do
    id ← get_non_merge_file_id merge_path
    λ db. on_disk (remove_old db.options.dir_path id 0) db
    λ db. on_disk (move_files merge_path db.options.dir_path (merge_file_names names)) db

  abbrev pub then_remove : Bytes → Db ix × Res (Unit {0}) → Db ix × Res (Unit {0})
  then_remove merge_path (db, r) = (record db { disk = remove_all merge_path db.disk }, r)

  abbrev pub load_names : Bytes → List FileName → Exec (Db ix) (Unit {0})
  load_names merge_path [] db = (db, ok tt)
  load_names merge_path (name ∷ names) db = then_remove merge_path (
      (if has_name merge_finished_file (name ∷ names)
          then adopt merge_path (name ∷ names)
          else pure tt)
        db)

  unfoldable pub load_merge_files : Paths → Exec (Db ix) (Unit {0})
  load_merge_files paths db =
      let merge_path = get_merge_path paths db.options.dir_path in
      load_names merge_path (names_in merge_path db.disk.files) db
