-- ===== src/Db/Merge/Adopted.antt =====
-- merge.go: what LoadMergeFiles makes of the files, on a disk that answers every call.
use bitcask_go.Common.{
  ℕ, ◌≡◌, refl, sym, ap, ◌∙◌, Bool, Bool-cases, inl, inr, true, false, ◌&&◌, ◌||◌, not, Option,
  none, some, List, [], ◌∷◌, Bytes, if◌then◌else◌,
}
use bitcask_go.Common.Assoc.{Assoc, lookup}
use bitcask_go.Common.Assoc.Size.{IsMap, present}
use bitcask_go.Common.Eq.{◌=?◌, bytes_eq, bytes_beq_iff}
use bitcask_go.Common.Result.{ok}
use bitcask_go.Fio.{
  Disk, FilePath, FileName, name_beq, path_eq, merge_finished_file, seq_no_file, lock_file,
}
use bitcask_go.Index.{Indexer}
use bitcask_go.Db.State.{Db}
use bitcask_go.Db.Append.Healthy.{IsHealthy}
use bitcask_go.Db.Merge.{
  Paths, get_merge_path, names_in, has_name, merge_file_names, remove_all, adopt, load_names,
  load_merge_files,
}
use bitcask_go.Db.Merge.Moves.{
  is_old_path, HasFiles, path, AreThere, after_moves, remove_old-HasFiles, move_files-HasFiles,
}
use bitcask_go.Db.Merge.Finished.{HoldsId, touched, lookup-touched, get_non_merge_file_id-HoldsId}
use bitcask_go.Db.Merge.Names.{
  bytes_beq-sym, lookup-without_dir, has_name-names_in, names_in-IsOnce, has_name-merge_file_names,
  merge_file_names-IsOnce, All-has_name,
}

not_present : (o : Option Bytes) → present o ≡ false → o ≡ none
not_present none h = refl
not_present (some bs) h = cc h

-- A merge has finished below the id n, or none has.
abbrev pub IsMerge : Disk → Bytes → Option ℕ → Type 0
IsMerge d merge_path none = lookup (path merge_path merge_finished_file) d.files ≡ none
IsMerge d merge_path (some n) = HoldsId d merge_path n

-- The names of the files that are taken over.
abbrev pub is_adopted : FileName → Bool
is_adopted name = not (name_beq name seq_no_file || name_beq name lock_file)

-- The files of the data directory once those of the merge are taken over: the merged files replace all
-- files of ids below n, and nothing is left of the merge.
abbrev pub adopted : Bytes → Bytes → Option ℕ → (FilePath → Option Bytes) → FilePath → Option Bytes
adopted merge_path dir none file q = if merge_path =? q.dir then none else file q
adopted merge_path dir (some n) file q =
    if merge_path =? q.dir
    then none
    else if (dir =? q.dir) && (present (file (path merge_path q.name)) && is_adopted q.name)
    then file (path merge_path q.name)
    else if is_old_path dir 0 n q
    then none
    else file q

and-left : (a b : Bool) → (a && b) ≡ true → a ≡ true
and-left true b h = refl
and-left false b h = h

-- RemoveAll takes every file of the directory away.
remove_all-lookup :
    (merge_path : Bytes) (d : Disk) (q : FilePath)
    → IsHealthy d
    → lookup q (remove_all merge_path d).files
      ≡ (if merge_path =? q.dir then none else lookup q d.files)
unfolding remove_all
remove_all-lookup merge_path d q h = rw h (lookup-without_dir merge_path d.files q)

adopted-after_moves :
    (merge_path dir : Bytes) (n : ℕ) (files : Assoc FilePath Bytes) (q : FilePath)
    → (dir =? merge_path) ≡ false
    → (if merge_path =? q.dir
        then none
        else after_moves merge_path dir
            (merge_file_names (names_in merge_path files))
            (λ p. if is_old_path dir 0 n p then none else lookup p files)
            q)
      ≡ adopted merge_path dir (some n) (λ p. lookup p files) q
adopted-after_moves merge_path dir n files q other' = elim (Bool-cases (merge_path =? q.dir)) [
  | inl t ↦ rw t refl
  | inr t ↦
      rw
        (
          t,
          has_name-merge_file_names (names_in merge_path files) q.name,
          has_name-names_in merge_path files q.name,
          other',
        )
        refl
]

remove_all-IsHealthy :
    (merge_path : Bytes) (d : Disk) → IsHealthy d → IsHealthy (remove_all merge_path d)
unfolding remove_all
remove_all-IsHealthy merge_path d h = rw h refl

-- Nothing is in a directory that lists no name.
unlisted :
    (merge_path : Bytes) (files : Assoc FilePath Bytes) (q : FilePath)
    → names_in merge_path files ≡ []
    → lookup q files ≡ (if merge_path =? q.dir then none else lookup q files)
unlisted merge_path files q e = elim (Bool-cases (merge_path =? q.dir)) [
  | inl t ↦
      let same : path merge_path q.name ≡ q =
        ap (λ (x : Bytes). path x q.name) ((bytes_beq_iff merge_path q.dir).0 t) in
      let absent : present (lookup (path merge_path q.name) files) ≡ false =
        sym (has_name-names_in merge_path files q.name) ∙ ap (has_name q.name) e in
      rw t (
        not_present (lookup q files)
          (ap (λ (x : FilePath). present (lookup x files)) (sym same) ∙ absent))
  | inr t ↦ rw t refl
]

module _ {ix : Indexer} where
  adopt-HasFiles :
      (merge_path : Bytes) (n : ℕ) (db : Db ix)
      → (merge_path =? db.options.dir_path) ≡ false
      → (db.options.dir_path =? merge_path) ≡ false
      → IsHealthy db.disk
      → IsMap db.disk.files
      → HoldsId db.disk merge_path n
      → (d : Disk) × ((adopt merge_path (names_in merge_path db.disk.files) db
            ≡ (record db { disk = d }, ok tt))
          × HasFiles d (
              after_moves merge_path db.options.dir_path
                (merge_file_names (names_in merge_path db.disk.files))
                (λ q.
                  if is_old_path db.options.dir_path 0 n q then none else lookup q db.disk.files)))
  unfolding adopt
  adopt-HasFiles merge_path n db other other' h is_map holds =
      let dir = db.options.dir_path in
      let names = merge_file_names (names_in merge_path db.disk.files) in
      let (d1, (removed, has1)) = remove_old-HasFiles dir n 0 (touched merge_path db.disk) h in
      let at : (q : FilePath)
          → lookup q d1.files ≡ (if is_old_path dir 0 n q then none else lookup q db.disk.files) =
        λ q.
          has1.at q
          ∙ ap (λ (o : Option Bytes). if is_old_path dir 0 n q then none else o)
              (lookup-touched merge_path n db.disk holds q) in
      let there : AreThere merge_path names d1 =
        All-has_name (λ name. present (lookup (path merge_path name) d1.files) ≡ true) names
          (λ name t.
            rw (at (path merge_path name), other')
              (and-left (present (lookup (path merge_path name) db.disk.files)) (is_adopted name) (
                rw
                  (
                    has_name-merge_file_names (names_in merge_path db.disk.files) name,
                    has_name-names_in merge_path db.disk.files name,
                  )
                  at t))) in
      let (d2, (moved, has2)) =
        move_files-HasFiles merge_path dir names d1 other' has1.healthy
          (merge_file_names-IsOnce (names_in merge_path db.disk.files)
            (names_in-IsOnce merge_path db.disk.files is_map))
          there in
      (
        d2,
        (
          rw (get_non_merge_file_id-HoldsId merge_path n db h holds, removed, moved) refl,
          record {
            healthy = has2.healthy;
            at = λ q. has2.at q ∙ rw (at q, at (path merge_path q.name)) refl;
          },
        ),
      )

  load_names-adopted :
      (merge_path : Bytes) (db : Db ix) (finished : Option ℕ) (names : List FileName)
      → (merge_path =? db.options.dir_path) ≡ false
      → (db.options.dir_path =? merge_path) ≡ false
      → IsHealthy db.disk
      → IsMap db.disk.files
      → IsMerge db.disk merge_path finished
      → names_in merge_path db.disk.files ≡ names
      → (d : Disk) × ((load_names merge_path names db ≡ (record db { disk = d }, ok tt))
          × HasFiles d
              (adopted merge_path db.options.dir_path finished (λ q. lookup q db.disk.files)))
  load_names-adopted merge_path db none [] other other' h is_map merge e =
      (db.disk, (refl, record { healthy = h; at = λ q. unlisted merge_path db.disk.files q e }))
  load_names-adopted merge_path db (some n) [] other other' h is_map merge e =
      let listed : has_name merge_finished_file [] ≡ true =
        ap (has_name merge_finished_file) (sym e)
        ∙ has_name-names_in merge_path db.disk.files merge_finished_file
        ∙ ap present merge.is_there in
      cc listed
  load_names-adopted merge_path db none (x ∷ names) other other' h is_map merge e =
      let listed : has_name merge_finished_file (x ∷ names) ≡ false =
        ap (has_name merge_finished_file) (sym e)
        ∙ has_name-names_in merge_path db.disk.files merge_finished_file
        ∙ ap present merge in
      (
        remove_all merge_path db.disk,
        (
          rw listed refl,
          record {
            healthy = remove_all-IsHealthy merge_path db.disk h;
            at = λ q. remove_all-lookup merge_path db.disk q h;
          },
        ),
      )
  load_names-adopted merge_path db (some n) (x ∷ names) other other' h is_map merge e =
      let listed : has_name merge_finished_file (x ∷ names) ≡ true =
        ap (has_name merge_finished_file) (sym e)
        ∙ has_name-names_in merge_path db.disk.files merge_finished_file
        ∙ ap present merge.is_there in
      let (d1, (done, has)) = adopt-HasFiles merge_path n db other other' h is_map merge in
      let done' : adopt merge_path (x ∷ names) db ≡ (record db { disk = d1 }, ok tt) =
        ap (λ (t : List FileName). adopt merge_path t db) (sym e) ∙ done in
      (
        remove_all merge_path d1,
        (
          rw (listed, done') refl,
          record {
            healthy = remove_all-IsHealthy merge_path d1 has.healthy;
            at = λ q.
                remove_all-lookup merge_path d1 q has.healthy
                ∙ ap (λ (o : Option Bytes). if merge_path =? q.dir then none else o) (has.at q)
                ∙ adopted-after_moves merge_path db.options.dir_path n db.disk.files q other';
          },
        ),
      )

  -- On a disk that answers every call, where each file stands once and the merge directory is
  -- not the data directory, LoadMergeFiles returns without an error. Where no merge has
  -- finished, it removes the merge directory and leaves every other file alone. Where the file
  -- of a finished merge holds the id n, every file of the merge directory but that of the
  -- sequence number and the lock file has replaced the file of its name in the data directory,
  -- the other data files with an id below n are gone, every other file is as it was, and
  -- nothing is left in the merge directory.
  pub load_merge_files-adopted :
      (paths : Paths) (db : Db ix) (finished : Option ℕ)
      → (get_merge_path paths db.options.dir_path =? db.options.dir_path) ≡ false
      → IsHealthy db.disk
      → IsMap db.disk.files
      → IsMerge db.disk (get_merge_path paths db.options.dir_path) finished
      → (d : Disk) × ((load_merge_files paths db ≡ (record db { disk = d }, ok tt))
          × HasFiles d (
              adopted
                (get_merge_path paths db.options.dir_path)
                db.options.dir_path
                finished
                (λ q. lookup q db.disk.files)))
  unfolding load_merge_files
  load_merge_files-adopted paths db finished other h is_map merge =
      let merge_path = get_merge_path paths db.options.dir_path in
      load_names-adopted merge_path db finished (names_in merge_path db.disk.files) other
        (bytes_beq-sym db.options.dir_path merge_path ∙ other) h is_map merge refl
