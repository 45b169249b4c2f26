-- ===== src/Db/Open/Reopen.antt =====
-- db.go: Open of a directory that a database has left.
use bitcask_go.Common.{ℕ, ◌≡◌, refl, true, false, ◌||◌, some, [], ◌==◌}
use bitcask_go.Common.Result.{ok}
use bitcask_go.Fio.{Disk}
use bitcask_go.Index.{Indexer, b_tree, art}
use bitcask_go.Data.File.{DataFile}
use bitcask_go.Db.State.{Db, Options}
use bitcask_go.Db.Invariant.{IsWf}
use bitcask_go.Db.Refine.{Contents, Refines}
use bitcask_go.Db.Load.Start.{new_db}
use bitcask_go.Db.Merge.{Paths, get_merge_path, names_in, load_merge_files}
use bitcask_go.Db.Durable.Methods.{Durable}
use bitcask_go.Db.Durable.Reopen.{Reopens}
use bitcask_go.Db.Durable.Restart.{Recoverable, load_database-Recoverable}
use bitcask_go.Db.Open.{check_options, Answers, new_indexer, prepare, open_database}

-- The system lets Open have a directory that is there.
pub record Grants {ix : Indexer} (sys : Answers ix) (n : ℕ) : Type 0 where
  pub there : sys.missing ≡ false
  pub held : sys.hold ≡ ok true
  pub listed : sys.entries ≡ ok n

module _ {ix : Indexer} where
  prepare-new_db :
      (sys : Answers ix) (options : Options) (d : Disk) (n : ℕ)
      → Grants sys n
      → check_options options ≡ ok tt
      → ((options.indexer_type == b_tree) || (options.indexer_type == art)) ≡ true
      → prepare sys options d ≡ ok (new_db options (n == 0) d ix.empty)
  unfolding prepare new_indexer
  prepare-new_db sys options d n g valid memory = rw (valid, g.there, g.held, g.listed, memory) refl

  load_merge_files-none :
      (paths : Paths) (db : Db ix)
      → names_in (get_merge_path paths db.options.dir_path) db.disk.files ≡ []
      → load_merge_files paths db ≡ (db, ok tt)
  unfolding load_merge_files
  load_merge_files-none paths db h = rw h refl

  -- Let a well-formed database with an active file hold a map, and let its data files hold a
  -- log that stands for its index. When a process opens its directory, where the options are
  -- valid and ask for a B-tree or an ART and no mapped files, the lock is free, the directory
  -- lists these data files and no hint file and no file of a finished merge, there is no merge
  -- directory and the disk answers every call, then Open returns without an error a database
  -- that holds the same map, is well-formed, and whose files hold a log that stands for its
  -- index.
  pub open_database-Recoverable :
      (paths : Paths) (sys : Answers ix) (n : ℕ) (db : Db ix) (f : DataFile) (m : Contents)
      (d0 : Disk)
      → (e : db.active_file ≡ some f) (d : Durable db) → (wf : IsWf db) → Refines db m
      → (o : Reopens db d.has_log.olders d0 ix.empty) → Grants sys n
      → check_options db.options ≡ ok tt
      → ((db.options.indexer_type == b_tree) || (db.options.indexer_type == art)) ≡ true
      → names_in (get_merge_path paths db.options.dir_path) d0.files ≡ []
      → (db' : Db ix) × ((open_database paths sys db.options d0 ≡ some (db'.disk, ok db'))
          × Recoverable m db')
  unfolding open_database
  open_database-Recoverable paths sys n db f m d0 e d wf r o g valid memory no_merge =
      let (db', runs, back) = load_database-Recoverable db f e d wf (n == 0) d0 ix.empty o m r in
      (
        db',
        (
          rw
              (
                prepare-new_db sys db.options d0 n g valid memory,
                load_merge_files-none paths (new_db db.options (n == 0) d0 ix.empty) no_merge,
                runs,
              )
              refl,
          back,
        ),
      )
