-- ===== src/Db/Durable/Restart.antt =====
-- Opening the directory of a database again: the map is the one that the database held.
use bitcask_go.Common.{
  ℕ, ◌^◌, ◌<◌, ◌≡◌, ◌≢◌, refl, sym, ap, subst, ◌∙◌, false, Bool, some, List, [], ◌∷◌, ◌++◌, Bytes,
  All, All-snoc, All-map, length, arith,
}
use bitcask_go.Common.Assoc.{Assoc}
use bitcask_go.Common.Result.{ok}
use bitcask_go.Fio
use bitcask_go.Fio.{Disk, FilePath, contents, file_exists, hint_file, merge_finished_file}
use bitcask_go.Fio.Laws.{SameContents}
use bitcask_go.Data.File.{DataFile, get_data_file_name}
use bitcask_go.Index.{Indexer}
use bitcask_go.Db.State.{Db}
use bitcask_go.Db.Invariant.{bytes_of, IsOpen, IsWf}
use bitcask_go.Db.Refine.{Contents, Entry, Refines}
use bitcask_go.Db.Load.{load_data_files}
use bitcask_go.Db.Load.Files.{last_of}
use bitcask_go.Db.Load.Whole.{Opened, load_index-Restored}
use bitcask_go.Db.Load.Open.{Touched, load_data_files-Opens}
use bitcask_go.Db.Load.Start.{new_db, load_database}
use bitcask_go.Db.Log
use bitcask_go.Db.Log.{Logged, all_entries, recover, nothing_recovered}
use bitcask_go.Db.Log.Recovery.{
  Each, InFile, recover-Everywhere, all_entries-InFile, recover-IsQuiet,
}
use bitcask_go.Db.Durable.Reopen.{
  All-zip, first_of, rest_of, first_rest, last_of-first, Reopens, load_index-runs, files_open,
  reopened, IsWf-reopened, Entry-reopened,
}
use bitcask_go.Db.Durable.{ids_of, Below, HasLog}
use bitcask_go.Db.Durable.Methods.{Durable}

module _ {ix : Indexer} where
  -- A database that holds m, can go on, and can be opened again.
  pub record Recoverable (m : Contents) (db' : Db ix) : Type 0 where
    pub refines : Refines db' m
    pub wf : IsWf db'
    pub durable : Durable db'

  module _ (db : Db ix) (f : DataFile) (e : db.active_file ≡ some f) (d : Durable db) (wf : IsWf db)
      (is_initial : Bool) (d0 : Disk) (empty : ix.Index)
      (o : Reopens db d.has_log.olders d0 empty) where
    abbrev first : ℕ
    first = first_of d.has_log.olders f.file_id

    abbrev rest : List ℕ
    rest = rest_of d.has_log.olders f.file_id

    abbrev last : ℕ
    last = last_of first rest

    ids_are : ids_of d.has_log.olders db.active_file ≡ first ∷ rest
    ids_are = ap (λ a. ids_of d.has_log.olders a) e ∙ first_rest d.has_log.olders f.file_id

    last_is : last ≡ f.file_id
    last_is = last_of-first d.has_log.olders f.file_id

    ids_fit : All (λ j. j < 2 ^ 32) (first ∷ rest)
    ids_fit =
        let fits : f.file_id < 2 ^ 32 = (wf.active f e).id_fits in
        let below : All (λ i. i < f.file_id) d.has_log.olders =
          subst (λ a. Below d.has_log.olders a) e d.has_log.below in
        subst (λ (is : List ℕ). All (λ j. j < 2 ^ 32) is) (first_rest d.has_log.olders f.file_id)
          (All-snoc (λ j. j < 2 ^ 32) d.has_log.olders f.file_id
            (All-map (λ i. i < f.file_id) (λ j. j < 2 ^ 32) d.has_log.olders (λ j h. omega arith)
              below)
            fits)

    abbrev log_is : List Log.Entry
    log_is = all_entries d.has_log.records (first ∷ rest)

    abbrev start_db : Db ix
    start_db = new_db db.options is_initial d0 empty

    -- loadDataFiles has opened the files.
    record FilesOpen : Type 0 where
      disk : Disk
      others : Assoc ℕ DataFile
      runs :
          load_data_files start_db
          ≡ (files_open db is_initial d0 empty (first ∷ rest) disk others last, ok tt)
      touched : Touched db.options.dir_path d0 disk
      all :
          All
            (IsOpen (files_open db is_initial d0 empty (first ∷ rest) disk others last))
            (first ∷ rest)

    files_are_open : FilesOpen
    files_are_open =
        let (db1, runs, opens, all) =
          load_data_files-Opens first rest start_db (o.listing ∙ ids_are) ids_fit o.healthy
            o.unmapped in
        record {
          disk = opens.disk;
          others = opens.others;
          runs = runs ∙ ap (λ (t : Db ix). (t, ok tt)) opens.at;
          touched = opens.touched;
          all = subst (λ (t : Db ix). All (IsOpen t) (first ∷ rest)) opens.at all;
        }

    module _ (q : FilesOpen) where
      abbrev db1 : Db ix
      db1 = files_open db is_initial d0 empty (first ∷ rest) q.disk q.others last

      same_bytes : SameContents db.disk q.disk
      same_bytes = record { at = λ p. q.touched.same.at p ∙ o.same.at p }

      missing :
          (name : Fio.FileName)
          → ((i : ℕ) → Fio.data_file i ≢ name)
          → file_exists d0 (record { dir = db.options.dir_path; name = name }) ≡ false
          → file_exists q.disk (record { dir = db.options.dir_path; name = name }) ≡ false
      missing name ne h =
          q.touched.elsewhere (record { dir = db.options.dir_path; name = name })
            (λ i t. ne i (ap (λ (p : FilePath). p.name) t))
          ∙ h

      db1-Opened : Opened d.has_log.records first rest db1
      db1-Opened = record {
        file_ids = refl;
        holds =
            All-zip (first ∷ rest)
              (λ i opened fits. record {
                is_open = opened;
                bytes =
                    same_bytes.at (get_data_file_name db.options.dir_path i) ∙ d.has_log.bytes i;
                logged = d.has_log.logged i;
                id_fits = fits;
              })
              q.all ids_fit;
        small = λ i. rw (same_bytes.at (get_data_file_name db.options.dir_path i)) (wf.small i);
        empty = o.no_index;
        unmerged = missing merge_finished_file (λ i t. cc) o.no_merge;
      }

      same_log : log_is ≡ d.log
      same_log =
          ap (λ (is : List ℕ). all_entries d.has_log.records is) (sym ids_are) ∙ d.has_log.entries

      abbrev again : ℕ → ix.Index → ℕ → Db ix
      again reclaim index seq_no =
          reopened db is_initial d0 empty (first ∷ rest) q.disk q.others last
            (length (bytes_of db1 last)) index reclaim seq_no

      module _ (m : Contents) (r : Refines db m) (reclaim : ℕ) (index : ix.Index)
          (shows : (k : Bytes) → ix.get k index ≡ (recover log_is nothing_recovered).index k) where
        abbrev seq_no : ℕ
        seq_no = (recover log_is nothing_recovered).seq_no

        same_index : (k : Bytes) → ix.get k db.index ≡ ix.get k index
        same_index k =
            d.shows k
            ∙ ap (λ (es : List Log.Entry). (recover es nothing_recovered).index k) (sym same_log)
            ∙ sym (shows k)

        index-Each : (k : Bytes) → Each (InFile (IsOpen db1)) (ix.get k index)
        index-Each k =
            subst (λ p. Each (InFile (IsOpen db1)) p) (sym (shows k))
              ((recover-Everywhere (InFile (IsOpen db1)) log_is nothing_recovered
                  (all_entries-InFile (IsOpen db1) d.has_log.records (first ∷ rest) q.all)
                  (record { index = λ j. tt; waiting = λ n. tt })).index
                k)

        again-HasLog : HasLog (again reclaim index seq_no) d.log
        again-HasLog = record {
          olders = d.has_log.olders;
          records = d.has_log.records;
          below =
              subst (λ (n : ℕ). All (λ i. i < n) d.has_log.olders) (sym last_is)
                (subst (λ a. Below d.has_log.olders a) e d.has_log.below);
          bytes = λ i. same_bytes.at (get_data_file_name db.options.dir_path i) ∙ d.has_log.bytes i;
          logged = d.has_log.logged;
          entries =
              ap (λ (n : ℕ). all_entries d.has_log.records (d.has_log.olders ++ n ∷ [])) last_is
              ∙ ap (λ (is : List ℕ). all_entries d.has_log.records is)
                  (first_rest d.has_log.olders f.file_id)
              ∙ same_log;
        }

        again-Recoverable : Recoverable m (again reclaim index seq_no)
        again-Recoverable = record {
          refines = record {
            entries = λ k.
                Entry-reopened db is_initial d0 empty (first ∷ rest) q.disk q.others last
                  (length (bytes_of db1 last)) reclaim seq_no index k (ix.get k index) (m k)
                  same_bytes (index-Each k)
                  (subst (λ p. Entry db k p (m k)) (same_index k) (r.entries k));
            small = λ i. rw (same_bytes.at (get_data_file_name db.options.dir_path i)) (wf.small i);
          };
          wf =
              IsWf-reopened db is_initial d0 empty (first ∷ rest) q.disk q.others last f
                (length (bytes_of db1 last)) reclaim seq_no index e (sym last_is) same_bytes refl
                wf;
          durable = record {
            log = d.log;
            has_log = again-HasLog;
            shows = λ k. sym (same_index k) ∙ d.shows k;
            quiet = λ n h.
                ap (λ (es : List Log.Entry). (recover es nothing_recovered).waiting n)
                  (sym same_log)
                ∙ recover-IsQuiet log_is nothing_recovered (λ n h. refl) n h;
          };
        }

    -- Let a well-formed database with an active file hold a map, and let its data files hold a
    -- log that stands for its index. When the same files are opened with an empty index, where
    -- the directory lists these files and no hint file and no file of a finished merge, the
    -- index is not a B+ tree, files are not mapped at startup and the disk answers every call,
    -- then loadDataFiles and loadIndexFromDataFiles end without an error, and the database that
    -- Open returns holds the same map, is well-formed, and its files hold a log that stands for
    -- its index.
    pub load_database-Recoverable :
        (m : Contents)
        → Refines db m
        → (db' : Db ix) × (load_database (new_db db.options is_initial d0 empty)
            ≡ some (db', ok tt))
          × Recoverable m db'
    unfolding load_database
    load_database-Recoverable m r =
        let q = files_are_open in
        let (db2, runs, back) =
          load_index-Restored d.has_log.records first rest (db1 q) (db1-Opened q) in
        let at : db2
            ≡ again q back.reclaim back.index (seq_no q m r back.reclaim back.index back.shows) =
          back.at in
        (
          again q back.reclaim back.index (seq_no q m r back.reclaim back.index back.shows),
          rw q.runs (
              load_index-runs (db1 q)
                (again q back.reclaim back.index (seq_no q m r back.reclaim back.index back.shows))
                o.in_memory (missing q hint_file (λ i t. cc) o.no_hint)
                (runs ∙ ap (λ (t : Db ix). some (t, ok tt)) at) o.unmapped),
          again-Recoverable q m r back.reclaim back.index back.shows,
        )
