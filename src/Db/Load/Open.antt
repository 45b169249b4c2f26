-- ===== src/Db/Load/Open.antt =====
-- loadDataFiles on a disk that answers every call: each file of the listing is open.
use bitcask_go.Common.{
  ℕ, ◌%◌, ◌^◌, ◌<◌, ◌≡◌, ◌≢◌, refl, ap, ◌∙◌, Bool-cases, inl, inr, false, true, Bool, Option, none,
  some, List, [], ◌∷◌, Bytes, All, arith, ==_iff, ◌==◌, if◌then◌else◌,
}
use bitcask_go.Common.Assoc.{Assoc, lookup, insert, lookup-insert, lookup-insert_ne}
use bitcask_go.Common.Eq.{nat_eq}
use bitcask_go.Common.Result.{ok}
use bitcask_go.Fio.{
  Disk, FilePath, path_eq, contents, file_exists, stander_fio, memory_map, open_file,
  new_io_manager, new_file_io_manager,
}
use bitcask_go.Fio.Laws.{SameContents, contents-insert_same}
use bitcask_go.Data.File.{DataFile, get_data_file_name, open_data_file, new_datafile}
use bitcask_go.Data.File.Laws.{opened}
use bitcask_go.Index.{Indexer}
use bitcask_go.Db.State.{Db, file_of}
use bitcask_go.Db.Append.Healthy.{IsHealthy}
use bitcask_go.Db.Invariant.{name_of, IsOpen}
use bitcask_go.Db.Load.{open_files, sort_ints, data_file_ids, load_data_files}
use bitcask_go.Db.Load.Files.{last_of}

-- Data files of a directory were opened, and nothing else happened.
pub record Touched (dir : Bytes) (d d' : Disk) : Type 0 where
  pub same : SameContents d d'
  pub healthy : IsHealthy d'
  pub elsewhere :
      (q : FilePath) → ((i : ℕ) → get_data_file_name dir i ≢ q) → file_exists d' q ≡ file_exists d q

Touched-trans : {dir : Bytes} {a b c : Disk} → Touched dir a b → Touched dir b c → Touched dir a c
Touched-trans s t = record {
  same = record { at = λ q. t.same.at q ∙ s.same.at q };
  healthy = t.healthy;
  elsewhere = λ q h. t.elsewhere q h ∙ s.elsewhere q h;
}

abbrev touch : Bytes → ℕ → Disk → Disk
touch dir i d = record {
  files = insert (get_data_file_name dir i) (contents d (get_data_file_name dir i)) d.files;
  answers = [];
}

touch-Touched : (dir : Bytes) (i : ℕ) (d : Disk) → Touched dir d (touch dir i d)
unfolding file_exists
touch-Touched dir i d = record {
  same = record { at = λ q. contents-insert_same d (get_data_file_name dir i) q [] };
  healthy = refl;
  elsewhere = λ q h.
      ap (λ (o : Option Bytes). elim o [ none ↦ false | some bs ↦ true ])
        (lookup-insert_ne (get_data_file_name dir i) q (contents d (get_data_file_name dir i))
          d.files (h i));
}

open_data_file-touch :
    (dir : Bytes) (i : ℕ) (d : Disk)
    → IsHealthy d
    → open_data_file dir i stander_fio d ≡ (touch dir i d, ok (opened dir i))
unfolding open_data_file new_datafile new_io_manager new_file_io_manager open_file
open_data_file-touch dir i d h = rw h refl

module _ {ix : Indexer} where
  -- Among the older files, under its own name.
  record Held (db : Db ix) (j : ℕ) : Type 0 where
    file : DataFile
    found : lookup j db.older_files ≡ some file
    named : file.io_manager.path ≡ name_of db j

  pub record Opens (last : ℕ) (db db' : Db ix) : Type 0 where
    pub disk : Disk
    pub others : Assoc ℕ DataFile
    pub at : db' ≡ record db {
      disk = disk;
      active_file = some (opened db.options.dir_path last);
      older_files = others;
    }
    pub touched : Touched db.options.dir_path db.disk disk

  -- File i is among the older ones from here on.
  abbrev kept : ℕ → Db ix → Db ix
  kept i db = record db {
    disk = touch db.options.dir_path i db.disk;
    older_files = insert i (opened db.options.dir_path i) db.older_files;
  }

  Held-kept : (i j : ℕ) (db : Db ix) → Held db j → Held (kept i db) j
  Held-kept i j db h = elim (Bool-cases (i == j)) [
    | inl t ↦ record {
      file = opened db.options.dir_path i;
      found = rw (lookup-insert i j (opened db.options.dir_path i) db.older_files, t) refl;
      named = ap (get_data_file_name db.options.dir_path) ((==_iff i j).0 t);
    }
    | inr t ↦ record {
      file = h.file;
      found = rw (lookup-insert i j (opened db.options.dir_path i) db.older_files, t) h.found;
      named = h.named;
    }
  ]

  self_kept : (i : ℕ) (db : Db ix) → Held (kept i db) i
  self_kept i db = record {
    file = opened db.options.dir_path i;
    found = ground (arith, lookup-insert i i (opened db.options.dir_path i) db.older_files);
    named = refl;
  }

  abbrev activated : ℕ → Db ix → Db ix
  activated i db = record db {
    disk = touch db.options.dir_path i db.disk;
    active_file = some (opened db.options.dir_path i);
  }

  Held-activated : (i j : ℕ) (db : Db ix) → Held db j → IsOpen (activated i db) j
  unfolding file_of
  Held-activated i j db h = elim (Bool-cases (i == j)) [
    | inl t ↦ record {
      file = opened db.options.dir_path i;
      found = rw t refl;
      named = ap (get_data_file_name db.options.dir_path) ((==_iff i j).0 t);
    }
    | inr t ↦ record { file = h.file; found = rw t h.found; named = h.named }
  ]

  self_activated : (i : ℕ) (db : Db ix) → IsOpen (activated i db) i
  unfolding file_of
  self_activated i db = record {
    file = opened db.options.dir_path i;
    found = ground arith;
    named = refl;
  }

  record Run (i : ℕ) (is : List ℕ) (db : Db ix) : Type 0 where
    db' : Db ix
    runs : open_files stander_fio (i ∷ is) db ≡ (db', ok tt)
    opens : Opens (last_of i is) db db'
    held : (j : ℕ) → Held db j → IsOpen db' j
    all : All (IsOpen db') (i ∷ is)

  open_files-Run :
      (i : ℕ) (is : List ℕ) (db : Db ix)
      → All (λ j. j < 2 ^ 32) (i ∷ is)
      → IsHealthy db.disk
      → Run i is db
  unfolding open_files
  open_files-Run i [] db b h =
      let id : i % 2 ^ 32 ≡ i = omega (arith, b.0) in
      record {
        db' = activated i db;
        runs = rw (id, open_data_file-touch db.options.dir_path i db.disk h) refl;
        opens = record {
          disk = touch db.options.dir_path i db.disk;
          others = db.older_files;
          at = refl;
          touched = touch-Touched db.options.dir_path i db.disk;
        };
        held = λ j q. Held-activated i j db q;
        all = (self_activated i db, tt);
      }
  open_files-Run i (j ∷ js) db b h =
      let id : i % 2 ^ 32 ≡ i = omega (arith, b.0) in
      let rest = open_files-Run j js (kept i db) b.1 refl in
      record {
        db' = rest.db';
        runs = rw (id, open_data_file-touch db.options.dir_path i db.disk h) rest.runs;
        opens = record {
          disk = rest.opens.disk;
          others = rest.opens.others;
          at = rest.opens.at;
          touched = Touched-trans (touch-Touched db.options.dir_path i db.disk) rest.opens.touched;
        };
        held = λ k q. rest.held k (Held-kept i k db q);
        all = (rest.held i (self_kept i db), rest.all);
      }

  -- Every file of the directory is open, and the one with the highest id is the active one.
  pub load_data_files-Opens :
      (i : ℕ) (is : List ℕ) (db : Db ix)
      → sort_ints (data_file_ids db.options.dir_path db.disk.files) ≡ i ∷ is
      → All (λ j. j < 2 ^ 32) (i ∷ is)
      → IsHealthy db.disk
      → db.options.mmap_at_startup ≡ false
      → (db' : Db ix) × (load_data_files db ≡ (db', ok tt))
        × Opens (last_of i is) (record db { file_ids = i ∷ is }) db'
        × All (IsOpen db') (i ∷ is)
  unfolding load_data_files
  load_data_files-Opens i is db e b h u =
      let r = open_files-Run i is (record db { file_ids = i ∷ is }) b h in
      (
        r.db',
        ap
              (λ (ids : List ℕ).
                open_files (if db.options.mmap_at_startup then memory_map else stander_fio) ids
                  (record db { file_ids = ids }))
              e
            ∙ ap
                (λ (b : Bool).
                  open_files (if b then memory_map else stander_fio) (i ∷ is)
                    (record db { file_ids = i ∷ is }))
                u
            ∙ r.runs,
        r.opens,
        r.all,
      )
