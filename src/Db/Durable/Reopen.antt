-- ===== src/Db/Durable/Reopen.antt =====
-- Opening the directory of a database again: what Open starts from, and the database it makes.
use bitcask_go.Common.{
  ℕ, ◌≡◌, refl, sym, ap, subst, ◌∙◌, Bool-cases, inl, inr, true, false, Bool, Option, none, some,
  List, [], ◌∷◌, ◌++◌, Bytes, All, length, ◌==◌, arith, if◌then◌else◌,
}
use bitcask_go.Common.Assoc.{Assoc}
use bitcask_go.Common.Exec.{pure}
use bitcask_go.Common.Result.{ok}
use bitcask_go.Fio.{Disk, contents, file_exists, hint_file, merge_finished_file}
use bitcask_go.Fio.Laws.{SameContents}
use bitcask_go.Data.Record.{LogRecordPos}
use bitcask_go.Data.File.{DataFile, get_data_file_name}
use bitcask_go.Data.File.Laws.{opened}
use bitcask_go.Index.{Indexer, b_plus_tree}
use bitcask_go.Db.State.{Db, file_of}
use bitcask_go.Db.Append.Healthy.{IsHealthy}
use bitcask_go.Db.Invariant.{IsOpen, IsWf, IsActive}
use bitcask_go.Db.Refine.{Entry}
use bitcask_go.Db.Load.{sort_ints, data_file_ids}
use bitcask_go.Db.Load.Loop.{at_offset, load_index_from_data_files}
use bitcask_go.Db.Load.Files.{last_of}
use bitcask_go.Db.Load.Start.{new_db, load_index_from_hint_file, reset_io_type, load_index}
use bitcask_go.Db.Log.Recovery.{Each, InFile}
use bitcask_go.Db.Durable.{ids_of}

pub All-zip :
    {P Q R : ℕ → Type 0} (xs : List ℕ)
    → ((x : ℕ) → P x → Q x → R x)
    → All P xs
    → All Q xs
    → All R xs
All-zip [] f p q = tt
All-zip (x ∷ xs) f p q = (f x p.0 q.0, All-zip xs f p.1 q.1)

-- A list with an end, taken from its front.
abbrev pub first_of : List ℕ → ℕ → ℕ
first_of [] n = n
first_of (i ∷ is) n = i

abbrev pub rest_of : List ℕ → ℕ → List ℕ
rest_of [] n = []
rest_of (i ∷ is) n = is ++ n ∷ []

pub first_rest : (is : List ℕ) (n : ℕ) → is ++ n ∷ [] ≡ first_of is n ∷ rest_of is n
first_rest [] n = refl
first_rest (i ∷ is) n = refl

last_of-snoc : (i : ℕ) (is : List ℕ) (n : ℕ) → last_of i (is ++ n ∷ []) ≡ n
last_of-snoc i [] n = refl
last_of-snoc i (j ∷ js) n = last_of-snoc j js n

pub last_of-first : (is : List ℕ) (n : ℕ) → last_of (first_of is n) (rest_of is n) ≡ n
last_of-first [] n = refl
last_of-first (i ∷ is) n = last_of-snoc i is n

module _ {ix : Indexer} where
  -- The database db is gone, and its directory is opened on the disk d with an empty index.
  pub record Reopens (db : Db ix) (olders : List ℕ) (d : Disk) (empty : ix.Index) : Type 0 where
    pub same : SameContents db.disk d
    pub healthy : IsHealthy d
    pub listing :
        sort_ints (data_file_ids db.options.dir_path d.files) ≡ ids_of olders db.active_file
    pub no_hint : file_exists d (record { dir = db.options.dir_path; name = hint_file }) ≡ false
    pub no_merge :
        file_exists d (record { dir = db.options.dir_path; name = merge_finished_file }) ≡ false
    pub no_index : (k : Bytes) → ix.get k empty ≡ none
    pub in_memory : (db.options.indexer_type == b_plus_tree) ≡ false
    pub unmapped : db.options.mmap_at_startup ≡ false

  pub load_index-runs :
      (db1 db2 : Db ix)
      → (db1.options.indexer_type == b_plus_tree) ≡ false
      → file_exists db1.disk (record { dir = db1.options.dir_path; name = hint_file }) ≡ false
      → load_index_from_data_files db1 ≡ some (db2, ok tt)
      → db2.options.mmap_at_startup ≡ false
      → load_index db1 ≡ some (db2, ok tt)
  unfolding load_index_from_hint_file
  load_index-runs db1 db2 t h e u =
      rw (t, h, e) (ap (λ (b : Bool). some ((if b then reset_io_type else pure tt) db2)) u)

  -- The database that Open returns.
  module _ (db : Db ix) (is_initial : Bool) (d : Disk) (empty : ix.Index) (ids : List ℕ)
      (disk : Disk) (others : Assoc ℕ DataFile) (last : ℕ) where
    abbrev pub files_open : Db ix
    files_open = record (new_db db.options is_initial d empty) {
      file_ids = ids;
      disk = disk;
      active_file = some (opened db.options.dir_path last);
      older_files = others;
    }

    abbrev pub reopened : ℕ → ix.Index → ℕ → ℕ → Db ix
    reopened offset index reclaim seq_no = record files_open {
      active_file = some (at_offset offset (opened db.options.dir_path last));
      index = index;
      reclaim_size = reclaim;
      seq_no = seq_no;
    }

    IsOpen-reopened :
        (offset reclaim seq_no : ℕ) (index : ix.Index) (i : ℕ)
        → IsOpen files_open i
        → IsOpen (reopened offset index reclaim seq_no) i
    unfolding file_of
    IsOpen-reopened offset reclaim seq_no index i h = elim (Bool-cases (last == i)) [
      | inl t ↦ record {
        file = at_offset offset (opened db.options.dir_path last);
        found = rw t refl;
        named = path_of t;
      }
      | inr t ↦ record { file = h.file; found = rw t (rw t at h.found); named = h.named }
    ]
      where
        path_of :
            (last == i) ≡ true
            → get_data_file_name db.options.dir_path last ≡ get_data_file_name db.options.dir_path i
        path_of t = ground (arith, t)

    pub IsWf-reopened :
        (f : DataFile) (offset reclaim seq_no : ℕ) (index : ix.Index)
        → db.active_file ≡ some f
        → f.file_id ≡ last
        → SameContents db.disk disk
        → offset ≡ length (contents disk (get_data_file_name db.options.dir_path last))
        → IsWf db
        → IsWf (reopened offset index reclaim seq_no)
    IsWf-reopened f offset reclaim seq_no index e id s at wf =
        let a = wf.active f e in
        let the_file = at_offset offset (opened db.options.dir_path last) in
        record {
          active = λ g e'.
              subst (λ g. IsActive (reopened offset index reclaim seq_no) g)
                (some_inj the_file g e')
                (record {
                  named = refl;
                  writable = refl;
                  aligned = at;
                  id_fits = rw (sym id) a.id_fits;
                });
          unused = λ i h. s.at _ ∙ wf.unused i (rw (e, id) h);
          small = λ i. rw (s.at (get_data_file_name db.options.dir_path i)) (wf.small i);
          room = wf.room;
        }
      where
        some_inj : (x y : DataFile) → some x ≡ some y → x ≡ y
        some_inj x y p = cc

    -- What stood in the log stands there, in a file that is open.
    pub Entry-reopened :
        (offset reclaim seq_no : ℕ) (index : ix.Index) (k : Bytes) (p : Option LogRecordPos)
        (v : Option Bytes)
        → SameContents db.disk disk
        → Each (InFile (IsOpen files_open)) p
        → Entry db k p v
        → Entry (reopened offset index reclaim seq_no) k p v
    Entry-reopened offset reclaim seq_no index k none none s o e = e
    Entry-reopened offset reclaim seq_no index k none (some v) s o e = e
    Entry-reopened offset reclaim seq_no index k (some pos) none s o e = e
    Entry-reopened offset reclaim seq_no index k (some pos) (some v) s o e = record {
      seq_no = e.seq_no;
      fit = e.fit;
      holds = rw (s.at (get_data_file_name db.options.dir_path pos.fid)) e.holds;
      is_open = IsOpen-reopened offset reclaim seq_no index pos.fid o;
    }
