-- ===== src/Db/Invariant.antt =====
-- What the methods of DB keep: open files under their names, an active file that is written at its
-- end, and files that only grow.
use bitcask_go.Common.{
  ℕ, ◌+◌, ◌^◌, ◌≤◌, ◌<◌, ◌≡◌, ◌⊎◌, arith, refl, sym, ◌∙◌, ap, Option, none, some, [], ◌++◌, Bytes,
  length, append-nil, append_assoc,
}
use bitcask_go.Common.Assoc.{Assoc}
use bitcask_go.Common.Result.{Res, ok, err, panicked}
use bitcask_go.Common.Exec.{Exec}
use bitcask_go.Common.Exec.Post.{Post}
use bitcask_go.Fio.{Disk, FilePath, file_io, contents}
use bitcask_go.Fio.Laws.{SameContents}
use bitcask_go.Data.File.{DataFile, get_data_file_name}
use bitcask_go.Index.{Indexer}
use bitcask_go.Db.State.{Db, on_disk, file_of}

-- the first id that no file has
abbrev pub unused_from : Option DataFile → ℕ
unused_from none = 0
unused_from (some f) = f.file_id + 1

-- the id of the active file, 0 before the first write
abbrev pub active_id : Option DataFile → ℕ
active_id none = 0
active_id (some f) = f.file_id

-- A write goes to the active file or to one with a higher id.
abbrev pub Places : Option DataFile → ℕ → Type 0
Places none i = Unit
Places (some f) i = (f.file_id ≡ i) ⊎ (f.file_id < i)

pub Places-trans :
    (a : Option DataFile) (f : DataFile) (i : ℕ)
    → Places a f.file_id
    → Places (some f) i
    → Places a i
Places-trans none f i p q = tt
Places-trans (some a) f i p q = omega arith

module _ {ix : Indexer} where
  abbrev pub name_of : Db ix → ℕ → FilePath
  name_of db i = get_data_file_name db.options.dir_path i

  abbrev pub bytes_of : Db ix → ℕ → Bytes
  bytes_of db i = contents db.disk (name_of db i)

  abbrev pub open_in : Option DataFile → ℕ → Db ix → Option DataFile
  open_in none i db = none
  open_in (some f) i db = file_of f i db

  -- File i is open, under its own name.
  pub record IsOpen (db : Db ix) (i : ℕ) : Type 0 where
    pub file : DataFile
    pub found : open_in db.active_file i db ≡ some file
    pub named : file.io_manager.path ≡ name_of db i

  -- f is written at its end.
  pub record IsActive (db : Db ix) (f : DataFile) : Type 0 where
    pub named : f.io_manager.path ≡ name_of db f.file_id
    pub writable : f.io_manager.kind ≡ file_io
    pub aligned : f.write_off ≡ length (bytes_of db f.file_id)
    pub id_fits : f.file_id < 2 ^ 32

  pub record IsWf (db : Db ix) : Type 0 where
    pub active : (f : DataFile) → db.active_file ≡ some f → IsActive db f
    pub unused : (i : ℕ) → unused_from db.active_file ≤ i → bytes_of db i ≡ []
    pub small : (i : ℕ) → length (bytes_of db i) < 2 ^ 62
    pub room : db.options.data_file_size < 2 ^ 61

  abbrev pub IsSmall : Db ix → Type 0
  IsSmall db = (i : ℕ) → length (bytes_of db i) < 2 ^ 62

  -- What appending leaves alone.
  pub record Frame (db db' : Db ix) : Type 0 where
    pub options : db'.options ≡ db.options
    pub index : db'.index ≡ db.index
    pub seq_no : db'.seq_no ≡ db.seq_no
    pub reclaim_size : db'.reclaim_size ≡ db.reclaim_size

  -- Files only grew, and what was open is open.
  pub record Extends (db db' : Db ix) : Type 0 where
    pub frame : Frame db db'
    pub grown : (i : ℕ) → (more : Bytes) × (bytes_of db' i ≡ bytes_of db i ++ more)
    pub still_open : (i : ℕ) → IsOpen db i → IsOpen db' i
    pub small : IsSmall db → IsSmall db'

  pub Frame-refl : (db : Db ix) → Frame db db
  Frame-refl db = record { options = refl; index = refl; seq_no = refl; reclaim_size = refl }

  pub Frame-trans : {a b c : Db ix} → Frame a b → Frame b c → Frame a c
  Frame-trans f g = record {
    options = g.options ∙ f.options;
    index = g.index ∙ f.index;
    seq_no = g.seq_no ∙ f.seq_no;
    reclaim_size = g.reclaim_size ∙ f.reclaim_size;
  }

  pub Frame-with :
      {db db' : Db ix} (now : Option DataFile) (others : Assoc ℕ DataFile)
      → Frame db db'
      → Frame db (record db' { active_file = now; older_files = others })
  Frame-with now others f = record {
    options = f.options;
    index = f.index;
    seq_no = f.seq_no;
    reclaim_size = f.reclaim_size;
  }

  pub Extends-refl : (db : Db ix) → Extends db db
  Extends-refl db = record {
    frame = Frame-refl db;
    grown = λ i. ([], sym (append-nil (bytes_of db i)));
    still_open = λ i h. h;
    small = λ h. h;
  }

  pub Extends-trans : {a b c : Db ix} → Extends a b → Extends b c → Extends a c
  Extends-trans {a} {b} {c} f g = record {
    frame = Frame-trans f.frame g.frame;
    grown = λ i.
        let (more, e) = f.grown i in
        let (more', e') = g.grown i in
        (
          more ++ more',
          e' ∙ ap (λ (t : Bytes). t ++ more') e ∙ append_assoc (bytes_of a i) more more',
        );
    still_open = λ i h. g.still_open i (f.still_open i h);
    small = λ h. g.small (f.small h);
  }

  -- The contents of a file, in a state that has the same directory.
  pub bytes_of-same :
      (db db' : Db ix) (i : ℕ)
      → db'.options ≡ db.options
      → SameContents db.disk db'.disk
      → bytes_of db' i ≡ bytes_of db i
  bytes_of-same db db' i o s =
      s.at (name_of db' i) ∙ ap (λ t. contents db.disk (get_data_file_name t.dir_path i)) o

  pub Post-on_disk :
      {A : Type 0} (Q : A → Db ix → Type 0) (E : Db ix → Type 0) (m : Exec Disk A) (db : Db ix)
      → Post (λ a d. Q a (record db { disk = d })) (λ d. E (record db { disk = d })) (m db.disk)
      → Post Q E (on_disk m db)
  Post-on_disk {A} Q E m db h = go (m db.disk) h
    where
      go :
          (x : Disk × Res A)
          → Post (λ a d. Q a (record db { disk = d })) (λ d. E (record db { disk = d })) x
          → Post Q E (record db { disk = x.0 }, x.1)
      go (d, ok a) k = k
      go (d, err e) k = k
      go (d, panicked) k = k
