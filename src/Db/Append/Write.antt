-- ===== src/Db/Append/Write.antt =====
-- appendLogRecord: where the record lies, and what else has changed.
use bitcask_go.Common.{
  ℕ, ◌+◌, ◌%◌, ◌^◌, ◌≤◌, ◌≡◌, refl, ap, Option, some, Bytes, length, take, length-take_le,
  Bool-cases, inl, inr,
}
use bitcask_go.Common.Assoc.{Assoc}
use bitcask_go.Common.Exec.{Exec}
use bitcask_go.Common.Exec.Post.{Post, Post-continue, Post-mono}
use bitcask_go.Fio.{Disk, FilePath, data_file, file_io}
use bitcask_go.Fio.Laws.{Grown}
use bitcask_go.Data.File
use bitcask_go.Data.File.{DataFile, get_data_file_name}
use bitcask_go.Data.File.Laws.{advanced, write-Post}
use bitcask_go.Index.{Indexer}
use bitcask_go.Db.State.{Db, with_file}
use bitcask_go.Db.Invariant.{IsActive, Frame, Frame-refl, Frame-with, Post-on_disk}
use bitcask_go.Db.Append.{need_sync, write_active_file, count_and_sync}
use bitcask_go.Db.Append.Rotate.{Moved, Moved-trans}
use bitcask_go.Db.Append.Retire.{synced-Post}

pub name_of-injective :
    (dir : Bytes) (i j : ℕ) → get_data_file_name dir i ≡ get_data_file_name dir j → i ≡ j
name_of-injective dir i j h =
    let e : data_file i ≡ data_file j = ap (λ (p : FilePath). p.name) h in cc

module _ {ix : Indexer} where
  pub Post-with_file :
      {A : Type 0} (Q : A → Db ix → Type 0) (E : Db ix → Type 0) (k : DataFile → Exec (Db ix) A)
      (db : Db ix) (active : Option DataFile) (f : DataFile)
      → active ≡ some f
      → Post Q E (k f db)
      → Post Q E (with_file active k db)
  Post-with_file Q E k db active f e h = rw e h

  -- f got the bytes `buf` behind its end.
  pub record Written (f : DataFile) (buf : Bytes) (db db' : Db ix) : Type 0 where
    pub frame : Frame db db'
    pub active : db'.active_file ≡ some (advanced f (length buf))
    pub older : db'.older_files ≡ db.older_files
    pub grown : Grown f.io_manager.path buf db.disk db'.disk

  -- A write that failed: some of the bytes may be there.
  pub record PartlyWritten (buf : Bytes) (f : DataFile) (db db' : Db ix) : Type 0 where
    pub frame : Frame db db'
    pub active : db'.active_file ≡ db.active_file
    pub older : db'.older_files ≡ db.older_files
    pub more : Bytes
    pub bounded : length more ≤ length buf
    pub grown : Grown f.io_manager.path more db.disk db'.disk

  abbrev Grew : Bytes → Db ix → DataFile → Db ix → Type 0
  Grew buf db f db' =
      Frame db db'
      × (db'.older_files ≡ db.older_files)
      × Grown f.io_manager.path buf db.disk db'.disk

  untouched : (db : Db ix) (d : Disk) → Frame db (record db { disk = d })
  untouched db d = record { options = refl; index = refl; seq_no = refl; reclaim_size = refl }

  pub write_active-Post :
      (buf : Bytes) (db : Db ix) (f : DataFile)
      → db.active_file ≡ some f
      → IsActive db f
      → Post
          (λ _ db'. Written f buf db db')
          (λ db'. PartlyWritten buf f db db')
          (write_active_file buf db)
  unfolding write_active_file
  write_active-Post buf db f e a =
      Post-with_file (λ _ db'. Written f buf db db') (λ db'. PartlyWritten buf f db db') _ db
        db.active_file f e
        (Post-continue (λ g db'. (g ≡ advanced f (length buf)) × Grew buf db f db')
          (λ db'. PartlyWritten buf f db db') (λ _ db'. Written f buf db db')
          (λ db'. PartlyWritten buf f db db') _ _
          (Post-on_disk (λ g db'. (g ≡ advanced f (length buf)) × Grew buf db f db')
            (λ db'. PartlyWritten buf f db db') (File.write f buf) db
            (Post-mono
              (λ g d. (g ≡ advanced f (length buf)) × Grown f.io_manager.path buf db.disk d)
              (λ g d. (g ≡ advanced f (length buf)) × Grew buf db f (record db { disk = d }))
              (λ d. (n : ℕ) × Grown f.io_manager.path (take n buf) db.disk d)
              (λ d. PartlyWritten buf f db (record db { disk = d })) _
              (write-Post f buf db.disk a.writable) (λ g d h. (h.0, (untouched db d, refl, h.1)))
              (λ d h. record {
                frame = untouched db d;
                active = refl;
                older = refl;
                more = take h.0 buf;
                bounded = length-take_le h.0 buf;
                grown = h.1;
              })))
          (λ g db' h. record {
            frame = Frame-with (some g) db'.older_files h.1.0;
            active = ap some h.0;
            older = h.1.1;
            grown = h.1.2;
          })
          (λ db' h. h))

  pub stays : (db : Db ix) → Moved db.active_file db.older_files db db
  stays db = record {
    frame = Frame-refl db;
    active = refl;
    older = refl;
    contents = record { at = λ q. refl };
  }

  recount :
      {db db' : Db ix} {now : Option DataFile} {others : Assoc ℕ DataFile}
      → Moved now others db db'
      → (n : ℕ) → Moved now others db (record db' { bytes_write = n })
  recount m n = record {
    frame = record {
      options = m.frame.options;
      index = m.frame.index;
      seq_no = m.frame.seq_no;
      reclaim_size = m.frame.reclaim_size;
    };
    active = m.active;
    older = m.older;
    contents = m.contents;
  }

  pub count_and_sync-Post :
      (size : ℕ) (db : Db ix) (f : DataFile)
      → db.active_file ≡ some f
      → f.io_manager.kind ≡ file_io
      → Post
          (λ _ db'. Moved db.active_file db.older_files db db')
          (λ db'. Moved db.active_file db.older_files db db')
          (count_and_sync size db)
  unfolding count_and_sync
  count_and_sync-Post size db f e writable =
      let counted : Db ix = record db { bytes_write = (db.bytes_write + size) % 2 ^ 64 } in
      let start : Moved db.active_file db.older_files db counted = recount (stays db) _ in
      elim (Bool-cases (need_sync counted.options counted.bytes_write)) [
        | inl t ↦ rw t (
            Post-continue (λ _ db'. Moved db.active_file db.older_files db db')
              (λ db'. Moved db.active_file db.older_files db db')
              (λ _ db'. Moved db.active_file db.older_files db db')
              (λ db'. Moved db.active_file db.older_files db db') _ _
              (Post-with_file (λ _ db'. Moved db.active_file db.older_files db db')
                (λ db'. Moved db.active_file db.older_files db db') _ counted counted.active_file f
                e
                (Post-mono (λ _ db'. Moved db.active_file db.older_files counted db')
                  (λ _ db'. Moved db.active_file db.older_files db db')
                  (λ db'. Moved db.active_file db.older_files counted db')
                  (λ db'. Moved db.active_file db.older_files db db') _
                  (synced-Post f counted writable) (λ _ db' m. Moved-trans start m)
                  (λ db' m. Moved-trans start m)))
              (λ _ db' m. recount m 0) (λ db' m. m))
        | inr t ↦ rw t start
      ]
