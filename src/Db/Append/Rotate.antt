-- ===== src/Db/Append/Rotate.antt =====
-- setActiveDataFile, and appendLogRecord where there is no file yet.
use bitcask_go.Common.{
  ℕ, ◌+◌, ◌^◌, ◌≤◌, ◌<◌, ◌≡◌, refl, sym, ◌∙◌, ap, inl, Option, none, some, [], ◌++◌, Bytes, length,
  append-nil, arith,
}
use bitcask_go.Common.Assoc.{Assoc}
use bitcask_go.Common.Eq.{nat_eq}
use bitcask_go.Common.Exec.Post.{Post, Post-continue, Post-mono}
use bitcask_go.Fio.{Disk, stander_fio}
use bitcask_go.Fio.Laws.{SameContents}
use bitcask_go.Data.File.{DataFile, open_data_file}
use bitcask_go.Data.File.Laws.{opened, open_data_file-Post}
use bitcask_go.Index.{Indexer}
use bitcask_go.Db.State.{Db, on_disk}
use bitcask_go.Db.Invariant.{
  unused_from, active_id, bytes_of, open_in, IsOpen, IsWf, IsSmall, Frame, Extends, Frame-trans,
  Frame-with, Extends-refl, bytes_of-same, Post-on_disk, Places,
}
use bitcask_go.Db.Append.{next_file_id, ensure_file, set_active_data_file}

module _ {ix : Indexer} where
  -- Only the disk's answers, the active file and the older ones may have changed.
  pub record Moved (now : Option DataFile) (others : Assoc ℕ DataFile) (db db' : Db ix)
      : Type 0 where
    pub frame : Frame db db'
    pub active : db'.active_file ≡ now
    pub older : db'.older_files ≡ others
    pub contents : SameContents db.disk db'.disk

  pub Moved-trans :
      {a a' : Option DataFile} {o o' : Assoc ℕ DataFile} {x y z : Db ix}
      → Moved a o x y
      → Moved a' o' y z
      → Moved a' o' x z
  Moved-trans m n = record {
    frame = Frame-trans m.frame n.frame;
    active = n.active;
    older = n.older;
    contents = record { at = λ q. n.contents.at q ∙ m.contents.at q };
  }

  pub Moved-disk :
      (db : Db ix) (d : Disk)
      → SameContents db.disk d
      → Moved db.active_file db.older_files db (record db { disk = d })
  Moved-disk db d h = record {
    frame = record { options = refl; index = refl; seq_no = refl; reclaim_size = refl };
    active = refl;
    older = refl;
    contents = h;
  }

  opened-Post :
      (db : Db ix) (id : ℕ)
      → Post
          (λ f db'.
            (f ≡ opened db.options.dir_path id) × Moved db.active_file db.older_files db db')
          (λ db'. Moved db.active_file db.older_files db db')
          (on_disk (open_data_file db.options.dir_path id stander_fio) db)
  opened-Post db id =
      Post-on_disk
        (λ f db'. (f ≡ opened db.options.dir_path id) × Moved db.active_file db.older_files db db')
        (λ db'. Moved db.active_file db.older_files db db')
        (open_data_file db.options.dir_path id stander_fio) db
        (Post-mono (λ f d. (f ≡ opened db.options.dir_path id) × SameContents db.disk d)
          (λ f d.
            (f ≡ opened db.options.dir_path id)
            × Moved db.active_file db.older_files db (record db { disk = d }))
          (λ d. SameContents db.disk d)
          (λ d. Moved db.active_file db.older_files db (record db { disk = d })) _
          (open_data_file-Post db.options.dir_path id db.disk) (λ f d h. (h.0, Moved-disk db d h.1))
          (λ d h. Moved-disk db d h))

  pub set_active-Post :
      (db : Db ix)
      → Post
          (λ _ db'.
            Moved
              (some (opened db.options.dir_path (next_file_id db.active_file)))
              db.older_files
              db
              db')
          (λ db'. Moved db.active_file db.older_files db db')
          (set_active_data_file db)
  unfolding set_active_data_file
  set_active-Post db =
      let id = next_file_id db.active_file in
      Post-continue
        (λ f db'. (f ≡ opened db.options.dir_path id) × Moved db.active_file db.older_files db db')
        (λ db'. Moved db.active_file db.older_files db db')
        (λ _ db'. Moved (some (opened db.options.dir_path id)) db.older_files db db')
        (λ db'. Moved db.active_file db.older_files db db') _ _ (opened-Post db id)
        (λ f db' h. record {
          frame = Frame-with (some f) db'.older_files h.1.frame;
          active = ap some h.0;
          older = h.1.older;
          contents = h.1.contents;
        })
        (λ db' h. h)

  -- A file is active that has room for `size` more bytes.
  pub record Staged (size : ℕ) (db db' : Db ix) : Type 0 where
    pub extends : Extends db db'
    pub contents : SameContents db.disk db'.disk
    pub wf : IsWf db'
    pub file : DataFile
    pub is_active : db'.active_file ≡ some file
    pub fits : length (bytes_of db' file.file_id) + size < 2 ^ 62
    pub next : active_id db'.active_file ≤ active_id db.active_file + 1
    pub place : Places db.active_file file.file_id

  -- the file that a well-formed database goes on to write
  pub Moved-IsWf :
      {db db' : Db ix} {o : Assoc ℕ DataFile} (id : ℕ)
      → IsWf db
      → unused_from db.active_file ≤ id
      → id < 2 ^ 32
      → Moved (some (opened db.options.dir_path id)) o db db'
      → IsWf db'
  Moved-IsWf {db} {db'} {o} id wf new fits m = record {
    active = λ f e.
        let same : opened db.options.dir_path id ≡ f = cc in
        let empty : length (bytes_of db' id) ≡ 0 =
          rw (bytes_of-same db db' id m.frame.options m.contents, wf.unused id new) in
        rw (← same) (record {
          named = rw m.frame.options;
          writable = refl;
          aligned = sym empty;
          id_fits = fits;
        });
    unused = λ i h.
        let later : unused_from db'.active_file ≡ id + 1 = rw m.active in
        bytes_of-same db db' i m.frame.options m.contents ∙ wf.unused i (omega (arith, later));
    small = λ i. rw (bytes_of-same db db' i m.frame.options m.contents) (wf.small i);
    room = rw m.frame.options wf.room;
  }

  pub Moved-IsSmall :
      {db db' : Db ix} {a : Option DataFile} {o : Assoc ℕ DataFile}
      → Moved a o db db'
      → IsSmall db
      → IsSmall db'
  Moved-IsSmall {db} {db'} m h i = rw (bytes_of-same db db' i m.frame.options m.contents) (h i)

  pub Moved-grown :
      {db db' : Db ix} {a : Option DataFile} {o : Assoc ℕ DataFile}
      → Moved a o db db'
      → (i : ℕ) → (more : Bytes) × (bytes_of db' i ≡ bytes_of db i ++ more)
  Moved-grown {db} {db'} m i =
      ([], bytes_of-same db db' i m.frame.options m.contents ∙ sym (append-nil (bytes_of db i)))

  pub ensure_file-Post :
      (active : Option DataFile) (db : Db ix)
      → db.active_file ≡ active
      → IsWf db
      → Post
          (λ _ db'. Staged 0 db db' × (active_id db'.active_file ≡ active_id db.active_file))
          (λ db'. Extends db db')
          (ensure_file active db)
  ensure_file-Post none db e wf =
      let new : unused_from db.active_file ≤ 0 = rw e (omega arith) in
      let closed : (i : ℕ) → ¬ (IsOpen db i) = λ i h. cc (ap (λ t. open_in t i db) e, h.found) in
      Post-mono
        (λ _ db'.
          Moved (some (opened db.options.dir_path (next_file_id db.active_file))) db.older_files db
            db')
        (λ _ db'. Staged 0 db db' × (active_id db'.active_file ≡ active_id db.active_file))
        (λ db'. Moved db.active_file db.older_files db db') (λ db'. Extends db db') _
        (set_active-Post db)
        (λ _ db' m.
          let first : next_file_id db.active_file ≡ 0 = rw e in
          let m' : Moved (some (opened db.options.dir_path 0)) db.older_files db db' =
            rw first at m in
          let wf' = Moved-IsWf 0 wf new (omega arith) m' in
          (
            record {
              extends = record {
                frame = m.frame;
                grown = Moved-grown m;
                still_open = λ i h. absurd (closed i h);
                small = Moved-IsSmall m;
              };
              contents = m.contents;
              wf = wf';
              file = opened db.options.dir_path 0;
              is_active = m'.active;
              fits = omega (arith, wf'.small 0);
              next = rw (m'.active) (omega arith);
              place = rw e tt;
            },
            rw (m'.active, e),
          ))
        (λ db' m. record {
          frame = m.frame;
          grown = Moved-grown m;
          still_open = λ i h. absurd (closed i h);
          small = Moved-IsSmall m;
        })
  ensure_file-Post (some f) db e wf = (
    record {
      extends = Extends-refl db;
      contents = record { at = λ q. refl };
      wf = wf;
      file = f;
      is_active = e;
      fits = omega (arith, wf.small f.file_id);
      next = omega arith;
      place = rw e (inl refl);
    },
    refl,
  )
