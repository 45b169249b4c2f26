-- ===== src/Db/Append/Retire.antt =====
-- appendLogRecord where a record does not fit: the active file becomes an older one.
use bitcask_go.Common.{
  ℕ, ◌+◌, ◌%◌, ◌^◌, ◌≤◌, ◌<◌, ◌≡◌, refl, ◌∙◌, ap, Option, none, some, length, arith, Bool-cases,
  inl, inr, ◌==◌, ==_iff,
}
use bitcask_go.Common.Assoc.{lookup, insert, lookup-insert}
use bitcask_go.Common.Eq.{nat_eq}
use bitcask_go.Common.Exec.Post.{Post, Post-continue, Post-mono}
use bitcask_go.Varint.{signed_lt}
use bitcask_go.Fio.{file_io}
use bitcask_go.Fio.Laws.{SameContents}
use bitcask_go.Data.File
use bitcask_go.Data.File.{DataFile, get_data_file_name, open_data_file}
use bitcask_go.Data.File.Laws.{opened, sync-Post}
use bitcask_go.Index.{Indexer}
use bitcask_go.Db.State.{Db, on_disk, file_of}
use bitcask_go.Db.Invariant.{
  unused_from, bytes_of, open_in, IsOpen, IsWf, Extends, Frame-with, Extends-refl, bytes_of-same,
  Post-on_disk,
}
use bitcask_go.Db.Append.Rotate.{
  Moved, Moved-trans, Moved-disk, set_active-Post, Staged, Moved-IsWf, Moved-IsSmall, Moved-grown,
}
use bitcask_go.Db.Append.{retire_file, rotate_file, next_file_id, set_active_data_file}

module _ {ix : Indexer} where
  -- What was open is open in a state where the active file f was put among the older ones.
  retired-IsOpen :
      {db db' : Db ix} (f : DataFile)
      → db.active_file ≡ some f
      → Moved (some f) (insert f.file_id f db.older_files) db db'
      → (i : ℕ) → IsOpen db i
      → IsOpen db' i
  unfolding file_of
  retired-IsOpen {db} {db'} f e m i h = record {
    file = h.file;
    found = ground (
      arith,
      e,
      h.found,
      m.active,
      lookup-insert f.file_id i f db.older_files,
      ap (λ t. lookup i t) m.older,
    );
    named = rw m.frame.options h.named;
  }

  replaced-IsOpen :
      {db db' : Db ix} (f : DataFile) (n : ℕ)
      → db.active_file ≡ some f
      → Moved (some (opened db.options.dir_path n)) (insert f.file_id f db.older_files) db db'
      → (i : ℕ) → IsOpen db i
      → IsOpen db' i
  unfolding file_of
  replaced-IsOpen {db} {db'} f n e m i h = elim (Bool-cases (n == i)) [
    | inl t ↦ record {
      file = opened db.options.dir_path n;
      found = rw m.active (ground arith);
      named = rw m.frame.options (ap (get_data_file_name db.options.dir_path) ((==_iff n i).0 t));
    }
    | inr t ↦ record {
      file = h.file;
      found = ground (
        arith,
        e,
        h.found,
        m.active,
        lookup-insert f.file_id i f db.older_files,
        ap (λ t. lookup i t) m.older,
      );
      named = rw m.frame.options h.named;
    }
  ]

  -- The file is synced, and is then an older file beside being the active one.
  pub synced-Post :
      (f : DataFile) (db : Db ix)
      → f.io_manager.kind ≡ file_io
      → Post
          (λ _ db'. Moved db.active_file db.older_files db db')
          (λ db'. Moved db.active_file db.older_files db db')
          (on_disk (File.sync f) db)
  synced-Post f db k =
      Post-on_disk (λ _ db'. Moved db.active_file db.older_files db db')
        (λ db'. Moved db.active_file db.older_files db db') (File.sync f) db
        (Post-mono (λ _ d. SameContents db.disk d)
          (λ _ d. Moved db.active_file db.older_files db (record db { disk = d }))
          (λ d. SameContents db.disk d)
          (λ d. Moved db.active_file db.older_files db (record db { disk = d })) _
          (sync-Post f db.disk k) (λ _ d h. Moved-disk db d h) (λ d h. Moved-disk db d h))

  open_in-older :
      (db db' : Db ix) (active : Option DataFile) (i : ℕ)
      → db'.older_files ≡ db.older_files
      → open_in active i db' ≡ open_in active i db
  unfolding file_of
  open_in-older db db' none i o = refl
  open_in-older db db' (some f) i o = rw o

  pub opens-same :
      (db db' : Db ix) (i : ℕ)
      → db'.active_file ≡ db.active_file
      → db'.older_files ≡ db.older_files
      → open_in db'.active_file i db' ≡ open_in db.active_file i db
  opens-same db db' i a o = ap (λ t. open_in t i db') a ∙ open_in-older db db' db.active_file i o

  -- Where no file was opened or retired, the same files are open.
  pub same-IsOpen :
      {db : Db ix} (db' : Db ix)
      → Moved db.active_file db.older_files db db'
      → (i : ℕ) → IsOpen db i
      → IsOpen db' i
  same-IsOpen {db} db' m i h = record {
    file = h.file;
    found = opens-same db db' i m.active m.older ∙ h.found;
    named = rw m.frame.options h.named;
  }

  module _ (f : DataFile) (size : ℕ) (db : Db ix) (e : db.active_file ≡ some f) (wf : IsWf db) where
    -- after the sync and the change of olderFiles
    Retired : Db ix → Type 0
    Retired db' = Moved (some f) (insert f.file_id f db.older_files) db db'

    Retired-Extends : (db' : Db ix) → Retired db' → Extends db db'
    unfolding Retired
    Retired-Extends db' m = record {
      frame = m.frame;
      grown = Moved-grown m;
      still_open = retired-IsOpen f e m;
      small = Moved-IsSmall m;
    }

    Replaced : Db ix → Type 0
    Replaced db' =
        Moved (some (opened db.options.dir_path (f.file_id + 1)))
          (insert f.file_id f db.older_files) db db'

    Replaced-Staged :
        (db' : Db ix) → f.file_id + 1 < 2 ^ 32 → size < 2 ^ 40 → Replaced db' → Staged size db db'
    unfolding Replaced
    Replaced-Staged db' spare hs m =
        let n = f.file_id + 1 in
        let new : unused_from db.active_file ≤ n = rw e (omega arith) in
        let empty : length (bytes_of db' n) ≡ 0 =
          rw (bytes_of-same db db' n m.frame.options m.contents, wf.unused n new) in
        record {
          extends = record {
            frame = m.frame;
            grown = Moved-grown m;
            still_open = replaced-IsOpen f n e m;
            small = Moved-IsSmall m;
          };
          contents = m.contents;
          wf = Moved-IsWf n wf new spare m;
          file = opened db.options.dir_path n;
          is_active = m.active;
          fits = omega (arith, empty);
          next = rw (m.active, e) (omega arith);
          place = rw e (inr (omega arith));
        }

    to_retired :
        (db1 : Db ix)
        → Moved db.active_file db.older_files db db1
        → Retired (record db1 { older_files = insert f.file_id f db1.older_files })
    unfolding Retired
    to_retired db1 m = record {
      frame = Frame-with db1.active_file (insert f.file_id f db1.older_files) m.frame;
      active = m.active ∙ e;
      older = ap (λ t. insert f.file_id f t) m.older;
      contents = m.contents;
    }

    after_sync-Post :
        (db2 : Db ix)
        → f.file_id + 1 < 2 ^ 32
        → Retired db2
        → Post (λ _ db'. Replaced db') (λ db'. Retired db') (set_active_data_file db2)
    unfolding Replaced Retired
    after_sync-Post db2 spare m =
        let id : next_file_id db2.active_file ≡ f.file_id + 1 = rw m.active (omega arith) in
        let file : opened db2.options.dir_path (next_file_id db2.active_file)
            ≡ opened db.options.dir_path (f.file_id + 1) =
          rw (id, m.frame.options) in
        Post-mono
          (λ _ db'.
            Moved (some (opened db2.options.dir_path (next_file_id db2.active_file)))
              db2.older_files db2 db')
          (λ _ db'. Replaced db') (λ db'. Moved db2.active_file db2.older_files db2 db')
          (λ db'. Retired db') _ (set_active-Post db2)
          (λ _ db' n.
            let t = Moved-trans m n in
            record {
              frame = t.frame;
              active = t.active ∙ ap some file;
              older = t.older ∙ m.older;
              contents = t.contents;
            })
          (λ db' n.
            let t = Moved-trans m n in
            record {
              frame = t.frame;
              active = t.active ∙ m.active;
              older = t.older ∙ m.older;
              contents = t.contents;
            })

    retire_file-Post :
        f.file_id + 1 < 2 ^ 32
        → size < 2 ^ 40
        → Post (λ _ db'. Staged size db db') (λ db'. Extends db db') (retire_file f db)
    unfolding retire_file
    retire_file-Post spare hs =
        Post-continue (λ _ db'. Moved db.active_file db.older_files db db')
          (λ db'. Moved db.active_file db.older_files db db') (λ _ db'. Staged size db db')
          (λ db'. Extends db db') _ _ (synced-Post f db (wf.active f e).writable)
          (λ _ db1 m.
            Post-mono (λ _ db'. Replaced db') (λ _ db'. Staged size db db') (λ db'. Retired db')
              (λ db'. Extends db db') _
              (after_sync-Post (record db1 { older_files = insert f.file_id f db1.older_files })
                spare (to_retired db1 m))
              (λ _ db' r. Replaced-Staged db' spare hs r) (λ db' r. Retired-Extends db' r))
          (λ db' m. record {
            frame = m.frame;
            grown = Moved-grown m;
            still_open = λ i h. same-IsOpen db' m i h;
            small = Moved-IsSmall m;
          })

    -- A record that fits stays in the active file; any other gets a file of its own.
    pub rotate_file-Post :
        f.file_id + 1 < 2 ^ 32
        → size < 2 ^ 40
        → Post (λ _ db'. Staged size db db') (λ db'. Extends db db') (rotate_file size f db)
    unfolding rotate_file
    rotate_file-Post spare hs =
        elim (Bool-cases (signed_lt db.options.data_file_size ((f.write_off + size) % 2 ^ 64))) [
          | inl full ↦ rw full (retire_file-Post spare hs)
          | inr room ↦ rw room (record {
            extends = Extends-refl db;
            contents = record { at = λ q. refl };
            wf = wf;
            file = f;
            is_active = e;
            fits = ground (arith, (wf.active f e).aligned, wf.small f.file_id, wf.room);
            next = omega arith;
            place = rw e (inl refl);
          })
        ]
