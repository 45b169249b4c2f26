-- ===== src/Db/Append/Whole.antt =====
-- appendLogRecord as a whole: the record is at the position that it returns, every other byte is
-- where it was, and the database can go on.
use bitcask_go.Common.{
  ℕ, ◌+◌, ◌^◌, ◌≤◌, ◌<◌, ◌≡◌, ◌≢◌, refl, sym, ◌∙◌, ap, some, [], ◌++◌, Bytes, length, length-append,
  arith, eq_cases, subst, inl, inr, append-nil,
}
use bitcask_go.Common.Assoc.{lookup}
use bitcask_go.Common.Eq.{nat_eq}
use bitcask_go.Common.Exec.Post.{Post, Post-continue}
use bitcask_go.Varint.{u32}
use bitcask_go.Fio.{contents}
use bitcask_go.Data.Record.{LogRecord, LogRecordPos, encode_log_record}
use bitcask_go.Data.Record.RoundTrip.{length-encode_log_record}
use bitcask_go.Data.File.{DataFile, get_data_file_name}
use bitcask_go.Data.File.Laws.{advanced}
use bitcask_go.Index.{Indexer}
use bitcask_go.Db.State.{Db, file_of}
use bitcask_go.Db.Invariant.{
  unused_from, active_id, name_of, bytes_of, IsOpen, IsActive, IsWf, Extends, Frame-trans,
  Extends-trans, bytes_of-same, Places, Places-trans,
}
use bitcask_go.Db.Append.{write_record, append_log_record, ensure_active_file, rotate_active_file}
use bitcask_go.Db.Append.Rotate.{Moved, Staged, ensure_file-Post}
use bitcask_go.Db.Append.Retire.{opens-same, rotate_file-Post}
use bitcask_go.Db.Append.Write.{
  name_of-injective, Written, PartlyWritten, Post-with_file, write_active-Post, count_and_sync-Post,
}

module _ {ix : Indexer} where
  -- The record r was appended at pos.
  pub record Appended (r : LogRecord) (db : Db ix) (pos : LogRecordPos) (db' : Db ix) : Type 0 where
    pub extends : Extends db db'
    pub wf : IsWf db'
    pub now_open : IsOpen db' pos.fid
    pub added : bytes_of db' pos.fid ≡ bytes_of db pos.fid ++ (encode_log_record r).0
    pub elsewhere : (i : ℕ) → pos.fid ≢ i → bytes_of db' i ≡ bytes_of db i
    pub offset : pos.offset ≡ length (bytes_of db pos.fid)
    pub size : pos.size ≡ u32 (encode_log_record r).1
    pub fid_fits : pos.fid < 2 ^ 32
    pub is_active : pos.fid ≡ active_id db'.active_file
    pub next : active_id db'.active_file ≤ active_id db.active_file + 1
    pub place : Places db.active_file pos.fid

  -- The steps up to the write, and the write.
  module _ (r : LogRecord) {db db1 db2 db3 : Db ix} (s : Staged (encode_log_record r).1 db db1)
      (w : Written s.file (encode_log_record r).0 db1 db2)
      (m : Moved db2.active_file db2.older_files db2 db3) where
    same_options : db3.options ≡ db1.options
    same_options = m.frame.options ∙ w.frame.options

    staged-IsActive : IsActive db1 s.file
    staged-IsActive = s.wf.active s.file s.is_active

    staged-IsOpen : IsOpen db1 s.file.file_id
    unfolding file_of
    staged-IsOpen = record {
      file = s.file;
      found = rw s.is_active (ground arith);
      named = staged-IsActive.named;
    }

    staged_next : s.file.file_id ≤ active_id db.active_file + 1
    staged_next = rw s.is_active at s.next

    -- the contents of a file, before the write
    bytes_before : (i : ℕ) → bytes_of db1 i ≡ bytes_of db i
    bytes_before i = bytes_of-same db db1 i s.extends.frame.options s.contents

    bytes_after : (i : ℕ) → bytes_of db3 i ≡ contents db2.disk (name_of db1 i)
    bytes_after i =
        m.contents.at (name_of db3 i)
        ∙ ap (λ t. contents db2.disk (get_data_file_name t.dir_path i)) same_options

    bytes_added :
        bytes_of db3 s.file.file_id ≡ bytes_of db1 s.file.file_id ++ (encode_log_record r).0
    bytes_added =
        bytes_after s.file.file_id
        ∙ ap (contents db2.disk) (sym staged-IsActive.named)
        ∙ w.grown.at_path
        ∙ ap (λ t. contents db1.disk t ++ (encode_log_record r).0) staged-IsActive.named

    bytes_elsewhere : (i : ℕ) → s.file.file_id ≢ i → bytes_of db3 i ≡ bytes_of db1 i
    bytes_elsewhere i ne =
        bytes_after i
        ∙ w.grown.elsewhere (name_of db1 i) (λ e.
          ne (
            name_of-injective db1.options.dir_path s.file.file_id i
              (sym staged-IsActive.named ∙ e)))

    after_grown : (i : ℕ) → (more : Bytes) × (bytes_of db3 i ≡ bytes_of db i ++ more)
    after_grown i = elim (eq_cases s.file.file_id i) [
      | inl e ↦ (
        (encode_log_record r).0,
        subst (λ t. bytes_of db3 t ≡ bytes_of db t ++ (encode_log_record r).0) e
            (bytes_added ∙ ap (λ t. t ++ (encode_log_record r).0) (bytes_before s.file.file_id)),
      )
      | inr ne ↦ ([], bytes_elsewhere i ne ∙ bytes_before i ∙ sym (append-nil (bytes_of db i)))
    ]

    pub after_active : db3.active_file ≡ some (advanced s.file (length (encode_log_record r).0))
    after_active = m.active ∙ w.active

    after-IsOpen : (i : ℕ) → IsOpen db1 i → IsOpen db3 i
    unfolding file_of
    after-IsOpen i h = elim (eq_cases s.file.file_id i) [
      | inl e ↦ record {
        file = advanced s.file (length (encode_log_record r).0);
        found = ground (arith, after_active);
        named =
            rw same_options
              (staged-IsActive.named ∙ ap (get_data_file_name db1.options.dir_path) e);
      }
      | inr ne ↦ record {
        file = h.file;
        found =
            ground
              (arith, s.is_active, after_active, h.found, ap (λ t. lookup i t) (m.older ∙ w.older));
        named = rw same_options h.named;
      }
    ]

    added_length :
        length (bytes_of db3 s.file.file_id)
        ≡ length (bytes_of db1 s.file.file_id) + length (encode_log_record r).0
    added_length =
        ap length bytes_added ∙ length-append (bytes_of db1 s.file.file_id) (encode_log_record r).0

    after_IsWf : IsWf db3
    after_IsWf = record {
      active = λ f e.
          let same : advanced s.file (length (encode_log_record r).0) ≡ f = cc after_active in
          rw (← same) (record {
            named = rw same_options staged-IsActive.named;
            writable = staged-IsActive.writable;
            aligned =
                omega (
                  arith,
                  staged-IsActive.aligned,
                  added_length,
                  s.fits,
                  length-encode_log_record r,
                );
            id_fits = staged-IsActive.id_fits;
          });
      unused = λ i h.
          let now : unused_from db3.active_file ≡ s.file.file_id + 1 = rw after_active in
          let old : unused_from db1.active_file ≤ i = rw s.is_active (omega (arith, now)) in
          bytes_elsewhere i (λ e. absurd (omega (arith, now))) ∙ s.wf.unused i old;
      small = λ i. elim (eq_cases s.file.file_id i) [
        | inl e ↦
            subst (λ t. length (bytes_of db3 t) < 2 ^ 62) e
              (omega (arith, added_length, s.fits, length-encode_log_record r))
        | inr ne ↦ rw (bytes_elsewhere i ne) (s.wf.small i)
      ];
      room = rw same_options s.wf.room;
    }

    pub after-Extends : Extends db db3
    after-Extends = record {
      frame = Frame-trans s.extends.frame (Frame-trans w.frame m.frame);
      grown = after_grown;
      still_open = λ i h. after-IsOpen i (s.extends.still_open i h);
      small = λ h. after_IsWf.small;
    }

    abbrev pub position : LogRecordPos
    position = record {
      fid = s.file.file_id;
      offset = s.file.write_off;
      size = u32 (encode_log_record r).1;
    }

    pub after_Appended : Appended r db position db3
    after_Appended = record {
      extends = after-Extends;
      wf = after_IsWf;
      now_open = after-IsOpen s.file.file_id staged-IsOpen;
      added = bytes_added ∙ ap (λ t. t ++ (encode_log_record r).0) (bytes_before s.file.file_id);
      elsewhere = λ i ne. bytes_elsewhere i ne ∙ bytes_before i;
      offset = staged-IsActive.aligned ∙ ap length (bytes_before s.file.file_id);
      size = refl;
      fid_fits = staged-IsActive.id_fits;
      is_active = rw after_active;
      next = rw after_active (omega (arith, staged_next));
      place = s.place;
    }

  partly_at :
      (buf : Bytes) (db db' : Db ix) (f : DataFile) (i : ℕ) (p : PartlyWritten buf f db db')
      → f.io_manager.path ≡ name_of db i
      → bytes_of db' i ≡ bytes_of db i ++ p.more
  partly_at buf db db' f i p e =
      ap (λ t. contents db'.disk (get_data_file_name t.dir_path i)) p.frame.options
      ∙ ap (contents db'.disk) (sym e)
      ∙ p.grown.at_path
      ∙ ap (λ t. contents db.disk t ++ p.more) e

  partly_elsewhere :
      (buf : Bytes) (db db' : Db ix) (f : DataFile) (i : ℕ)
      → PartlyWritten buf f db db'
      → f.io_manager.path ≡ name_of db f.file_id
      → f.file_id ≢ i
      → bytes_of db' i ≡ bytes_of db i
  partly_elsewhere buf db db' f i p named ne =
      ap (λ t. contents db'.disk (get_data_file_name t.dir_path i)) p.frame.options
      ∙ p.grown.elsewhere (name_of db i)
          (λ e. ne (name_of-injective db.options.dir_path f.file_id i (sym named ∙ e)))

  -- A write that failed left every byte where it was.
  partly-Extends :
      (buf : Bytes) (size : ℕ) {db db1 db2 : Db ix} (s : Staged size db db1)
      → length buf ≡ size
      → PartlyWritten buf s.file db1 db2
      → Extends db db2
  partly-Extends buf size {db} {db1} {db2} s e_size p =
      let named = (s.wf.active s.file s.is_active).named in
      Extends-trans s.extends (record {
        frame = p.frame;
        grown = λ i. elim (eq_cases s.file.file_id i) [
          | inl e ↦ (
            p.more,
            partly_at buf db1 db2 s.file i p
                (named ∙ ap (get_data_file_name db1.options.dir_path) e),
          )
          | inr ne ↦ (
            [],
            partly_elsewhere buf db1 db2 s.file i p named ne ∙ sym (append-nil (bytes_of db1 i)),
          )
        ];
        still_open = λ i h. record {
          file = h.file;
          found = opens-same db1 db2 i p.active p.older ∙ h.found;
          named = rw p.frame.options h.named;
        };
        small = λ h i. elim (eq_cases s.file.file_id i) [
          | inl e ↦
              let at =
                partly_at buf db1 db2 s.file i p
                  (named ∙ ap (get_data_file_name db1.options.dir_path) e) in
              let fits = subst (λ t. length (bytes_of db1 t) + size < 2 ^ 62) e s.fits in
              omega (arith, ap length at, length-append (bytes_of db1 i) p.more, p.bounded, fits)
          | inr ne ↦ rw (partly_elsewhere buf db1 db2 s.file i p named ne) (h i)
        ];
      })

  write_record-Post :
      (r : LogRecord) {db db1 : Db ix}
      → Staged (encode_log_record r).1 db db1
      → Post (λ pos db'. Appended r db pos db') (λ db'. Extends db db') (write_record r db1)
  unfolding write_record
  write_record-Post r {db} {db1} s =
      let active = s.wf.active s.file s.is_active in
      Post-with_file (λ pos db'. Appended r db pos db') (λ db'. Extends db db') _ db1
        db1.active_file s.file s.is_active
        (Post-continue (λ _ db2. Written s.file (encode_log_record r).0 db1 db2)
          (λ db2. PartlyWritten (encode_log_record r).0 s.file db1 db2)
          (λ pos db'. Appended r db pos db') (λ db'. Extends db db') _ _
          (write_active-Post (encode_log_record r).0 db1 s.file s.is_active active)
          (λ _ db2 w.
            Post-continue (λ _ db3. Moved db2.active_file db2.older_files db2 db3)
              (λ db3. Moved db2.active_file db2.older_files db2 db3)
              (λ pos db'. Appended r db pos db') (λ db'. Extends db db') _ _
              (count_and_sync-Post (encode_log_record r).1 db2
                (advanced s.file (length (encode_log_record r).0)) w.active active.writable)
              (λ _ db3 m.
                Post-with_file (λ pos db'. Appended r db pos db') (λ db'. Extends db db') _ db3
                  db3.active_file (advanced s.file (length (encode_log_record r).0))
                  (after_active r s w m) (after_Appended r s w m))
              (λ db3 m. after-Extends r s w m))
          (λ db2 p.
            partly-Extends (encode_log_record r).0 (encode_log_record r).1 s
              (length-encode_log_record r) p))

  Staged-trans :
      {size : ℕ} {db db1 db2 : Db ix}
      → Staged 0 db db1
      → active_id db1.active_file ≡ active_id db.active_file
      → Staged size db1 db2
      → Staged size db db2
  Staged-trans s same t = record {
    extends = Extends-trans s.extends t.extends;
    contents = record { at = λ q. t.contents.at q ∙ s.contents.at q };
    wf = t.wf;
    file = t.file;
    is_active = t.is_active;
    fits = t.fits;
    next = rw same at t.next;
    place = Places-trans _ s.file t.file.file_id s.place (rw s.is_active at t.place);
  }

  file_room :
      {db db1 : Db ix} (s : Staged 0 db db1)
      → active_id db1.active_file ≡ active_id db.active_file
      → active_id db.active_file + 1 < 2 ^ 32
      → s.file.file_id + 1 < 2 ^ 32
  file_room {db} s same spare =
      let e : s.file.file_id ≡ active_id db.active_file = sym (ap active_id s.is_active) ∙ same in
      omega (arith, e)

  -- From a well-formed database with a file id to spare, appendLogRecord of a record below 2 ^
  -- 40 bytes ends without a panic whatever the disk answers: it returns the position at the end
  -- of an open file where the encoded record now stands, with every other file as it was, the
  -- index unchanged and the database well-formed; or it fails with the index unchanged, every
  -- file at most longer and every open file open.
  pub append_log_record-Post :
      (r : LogRecord) (db : Db ix)
      → IsWf db
      → active_id db.active_file + 1 < 2 ^ 32
      → (encode_log_record r).1 < 2 ^ 40
      → Post (λ pos db'. Appended r db pos db') (λ db'. Extends db db') (append_log_record r db)
  unfolding append_log_record ensure_active_file rotate_active_file
  append_log_record-Post r db wf spare size =
      Post-continue
        (λ _ db1. Staged 0 db db1 × (active_id db1.active_file ≡ active_id db.active_file))
        (λ db1. Extends db db1) (λ pos db'. Appended r db pos db') (λ db'. Extends db db') _ _
        (ensure_file-Post db.active_file db refl wf)
        (λ _ db1 s.
          let file_spare : s.0.file.file_id + 1 < 2 ^ 32 = file_room s.0 s.1 spare in
          Post-continue (λ _ db2. Staged (encode_log_record r).1 db1 db2) (λ db2. Extends db1 db2)
            (λ pos db'. Appended r db pos db') (λ db'. Extends db db') _ _
            (Post-with_file (λ _ db2. Staged (encode_log_record r).1 db1 db2)
              (λ db2. Extends db1 db2) _ db1 db1.active_file s.0.file s.0.is_active
              (rotate_file-Post s.0.file (encode_log_record r).1 db1 s.0.is_active s.0.wf file_spare
                size))
            (λ _ db2 t. write_record-Post r (Staged-trans s.0 s.1 t))
            (λ db2 x. Extends-trans s.0.extends x))
        (λ db1 x. x)
