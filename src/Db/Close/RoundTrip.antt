-- ===== src/Db/Close/RoundTrip.antt =====
-- The sequence number that Close writes is the one that loadSeqNo reads when the directory is opened
-- again.
use bitcask_go.Common.{
  ℕ, zero, suc, ◌+◌, ◌/◌, ◌%◌, ◌≢◌, ◌<◌, ◌≤◌, ◌^◌, ◌≡◌, refl, sym, ap, ◌∙◌, Bool, true, false,
  Option, none, some, List, [], ◌∷◌, ◌++◌, Bytes, length, append-nil, arith,
}
use bitcask_go.Common.Assoc.{
  Assoc, lookup, insert, remove, lookup-insert_self, lookup-insert_ne, lookup-remove,
}
use bitcask_go.Common.Eq.{beq_self, beq_ne}
use bitcask_go.Common.Result.{ok}
use bitcask_go.Decimal.{digits, format_uint}
use bitcask_go.Decimal.RoundTrip.{parse-format_uint}
use bitcask_go.Fio
use bitcask_go.Fio.{
  Disk, FilePath, path_eq, or_empty, seq_no_file, contents, contents-insert, file_exists, open_file,
  new_io_manager, new_file_io_manager, write_file, sync_file, remove_file, file_io, stander_fio,
}
use bitcask_go.Data.Record.{encode_log_record}
use bitcask_go.Data.Record.RoundTrip.{IsFit, length-encode_log_record}
use bitcask_go.Data.File
use bitcask_go.Data.File.{DataFile, open_seq_no_file, new_datafile, read_log_record}
use bitcask_go.Data.File.Read.{read_log_record-append}
use bitcask_go.Index.{Indexer}
use bitcask_go.Db.State.{Db}
use bitcask_go.Db.Refine.Writes.{encode_log_record_size-lt}
use bitcask_go.Db.Load.Start.{new_db, load_seq_no}
use bitcask_go.Db.Close.{seq_no_record, save_seq_no, close_files, close_active, close}

abbrev seq_no_path : Bytes → FilePath
seq_no_path dir = record { dir = dir; name = seq_no_file }

-- A disk that answers every call.
abbrev pub working : Assoc FilePath Bytes → Disk
working files = record { files = files; answers = [] }

abbrev seq_no_bytes : ℕ → Bytes
seq_no_bytes n = (encode_log_record (seq_no_record n)).0

abbrev after_open : Assoc FilePath Bytes → FilePath → Assoc FilePath Bytes
after_open files p = insert p (contents (working files) p) files

abbrev touched : Assoc FilePath Bytes → Bytes → Assoc FilePath Bytes
touched files dir = after_open files (seq_no_path dir)

-- What Close makes of the files.
abbrev pub with_seq_no : Assoc FilePath Bytes → Bytes → ℕ → Assoc FilePath Bytes
with_seq_no files dir n =
    let p = seq_no_path dir in
    insert p (contents (working (after_open files p)) p ++ seq_no_bytes n) (after_open files p)

length-digits : (k n : ℕ) (rest : Bytes) → length (digits k n rest) ≤ k + length rest
unfolding digits
length-digits zero n rest = omega arith
length-digits (suc k) n rest = ground (arith, length-digits k (n / 10) ((b'0' + n % 10) ∷ rest))

seq_no_record-IsFit : (n : ℕ) → IsFit (seq_no_record n)
unfolding format_uint
seq_no_record-IsFit n = record {
  key_fits = omega arith;
  value_fits = omega (arith, length-digits 20 n []);
}

-- The file of the sequence number was not there, and holds its record now.
seq_no_written :
    (files : Assoc FilePath Bytes) (dir : Bytes) (n : ℕ)
    → lookup (seq_no_path dir) files ≡ none
    → lookup (seq_no_path dir) (with_seq_no files dir n) ≡ some (seq_no_bytes n)
unfolding contents
seq_no_written files dir n h =
    let p = seq_no_path dir in
    let empty : contents (working (after_open files p)) p ≡ [] =
      ap or_empty (lookup-insert_self p (contents (working files) p) files) ∙ ap or_empty h in
    lookup-insert_self p (contents (working (after_open files p)) p ++ seq_no_bytes n)
      (after_open files p)
    ∙ ap (λ (bs : Bytes). some (bs ++ seq_no_bytes n)) empty

seq_no_bytes-short : (n : ℕ) → length (seq_no_bytes n) < 2 ^ 62
seq_no_bytes-short n = omega (
  arith,
  length-encode_log_record (seq_no_record n),
  encode_log_record_size-lt (seq_no_record n) (seq_no_record-IsFit n),
)

-- loadSeqNo reads it.
abbrev opened_seq_no : Bytes → DataFile
opened_seq_no dir = record {
  file_id = 0;
  write_off = 0;
  io_manager = record { path = seq_no_path dir; kind = file_io };
}

read_seq_no :
    (d : Disk) (dir : Bytes) (n : ℕ)
    → contents d (seq_no_path dir) ≡ seq_no_bytes n
    → read_log_record (opened_seq_no dir) 0 d
      ≡ ok (seq_no_record n, (encode_log_record (seq_no_record n)).1)
read_seq_no d dir n e =
    read_log_record-append (opened_seq_no dir) d (seq_no_record n) [] []
      (e ∙ sym (append-nil (seq_no_bytes n))) (seq_no_record-IsFit n) (omega arith)
      (omega (arith, ap length e, seq_no_bytes-short n))

others_same :
    (files : Assoc FilePath Bytes) (dir : Bytes) (n : ℕ) (q : FilePath)
    → seq_no_path dir ≢ q
    → contents (working (remove (seq_no_path dir) (touched (with_seq_no files dir n) dir))) q
      ≡ contents (working files) q
unfolding contents
others_same files dir n q ne =
    let p = seq_no_path dir in
    let same : lookup q (remove p (touched (with_seq_no files dir n) dir)) ≡ lookup q files =
      lookup-remove p q (touched (with_seq_no files dir n) dir)
      ∙ rw (beq_ne p q ne) (
          lookup-insert_ne p q _ (with_seq_no files dir n) ne
          ∙ lookup-insert_ne p q _ (after_open files p) ne
          ∙ lookup-insert_ne p q _ files ne) in
    ap or_empty same

module _ {ix : Indexer} where
  abbrev pub on : Assoc FilePath Bytes → Db ix → Db ix
  on files db = record db { disk = working files }

  abbrev pub saved : Assoc FilePath Bytes → Db ix → Assoc FilePath Bytes
  saved files db = with_seq_no files db.options.dir_path db.seq_no

  save_seq_no-saved :
      (files : Assoc FilePath Bytes) (db : Db ix)
      → save_seq_no (on files db) ≡ (on (saved files db) db, ok tt)
  unfolding save_seq_no open_seq_no_file new_datafile new_io_manager new_file_io_manager open_file
      File.write Fio.write write_file File.sync Fio.sync sync_file
  save_seq_no-saved files db = refl

  close_files-working :
      (fs : List (ℕ × DataFile)) (files : Assoc FilePath Bytes) (db : Db ix)
      → close_files fs (on files db) ≡ (on files db, ok tt)
  unfolding close_files File.close Fio.close sync_file
  close_files-working [] files db = refl
  close_files-working ((i, f) ∷ fs) files db = close_files-working fs files db

  close-saved :
      (f : DataFile) (files : Assoc FilePath Bytes) (db : Db ix)
      → db.active_file ≡ some f
      → close (on files db) ≡ (on (saved files db) db, ok tt)
  unfolding close File.close Fio.close sync_file
  close-saved f files db e =
      let written : close_active (some f) (on files db) ≡ (on (saved files db) db, ok tt) =
        rw (save_seq_no-saved files db) (close_files-working db.older_files (saved files db) db) in
      ap (λ a. close_active a (on files db)) e ∙ written

  -- What a database is after loadSeqNo, from the files that Close left.
  pub record Resumed (n : ℕ) (db db' : Db ix) : Type 0 where
    pub seq_no : db'.seq_no ≡ n
    pub exists : db'.seq_no_file_exists ≡ true
    pub removed : file_exists db'.disk (seq_no_path db.options.dir_path) ≡ false
    pub others :
        (q : FilePath)
        → seq_no_path db.options.dir_path ≢ q
        → contents db'.disk q ≡ contents db.disk q

  abbrev resumed : ℕ → Assoc FilePath Bytes → Db ix → Db ix
  resumed n files db = record db {
    seq_no = n;
    seq_no_file_exists = true;
    disk = working (remove (seq_no_path db.options.dir_path) (touched files db.options.dir_path));
  }

  load_seq_no-resumed :
      (files : Assoc FilePath Bytes) (db : Db ix) (n : ℕ)
      → n < 2 ^ 64
      → lookup (seq_no_path db.options.dir_path) files ≡ some (seq_no_bytes n)
      → load_seq_no (on files db) ≡ (resumed n files db, ok tt)
  unfolding load_seq_no file_exists open_seq_no_file new_datafile new_io_manager new_file_io_manager
      open_file remove_file lookup remove
  load_seq_no-resumed files db n h e =
      let dir = db.options.dir_path in
      let there : contents (working (touched files dir)) (seq_no_path dir) ≡ seq_no_bytes n =
        unfold contents in
        (ap or_empty (
            lookup-insert_self (seq_no_path dir) (contents (working files) (seq_no_path dir)) files)
          ∙ ap or_empty e) in
      rw (e, read_seq_no (working (touched files dir)) dir n there, (parse-format_uint n h).0) refl

  resumed-Resumed :
      (files : Assoc FilePath Bytes) (db db0 : Db ix) (n : ℕ)
      → db0.options ≡ db.options
      → Resumed n (on files db) (
          resumed n (with_seq_no files db.options.dir_path n) (record db0 { options = db.options }))
  unfolding file_exists
  resumed-Resumed files db db0 n e =
      let p = seq_no_path db.options.dir_path in
      let gone : lookup p
            (remove p (touched (with_seq_no files db.options.dir_path n) db.options.dir_path))
          ≡ none =
        lookup-remove p p (touched (with_seq_no files db.options.dir_path n) db.options.dir_path)
        ∙ rw (beq_self p) refl in
      record {
        seq_no = refl;
        exists = refl;
        removed = ap (λ (o : Option Bytes). elim o [ none ↦ false | some bs ↦ true ]) gone;
        others = λ q ne. others_same files db.options.dir_path n q ne;
      }

  -- On a disk that answers every call, for a database with an active file and a uint64 sequence
  -- number in a directory without a file of the sequence number, Close returns without an
  -- error, and loadSeqNo of a database opened in that directory afterwards returns without an
  -- error, with the sequence number of the closed database; the file is removed again, and
  -- every other file has the contents from before Close.
  pub close-load_seq_no :
      (f : DataFile) (files : Assoc FilePath Bytes) (db : Db ix) (is_initial : Bool)
      (empty : ix.Index)
      → db.active_file ≡ some f
      → lookup (seq_no_path db.options.dir_path) files ≡ none
      → db.seq_no < 2 ^ 64
      → (closed db' : Db ix) × (close (on files db) ≡ (closed, ok tt))
        × (load_seq_no (new_db db.options is_initial closed.disk empty) ≡ (db', ok tt))
        × Resumed db.seq_no (on files db) db'
  close-load_seq_no f files db is_initial empty e h small =
      let db0 = new_db db.options is_initial (working (saved files db)) empty in
      (
        on (saved files db) db,
        resumed db.seq_no (saved files db) db0,
        close-saved f files db e,
        load_seq_no-resumed (saved files db) db0 db.seq_no small
            (seq_no_written files db.options.dir_path db.seq_no h),
        resumed-Resumed files db db0 db.seq_no refl,
      )
