-- ===== src/Tests/Recovery.antt =====
-- Opening a directory again, at concrete inputs.
use bitcask_go.Common.{
  ℕ, ◌≡◌, refl, sym, ◌∙◌, ap, true, false, some, [], ◌∷◌, ◌++◌, length, ◌<◌, ◌^◌, ◌+◌, ◌==◌, arith,
  if◌then◌else◌, subst, Bool-cases, inl, inr, length-append,
}
use bitcask_go.Common.Assoc.{lookup}
use bitcask_go.Common.Eq.{bytes_eq, bytes_beq, ◌=?◌, bytes_beq_iff}
use bitcask_go.Common.Exec.Post.{Post}
use bitcask_go.Common.Result.{ok, panicked}
use bitcask_go.Varint.{u32}
use bitcask_go.Fio.{Disk, path_eq, contents, file_exists, file_io}
use bitcask_go.Data.Record.{LogRecordPos, encode_log_record}
use bitcask_go.Data.Record.RoundTrip.{length-encode_log_record}
use bitcask_go.Data.File.{DataFile, get_data_file_name}
use bitcask_go.Index.ListIndex.{list_index, to_items}
use bitcask_go.Db.State.{Db, file_of}
use bitcask_go.Db.Invariant.{IsWf, IsActive, bytes_of}
use bitcask_go.Db.Ops.{put, delete}
use bitcask_go.Db.Refine.{Stored, update, Refines}
use bitcask_go.Db.Refine.Writes.{encode_log_record_size-lt}
use bitcask_go.Db.Load.{sort_ints, data_file_ids}
use bitcask_go.Db.Load.Whole.{Opened, Restored, load_index-Restored}
use bitcask_go.Db.Load.Loop.{load_index_from_data_files, Loading, load_file}
use bitcask_go.Db.Load.Scan.{load_entries, load_file-log_bytes}
use bitcask_go.Db.Load.Start.{load_seq_no, new_db}
use bitcask_go.Db.Close.{close}
use bitcask_go.Db.Fold.{Visitor, fold, list_keys}
use bitcask_go.Db.Fold.Visits.{pairs_of, fold_pairs, fold-fold_pairs, list_keys-map}
use bitcask_go.Db.Close.RoundTrip.{on, Resumed, close-load_seq_no}
use bitcask_go.Db.Log.{
  nothing_recovered, recover, Logged, to_record, IsLogged, log_bytes, entries_from, all_entries,
  recover, recover_entry,
}
use bitcask_go.Db.Durable.Methods.{Durable, own, own-IsLogged, put-Durable, delete-Durable}
use bitcask_go.Db.Durable.Reopen.{Reopens}
use bitcask_go.Db.Open.{check_options, Answers, open_database}
use bitcask_go.Db.Open.Reopen.{open_database-Recoverable}
use bitcask_go.Db.Merge.{Paths, names_in, get_merge_path}
use bitcask_go.Db.Durable.Restart.{Recoverable}
use bitcask_go.Tests.Database.{fresh, fresh-IsWf, nothing, a_key, a_value}

pub fresh-Durable : Durable fresh
unfolding contents lookup log_bytes all_entries recover
fresh-Durable = record {
  log = [];
  has_log = record {
    olders = [];
    records = λ i. [];
    below = refl;
    bytes = λ i. refl;
    logged = λ i. tt;
    entries = refl;
  };
  shows = λ k. refl;
  quiet = λ n h. refl;
}

put-Durable_example : Post (λ _ db'. Durable db') (λ _. Unit) (put a_key a_value fresh)
put-Durable_example =
    put-Durable fresh fresh-Durable fresh-IsWf (omega arith) a_key a_value
      (record { key_fits = omega arith; value_fits = omega arith })

delete-Durable_example : Post (λ _ db'. Durable db') (λ _. Unit) (delete a_key fresh)
delete-Durable_example =
    delete-Durable fresh fresh-Durable fresh-IsWf (omega arith) a_key (omega arith)

-- A directory with one data file, which holds one record.
abbrev a_record : Logged
a_record = own a_key a_value 0

abbrev a_position : LogRecordPos
a_position = record { fid = 0; offset = 0; size = u32 (encode_log_record (to_record a_record)).1 }

abbrev one_file : Disk
one_file = record {
  files = (get_data_file_name (b'd' ∷ []) 0, log_bytes (a_record ∷ [])) ∷ [];
  answers = [];
}

abbrev the_file : DataFile
the_file = record {
  file_id = 0;
  write_off = length (log_bytes (a_record ∷ []));
  io_manager = record { path = get_data_file_name (b'd' ∷ []) 0; kind = file_io };
}

abbrev one_record : Db list_index
one_record = record fresh {
  active_file = some the_file;
  index = (a_key, a_position) ∷ [];
  disk = one_file;
}

a_record-IsLogged : IsLogged a_record
a_record-IsLogged =
    own-IsLogged a_key a_value 0 (record { key_fits = omega arith; value_fits = omega arith })

a_file-short : length (log_bytes (a_record ∷ [])) < 2 ^ 61
unfolding log_bytes
a_file-short = omega (
  arith,
  length-append (encode_log_record (to_record a_record)).0 [],
  length-encode_log_record (to_record a_record),
  encode_log_record_size-lt (to_record a_record) a_record-IsLogged.fit,
)

bytes_of_one : (i : ℕ) → bytes_of one_record i ≡ (if 0 == i then log_bytes (a_record ∷ []) else [])
unfolding contents lookup bytes_beq
bytes_of_one i = elim (Bool-cases (0 == i)) [ inl t ↦ rw t refl | inr t ↦ rw t refl ]

one_record-small : (i : ℕ) → length (bytes_of one_record i) < 2 ^ 61
one_record-small i = elim (Bool-cases (0 == i)) [
  | inl t ↦ rw (bytes_of_one i, t) a_file-short
  | inr t ↦ rw (bytes_of_one i, t) (omega arith)
]

one_record-IsWf : IsWf one_record
one_record-IsWf = record {
  active = λ f e.
      let same : the_file ≡ f = cc in
      subst (λ g. IsActive one_record g) same
        (record {
          named = refl;
          writable = refl;
          aligned = ap length (sym (bytes_of_one 0));
          id_fits = omega arith;
        });
  unused =
      λ i h. let later : (0 == i) ≡ false = ground (arith, h) in bytes_of_one i ∙ rw later refl;
  small = λ i. omega (arith, one_record-small i);
  room = omega arith;
}

a_value-Stored : Stored one_record a_key a_value a_position
unfolding file_of log_bytes
a_value-Stored = record {
  seq_no = 0;
  fit = a_record-IsLogged.fit;
  holds = record { before = []; after = []; splits = bytes_of_one 0; length_before = refl };
  is_open = record { file = the_file; found = refl; named = refl };
}

one_record-Refines : Refines one_record (update nothing a_key a_value)
unfolding lookup
one_record-Refines = record {
  entries = λ k. elim (Bool-cases (a_key =? k)) [
    | inl t ↦ rw t (
        subst (λ u. Stored one_record u a_value a_position) ((bytes_beq_iff a_key k).0 t)
          a_value-Stored)
    | inr t ↦ rw t tt
  ];
  small = λ i. omega (arith, one_record-small i);
}

one_record-Durable : Durable one_record
unfolding lookup recover recover_entry all_entries entries_from
one_record-Durable = record {
  log = (a_record, a_position) ∷ [];
  has_log = record {
    olders = [];
    records = λ i. if 0 == i then a_record ∷ [] else [];
    below = tt;
    bytes = λ i. elim (Bool-cases (0 == i)) [
      | inl t ↦ rw t (bytes_of_one i ∙ rw t refl)
      | inr t ↦ rw t (bytes_of_one i ∙ rw t (unfold log_bytes in refl))
    ];
    logged =
        λ i. elim (Bool-cases (0 == i)) [ inl t ↦ rw t (a_record-IsLogged, tt) | inr t ↦ rw t tt ];
    entries = refl;
  };
  shows = λ k. refl;
  quiet = λ n h. refl;
}

one_record-Reopens : Reopens one_record one_record-Durable.has_log.olders one_file []
unfolding one_record-Durable lookup file_exists sort_ints data_file_ids bytes_beq
one_record-Reopens = record {
  same = record { at = λ q. refl };
  healthy = refl;
  listing = refl;
  no_hint = refl;
  no_merge = refl;
  no_index = λ k. refl;
  in_memory = refl;
  unmapped = refl;
}

-- Open of the directory of that file: it is there, is not locked and has three entries.
abbrev granting : Answers list_index
granting = record {
  missing = false;
  made = ok tt;
  hold = ok true;
  entries = ok 3;
  on_disk = panicked;
}

abbrev plain_paths : Paths
plain_paths = record { clean = λ p. p; dir = λ p. p; base = λ p. p; join = λ p q. p ++ q }

one_record-valid : check_options one_record.options ≡ ok tt
unfolding check_options
one_record-valid = refl

no_merge_there :
    names_in (get_merge_path plain_paths one_record.options.dir_path) one_file.files ≡ []
unfolding names_in get_merge_path bytes_beq
no_merge_there = refl

open_database-Recoverable_example :
    (db' : Db list_index) × ((open_database plain_paths granting one_record.options one_file
        ≡ some (db'.disk, ok db'))
      × Recoverable (update nothing a_key a_value) db')
open_database-Recoverable_example =
    open_database-Recoverable plain_paths granting 3 one_record the_file
      (update nothing a_key a_value) one_file refl one_record-Durable one_record-IsWf
      one_record-Refines one_record-Reopens (record { there = refl; held = refl; listed = refl })
      one_record-valid refl no_merge_there

-- The loop over that file.
abbrev loading : Loading list_index
loading = record { db = fresh_on one_file; transaction_records = []; current_seq_no = 0 }
  where
    fresh_on : Disk → Db list_index
    fresh_on d = record fresh { disk = d }

load_file-log_bytes_example :
    load_file 2 0 the_file 0 loading
    ≡ some (
        ok (
          load_entries (entries_from 0 0 (a_record ∷ [])) loading,
          0 + length (log_bytes (a_record ∷ [])),
        ))
load_file-log_bytes_example =
    load_file-log_bytes (a_record ∷ []) 2 0 the_file [] loading (bytes_of_one 0)
      (a_record-IsLogged, tt) (omega (arith, one_record-small 0)) (omega arith)

-- The file is open, and the index is empty.
abbrev unloaded : Db list_index
unloaded = record one_record { file_ids = 0 ∷ []; index = [] }

unloaded-Opened : Opened (λ i. a_record ∷ []) 0 [] unloaded
unfolding lookup file_of file_exists bytes_beq
unloaded-Opened = record {
  file_ids = refl;
  holds = (
    record {
      is_open = record { file = the_file; found = refl; named = refl };
      bytes = bytes_of_one 0;
      logged = (a_record-IsLogged, tt);
      id_fits = omega arith;
    },
    tt,
  );
  small = λ i. omega (arith, one_record-small i);
  empty = λ k. refl;
  unmerged = refl;
}

load_index-Restored_example :
    (db' : Db list_index) × (load_index_from_data_files unloaded ≡ some (db', ok tt))
    × Restored
        (length (bytes_of unloaded 0))
        (recover (all_entries (λ i. a_record ∷ []) (0 ∷ [])) nothing_recovered)
        unloaded
        db'
load_index-Restored_example = load_index-Restored (λ i. a_record ∷ []) 0 [] unloaded unloaded-Opened

-- A database that has run five transactions.
abbrev five_transactions : Db list_index
five_transactions = record one_record { seq_no = 5 }

close-load_seq_no_example :
    (closed db' : Db list_index) × (close (on one_file.files five_transactions) ≡ (closed, ok tt))
    × (load_seq_no (new_db one_record.options false closed.disk []) ≡ (db', ok tt))
    × Resumed 5 (on one_file.files five_transactions) db'
unfolding lookup bytes_beq
close-load_seq_no_example =
    close-load_seq_no the_file one_file.files five_transactions false [] refl refl (omega arith)

-- Counts what it sees.
abbrev counting : Visitor ℕ
counting n k v = (n + 1, true)

fold-fold_pairs_example :
    fold counting 0 one_record
    ≡ some (
      fold_pairs counting 0 (pairs_of (update nothing a_key a_value) (to_items one_record.index)),
      ok tt,
    )
unfolding lookup bytes_beq
fold-fold_pairs_example =
    fold-fold_pairs counting one_record (update nothing a_key a_value) one_record-Refines 0
      (refl, tt)

list_keys-map_example : list_keys one_record ≡ some (ok (a_key ∷ []))
list_keys-map_example = list_keys-map one_record refl
