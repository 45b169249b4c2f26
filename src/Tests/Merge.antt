-- ===== src/Tests/Merge.antt =====
-- LoadMergeFiles and the index over bbolt, at concrete inputs.
use bitcask_go.Common.{
  ◌≡◌, refl, true, false, Option, none, some, [], ◌∷◌, ◌++◌, Bytes, length, if◌then◌else◌, arith,
}
use bitcask_go.Common.Assoc.{Assoc, lookup, insert, remove}
use bitcask_go.Common.Assoc.Size.{IsMap}
use bitcask_go.Common.Eq.{◌=?◌, bytes_eq, bytes_beq}
use bitcask_go.Common.Result.{ok, err, panicked, merge_is_process, data_directory_corrupted}
use bitcask_go.Varint.{put_varint, varint}
use bitcask_go.Decimal.{atoi}
use bitcask_go.Fio.{
  FilePath, path_eq, or_empty, data_file, hint_file, merge_finished_file, lock_file, other_file,
}
use bitcask_go.Data.Record.{
  LogRecord, LogRecordPos, encode_log_record_pos, decode_log_record_pos, slice_from,
  log_record_normal, encode_log_record,
}
use bitcask_go.Data.Record.RoundTrip.{IsFit}
use bitcask_go.Index.ListIndex.{list_index}
use bitcask_go.Index.BPlusTree.{Bbolt, put}
use bitcask_go.Index.BPlusTree
use bitcask_go.Db.State.{Db}
use bitcask_go.Db.Merge.{Paths, get_merge_path, load_merge_files}
use bitcask_go.Db.Merge.Run.{Sizes, may_merge, merge}
use bitcask_go.Db.Open.{Answers}
use bitcask_go.Data.File.{DataFile}
use bitcask_go.Data.File.Laws.{opened}
use bitcask_go.Db.Merge.Moves.{HasFiles, path}
use bitcask_go.Db.Merge.Finished.{HoldsId}
use bitcask_go.Db.Merge.Adopted.{adopted, load_merge_files-adopted}
use bitcask_go.Db.Refine.Writes.{encode_log_record_size-lt}
use bitcask_go.Data.Record.RoundTrip.{length-encode_log_record}
use bitcask_go.Tests.Database.{fresh, a_key}

-- The paths of one level.
abbrev paths : Paths
paths = record {
  clean = λ p. p;
  dir = λ p. b'.' ∷ [];
  base = λ p. p;
  join = λ p q. p ++ (b'/' ∷ q);
}

abbrev merge_path : Bytes
merge_path = b'.' ∷ b'/' ∷ b'd' ∷ b'-' ∷ b'm' ∷ b'e' ∷ b'r' ∷ b'g' ∷ b'e' ∷ []

abbrev finished_record : LogRecord
finished_record = record { key = a_key; value = b'2' ∷ []; type = log_record_normal }

-- A merge of the files 0 and 1 into one; the file 2 is newer. Both directories have a lock file, and
-- the merge has the file of an index.
abbrev merged_files : Assoc FilePath Bytes
merged_files =
    (path (b'd' ∷ []) (data_file 0), 1 ∷ [])
    ∷ (path (b'd' ∷ []) (data_file 1), 2 ∷ [])
    ∷ (path (b'd' ∷ []) (data_file 2), 3 ∷ [])
    ∷ (path merge_path (data_file 0), 4 ∷ [])
    ∷ (path merge_path hint_file, 5 ∷ [])
    ∷ (path (b'd' ∷ []) lock_file, 6 ∷ [])
    ∷ (path merge_path lock_file, 7 ∷ [])
    ∷ (path merge_path (other_file (b'b' ∷ [])), 8 ∷ [])
    ∷ (path merge_path merge_finished_file, (encode_log_record finished_record).0)
    ∷ []

abbrev merged : Db list_index
merged = record fresh { disk = record { files = merged_files; answers = [] } }

merged_files-IsMap : IsMap merged_files
unfolding lookup bytes_beq
merged_files-IsMap = (refl, (refl, (refl, (refl, (refl, (refl, (refl, (refl, (refl, tt)))))))))

merge_path_is : get_merge_path paths (b'd' ∷ []) ≡ merge_path
unfolding get_merge_path
merge_path_is = refl

finished_record-IsFit : IsFit finished_record
finished_record-IsFit = record { key_fits = omega arith; value_fits = omega arith }

merged-HoldsId : HoldsId merged.disk (get_merge_path paths (b'd' ∷ [])) 2
unfolding get_merge_path lookup bytes_beq atoi
merged-HoldsId = record {
  kept = finished_record;
  fit = finished_record-IsFit;
  some_key = refl;
  is_there = refl;
  small = omega (
    arith,
    length-encode_log_record finished_record,
    encode_log_record_size-lt finished_record finished_record-IsFit,
  );
  number = refl;
  fits = omega arith;
}

apart : (get_merge_path paths (b'd' ∷ []) =? b'd' ∷ []) ≡ false
unfolding get_merge_path bytes_beq
apart = refl

load_merge_files-adopted_example :
    (d : _) × ((load_merge_files paths merged ≡ (record merged { disk = d }, ok tt))
      × HasFiles d (
          adopted
            (get_merge_path paths (b'd' ∷ []))
            (b'd' ∷ [])
            (some 2)
            (λ q. lookup q merged_files)))
load_merge_files-adopted_example =
    load_merge_files-adopted paths merged (some 2) apart refl merged_files-IsMap merged-HoldsId

-- A bucket as an association list. It uses the memory of a value again for the one that replaces it.
abbrev buckets : Bbolt
buckets = record {
  Bucket = Assoc Bytes Bytes;
  max_key_size = 32768;
  find = λ k t. or_empty (lookup k t);
  stale = λ k t t'. lookup k t';
  store = λ k v t. ok (insert k v t);
  remove = λ k t. ok (remove k t);
  key_n = λ t. length t;
}

abbrev old_pos : LogRecordPos
old_pos = record { fid = 1; offset = 40; size = 9 }

abbrev a_pos : LogRecordPos
a_pos = record { fid = 3; offset = 17; size = 12 }

abbrev old_bucket : Assoc Bytes Bytes
old_bucket = (a_key, encode_log_record_pos old_pos) ∷ []

abbrev old_positions : Bytes → Option LogRecordPos
old_positions j = if a_key =? j then some old_pos else none

-- The position that Put returns need not be the one that the map had.
stale_position : (put buckets a_key a_pos old_bucket).1 ≡ ok (some a_pos)
unfolding put BPlusTree.old_pos lookup insert bytes_beq encode_log_record_pos put_varint
    decode_log_record_pos slice_from varint
stale_position = refl

-- Merge of a database with an active file that is being merged, and of one without an active file.
abbrev a_file : DataFile
a_file = opened (b'd' ∷ []) 0

abbrev some_answers : Answers list_index
some_answers = record {
  missing = true;
  made = ok tt;
  hold = ok true;
  entries = ok 0;
  on_disk = panicked;
}

abbrev some_sizes : Sizes
some_sizes = record {
  dir_size = ok 100;
  available = ok 30;
  is_below = λ reclaim total ratio. false;
}

merging_refused :
    merge paths some_answers some_sizes
      (record merged { active_file = some a_file; is_merging = true })
    ≡ some (record merged { active_file = some a_file; is_merging = true }, err merge_is_process)
unfolding merge may_merge
merging_refused = refl

no_room :
    merge paths some_answers some_sizes (record merged { active_file = some a_file })
    ≡ some (record merged { active_file = some a_file }, err data_directory_corrupted)
unfolding merge may_merge
no_room = refl

nothing_to_merge : merge paths some_answers some_sizes merged ≡ some (merged, ok tt)
unfolding merge
nothing_to_merge = refl
