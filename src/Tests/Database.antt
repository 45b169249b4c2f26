-- ===== src/Tests/Database.antt =====
-- The database, at concrete inputs.
use bitcask_go.Common.{◌≡◌, ◌≢◌, refl, none, false, [], ◌∷◌, Bytes, arith}
use bitcask_go.Common.Assoc.{lookup}
use bitcask_go.Common.Exec.Post.{Post}
use bitcask_go.Common.Result.{ok}
use bitcask_go.Db.Refine.Returns.{put-get}
use bitcask_go.Fio.{done, failed, contents}
use bitcask_go.Index.{art}
use bitcask_go.Index.ListIndex.{list_index}
use bitcask_go.Db.State.{Db}
use bitcask_go.Db.Invariant.{IsWf, Extends}
use bitcask_go.Db.Append.{append_log_record}
use bitcask_go.Db.Append.Whole.{Appended, append_log_record-Post}
use bitcask_go.Db.Ops.{put, get, delete}
use bitcask_go.Db.Refine.{Contents, update, erase, lookup_contents, value_record, Refines}
use bitcask_go.Db.Refine.Reads.{get-Refines}
use bitcask_go.Db.Refine.Writes.{IsStorable, value_record-IsFit, encode_log_record_size-lt}
use bitcask_go.Db.Refine.Methods.{Holds, put-Post, delete-Post}

-- A database in an empty directory; the second call to the disk fails after three bytes.
abbrev pub fresh : Db list_index
fresh = record {
  options = record {
    dir_path = b'd' ∷ [];
    data_file_size = 268435456;
    sync_writes = false;
    bytes_per_sync = 0;
    indexer_type = art;
    mmap_at_startup = false;
    data_file_merge_ratio = 1056964608;
  };
  file_ids = [];
  active_file = none;
  older_files = [];
  index = [];
  seq_no = 0;
  is_merging = false;
  seq_no_file_exists = false;
  is_initial = false;
  bytes_write = 0;
  reclaim_size = 0;
  disk = record { files = []; answers = done ∷ failed 3 ∷ [] };
}

abbrev pub nothing : Contents
nothing k = none

pub fresh-IsWf : IsWf fresh
unfolding contents lookup
fresh-IsWf = record {
  active = λ f e. cc;
  unused = λ i h. refl;
  small = λ i. omega arith;
  room = omega arith;
}

pub fresh-Refines : Refines fresh nothing
unfolding contents lookup
fresh-Refines = record { entries = λ k. tt; small = λ i. omega arith }

abbrev pub a_key : Bytes
a_key = b'k' ∷ []

abbrev pub a_value : Bytes
a_value = 1 ∷ 2 ∷ []

pub a_key-IsStorable : IsStorable a_key a_value
a_key-IsStorable = record { key_fits = omega arith; value_fits = omega arith }

append_log_record-Post_example :
    Post
      (λ pos db'. Appended (value_record a_key 0 a_value) fresh pos db')
      (λ db'. Extends fresh db')
      (append_log_record (value_record a_key 0 a_value) fresh)
append_log_record-Post_example =
    append_log_record-Post (value_record a_key 0 a_value) fresh fresh-IsWf (omega arith) (
      encode_log_record_size-lt (value_record a_key 0 a_value)
        (value_record-IsFit a_key a_value 0 a_key-IsStorable))

put-Post_example :
    Post
      (λ _ db'. Holds (update nothing a_key a_value) fresh db')
      (λ db'. Refines db' nothing)
      (put a_key a_value fresh)
put-Post_example =
    put-Post fresh nothing fresh-Refines fresh-IsWf (omega arith) a_key a_value a_key-IsStorable

delete-Post_example :
    Post
      (λ _ db'. Holds (erase nothing a_key) fresh db')
      (λ db'. Refines db' nothing)
      (delete a_key fresh)
delete-Post_example =
    delete-Post fresh nothing fresh-Refines fresh-IsWf (omega arith) a_key (omega arith)

get-Refines_example : get a_key fresh ≡ lookup_contents nothing a_key
get-Refines_example = get-Refines fresh nothing a_key fresh-Refines

-- The same directory on a disk that answers every call.
abbrev pub working : Db list_index
working = record fresh { disk = record { files = []; answers = [] } }

pub working-IsWf : IsWf working
unfolding contents lookup
working-IsWf = record {
  active = λ f e. cc;
  unused = λ i h. refl;
  small = λ i. omega arith;
  room = omega arith;
}

pub working-Refines : Refines working nothing
unfolding contents lookup
working-Refines = record { entries = λ k. tt; small = λ i. omega arith }

put-get_example :
    Post
      (λ _ db'.
        (get a_key db' ≡ ok a_value) × ((j : Bytes) → a_key ≢ j → get j db' ≡ get j working))
      (λ _. ⊥)
      (put a_key a_value working)
put-get_example =
    put-get working nothing working-Refines working-IsWf (omega arith) refl a_key a_value refl
      a_key-IsStorable
