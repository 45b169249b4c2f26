-- ===== src/Tests/Redis.antt =====
-- The Redis structures, at concrete inputs.
use bitcask_go.Common.{
  Bool, true, false, sym, append-nil, ◌<◌, ◌++◌, ◌+◌, ◌-◌, ◌^◌, ◌≤◌, ◌≡◌, refl, some, none, [], ◌∷◌,
  length, ◌==◌, if◌then◌else◌, arith,
}
use bitcask_go.Common.Result.{ok, err, key_expired}
use bitcask_go.Common.Eq.{bytes_beq, ◌=?◌}
use bitcask_go.Common.Exec.Post.{Post}
use bitcask_go.Common.Assoc.{lookup}
use bitcask_go.Fio.{contents, or_empty, path_eq}
use bitcask_go.Varint.{put_varint, varint}
use bitcask_go.Data.Record.{slice_from}
use bitcask_go.Data.Record.{LogRecord, LogRecordPos, encode_log_record}
use bitcask_go.Data.Record.RoundTrip.{length-encode_log_record}
use bitcask_go.Data.File.{get_data_file_name}
use bitcask_go.Data.File.Laws.{opened}
use bitcask_go.Db.State.{file_of}
use bitcask_go.Db.Invariant.{IsSmall, bytes_of}
use bitcask_go.Db.Refine.{Stored, value_record, update}
use bitcask_go.Db.Refine.Writes.{
  reindexed, Refines-put, value_record-IsFit, encode_log_record_size-lt, IsStorable,
}
use bitcask_go.Redis.Meta.{
  Metadata, HashInternalKey, first_byte, list_type, encode_metadata, decode_metadata,
  encode_hash_key, decode_hash_key, max_metadata_size, extra_list_size,
}
use bitcask_go.Redis.Meta.RoundTrip.{
  IsMetadata, decode-encode_metadata, length-encode_metadata, decode-encode_hash_key,
}
use bitcask_go.Redis.Types.{encode_string, decode_string, set, get, find_metadata}
use bitcask_go.Redis.Types.Strings.{set-Post, find_metadata-Refines, empty_metadata}
use bitcask_go.Db.State.{Db}
use bitcask_go.Db.Refine.{Refines}
use bitcask_go.Index.ListIndex.{list_index}
use bitcask_go.Tests.Database.{fresh, nothing, fresh-Refines, fresh-IsWf, a_key, a_value}

abbrev a_list : Metadata
a_list = record {
  data_type = list_type;
  expire = 2 ^ 62;
  version = 1700000000;
  size = 300;
  head = 2 ^ 63 - 2;
  tail = 2 ^ 63 + 297;
}

a_list-IsMetadata : IsMetadata a_list
a_list-IsMetadata = record {
  expire = omega arith;
  version = omega arith;
  size = omega arith;
  head = omega arith;
  tail = omega arith;
  unmarked = λ e. cc;
}

decode-encode_metadata_example : decode_metadata (encode_metadata a_list) ≡ ok a_list
decode-encode_metadata_example = decode-encode_metadata a_list a_list-IsMetadata

length-encode_metadata_example : length (encode_metadata a_list) ≤ (
    if a_list.data_type == list_type
    then max_metadata_size + extra_list_size
    else max_metadata_size)
length-encode_metadata_example = length-encode_metadata a_list (omega arith)

abbrev a_field : HashInternalKey
a_field = record { key = a_key; version = 1700000000; field = b'f' ∷ [] }

decode-encode_hash_key_example : decode_hash_key (encode_hash_key a_field) 1 ≡ ok a_field
decode-encode_hash_key_example = decode-encode_hash_key a_field (omega arith)

-- A string with an expiry, and its end.
expired_string : decode_string 101 (encode_string 100 a_value) ≡ err key_expired
unfolding decode_string encode_string put_varint first_byte slice_from varint
expired_string = refl

live_string : decode_string 100 (encode_string 100 a_value) ≡ ok a_value
unfolding decode_string encode_string put_varint first_byte slice_from varint
live_string = refl

set-Post_example :
    Post
      (λ _ db'. get a_key 106 db' ≡ err key_expired)
      (λ db'. Refines db' nothing)
      (set a_key 5 (some a_value) 100 fresh)
set-Post_example =
    set-Post fresh nothing fresh-Refines fresh-IsWf (omega arith) a_key a_value 5 100 refl
      (omega arith) (omega arith) (omega arith) 106 (omega arith)

-- A database of one file, with the record of the metadata of a list.
abbrev list_record : LogRecord
list_record = value_record a_key 0 (encode_metadata a_list)

abbrev holding_file : Db list_index
holding_file = record fresh {
  active_file = some (opened (b'd' ∷ []) 0);
  disk = record {
    files = (get_data_file_name (b'd' ∷ []) 0, (encode_log_record list_record).0) ∷ [];
    answers = [];
  };
}

abbrev list_pos : LogRecordPos
list_pos = record { fid = 0; offset = 0; size = 50 }

abbrev holding : Db list_index
holding = reindexed (list_index.put a_key list_pos holding_file.index).0 0 holding_file

a_list-IsStorable : IsStorable a_key (encode_metadata a_list)
a_list-IsStorable = record {
  key_fits = omega arith;
  value_fits = omega (arith, length-encode_metadata a_list (omega arith));
}

list_record_small : length (encode_log_record list_record).0 < 2 ^ 62
list_record_small = omega (
  arith,
  length-encode_log_record list_record,
  encode_log_record_size-lt list_record
      (value_record-IsFit a_key (encode_metadata a_list) 0 a_list-IsStorable),
)

holding_file-IsSmall : IsSmall holding_file
unfolding contents lookup
holding_file-IsSmall i = only (get_data_file_name (b'd' ∷ []) 0 =? get_data_file_name (b'd' ∷ []) i)
  where
    only :
        (b : Bool)
        → length (or_empty (if b then some (encode_log_record list_record).0 else none)) < 2 ^ 62
    only true = list_record_small
    only false = omega arith

list_splits : bytes_of holding_file 0 ≡ (encode_log_record list_record).0 ++ []
unfolding contents lookup bytes_beq
list_splits = sym (append-nil (encode_log_record list_record).0)

list_found : file_of (opened (b'd' ∷ []) 0) 0 holding_file ≡ some (opened (b'd' ∷ []) 0)
unfolding file_of
list_found = refl

list-Stored : Stored holding_file a_key (encode_metadata a_list) list_pos
list-Stored = record {
  seq_no = 0;
  fit = value_record-IsFit a_key (encode_metadata a_list) 0 a_list-IsStorable;
  holds = record { before = []; after = []; splits = list_splits; length_before = refl };
  is_open = record { file = opened (b'd' ∷ []) 0; found = list_found; named = refl };
}

holding-Refines : Refines holding (update nothing a_key (encode_metadata a_list))
unfolding lookup
holding-Refines =
    Refines-put holding_file nothing a_key (encode_metadata a_list) list_pos 0
      (record { entries = λ k. tt; small = holding_file-IsSmall })
      (record { fid = omega arith; offset = omega arith; size = omega arith }) list-Stored

a_key_updated : update nothing a_key (encode_metadata a_list) a_key ≡ some (encode_metadata a_list)
unfolding bytes_beq
a_key_updated = refl

-- At the time of the expiry the list has expired.
find_metadata-Refines_example :
    find_metadata a_key list_type (2 ^ 62) 5 holding ≡ ok (empty_metadata list_type 5)
find_metadata-Refines_example =
    find_metadata-Refines holding (update nothing a_key (encode_metadata a_list)) a_key
      (some a_list) list_type (2 ^ 62) 5 holding-Refines refl
      (a_key_updated, (a_list-IsMetadata, omega arith)) (omega arith)
