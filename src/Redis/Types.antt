-- ===== src/Redis/Types.antt =====
-- redis/types.go and redis/generic.go: the string commands and findMetadata, over the methods of the
-- database. `now` is what time.Now().UnixNano() answers, and a time to live is in nanoseconds.
pub mod Strings
use bitcask_go.Common.{
  ℕ, ◌+◌, ◌%◌, ◌^◌, Bool, ◌&&◌, not, Option, none, some, [], ◌∷◌, ◌++◌, Bytes, length, ◌==◌,
  if◌then◌else◌,
}
use bitcask_go.Common.Result
use bitcask_go.Common.Result.{
  Res, ok, err, panicked, ◌>>=◌, key_not_found, wrong_type_operation, key_expired, value_is_null,
}
use bitcask_go.Common.Exec.{Exec, pure}
use bitcask_go.Varint.{put_varint, varint, signed_lt}
use bitcask_go.Data.Record.{slice_from}
use bitcask_go.Index.{Indexer}
use bitcask_go.Db.State.{Db}
use bitcask_go.Db.Ops
use bitcask_go.Redis.Meta.{
  string_type, list_type, initial_list_mark, Metadata, first_byte, decode_metadata,
}

-- 0 stands for no expiry.
unfoldable pub expire_of : ℕ → ℕ → ℕ
expire_of ttl now = if ttl == 0 then 0 else (now + ttl) % 2 ^ 64

-- type, expiry and payload
unfoldable pub encode_string : ℕ → Bytes → Bytes
encode_string expire value = string_type ∷ (put_varint expire ++ value)

abbrev pub string_expired : ℕ → ℕ → Bool
string_expired expire now = signed_lt 0 expire && signed_lt expire now

unfoldable pub decode_string : ℕ → Bytes → Res Bytes
decode_string now enc_value = do
  data_type ← first_byte enc_value
  if not (data_type == string_type) then err wrong_type_operation else do
    rest ← slice_from 1 enc_value
    let expire = varint rest
    let index = (1 + expire.1) % 2 ^ 64
    if string_expired expire.0 now then err key_expired else slice_from index enc_value

abbrev pub metadata_expired : Metadata → ℕ → Bool
metadata_expired md now = signed_lt 0 md.expire && not (signed_lt now md.expire)

unfoldable pub new_metadata : ℕ → ℕ → Metadata
new_metadata data_type version =
    let mark = if data_type == list_type then initial_list_mark else 0 in
    record {
      data_type = data_type;
      expire = 0;
      version = version;
      size = 0;
      head = mark;
      tail = mark;
    }

-- the metadata that was read, where it is of the right type and has not expired
abbrev pub usable_metadata : ℕ → ℕ → ℕ → Metadata → Res Metadata
usable_metadata data_type now version md =
    if not (md.data_type == data_type)
    then err wrong_type_operation
    else if metadata_expired md now
    then ok (new_metadata data_type version)
    else ok md

-- How findMetadata goes on with what the database answered.
unfoldable pub metadata_of : ℕ → ℕ → ℕ → Res Bytes → Res Metadata
metadata_of data_type now version (ok buf) =
    decode_metadata buf >>= usable_metadata data_type now version
metadata_of data_type now version (err key_not_found) = ok (new_metadata data_type version)
metadata_of data_type now version (err e) = err e
metadata_of data_type now version panicked = panicked

-- the type of a value
abbrev pub type_of : Bytes → Res ℕ
type_of [] = err value_is_null
type_of (b ∷ bs) = ok b

module _ {ix : Indexer} where
  unfoldable pub set : Bytes → ℕ → Option Bytes → ℕ → Exec (Db ix) (Unit {0})
  set key ttl none now = pure tt
  set key ttl (some value) now = Ops.put key (encode_string (expire_of ttl now) value)

  unfoldable pub get : Bytes → ℕ → Db ix → Res Bytes
  get key now db = Ops.get key db >>= decode_string now

  unfoldable pub delete : Bytes → Exec (Db ix) (Unit {0})
  delete key = Ops.delete key

  unfoldable pub type : Bytes → Db ix → Res ℕ
  type key db = Ops.get key db >>= type_of

  -- `version` is the time that the version of new metadata is made from.
  unfoldable pub find_metadata : Bytes → ℕ → ℕ → ℕ → Db ix → Res Metadata
  find_metadata key data_type now version db = metadata_of data_type now version (Ops.get key db)
