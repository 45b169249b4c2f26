-- ===== src/Redis/Meta.antt =====
-- redis/meta.go: the metadata of a key and the database keys of the parts of a hash, a set, a list
-- and a sorted set.
pub mod RoundTrip
use bitcask_go.Common.{
  ℕ, ◌+◌, ◌-◌, ◌%◌, ◌^◌, Bool, [], ◌∷◌, ◌++◌, Bytes, length, take, ltb, ◌==◌, if◌then◌else◌,
}
use bitcask_go.Common.Result.{Res, ok, panicked, ◌>>=◌}
use bitcask_go.Varint.{put_varint, put_uvarint, varint, uvarint, u32}
use bitcask_go.Varint.LittleEndian.{put_uint32, put_uint64, le_value}
use bitcask_go.Data.Record.{slice_from}

-- redisDataType of redis/types.go
abbrev pub string_type : ℕ
string_type = 0

abbrev pub hash_type : ℕ
hash_type = 1

abbrev pub set_type : ℕ
set_type = 2

abbrev pub list_type : ℕ
list_type = 3

abbrev pub zset_type : ℕ
zset_type = 4

-- 1 + binary.MaxVarintLen64*2 + binary.MaxVarintLen32
abbrev pub max_metadata_size : ℕ
max_metadata_size = 26

-- binary.MaxVarintLen64 * 2
abbrev pub extra_list_size : ℕ
extra_list_size = 20

abbrev pub initial_list_mark : ℕ
initial_list_mark = 2 ^ 63 - 1

pub record Metadata : Type 0 where
  pub data_type : ℕ
  pub expire : ℕ
  pub version : ℕ
  pub size : ℕ
  pub head : ℕ
  pub tail : ℕ

-- the part that only a list has
unfoldable pub encode_list_marks : Metadata → Bytes
encode_list_marks md =
    if md.data_type == list_type then put_uvarint md.head ++ put_uvarint md.tail else []

unfoldable pub encode_metadata : Metadata → Bytes
encode_metadata md =
    md.data_type
    ∷ (put_varint md.expire
        ++ (put_varint md.version ++ (put_varint md.size ++ encode_list_marks md)))

-- buf[0]
unfoldable pub first_byte : Bytes → Res ℕ
first_byte [] = panicked
first_byte (b ∷ bs) = ok b

unfoldable pub decode_list_marks : ℕ → ℕ → Bytes → Res (ℕ × ℕ)
decode_list_marks data_type index buf =
    if data_type == list_type
    then (do
      rest ← slice_from index buf
      let head = uvarint rest
      let index' = (index + head.1) % 2 ^ 64
      rest' ← slice_from index' buf
      let tail = uvarint rest'
      ok (head.0, tail.0))
    else ok (0, 0)

unfoldable pub decode_metadata : Bytes → Res Metadata
decode_metadata buf = do
  data_type ← first_byte buf
  rest ← slice_from 1 buf
  let expire = varint rest
  let index = (1 + expire.1) % 2 ^ 64
  rest' ← slice_from index buf
  let version = varint rest'
  let index' = (index + version.1) % 2 ^ 64
  rest'' ← slice_from index' buf
  let size = varint rest''
  let index'' = (index' + size.1) % 2 ^ 64
  marks ← decode_list_marks data_type index'' buf
  ok (record {
    data_type = data_type;
    expire = expire.0;
    version = version.0;
    size = u32 size.0;
    head = marks.0;
    tail = marks.1;
  })

pub record HashInternalKey : Type 0 where
  pub key : Bytes
  pub version : ℕ
  pub field : Bytes

-- The key and the version of a hash, which the keys of all its fields begin with.
unfoldable pub encode_hash_prefix : HashInternalKey → Bytes
encode_hash_prefix hk = hk.key ++ put_uint64 hk.version

unfoldable pub encode_hash_key : HashInternalKey → Bytes
encode_hash_key hk = hk.key ++ (put_uint64 hk.version ++ hk.field)

-- encKey[low:high], with the capacity taken as the length
unfoldable pub slice_to : ℕ → Bytes → Res Bytes
slice_to n buf = if ltb (length buf) n then panicked else ok (take n buf)

unfoldable pub decode_hash_key : Bytes → ℕ → Res HashInternalKey
decode_hash_key enc_key key_len = do
  key ← slice_to key_len enc_key
  rest ← slice_from key_len enc_key
  version ← slice_to 8 rest
  field ← slice_from 8 rest
  ok (record { key = key; version = le_value version; field = field })

pub record SetInternalKey : Type 0 where
  pub key : Bytes
  pub version : ℕ
  pub member : Bytes

unfoldable pub encode_set_key : SetInternalKey → Bytes
encode_set_key sk = sk.key ++ (put_uint64 sk.version ++ sk.member)

pub record ListInternalKey : Type 0 where
  pub key : Bytes
  pub version : ℕ
  pub index : ℕ

unfoldable pub encode_list_key : ListInternalKey → Bytes
encode_list_key lk = lk.key ++ (put_uint64 lk.version ++ put_uint64 lk.index)

-- A float64 is what strconv formats and parses.
pub record ZsetInternalKey (Float : Type 0) : Type 0 where
  pub key : Bytes
  pub version : ℕ
  pub member : Bytes
  pub score : Float

module _ {Float : Type 0} (float_to_bytes : Float → Bytes) where
  -- The length of the member stands last.
  unfoldable pub encode_with_score : ZsetInternalKey Float → Bytes
  encode_with_score zk =
      zk.key
      ++ (put_uint64 zk.version
          ++ (float_to_bytes zk.score ++ (zk.member ++ put_uint32 (length zk.member))))

unfoldable pub encode_with_member : {Float : Type 0} → ZsetInternalKey Float → Bytes
encode_with_member zk = zk.key ++ (put_uint64 zk.version ++ zk.member)
