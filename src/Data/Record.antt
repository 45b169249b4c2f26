-- ===== src/Data/Record.antt =====
-- data/log_record.go: the records of a data file, their header and their encoding.
pub mod RoundTrip
use bitcask_go.Common.{
  ℕ, ◌+◌, ◌%◌, ◌^◌, Option, none, some, ◌∷◌, ◌++◌, Bytes, length, take, drop, get_or, leb, ltb,
  if◌then◌else◌,
}
use bitcask_go.Common.Result.{Res, ok, panicked, ◌>>=◌}
use bitcask_go.Varint.{put_varint, varint, u32}
use bitcask_go.Varint.LittleEndian.{put_uint32, le_value}
use bitcask_go.Crc.{checksum_ieee, update}

abbrev pub LogRecordType : Type 0
LogRecordType = ℕ

abbrev pub log_record_normal : LogRecordType
log_record_normal = 0

abbrev pub log_record_deleted : LogRecordType
log_record_deleted = 1

abbrev pub log_record_txn_finished : LogRecordType
log_record_txn_finished = 2

-- binary.MaxVarintLen32*2 + 5
abbrev pub max_log_record_header_size : ℕ
max_log_record_header_size = 15

pub record LogRecord : Type 0 where
  pub key : Bytes
  pub value : Bytes
  pub type : LogRecordType

-- Where a record lies. The offset is an int64, as a 64-bit word.
pub record LogRecordPos : Type 0 where
  pub fid : ℕ
  pub offset : ℕ
  pub size : ℕ

pub record TransactionRecord : Type 0 where
  pub record_of : LogRecord
  pub pos : LogRecordPos

pub record LogRecordHeader : Type 0 where
  pub crc : ℕ
  pub record_type : LogRecordType
  pub key_size : ℕ
  pub value_size : ℕ

-- header[4:index]: the type and the two lengths
unfoldable pub header_tail : LogRecord → Bytes
header_tail r = r.type ∷ put_varint (length r.key) ++ put_varint (length r.value)

-- encBytes[4:], which the checksum covers
unfoldable pub checked_bytes : LogRecord → Bytes
checked_bytes r = header_tail r ++ (r.key ++ r.value)

unfoldable pub encode_log_record : LogRecord → Bytes × ℕ
encode_log_record r =
    let index = 5 + length (put_varint (length r.key)) + length (put_varint (length r.value)) in
    let size = index + length r.key + length r.value in
    (put_uint32 (checksum_ieee (checked_bytes r)) ++ checked_bytes r, size)

unfoldable pub encode_log_record_pos : LogRecordPos → Bytes
encode_log_record_pos pos = put_varint pos.fid ++ (put_varint pos.offset ++ put_varint pos.size)

-- buf[index:] of a slice, where a negative index is a word of 2 ^ 63 and more
unfoldable pub slice_from : ℕ → Bytes → Res Bytes
slice_from index buf = if ltb (length buf) index then panicked else ok (drop index buf)

unfoldable pub decode_log_record_pos : Bytes → Res LogRecordPos
decode_log_record_pos buf = do
  let fid = varint buf
  let index = fid.1
  rest ← slice_from index buf
  let offset = varint rest
  let index' = (index + offset.1) % 2 ^ 64
  rest' ← slice_from index' buf
  let size = varint rest'
  ok (record { fid = u32 fid.0; offset = offset.0; size = u32 size.0 })

-- The header, or nil, and its length.
unfoldable pub decode_log_record_header : Bytes → Res (Option LogRecordHeader × ℕ)
decode_log_record_header buf = if leb (length buf) 4 then ok (none, 0) else do
  let crc = le_value (take 4 buf)
  let record_type = get_or buf 4 0
  rest ← slice_from 5 buf
  let key_size = varint rest
  let index = (5 + key_size.1) % 2 ^ 64
  rest' ← slice_from index buf
  let value_size = varint rest'
  let header : LogRecordHeader = record {
    crc = crc;
    record_type = record_type;
    key_size = u32 key_size.0;
    value_size = u32 value_size.0;
  }
  ok (some header, (index + value_size.1) % 2 ^ 64)

unfoldable pub get_log_record_crc : Option LogRecord → Bytes → ℕ
get_log_record_crc none header = 0
get_log_record_crc (some r) header = update (update (checksum_ieee header) r.key) r.value
