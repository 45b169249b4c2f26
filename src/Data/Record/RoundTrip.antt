-- ===== src/Data/Record/RoundTrip.antt =====
-- Decoding what data/log_record.go encoded.
use bitcask_go.Common.{
  ℕ, suc, ◌+◌, ◌/◌, ◌%◌, ◌^◌, ◌≤◌, ◌<◌, ◌≡◌, refl, ap, append-nil, some, false, [], ◌∷◌, ◌++◌,
  Bytes, length, leb, arith, append_assoc, length-append, drop-append, ltb-false,
}
use bitcask_go.Common.Result.{ok}
use bitcask_go.Varint.{IsU64, put_varint, varint, u32}
use bitcask_go.Varint.RoundTrip.{varint-put_varint, length-put_varint, length-put_varint_small}
use bitcask_go.Varint.LittleEndian.{
  put_uint32, le_bytes, le_value, le_value-le_bytes, length-le_bytes,
}
use bitcask_go.Crc.{checksum_ieee, update, update-append, update-lt}
use bitcask_go.Data.Record.{
  LogRecord, LogRecordPos, header_tail, checked_bytes, encode_log_record, encode_log_record_pos,
  slice_from, decode_log_record_pos, decode_log_record_header, get_log_record_crc,
  max_log_record_header_size,
}

-- A slice behind a prefix of known length.
pub slice_from-append : (xs ys : Bytes) (n : ℕ) → length xs ≡ n → slice_from n (xs ++ ys) ≡ ok ys
unfolding slice_from
slice_from-append xs ys n h =
    rw (ltb-false (length (xs ++ ys)) n (omega (arith, length-append xs ys)))
      (ap ok (drop-append n xs ys h))

-- The lengths that a header can hold: both are uint32.
pub record IsFit (r : LogRecord) : Type 0 where
  pub key_fits : length r.key < 2 ^ 32
  pub value_fits : length r.value < 2 ^ 32

pub length-header_tail :
    (r : LogRecord)
    → length (header_tail r)
      ≡ 1 + length (put_varint (length r.key)) + length (put_varint (length r.value))
unfolding header_tail
length-header_tail r =
    omega (arith, length-append (put_varint (length r.key)) (put_varint (length r.value)))

-- For a key and a value below 2 ^ 32 bytes the header that EncodeLogRecord writes has at least
-- 7 bytes and at most maxLogRecordHeaderSize.
pub header_size_bounds :
    (r : LogRecord)
    → IsFit r
    → (4 + length (header_tail r) ≤ max_log_record_header_size) × (7 ≤ 4 + length (header_tail r))
header_size_bounds r fit = omega (
  arith,
  length-header_tail r,
  length-put_varint_small (length r.key) (omega (arith, fit.key_fits)),
  length-put_varint_small (length r.value) (omega (arith, fit.value_fits)),
  length-put_varint (length r.key),
  length-put_varint (length r.value),
)

-- The size that EncodeLogRecord returns is the number of bytes that it returns.
pub length-encode_log_record :
    (r : LogRecord) → length (encode_log_record r).0 ≡ (encode_log_record r).1
unfolding encode_log_record
length-encode_log_record r =
    unfold checked_bytes in
    omega (
      arith,
      length-le_bytes 4 (checksum_ieee (checked_bytes r)),
      length-append (put_uint32 (checksum_ieee (checked_bytes r))) (checked_bytes r),
      length-append (header_tail r) (r.key ++ r.value),
      length-append r.key r.value,
      length-header_tail r,
    )

pub encode_log_record_size :
    (r : LogRecord)
    → (encode_log_record r).1 ≡ 4 + length (header_tail r) + length r.key + length r.value
unfolding encode_log_record
encode_log_record_size r = omega (arith, length-header_tail r)

-- A header whose two lengths are known to be read back.
decode-header_bytes :
    (c0 c1 c2 c3 t ks vs : ℕ) (vk vv rest : Bytes)
    → varint (vk ++ (vv ++ rest)) ≡ (ks, length vk)
    → varint (vv ++ rest) ≡ (vs, length vv)
    → length vk ≤ 10
    → length vv ≤ 10
    → decode_log_record_header (c0 ∷ c1 ∷ c2 ∷ c3 ∷ t ∷ (vk ++ (vv ++ rest)))
      ≡ ok (
        some (record {
          crc = le_value (c0 ∷ c1 ∷ c2 ∷ c3 ∷ []);
          record_type = t;
          key_size = u32 ks;
          value_size = u32 vs;
        }),
        5 + length vk + length vv,
      )
unfolding decode_log_record_header
decode-header_bytes c0 c1 c2 c3 t ks vs vk vv rest hk hv lk lv =
    let long : leb (length (c0 ∷ c1 ∷ c2 ∷ c3 ∷ t ∷ (vk ++ (vv ++ rest)))) 4 ≡ false =
      ground arith in
    let index : (5 + length vk) % 2 ^ 64 ≡ 5 + length vk = omega arith in
    let index' : (5 + length vk + length vv) % 2 ^ 64 ≡ 5 + length vk + length vv = omega arith in
    rw (
      long,
      slice_from-append (c0 ∷ c1 ∷ c2 ∷ c3 ∷ t ∷ []) (vk ++ (vv ++ rest)) 5 refl,
      hk,
      index,
      slice_from-append (c0 ∷ c1 ∷ c2 ∷ c3 ∷ t ∷ vk) (vv ++ rest) (5 + length vk) (omega arith),
      hv,
      index',
    )

-- What a decoder finds in a header, whatever follows it.
pub decode-header :
    (c : ℕ) (r : LogRecord) (rest : Bytes)
    → c < 2 ^ 32
    → IsFit r
    → decode_log_record_header (put_uint32 c ++ (header_tail r ++ rest))
      ≡ ok (
        some (record {
          crc = c;
          record_type = r.type;
          key_size = length r.key;
          value_size = length r.value;
        }),
        4 + length (header_tail r),
      )
unfolding header_tail le_bytes
decode-header c r rest hc fit =
    let vk = put_varint (length r.key) in
    let vv = put_varint (length r.value) in
    let key_size : length r.key % 2 ^ 32 ≡ length r.key = omega (arith, fit.key_fits) in
    let value_size : length r.value % 2 ^ 32 ≡ length r.value = omega (arith, fit.value_fits) in
    let tail : 4 + suc (length (vk ++ vv)) ≡ 5 + length vk + length vv =
      omega (arith, length-append vk vv) in
    rw (
      append_assoc vk vv rest,
      decode-header_bytes (c % 256) (c / 256 % 256) (c / 256 / 256 % 256)
          (c / 256 / 256 / 256 % 256) r.type (length r.key) (length r.value) vk vv rest
          (varint-put_varint (length r.key) (vv ++ rest) (omega (arith, fit.key_fits)))
          (varint-put_varint (length r.value) rest (omega (arith, fit.value_fits)))
          (length-put_varint (length r.key)).1 (length-put_varint (length r.value)).1,
      le_value-le_bytes 4 c hc,
      key_size,
      value_size,
      tail,
    )

-- The checksum that GetLogRecordCRC updates over header, key and value is the one that
-- EncodeLogRecord takes over all of these bytes at once.
pub checksum-eq-get_log_record_crc :
    (r : LogRecord) → get_log_record_crc (some r) (header_tail r) ≡ checksum_ieee (checked_bytes r)
unfolding get_log_record_crc checksum_ieee checked_bytes
checksum-eq-get_log_record_crc r = rw (
  ← update-append (update 0 (header_tail r)) r.key r.value (update-lt 0 (header_tail r)),
  ← update-append 0 (header_tail r) (r.key ++ r.value) (omega arith),
)

-- DecodeLogRecordPos reads back the position that EncodeLogRecordPos wrote, for a uint32 file
-- id, an int64 offset and a uint32 size.
pub decode-encode_log_record_pos :
    (pos : LogRecordPos)
    → pos.fid < 2 ^ 32
    → IsU64 pos.offset
    → pos.size < 2 ^ 32
    → decode_log_record_pos (encode_log_record_pos pos) ≡ ok pos
unfolding decode_log_record_pos encode_log_record_pos
decode-encode_log_record_pos pos hf ho hs =
    let f = put_varint pos.fid in
    let o = put_varint pos.offset in
    let s = put_varint pos.size in
    let two : (length f + length o) % 2 ^ 64 ≡ length f + length o =
      omega (arith, length-put_varint pos.fid, length-put_varint pos.offset) in
    let last : varint s ≡ (pos.size, length s) =
      rw append-nil at (varint-put_varint pos.size [] (omega arith)) in
    let fid : pos.fid % 2 ^ 32 ≡ pos.fid = omega arith in
    let size : pos.size % 2 ^ 32 ≡ pos.size = omega arith in
    rw (
      varint-put_varint pos.fid (o ++ s) (omega arith),
      slice_from-append f (o ++ s) (length f) refl,
      varint-put_varint pos.offset s ho,
      two,
      ← append_assoc f o s,
      slice_from-append (f ++ o) s (length f + length o) (length-append f o),
      last,
      fid,
      size,
    )
