-- ===== src/Data/File/Read.antt =====
-- ReadLogRecord on a file that holds an encoded record.
use bitcask_go.Common.{
  ℕ, ◌+◌, ◌-◌, ◌%◌, ◌^◌, ◌≤◌, ◌<◌, ◌≡◌, refl, ◌∙◌, true, false, ◌++◌, Bytes, length, take, drop,
  ltb, ◌==◌, arith, length-append, drop-append, take-append, take-append_more, append_assoc,
  take-append-drop, length-take,
}
use bitcask_go.Common.Result.{ok}
use bitcask_go.Varint.LittleEndian.{put_uint32, length-le_bytes}
use bitcask_go.Crc.{checksum_ieee, checksum_ieee-lt}
use bitcask_go.Fio
use bitcask_go.Fio.{Disk, contents, IoManager}
use bitcask_go.Data.Record.{
  LogRecord, LogRecordHeader, header_tail, checked_bytes, encode_log_record,
}
use bitcask_go.Data.Record.RoundTrip.{
  IsFit, header_size_bounds, encode_log_record_size, length-encode_log_record, decode-header,
  checksum-eq-get_log_record_crc,
}
use bitcask_go.Data.File.{
  DataFile, read_n_bytes, slice_range, read_key_value, read_body, read_after_header, header_bytes,
  read_log_record,
}

-- Reading what stands behind a prefix.
read_n_bytes-append :
    (df : DataFile) (d : Disk) (pre mid post : Bytes) (n : ℕ)
    → contents d df.io_manager.path ≡ pre ++ (mid ++ post)
    → length mid ≡ n
    → n < 2 ^ 63
    → length pre < 2 ^ 63
    → read_n_bytes df n (length pre) d ≡ ok mid
unfolding read_n_bytes Fio.read
read_n_bytes-append df d pre mid post n e hn hs hp = rw e (
    ground (
      arith,
      length-append pre (mid ++ post),
      length-append mid post,
      drop-append (length pre) pre (mid ++ post),
      take-append n mid post,
    ))

header_bytes_bounds :
    (file_size offset n h : ℕ)
    → offset + n ≡ file_size
    → file_size < 2 ^ 62
    → h ≤ n
    → h ≤ 15
    → (h ≤ header_bytes file_size offset)
      × (header_bytes file_size offset ≤ 15)
      × (header_bytes file_size offset ≤ n)
unfolding header_bytes
header_bytes_bounds file_size offset n h e hs hn hh = ground arith

slice_range-append :
    (xs ys zs : Bytes) (lo hi : ℕ)
    → length xs ≡ lo
    → lo + length ys ≡ hi
    → slice_range lo hi (xs ++ (ys ++ zs)) ≡ ok ys
unfolding slice_range
slice_range-append xs ys zs lo hi h k =
    let whole : length (xs ++ ys) ≡ hi = omega (arith, length-append xs ys) in
    rw (← append_assoc xs ys zs, take-append hi (xs ++ ys) zs whole, drop-append lo xs ys h)
      (ground (arith, length-append (xs ++ ys) zs))

module _ (df : DataFile) (d : Disk) (r : LogRecord) (pre post : Bytes) where
  read_key_value-append :
      contents d df.io_manager.path ≡ pre ++ ((r.key ++ r.value) ++ post)
      → IsFit r
      → 0 < length r.key
      → length pre < 2 ^ 63
      → read_key_value df (length r.key) (length r.value) (length pre) d ≡ ok (r.key, r.value)
  unfolding read_key_value
  read_key_value-append e fit some_key hp =
      let bytes : length (r.key ++ r.value) ≡ length r.key + length r.value =
        length-append r.key r.value in
      let some : ltb 0 (length r.key) ≡ true = ground arith in
      rw (
        some,
        read_n_bytes-append df d pre (r.key ++ r.value) post (length r.key + length r.value) e bytes
            (omega (arith, fit.key_fits, fit.value_fits)) hp,
        take-append (length r.key) r.key r.value refl,
        drop-append (length r.key) r.key r.value refl,
      )

abbrev crc_bytes : LogRecord → Bytes
crc_bytes r = put_uint32 (checksum_ieee (checked_bytes r))

abbrev header_of : LogRecord → LogRecordHeader
header_of r = record {
  crc = checksum_ieee (checked_bytes r);
  record_type = r.type;
  key_size = length r.key;
  value_size = length r.value;
}

-- A position that holds an encoded record: what stands before it has `offset` bytes.
pub record HoldsAt (bs : Bytes) (offset : ℕ) (r : LogRecord) : Type 0 where
  pub before : Bytes
  pub after : Bytes
  pub splits : bs ≡ before ++ ((encode_log_record r).0 ++ after)
  pub length_before : length before ≡ offset

module _ (df : DataFile) (d : Disk) (r : LogRecord) (pre post : Bytes)
    (e : contents d df.io_manager.path ≡ pre ++ ((encode_log_record r).0 ++ post)) (fit : IsFit r)
    (some_key : 0 < length r.key) (small : length (contents d df.io_manager.path) < 2 ^ 62) where
  total :
      length (contents d df.io_manager.path)
      ≡ length pre + (4 + length (header_tail r) + length r.key + length r.value + length post)
  total = rw e (
      omega (
        arith,
        length-append pre ((encode_log_record r).0 ++ post),
        length-append (encode_log_record r).0 post,
        length-encode_log_record r,
        encode_log_record_size r,
      ))

  -- the file, cut behind the header
  cut_header :
      contents d df.io_manager.path
      ≡ (pre ++ ((crc_bytes r) ++ header_tail r)) ++ ((r.key ++ r.value) ++ post)
  unfolding encode_log_record checked_bytes
  cut_header = rw e (simp append_assoc)

  read_body-append :
      (rest : Bytes)
      → read_body df
          (length pre)
          d
          ((crc_bytes r) ++ (header_tail r ++ rest))
          (header_of r)
          (4 + length (header_tail r))
        ≡ ok (r, (encode_log_record r).1)
  unfolding read_body
  read_body-append rest =
      let at : (length pre + (4 + length (header_tail r))) % 2 ^ 64
          ≡ length (pre ++ ((crc_bytes r) ++ header_tail r)) =
        omega (
          arith,
          total,
          length-append pre ((crc_bytes r) ++ header_tail r),
          length-append (crc_bytes r) (header_tail r),
          length-le_bytes 4 (checksum_ieee (checked_bytes r)),
        ) in
      let equal : (checksum_ieee (checked_bytes r) == checksum_ieee (checked_bytes r)) ≡ true =
        ground arith in
      let size : (4 + length (header_tail r) + (length r.key + length r.value)) % 2 ^ 64
          ≡ (encode_log_record r).1 =
        omega (arith, total, encode_log_record_size r) in
      rw (
        at,
        read_key_value-append df d r (pre ++ ((crc_bytes r) ++ header_tail r)) post cut_header fit
            some_key (omega (arith, total, at)),
        slice_range-append (crc_bytes r) (header_tail r) rest 4 (4 + length (header_tail r))
            (length-le_bytes 4 (checksum_ieee (checked_bytes r))) refl,
        checksum-eq-get_log_record_crc r,
        equal,
        size,
      )

  -- In a file below 2 ^ 62 bytes, ReadLogRecord at the offset of an encoded record with a key
  -- that is not empty and lengths below 2 ^ 32 returns the record and the size that
  -- EncodeLogRecord gave, whatever stands before and behind it.
  pub read_log_record-append : read_log_record df (length pre) d ≡ ok (r, (encode_log_record r).1)
  unfolding read_log_record read_after_header Fio.size
  read_log_record-append =
      let file_size = length (contents d df.io_manager.path) in
      let head = crc_bytes r ++ header_tail r in
      let body = (r.key ++ r.value) ++ post in
      let hb = header_bytes file_size (length pre) in
      let buf = take hb (head ++ body) in
      let rest = take (hb - length head) body in
      let head_size : length head ≡ 4 + length (header_tail r) = omega (
        arith,
        length-append (crc_bytes r) (header_tail r),
        length-le_bytes 4 (checksum_ieee (checked_bytes r)),
      ) in
      let all : length (head ++ body)
          ≡ length head + (length r.key + length r.value + length post) =
        omega (
          arith,
          length-append head body,
          length-append (r.key ++ r.value) post,
          length-append r.key r.value,
        ) in
      let bounds =
        header_bytes_bounds file_size (length pre) (length (head ++ body)) (length head)
          (omega (arith, total, all, head_size)) small (omega (arith, all))
          (omega (arith, head_size, header_size_bounds r fit)) in
      let split : contents d df.io_manager.path ≡ pre ++ (buf ++ drop hb (head ++ body)) =
        cut_header ∙ rw (take-append-drop hb (head ++ body)) (append_assoc pre head body) in
      let buf_header : buf ≡ crc_bytes r ++ (header_tail r ++ rest) =
        take-append_more head body hb bounds.0 ∙ append_assoc (crc_bytes r) (header_tail r) rest in
      let some_size : (length r.key == 0) ≡ false = ground arith in
      rw
        (
          read_n_bytes-append df d pre buf (drop hb (head ++ body)) hb split
              (length-take hb (head ++ body) bounds.2) (omega (arith, bounds.1))
              (omega (arith, total)),
          buf_header,
          decode-header (checksum_ieee (checked_bytes r)) r rest (checksum_ieee-lt _) fit,
        )
        (ground (arith, read_body-append rest))
