-- ===== src/Tests/Codec.antt =====
-- The encodings, at concrete inputs.
use bitcask_go.Common.{◌-◌, ◌^◌, ◌+◌, ◌≤◌, ◌<◌, ◌≡◌, refl, some, [], ◌∷◌, ◌++◌, length, arith}
use bitcask_go.Common.Result.{ok}
use bitcask_go.Varint.{put_varint}
use bitcask_go.Varint.LittleEndian.{le_bytes}
use bitcask_go.Common.Assoc.{lookup}
use bitcask_go.Common.Eq.{bytes_beq}
use bitcask_go.Crc.{checksum_ieee}
use bitcask_go.Fio.{Disk, contents}
use bitcask_go.Data.Record.{
  LogRecord, LogRecordPos, log_record_normal, header_tail, checked_bytes, encode_log_record,
  encode_log_record_pos, decode_log_record_pos, get_log_record_crc, max_log_record_header_size,
}
use bitcask_go.Data.Record.RoundTrip.{
  IsFit, header_size_bounds, checksum-eq-get_log_record_crc, decode-encode_log_record_pos,
}
use bitcask_go.Data.File.{DataFile, read_log_record}
use bitcask_go.Data.File.Laws.{opened}
use bitcask_go.Data.File.Read.{read_log_record-append}
use bitcask_go.Batch.Key.{
  log_record_key_with_seq, parse_log_record_key, parse-log_record_key_with_seq,
}

-- data/log_record_test.go: the record name → bitcask-go
abbrev name_record : LogRecord
name_record = record {
  key = b'n' ∷ b'a' ∷ b'm' ∷ b'e' ∷ [];
  value = b'b' ∷ b'i' ∷ b't' ∷ b'c' ∷ b'a' ∷ b's' ∷ b'k' ∷ b'-' ∷ b'g' ∷ b'o' ∷ [];
  type = log_record_normal;
}

abbrev name_record-IsFit : IsFit name_record
name_record-IsFit = record { key_fits = omega arith; value_fits = omega arith }

name_record_crc : checksum_ieee (checked_bytes name_record) ≡ 2532332136
unfolding checksum_ieee checked_bytes header_tail put_varint
name_record_crc = refl

name_record_header :
    (encode_log_record name_record).0
    ≡ 104 ∷ 82 ∷ 240 ∷ 150 ∷ 0 ∷ 8 ∷ 20 ∷ (name_record.key ++ name_record.value)
unfolding encode_log_record checksum_ieee checked_bytes header_tail put_varint le_bytes
name_record_header = refl

header_size_bounds_example :
    (4 + length (header_tail name_record) ≤ max_log_record_header_size)
    × (7 ≤ 4 + length (header_tail name_record))
header_size_bounds_example = header_size_bounds name_record name_record-IsFit

checksum-eq-get_log_record_crc_example :
    get_log_record_crc (some name_record) (header_tail name_record)
    ≡ checksum_ieee (checked_bytes name_record)
checksum-eq-get_log_record_crc_example = checksum-eq-get_log_record_crc name_record

abbrev far_pos : LogRecordPos
far_pos = record { fid = 7; offset = 2 ^ 63 - 1; size = 300 }

decode-encode_log_record_pos_example :
    decode_log_record_pos (encode_log_record_pos far_pos) ≡ ok far_pos
decode-encode_log_record_pos_example =
    decode-encode_log_record_pos far_pos (omega arith) (omega arith) (omega arith)

parse-log_record_key_with_seq_example :
    parse_log_record_key (log_record_key_with_seq (b'k' ∷ []) 300) ≡ ok (b'k' ∷ [], 300)
parse-log_record_key_with_seq_example = parse-log_record_key_with_seq (b'k' ∷ []) 300 (omega arith)

-- A file that holds three bytes, the record and two more bytes.
abbrev some_file : DataFile
some_file = opened [] 0

abbrev some_disk : Disk
some_disk = record {
  files =
      (
        some_file.io_manager.path,
        (1 ∷ 2 ∷ 3 ∷ []) ++ ((encode_log_record name_record).0 ++ (4 ∷ 5 ∷ [])),
      )
      ∷ [];
  answers = [];
}

some_contents :
    contents some_disk some_file.io_manager.path
    ≡ (1 ∷ 2 ∷ 3 ∷ []) ++ ((encode_log_record name_record).0 ++ (4 ∷ 5 ∷ []))
unfolding contents lookup bytes_beq
some_contents = refl

some_contents_small : length (contents some_disk some_file.io_manager.path) < 2 ^ 62
unfolding contents lookup bytes_beq encode_log_record checked_bytes header_tail put_varint le_bytes
some_contents_small = omega arith

read_log_record-append_example :
    read_log_record some_file 3 some_disk ≡ ok (name_record, (encode_log_record name_record).1)
read_log_record-append_example =
    read_log_record-append some_file some_disk name_record (1 ∷ 2 ∷ 3 ∷ []) (4 ∷ 5 ∷ [])
      some_contents name_record-IsFit (omega arith) some_contents_small
