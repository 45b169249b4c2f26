-- ===== src/Data/File.antt =====
-- data/data_file.go: a data file and the records in it.
pub mod Read
pub mod Laws
use bitcask_go.Common.{
  ℕ, zero, suc, ◌+◌, ◌-◌, ◌%◌, ◌^◌, Bool, true, false, ◌&&◌, ◌||◌, Option, none, some, List, [],
  ◌∷◌, ◌++◌, Bytes, length, take, drop, ltb, ◌==◌, if◌then◌else◌,
}
use bitcask_go.Common.Result.{Res, ok, err, panicked, eof, invalid_crc, ◌>>=◌}
use bitcask_go.Common.Exec
use bitcask_go.Common.Exec.{Exec, pure}
use bitcask_go.Varint.{negative, signed_lt}
use bitcask_go.Fio
use bitcask_go.Fio.{
  Disk, FilePath, FileName, data_file, hint_file, merge_finished_file, seq_no_file, IoManager,
  new_io_manager, stander_fio,
}
use bitcask_go.Data.Record.{
  LogRecord, LogRecordPos, LogRecordHeader, log_record_normal, max_log_record_header_size,
  encode_log_record, encode_log_record_pos, decode_log_record_header, get_log_record_crc,
  slice_from,
}

-- write_off is an int64.
pub record DataFile : Type 0 where
  pub file_id : ℕ
  pub write_off : ℕ
  pub io_manager : IoManager

abbrev pub get_data_file_name : Bytes → ℕ → FilePath
get_data_file_name dir id = record { dir = dir; name = data_file id }

unfoldable pub new_datafile : FilePath → ℕ → ℕ → Exec Disk DataFile
new_datafile path id io_type =
    Exec.◌>>=◌ (new_io_manager path io_type)
      (λ m. pure (record { file_id = id; write_off = 0; io_manager = m }))

unfoldable pub open_data_file : Bytes → ℕ → ℕ → Exec Disk DataFile
unfolding new_datafile
open_data_file dir id io_type = new_datafile (get_data_file_name dir id) id io_type

unfoldable pub open_hint_file : Bytes → Exec Disk DataFile
unfolding new_datafile
open_hint_file dir = new_datafile (record { dir = dir; name = hint_file }) 0 stander_fio

unfoldable pub open_merge_finished_file : Bytes → Exec Disk DataFile
unfolding new_datafile
open_merge_finished_file dir =
    new_datafile (record { dir = dir; name = merge_finished_file }) 0 stander_fio

unfoldable pub open_seq_no_file : Bytes → Exec Disk DataFile
unfolding new_datafile
open_seq_no_file dir = new_datafile (record { dir = dir; name = seq_no_file }) 0 stander_fio

-- The file with its new write_off.
unfoldable pub write : DataFile → Bytes → Exec Disk DataFile
write df buf =
    Exec.◌>>=◌ (Fio.write df.io_manager buf)
      (λ n. pure (record df { write_off = (df.write_off + n) % 2 ^ 64 }))

unfoldable pub sync : DataFile → Exec Disk (Unit {0})
sync df = Fio.sync df.io_manager

unfoldable pub write_hint_record : DataFile → Bytes → LogRecordPos → Exec Disk DataFile
unfolding write
write_hint_record df key pos =
    let hint : LogRecord = record {
      key = key;
      value = encode_log_record_pos pos;
      type = log_record_normal;
    } in
    write df (encode_log_record hint).0

-- make([]byte, n) panics at a negative length.
unfoldable pub read_n_bytes : DataFile → ℕ → ℕ → Disk → Res Bytes
read_n_bytes df n offset d = if negative n then panicked else Fio.read df.io_manager n offset d

-- buf[lo:hi]
unfoldable pub slice_range : ℕ → ℕ → Bytes → Res Bytes
slice_range lo hi buf =
    if ltb (length buf) hi || ltb hi lo then panicked else ok (drop lo (take hi buf))

-- The two parts of the payload; both stay nil if there is none.
unfoldable pub read_key_value : DataFile → ℕ → ℕ → ℕ → Disk → Res (Bytes × Bytes)
read_key_value df key_size value_size at d =
    if ltb 0 key_size || ltb 0 value_size
    then (do
      kv ← read_n_bytes df (key_size + value_size) at d
      ok (take key_size kv, drop key_size kv))
    else ok ([], [])

-- What follows the header: the payload and the check of the whole record.
unfoldable pub read_body : DataFile → ℕ → Disk → Bytes → LogRecordHeader → ℕ → Res (LogRecord × ℕ)
read_body df offset d header_buf header header_size = do
  kv ← read_key_value df header.key_size header.value_size ((offset + header_size) % 2 ^ 64) d
  let log_record : LogRecord = record { key = kv.0; value = kv.1; type = header.record_type }
  checked ← slice_range 4 header_size header_buf
  if get_log_record_crc (some log_record) checked == header.crc
      then ok (log_record, (header_size + (header.key_size + header.value_size)) % 2 ^ 64)
      else err invalid_crc

-- Nothing behind the last record, or a header of zeros, is the end of the file.
unfoldable pub read_after_header :
    DataFile → ℕ → Disk → Bytes → Option LogRecordHeader × ℕ → Res (LogRecord × ℕ)
read_after_header df offset d header_buf (none, header_size) = err eof
read_after_header df offset d header_buf (some header, header_size) =
    if header.crc == 0 && header.key_size == 0 && header.value_size == 0
    then err eof
    else read_body df offset d header_buf header header_size

-- How many bytes may hold the header: fewer than the maximum near the end of the file.
unfoldable pub header_bytes : ℕ → ℕ → ℕ
header_bytes file_size offset =
    if signed_lt file_size ((offset + max_log_record_header_size) % 2 ^ 64)
    then (file_size + 2 ^ 64 - offset) % 2 ^ 64
    else max_log_record_header_size

unfoldable pub read_log_record : DataFile → ℕ → Disk → Res (LogRecord × ℕ)
read_log_record df offset d = do
  header_buf ← read_n_bytes df (header_bytes (Fio.size df.io_manager d) offset) offset d
  header ← decode_log_record_header header_buf
  read_after_header df offset d header_buf header

unfoldable pub set_io_manager : DataFile → Bytes → ℕ → Exec Disk DataFile
set_io_manager df dir io_type = Exec.◌>>◌ (Fio.close df.io_manager) (
    Exec.◌>>=◌ (new_io_manager (get_data_file_name dir df.file_id) io_type)
      (λ m. pure (record df { io_manager = m })))

unfoldable pub close : DataFile → Exec Disk (Unit {0})
close df = Fio.close df.io_manager
