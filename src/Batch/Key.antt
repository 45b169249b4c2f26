-- ===== src/Batch/Key.antt =====
-- batch.go: the key of a log record, the sequence number of its transaction before the user's key.
use bitcask_go.Common.{ℕ, ◌+◌, ◌≤◌, ◌≡◌, ◌++◌, Bytes, length, refl, length-append, arith}
use bitcask_go.Common.Result.{Res, ok, ◌>>=◌}
use bitcask_go.Varint.{IsU64, put_uvarint, uvarint}
use bitcask_go.Varint.RoundTrip.{uvarint-put_uvarint, length-put_uvarint}
use bitcask_go.Data.Record.{slice_from}
use bitcask_go.Data.Record.RoundTrip.{slice_from-append}

abbrev pub non_transaction_seq_no : ℕ
non_transaction_seq_no = 0

unfoldable pub log_record_key_with_seq : Bytes → ℕ → Bytes
log_record_key_with_seq key seq_no = put_uvarint seq_no ++ key

unfoldable pub parse_log_record_key : Bytes → Res (Bytes × ℕ)
parse_log_record_key enc_key = do
  let seq = uvarint enc_key
  real_key ← slice_from seq.1 enc_key
  ok (real_key, seq.0)

-- parseLogRecordKey gives back the key and the uint64 sequence number that logRecordKeyWithSeq
-- joined.
pub parse-log_record_key_with_seq :
    (key : Bytes) (seq_no : ℕ)
    → IsU64 seq_no
    → parse_log_record_key (log_record_key_with_seq key seq_no) ≡ ok (key, seq_no)
unfolding parse_log_record_key log_record_key_with_seq
parse-log_record_key_with_seq key seq_no h = rw (
  uvarint-put_uvarint seq_no key h,
  slice_from-append (put_uvarint seq_no) key (length (put_uvarint seq_no)) refl,
)

pub length-log_record_key_with_seq :
    (key : Bytes) (seq_no : ℕ)
    → (length key + 1 ≤ length (log_record_key_with_seq key seq_no))
      × (length (log_record_key_with_seq key seq_no) ≤ length key + 10)
unfolding log_record_key_with_seq
length-log_record_key_with_seq key seq_no =
    omega (arith, length-append (put_uvarint seq_no) key, length-put_uvarint seq_no)
