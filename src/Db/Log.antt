-- ===== src/Db/Log.antt =====
-- The log that the data files hold, and what it stands for: an index by key. This is the contract of
-- loadIndexFromDataFiles: a record of its own takes effect where it stands, the records of a
-- transaction where the transaction finishes, and those of one that does not finish never.
pub mod Grow
pub mod Recovery
use bitcask_go.Common.{
  ℕ, ◌+◌, ◌≡◌, refl, Option, none, some, List, [], ◌∷◌, ◌++◌, Bytes, ltb, ◌==◌, if◌then◌else◌,
}
use bitcask_go.Common.Eq.{◌=?◌, bytes_eq}
use bitcask_go.Varint.{u32, IsU64}
use bitcask_go.Data.Record.{
  LogRecord, LogRecordPos, log_record_deleted, log_record_txn_finished, encode_log_record,
}
use bitcask_go.Data.Record.RoundTrip.{IsFit}
use bitcask_go.Batch.Key.{log_record_key_with_seq, non_transaction_seq_no}

-- A record as appendLogRecord is given it, its key taken apart.
pub record Logged : Type 0 where
  pub key : Bytes
  pub seq_no : ℕ
  pub value : Bytes
  pub type : ℕ

abbrev pub to_record : Logged → LogRecord
to_record l = record {
  key = log_record_key_with_seq l.key l.seq_no;
  value = l.value;
  type = l.type;
}

pub record IsLogged (l : Logged) : Type 0 where
  pub seq_fits : IsU64 l.seq_no
  pub fit : IsFit (to_record l)

-- What a data file of these records holds.
unfoldable pub log_bytes : List Logged → Bytes
log_bytes [] = []
log_bytes (l ∷ ls) = (encode_log_record (to_record l)).0 ++ log_bytes ls

abbrev pub Entry : Type 0
Entry = Logged × LogRecordPos

-- The records with their positions, in a file from an offset on.
unfoldable pub entries_from : ℕ → ℕ → List Logged → List Entry
entries_from file_id offset [] = []
entries_from file_id offset (l ∷ ls) =
    let size = (encode_log_record (to_record l)).1 in
    (l, record { fid = file_id; offset = offset; size = u32 size })
    ∷ entries_from file_id (offset + size) ls

abbrev pub Positions : Type 0
Positions = Bytes → Option LogRecordPos

-- The effect of one entry on the index.
abbrev pub apply_entry : Entry → Positions → Positions
apply_entry (l, pos) at k =
    if l.key =? k then (if l.type == log_record_deleted then none else some pos) else at k

unfoldable pub apply_entries : List Entry → Positions → Positions
apply_entries [] at = at
apply_entries (e ∷ es) at = apply_entries es (apply_entry e at)

-- The index, the entries of the transactions that have not finished, and the highest sequence number.
pub record Recovered : Type 0 where
  pub index : Positions
  pub waiting : ℕ → List Entry
  pub seq_no : ℕ

abbrev pub at_seq : {A : Type 0} → ℕ → A → (ℕ → A) → ℕ → A
at_seq n a f j = if n == j then a else f j

unfoldable pub recover_entry : Entry → Recovered → Recovered
recover_entry (l, pos) r =
    let r' : Recovered = record r {
      seq_no = if ltb r.seq_no l.seq_no then l.seq_no else r.seq_no;
    } in
    if l.seq_no == non_transaction_seq_no
    then record r' { index = apply_entry (l, pos) r.index }
    else if l.type == log_record_txn_finished
    then record r' {
      index = apply_entries (r.waiting l.seq_no) r.index;
      waiting = at_seq l.seq_no [] r.waiting;
    }
    else record r' { waiting = at_seq l.seq_no (r.waiting l.seq_no ++ (l, pos) ∷ []) r.waiting }

unfoldable pub recover : List Entry → Recovered → Recovered
recover [] r = r
recover (e ∷ es) r = recover es (recover_entry e r)

abbrev pub nothing_recovered : Recovered
nothing_recovered = record { index = λ k. none; waiting = λ n. []; seq_no = 0 }

-- The files of a log, in the order of their ids, each with its records.
unfoldable pub all_entries : (ℕ → List Logged) → List ℕ → List Entry
all_entries records [] = []
all_entries records (i ∷ is) = entries_from i 0 (records i) ++ all_entries records is

pub recover-append :
    (xs ys : List Entry) (r : Recovered) → recover (xs ++ ys) r ≡ recover ys (recover xs r)
unfolding recover
recover-append [] ys r = refl
recover-append (e ∷ xs) ys r = recover-append xs ys (recover_entry e r)
