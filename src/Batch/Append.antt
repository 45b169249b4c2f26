-- ===== src/Batch/Append.antt =====
-- batch.go: the first loop of Commit, which writes the records of a transaction to the log.
use bitcask_go.Common.{
  ℕ, ◌+◌, ◌≤◌, ◌<◌, ◌^◌, ◌≡◌, refl, ◌∙◌, subst, false, Option, none, some, List, [], ◌∷◌, Bytes,
  length, All, arith, if◌then◌else◌, ◌⊎◌,
}
use bitcask_go.Common.Assoc.{Assoc, lookup, insert, lookup-insert}
use bitcask_go.Common.Eq.{◌=?◌, bytes_eq, beq_self}
use bitcask_go.Common.Exec.Post.{Post, Post-continue, Post-mono}
use bitcask_go.Data.Record.{LogRecord, LogRecordPos, log_record_normal, log_record_deleted}
use bitcask_go.Data.Record.RoundTrip.{IsFit}
use bitcask_go.Index.{Indexer, IsPos}
use bitcask_go.Batch.Key.{length-log_record_key_with_seq}
use bitcask_go.Batch.{with_seq, write_all}
use bitcask_go.Db.State.{Db}
use bitcask_go.Db.Invariant.{IsWf, Extends, Extends-trans, Extends-refl, active_id}
use bitcask_go.Db.Append.Whole.{Appended, append_log_record-Post}
use bitcask_go.Db.Refine.{Stored, Stored-Extends, value_record}
use bitcask_go.Db.Refine.Writes.{
  IsStorable, encode_log_record_size-lt, Appended-Stored, Appended-IsPos,
}

-- A record as WriteBatch.Put and WriteBatch.Delete make it, of lengths that a header can hold.
pub record IsPending (r : LogRecord) : Type 0 where
  pub storable : IsStorable r.key r.value
  pub type : (r.type ≡ log_record_normal) ⊎ (r.type ≡ log_record_deleted)

-- The record of a key in the order that a loop takes.
unfoldable pub record_at : Bytes → List LogRecord → Option LogRecord
record_at k [] = none
record_at k (r ∷ rs) = if r.key =? k then some r else record_at k rs

-- No key comes twice.
abbrev pub Distinct : List LogRecord → Type 0
Distinct [] = Unit
Distinct (r ∷ rs) = (record_at r.key rs ≡ none) × Distinct rs

-- A key that is not in a list is neither its first nor in the rest.
pub record_at-none :
    (k : Bytes) (r : LogRecord) (rs : List LogRecord)
    → record_at k (r ∷ rs) ≡ none
    → ((r.key =? k) ≡ false) × (record_at k rs ≡ none)
unfolding record_at
record_at-none k r rs h = ground (arith, h)

pub with_seq-IsFit : (seq_no : ℕ) (r : LogRecord) → IsPending r → IsFit (with_seq seq_no r)
with_seq-IsFit seq_no r h = record {
  key_fits = omega (arith, length-log_record_key_with_seq r.key seq_no, h.storable.key_fits);
  value_fits = h.storable.value_fits;
}

module _ {ix : Indexer} where
  -- where the value of a record was written
  pub record Placed (db : Db ix) (positions : Assoc Bytes LogRecordPos) (r : LogRecord)
      : Type 0 where
    pub pos : LogRecordPos
    pub known : lookup r.key positions ≡ some pos
    pub is_pos : IsPos pos
    pub stored : r.type ≡ log_record_normal → Stored db r.key r.value pos

  abbrev pub AllPlaced : Db ix → Assoc Bytes LogRecordPos → List LogRecord → Type 0
  AllPlaced db positions rs = All (Placed db positions) rs

  -- What the loop leaves behind after n records.
  pub record Logged (n : ℕ) (rs : List LogRecord) (before : Assoc Bytes LogRecordPos) (db : Db ix)
      (positions : Assoc Bytes LogRecordPos) (db' : Db ix) : Type 0 where
    pub extends : Extends db db'
    pub wf : IsWf db'
    pub next : active_id db'.active_file ≤ active_id db.active_file + n
    pub placed : AllPlaced db' positions rs
    pub others : (k : Bytes) → record_at k rs ≡ none → lookup k positions ≡ lookup k before

  Logged-cons :
      (seq_no : ℕ) (r : LogRecord) (rs : List LogRecord) (before : Assoc Bytes LogRecordPos)
      {db db1 db2 : Db ix} {pos : LogRecordPos} {positions : Assoc Bytes LogRecordPos}
      → IsWf db
      → IsPending r
      → record_at r.key rs ≡ none
      → Appended (with_seq seq_no r) db pos db1
      → Logged (length rs) rs (insert r.key pos before) db1 positions db2
      → Logged (length (r ∷ rs)) (r ∷ rs) before db positions db2
  Logged-cons seq_no r rs before {db} {db1} {db2} {pos} {positions} wf pending fresh a l = record {
    extends = Extends-trans a.extends l.extends;
    wf = l.wf;
    next = omega (arith, a.next, l.next);
    placed = (
      record {
        pos = pos;
        known =
            l.others r.key fresh ∙ lookup-insert r.key r.key pos before ∙ rw (beq_self r.key) refl;
        is_pos = Appended-IsPos wf.small a;
        stored = λ e.
            let normal : with_seq seq_no r ≡ value_record r.key seq_no r.value = rw e refl in
            Stored-Extends l.extends (
              Appended-Stored r.key r.value seq_no
                (subst IsFit normal (with_seq-IsFit seq_no r pending))
                (subst (λ t. Appended t db pos db1) normal a));
      },
      l.placed,
    );
    others = λ k e.
        let apart = record_at-none k r rs e in
        l.others k apart.1 ∙ lookup-insert r.key k pos before ∙ rw (apart.0) refl;
  }

  -- Every record is appended and its value stands at its position; or an error is returned.
  pub write_all-Post :
      (seq_no : ℕ) (rs : List LogRecord) (before : Assoc Bytes LogRecordPos) (db : Db ix)
      → All IsPending rs
      → Distinct rs
      → IsWf db
      → active_id db.active_file + length rs < 2 ^ 32
      → Post
          (λ positions db'. Logged (length rs) rs before db positions db')
          (λ db'. Extends db db')
          (write_all seq_no rs before db)
  unfolding write_all
  write_all-Post seq_no [] before db pending distinct wf spare = record {
    extends = Extends-refl db;
    wf = wf;
    next = omega arith;
    placed = tt;
    others = λ k e. refl;
  }
  write_all-Post seq_no (r ∷ rs) before db pending distinct wf spare =
      Post-continue (λ pos db1. Appended (with_seq seq_no r) db pos db1) (λ db1. Extends db db1)
        (λ positions db'. Logged (length (r ∷ rs)) (r ∷ rs) before db positions db')
        (λ db'. Extends db db') _ _
        (append_log_record-Post (with_seq seq_no r) db wf (omega (arith, spare))
          (encode_log_record_size-lt (with_seq seq_no r) (with_seq-IsFit seq_no r pending.0)))
        (λ pos db1 a.
          Post-mono
            (λ positions db'. Logged (length rs) rs (insert r.key pos before) db1 positions db')
            (λ positions db'. Logged (length (r ∷ rs)) (r ∷ rs) before db positions db')
            (λ db'. Extends db1 db') (λ db'. Extends db db') _
            (write_all-Post seq_no rs (insert r.key pos before) db1 pending.1 distinct.1 a.wf
              (omega (arith, a.next, spare)))
            (λ positions db2 l. Logged-cons seq_no r rs before wf pending.0 distinct.0 a l)
            (λ db2 x. Extends-trans a.extends x))
        (λ db1 x. x)
