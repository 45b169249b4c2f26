-- ===== src/Db/Refine/Writes.antt =====
-- Put and Delete on a database that holds a map.
use bitcask_go.Common.{
  ℕ, ◌+◌, ◌^◌, ◌<◌, refl, sym, ◌∙◌, ap, subst, Bool-cases, inl, inr, Option, none, some, [], ◌++◌,
  Bytes, length, if◌then◌else◌, arith, append-nil,
}
use bitcask_go.Common.Eq.{◌=?◌, bytes_eq, bytes_beq_iff}
use bitcask_go.Data.Record.{LogRecord, LogRecordPos, encode_log_record}
use bitcask_go.Data.Record.RoundTrip.{IsFit, header_size_bounds, encode_log_record_size}
use bitcask_go.Index.{Indexer, IsPos}
use bitcask_go.Batch.Key.{length-log_record_key_with_seq}
use bitcask_go.Db.State.{Db}
use bitcask_go.Db.Invariant.{bytes_of, IsOpen, IsSmall, IsWf}
use bitcask_go.Db.Append.Whole.{Appended}
use bitcask_go.Db.Append.Retire.{opens-same}
use bitcask_go.Db.Refine.{Contents, update, erase, value_record, Stored, Entry, Refines}

-- Keys and values that a record's header can hold.
pub record IsStorable (k v : Bytes) : Type 0 where
  pub key_fits : length k + 10 < 2 ^ 32
  pub value_fits : length v < 2 ^ 32

pub value_record-IsFit :
    (k v : Bytes) (seq_no : ℕ) → IsStorable k v → IsFit (value_record k seq_no v)
value_record-IsFit k v seq_no h = record {
  key_fits = omega (arith, length-log_record_key_with_seq k seq_no, h.key_fits);
  value_fits = h.value_fits;
}

pub encode_log_record_size-lt : (r : LogRecord) → IsFit r → (encode_log_record r).1 < 2 ^ 40
encode_log_record_size-lt r fit =
    omega (arith, encode_log_record_size r, header_size_bounds r fit, fit.key_fits, fit.value_fits)

module _ {ix : Indexer} where
  -- the index and the reclaim counter changed, and nothing else
  abbrev pub reindexed : ix.Index → ℕ → Db ix → Db ix
  reindexed t n db = record db { index = t; reclaim_size = n }

  pub IsOpen-reindexed :
      (t : ix.Index) (n : ℕ) (db : Db ix) (i : ℕ) → IsOpen db i → IsOpen (reindexed t n db) i
  IsOpen-reindexed t n db i h = record {
    file = h.file;
    found = opens-same db (reindexed t n db) i refl refl ∙ h.found;
    named = h.named;
  }

  pub IsWf-reindexed : (t : ix.Index) (n : ℕ) (db : Db ix) → IsWf db → IsWf (reindexed t n db)
  IsWf-reindexed t n db wf = record {
    active = λ f e.
        let a = wf.active f e in
        record { named = a.named; writable = a.writable; aligned = a.aligned; id_fits = a.id_fits };
    unused = wf.unused;
    small = wf.small;
    room = wf.room;
  }

  Entry-reindexed :
      (t : ix.Index) (n : ℕ) (db : Db ix) (k : Bytes) (p : Option LogRecordPos) (v : Option Bytes)
      → Entry db k p v
      → Entry (reindexed t n db) k p v
  Entry-reindexed t n db k none none e = e
  Entry-reindexed t n db k none (some v) e = e
  Entry-reindexed t n db k (some p) none e = e
  Entry-reindexed t n db k (some p) (some v) s = record {
    seq_no = s.seq_no;
    fit = s.fit;
    holds = s.holds;
    is_open = IsOpen-reindexed t n db p.fid s.is_open;
  }

  -- Where a record was appended, its position holds it.
  pub Appended-Stored :
      {db db' : Db ix} {pos : LogRecordPos} (k v : Bytes) (seq_no : ℕ)
      → IsFit (value_record k seq_no v)
      → Appended (value_record k seq_no v) db pos db'
      → Stored db' k v pos
  Appended-Stored {db} {db'} {pos} k v seq_no fit a = record {
    seq_no = seq_no;
    fit = fit;
    holds = record {
      before = bytes_of db pos.fid;
      after = [];
      splits = a.added ∙ ap (λ t. bytes_of db pos.fid ++ t) (sym (append-nil _));
      length_before = sym a.offset;
    };
    is_open = a.now_open;
  }

  pub Appended-IsPos :
      {db db' : Db ix} {pos : LogRecordPos} {r : LogRecord}
      → IsSmall db
      → Appended r db pos db'
      → IsPos pos
  Appended-IsPos {db} {pos = pos} small a = record {
    fid = a.fid_fits;
    offset = omega (arith, a.offset, small pos.fid);
    size = omega (arith, a.size);
  }

  -- Setting one key of the index to a position that holds its value.
  pub Refines-put :
      (db : Db ix) (m : Contents) (k v : Bytes) (pos : LogRecordPos) (n : ℕ)
      → Refines db m
      → IsPos pos
      → Stored db k v pos
      → Refines (reindexed (ix.put k pos db.index).0 n db) (update m k v)
  Refines-put db m k v pos n r p s = record {
    entries = λ j. rw (ix.get-put k j pos db.index p) (
        Entry-reindexed _ n db j (if k =? j then some pos else ix.get j db.index) (update m k v j)
          (at j));
    small = r.small;
  }
    where
      at :
          (j : Bytes) → Entry db j (if k =? j then some pos else ix.get j db.index) (update m k v j)
      at j = elim (Bool-cases (k =? j)) [
        | inl e ↦ rw e (subst (λ t. Stored db t v pos) ((bytes_beq_iff k j).0 e) s)
        | inr e ↦ rw e (r.entries j)
      ]

  pub Refines-delete :
      (db : Db ix) (m : Contents) (k : Bytes) (n : ℕ)
      → Refines db m
      → Refines (reindexed (ix.delete k db.index).0 n db) (erase m k)
  Refines-delete db m k n r = record {
    entries = λ j. rw (ix.get-delete k j db.index) (
        Entry-reindexed _ n db j (if k =? j then none else ix.get j db.index) (erase m k j) (at j));
    small = r.small;
  }
    where
      at : (j : Bytes) → Entry db j (if k =? j then none else ix.get j db.index) (erase m k j)
      at j = elim (Bool-cases (k =? j)) [ inl e ↦ rw e tt | inr e ↦ rw e (r.entries j) ]
