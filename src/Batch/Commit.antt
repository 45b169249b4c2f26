-- ===== src/Batch/Commit.antt =====
-- batch.go: Commit as a whole.
use bitcask_go.Common.{
  ℕ, ◌+◌, ◌≤◌, ◌<◌, ◌^◌, ◌≡◌, refl, ◌∙◌, sym, ap, Bool, true, false, Bool-cases, inl, inr, Option,
  none, some, List, [], ◌∷◌, Bytes, length, All, ltb, ◌==◌, arith,
}
use bitcask_go.Common.Assoc.{Assoc, lookup}
use bitcask_go.Common.Eq.{bytes_eq}
use bitcask_go.Common.Exec.Post.{Post, Post-continue, Post-mono}
use bitcask_go.Data.Record.{LogRecord, LogRecordPos}
use bitcask_go.Data.Record.RoundTrip.{IsFit}
use bitcask_go.Data.File.{DataFile}
use bitcask_go.Index.{Indexer}
use bitcask_go.Batch.Key.{length-log_record_key_with_seq}
use bitcask_go.Batch.{
  WriteBatch, txn_fin_key, finished_record, sync_file, sync_active, run_transaction, publish_all,
  next_seq_no, commit,
}
use bitcask_go.Batch.Append.{IsPending, record_at, Distinct, Placed, Logged, write_all-Post}
use bitcask_go.Batch.Stays.{
  Stays, Stays-Extends, Stays-IsWf, resequenced, Refines-resequenced, IsWf-resequenced,
}
use bitcask_go.Batch.Publish.{
  over, overlaid, All-at, All-from, Refines-same, AllPublished, publish_all-Post,
}
use bitcask_go.Db.State.{Db}
use bitcask_go.Db.Invariant.{IsWf, Extends, Extends-trans, active_id}
use bitcask_go.Db.Append.Retire.{synced-Post}
use bitcask_go.Db.Append.Write.{stays}
use bitcask_go.Db.Append.Whole.{Appended, append_log_record-Post}
use bitcask_go.Db.Refine.{Contents, Stored-Extends, Refines, Refines-Extends}
use bitcask_go.Db.Refine.Writes.{encode_log_record_size-lt}

-- What a batch makes of a map.
abbrev pub batch_over : WriteBatch → Contents → Contents
batch_over wb m k = over (lookup k wb.pending_writes) (m k)

-- An order in which a loop ranges over the pending writes: every one of them, once.
pub record IsOrder (wb : WriteBatch) (rs : List LogRecord) : Type 0 where
  pub same : (k : Bytes) → record_at k rs ≡ lookup k wb.pending_writes
  pub distinct : Distinct rs

abbrev pub IsBatch : WriteBatch → Type 0
IsBatch wb = (k : Bytes) (r : LogRecord) → lookup k wb.pending_writes ≡ some r → IsPending r

pub IsPending-All :
    (wb : WriteBatch) (rs : List LogRecord) → IsBatch wb → IsOrder wb rs → All IsPending rs
IsPending-All wb rs b o = All-from IsPending rs o.distinct (λ k r e. b k r (sym (o.same k) ∙ e))

pub finished_record-IsFit : (seq_no : ℕ) → IsFit (finished_record seq_no)
finished_record-IsFit seq_no = record {
  key_fits = omega (arith, length-log_record_key_with_seq txn_fin_key seq_no);
  value_fits = omega arith;
}

module _ {ix : Indexer} where
  Placed-Extends :
      {db db' : Db ix} (positions : Assoc Bytes LogRecordPos) (rs : List LogRecord)
      → Extends db db'
      → All (Placed db positions) rs
      → All (Placed db' positions) rs
  Placed-Extends positions [] x h = tt
  Placed-Extends positions (r ∷ rs) x h = (
    record {
      pos = h.0.pos;
      known = h.0.known;
      is_pos = h.0.is_pos;
      stored = λ e. Stored-Extends x (h.0.stored e);
    },
    Placed-Extends positions rs x h.1,
  )

  sync_file-Post :
      (active : Option DataFile) (db : Db ix)
      → active ≡ db.active_file
      → IsWf db
      → Post (λ _ db'. Stays db db') (λ db'. Stays db db') (sync_file active db)
  sync_file-Post none db e wf = stays db
  sync_file-Post (some f) db e wf = synced-Post f db (wf.active f (sym e)).writable

  pub sync_active-Post :
      (sync : Bool) (db : Db ix)
      → IsWf db
      → Post (λ _ db'. Stays db db') (λ db'. Stays db db') (sync_active sync db)
  unfolding sync_active
  sync_active-Post true db wf = sync_file-Post db.active_file db refl wf
  sync_active-Post false db wf = stays db

  -- What a transaction of n records leaves behind.
  pub record Committed (n : ℕ) (m : Contents) (db db' : Db ix) : Type 0 where
    pub refines : Refines db' m
    pub wf : IsWf db'
    pub next : active_id db'.active_file ≤ active_id db.active_file + n

  module _ (wb : WriteBatch) (log_order index_order : List LogRecord) (is_batch : IsBatch wb)
      (log : IsOrder wb log_order) (index : IsOrder wb index_order) where
    -- The records that the first loop placed, in the order of the second one.
    index_Placed :
        (db : Db ix) (positions : Assoc Bytes LogRecordPos)
        → All (Placed db positions) log_order
        → All (Placed db positions) index_order
    index_Placed db positions h =
        All-from (Placed db positions) index_order index.distinct (λ k r e.
          All-at (Placed db positions) k log_order r h (log.same k ∙ sym (index.same k) ∙ e))

    module _ (seq_no : ℕ) (db : Db ix) (m : Contents) (r : Refines db m) (wf : IsWf db)
        (spare : active_id db.active_file + (length log_order + 1) < 2 ^ 32) where
      abbrev Goal : Unit {0} → Db ix → Type 0
      Goal _ db' = Committed (length log_order + 1) (batch_over wb m) db db'

      abbrev Kept : Db ix → Type 0
      Kept db' = Refines db' m

      Extends-all :
          {positions : Assoc Bytes LogRecordPos} {db1 db2 db3 : Db ix} {pos : LogRecordPos}
          → Logged (length log_order) log_order [] db positions db1
          → Appended (finished_record seq_no) db1 pos db2
          → Stays db2 db3
          → Extends db1 db3
      Extends-all l a s = Extends-trans a.extends (Stays-Extends _ _ s)

      -- once the log is written
      publish_prepared :
          (positions : Assoc Bytes LogRecordPos) (pos : LogRecordPos) (db1 db2 db3 : Db ix)
          → Logged (length log_order) log_order [] db positions db1
          → Appended (finished_record seq_no) db1 pos db2
          → Stays db2 db3
          → Post Goal Kept (publish_all positions index_order db3)
      publish_prepared positions pos db1 db2 db3 l a s =
          let x : Extends db1 db3 = Extends-all l a s in
          Post-mono (λ _ db'. AllPublished (overlaid index_order m) db3 db') Goal (λ _. ⊥) Kept _
            (publish_all-Post positions index_order db3 m
              (index_Placed db3 positions (Placed-Extends positions log_order x l.placed))
              (IsPending-All wb index_order is_batch index) index.distinct
              (Refines-Extends (Extends-trans l.extends x) r) (Stays-IsWf db2 db3 a.wf s))
            (λ _ db' q. record {
              refines =
                  Refines-same db' (overlaid index_order m) (batch_over wb m)
                    (λ k. ap (λ o. over o (m k)) (index.same k)) q.refines;
              wf = q.wf;
              next =
                  omega (arith, ap active_id q.same_active, ap active_id s.active, a.next, l.next);
            })
            (λ _ h. absurd h)

      run_transaction-Post :
          (sync : Bool) → Post Goal Kept (run_transaction sync seq_no log_order index_order db)
      unfolding run_transaction
      run_transaction-Post sync =
          Post-continue (λ positions db1. Logged (length log_order) log_order [] db positions db1)
            (λ db1. Extends db db1) Goal Kept _ _
            (write_all-Post seq_no log_order [] db (IsPending-All wb log_order is_batch log)
              log.distinct wf (omega (arith, spare)))
            (λ positions db1 l.
              Post-continue (λ pos db2. Appended (finished_record seq_no) db1 pos db2)
                (λ db2. Extends db1 db2) Goal Kept _ _
                (append_log_record-Post (finished_record seq_no) db1 l.wf
                  (omega (arith, l.next, spare))
                  (encode_log_record_size-lt (finished_record seq_no)
                    (finished_record-IsFit seq_no)))
                (λ pos db2 a.
                  Post-continue (λ _ db3. Stays db2 db3) (λ db3. Stays db2 db3) Goal Kept _ _
                    (sync_active-Post sync db2 a.wf)
                    (λ _ db3 s. publish_prepared positions pos db1 db2 db3 l a s)
                    (λ db3 s. Refines-Extends (Extends-trans l.extends (Extends-all l a s)) r))
                (λ db2 x. Refines-Extends (Extends-trans l.extends x) r))
            (λ db1 x. Refines-Extends x r)

    nothing_pending :
        (db : Db ix) (m : Contents) (pending : Assoc Bytes LogRecord)
        → (length pending == 0) ≡ true
        → Refines db m
        → (pending ≡ []) × Refines db (λ k. over (lookup k pending) (m k))
    unfolding lookup
    nothing_pending db m [] e r = (refl, r)
    nothing_pending db m (p ∷ pending) e r = ground arith

    -- From a well-formed database that holds a map, with a file id to spare for every record,
    -- and for a batch whose pending records have lengths that a header can hold, Commit ends
    -- without a panic whatever the disk answers and in whatever orders its two loops take the
    -- pending writes: it returns with all of them written over the map, the database well-
    -- formed and none pending, or it fails and the database still holds the map, with none of
    -- them visible.
    pub commit-Post :
        (db : Db ix) (m : Contents)
        → Refines db m
        → IsWf db
        → active_id db.active_file + (length log_order + 1) < 2 ^ 32
        → Post
            (λ wb' db'.
              (wb'.pending_writes ≡ []) × Committed (length log_order + 1) (batch_over wb m) db db')
            (λ db'. Refines db' m)
            (commit log_order index_order wb db)
    unfolding commit
    commit-Post db m r wf spare = elim (Bool-cases (length wb.pending_writes == 0)) [
      | inl empty ↦
          let none_pending = nothing_pending db m wb.pending_writes empty r in
          rw empty
            (none_pending.0, record { refines = none_pending.1; wf = wf; next = omega arith })
      | inr some_pending ↦
          elim (Bool-cases (ltb wb.options.max_batch_num (length wb.pending_writes))) [
            | inl many ↦ rw (some_pending, many) r
            | inr fits ↦
                let s = next_seq_no db in
                let db0 = resequenced s db in
                rw (some_pending, fits)
                  (Post-continue
                    (λ _ db'. Committed (length log_order + 1) (batch_over wb m) db0 db')
                    (λ db'. Refines db' m)
                    (λ wb' db'.
                      (wb'.pending_writes ≡ [])
                      × Committed (length log_order + 1) (batch_over wb m) db db')
                    (λ db'. Refines db' m) _ _
                    (run_transaction-Post s db0 m (Refines-resequenced s db m r)
                      (IsWf-resequenced s db wf) spare wb.options.sync_writes)
                    (λ _ db' c. (refl, record { refines = c.refines; wf = c.wf; next = c.next }))
                    (λ db' k. k))
          ]
    ]
