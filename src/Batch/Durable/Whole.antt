-- ===== src/Batch/Durable/Whole.antt =====
-- batch.go: a transaction in the log, whole or unfinished, and the map that is recovered.
use bitcask_go.Common.{
  ℕ, ◌+◌, ◌<◌, ◌^◌, ◌≡◌, sym, ◌∙◌, Bool, Bool-cases, inl, inr, List, [], Bytes, length, All, ltb,
  ◌==◌, arith,
}
use bitcask_go.Common.Assoc.{Assoc}
use bitcask_go.Common.Exec.Post.{Post, Post-continue, Post-mono, Post-both}
use bitcask_go.Data.Record.{LogRecord, LogRecordPos}
use bitcask_go.Index.{Indexer}
use bitcask_go.Batch.{WriteBatch, finished_record, write_all, run_transaction, next_seq_no, commit}
use bitcask_go.Batch.Append
use bitcask_go.Batch.Append.{IsPending, record_at, Distinct, Placed, write_all-Post}
use bitcask_go.Batch.Publish.{All-at, All-from}
use bitcask_go.Batch.Stays.{Stays, resequenced, IsWf-resequenced, Refines-resequenced}
use bitcask_go.Batch.Commit.{
  batch_over, Committed, commit-Post, IsBatch, IsOrder, IsPending-All, finished_record-IsFit,
  sync_active-Post,
}
use bitcask_go.Batch.Durable.{Written, write_all-Written}
use bitcask_go.Batch.Durable.Publish.{HasPos, Indexed, publish_all-Indexed}
use bitcask_go.Batch.Durable.Commit.{HasLog-resequenced, unfinished-Durable, published-Durable}
use bitcask_go.Db.State.{Db}
use bitcask_go.Db.Invariant.{IsWf, Extends, active_id}
use bitcask_go.Db.Append.Whole.{Appended, append_log_record-Post}
use bitcask_go.Db.Refine.{Contents, Refines, Refines-Extends}
use bitcask_go.Db.Refine.Writes.{encode_log_record_size-lt}
use bitcask_go.Db.Durable.Methods.{Durable}
use bitcask_go.Db.Durable.Restart.{Recoverable}

module _ {ix : Indexer} where
  module _ (db : Db ix) (d : Durable db) (wf : IsWf db) (room : db.seq_no + 1 < 2 ^ 64) where
    -- The sequence number of the next transaction is new.
    next_is : next_seq_no db ≡ db.seq_no + 1
    next_is = omega (arith, room)

    own : db.seq_no < next_seq_no db
    own = omega (arith, next_is)

    written :
        (rs : List LogRecord)
        → All IsPending rs
        → Distinct rs
        → active_id db.active_file + length rs < 2 ^ 32
        → Post
            (λ positions db'.
              Written (next_seq_no db) rs [] (resequenced (next_seq_no db) db) d.log positions db')
            (λ _. Unit {0})
            (write_all (next_seq_no db) rs [] (resequenced (next_seq_no db) db))
    written rs pending distinct spare =
        write_all-Written (next_seq_no db) rs [] (resequenced (next_seq_no db) db) d.log
          (omega (arith, next_is)) (omega (arith, next_is, room)) pending distinct
          (HasLog-resequenced (next_seq_no db) db d.log d.has_log)
          (IsWf-resequenced (next_seq_no db) db wf) spare

    -- On such a database, once Commit has written any records of a transaction to the log but
    -- not the record of its end, the database still holds the map from before, is well-formed,
    -- and its files hold a log that stands for the index from before, so that opening the
    -- directory again finds none of these records.
    pub unfinished-Recoverable :
        (m : Contents) (rs : List LogRecord)
        → Refines db m
        → All IsPending rs
        → Distinct rs
        → active_id db.active_file + length rs < 2 ^ 32
        → Post
            (λ _ db'. Recoverable m db')
            (λ _. Unit {0})
            (write_all (next_seq_no db) rs [] (resequenced (next_seq_no db) db))
    unfinished-Recoverable m rs r pending distinct spare =
        Post-mono
          (λ positions db'.
            Written (next_seq_no db) rs [] (resequenced (next_seq_no db) db) d.log positions db')
          (λ _ db'. Recoverable m db') (λ _. Unit {0}) (λ _. Unit {0}) _
          (written rs pending distinct spare)
          (λ positions db' w. record {
            refines = Refines-Extends w.extends (Refines-resequenced (next_seq_no db) db m r);
            wf = w.wf;
            durable = unfinished-Durable (next_seq_no db) rs db db' d positions own w;
          })
          (λ _ x. x)

    module _ (wb : WriteBatch) (log_order index_order : List LogRecord) (is_batch : IsBatch wb)
        (log : IsOrder wb log_order) (index : IsOrder wb index_order)
        (spare : active_id db.active_file + (length log_order + 1) < 2 ^ 32) where
      abbrev s : ℕ
      s = next_seq_no db

      abbrev db0 : Db ix
      db0 = resequenced s db

      abbrev Placing : Assoc Bytes LogRecordPos → Db ix → Type 0
      Placing positions db1 =
          Append.Logged (length log_order) log_order [] db0 positions db1
          × Written s log_order [] db0 d.log positions db1

      placing : Post Placing (λ db1. Extends db0 db1 × Unit {0}) (write_all s log_order [] db0)
      placing =
          let pending = IsPending-All wb log_order is_batch log in
          let wf0 = IsWf-resequenced s db wf in
          Post-both
            (λ positions db1. Append.Logged (length log_order) log_order [] db0 positions db1)
            (λ positions db1. Written s log_order [] db0 d.log positions db1)
            (λ db1. Extends db0 db1) (λ _. Unit {0}) _
            (write_all-Post s log_order [] db0 pending log.distinct wf0 (omega (arith, spare)))
            (written log_order pending log.distinct (omega (arith, spare)))

      -- The records that the first loop placed, in the order of the second one.
      index_HasPos :
          (positions : Assoc Bytes LogRecordPos) (db1 : Db ix)
          → Append.Logged (length log_order) log_order [] db0 positions db1
          → All (HasPos positions) index_order
      index_HasPos positions db1 l =
          All-from (HasPos positions) index_order index.distinct (λ k r e.
            let p : Placed db1 positions r =
              All-at (Placed db1 positions) k log_order r l.placed
                (log.same k ∙ sym (index.same k) ∙ e) in
            record { pos = p.pos; known = p.known; is_pos = p.is_pos })

      run_transaction-Durable :
          (sync : Bool)
          → Post
              (λ _ db'. Durable db')
              (λ _. Unit {0})
              (run_transaction sync s log_order index_order db0)
      unfolding run_transaction
      run_transaction-Durable sync =
          Post-continue Placing (λ db1. Extends db0 db1 × Unit {0}) (λ _ db'. Durable db')
            (λ _. Unit {0}) _ _ placing
            (λ positions db1 p.
              Post-continue (λ pos db2. Appended (finished_record s) db1 pos db2)
                (λ db2. Extends db1 db2) (λ _ db'. Durable db') (λ _. Unit {0}) _ _
                (append_log_record-Post (finished_record s) db1 p.1.wf
                  (omega (arith, p.1.next, spare))
                  (encode_log_record_size-lt (finished_record s) (finished_record-IsFit s)))
                (λ pos db2 a.
                  Post-continue (λ _ db3. Stays db2 db3) (λ db3. Stays db2 db3)
                    (λ _ db'. Durable db') (λ _. Unit {0}) _ _ (sync_active-Post sync db2 a.wf)
                    (λ _ db3 m.
                      Post-mono (λ _ db'. Indexed positions index_order db3 db')
                        (λ _ db'. Durable db') (λ _. ⊥) (λ _. Unit {0}) _
                        (publish_all-Indexed positions index_order db3
                          (index_HasPos positions db1 p.0)
                          (IsPending-All wb index_order is_batch index) index.distinct)
                        (λ _ db' i.
                          published-Durable s log_order index_order db d positions db1 db2 db3 pos
                            (omega (arith, next_is)) (omega (arith, next_is, room)) own
                            (λ k. log.same k ∙ sym (index.same k)) p.1 a m db' i)
                        (λ _ _. tt))
                    (λ _ _. tt))
                (λ _ _. tt))
            (λ _ _. tt)

      commit-Durable :
          Post (λ _ db'. Durable db') (λ _. Unit {0}) (commit log_order index_order wb db)
      unfolding commit
      commit-Durable = elim (Bool-cases (length wb.pending_writes == 0)) [
        | inl empty ↦ rw empty d
        | inr some_pending ↦
            elim (Bool-cases (ltb wb.options.max_batch_num (length wb.pending_writes))) [
              | inl many ↦ rw (some_pending, many) tt
              | inr fits ↦
                  rw (some_pending, fits)
                    (Post-continue (λ _ db'. Durable db') (λ _. Unit {0}) (λ _ db'. Durable db')
                      (λ _. Unit {0}) _ _ (run_transaction-Durable wb.options.sync_writes)
                      (λ _ db' h. h) (λ _ _. tt))
            ]
      ]

      -- On a well-formed database that holds a map, whose data files hold a log that stands for
      -- its index, with a sequence number below 2 ^ 64 - 1 and a file id to spare for every
      -- record and one more, Commit of a batch of records that a header can hold, in any order
      -- of the log and any order of the index, ends without a panic whatever the disk answers:
      -- it returns, and the database holds the map with all pending writes over it, is well-
      -- formed, and its files hold a log that stands for its index; or it fails, and the
      -- database still holds the map.
      pub commit-Recoverable :
          (m : Contents)
          → Refines db m
          → Post
              (λ _ db'. Recoverable (batch_over wb m) db')
              (λ db'. Refines db' m)
              (commit log_order index_order wb db)
      commit-Recoverable m r =
          Post-mono
            (λ (wb' : WriteBatch) db'.
              ((wb'.pending_writes ≡ [])
                × Committed (length log_order + 1) (batch_over wb m) db db')
              × Durable db')
            (λ _ db'. Recoverable (batch_over wb m) db') (λ db'. Refines db' m × Unit {0})
            (λ db'. Refines db' m) _
            (Post-both
              (λ (wb' : WriteBatch) db'.
                (wb'.pending_writes ≡ [])
                × Committed (length log_order + 1) (batch_over wb m) db db')
              (λ _ db'. Durable db') (λ db'. Refines db' m) (λ _. Unit {0}) _
              (commit-Post wb log_order index_order is_batch log index db m r wf spare)
              commit-Durable)
            (λ wb' db' h. record { refines = h.0.1.refines; wf = h.0.1.wf; durable = h.1 })
            (λ db' h. h.0)
