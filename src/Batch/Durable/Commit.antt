-- ===== src/Batch/Durable/Commit.antt =====
-- batch.go: Commit as a whole, and the log in the data files. A transaction is in the log as a whole
-- or, to one who opens the directory again, not at all.
use bitcask_go.Common.{
  ℕ, ◌<◌, ◌^◌, ◌≡◌, refl, sym, ap, subst, ◌∙◌, true, false, Option, List, [], ◌∷◌, ◌++◌, Bytes,
  ◌==◌, arith,
}
use bitcask_go.Common.Assoc.{Assoc, lookup}
use bitcask_go.Common.Eq.{bytes_eq}
use bitcask_go.Data.Record.{LogRecord, LogRecordPos, log_record_txn_finished}
use bitcask_go.Index.{Indexer}
use bitcask_go.Batch.Key.{non_transaction_seq_no}
use bitcask_go.Batch.{finished_record, txn_fin_key}
use bitcask_go.Batch.Append.{record_at}
use bitcask_go.Batch.Stays.{Stays, resequenced, Stays-Extends}
use bitcask_go.Batch.Commit.{finished_record-IsFit}
use bitcask_go.Batch.Durable.{Written, chosen}
use bitcask_go.Batch.Durable.Publish.{Indexed}
use bitcask_go.Db.State.{Db}
use bitcask_go.Db.Invariant.{Extends, Extends-trans, bytes_of-same}
use bitcask_go.Db.Append.Whole.{Appended}
use bitcask_go.Db.Refine.Writes.{reindexed}
use bitcask_go.Db.Log.{
  Logged, Entry, Positions, apply_entries, Recovered, recover_entry, all_entries,
}
use bitcask_go.Db.Durable.{HasLog, Appended-HasLog, Below, ids_of}
use bitcask_go.Db.Durable.Methods.{Durable, recovered, recovered-snoc, HasLog-reindexed}

-- The end of a transaction in the log.
abbrev the_end : ℕ → Logged
the_end s = record { key = txn_fin_key; seq_no = s; value = []; type = log_record_txn_finished }

-- What waited takes effect.
record Finished (s : ℕ) (r r' : Recovered) : Type 0 where
  index : r'.index ≡ apply_entries (r.waiting s) r.index
  waits : r'.waiting s ≡ []
  apart : (n : ℕ) → (s == n) ≡ false → r'.waiting n ≡ r.waiting n

the_end-Finished :
    (s : ℕ) (pos : LogRecordPos) (q : Recovered)
    → 0 < s
    → Finished s q (recover_entry (the_end s, pos) q)
unfolding recover_entry
the_end-Finished s pos q h =
    let own : (s == non_transaction_seq_no) ≡ false = ground (arith, h) in
    let self : (s == s) ≡ true = ground arith in
    rw own (record { index = refl; waits = rw self refl; apart = λ n t. rw t refl })

module _ {ix : Indexer} where
  HasLog-Stays : (db db' : Db ix) (log : List Entry) → Stays db db' → HasLog db log → HasLog db' log
  HasLog-Stays db db' log m h = record {
    olders = h.olders;
    records = h.records;
    below = subst (λ a. Below h.olders a) (sym m.active) h.below;
    bytes = λ i. bytes_of-same db db' i m.frame.options m.contents ∙ h.bytes i;
    logged = h.logged;
    entries = ap (λ a. all_entries h.records (ids_of h.olders a)) m.active ∙ h.entries;
  }

  pub HasLog-resequenced :
      (s : ℕ) (db : Db ix) (log : List Entry) → HasLog db log → HasLog (resequenced s db) log
  HasLog-resequenced s db log h = record {
    olders = h.olders;
    records = h.records;
    below = h.below;
    bytes = h.bytes;
    logged = h.logged;
    entries = h.entries;
  }

  -- The records of a transaction that has not finished leave the recovered index alone.
  pub unfinished-Durable :
      (s : ℕ) (rs : List LogRecord) (db db' : Db ix) (d : Durable db)
      (positions : Assoc Bytes LogRecordPos)
      → db.seq_no < s
      → Written s rs [] (resequenced s db) d.log positions db'
      → Durable db'
  unfinished-Durable s rs db db' d positions h w = record {
    log = w.log';
    has_log = w.has_log;
    shows = λ k.
        ap (ix.get k) w.extends.frame.index ∙ d.shows k ∙ ap (λ (f : Positions). f k) (sym w.index);
    quiet = λ n later.
        let behind : s < n = rw (sym w.extends.frame.seq_no) later in
        let other : (s == n) ≡ false = ground (arith, behind) in
        w.apart n other ∙ d.quiet n (omega (arith, h, behind));
  }

  -- The end of the transaction, and the index.
  module _ (s : ℕ) (log_order index_order : List LogRecord) (db : Db ix) (d : Durable db)
      (positions : Assoc Bytes LogRecordPos) (db1 db2 db3 : Db ix) (pos : LogRecordPos)
      (low : 0 < s) (fits : s < 2 ^ 64) (own : db.seq_no < s)
      (same : (k : Bytes) → record_at k log_order ≡ record_at k index_order)
      (w : Written s log_order [] (resequenced s db) d.log positions db1)
      (a : Appended (finished_record s) db1 pos db2) (m : Stays db2 db3) where
    abbrev log'' : List Entry
    log'' = w.log' ++ (the_end s, pos) ∷ []

    finished : Finished s (recovered w.log') (recovered log'')
    finished =
        subst (λ (q : Recovered). Finished s (recovered w.log') q)
          (sym (recovered-snoc w.log' (the_end s, pos)))
          (the_end-Finished s pos (recovered w.log') low)

    HasLog-finished : HasLog db3 log''
    HasLog-finished = HasLog-Stays db2 db3 log'' m (
        Appended-HasLog db1 db2 w.log' (the_end s) pos w.has_log
          (record { seq_fits = fits; fit = finished_record-IsFit s }) w.wf a)

    -- only the parts of this transaction waited for its end
    parts_waited : (recovered w.log').waiting s ≡ w.parts
    parts_waited = w.waits ∙ ap (λ (es : List Entry). es ++ w.parts) (d.quiet s own)

    extends : Extends (resequenced s db) db3
    extends = Extends-trans w.extends (Extends-trans a.extends (Stays-Extends db2 db3 m))

    recovered_index :
        (k : Bytes)
        → (recovered log'').index k
          ≡ chosen (record_at k index_order) (lookup k positions) (ix.get k db3.index)
    recovered_index k =
        ap (λ (f : Positions). f k) finished.index
        ∙ ap (λ (es : List Entry). apply_entries es (recovered w.log').index k) parts_waited
        ∙ w.applied (recovered w.log').index k
        ∙ ap (λ (r : Option LogRecord). chosen r (lookup k positions) ((recovered w.log').index k))
            (same k)
        ∙ ap
            (λ (old : Option LogRecordPos).
              chosen (record_at k index_order) (lookup k positions) old)
            (ap (λ (f : Positions). f k) w.index
              ∙ sym (d.shows k)
              ∙ sym (ap (ix.get k) extends.frame.index))

    pub published-Durable : (db' : Db ix) → Indexed positions index_order db3 db' → Durable db'
    published-Durable db' i =
        let log_there : HasLog (reindexed i.only.index i.only.reclaim db3) log'' =
          HasLog-reindexed i.only.index i.only.reclaim db3 log'' HasLog-finished in
        let seq : db'.seq_no ≡ s = ap (λ (t : Db ix). t.seq_no) i.only.at ∙ extends.frame.seq_no in
        record {
          log = log'';
          has_log = subst (λ (t : Db ix). HasLog t log'') (sym i.only.at) log_there;
          shows = λ k. i.shows k ∙ sym (recovered_index k);
          quiet = λ n later.
              let behind : s < n = omega (arith, seq, later) in
              let other : (s == n) ≡ false = ground (arith, behind) in
              finished.apart n other ∙ w.apart n other ∙ d.quiet n (omega (arith, own, behind));
        }
