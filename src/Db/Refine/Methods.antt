-- ===== src/Db/Refine/Methods.antt =====
-- Put and Delete refine the update and the deletion of a key of a map.
use bitcask_go.Common.{
  ◌+◌, ◌^◌, ◌<◌, ◌≤◌, ◌≡◌, refl, ◌∙◌, ap, subst, true, Bool-cases, inl, inr, Option, none, some, [],
  Bytes, length, ◌==◌, arith,
}
use bitcask_go.Common.Eq.{◌=?◌, bytes_eq, bytes_beq_iff}
use bitcask_go.Common.Exec.Post.{Post, Post-continue}
use bitcask_go.Data.Record.{LogRecord, LogRecordPos, log_record_deleted}
use bitcask_go.Data.Record.RoundTrip.{IsFit}
use bitcask_go.Index.{Indexer, is_some}
use bitcask_go.Batch.Key.{
  log_record_key_with_seq, length-log_record_key_with_seq, non_transaction_seq_no,
}
use bitcask_go.Db.State.{Db, add_reclaim}
use bitcask_go.Db.Invariant.{IsWf, Extends, active_id}
use bitcask_go.Db.Append.Whole.{Appended, append_log_record-Post}
use bitcask_go.Db.Ops.{put_index, put, delete_index, delete_known, delete}
use bitcask_go.Db.Refine.{Contents, update, erase, value_record, Entry, Refines, Refines-Extends}
use bitcask_go.Db.Refine.Writes.{
  IsStorable, value_record-IsFit, encode_log_record_size-lt, IsWf-reindexed, Appended-Stored,
  Appended-IsPos, Refines-put, Refines-delete,
}

module _ {ix : Indexer} where
  -- What every write leaves behind: the map m, and a database that can go on.
  pub record Holds (m : Contents) (db db' : Db ix) : Type 0 where
    pub refines : Refines db' m
    pub wf : IsWf db'
    pub next : active_id db'.active_file ≤ active_id db.active_file + 1

  module _ (db : Db ix) (m : Contents) (r : Refines db m) (wf : IsWf db)
      (spare : active_id db.active_file + 1 < 2 ^ 32) where
    -- From a well-formed database that holds a map, with a file id to spare and a key and value
    -- that a header can hold, Put ends without a panic whatever the disk answers: it returns
    -- with the map updated at the key and the database well-formed, or it fails and the
    -- database still holds the map.
    pub put-Post :
        (k v : Bytes)
        → IsStorable k v
        → Post (λ _ db'. Holds (update m k v) db db') (λ db'. Refines db' m) (put k v db)
    unfolding put put_index
    put-Post k v h = elim (Bool-cases (length k == 0)) [
      | inl empty ↦ rw empty r
      | inr some_key ↦
          let fit = value_record-IsFit k v non_transaction_seq_no h in
          rw some_key (
            Post-continue (λ pos db'. Appended (value_record k non_transaction_seq_no v) db pos db')
              (λ db'. Extends db db') (λ _ db'. Holds (update m k v) db db') (λ db'. Refines db' m)
              _ _
              (append_log_record-Post (value_record k non_transaction_seq_no v) db wf spare
                (encode_log_record_size-lt _ fit))
              (λ pos db1 a. record {
                refines =
                    Refines-put db1 m k v pos _ (Refines-Extends a.extends r)
                      (Appended-IsPos wf.small a)
                      (Appended-Stored k v non_transaction_seq_no fit a);
                wf = IsWf-reindexed _ _ db1 a.wf;
                next = a.next;
              })
              (λ db1 x. Refines-Extends x r))
    ]

    abbrev deletion : Bytes → LogRecord
    deletion k = record {
      key = log_record_key_with_seq k non_transaction_seq_no;
      value = [];
      type = log_record_deleted;
    }

    deletion-IsFit : (k : Bytes) → length k + 10 < 2 ^ 32 → IsFit (deletion k)
    deletion-IsFit k h = record {
      key_fits = omega (arith, length-log_record_key_with_seq k non_transaction_seq_no);
      value_fits = omega arith;
    }

    -- A key that is not there is not deleted from the log, and the map has nothing at it.
    erase_missing : (k : Bytes) → ix.get k db.index ≡ none → Refines db (erase m k)
    erase_missing k e = record {
      entries = λ j. elim (Bool-cases (k =? j)) [
        | inl t ↦
            rw t
              (subst (λ u. Entry db u (ix.get u db.index) none) ((bytes_beq_iff k j).0 t) (rw e tt))
        | inr t ↦ rw t (r.entries j)
      ];
      small = r.small;
    }

    deleted-Post :
        (k : Bytes) (known : LogRecordPos) (pos : LogRecordPos) (db1 : Db ix)
        → ix.get k db.index ≡ some known
        → Appended (deletion k) db pos db1
        → Post
            (λ _ db'. Holds (erase m k) db db')
            (λ db'. Refines db' m)
            (delete_index k (add_reclaim pos.size db1))
    unfolding delete_index
    deleted-Post k known pos db1 e a =
        let there : ix.get k db1.index ≡ some known = ap (ix.get k) a.extends.frame.index ∙ e in
        let old : (ix.delete k db1.index).1 ≡ (some known, true) =
          ix.delete_old k db1.index ∙ ap (λ (o : Option LogRecordPos). (o, is_some o)) there in
        rw old (record {
          refines = Refines-delete db1 m k _ (Refines-Extends a.extends r);
          wf = IsWf-reindexed _ _ db1 a.wf;
          next = a.next;
        })

    delete_known-Post :
        (k : Bytes) (known : Option LogRecordPos)
        → ix.get k db.index ≡ known
        → length k + 10 < 2 ^ 32
        → Post (λ _ db'. Holds (erase m k) db db') (λ db'. Refines db' m) (delete_known k known db)
    delete_known-Post k none e h = record {
      refines = erase_missing k e;
      wf = wf;
      next = omega arith;
    }
    delete_known-Post k (some known) e h =
        Post-continue (λ pos db'. Appended (deletion k) db pos db') (λ db'. Extends db db')
          (λ _ db'. Holds (erase m k) db db') (λ db'. Refines db' m) _ _
          (append_log_record-Post (deletion k) db wf spare
            (encode_log_record_size-lt _ (deletion-IsFit k h)))
          (λ pos db1 a. deleted-Post k known pos db1 e a) (λ db1 x. Refines-Extends x r)

    -- From a well-formed database that holds a map, with a file id to spare and a key that a
    -- header can hold, Delete ends without a panic whatever the disk answers: it returns with
    -- the key erased from the map and the database well-formed, or it fails and the database
    -- still holds the map.
    pub delete-Post :
        (k : Bytes)
        → length k + 10 < 2 ^ 32
        → Post (λ _ db'. Holds (erase m k) db db') (λ db'. Refines db' m) (delete k db)
    unfolding delete
    delete-Post k h = elim (Bool-cases (length k == 0)) [
      | inl empty ↦ rw empty r
      | inr some_key ↦ rw some_key (delete_known-Post k (ix.get k db.index) refl h)
    ]
