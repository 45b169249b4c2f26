-- ===== src/Db/Durable/Methods.antt =====
-- Put and Delete write to the log what they do to the index.
use bitcask_go.Common.{
  ℕ, ◌+◌, ◌^◌, ◌<◌, ◌≡◌, refl, sym, ap, ◌∙◌, true, Bool-cases, inl, inr, Option, none, some, List,
  [], ◌∷◌, ◌++◌, Bytes, length, ◌==◌, arith, if◌then◌else◌,
}
use bitcask_go.Common.Eq.{◌=?◌, bytes_eq}
use bitcask_go.Common.Exec.Post.{Post, Post-continue}
use bitcask_go.Data.Record.{LogRecordPos, log_record_normal, log_record_deleted}
use bitcask_go.Index.{Indexer, is_some}
use bitcask_go.Batch.Key.{non_transaction_seq_no}
use bitcask_go.Db.State.{Db, add_reclaim}
use bitcask_go.Db.Invariant.{IsWf, Extends, active_id}
use bitcask_go.Db.Append.Whole.{Appended, append_log_record-Post}
use bitcask_go.Db.Ops.{put_index, put, delete_index, delete_known, delete}
use bitcask_go.Db.Refine.{value_record}
use bitcask_go.Db.Refine.Writes.{
  IsStorable, value_record-IsFit, encode_log_record_size-lt, reindexed, Appended-IsPos,
}
use bitcask_go.Db.Load.Replay.{Shows}
use bitcask_go.Db.Log.{
  Logged, to_record, IsLogged, Entry, Positions, apply_entry, Recovered, recover_entry, recover,
  recover-append, nothing_recovered,
}
use bitcask_go.Db.Durable.{HasLog, Appended-HasLog}

abbrev pub recovered : List Entry → Recovered
recovered log = recover log nothing_recovered

-- A record outside transactions takes effect at once.
single :
    (l : Logged) (pos : LogRecordPos) (r : Recovered)
    → l.seq_no ≡ 0
    → ((recover_entry (l, pos) r).index ≡ apply_entry (l, pos) r.index)
      × ((recover_entry (l, pos) r).waiting ≡ r.waiting)
unfolding recover_entry
single l pos r e =
    let zero_seq : (l.seq_no == non_transaction_seq_no) ≡ true = ground (arith, e) in
    rw zero_seq (refl, refl)

pub recovered-snoc :
    (log : List Entry) (e : Entry) → recovered (log ++ e ∷ []) ≡ recover_entry e (recovered log)
unfolding recover
recovered-snoc log e = recover-append log (e ∷ []) nothing_recovered

-- A value or a deletion of the database itself.
abbrev pub own : Bytes → Bytes → ℕ → Logged
own k v type = record { key = k; seq_no = non_transaction_seq_no; value = v; type = type }

pub own-IsLogged : (k v : Bytes) (type : ℕ) → IsStorable k v → IsLogged (own k v type)
own-IsLogged k v type h = record {
  seq_fits = omega arith;
  fit =
      let f = value_record-IsFit k v non_transaction_seq_no h in
      record { key_fits = f.key_fits; value_fits = f.value_fits };
}

module _ {ix : Indexer} where
  -- The data files hold a log that stands for the index.
  pub record Durable (db : Db ix) : Type 0 where
    pub log : List Entry
    pub has_log : HasLog db log
    pub shows : Shows db (recovered log).index
    pub quiet : (n : ℕ) → db.seq_no < n → (recovered log).waiting n ≡ []

  pub HasLog-reindexed :
      (t : ix.Index) (n : ℕ) (db : Db ix) (log : List Entry)
      → HasLog db log
      → HasLog (reindexed t n db) log
  HasLog-reindexed t n db log h = record {
    olders = h.olders;
    records = h.records;
    below = h.below;
    bytes = h.bytes;
    logged = h.logged;
    entries = h.entries;
  }

  -- A record in the log, and its effect on the index.
  Durable-own :
      (db db1 : Db ix) (k v : Bytes) (type : ℕ) (pos : LogRecordPos) (t : ix.Index) (n : ℕ)
      → Durable db
      → IsStorable k v
      → IsWf db
      → Appended (to_record (own k v type)) db pos db1
      → ((j : Bytes)
          → ix.get j t ≡ (
              if k =? j
              then (if type == log_record_deleted then none else some pos)
              else ix.get j db1.index))
      → Durable (reindexed t n db1)
  Durable-own db db1 k v type pos t n d h wf a effect =
      let l = own k v type in
      let step = single l pos (recovered d.log) refl in
      let same : (j : Bytes) → ix.get j db1.index ≡ (recovered d.log).index j =
        λ j. ap (ix.get j) a.extends.frame.index ∙ d.shows j in
      record {
        log = d.log ++ (l, pos) ∷ [];
        has_log =
            HasLog-reindexed t n db1 (d.log ++ (l, pos) ∷ [])
              (Appended-HasLog db db1 d.log l pos d.has_log (own-IsLogged k v type h) wf a);
        shows = λ j.
            effect j
            ∙ ap
                (λ (o : Option LogRecordPos).
                  if k =? j then (if type == log_record_deleted then none else some pos) else o)
                (same j)
            ∙ ap (λ (f : Positions). f j) (sym step.0)
            ∙ ap (λ (r : Recovered). r.index j) (sym (recovered-snoc d.log (l, pos)));
        quiet = λ i h'.
            ap (λ (r : Recovered). r.waiting i) (recovered-snoc d.log (l, pos))
            ∙ ap (λ (f : ℕ → List Entry). f i) step.1
            ∙ d.quiet i (rw a.extends.frame.seq_no at h');
      }

  module _ (db : Db ix) (d : Durable db) (wf : IsWf db)
      (spare : active_id db.active_file + 1 < 2 ^ 32) where
    -- Where the data files of a well-formed database hold a log that stands for its index, with
    -- a file id to spare and a key and value that a header can hold, they do so again after a
    -- Put that returned, whatever the disk answered.
    pub put-Durable :
        (k v : Bytes) → IsStorable k v → Post (λ _ db'. Durable db') (λ _. Unit {0}) (put k v db)
    unfolding put put_index
    put-Durable k v h = elim (Bool-cases (length k == 0)) [
      | inl empty ↦ rw empty tt
      | inr some_key ↦ rw some_key (
          Post-continue (λ pos db1. Appended (value_record k non_transaction_seq_no v) db pos db1)
            (λ db1. Extends db db1) (λ _ db'. Durable db') (λ _. Unit {0}) _ _
            (append_log_record-Post (value_record k non_transaction_seq_no v) db wf spare
              (encode_log_record_size-lt _ (value_record-IsFit k v non_transaction_seq_no h)))
            (λ pos db1 a.
              Durable-own db db1 k v log_record_normal pos (ix.put k pos db1.index).0 _ d h wf a
                (λ j. ix.get-put k j pos db1.index (Appended-IsPos wf.small a)))
            (λ _ _. tt))
    ]

    deleted-Durable :
        (k : Bytes) (known : LogRecordPos) (pos : LogRecordPos) (db1 : Db ix)
        → length k + 10 < 2 ^ 32
        → ix.get k db.index ≡ some known
        → Appended (to_record (own k [] log_record_deleted)) db pos db1
        → Post (λ _ db'. Durable db') (λ _. Unit {0}) (delete_index k (add_reclaim pos.size db1))
    unfolding delete_index
    deleted-Durable k known pos db1 h e a =
        let there : ix.get k db1.index ≡ some known = ap (ix.get k) a.extends.frame.index ∙ e in
        let old : (ix.delete k db1.index).1 ≡ (some known, true) =
          ix.delete_old k db1.index ∙ ap (λ (o : Option LogRecordPos). (o, is_some o)) there in
        rw old (
          Durable-own db db1 k [] log_record_deleted pos (ix.delete k db1.index).0 _ d
            (record { key_fits = h; value_fits = omega arith }) wf a
            (λ j. ix.get-delete k j db1.index))

    delete_known-Durable :
        (k : Bytes) (known : Option LogRecordPos)
        → ix.get k db.index ≡ known
        → length k + 10 < 2 ^ 32
        → Post (λ _ db'. Durable db') (λ _. Unit {0}) (delete_known k known db)
    delete_known-Durable k none e h = d
    delete_known-Durable k (some known) e h =
        let fits : IsStorable k [] = record { key_fits = h; value_fits = omega arith } in
        Post-continue (λ pos db1. Appended (to_record (own k [] log_record_deleted)) db pos db1)
          (λ db1. Extends db db1) (λ _ db'. Durable db') (λ _. Unit {0}) _ _
          (append_log_record-Post (to_record (own k [] log_record_deleted)) db wf spare
            (encode_log_record_size-lt _ (own-IsLogged k [] log_record_deleted fits).fit))
          (λ pos db1 a. deleted-Durable k known pos db1 h e a) (λ _ _. tt)

    -- Where the data files of a well-formed database hold a log that stands for its index, with
    -- a file id to spare and a key that a header can hold, they do so again after a Delete that
    -- returned, whatever the disk answered.
    pub delete-Durable :
        (k : Bytes)
        → length k + 10 < 2 ^ 32
        → Post (λ _ db'. Durable db') (λ _. Unit {0}) (delete k db)
    unfolding delete
    delete-Durable k h = elim (Bool-cases (length k == 0)) [
      | inl empty ↦ rw empty tt
      | inr some_key ↦ rw some_key (delete_known-Durable k (ix.get k db.index) refl h)
    ]
