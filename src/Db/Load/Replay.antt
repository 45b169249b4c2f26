-- ===== src/Db/Load/Replay.antt =====
-- Loading the entries of a log gives the index that the log stands for.
use bitcask_go.Common.{
  ℕ, ◌≡◌, refl, sym, ap, subst, ◌∙◌, Bool-cases, inl, inr, none, some, List, [], ◌∷◌, ◌++◌, map,
  Bytes, All, All-snoc, ◌==◌, if◌then◌else◌,
}
use mathlib.Core.List.{map-append}
use bitcask_go.Common.Assoc.{lookup, insert, remove, lookup-insert, lookup-remove}
use bitcask_go.Common.Eq.{◌=?◌, bytes_eq, nat_eq}
use bitcask_go.Data.Record.{
  LogRecordPos, TransactionRecord, log_record_deleted, log_record_txn_finished,
}
use bitcask_go.Index.{Indexer, IsPos}
use bitcask_go.Batch.Key.{non_transaction_seq_no}
use bitcask_go.Db.State.{Db}
use bitcask_go.Db.Refine.Writes.{reindexed}
use bitcask_go.Db.Load.{update_index}
use bitcask_go.Db.Load.Loop.{Loading, max, or_nil, update_all, load_parsed}
use bitcask_go.Db.Load.Scan.{load_entries}
use bitcask_go.Db.Log.{
  Logged, to_record, Entry, Positions, apply_entry, apply_entries, Recovered, at_seq, recover_entry,
  recover,
}

-- How an entry that waits is kept.
abbrev pub to_transaction : Entry → TransactionRecord
to_transaction (l, pos) = record {
  record_of = record { key = l.key; value = l.value; type = l.type };
  pos = pos;
}

abbrev pub IsPosEntry : Entry → Type 0
IsPosEntry (l, pos) = IsPos pos

waiting_pos :
    (n : ℕ) (es : List Entry) (r : Recovered)
    → All IsPosEntry es
    → ((j : ℕ) → All IsPosEntry (r.waiting j))
    → (j : ℕ) → All IsPosEntry (at_seq n es r.waiting j)
waiting_pos n es r p h j = elim (Bool-cases (n == j)) [ inl t ↦ rw t p | inr t ↦ rw t (h j) ]

module _ {ix : Indexer} where
  abbrev pub Shows : Db ix → Positions → Type 0
  Shows db at = (k : Bytes) → ix.get k db.index ≡ at k

  -- Only the index and the reclaim counter changed.
  pub record Reindexed (db db' : Db ix) : Type 0 where
    pub index : ix.Index
    pub reclaim : ℕ
    pub at : db' ≡ reindexed index reclaim db

  pub Reindexed-refl : (db : Db ix) → Reindexed db db
  Reindexed-refl db = record { index = db.index; reclaim = db.reclaim_size; at = refl }

  pub Reindexed-trans : {a b c : Db ix} → Reindexed a b → Reindexed b c → Reindexed a c
  Reindexed-trans p q = record {
    index = q.index;
    reclaim = q.reclaim;
    at = q.at ∙ ap (λ t. reindexed q.index q.reclaim t) p.at;
  }

  update_index-Shows :
      (l : Logged) (pos : LogRecordPos) (db : Db ix) (at : Positions)
      → IsPos pos
      → Shows db at
      → Shows (update_index l.key l.type pos db) (apply_entry (l, pos) at)
        × Reindexed db (update_index l.key l.type pos db)
  unfolding update_index
  update_index-Shows l pos db at p h = elim (Bool-cases (l.type == log_record_deleted)) [
    | inl t ↦ rw t (
      λ k. ix.get-delete l.key k db.index ∙ ap (λ o. if l.key =? k then none else o) (h k),
      record { index = _; reclaim = _; at = refl },
    )
    | inr t ↦ rw t (
      λ k. ix.get-put l.key k pos db.index p ∙ ap (λ o. if l.key =? k then some pos else o) (h k),
      record { index = _; reclaim = _; at = refl },
    )
  ]

  update_all-Shows :
      (es : List Entry) (db : Db ix) (at : Positions)
      → All IsPosEntry es
      → Shows db at
      → Shows (update_all (map to_transaction es) db) (apply_entries es at)
        × Reindexed db (update_all (map to_transaction es) db)
  unfolding update_all apply_entries
  update_all-Shows [] db at p h = (h, Reindexed-refl db)
  update_all-Shows ((l, pos) ∷ es) db at p h =
      let one = update_index-Shows l pos db at p.0 h in
      let rest =
        update_all-Shows es (update_index l.key l.type pos db) (apply_entry (l, pos) at) p.1
          one.0 in
      (rest.0, Reindexed-trans one.1 rest.1)

  -- The variables of the loop stand for what the log has so far.
  pub record Tracks (s : Loading ix) (r : Recovered) : Type 0 where
    pub shows : Shows s.db r.index
    pub waiting :
        (n : ℕ) → or_nil (lookup n s.transaction_records) ≡ map to_transaction (r.waiting n)
    pub waiting-IsPos : (n : ℕ) → All IsPosEntry (r.waiting n)
    pub seq_no : s.current_seq_no ≡ r.seq_no

  waiting-remove :
      (n : ℕ) (s : Loading ix) (r : Recovered)
      → Tracks s r
      → (j : ℕ)
      → or_nil (lookup j (remove n s.transaction_records))
        ≡ map to_transaction (at_seq n [] r.waiting j)
  waiting-remove n s r h j = elim (Bool-cases (n == j)) [
    | inl t ↦ rw (lookup-remove n j s.transaction_records, t) refl
    | inr t ↦ rw (lookup-remove n j s.transaction_records, t) (h.waiting j)
  ]

  waiting-insert :
      (n : ℕ) (e : Entry) (s : Loading ix) (r : Recovered)
      → Tracks s r
      → (j : ℕ)
      → or_nil (
          lookup j (
            insert n
              (or_nil (lookup n s.transaction_records) ++ to_transaction e ∷ [])
              s.transaction_records))
        ≡ map to_transaction (at_seq n (r.waiting n ++ e ∷ []) r.waiting j)
  waiting-insert n e s r h j =
      let more = or_nil (lookup n s.transaction_records) ++ to_transaction e ∷ [] in
      elim (Bool-cases (n == j)) [
        | inl t ↦
            rw (lookup-insert n j more s.transaction_records, t)
              (ap (λ ts. ts ++ to_transaction e ∷ []) (h.waiting n)
                ∙ sym (map-append to_transaction (r.waiting n) (e ∷ [])))
        | inr t ↦ rw (lookup-insert n j more s.transaction_records, t) (h.waiting j)
      ]

  load_parsed-Tracks :
      (l : Logged) (pos : LogRecordPos) (s : Loading ix) (r : Recovered)
      → IsPos pos
      → Tracks s r
      → Tracks (load_parsed (to_record l) pos l.key l.seq_no s) (recover_entry (l, pos) r)
        × Reindexed s.db (load_parsed (to_record l) pos l.key l.seq_no s).db
  unfolding load_parsed recover_entry
  load_parsed-Tracks l pos s r p h =
      let highest : max s.current_seq_no l.seq_no ≡ max r.seq_no l.seq_no =
        ap (λ (n : ℕ). max n l.seq_no) h.seq_no in
      elim (Bool-cases (l.seq_no == non_transaction_seq_no)) [
        | inl t ↦
            let one = update_index-Shows l pos s.db r.index p h.shows in
            rw t (
              record {
                shows = one.0;
                waiting = h.waiting;
                waiting-IsPos = h.waiting-IsPos;
                seq_no = highest;
              },
              one.1,
            )
        | inr t ↦ elim (Bool-cases (l.type == log_record_txn_finished)) [
          | inl u ↦
              let all =
                update_all-Shows (r.waiting l.seq_no) s.db r.index (h.waiting-IsPos l.seq_no)
                  h.shows in
              let all' =
                subst
                  (λ ts.
                    Shows (update_all ts s.db) (apply_entries (r.waiting l.seq_no) r.index)
                    × Reindexed s.db (update_all ts s.db))
                  (sym (h.waiting l.seq_no)) all in
              rw (t, u)
                (
                  record {
                    shows = all'.0;
                    waiting = waiting-remove l.seq_no s r h;
                    waiting-IsPos = waiting_pos l.seq_no [] r tt h.waiting-IsPos;
                    seq_no = highest;
                  },
                  all'.1,
                )
          | inr u ↦
              rw (t, u)
                (
                  record {
                    shows = h.shows;
                    waiting = waiting-insert l.seq_no (l, pos) s r h;
                    waiting-IsPos =
                        waiting_pos l.seq_no (r.waiting l.seq_no ++ (l, pos) ∷ []) r
                          (All-snoc IsPosEntry (r.waiting l.seq_no) (l, pos)
                            (h.waiting-IsPos l.seq_no) p)
                          h.waiting-IsPos;
                    seq_no = highest;
                  },
                  Reindexed-refl s.db,
                )
        ]
      ]

  -- The loop and the specification, entry by entry.
  pub load_entries-Tracks :
      (es : List Entry) (s : Loading ix) (r : Recovered)
      → All IsPosEntry es
      → Tracks s r
      → Tracks (load_entries es s) (recover es r) × Reindexed s.db (load_entries es s).db
  unfolding load_entries recover
  load_entries-Tracks [] s r p h = (h, Reindexed-refl s.db)
  load_entries-Tracks ((l, pos) ∷ es) s r p h =
      let one = load_parsed-Tracks l pos s r p.0 h in
      let rest =
        load_entries-Tracks es (load_parsed (to_record l) pos l.key l.seq_no s)
          (recover_entry (l, pos) r) p.1 one.0 in
      (rest.0, Reindexed-trans one.1 rest.1)
