-- ===== src/Batch/Durable/Publish.antt =====
-- batch.go: the second loop of Commit, and the index key by key.
use bitcask_go.Common.{
  ◌≡◌, refl, sym, ap, subst, ◌∙◌, Bool-cases, inl, inr, none, some, List, [], ◌∷◌, Bytes, All,
}
use bitcask_go.Common.Assoc.{Assoc, lookup}
use bitcask_go.Common.Eq.{◌=?◌, bytes_eq, bytes_beq_iff}
use bitcask_go.Common.Exec.Post.{Post, Post-continue, Post-mono}
use bitcask_go.Data.Record.{LogRecord, LogRecordPos}
use bitcask_go.Index.{Indexer, IsPos}
use bitcask_go.Batch.{drop_index, publish, publish_all}
use bitcask_go.Batch.Append.{IsPending, record_at, Distinct}
use bitcask_go.Batch.Durable.{chosen}
use bitcask_go.Db.State.{Db}
use bitcask_go.Db.Ops.{put_index}
use bitcask_go.Db.Load.Replay.{Reindexed, Reindexed-refl, Reindexed-trans}

-- Where a loop finds the position of a record.
pub record HasPos (positions : Assoc Bytes LogRecordPos) (r : LogRecord) : Type 0 where
  pub pos : LogRecordPos
  pub known : lookup r.key positions ≡ some pos
  pub is_pos : IsPos pos

module _ {ix : Indexer} where
  -- The index has the chosen positions, and only it and the reclaim counter changed.
  pub record Indexed (positions : Assoc Bytes LogRecordPos) (rs : List LogRecord) (db db' : Db ix)
      : Type 0 where
    pub only : Reindexed db db'
    pub shows :
        (k : Bytes)
        → ix.get k db'.index ≡ chosen (record_at k rs) (lookup k positions) (ix.get k db.index)

  publish-Indexed :
      (positions : Assoc Bytes LogRecordPos) (r : LogRecord) (db : Db ix)
      → HasPos positions r
      → IsPending r
      → Post (λ _ db'. Indexed positions (r ∷ []) db db') (λ _. ⊥) (publish positions r db)
  unfolding publish put_index drop_index record_at
  publish-Indexed positions r db p pending = elim pending.type [
    | inl normal ↦
        rw (normal, p.known)
          (record {
            only = record { index = _; reclaim = _; at = refl };
            shows = λ k.
                ix.get-put r.key k p.pos db.index p.is_pos ∙ elim (Bool-cases (r.key =? k)) [
                  | inl t ↦ rw t (
                      sym p.known
                      ∙ ap (λ (j : Bytes). lookup j positions) ((bytes_beq_iff r.key k).0 t))
                  | inr t ↦ rw t refl
                ];
          })
    | inr deletion ↦ rw deletion (record {
      only = record { index = _; reclaim = _; at = refl };
      shows = λ k.
          ix.get-delete r.key k db.index
          ∙ elim (Bool-cases (r.key =? k)) [ inl t ↦ rw t refl | inr t ↦ rw t refl ];
    })
  ]

  Indexed-cons :
      (positions : Assoc Bytes LogRecordPos) (r : LogRecord) (rs : List LogRecord) (a b c : Db ix)
      → record_at r.key rs ≡ none
      → Indexed positions (r ∷ []) a b
      → Indexed positions rs b c
      → Indexed positions (r ∷ rs) a c
  unfolding record_at
  Indexed-cons positions r rs a b c fresh one rest = record {
    only = Reindexed-trans one.only rest.only;
    shows = λ k. rest.shows k ∙ elim (Bool-cases (r.key =? k)) [
      | inl t ↦
          let gone : record_at k rs ≡ none =
            subst (λ u. record_at u rs ≡ none) ((bytes_beq_iff r.key k).0 t) fresh in
          rw (gone, t) (rw t at (one.shows k))
      | inr t ↦
          rw t
            (ap (λ old. chosen (record_at k rs) (lookup k positions) old) (rw t at (one.shows k)))
    ];
  }

  pub publish_all-Indexed :
      (positions : Assoc Bytes LogRecordPos) (rs : List LogRecord) (db : Db ix)
      → All (HasPos positions) rs
      → All IsPending rs
      → Distinct rs
      → Post (λ _ db'. Indexed positions rs db db') (λ _. ⊥) (publish_all positions rs db)
  unfolding publish_all record_at
  publish_all-Indexed positions [] db p pending distinct = record {
    only = Reindexed-refl db;
    shows = λ k. refl;
  }
  publish_all-Indexed positions (r ∷ rs) db p pending distinct =
      Post-continue (λ _ db1. Indexed positions (r ∷ []) db db1) (λ _. ⊥)
        (λ _ db'. Indexed positions (r ∷ rs) db db') (λ _. ⊥) _ _
        (publish-Indexed positions r db p.0 pending.0)
        (λ _ db1 one.
          Post-mono (λ _ db'. Indexed positions rs db1 db')
            (λ _ db'. Indexed positions (r ∷ rs) db db') (λ _. ⊥) (λ _. ⊥) _
            (publish_all-Indexed positions rs db1 p.1 pending.1 distinct.1)
            (λ _ db' rest. Indexed-cons positions r rs db db1 db' distinct.0 one rest) (λ _ x. x))
        (λ _ x. x)
