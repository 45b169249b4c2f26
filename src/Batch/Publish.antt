-- ===== src/Batch/Publish.antt =====
-- batch.go: the second loop of Commit, which updates the index.
use bitcask_go.Common.{
  ℕ, ◌≡◌, refl, ◌∙◌, sym, subst, Bool-cases, inl, inr, Option, none, some, List, [], ◌∷◌, Bytes,
  All, ◌==◌, if◌then◌else◌,
}
use bitcask_go.Common.Assoc.{Assoc}
use bitcask_go.Common.Eq.{◌=?◌, bytes_eq, beq_self, bytes_beq_iff}
use bitcask_go.Common.Exec.Post.{Post, Post-continue, Post-mono}
use bitcask_go.Data.Record.{LogRecord, LogRecordPos, log_record_normal}
use bitcask_go.Index.{Indexer}
use bitcask_go.Batch.{drop_index, publish, publish_all}
use bitcask_go.Batch.Append.{IsPending, record_at, Distinct, Placed}
use bitcask_go.Db.State.{Db}
use bitcask_go.Db.Ops.{put_index}
use bitcask_go.Db.Invariant.{IsWf}
use bitcask_go.Db.Refine.{Contents, update, erase, Entry, Refines}
use bitcask_go.Db.Refine.Writes.{
  reindexed, IsWf-reindexed, IsOpen-reindexed, Refines-put, Refines-delete,
}

-- What a pending record makes of the value of its key.
abbrev pub over : Option LogRecord → Option Bytes → Option Bytes
over none v = v
over (some r) v = if r.type == log_record_normal then some r.value else none

-- A map with the pending records written over it.
abbrev pub overlaid : List LogRecord → Contents → Contents
overlaid rs m k = over (record_at k rs) (m k)

abbrev written_over : LogRecord → Contents → Contents
written_over r m = if r.type == log_record_normal then update m r.key r.value else erase m r.key

overlaid-cons :
    (r : LogRecord) (rs : List LogRecord) (m : Contents)
    → record_at r.key rs ≡ none
    → (k : Bytes) → overlaid rs (written_over r m) k ≡ overlaid (r ∷ rs) m k
unfolding record_at
overlaid-cons r rs m fresh k = elim (Bool-cases (r.key =? k)) [
  | inl same ↦
      let here : record_at k rs ≡ none =
        subst (λ t. record_at t rs ≡ none) ((bytes_beq_iff r.key k).0 same) fresh in
      elim (Bool-cases (r.type == log_record_normal)) [
        | inl t ↦ rw (same, here, t, same)
        | inr t ↦ rw (same, here, t, same)
      ]
  | inr apart ↦ elim (Bool-cases (r.type == log_record_normal)) [
    | inl t ↦ rw (apart, t, apart)
    | inr t ↦ rw (apart, t, apart)
  ]
]

-- To go from one order of the pending writes to another.
pub All-at :
    (P : LogRecord → Type 0) (k : Bytes) (rs : List LogRecord) (r : LogRecord)
    → All P rs
    → record_at k rs ≡ some r
    → P r
unfolding record_at
All-at P k [] r h e = cc
All-at P k (s ∷ rs) r h e = elim (Bool-cases (s.key =? k)) [
  | inl t ↦ let same : s ≡ r = cc (rw t at e) in subst P same h.0
  | inr t ↦ All-at P k rs r h.1 (rw t at e)
]

pub All-from :
    (P : LogRecord → Type 0) (rs : List LogRecord)
    → Distinct rs
    → ((k : Bytes) (r : LogRecord) → record_at k rs ≡ some r → P r)
    → All P rs
unfolding record_at
All-from P [] d h = tt
All-from P (s ∷ rs) d h = (
  h s.key s (rw (beq_self s.key) refl),
  All-from P rs d.1 (λ k r e. h k r (elim (Bool-cases (s.key =? k)) [
    | inl t ↦
        let gone : record_at k rs ≡ none =
          subst (λ u. record_at u rs ≡ none) ((bytes_beq_iff s.key k).0 t) d.0 in
        cc
    | inr t ↦ rw t e
  ])),
)

module _ {ix : Indexer} where
  pub Refines-same :
      (db : Db ix) (m m' : Contents) → ((k : Bytes) → m k ≡ m' k) → Refines db m → Refines db m'
  Refines-same db m m' same r = record {
    entries = λ k. subst (Entry db k (ix.get k db.index)) (same k) (r.entries k);
    small = r.small;
  }

  Placed-reindexed :
      (t : ix.Index) (n : ℕ) (db : Db ix) (positions : Assoc Bytes LogRecordPos) (r : LogRecord)
      → Placed db positions r
      → Placed (reindexed t n db) positions r
  Placed-reindexed t n db positions r p = record {
    pos = p.pos;
    known = p.known;
    is_pos = p.is_pos;
    stored = λ e.
        let s = p.stored e in
        record {
          seq_no = s.seq_no;
          fit = s.fit;
          holds = s.holds;
          is_open = IsOpen-reindexed t n db p.pos.fid s.is_open;
        };
  }

  -- Only the index and the reclaim counter changed, and the database holds m.
  pub record Published (m : Contents) (db db' : Db ix) : Type 0 where
    pub index : ix.Index
    pub reclaim : ℕ
    pub at : db' ≡ reindexed index reclaim db
    pub refines : Refines db' m

  publish-Post :
      (positions : Assoc Bytes LogRecordPos) (r : LogRecord) (db : Db ix) (m : Contents)
      → Placed db positions r
      → IsPending r
      → Refines db m
      → Post (λ _ db'. Published (written_over r m) db db') (λ _. ⊥) (publish positions r db)
  unfolding publish put_index drop_index
  publish-Post positions r db m p pending refines = elim (pending.type) [
    | inl normal ↦
        rw (normal, p.known)
          (record {
            index = _;
            reclaim = _;
            at = refl;
            refines = Refines-put db m r.key r.value p.pos _ refines p.is_pos (p.stored normal);
          })
    | inr deletion ↦ rw deletion (record {
      index = _;
      reclaim = _;
      at = refl;
      refines = Refines-delete db m r.key _ refines;
    })
  ]

  All-Placed-reindexed :
      (t : ix.Index) (n : ℕ) (db : Db ix) (positions : Assoc Bytes LogRecordPos)
      (rs : List LogRecord)
      → All (Placed db positions) rs
      → All (Placed (reindexed t n db) positions) rs
  All-Placed-reindexed t n db positions [] h = tt
  All-Placed-reindexed t n db positions (r ∷ rs) h =
      (Placed-reindexed t n db positions r h.0, All-Placed-reindexed t n db positions rs h.1)

  -- What the loop leaves behind.
  pub record AllPublished (m : Contents) (db db' : Db ix) : Type 0 where
    pub refines : Refines db' m
    pub wf : IsWf db'
    pub same_active : db'.active_file ≡ db.active_file

  publish_next :
      (positions : Assoc Bytes LogRecordPos) (r : LogRecord) (rs : List LogRecord) (m : Contents)
      (db db1 : Db ix)
      → Published (written_over r m) db db1
      → All (Placed db positions) rs
      → IsWf db
      → All (Placed db1 positions) rs × IsWf db1 × (db1.active_file ≡ db.active_file)
  publish_next positions r rs m db db1 p placed wf =
      subst (λ t. All (Placed t positions) rs × IsWf t × (t.active_file ≡ db.active_file))
        (sym p.at)
        (
          All-Placed-reindexed p.index p.reclaim db positions rs placed,
          IsWf-reindexed p.index p.reclaim db wf,
          refl,
        )

  -- The loop does not fail, and it writes every pending record over the map.
  pub publish_all-Post :
      (positions : Assoc Bytes LogRecordPos) (rs : List LogRecord) (db : Db ix) (m : Contents)
      → All (Placed db positions) rs
      → All IsPending rs
      → Distinct rs
      → Refines db m
      → IsWf db
      → Post (λ _ db'. AllPublished (overlaid rs m) db db') (λ _. ⊥) (publish_all positions rs db)
  unfolding publish_all record_at
  publish_all-Post positions [] db m placed pending distinct refines wf = record {
    refines = refines;
    wf = wf;
    same_active = refl;
  }
  publish_all-Post positions (r ∷ rs) db m placed pending distinct refines wf =
      Post-continue (λ _ db1. Published (written_over r m) db db1) (λ _. ⊥)
        (λ _ db'. AllPublished (overlaid (r ∷ rs) m) db db') (λ _. ⊥) _ _
        (publish-Post positions r db m placed.0 pending.0 refines)
        (λ _ db1 p.
          let next = publish_next positions r rs m db db1 p placed.1 wf in
          Post-mono (λ _ db'. AllPublished (overlaid rs (written_over r m)) db1 db')
            (λ _ db'. AllPublished (overlaid (r ∷ rs) m) db db') (λ _. ⊥) (λ _. ⊥) _
            (publish_all-Post positions rs db1 (written_over r m) next.0 pending.1 distinct.1
              p.refines next.1)
            (λ _ db' q. record {
              refines =
                  Refines-same db' (overlaid rs (written_over r m)) (overlaid (r ∷ rs) m)
                    (overlaid-cons r rs m distinct.0) q.refines;
              wf = q.wf;
              same_active = q.same_active ∙ next.2;
            })
            (λ _ h. h))
        (λ _ h. h)
