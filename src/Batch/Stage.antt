-- ===== src/Batch/Stage.antt =====
-- batch.go: WriteBatch.Put and WriteBatch.Delete, which only change the pending writes.
use bitcask_go.Common.{
  ◌+◌, ◌<◌, ◌^◌, ◌≡◌, refl, ◌∙◌, sym, subst, Bool, true, false, Bool-cases, inl, inr, Option, none,
  some, [], Bytes, length, ◌==◌, if◌then◌else◌, arith,
}
use bitcask_go.Common.Assoc.{insert, remove, lookup-insert, lookup-remove}
use bitcask_go.Common.Eq.{◌=?◌, bytes_eq, bytes_beq_iff}
use bitcask_go.Common.Result.{Res, ok, err, key_is_empty}
use bitcask_go.Data.Record.{LogRecord, LogRecordPos, log_record_normal, log_record_deleted}
use bitcask_go.Index.{Indexer}
use bitcask_go.Batch.{WriteBatch, put, delete, stage_deletion}
use bitcask_go.Batch.Append.{IsPending}
use bitcask_go.Batch.Publish.{over}
use bitcask_go.Batch.Commit.{batch_over, IsBatch}
use bitcask_go.Db.State.{Db}
use bitcask_go.Db.Refine.{Contents, update, erase, Entry, Refines}
use bitcask_go.Db.Refine.Writes.{IsStorable}

-- The batch wb' stands for m', and its records can be written where those of wb can.
pub record Stages (m m' : Contents) (wb wb' : WriteBatch) : Type 0 where
  pub stands : (j : Bytes) → batch_over wb' m j ≡ m' j
  pub is_batch : IsBatch wb → IsBatch wb'
  pub same_options : wb'.options ≡ wb.options

insert-IsBatch :
    (wb : WriteBatch) (k : Bytes) (r : LogRecord)
    → IsPending r
    → IsBatch wb
    → IsBatch (record wb { pending_writes = insert k r wb.pending_writes })
insert-IsBatch wb k r p b j s e = elim (Bool-cases (k =? j)) [
  | inl t ↦
      let same : r ≡ s = cc (rw t at (sym (lookup-insert k j r wb.pending_writes) ∙ e)) in
      subst IsPending same p
  | inr t ↦ b j s (rw t at (sym (lookup-insert k j r wb.pending_writes) ∙ e))
]

remove-IsBatch :
    (wb : WriteBatch) (k : Bytes)
    → IsBatch wb
    → IsBatch (record wb { pending_writes = remove k wb.pending_writes })
remove-IsBatch wb k b j s e = elim (Bool-cases (k =? j)) [
  | inl t ↦ cc (rw t at (sym (lookup-remove k j wb.pending_writes) ∙ e))
  | inr t ↦ b j s (rw t at (sym (lookup-remove k j wb.pending_writes) ∙ e))
]

-- A call that is refused leaves the batch as it was; another makes it stand for m'.
abbrev pub StagesUnless : Bool → Contents → Contents → WriteBatch → WriteBatch → Type 0
StagesUnless true m m' wb wb' = wb' ≡ wb
StagesUnless false m m' wb wb' = Stages m m' wb wb'

abbrev pub unless_empty : Bytes → Res (Unit {0})
unless_empty k = if length k == 0 then err key_is_empty else ok tt

pub insert-Stages :
    (wb : WriteBatch) (m : Contents) (k : Bytes) (r : LogRecord)
    → IsPending r
    → Stages m
        (λ j. if k =? j then over (some r) (m j) else batch_over wb m j)
        wb
        (record wb { pending_writes = insert k r wb.pending_writes })
insert-Stages wb m k r p = record {
  stands = λ j. elim (Bool-cases (k =? j)) [
    | inl t ↦ rw (lookup-insert k j r wb.pending_writes, t) refl
    | inr t ↦ rw (lookup-insert k j r wb.pending_writes, t) refl
  ];
  is_batch = insert-IsBatch wb k r p;
  same_options = refl;
}

-- WriteBatch.Put of a key and a value that a header can hold never panics. Where the key is not
-- empty it returns without an error, the batch then stands for the map with the key set to the
-- value, and its records can be written where they could before; where the key is empty it
-- fails with the error of an empty key and the batch is as it was.
pub put-Stages :
    (wb : WriteBatch) (m : Contents) (k v : Bytes)
    → IsStorable k v
    → (wb' : WriteBatch) × ((put k v wb ≡ (wb', unless_empty k))
        × StagesUnless (length k == 0) m (update (batch_over wb m) k v) wb wb')
unfolding put
put-Stages wb m k v h = elim (Bool-cases (length k == 0)) [
  | inl empty ↦ (wb, (rw empty refl, rw empty refl))
  | inr some_key ↦
      let r : LogRecord = record { key = k; value = v; type = log_record_normal } in
      (
        record wb { pending_writes = insert k r wb.pending_writes },
        (
          rw some_key refl,
          rw some_key (insert-Stages wb m k r (record { storable = h; type = inl refl })),
        ),
      )
]

pub stage_deletion-Stages :
    (wb : WriteBatch) (m : Contents) (k : Bytes) (p : Option LogRecordPos)
    → (p ≡ none → m k ≡ none)
    → length k + 10 < 2 ^ 32
    → Stages m
        (erase (batch_over wb m) k)
        wb
        (record wb { pending_writes = stage_deletion k p wb.pending_writes })
stage_deletion-Stages wb m k none gone h = record {
  stands = λ j. elim (Bool-cases (k =? j)) [
    | inl t ↦
        let missing : m j ≡ none = subst (λ i. m i ≡ none) ((bytes_beq_iff k j).0 t) (gone refl) in
        rw (lookup-remove k j wb.pending_writes, t) missing
    | inr t ↦ rw (lookup-remove k j wb.pending_writes, t) refl
  ];
  is_batch = remove-IsBatch wb k;
  same_options = refl;
}
stage_deletion-Stages wb m k (some p) gone h =
    insert-Stages wb m k (record { key = k; value = []; type = log_record_deleted })
      (record { storable = record { key_fits = h; value_fits = omega arith }; type = inr refl })

module _ {ix : Indexer} where
  -- Where the index has nothing at the key, the map has nothing there.
  pub unindexed :
      (db : Db ix) (m : Contents) (k : Bytes) → Refines db m → ix.get k db.index ≡ none → m k ≡ none
  unindexed db m k r e = no_entry (m k) (subst (λ p. Entry db k p (m k)) e (r.entries k))
    where
      no_entry : (v : Option Bytes) → Entry db k none v → v ≡ none
      no_entry none h = refl
      no_entry (some v) h = absurd h

  -- On a database that holds a map, WriteBatch.Delete of a key that a header can hold never
  -- panics. Where the key is not empty it returns without an error, the batch then stands for
  -- the map with the key erased, whether the index has the key or only the pending writes do,
  -- and its records can be written where they could before; where the key is empty it fails
  -- with the error of an empty key and the batch is as it was.
  pub delete-Stages :
      (db : Db ix) (wb : WriteBatch) (m : Contents) (k : Bytes)
      → Refines db m
      → length k + 10 < 2 ^ 32
      → (wb' : WriteBatch) × ((delete k db wb ≡ (wb', unless_empty k))
          × StagesUnless (length k == 0) m (erase (batch_over wb m) k) wb wb')
  unfolding delete
  delete-Stages db wb m k r h = elim (Bool-cases (length k == 0)) [
    | inl empty ↦ (wb, (rw empty refl, rw empty refl))
    | inr some_key ↦ (
      record wb { pending_writes = stage_deletion k (ix.get k db.index) wb.pending_writes },
      (
        rw some_key refl,
        rw some_key (stage_deletion-Stages wb m k (ix.get k db.index) (unindexed db m k r) h),
      ),
    )
  ]
