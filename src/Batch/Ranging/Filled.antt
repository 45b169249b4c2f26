-- ===== src/Batch/Ranging/Filled.antt =====
-- A batch that is filled by a client, and the map that its Commit makes.
use bitcask_go.Common.{
  ℕ, ◌+◌, ◌≤◌, ◌<◌, ◌^◌, ◌≡◌, refl, sym, ap, subst, ◌∙◌, Bool-cases, inl, inr, false, Option, none,
  some, [], ◌∷◌, Bytes, length, ◌==◌, if◌then◌else◌, arith,
}
use bitcask_go.Common.Assoc.{Assoc, lookup, insert, remove, lookup-insert, lookup-remove}
use bitcask_go.Common.Eq.{◌=?◌, bytes_eq, bytes_beq_iff}
use bitcask_go.Common.Exec.Post.{Post, Post-mono}
use bitcask_go.Common.Result.{Res, ok}
use bitcask_go.Data.Record.{LogRecord, LogRecordPos, log_record_normal, log_record_deleted}
use bitcask_go.Index.{Indexer, b_plus_tree}
use bitcask_go.Batch
use bitcask_go.Batch.{WriteBatch, WriteBatchOptions, stage_deletion, new_write_batch}
use bitcask_go.Batch.Commit.{batch_over, IsBatch, Committed, commit-Post}
use bitcask_go.Batch.Publish.{Refines-same}
use bitcask_go.Batch.Stage.{Stages, insert-Stages, stage_deletion-Stages, unindexed}
use bitcask_go.Batch.Ranging.{Ranging, IsKeyed, IsRanging, put_in, delete_in, commit_in}
use bitcask_go.Db.State.{Db}
use bitcask_go.Db.Invariant.{IsWf, active_id}
use bitcask_go.Db.Refine.{Contents, update, erase, Refines}
use bitcask_go.Db.Refine.Writes.{IsStorable}

length-insert :
    {V : Type 0} (k : Bytes) (v : V) (m : Assoc Bytes V) → length (insert k v m) ≤ length m + 1
unfolding insert
length-insert k v [] = omega arith
length-insert k v ((j, w) ∷ m) = ground (arith, length-insert k v m)

length-remove : {V : Type 0} (k : Bytes) (m : Assoc Bytes V) → length (remove k m) ≤ length m
unfolding remove
length-remove k [] = omega arith
length-remove k ((j, w) ∷ m) = ground (arith, length-remove k m)

-- The batch wb stands for the map m', over the map m of the database, with n writes at most.
pub record Filled (m m' : Contents) (n : ℕ) (wb : WriteBatch) : Type 0 where
  pub stands : (j : Bytes) → batch_over wb m j ≡ m' j
  pub is_batch : IsBatch wb
  pub keyed : IsKeyed wb
  pub bounded : length wb.pending_writes ≤ n

pub new-Filled :
    (m : Contents) (opts : WriteBatchOptions)
    → Filled m m 0 (record { options = opts; pending_writes = [] })
unfolding lookup
new-Filled m opts = record {
  stands = λ j. refl;
  is_batch = λ k r e. cc;
  keyed = λ k r e. cc;
  bounded = omega arith;
}

insert-IsKeyed :
    (wb : WriteBatch) (r : LogRecord)
    → IsKeyed wb
    → IsKeyed (record wb { pending_writes = insert r.key r wb.pending_writes })
insert-IsKeyed wb r h k s e = elim (Bool-cases (r.key =? k)) [
  | inl t ↦
      let same : r ≡ s = cc (rw t at (sym (lookup-insert r.key k r wb.pending_writes) ∙ e)) in
      ap (λ (x : LogRecord). x.key) (sym same) ∙ (bytes_beq_iff r.key k).0 t
  | inr t ↦ h k s (rw t at (sym (lookup-insert r.key k r wb.pending_writes) ∙ e))
]

remove-IsKeyed :
    (wb : WriteBatch) (k : Bytes)
    → IsKeyed wb
    → IsKeyed (record wb { pending_writes = remove k wb.pending_writes })
remove-IsKeyed wb k h j s e = elim (Bool-cases (k =? j)) [
  | inl t ↦ cc (rw t at (sym (lookup-remove k j wb.pending_writes) ∙ e))
  | inr t ↦ h j s (rw t at (sym (lookup-remove k j wb.pending_writes) ∙ e))
]

update-same :
    (m m' : Contents) (k v : Bytes)
    → ((j : Bytes) → m j ≡ m' j)
    → (j : Bytes) → update m k v j ≡ update m' k v j
update-same m m' k v h j = ap (λ (o : Option Bytes). if k =? j then some v else o) (h j)

erase-same :
    (m m' : Contents) (k : Bytes)
    → ((j : Bytes) → m j ≡ m' j)
    → (j : Bytes) → erase m k j ≡ erase m' k j
erase-same m m' k h j = ap (λ (o : Option Bytes). if k =? j then none else o) (h j)

pub put_in-Filled :
    (m m' : Contents) (n : ℕ) (k v : Bytes) (wb : WriteBatch)
    → (length k == 0) ≡ false
    → IsStorable k v
    → Filled m m' n wb
    → Filled m (update m' k v) (n + 1) (put_in k v wb)
unfolding Batch.put
put_in-Filled m m' n k v wb some_key h f =
    let s : Stages m (update (batch_over wb m) k v) wb (staged wb) =
      insert-Stages wb m k (value_of k v) (record { storable = h; type = inl refl }) in
    let is : put_in k v wb ≡ staged wb =
      ap (λ (x : WriteBatch × Res (Unit {0})). x.0)
        (let put_is : Batch.put k v wb ≡ (staged wb, ok tt) = rw some_key refl in put_is) in
    subst (λ (t : WriteBatch). Filled m (update m' k v) (n + 1) t) (sym is)
      (record {
        stands = λ j. s.stands j ∙ update-same (batch_over wb m) m' k v f.stands j;
        is_batch = s.is_batch f.is_batch;
        keyed = insert-IsKeyed wb (record { key = k; value = v; type = log_record_normal }) f.keyed;
        bounded = omega (arith, length-insert k (value_of k v) wb.pending_writes, f.bounded);
      })
  where
    value_of : Bytes → Bytes → LogRecord
    value_of k v = record { key = k; value = v; type = log_record_normal }

    staged : WriteBatch → WriteBatch
    staged wb = record wb { pending_writes = insert k (value_of k v) wb.pending_writes }

stage_deletion-IsKeyed :
    (k : Bytes) (p : Option LogRecordPos) (wb : WriteBatch)
    → IsKeyed wb
    → IsKeyed (record wb { pending_writes = stage_deletion k p wb.pending_writes })
stage_deletion-IsKeyed k none wb h = remove-IsKeyed wb k h
stage_deletion-IsKeyed k (some p) wb h =
    insert-IsKeyed wb (record { key = k; value = []; type = log_record_deleted }) h

length-stage_deletion :
    (k : Bytes) (p : Option LogRecordPos) (pending : Assoc Bytes LogRecord)
    → length (stage_deletion k p pending) ≤ length pending + 1
length-stage_deletion k none pending = omega (arith, length-remove k pending)
length-stage_deletion k (some p) pending =
    length-insert k (record { key = k; value = []; type = log_record_deleted }) pending

module _ {ix : Indexer} where
  pub delete_in-Filled :
      (db : Db ix) (m m' : Contents) (n : ℕ) (k : Bytes) (wb : WriteBatch)
      → (length k == 0) ≡ false
      → length k + 10 < 2 ^ 32
      → Refines db m
      → Filled m m' n wb
      → Filled m (erase m' k) (n + 1) (delete_in k db wb)
  unfolding Batch.delete
  delete_in-Filled db m m' n k wb some_key h r f =
      let s : Stages m (erase (batch_over wb m) k) wb (staged wb) =
        stage_deletion-Stages wb m k (ix.get k db.index) (unindexed db m k r) h in
      let is : delete_in k db wb ≡ staged wb =
        ap (λ (x : WriteBatch × Res (Unit {0})). x.0)
          (let delete_is : Batch.delete k db wb ≡ (staged wb, ok tt) = rw some_key refl in
            delete_is) in
      subst (λ (t : WriteBatch). Filled m (erase m' k) (n + 1) t) (sym is)
        (record {
          stands = λ j. s.stands j ∙ erase-same (batch_over wb m) m' k f.stands j;
          is_batch = s.is_batch f.is_batch;
          keyed = stage_deletion-IsKeyed k (ix.get k db.index) wb f.keyed;
          bounded =
              omega
                (arith, length-stage_deletion k (ix.get k db.index) wb.pending_writes, f.bounded);
        })
    where
      staged : WriteBatch → WriteBatch
      staged wb = record wb {
        pending_writes = stage_deletion k (ix.get k db.index) wb.pending_writes;
      }

  -- Commit of a batch that stands for m' makes the database hold m'.
  pub commit_in-Post :
      (g : Ranging) (db : Db ix) (m m' : Contents) (n : ℕ) (wb : WriteBatch)
      → IsRanging g
      → Filled m m' n wb
      → Refines db m
      → IsWf db
      → active_id db.active_file + (n + 1) < 2 ^ 32
      → Post (λ _ db'. Committed (n + 1) m' db db') (λ db'. Refines db' m) (commit_in g wb db)
  commit_in-Post g db m m' n wb ranging f r wf spare =
      let log = ranging.log.ranges wb f.keyed in
      let index = ranging.index.ranges wb f.keyed in
      let few : length (g.log_order wb) ≤ n = omega (arith, ranging.log.bounded wb, f.bounded) in
      Post-mono
        (λ (wb' : WriteBatch) db'.
          (wb'.pending_writes ≡ [])
          × Committed (length (g.log_order wb) + 1) (batch_over wb m) db db')
        (λ _ db'. Committed (n + 1) m' db db') (λ db'. Refines db' m) (λ db'. Refines db' m) _
        (commit-Post wb (g.log_order wb) (g.index_order wb) f.is_batch log index db m r wf
          (omega (arith, few, spare)))
        (λ wb' db' h. record {
          refines = Refines-same db' (batch_over wb m) m' f.stands h.1.refines;
          wf = h.1.wf;
          next = omega (arith, few, h.1.next);
        })
        (λ db' h. h)

  -- An index in memory never lacks its sequence number.
  pub new_write_batch-ok :
      (opts : WriteBatchOptions) (db : Db ix)
      → (db.options.indexer_type == b_plus_tree) ≡ false
      → new_write_batch opts db ≡ ok (record { options = opts; pending_writes = [] })
  unfolding new_write_batch
  new_write_batch-ok opts db h = rw h refl
