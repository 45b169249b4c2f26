-- ===== src/Tests/Batch.antt =====
-- Write batches, at concrete inputs.
use bitcask_go.Common.{
  ◌≡◌, refl, Bytes, subst, Bool-cases, none, false, [], ◌∷◌, List, inl, inr, true, Bool, some,
  arith, if◌then◌else◌,
}
use bitcask_go.Common.Assoc.{lookup}
use bitcask_go.Common.Eq.{◌=?◌, bytes_eq, bytes_beq, bytes_beq_iff}
use bitcask_go.Common.Exec.Post.{Post}
use bitcask_go.Data.Record.{LogRecord, log_record_normal, log_record_deleted}
use bitcask_go.Batch.{write_all, next_seq_no, WriteBatch, put, delete, commit}
use bitcask_go.Batch.Append.{IsPending, record_at}
use bitcask_go.Batch.Commit.{batch_over, IsOrder, IsBatch, Committed, commit-Post}
use bitcask_go.Batch.Stage.{StagesUnless, unless_empty, put-Stages, delete-Stages}
use bitcask_go.Db.Refine.{update, erase, Refines}
use bitcask_go.Batch.Stays.{resequenced}
use bitcask_go.Batch.Durable.Whole.{commit-Recoverable, unfinished-Recoverable}
use bitcask_go.Db.Durable.Restart.{Recoverable}
use bitcask_go.Tests.Recovery.{fresh-Durable}
use bitcask_go.Tests.Database.{fresh, nothing, fresh-Refines, fresh-IsWf, a_key, a_value}

abbrev put_record : LogRecord
put_record = record { key = a_key; value = a_value; type = log_record_normal }

abbrev delete_record : LogRecord
delete_record = record { key = b'j' ∷ []; value = []; type = log_record_deleted }

abbrev a_batch : WriteBatch
a_batch = record {
  options = record { max_batch_num = 10000; sync_writes = true };
  pending_writes = (a_key, put_record) ∷ (b'j' ∷ [], delete_record) ∷ [];
}

abbrev log_order : List LogRecord
log_order = delete_record ∷ put_record ∷ []

abbrev index_order : List LogRecord
index_order = put_record ∷ delete_record ∷ []

a_batch-IsBatch : IsBatch a_batch
unfolding lookup
a_batch-IsBatch k r = among (a_key =? k) (b'j' ∷ [] =? k)
  where
    among :
        (a b : Bool)
        → (if a then some put_record else if b then some delete_record else none) ≡ some r
        → IsPending r
    among true b e =
        let same : put_record ≡ r = cc e in
        subst IsPending same (record {
          storable = record { key_fits = omega arith; value_fits = omega arith };
          type = inl refl;
        })
    among false true e =
        let same : delete_record ≡ r = cc e in
        subst IsPending same (record {
          storable = record { key_fits = omega arith; value_fits = omega arith };
          type = inr refl;
        })
    among false false e = cc e

index_order-IsOrder : IsOrder a_batch index_order
unfolding lookup record_at bytes_beq
index_order-IsOrder = record { same = λ k. refl; distinct = (refl, (refl, tt)) }

log_order_at_j : record_at (b'j' ∷ []) log_order ≡ lookup (b'j' ∷ []) a_batch.pending_writes
unfolding lookup record_at bytes_beq
log_order_at_j = refl

log_order_same : (k : Bytes) → record_at k log_order ≡ lookup k a_batch.pending_writes
unfolding lookup record_at
log_order_same k = elim (Bool-cases (b'j' ∷ [] =? k)) [
  | inl t ↦
      subst (λ u. record_at u log_order ≡ lookup u a_batch.pending_writes)
        ((bytes_beq_iff (b'j' ∷ []) k).0 t) log_order_at_j
  | inr t ↦ rw t refl
]

log_order-IsOrder : IsOrder a_batch log_order
unfolding record_at bytes_beq
log_order-IsOrder = record { same = log_order_same; distinct = (refl, (refl, tt)) }

commit-Post_example :
    Post
      (λ wb' db'. (wb'.pending_writes ≡ []) × Committed 3 (batch_over a_batch nothing) fresh db')
      (λ db'. Refines db' nothing)
      (commit log_order index_order a_batch fresh)
commit-Post_example =
    commit-Post a_batch log_order index_order a_batch-IsBatch log_order-IsOrder index_order-IsOrder
      fresh nothing fresh-Refines fresh-IsWf (omega arith)

put-Stages_example :
    (wb' : WriteBatch) × ((put a_key [] a_batch ≡ (wb', unless_empty a_key))
      × StagesUnless false nothing (update (batch_over a_batch nothing) a_key []) a_batch wb')
put-Stages_example =
    put-Stages a_batch nothing a_key []
      (record { key_fits = omega arith; value_fits = omega arith })

-- The key that was put is not in the index yet.
delete-Stages_example :
    (wb' : WriteBatch) × ((delete a_key fresh a_batch ≡ (wb', unless_empty a_key))
      × StagesUnless false nothing (erase (batch_over a_batch nothing) a_key) a_batch wb')
delete-Stages_example = delete-Stages fresh a_batch nothing a_key fresh-Refines (omega arith)

commit-Recoverable_example :
    Post
      (λ _ db'. Recoverable (batch_over a_batch nothing) db')
      (λ db'. Refines db' nothing)
      (commit log_order index_order a_batch fresh)
commit-Recoverable_example =
    commit-Recoverable fresh fresh-Durable fresh-IsWf (omega arith) a_batch log_order index_order
      a_batch-IsBatch log_order-IsOrder index_order-IsOrder (omega arith) nothing fresh-Refines

-- Only the first record was written.
put_record-IsPending : IsPending put_record
put_record-IsPending = record {
  storable = record { key_fits = omega arith; value_fits = omega arith };
  type = inl refl;
}

unfinished-Recoverable_example :
    Post
      (λ _ db'. Recoverable nothing db')
      (λ _. Unit)
      (write_all (next_seq_no fresh) (put_record ∷ []) [] (resequenced (next_seq_no fresh) fresh))
unfolding record_at
unfinished-Recoverable_example =
    unfinished-Recoverable fresh fresh-Durable fresh-IsWf (omega arith) nothing (put_record ∷ [])
      fresh-Refines (put_record-IsPending, tt) (refl, tt) (omega arith)
