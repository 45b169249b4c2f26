-- ===== src/Db/Refine/Returns.antt =====
-- Put on a disk that answers every call.
use bitcask_go.Common.{◌+◌, ◌<◌, ◌^◌, ◌≡◌, ◌≢◌, refl, ◌∙◌, sym, false, Bytes, length, ◌==◌}
use bitcask_go.Common.Eq.{bytes_eq, beq_self, beq_ne}
use bitcask_go.Common.Result.{Res, ok, err, panicked}
use bitcask_go.Common.Exec.Post.{Post, Post-continue, Post-mono}
use bitcask_go.Index.{Indexer}
use bitcask_go.Batch.Key.{non_transaction_seq_no}
use bitcask_go.Db.State.{Db}
use bitcask_go.Db.Invariant.{IsWf, active_id}
use bitcask_go.Db.Append.Healthy.{IsHealthy, Ready, append_log_record-Ready}
use bitcask_go.Db.Ops.{put, put_index, get}
use bitcask_go.Db.Refine.{Contents, update, lookup_contents, value_record, Refines}
use bitcask_go.Db.Refine.Reads.{get-Refines}
use bitcask_go.Db.Refine.Writes.{IsStorable}
use bitcask_go.Db.Refine.Methods.{Holds, put-Post}

-- Two things that are known of one outcome, where one of them excludes an error.
Post-both :
    {S A : Type 0} (Q R : A → S → Type 0) (E : S → Type 0) (x : S × Res A)
    → Post Q E x
    → Post R (λ _. ⊥) x
    → Post (λ a s. Q a s × R a s) (λ _. ⊥) x
Post-both Q R E (s, ok a) h k = (h, k)
Post-both Q R E (s, err e) h k = k
Post-both Q R E (s, panicked) h k = h

lookup-update :
    (m : Contents) (k v : Bytes) → (length k == 0) ≡ false → lookup_contents (update m k v) k ≡ ok v
lookup-update m k v some_key = rw (some_key, beq_self k) refl

lookup-update_ne :
    (m : Contents) (k j v : Bytes) → k ≢ j → lookup_contents (update m k v) j ≡ lookup_contents m j
lookup-update_ne m k j v ne = rw (beq_ne k j ne) refl

module _ {ix : Indexer} where
  put-Ready :
      (db : Db ix) (k v : Bytes)
      → (length k == 0) ≡ false
      → IsWf db
      → IsHealthy db.disk
      → Post (λ _ db'. Ready db') (λ _. ⊥) (put k v db)
  unfolding put put_index
  put-Ready db k v some_key wf h = rw some_key (
      Post-continue (λ _ db1. Ready db1) (λ _. ⊥) (λ _ db'. Ready db') (λ _. ⊥) _ _
        (append_log_record-Ready (value_record k non_transaction_seq_no v) db
          (λ f e. (wf.active f e).writable) h)
        (λ _ db1 q. record {
          file = q.file;
          is_active = q.is_active;
          writable = q.writable;
          healthy = q.healthy;
        })
        (λ _ x. x))

  -- Put returns without an error, with the map updated.
  pub put-Holds :
      (db : Db ix) (m : Contents)
      → Refines db m
      → IsWf db
      → active_id db.active_file + 1 < 2 ^ 32
      → IsHealthy db.disk
      → (k v : Bytes) → (length k == 0) ≡ false
      → IsStorable k v
      → Post (λ _ db'. Holds (update m k v) db db' × Ready db') (λ _. ⊥) (put k v db)
  put-Holds db m r wf spare h k v some_key fits =
      Post-both (λ _ db'. Holds (update m k v) db db') (λ _ db'. Ready db') (λ db'. Refines db' m) _
        (put-Post db m r wf spare k v fits) (put-Ready db k v some_key wf h)

  -- From a well-formed database that holds a map, with a file id to spare and on a disk that
  -- answers every call, Put of a key that is not empty, with a key and a value that a header
  -- can hold, returns without an error; then Get answers the value at that key and what it
  -- answered before at every other key.
  pub put-get :
      (db : Db ix) (m : Contents)
      → Refines db m
      → IsWf db
      → active_id db.active_file + 1 < 2 ^ 32
      → IsHealthy db.disk
      → (k v : Bytes) → (length k == 0) ≡ false
      → IsStorable k v
      → Post
          (λ _ db'. (get k db' ≡ ok v) × ((j : Bytes) → k ≢ j → get j db' ≡ get j db))
          (λ _. ⊥)
          (put k v db)
  put-get db m r wf spare h k v some_key fits =
      Post-mono (λ _ db'. Holds (update m k v) db db' × Ready db')
        (λ _ db'. (get k db' ≡ ok v) × ((j : Bytes) → k ≢ j → get j db' ≡ get j db)) (λ _. ⊥)
        (λ _. ⊥) _ (put-Holds db m r wf spare h k v some_key fits)
        (λ _ db' q. (
          get-Refines db' (update m k v) k q.0.refines ∙ lookup-update m k v some_key,
          λ j ne.
              get-Refines db' (update m k v) j q.0.refines
              ∙ lookup-update_ne m k j v ne
              ∙ sym (get-Refines db m j r),
        ))
        (λ _ x. x)
