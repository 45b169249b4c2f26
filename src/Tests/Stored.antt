-- ===== src/Tests/Stored.antt =====
-- A database after two calls of Put on a disk that answers every call.
use bitcask_go.Common.{◌<◌, ◌+◌, ◌^◌, ◌≡◌, refl, ◌∙◌, false, Bytes, length, ◌==◌, arith}
use bitcask_go.Common.Result.{Res, ok, err, panicked}
use bitcask_go.Common.Exec.Post.{Post, Post-continue}
use bitcask_go.Index.ListIndex.{list_index}
use bitcask_go.Db.State.{Db}
use bitcask_go.Db.Invariant.{IsWf, Extends, active_id}
use bitcask_go.Db.Append.Healthy.{IsHealthy, Ready}
use bitcask_go.Db.Append.Whole.{Appended, append_log_record-Post}
use bitcask_go.Batch.Key.{non_transaction_seq_no}
use bitcask_go.Db.Ops.{put, put_index}
use bitcask_go.Db.Refine.{update, value_record, Refines}
use bitcask_go.Db.Refine.Writes.{IsStorable, value_record-IsFit, encode_log_record_size-lt}
use bitcask_go.Db.Refine.Methods.{Holds}
use bitcask_go.Db.Refine.Returns.{put-Holds}
use bitcask_go.Tests.Database.{nothing, working, working-Refines, working-IsWf}

-- The state that a method leaves which does not fail.
ensured :
    {S A : Type 0} (Q E : S → Type 0) (x : S × Res A)
    → Post (λ _ s. Q s) (λ s. E s) x
    → ((s : S) → E s → Q s)
    → Q x.0
ensured Q E (s, ok a) h k = h
ensured Q E (s, err e) h k = k s h
ensured Q E (s, panicked) h k = elim h [ ]

-- Put leaves the options alone.
put-options :
    (db : Db list_index) (k v : Bytes)
    → IsWf db
    → active_id db.active_file + 1 < 2 ^ 32
    → (length k == 0) ≡ false
    → IsStorable k v
    → Post (λ _ db'. db'.options ≡ db.options) (λ db'. db'.options ≡ db.options) (put k v db)
unfolding put put_index
put-options db k v wf spare some_key h = rw some_key (
    Post-continue (λ pos db'. Appended (value_record k non_transaction_seq_no v) db pos db')
      (λ db'. Extends db db') (λ _ (db' : Db list_index). db'.options ≡ db.options)
      (λ (db' : Db list_index). db'.options ≡ db.options) _ _
      (append_log_record-Post (value_record k non_transaction_seq_no v) db wf spare
        (encode_log_record_size-lt _ (value_record-IsFit k v non_transaction_seq_no h)))
      (λ pos db1 a. a.extends.frame.options) (λ db1 x. x.frame.options))

kept_options :
    (db : Db list_index) (k v : Bytes)
    → IsWf db
    → active_id db.active_file + 1 < 2 ^ 32
    → (length k == 0) ≡ false
    → IsStorable k v
    → (put k v db).0.options ≡ db.options
kept_options db k v wf spare some_key h =
    ensured (λ (db' : Db list_index). db'.options ≡ db.options)
      (λ (db' : Db list_index). db'.options ≡ db.options) (put k v db)
      (put-options db k v wf spare some_key h) (λ _ x. x)

abbrev pub two_puts : Bytes → Bytes → Bytes → Bytes → Db list_index
two_puts k v j w = (put j w (put k v working).0).0

working-IsHealthy : IsHealthy working.disk
working-IsHealthy = refl

-- Two keys that can be stored.
pub record IsPairs (k v j w : Bytes) : Type 0 where
  pub some_first : (length k == 0) ≡ false
  pub some_second : (length j == 0) ≡ false
  pub first : IsStorable k v
  pub second : IsStorable j w

pub record Both (k v j w : Bytes) : Type 0 where
  pub refines : Refines (two_puts k v j w) (update (update nothing k v) j w)
  pub wf : IsWf (two_puts k v j w)
  pub spare : active_id (two_puts k v j w).active_file + 3 < 2 ^ 32
  pub options : (two_puts k v j w).options ≡ working.options

pub two_puts-Both : (k v j w : Bytes) → IsPairs k v j w → Both k v j w
two_puts-Both k v j w h =
    let one =
      ensured (λ db'. Holds (update nothing k v) working db' × Ready db') (λ _. ⊥) (put k v working)
        (put-Holds working nothing working-Refines working-IsWf (omega arith) working-IsHealthy k v
          h.some_first h.first)
        (λ _ x. elim x [ ]) in
    let two =
      ensured (λ db'. Holds (update (update nothing k v) j w) (put k v working).0 db' × Ready db')
        (λ _. ⊥) (put j w (put k v working).0)
        (put-Holds (put k v working).0 (update nothing k v) one.0.refines one.0.wf
          (omega (arith, one.0.next)) one.1.healthy j w h.some_second h.second)
        (λ _ x. elim x [ ]) in
    record {
      refines = two.0.refines;
      wf = two.0.wf;
      spare = omega (arith, one.0.next, two.0.next);
      options =
          kept_options (put k v working).0 j w one.0.wf (omega (arith, one.0.next)) h.some_second
            h.second
          ∙ kept_options working k v working-IsWf (omega arith) h.some_first h.first;
    }
