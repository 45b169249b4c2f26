-- ===== src/Index/BPlusTree.antt =====
-- index/bptree.go: the index over a bucket of go.etcd.io/bbolt, which is a parameter. An error of a
-- transaction is a panic of the index.
pub mod Stands
pub mod Cursor
use bitcask_go.Common.{
  ℕ, ◌<◌, ◌≤◌, ◌≡◌, Bool, true, false, not, Option, none, some, [], Bytes, length, ◌==◌,
  if◌then◌else◌,
}
use bitcask_go.Common.Eq.{◌=?◌, bytes_eq}
use bitcask_go.Common.Fuelled.{or_panic}
use bitcask_go.Common.Result.{Res, ok, err, panicked, ◌>>=◌}
use bitcask_go.Data.Record.{LogRecordPos, encode_log_record_pos, decode_log_record_pos}

-- A bucket in the hands of a transaction: Get, which answers nil for a key that is not there, Put and
-- Delete with the commit, and Stats().KeyN. `max_key_size` is MaxKeySize of bbolt. What Get answers is
-- a slice of memory that is valid until its transaction ends: `stale key t t'` is what the slice from
-- the bucket t shows once the transaction has made it t', or nothing where the memory is gone.
pub record Bbolt : Type 1 where
  pub Bucket : Type 0
  pub max_key_size : ℕ
  pub find : Bytes → Bucket → Bytes
  pub stale : Bytes → Bucket → Bucket → Option Bytes
  pub store : Bytes → Bytes → Bucket → Res Bucket
  pub remove : Bytes → Bucket → Res Bucket
  pub key_n : Bucket → ℕ

-- A key that bbolt takes.
abbrev pub IsTaken : Bbolt → Bytes → Type 0
IsTaken bbolt k = ((length k == 0) ≡ false) × (length k ≤ bbolt.max_key_size)

-- What its documentation says, where a transaction that is committed reaches the disk; it promises
-- nothing about `stale`.
pub record IsBbolt (bbolt : Bbolt) : Type 0 where
  pub stores :
      (k v : Bytes) (t : bbolt.Bucket)
      → IsTaken bbolt k
      → (t' : bbolt.Bucket) × ((bbolt.store k v t ≡ ok t')
          × ((j : Bytes) → bbolt.find j t' ≡ (if k =? j then v else bbolt.find j t)))
  pub removes :
      (k : Bytes) (t : bbolt.Bucket)
      → (t' : bbolt.Bucket) × ((bbolt.remove k t ≡ ok t')
          × ((j : Bytes) → bbolt.find j t' ≡ (if k =? j then [] else bbolt.find j t)))

-- nil, or the position that the bytes encode
unfoldable pub pos_of : Bytes → Res (Option LogRecordPos)
pos_of value =
    if length value == 0 then ok none else (do pos ← decode_log_record_pos value; ok (some pos))

-- What becomes of the bucket, and what is returned, when a transaction has tried to change it.
abbrev pub after_update {ℓ} :
    {A : Type ℓ} {Bucket : Type 0} → Bucket → (Bucket → Res A) → Res Bucket → Bucket × Res A
after_update t result (ok t') = (t', result t')
after_update t result (err e) = (t, panicked)
after_update t result panicked = (t, panicked)

module _ (bbolt : Bbolt) where
  -- The position in the old value: its length is that of Get, its bytes are read when the transaction
  -- from t to t' is over.
  unfoldable pub old_pos : Bytes → bbolt.Bucket → bbolt.Bucket → Res (Option LogRecordPos)
  old_pos key t t' = if length (bbolt.find key t) == 0 then ok none else (do
    old_val ← or_panic (bbolt.stale key t t')
    pos ← decode_log_record_pos old_val
    ok (some pos))

  unfoldable pub put :
      Bytes → LogRecordPos → bbolt.Bucket → bbolt.Bucket × Res (Option LogRecordPos)
  put key pos t = after_update t (old_pos key t) (bbolt.store key (encode_log_record_pos pos) t)

  unfoldable pub get : Bytes → bbolt.Bucket → Res (Option LogRecordPos)
  get key t = pos_of (bbolt.find key t)

  unfoldable pub delete : Bytes → bbolt.Bucket → bbolt.Bucket × Res (Option LogRecordPos × Bool)
  delete key t =
      let present = not (length (bbolt.find key t) == 0) in
      after_update t (λ t'. do old ← old_pos key t t'; ok (old, present))
        (if present then bbolt.remove key t else ok t)

  abbrev pub size : bbolt.Bucket → ℕ
  size t = bbolt.key_n t
