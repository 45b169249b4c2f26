-- ===== src/Redis/SortedSets.antt =====
-- redis/types.go and utils/float.go: the commands of sorted sets. A float64 is a type with what the
-- code uses of the language and of strconv.
use bitcask_go.Common.{ℕ, Bool, true, false, Option, none, some, [], Bytes, ◌==◌, if◌then◌else◌}
use bitcask_go.Common.Result
use bitcask_go.Common.Result.{Error, Res, ok, err, panicked, key_not_found}
use bitcask_go.Common.Exec.{Exec, reads, pure, ◌>>=◌, ◌>>◌}
use bitcask_go.Index.{Indexer}
use bitcask_go.Batch.{WriteBatch}
use bitcask_go.Batch.Ranging.{Ranging, put_in, delete_in}
use bitcask_go.Db.State.{Db}
use bitcask_go.Db.Ops
use bitcask_go.Redis.Meta.{
  Metadata, zset_type, encode_metadata, ZsetInternalKey, encode_with_score, encode_with_member,
}
use bitcask_go.Redis.Types.{find_metadata}
use bitcask_go.Redis.Part.{grown, commit_new}

-- The value at a member, or none where Get found no key.
abbrev pub score_bytes_of : Res Bytes → Res (Option Bytes)
score_bytes_of (ok v) = ok (some v)
score_bytes_of (err key_not_found) = ok none
score_bytes_of (err e) = err e
score_bytes_of panicked = panicked

abbrev pub is_none : Option Bytes → Bool
is_none none = true
is_none (some value) = false

-- ==, the constant -1, strconv.FormatFloat(_, 'f', -1, 64) and strconv.ParseFloat(_, 64).
pub record Floats : Type 1 where
  pub Float : Type 0
  pub beq : Float → Float → Bool
  pub minus_one : Float
  pub format_float : Float → Bytes
  pub parse_float : Bytes → Float × Option Error

module _ (fl : Floats) where
  -- The error of ParseFloat is dropped.
  unfoldable pub float_from_bytes : Bytes → fl.Float
  float_from_bytes val = (fl.parse_float val).0

  unfoldable pub float_to_bytes : fl.Float → Bytes
  float_to_bytes val = fl.format_float val

  abbrev pub zset_key : Bytes → Metadata → Bytes → fl.Float → ZsetInternalKey fl.Float
  zset_key key md member score = record {
    key = key;
    version = md.version;
    member = member;
    score = score;
  }

  abbrev pub unchanged : fl.Float → Option Bytes → Bool
  unchanged score none = false
  unchanged score (some value) = fl.beq score (float_from_bytes value)

module _ {ix : Indexer} (fl : Floats) where
  -- The writes at the metadata, and at the key of the old score.
  abbrev pub fill_old : Bytes → Metadata → Bytes → Option Bytes → WriteBatch → Db ix → WriteBatch
  fill_old key md member none wb db = put_in key (encode_metadata (grown md)) wb
  fill_old key md member (some value) wb db =
      delete_in
        (encode_with_score (float_to_bytes fl)
          (zset_key fl key md member (float_from_bytes fl value)))
        db wb

  unfoldable pub zadd : Ranging → Bytes → fl.Float → Bytes → ℕ → ℕ → Exec (Db ix) Bool
  zadd g key score member now version = do
    md ← reads (find_metadata key zset_type now version)
    let zk = zset_key fl key md member score
    value ← reads (λ db. score_bytes_of (Ops.get (encode_with_member zk) db))
    if unchanged fl score value then pure false else (do
      commit_new g (λ wb db. put_in (encode_with_score (float_to_bytes fl) zk) [] (
          put_in (encode_with_member zk) (float_to_bytes fl score)
            (fill_old key md member value wb db)))
      pure (is_none value))

  -- The score that ZScore returns beside an error is the same -1 as for an empty sorted set.
  unfoldable pub zscore : Bytes → Bytes → ℕ → ℕ → Db ix → Res fl.Float
  zscore key member now version db =
      Result.◌>>=◌ (find_metadata key zset_type now version db) (λ md.
        if md.size == 0
        then ok fl.minus_one
        else Result.◌>>=◌ (Ops.get (encode_with_member (zset_key fl key md member fl.minus_one)) db)
            (λ value. ok (float_from_bytes fl value)))
