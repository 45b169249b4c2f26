-- ===== src/Redis/Sets.antt =====
-- redis/types.go: the set commands. A member is a part with an empty value.
pub mod Writes
use bitcask_go.Common.{ℕ, Bool, true, false, [], Bytes, ◌==◌, if◌then◌else◌}
use bitcask_go.Common.Result
use bitcask_go.Common.Result.{Res, ok, err, panicked, key_not_found}
use bitcask_go.Common.Exec.{Exec, reads, pure, ◌>>=◌, ◌>>◌}
use bitcask_go.Index.{Indexer}
use bitcask_go.Batch.Ranging.{Ranging, put_in, delete_in}
use bitcask_go.Db.State.{Db}
use bitcask_go.Db.Ops
use bitcask_go.Redis.Meta.{Metadata, set_type, encode_metadata, encode_set_key}
use bitcask_go.Redis.Types.{find_metadata}
use bitcask_go.Redis.Part.{grown, shrunk, exists_at, commit_new}

-- The database key of a member.
abbrev pub member_key : Bytes → Metadata → Bytes → Bytes
member_key key md member =
    encode_set_key (record { key = key; version = md.version; member = member })

-- What SIsMember makes of the answer of Get.
abbrev pub is_member_of : Res Bytes → Res Bool
is_member_of (ok v) = ok true
is_member_of (err key_not_found) = ok false
is_member_of (err e) = err e
is_member_of panicked = panicked

module _ {ix : Indexer} where
  unfoldable pub sadd : Ranging → Bytes → Bytes → ℕ → ℕ → Exec (Db ix) Bool
  sadd g key member now version = do
    md ← reads (find_metadata key set_type now version)
    exist ← reads (exists_at (member_key key md member))
    if exist then pure false else (do
      commit_new g (λ wb db.
          put_in (member_key key md member) [] (put_in key (encode_metadata (grown md)) wb))
      pure true)

  unfoldable pub sis_member : Bytes → Bytes → ℕ → ℕ → Db ix → Res Bool
  sis_member key member now version db =
      Result.◌>>=◌ (find_metadata key set_type now version db) (λ md.
        if md.size == 0 then ok false else is_member_of (Ops.get (member_key key md member) db))

  unfoldable pub srem : Ranging → Bytes → Bytes → ℕ → ℕ → Exec (Db ix) Bool
  srem g key member now version = do
    md ← reads (find_metadata key set_type now version)
    if md.size == 0 then pure false else (do
      exist ← reads (exists_at (member_key key md member))
      if exist
          then (do
            commit_new g (λ wb db.
                delete_in (member_key key md member) db
                  (put_in key (encode_metadata (shrunk md)) wb))
            pure true)
          else pure false)
