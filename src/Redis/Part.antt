-- ===== src/Redis/Part.antt =====
-- redis/types.go: what the commands of hashes, sets, lists and sorted sets share. A structure is the
-- metadata at its key and a database key for each of its parts.
pub mod Stands
pub mod Commands
pub mod Writes
use bitcask_go.Common.{ℕ, ◌+◌, ◌-◌, ◌%◌, ◌^◌, Bool, true, false, Bytes}
use bitcask_go.Common.Result.{Res, ok, err, panicked, key_not_found}
use bitcask_go.Common.Exec.{Exec, reads, pure, ◌>>=◌, ◌>>◌}
use bitcask_go.Index.{Indexer}
use bitcask_go.Batch.{WriteBatch, new_write_batch}
use bitcask_go.Batch.Ranging.{Ranging, default_write_batch_options, commit_in}
use bitcask_go.Db.State.{Db}
use bitcask_go.Db.Ops
use bitcask_go.Redis.Meta.{Metadata}

-- meta.size++ and meta.size--, of a uint32
abbrev pub grown : Metadata → Metadata
grown md = record md { size = (md.size + 1) % 2 ^ 32 }

abbrev pub shrunk : Metadata → Metadata
shrunk md = record md { size = (md.size + 2 ^ 32 - 1) % 2 ^ 32 }

-- if _, err := db.Get(encKey); err == ErrKeyNotFound: every other answer counts as there
abbrev pub exists_of : Res Bytes → Res Bool
exists_of (ok v) = ok true
exists_of (err key_not_found) = ok false
exists_of (err e) = ok true
exists_of panicked = panicked

module _ {ix : Indexer} where
  abbrev pub exists_at : Bytes → Db ix → Res Bool
  exists_at key db = exists_of (Ops.get key db)

  -- A new batch is filled and committed.
  unfoldable pub commit_new : Ranging → (WriteBatch → Db ix → WriteBatch) → Exec (Db ix) (Unit {0})
  commit_new g fill = do
    wb ← reads (new_write_batch default_write_batch_options)
    filled ← reads (λ db. ok (fill wb db))
    commit_in g filled
    pure tt
