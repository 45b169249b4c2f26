-- ===== src/Redis/Hashes.antt =====
-- redis/types.go: the hash commands. `version` is the time that the version of new metadata is made
-- from, and a nil slice is an empty one.
pub mod Writes
use bitcask_go.Common.{
  ℕ, zero, suc, Bool, true, false, not, Option, none, some, List, [], ◌∷◌, Bytes, length, ◌==◌,
  if◌then◌else◌,
}
use bitcask_go.Common.Assoc.{Assoc, insert}
use bitcask_go.Common.Eq.{bytes_eq}
use bitcask_go.Common.Fuelled
use bitcask_go.Common.Fuelled.{Fuelled}
use bitcask_go.Common.Result
use bitcask_go.Common.Result.{Res, ok, err, panicked}
use bitcask_go.Common.Exec.{Exec, reads, pure, ◌>>=◌, ◌>>◌}
use bitcask_go.Index.{Indexer}
use bitcask_go.Iterator
use bitcask_go.Iterator.{DbIterator, new_iterator, has_prefix}
use bitcask_go.Batch.Ranging.{Ranging, put_in, delete_in}
use bitcask_go.Db.State.{Db}
use bitcask_go.Db.Ops
use bitcask_go.Db.Fold.{index_iterator, rounds}
use bitcask_go.Redis.Meta.{
  Metadata, hash_type, encode_metadata, HashInternalKey, encode_hash_key, encode_hash_prefix,
  decode_hash_key,
}
use bitcask_go.Redis.Types.{find_metadata}
use bitcask_go.Redis.Part.{grown, shrunk, exists_at, commit_new}

-- The database key of a field.
abbrev pub field_key : Bytes → Metadata → Bytes → Bytes
field_key key md field = encode_hash_key (record { key = key; version = md.version; field = field })

abbrev pub prefix_key : Bytes → Metadata → Bytes
prefix_key key md = encode_hash_prefix (record { key = key; version = md.version; field = [] })

-- The iterator at its next item with the prefix, and what its body makes of it.
module _ {A : Type 0} (prefix : Bytes) (body : DbIterator → Res A) where
  abbrev pub at_key : Res Bytes → DbIterator → (DbIterator → Fuelled (List A)) → Fuelled (List A)
  at_key (ok k) it rest =
      if has_prefix prefix k
      then Fuelled.◌>>=◌ (some (body it)) (λ a.
        Fuelled.◌>>=◌ (Iterator.next it)
          (λ it'. Fuelled.◌>>=◌ (rest it') (λ more. some (ok (a ∷ more)))))
      else some (ok [])
  at_key (err e) it rest = some (err e)
  at_key panicked it rest = some panicked

  unfoldable pub collect : ℕ → DbIterator → Fuelled (List A)
  collect zero it = none
  collect (suc fuel) it =
      if Iterator.valid it
      then at_key (Iterator.key it) it (λ it'. collect fuel it')
      else some (ok [])

-- decodeHashInternalKey(iterator.Key(), len(key)).field
abbrev pub field_of : Bytes → DbIterator → Res Bytes
field_of key it =
    Result.◌>>=◌ (Iterator.key it)
      (λ k. Result.◌>>=◌ (decode_hash_key k (length key)) (λ hk. ok hk.field))

-- The value at the iterator; the loops of HValues and HGetAll drop an error and keep nil.
abbrev pub dropped : Res Bytes → Res Bytes
dropped (err e) = ok []
dropped r = r

-- result[string(hk.field)] = val
abbrev pub to_map : List (Bytes × Bytes) → Assoc Bytes Bytes → Assoc Bytes Bytes
to_map [] result = result
to_map ((f, v) ∷ rest) result = to_map rest (insert f v result)

module _ {ix : Indexer} where
  unfoldable pub hset : Ranging → Bytes → Bytes → Bytes → ℕ → ℕ → Exec (Db ix) Bool
  hset g key field value now version = do
    md ← reads (find_metadata key hash_type now version)
    exist ← reads (exists_at (field_key key md field))
    commit_new g (λ wb db.
        put_in (field_key key md field) value
          (if exist then wb else put_in key (encode_metadata (grown md)) wb))
    pure (not exist)

  unfoldable pub hget : Bytes → Bytes → ℕ → ℕ → Db ix → Res Bytes
  hget key field now version db =
      Result.◌>>=◌ (find_metadata key hash_type now version db)
        (λ md. if md.size == 0 then ok [] else Ops.get (field_key key md field) db)

  unfoldable pub hdel : Ranging → Bytes → Bytes → ℕ → ℕ → Exec (Db ix) Bool
  hdel g key field now version = do
    md ← reads (find_metadata key hash_type now version)
    if md.size == 0 then pure false else (do
      exist ← reads (exists_at (field_key key md field))
      if exist
          then (do
            commit_new g (λ wb db.
                delete_in (field_key key md field) db (put_in key (encode_metadata (shrunk md)) wb))
            pure true)
          else pure false)

  abbrev pub value_at : Db ix → DbIterator → Res Bytes
  value_at db it = dropped (Iterator.value db it)

  -- DefaultIteratorOptions
  abbrev pub forward_iterator : Db ix → DbIterator
  forward_iterator db = new_iterator (record { prefix = []; reverse = false }) (index_iterator db)

  -- The loop of HKeys, HValues and HGetAll over the parts of a hash.
  abbrev pub over_parts : {A : Type 0} → Bytes → (DbIterator → Res A) → Db ix → Fuelled (List A)
  over_parts prefix body db =
      Fuelled.◌>>=◌ (Iterator.seek prefix (forward_iterator db))
        (λ it. collect prefix body (rounds db) it)

  unfoldable pub hkeys : Bytes → ℕ → ℕ → Db ix → Fuelled (List Bytes)
  hkeys key now version db =
      Fuelled.◌>>=◌ (some (find_metadata key hash_type now version db)) (λ md.
        if md.size == 0 then some (ok []) else over_parts (prefix_key key md) (field_of key) db)

  unfoldable pub hvalues : Bytes → ℕ → ℕ → Db ix → Fuelled (List Bytes)
  hvalues key now version db =
      Fuelled.◌>>=◌ (some (find_metadata key hash_type now version db)) (λ md.
        if md.size == 0 then some (ok []) else over_parts (prefix_key key md) (value_at db) db)

  abbrev pub field_value_at : Bytes → Db ix → DbIterator → Res (Bytes × Bytes)
  field_value_at key db it =
      Result.◌>>=◌ (field_of key it) (λ f. Result.◌>>=◌ (value_at db it) (λ v. ok (f, v)))

  unfoldable pub hget_all : Bytes → ℕ → ℕ → Db ix → Fuelled (Assoc Bytes Bytes)
  hget_all key now version db =
      Fuelled.◌>>=◌ (some (find_metadata key hash_type now version db)) (λ md.
        if md.size == 0
        then some (ok [])
        else Fuelled.◌>>=◌ (over_parts (prefix_key key md) (field_value_at key db) db)
            (λ ps. some (ok (to_map ps []))))
