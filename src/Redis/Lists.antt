-- ===== src/Redis/Lists.antt =====
-- redis/types.go: the list commands. The elements stand at the indices from the metadata's head on,
-- up to its tail.
pub mod Run
pub mod Ends
pub mod Writes
pub mod Reads
use bitcask_go.Common.{
  ℕ, zero, suc, ◌+◌, ◌-◌, ◌%◌, ◌^◌, Bool, true, false, Option, none, some, List, [], ◌∷◌, Bytes,
  ltb, ◌==◌, if◌then◌else◌,
}
use bitcask_go.Common.Result
use bitcask_go.Common.Result.{Res, ok, err, panicked, key_not_found, data_inconsistency}
use bitcask_go.Common.Exec.{Exec, reads, pure, ◌>>=◌, ◌>>◌}
use bitcask_go.Index.{Indexer}
use bitcask_go.Batch.Ranging.{Ranging, put_in}
use bitcask_go.Db.State.{Db}
use bitcask_go.Db.Ops
use bitcask_go.Redis.Meta.{Metadata, list_type, encode_metadata, encode_list_key}
use bitcask_go.Redis.Types.{find_metadata}
use bitcask_go.Redis.Part.{grown, shrunk, commit_new}

-- The database key of the element at an index.
abbrev pub element_key : Bytes → Metadata → ℕ → Bytes
element_key key md index =
    encode_list_key (record { key = key; version = md.version; index = index })

-- x++ and x-- of a uint64
abbrev pub next_mark : ℕ → ℕ
next_mark x = (x + 1) % 2 ^ 64

abbrev pub mark_before : ℕ → ℕ
mark_before x = (x + 2 ^ 64 - 1) % 2 ^ 64

-- meta.head-- or meta.tail++, and meta.head++ or meta.tail--
abbrev pub pushed_marks : Bool → Metadata → Metadata
pushed_marks true md = record md { head = mark_before md.head }
pushed_marks false md = record md { tail = next_mark md.tail }

abbrev pub popped_marks : Bool → Metadata → Metadata
popped_marks true md = record md { head = next_mark md.head }
popped_marks false md = record md { tail = mark_before md.tail }

abbrev pub push_index : Bool → Metadata → ℕ
push_index is_left md = if is_left then mark_before md.head else md.tail

abbrev pub pop_index : Bool → Metadata → ℕ
pop_index is_left md = if is_left then md.head else mark_before md.tail

-- The error of LAll for an element that is missing.
abbrev pub element_of : Res Bytes → Res Bytes
element_of (err key_not_found) = err data_inconsistency
element_of r = r

abbrev pub size_of : Res Metadata → Res ℕ
size_of (ok md) = ok md.size
size_of (err e) = ok 0
size_of panicked = panicked

module _ {ix : Indexer} where
  unfoldable pub push_inner : Ranging → Bytes → Bytes → Bool → ℕ → ℕ → Exec (Db ix) ℕ
  push_inner g key element is_left now version = do
    md ← reads (find_metadata key list_type now version)
    let md' = pushed_marks is_left (grown md)
    commit_new g (λ wb db.
        put_in (element_key key md (push_index is_left md)) element
          (put_in key (encode_metadata md') wb))
    pure md'.size

  unfoldable pub pop_inner : Bytes → Bool → ℕ → ℕ → Exec (Db ix) (Option Bytes)
  pop_inner key is_left now version = do
    md ← reads (find_metadata key list_type now version)
    if md.size == 0 then pure none else (do
      element ← reads (Ops.get (element_key key md (pop_index is_left md)))
      Ops.delete (element_key key md (pop_index is_left md))
      Ops.put key (encode_metadata (popped_marks is_left (shrunk md)))
      pure (some element))

  abbrev pub lpush : Ranging → Bytes → Bytes → ℕ → ℕ → Exec (Db ix) ℕ
  lpush g key element now version = push_inner g key element true now version

  abbrev pub rpush : Ranging → Bytes → Bytes → ℕ → ℕ → Exec (Db ix) ℕ
  rpush g key element now version = push_inner g key element false now version

  abbrev pub lpop : Bytes → ℕ → ℕ → Exec (Db ix) (Option Bytes)
  lpop key now version = pop_inner key true now version

  abbrev pub rpop : Bytes → ℕ → ℕ → Exec (Db ix) (Option Bytes)
  rpop key now version = pop_inner key false now version

  unfoldable pub lsize : Bytes → ℕ → ℕ → Db ix → Res ℕ
  lsize key now version db = size_of (find_metadata key list_type now version db)

  -- The loop of LAll from the index i on, in n rounds at most: the entries count ↦ element.
  unfoldable pub lall_from : Bytes → Metadata → Db ix → ℕ → ℕ → ℕ → Res (List (ℕ × Bytes))
  lall_from key md db zero i count = ok []
  lall_from key md db (suc n) i count =
      let rest = lall_from key md db n (i + 1) (count + 1) in
      if ltb i md.tail
      then Result.◌>>=◌ (element_of (Ops.get (element_key key md i) db))
          (λ element. Result.◌>>=◌ rest (λ more. ok ((count, element) ∷ more)))
      else ok []

  -- The loop ends when the index reaches the tail.
  unfoldable pub lall : Bytes → ℕ → ℕ → Db ix → Res (List (ℕ × Bytes))
  lall key now version db =
      Result.◌>>=◌ (find_metadata key list_type now version db)
        (λ md. if md.size == 0 then ok [] else lall_from key md db (md.tail - md.head) md.head 0)
