-- ===== src/Iterator.antt =====
-- iterator.go: an iterator over the database, which skips the keys without a prefix. The index
-- iterator is the one over a snapshot of the items, of a B-tree or an ART.
pub mod Skip
use bitcask_go.Common.{
  ℕ, zero, suc, Bool, true, false, ◌&&◌, Option, none, some, Bytes, length, take, leb, ◌==◌,
  if◌then◌else◌,
}
use bitcask_go.Common.Eq.{bytes_beq}
use bitcask_go.Common.Fuelled.{Fuelled}
use bitcask_go.Common.Result.{Res, ok, err, panicked, ◌>>=◌}
use bitcask_go.Index.{Indexer}
use bitcask_go.Index.Iterator
use bitcask_go.Index.Iterator.{ItemsIterator, new_items_iterator}
use bitcask_go.Db.State.{Db}
use bitcask_go.Db.Ops.{get_value_by_position}

pub record IteratorOptions : Type 0 where
  pub prefix : Bytes
  pub reverse : Bool

pub record DbIterator : Type 0 where
  pub index_iter : ItemsIterator
  pub options : IteratorOptions

-- NewIterator, with what index.Iterator(opts.Reverse) gave
abbrev pub new_iterator : IteratorOptions → ItemsIterator → DbIterator
new_iterator opts index_iter = record { index_iter = index_iter; options = opts }

-- prefixLen <= len(key) && bytes.Equal(prefix, key[:prefixLen])
unfoldable pub has_prefix : Bytes → Bytes → Bool
has_prefix prefix key =
    leb (length prefix) (length key) && bytes_beq prefix (take (length prefix) key)

-- One round of the loop, where the iterator is valid.
abbrev pub skip_round :
    Bytes → Res Bytes → ItemsIterator → Fuelled ItemsIterator → Fuelled ItemsIterator
skip_round prefix (ok key) it rest = if has_prefix prefix key then some (ok it) else rest
skip_round prefix (err e) it rest = some (err e)
skip_round prefix panicked it rest = some panicked

unfoldable pub skip : ℕ → Bytes → ItemsIterator → Fuelled ItemsIterator
skip zero prefix it = none
skip (suc fuel) prefix it =
    let rest = skip fuel prefix (Iterator.next it) in
    if Iterator.valid it then skip_round prefix (Iterator.key it) it rest else some (ok it)

-- every round but the last goes one item on
unfoldable pub skip_to_next : Bytes → ItemsIterator → Fuelled ItemsIterator
skip_to_next prefix it =
    if length prefix == 0 then some (ok it) else skip (suc (length it.values)) prefix it

abbrev pub with_index : DbIterator → Fuelled ItemsIterator → Fuelled DbIterator
with_index it none = none
with_index it (some (ok i)) = some (ok (record it { index_iter = i }))
with_index it (some (err e)) = some (err e)
with_index it (some panicked) = some panicked

unfoldable pub rewind : DbIterator → Fuelled DbIterator
rewind it = with_index it (skip_to_next it.options.prefix (Iterator.rewind it.index_iter))

unfoldable pub seek : Bytes → DbIterator → Fuelled DbIterator
seek key it = with_index it (skip_to_next it.options.prefix (Iterator.seek key it.index_iter))

unfoldable pub next : DbIterator → Fuelled DbIterator
next it = with_index it (skip_to_next it.options.prefix (Iterator.next it.index_iter))

unfoldable pub valid : DbIterator → Bool
valid it = Iterator.valid it.index_iter

unfoldable pub key : DbIterator → Res Bytes
key it = Iterator.key it.index_iter

unfoldable pub close : DbIterator → DbIterator
close it = record it { index_iter = Iterator.close it.index_iter }

module _ {ix : Indexer} where
  unfoldable pub value : Db ix → DbIterator → Res Bytes
  value db it = Iterator.value it.index_iter >>= λ pos. get_value_by_position pos db
