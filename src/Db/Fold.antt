-- ===== src/Db/Fold.antt =====
-- db.go: Fold and ListKeys, over the items of an index of a B-tree or an ART in the order of their
-- keys. What Fold calls back keeps a state of its own.
pub mod Visits
use bitcask_go.Common.{
  ℕ, zero, suc, Bool, true, false, Option, none, some, List, [], ◌∷◌, Bytes, length, if◌then◌else◌,
}
use bitcask_go.Common.Result.{Res, ok, err, panicked, ◌>>=◌}
use bitcask_go.Index.{Indexer}
use bitcask_go.Index.Iterator
use bitcask_go.Index.Iterator.{ItemsIterator, new_items_iterator}
use bitcask_go.Db.State.{Db}
use bitcask_go.Db.Ops.{get_value_by_position}

-- fn of Fold: its state, and whether to go on
abbrev pub Visitor : Type 0 → Type 0
Visitor S = S → Bytes → Bytes → S × Bool

-- make([][]byte, n), with keys[idx] = key in a loop: an index out of range is a panic.
abbrev pub filled : ℕ → List Bytes → Res (List Bytes)
filled zero [] = ok []
filled zero (k ∷ ks) = panicked
filled (suc n) [] = do rest ← filled n []; ok ([] ∷ rest)
filled (suc n) (k ∷ ks) = do rest ← filled n ks; ok (k ∷ rest)

abbrev pub with_key : Res Bytes → Option (Res (List Bytes)) → Option (Res (List Bytes))
with_key r none = none
with_key r (some rest) = some (do k ← r; ks ← rest; ok (k ∷ ks))

-- The keys from where the iterator is.
unfoldable pub remaining_keys : ℕ → ItemsIterator → Option (Res (List Bytes))
remaining_keys zero it = none
remaining_keys (suc fuel) it =
    let rest = remaining_keys fuel (Iterator.next it) in
    if Iterator.valid it then with_key (Iterator.key it) rest else some (ok [])

abbrev pub fill_keys : ℕ → Option (Res (List Bytes)) → Option (Res (List Bytes))
fill_keys size none = none
fill_keys size (some keys) = some (keys >>= λ ks. filled size ks)

module _ {S : Type 0} (fn : Visitor S) where
  abbrev pub go_on : S × Bool → (S → Option (S × Res (Unit {0}))) → Option (S × Res (Unit {0}))
  go_on (s, more) rest = if more then rest s else some (s, ok tt)

  abbrev pub visit :
      Res (Bytes × Bytes) → S → (S → Option (S × Res (Unit {0}))) → Option (S × Res (Unit {0}))
  visit (ok (k, v)) s rest = go_on (fn s k v) rest
  visit (err e) s rest = some (s, err e)
  visit panicked s rest = some (s, panicked)

module _ {ix : Indexer} where
  abbrev pub index_iterator : Db ix → ItemsIterator
  index_iterator db = new_items_iterator false (ix.items db.index)

  -- one round more than there are items
  abbrev pub rounds : Db ix → ℕ
  rounds db = suc (length (ix.items db.index))

  unfoldable pub list_keys : Db ix → Option (Res (List Bytes))
  list_keys db =
      fill_keys (ix.size db.index)
        (remaining_keys (rounds db) (Iterator.rewind (index_iterator db)))

  -- The key of the iterator and the value at its position.
  abbrev pub pair_at : Db ix → ItemsIterator → Res (Bytes × Bytes)
  pair_at db it = do
    k ← Iterator.key it
    pos ← Iterator.value it
    v ← get_value_by_position pos db
    ok (k, v)

  module _ {S : Type 0} (fn : Visitor S) where
    unfoldable pub fold_from : ℕ → ItemsIterator → S → Db ix → Option (S × Res (Unit {0}))
    fold_from zero it s db = none
    fold_from (suc fuel) it s db =
        if Iterator.valid it
        then visit fn (pair_at db it) s (λ s'. fold_from fuel (Iterator.next it) s' db)
        else some (s, ok tt)

    unfoldable pub fold : S → Db ix → Option (S × Res (Unit {0}))
    fold s db = fold_from (rounds db) (Iterator.rewind (index_iterator db)) s db
