-- ===== src/Index/ListIndex.antt =====
-- An index as an association list, the plainest thing that meets the laws: tests run on it.
use bitcask_go.Common.{◌≡◌, refl, none, List, [], ◌∷◌, Bytes, length}
use bitcask_go.Common.Eq.{bytes_eq}
use bitcask_go.Common.Assoc.{Assoc, lookup, insert, remove, lookup-insert, lookup-remove}
use bitcask_go.Data.Record.{LogRecordPos}
use bitcask_go.Index.{Indexer, Item, is_some}

abbrev pub to_items : Assoc Bytes LogRecordPos → List Item
to_items [] = []
to_items ((k, p) ∷ rest) = record { key = k; pos = p } ∷ to_items rest

pub lookup-empty : (j : Bytes) → lookup {V = LogRecordPos} j [] ≡ none
unfolding lookup
lookup-empty j = refl

abbrev pub list_index : Indexer
list_index = record {
  Index = Assoc Bytes LogRecordPos;
  empty = [];
  put = λ k p t. (insert k p t, lookup k t);
  get = λ k t. lookup k t;
  delete = λ k t. (remove k t, (lookup k t, is_some (lookup k t)));
  size = λ t. length t;
  items = λ t. to_items t;
  get-empty = lookup-empty;
  get-put = λ k j p t fits. lookup-insert k j p t;
  put_old = λ k p t. refl;
  get-delete = λ k j t. lookup-remove k j t;
  delete_old = λ k t. refl;
}
