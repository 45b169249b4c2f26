-- ===== src/Index/BTree.antt =====
-- index/btree.go: the index over the tree of github.com/google/btree, which is a parameter. A tree
-- holds one item for a key, since Item.Less compares the keys.
use bitcask_go.Common.{
  ℕ, ◌≡◌, refl, ap, ◌∙◌, Bool, true, false, Option, none, some, List, Bytes, if◌then◌else◌,
}
use bitcask_go.Common.Eq.{◌=?◌, bytes_eq}
use bitcask_go.Data.Record.{LogRecordPos}
use bitcask_go.Index.{Item, Indexer, is_some}

-- ReplaceOrInsert, Get and Delete of a key, Len, Ascend and Descend.
pub record GoogleBTree : Type 1 where
  pub Tree : Type 0
  pub new : Tree
  pub replace_or_insert : Item → Tree → Tree × Option Item
  pub find : Bytes → Tree → Option Item
  pub remove : Bytes → Tree → Tree × Option Item
  pub len : Tree → ℕ
  pub ascend : Tree → List Item
  pub descend : Tree → List Item
  pub find-new : (j : Bytes) → find j new ≡ none
  pub find-replace_or_insert :
      (it : Item) (j : Bytes) (t : Tree)
      → find j (replace_or_insert it t).0 ≡ (if it.key =? j then some it else find j t)
  pub replaced : (it : Item) (t : Tree) → (replace_or_insert it t).1 ≡ find it.key t
  pub find-remove :
      (k j : Bytes) (t : Tree) → find j (remove k t).0 ≡ (if k =? j then none else find j t)
  pub removed : (k : Bytes) (t : Tree) → (remove k t).1 ≡ find k t

-- nil, or the position of the item
abbrev pub pos_of : Option Item → Option LogRecordPos
pos_of none = none
pos_of (some it) = some it.pos

abbrev pub found_and : Option Item → Option LogRecordPos × Bool
found_and none = (none, false)
found_and (some it) = (some it.pos, true)

pub found_and-pos_of : (o : Option Item) → found_and o ≡ (pos_of o, is_some (pos_of o))
found_and-pos_of none = refl
found_and-pos_of (some it) = refl

pub pos_of-if :
    (b : Bool) (o p : Option Item)
    → pos_of (if b then o else p) ≡ (if b then pos_of o else pos_of p)
pos_of-if true o p = refl
pos_of-if false o p = refl

module _ (google : GoogleBTree) where
  abbrev pub put : Bytes → LogRecordPos → google.Tree → google.Tree × Option LogRecordPos
  put key pos bt =
      let (bt', old_item) = google.replace_or_insert (record { key = key; pos = pos }) bt in
      (bt', pos_of old_item)

  abbrev pub get : Bytes → google.Tree → Option LogRecordPos
  get key bt = pos_of (google.find key bt)

  abbrev pub delete : Bytes → google.Tree → google.Tree × (Option LogRecordPos × Bool)
  delete key bt = let (bt', old_item) = google.remove key bt in (bt', found_and old_item)

  -- The index is an Indexer: it meets the laws that the database relies on.
  abbrev pub b_tree_index : Indexer
  b_tree_index = record {
    Index = google.Tree;
    empty = google.new;
    put = put;
    get = get;
    delete = delete;
    size = google.len;
    items = google.ascend;
    get-empty = λ j. ap pos_of (google.find-new j);
    get-put = λ k j p t fits.
        ap pos_of (google.find-replace_or_insert (record { key = k; pos = p }) j t)
        ∙ pos_of-if (k =? j) (some (record { key = k; pos = p })) (google.find j t);
    put_old = λ k p t. ap pos_of (google.replaced (record { key = k; pos = p }) t);
    get-delete =
        λ k j t. ap pos_of (google.find-remove k j t) ∙ pos_of-if (k =? j) none (google.find j t);
    delete_old = λ k t. ap found_and (google.removed k t) ∙ found_and-pos_of (google.find k t);
  }
