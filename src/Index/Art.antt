-- ===== src/Index/Art.antt =====
-- index/art.go: the index over the tree of go-adaptive-radix-tree, which is a parameter.
use bitcask_go.Common.{
  ℕ, ◌≡◌, refl, ap, sym, ◌∙◌, Bool, true, false, Option, none, some, List, [], ◌∷◌, Bytes,
  if◌then◌else◌,
}
use bitcask_go.Common.Eq.{◌=?◌, bytes_eq}
use bitcask_go.Data.Record.{LogRecordPos}
use bitcask_go.Index.{Item, Indexer, is_some}
use bitcask_go.Index.Iterator.{ItemsIterator, new_items_iterator}

abbrev pub Found : Type 0
Found = Option LogRecordPos × Bool

-- Insert, Search, Delete, Size and ForEach. A value comes with true where it was there.
pub record GoArt : Type 1 where
  pub Tree : Type 0
  pub new : Tree
  pub insert : Bytes → LogRecordPos → Tree → Tree × Found
  pub search : Bytes → Tree → Found
  pub remove : Bytes → Tree → Tree × Found
  pub size : Tree → ℕ
  pub for_each : Tree → List Item
  pub search-new : (j : Bytes) → search j new ≡ (none, false)
  pub search-insert :
      (k j : Bytes) (p : LogRecordPos) (t : Tree)
      → search j (insert k p t).0 ≡ (if k =? j then (some p, true) else search j t)
  pub inserted : (k : Bytes) (p : LogRecordPos) (t : Tree) → (insert k p t).1 ≡ search k t
  pub search-remove :
      (k j : Bytes) (t : Tree)
      → search j (remove k t).0 ≡ (if k =? j then (none, false) else search j t)
  pub removed : (k : Bytes) (t : Tree) → (remove k t).1 ≡ search k t
  pub there : (k : Bytes) (t : Tree) → (search k t).1 ≡ is_some (search k t).0

-- nil where the key was not found
abbrev pub value_of : Found → Option LogRecordPos
value_of (value, ok) = if ok then value else none

-- nil and false where there was no value
abbrev pub old_and : Found → Found
old_and (none, deleted) = (none, false)
old_and (some pos, deleted) = (some pos, deleted)

-- The array filled from its end.
abbrev pub save_backwards : List Item → List Item → List Item
save_backwards [] saved = saved
save_backwards (item ∷ rest) saved = save_backwards rest (item ∷ saved)

pub value_of-there : (found : Found) → found.1 ≡ is_some found.0 → value_of found ≡ found.0
value_of-there (none, b) e = rw e refl
value_of-there (some p, b) e = rw e refl

pub value_of-if :
    (b : Bool) (x y : Found)
    → value_of (if b then x else y) ≡ (if b then value_of x else value_of y)
value_of-if true x y = refl
value_of-if false x y = refl

pub old_and-there :
    (found : Found)
    → found.1 ≡ is_some found.0
    → old_and found ≡ (value_of found, is_some (value_of found))
old_and-there (none, b) e = rw e refl
old_and-there (some p, b) e = rw e refl

module _ (goart : GoArt) where
  abbrev pub put : Bytes → LogRecordPos → goart.Tree → goart.Tree × Option LogRecordPos
  put key pos art = let (art', old) = goart.insert key pos art in (art', old.0)

  abbrev pub get : Bytes → goart.Tree → Option LogRecordPos
  get key art = value_of (goart.search key art)

  abbrev pub delete : Bytes → goart.Tree → goart.Tree × Found
  delete key art = let (art', old) = goart.remove key art in (art', old_and old)

  abbrev pub new_art_iterator : goart.Tree → Bool → ItemsIterator
  new_art_iterator tree reverse =
      new_items_iterator reverse
        (if reverse then save_backwards (goart.for_each tree) [] else goart.for_each tree)

  -- The index is an Indexer: it meets the laws that the database relies on.
  abbrev pub art_index : Indexer
  art_index = record {
    Index = goart.Tree;
    empty = goart.new;
    put = put;
    get = get;
    delete = delete;
    size = goart.size;
    items = goart.for_each;
    get-empty = λ j. ap value_of (goart.search-new j);
    get-put = λ k j p t fits.
        ap value_of (goart.search-insert k j p t)
        ∙ value_of-if (k =? j) (some p, true) (goart.search j t);
    put_old = λ k p t.
        ap (λ (f : Found). f.0) (goart.inserted k p t)
        ∙ sym (value_of-there (goart.search k t) (goart.there k t));
    get-delete = λ k j t.
        ap value_of (goart.search-remove k j t)
        ∙ value_of-if (k =? j) (none, false) (goart.search j t);
    delete_old =
        λ k t. ap old_and (goart.removed k t) ∙ old_and-there (goart.search k t) (goart.there k t);
  }
