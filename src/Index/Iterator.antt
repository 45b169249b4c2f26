-- ===== src/Index/Iterator.antt =====
-- The iterators of index/btree.go and index/art.go: a snapshot of the items, in the order of their
-- keys or against it, and an index into it. sort.Search of Go's standard library.
pub mod Seek
use bitcask_go.Common.{
  ℕ, zero, suc, ◌+◌, ◌/◌, Bool, true, false, ◌&&◌, ◌||◌, not, Option, none, some, List, [], ◌∷◌,
  ◌++◌, Bytes, length, ltb, ◌==◌, if◌then◌else◌,
}
use bitcask_go.Common.Result.{Res, ok, panicked}
use bitcask_go.Data.Record.{LogRecordPos}
use bitcask_go.Index.{Item}
use bitcask_go.Index.BTree.{GoogleBTree}

-- bytes.Compare(a, b) < 0
unfoldable pub bytes_ltb : Bytes → Bytes → Bool
bytes_ltb [] [] = false
bytes_ltb [] (y ∷ ys) = true
bytes_ltb (x ∷ xs) [] = false
bytes_ltb (x ∷ xs) (y ∷ ys) = ltb x y || (x == y && bytes_ltb xs ys)

-- values[i], in range
unfoldable pub item_at : ℕ → List Item → Option Item
item_at i [] = none
item_at zero (it ∷ rest) = some it
item_at (suc i) (it ∷ rest) = item_at i rest

-- values[i], where an index out of range is a panic
abbrev pub item_or_panic {ℓ} : {A : Type ℓ} → (Item → A) → Option Item → Res A
item_or_panic f none = panicked
item_or_panic f (some it) = ok (f it)

-- sort.Search between i and j; j - i rounds are enough.
unfoldable pub search_between : ℕ → (ℕ → Bool) → ℕ → ℕ → ℕ
search_between zero f i j = i
search_between (suc fuel) f i j =
    let h = (i + j) / 2 in
    if ltb i j
    then elim (f h) [ true ↦ search_between fuel f i h | false ↦ search_between fuel f (h + 1) j ]
    else i

unfoldable pub sort_search : ℕ → (ℕ → Bool) → ℕ
unfolding search_between
sort_search n f = search_between n f 0 n

-- btreeIterator and artIterator
pub record ItemsIterator : Type 0 where
  pub curr_index : ℕ
  pub reverse : Bool
  pub values : List Item

abbrev pub new_items_iterator : Bool → List Item → ItemsIterator
new_items_iterator reverse values = record { curr_index = 0; reverse = reverse; values = values }

-- newBtreeIterator: Ascend and Descend hand over the items one by one.
abbrev pub new_btree_iterator : (google : GoogleBTree) → google.Tree → Bool → ItemsIterator
new_btree_iterator google tree reverse =
    new_items_iterator reverse (if reverse then google.descend tree else google.ascend tree)

unfoldable pub rewind : ItemsIterator → ItemsIterator
rewind it = record it { curr_index = 0 }

-- The key of an item is behind that of a search, in the direction of the iterator, or equal to it.
abbrev pub at_or_beyond : Bool → Bytes → Option Item → Bool
at_or_beyond reverse key none = false
at_or_beyond reverse key (some it) =
    if reverse then not (bytes_ltb key it.key) else not (bytes_ltb it.key key)

unfoldable pub seek : Bytes → ItemsIterator → ItemsIterator
seek key it = record it {
  curr_index =
      sort_search (length it.values) (λ i. at_or_beyond it.reverse key (item_at i it.values));
}

unfoldable pub next : ItemsIterator → ItemsIterator
next it = record it { curr_index = it.curr_index + 1 }

unfoldable pub valid : ItemsIterator → Bool
valid it = ltb it.curr_index (length it.values)

unfoldable pub key : ItemsIterator → Res Bytes
key it = item_or_panic (λ i. i.key) (item_at it.curr_index it.values)

unfoldable pub value : ItemsIterator → Res LogRecordPos
value it = item_or_panic (λ i. i.pos) (item_at it.curr_index it.values)

unfoldable pub close : ItemsIterator → ItemsIterator
close it = record it { values = [] }
