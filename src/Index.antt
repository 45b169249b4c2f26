-- ===== src/Index.antt =====
-- index/index.go: the interface of the in-memory indexes.
pub mod ListIndex
pub mod BTree
pub mod BPlusTree
pub mod Iterator
pub mod Art
use bitcask_go.Common.{
  ℕ, ◌^◌, ◌<◌, ◌≡◌, Bool, true, false, Option, none, some, List, Bytes, if◌then◌else◌,
}
use bitcask_go.Common.Eq.{◌=?◌, bytes_eq}
use bitcask_go.Data.Record.{LogRecordPos}

-- IndexType
abbrev pub b_tree : ℕ
b_tree = 1

abbrev pub art : ℕ
art = 2

abbrev pub b_plus_tree : ℕ
b_plus_tree = 3

-- An index item: a key and where its record lies.
pub record Item : Type 0 where
  pub key : Bytes
  pub pos : LogRecordPos

-- What the Go types of a position hold: uint32, int64, uint32.
pub record IsPos (p : LogRecordPos) : Type 0 where
  pub fid : p.fid < 2 ^ 32
  pub offset : p.offset < 2 ^ 64
  pub size : p.size < 2 ^ 32

abbrev pub is_some {ℓ} : {A : Type ℓ} → Option A → Bool
is_some none = false
is_some (some a) = true

-- Indexer, with what the database relies on. An implementation proves the laws.
pub record Indexer : Type 1 where
  pub Index : Type 0
  pub empty : Index
  pub put : Bytes → LogRecordPos → Index → Index × Option LogRecordPos
  pub get : Bytes → Index → Option LogRecordPos
  pub delete : Bytes → Index → Index × (Option LogRecordPos × Bool)
  pub size : Index → ℕ
  pub items : Index → List Item
  pub get-empty : (j : Bytes) → get j empty ≡ none
  pub get-put :
      (k j : Bytes) (p : LogRecordPos) (t : Index)
      → IsPos p
      → get j (put k p t).0 ≡ (if k =? j then some p else get j t)
  pub put_old : (k : Bytes) (p : LogRecordPos) (t : Index) → (put k p t).1 ≡ get k t
  pub get-delete :
      (k j : Bytes) (t : Index) → get j (delete k t).0 ≡ (if k =? j then none else get j t)
  pub delete_old : (k : Bytes) (t : Index) → (delete k t).1 ≡ (get k t, is_some (get k t))
