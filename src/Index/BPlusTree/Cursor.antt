-- ===== src/Index/BPlusTree/Cursor.antt =====
-- index/bptree.go: the iterator over a cursor of go.etcd.io/bbolt, which is a parameter.
use bitcask_go.Common.{Bool, not, [], Bytes, length, ◌==◌, if◌then◌else◌}
use bitcask_go.Common.Result.{Res}
use bitcask_go.Data.Record.{LogRecordPos, decode_log_record_pos}

-- A cursor of bbolt: each move answers the key and the value where it now stands, or nil.
pub record Cursors : Type 1 where
  pub Cursor : Type 0
  pub first : Cursor → Cursor × (Bytes × Bytes)
  pub last : Cursor → Cursor × (Bytes × Bytes)
  pub seek : Bytes → Cursor → Cursor × (Bytes × Bytes)
  pub next : Cursor → Cursor × (Bytes × Bytes)
  pub prev : Cursor → Cursor × (Bytes × Bytes)

module _ (cursors : Cursors) where
  -- The transaction that it reads in is left out.
  pub record BptreeIterator : Type 0 where
    pub cursor : cursors.Cursor
    pub reverse : Bool
    pub curr_key : Bytes
    pub curr_value : Bytes

  abbrev pub moved : Bool → cursors.Cursor × (Bytes × Bytes) → BptreeIterator
  moved reverse (cursor, (key, value)) = record {
    cursor = cursor;
    reverse = reverse;
    curr_key = key;
    curr_value = value;
  }

  unfoldable pub rewind : BptreeIterator → BptreeIterator
  rewind bpi =
      moved bpi.reverse (if bpi.reverse then cursors.last bpi.cursor else cursors.first bpi.cursor)

  unfoldable pub new_bptree_iterator : cursors.Cursor → Bool → BptreeIterator
  new_bptree_iterator cursor reverse =
      rewind (record { cursor = cursor; reverse = reverse; curr_key = []; curr_value = [] })

  -- Seek of the cursor is the same in both directions.
  unfoldable pub seek : Bytes → BptreeIterator → BptreeIterator
  seek key bpi = moved bpi.reverse (cursors.seek key bpi.cursor)

  unfoldable pub next : BptreeIterator → BptreeIterator
  next bpi =
      moved bpi.reverse (if bpi.reverse then cursors.prev bpi.cursor else cursors.next bpi.cursor)

  abbrev pub valid : BptreeIterator → Bool
  valid bpi = not (length bpi.curr_key == 0)

  abbrev pub key : BptreeIterator → Bytes
  key bpi = bpi.curr_key

  abbrev pub value : BptreeIterator → Res LogRecordPos
  value bpi = decode_log_record_pos bpi.curr_value
