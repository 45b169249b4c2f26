-- ===== src/Batch/Ranging.antt =====
-- batch.go as its clients use it: a batch is filled by Put and Delete, and Commit ranges over the map
-- of its pending writes, in an order that each of its loops is given by the runtime.
pub mod Filled
use bitcask_go.Common.{ℕ, true, ◌≤◌, ◌≡◌, some, List, Bytes, length}
use bitcask_go.Common.Assoc.{lookup}
use bitcask_go.Common.Eq.{bytes_eq}
use bitcask_go.Common.Exec.{Exec}
use bitcask_go.Data.Record.{LogRecord}
use bitcask_go.Index.{Indexer}
use bitcask_go.Batch
use bitcask_go.Batch.{WriteBatch, WriteBatchOptions, commit}
use bitcask_go.Batch.Commit.{IsOrder}
use bitcask_go.Db.State.{Db}

-- The order of each loop.
pub record Ranging : Type 0 where
  pub log_order : WriteBatch → List LogRecord
  pub index_order : WriteBatch → List LogRecord

-- A pending write stands at the key of its record.
abbrev pub IsKeyed : WriteBatch → Type 0
IsKeyed wb = (k : Bytes) (r : LogRecord) → lookup k wb.pending_writes ≡ some r → r.key ≡ k

-- A loop over a map takes every entry, once.
pub record IsRange (order : WriteBatch → List LogRecord) : Type 0 where
  pub ranges : (wb : WriteBatch) → IsKeyed wb → IsOrder wb (order wb)
  pub bounded : (wb : WriteBatch) → length (order wb) ≤ length wb.pending_writes

pub record IsRanging (g : Ranging) : Type 0 where
  pub log : IsRange g.log_order
  pub index : IsRange g.index_order

-- DefaultWriteBatchOptions
abbrev pub default_write_batch_options : WriteBatchOptions
default_write_batch_options = record { max_batch_num = 10000; sync_writes = true }

-- Put and Delete of a batch, where the client drops the error.
abbrev pub put_in : Bytes → Bytes → WriteBatch → WriteBatch
put_in k v wb = (Batch.put k v wb).0

module _ {ix : Indexer} where
  abbrev pub delete_in : Bytes → Db ix → WriteBatch → WriteBatch
  delete_in k db wb = (Batch.delete k db wb).0

  abbrev pub commit_in : Ranging → WriteBatch → Exec (Db ix) WriteBatch
  commit_in g wb = commit (g.log_order wb) (g.index_order wb) wb
