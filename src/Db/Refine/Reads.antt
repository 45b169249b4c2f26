-- ===== src/Db/Refine/Reads.antt =====
-- Get on a database that holds a map.
use bitcask_go.Common.{◌≡◌, refl, ◌∙◌, ap, Option, none, some, Bytes, arith}
use bitcask_go.Common.Result.{ok}
use bitcask_go.Fio.{contents}
use bitcask_go.Data.Record.{LogRecordPos, encode_log_record}
use bitcask_go.Data.File.{DataFile, read_log_record}
use bitcask_go.Data.File.Read.{read_log_record-append}
use bitcask_go.Index.{Indexer}
use bitcask_go.Batch.Key.{length-log_record_key_with_seq}
use bitcask_go.Db.State.{Db}
use bitcask_go.Db.Invariant.{bytes_of, open_in, IsSmall}
use bitcask_go.Db.Ops.{read_value, read_position, get_value_by_position, get_indexed, get}
use bitcask_go.Db.Refine.{Contents, lookup_contents, answer, value_record, Stored, Entry, Refines}

module _ {ix : Indexer} where
  read_position-open :
      (db : Db ix) (active : Option DataFile) (pos : LogRecordPos) (file : DataFile)
      → open_in active pos.fid db ≡ some file
      → read_position active pos db ≡ read_value (some file) pos.offset db
  read_position-open db none pos file e = cc
  read_position-open db (some f) pos file e = rw e

  Stored-record :
      (db : Db ix) {k v : Bytes} {pos : LogRecordPos} (s : Stored db k v pos)
      → IsSmall db
      → read_log_record s.is_open.file pos.offset db.disk
        ≡ ok (value_record k s.seq_no v, (encode_log_record (value_record k s.seq_no v)).1)
  Stored-record db {k} {v} {pos} s small =
      let at : contents db.disk s.is_open.file.io_manager.path ≡ bytes_of db pos.fid =
        ap (contents db.disk) s.is_open.named in
      rw (← s.holds.length_before) (
        read_log_record-append s.is_open.file db.disk (value_record k s.seq_no v) s.holds.before
          s.holds.after (at ∙ s.holds.splits) s.fit
          (omega (arith, length-log_record_key_with_seq k s.seq_no)) (rw at (small pos.fid)))

  -- A stored value is read back from its position.
  pub get_value-Stored :
      (db : Db ix) {k v : Bytes} {pos : LogRecordPos}
      → Stored db k v pos
      → IsSmall db
      → get_value_by_position pos db ≡ ok v
  unfolding get_value_by_position read_value
  get_value-Stored db {k} {v} {pos} s small =
      read_position-open db db.active_file pos s.is_open.file s.is_open.found
      ∙ rw (Stored-record db s small)

  get_indexed-Entry :
      (db : Db ix) (k : Bytes) (p : Option LogRecordPos) (v : Option Bytes)
      → Entry db k p v
      → IsSmall db
      → get_indexed p db ≡ answer v
  get_indexed-Entry db k none none e small = refl
  get_indexed-Entry db k none (some v) e small = absurd e
  get_indexed-Entry db k (some p) none e small = absurd e
  get_indexed-Entry db k (some p) (some v) e small = get_value-Stored db e small

  -- On a database that holds a map, Get answers the value that the map has at the key, that the
  -- key is not found where the map has none, and that the key is empty where it is.
  pub get-Refines :
      (db : Db ix) (m : Contents) (k : Bytes) → Refines db m → get k db ≡ lookup_contents m k
  unfolding get
  get-Refines db m k r = rw (get_indexed-Entry db k (ix.get k db.index) (m k) (r.entries k) r.small)
