-- ===== src/Db/Close.antt =====
-- db.go: Close and Sync. The index of a B-tree or an ART has nothing to close; the lock of the
-- directory is left out.
pub mod RoundTrip
use bitcask_go.Common.{ℕ, Option, none, some, List, [], ◌∷◌, Bytes}
use bitcask_go.Common.Exec.{Exec, pure, ◌>>=◌, ◌>>◌}
use bitcask_go.Decimal.{format_uint}
use bitcask_go.Data.Record.{LogRecord, log_record_normal, encode_log_record}
use bitcask_go.Data.File
use bitcask_go.Data.File.{DataFile, open_seq_no_file}
use bitcask_go.Index.{Indexer}
use bitcask_go.Db.State.{Db, on_disk}

-- seqNoKey
abbrev pub seq_no_key : Bytes
seq_no_key = b's' ∷ b'e' ∷ b'q' ∷ b'.' ∷ b'n' ∷ b'o' ∷ []

abbrev pub seq_no_record : ℕ → LogRecord
seq_no_record seq_no = record {
  key = seq_no_key;
  value = format_uint seq_no;
  type = log_record_normal;
}

module _ {ix : Indexer} where
  -- the current sequence number, for an index that is not rebuilt from the log
  unfoldable pub save_seq_no : Exec (Db ix) (Unit {0})
  save_seq_no db =
      (do
        f ← on_disk (open_seq_no_file db.options.dir_path)
        f' ← on_disk (File.write f (encode_log_record (seq_no_record db.seq_no)).0)
        on_disk (File.sync f'))
        db

  -- The older files, in an order that the map chooses.
  unfoldable pub close_files : List (ℕ × DataFile) → Exec (Db ix) (Unit {0})
  close_files [] = pure tt
  close_files ((i, f) ∷ rest) = do on_disk (File.close f); close_files rest

  abbrev pub close_active : Option DataFile → Exec (Db ix) (Unit {0})
  close_active none = pure tt
  close_active (some f) = do
    save_seq_no
    on_disk (File.close f)
    λ db. close_files db.older_files db

  unfoldable pub close : Exec (Db ix) (Unit {0})
  close db = close_active db.active_file db

  abbrev pub sync_active : Option DataFile → Exec (Db ix) (Unit {0})
  sync_active none = pure tt
  sync_active (some f) = on_disk (File.sync f)

  unfoldable pub sync : Exec (Db ix) (Unit {0})
  sync db = sync_active db.active_file db
