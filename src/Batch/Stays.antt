-- ===== src/Batch/Stays.antt =====
-- A database whose disk answered, or that took a sequence number, is as good as before.
use bitcask_go.Common.{ℕ, refl, ◌∙◌, sym, ap, Option, none, some, Bytes, length}
use bitcask_go.Common.Eq.{bytes_eq}
use bitcask_go.Data.Record.{LogRecordPos}
use bitcask_go.Index.{Indexer}
use bitcask_go.Db.State.{Db}
use bitcask_go.Db.Invariant.{IsWf, Extends, bytes_of-same}
use bitcask_go.Db.Append.Rotate.{Moved, Moved-IsSmall, Moved-grown}
use bitcask_go.Db.Append.Retire.{same-IsOpen, opens-same}
use bitcask_go.Db.Refine.{Contents, Entry, Refines}

module _ {ix : Indexer} where
  -- The disk answered, and no file changed.
  abbrev pub Stays : Db ix → Db ix → Type 0
  Stays db db' = Moved db.active_file db.older_files db db'

  pub Stays-Extends : (db db' : Db ix) → Stays db db' → Extends db db'
  Stays-Extends db db' m = record {
    frame = m.frame;
    grown = Moved-grown m;
    still_open = same-IsOpen db' m;
    small = Moved-IsSmall m;
  }

  pub Stays-IsWf : (db db' : Db ix) → IsWf db → Stays db db' → IsWf db'
  Stays-IsWf db db' wf m = record {
    active = λ f e.
        let a = wf.active f (sym m.active ∙ e) in
        record {
          named = rw m.frame.options a.named;
          writable = a.writable;
          aligned =
              a.aligned
              ∙ sym (ap length (bytes_of-same db db' f.file_id m.frame.options m.contents));
          id_fits = a.id_fits;
        };
    unused =
        λ i h. bytes_of-same db db' i m.frame.options m.contents ∙ wf.unused i (rw m.active at h);
    small = λ i. rw (bytes_of-same db db' i m.frame.options m.contents) (wf.small i);
    room = rw m.frame.options wf.room;
  }

  -- A transaction has a sequence number of its own.
  abbrev pub resequenced : ℕ → Db ix → Db ix
  resequenced s db = record db { seq_no = s }

  Entry-resequenced :
      (s : ℕ) (db : Db ix) (k : Bytes) (p : Option LogRecordPos) (v : Option Bytes)
      → Entry db k p v
      → Entry (resequenced s db) k p v
  Entry-resequenced s db k none none e = e
  Entry-resequenced s db k none (some v) e = e
  Entry-resequenced s db k (some p) none e = e
  Entry-resequenced s db k (some p) (some v) e = record {
    seq_no = e.seq_no;
    fit = e.fit;
    holds = e.holds;
    is_open = record {
      file = e.is_open.file;
      found = opens-same db (record db { seq_no = s }) p.fid refl refl ∙ e.is_open.found;
      named = e.is_open.named;
    };
  }

  pub Refines-resequenced :
      (s : ℕ) (db : Db ix) (m : Contents) → Refines db m → Refines (resequenced s db) m
  Refines-resequenced s db m r = record {
    entries = λ k. Entry-resequenced s db k (ix.get k db.index) (m k) (r.entries k);
    small = r.small;
  }

  pub IsWf-resequenced : (s : ℕ) (db : Db ix) → IsWf db → IsWf (resequenced s db)
  IsWf-resequenced s db wf = record {
    active = λ f e.
        let a = wf.active f e in
        record { named = a.named; writable = a.writable; aligned = a.aligned; id_fits = a.id_fits };
    unused = wf.unused;
    small = wf.small;
    room = wf.room;
  }
