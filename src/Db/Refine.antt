-- ===== src/Db/Refine.antt =====
-- The contract of the database: a map from keys to values. `Refines db m` says that the database
-- holds the map m, and that it can read what it holds.
pub mod Reads
pub mod Writes
pub mod Methods
pub mod Returns
use bitcask_go.Common.{
  ℕ, ◌^◌, ◌<◌, ◌≡◌, refl, ◌∙◌, Option, none, some, ◌++◌, Bytes, length, ◌==◌, if◌then◌else◌,
  append_assoc, ap, sym, subst,
}
use bitcask_go.Common.Eq.{◌=?◌, bytes_eq}
use bitcask_go.Common.Result.{Res, ok, err, key_is_empty, key_not_found}
use bitcask_go.Data.Record.{LogRecord, LogRecordPos, log_record_normal, encode_log_record}
use bitcask_go.Data.Record.RoundTrip.{IsFit}
use bitcask_go.Data.File.Read.{HoldsAt}
use bitcask_go.Index.{Indexer}
use bitcask_go.Batch.Key.{log_record_key_with_seq}
use bitcask_go.Db.State.{Db}
use bitcask_go.Db.Invariant.{bytes_of, IsOpen, IsSmall, Extends}

-- What a client sees: a value for some of the keys.
abbrev pub Contents : Type 0
Contents = Bytes → Option Bytes

abbrev pub update : Contents → Bytes → Bytes → Contents
update m k v j = if k =? j then some v else m j

abbrev pub erase : Contents → Bytes → Contents
erase m k j = if k =? j then none else m j

-- What Get answers on a map.
abbrev pub answer : Option Bytes → Res Bytes
answer none = err key_not_found
answer (some v) = ok v

abbrev pub lookup_contents : Contents → Bytes → Res Bytes
lookup_contents m k = if length k == 0 then err key_is_empty else answer (m k)

-- The record of a value in the log, written by the transaction `seq_no`.
abbrev pub value_record : Bytes → ℕ → Bytes → LogRecord
value_record k seq_no v = record {
  key = log_record_key_with_seq k seq_no;
  value = v;
  type = log_record_normal;
}

-- A record stays where it is when its file grows.
pub HoldsAt-append :
    {bs bs' : Bytes} {offset : ℕ} {r : LogRecord} (more : Bytes)
    → HoldsAt bs offset r
    → bs' ≡ bs ++ more
    → HoldsAt bs' offset r
HoldsAt-append {r = r} more h e = record {
  before = h.before;
  after = h.after ++ more;
  splits =
      e
      ∙ ap (λ t. t ++ more) h.splits
      ∙ append_assoc h.before ((encode_log_record r).0 ++ h.after) more
      ∙ ap (λ t. h.before ++ t) (append_assoc (encode_log_record r).0 h.after more);
  length_before = h.length_before;
}

module _ {ix : Indexer} where
  -- The value v of key k stands at pos, in a file that is open.
  pub record Stored (db : Db ix) (k v : Bytes) (pos : LogRecordPos) : Type 0 where
    pub seq_no : ℕ
    pub fit : IsFit (value_record k seq_no v)
    pub holds : HoldsAt (bytes_of db pos.fid) pos.offset (value_record k seq_no v)
    pub is_open : IsOpen db pos.fid

  abbrev pub Entry : Db ix → Bytes → Option LogRecordPos → Option Bytes → Type 0
  Entry db k none none = Unit
  Entry db k none (some v) = ⊥
  Entry db k (some pos) none = ⊥
  Entry db k (some pos) (some v) = Stored db k v pos

  pub record Refines (db : Db ix) (m : Contents) : Type 0 where
    pub entries : (k : Bytes) → Entry db k (ix.get k db.index) (m k)
    pub small : IsSmall db

  pub Stored-Extends :
      {db db' : Db ix} {k v : Bytes} {pos : LogRecordPos}
      → Extends db db'
      → Stored db k v pos
      → Stored db' k v pos
  Stored-Extends {pos = pos} x s = record {
    seq_no = s.seq_no;
    fit = s.fit;
    holds = HoldsAt-append (x.grown pos.fid).0 s.holds (x.grown pos.fid).1;
    is_open = x.still_open pos.fid s.is_open;
  }

  Entry-Extends :
      {db db' : Db ix} (k : Bytes) (p : Option LogRecordPos) (v : Option Bytes)
      → Extends db db'
      → Entry db k p v
      → Entry db' k p v
  Entry-Extends k none none x e = e
  Entry-Extends k none (some v) x e = e
  Entry-Extends k (some p) none x e = e
  Entry-Extends k (some p) (some v) x e = Stored-Extends x e

  -- Appending, also where it fails on the way, keeps the map.
  pub Refines-Extends :
      {db db' : Db ix} {m : Contents} → Extends db db' → Refines db m → Refines db' m
  Refines-Extends {db} {db'} {m} x r = record {
    entries = λ k.
        Entry-Extends k (ix.get k db'.index) (m k) x
          (subst (λ t. Entry db k (ix.get k t) (m k)) (sym x.frame.index) (r.entries k));
    small = x.small r.small;
  }
