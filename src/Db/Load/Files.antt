-- ===== src/Db/Load/Files.antt =====
-- The loop over the data files of a log.
use bitcask_go.Common.{
  ℕ, ◌+◌, ◌%◌, ◌^◌, ◌≤◌, ◌<◌, ◌≡◌, sym, ap, subst, ◌∙◌, Option, none, some, List, [], ◌∷◌, length,
  All, length-append, append-nil, arith,
}
use mathlib.Core.Option
use bitcask_go.Common.Result.{ok}
use bitcask_go.Fio.{contents}
use bitcask_go.Data.Record.{encode_log_record}
use bitcask_go.Data.Record.RoundTrip.{encode_log_record_size, length-encode_log_record}
use bitcask_go.Data.File.{DataFile}
use bitcask_go.Index.{Indexer}
use bitcask_go.Db.State.{Db}
use bitcask_go.Db.Invariant.{bytes_of, open_in, IsOpen, IsSmall}
use bitcask_go.Db.Refine.Writes.{reindexed, IsOpen-reindexed}
use bitcask_go.Db.Load.Loop.{
  Loading, at_offset, fuel_for, file_to_load, set_write_off, load_one, load_files,
}
use bitcask_go.Db.Load.Scan.{load_entries, load_file-log_bytes}
use bitcask_go.Db.Load.Replay.{Tracks, Reindexed, Reindexed-trans, IsPosEntry, load_entries-Tracks}
use bitcask_go.Db.Log.{
  Logged, to_record, IsLogged, log_bytes, entries_from, all_entries, Recovered, recover,
  recover-append, Entry,
}

-- Every record takes a byte and more, so the fuel is enough.
length-log_bytes : (ls : List Logged) → length ls ≤ length (log_bytes ls)
unfolding log_bytes
length-log_bytes [] = omega arith
length-log_bytes (l ∷ ls) = omega (
  arith,
  length-append (encode_log_record (to_record l)).0 (log_bytes ls),
  length-encode_log_record (to_record l),
  encode_log_record_size (to_record l),
  length-log_bytes ls,
)

entries_from-IsPos :
    (i offset : ℕ) (ls : List Logged)
    → i < 2 ^ 32
    → offset + length (log_bytes ls) < 2 ^ 62
    → All IsPosEntry (entries_from i offset ls)
unfolding entries_from log_bytes
entries_from-IsPos i offset [] h hs = tt
entries_from-IsPos i offset (l ∷ ls) h hs = (
  record { fid = h; offset = omega arith; size = omega arith },
  entries_from-IsPos i (offset + (encode_log_record (to_record l)).1) ls h (
      omega (
        arith,
        length-append (encode_log_record (to_record l)).0 (log_bytes ls),
        length-encode_log_record (to_record l),
        hs,
      )),
)

abbrev pub last_of : ℕ → List ℕ → ℕ
last_of i [] = i
last_of i (j ∷ js) = last_of j js

module _ {ix : Indexer} where
  -- File i is open and holds these records.
  pub record HoldsLog (db : Db ix) (records : ℕ → List Logged) (i : ℕ) : Type 0 where
    pub is_open : IsOpen db i
    pub bytes : bytes_of db i ≡ log_bytes (records i)
    pub logged : All IsLogged (records i)
    pub id_fits : i < 2 ^ 32

  to_load :
      (db : Db ix) (active : Option DataFile) (i : ℕ) (f : DataFile)
      → open_in active i db ≡ some f
      → file_to_load active i db ≡ ok f
  to_load db none i f e = cc
  to_load db (some a) i f e = rw e

  HoldsLog-Reindexed :
      (records : ℕ → List Logged) (i : ℕ) (db db' : Db ix)
      → Reindexed db db'
      → HoldsLog db records i
      → HoldsLog db' records i
  HoldsLog-Reindexed records i db db' r h =
      subst (λ t. HoldsLog t records i) (sym r.at)
        (record {
          is_open = IsOpen-reindexed r.index r.reclaim db i h.is_open;
          bytes = h.bytes;
          logged = h.logged;
          id_fits = h.id_fits;
        })

  load_one-HoldsLog :
      (records : ℕ → List Logged) (i : ℕ) (rest : List ℕ) (s : Loading ix)
      → HoldsLog s.db records i
      → IsSmall s.db
      → load_one none i rest s
        ≡ some (
            ok (
              set_write_off rest
                (length (log_bytes (records i)))
                (load_entries (entries_from i 0 (records i)) s)))
  unfolding load_one
  load_one-HoldsLog records i rest s h small =
      let id : i % 2 ^ 32 ≡ i = omega (arith, h.id_fits) in
      let f = h.is_open.file in
      let at : contents s.db.disk f.io_manager.path ≡ log_bytes (records i) =
        ap (contents s.db.disk) h.is_open.named ∙ h.bytes in
      let len : 0 + length (log_bytes (records i)) ≡ length (log_bytes (records i)) = omega arith in
      rw (
        id,
        to_load s.db s.db.active_file i f h.is_open.found,
        load_file-log_bytes (records i) (fuel_for f s.db) i f [] s at h.logged
            (omega (arith, ap length at, ap length h.bytes, small i))
            (omega (arith, ap length at, length-log_bytes (records i))),
        len,
      )

  -- What the loop leaves of the database: the index, and where the active file is written.
  pub record Ended (db : Db ix) (offset : ℕ) (db' : Db ix) : Type 0 where
    pub index : ix.Index
    pub reclaim : ℕ
    pub at :
        db'
        ≡ reindexed index reclaim
            (record db { active_file = Option.map (at_offset offset) db.active_file })

  -- The whole loop, from any of its rounds on.
  module _ (records : ℕ → List Logged) (db0 : Db ix) (small : IsSmall db0) where
    pub record Loads (last : ℕ) (ids : List ℕ) (s : Loading ix) (r : Recovered) : Type 0 where
      pub s' : Loading ix
      pub runs : load_files none ids s ≡ some (ok s')
      pub tracks : Tracks s' (recover (all_entries records ids) r)
      pub ended : Ended db0 (length (bytes_of db0 last)) s'.db

    Tracks-write_off :
        (rest : List ℕ) (offset : ℕ) (s : Loading ix) (r : Recovered)
        → Tracks s r
        → Tracks (set_write_off rest offset s) r
    Tracks-write_off [] offset s r h = record {
      shows = h.shows;
      waiting = h.waiting;
      waiting-IsPos = h.waiting-IsPos;
      seq_no = h.seq_no;
    }
    Tracks-write_off (j ∷ js) offset s r h = h

    IsSmall-in : (db : Db ix) → Reindexed db0 db → IsSmall db
    IsSmall-in db x = subst IsSmall (sym x.at) small

    file_IsPos : (i : ℕ) → HoldsLog db0 records i → All IsPosEntry (entries_from i 0 (records i))
    file_IsPos i h =
        entries_from-IsPos i 0 (records i) h.id_fits (omega (arith, ap length h.bytes, small i))

    pub load_files-Tracks :
        (i : ℕ) (is : List ℕ) (s : Loading ix) (r : Recovered)
        → All (HoldsLog db0 records) (i ∷ is)
        → Reindexed db0 s.db
        → Tracks s r
        → Loads (last_of i is) (i ∷ is) s r
    unfolding load_files all_entries
    load_files-Tracks i [] s r h x t =
        let here = HoldsLog-Reindexed records i db0 s.db x h.0 in
        let es = entries_from i 0 (records i) in
        let offset = length (log_bytes (records i)) in
        let loaded = load_entries-Tracks es s r (file_IsPos i h.0) t in
        let y = Reindexed-trans x loaded.1 in
        record {
          s' = set_write_off [] offset (load_entries es s);
          runs = rw (load_one-HoldsLog records i [] s here (IsSmall-in s.db x));
          tracks =
              subst
                (λ (l : List Entry).
                  Tracks (set_write_off [] offset (load_entries es s)) (recover l r))
                (sym (append-nil es))
                (Tracks-write_off [] offset (load_entries es s) (recover es r) loaded.0);
          ended = record {
            index = y.index;
            reclaim = y.reclaim;
            at =
                ap
                  (λ (t : Db ix). record t {
                    active_file = Option.map (at_offset offset) t.active_file;
                  })
                  y.at
                ∙ ap
                    (λ (n : ℕ).
                      reindexed y.index y.reclaim
                        (record db0 { active_file = Option.map (at_offset n) db0.active_file }))
                    (sym (ap length h.0.bytes));
          };
        }
    load_files-Tracks i (j ∷ js) s r h x t =
        let here = HoldsLog-Reindexed records i db0 s.db x h.0 in
        let es = entries_from i 0 (records i) in
        let loaded = load_entries-Tracks es s r (file_IsPos i h.0) t in
        let rest =
          load_files-Tracks j js (load_entries es s) (recover es r) h.1 (Reindexed-trans x loaded.1)
            loaded.0 in
        record {
          s' = rest.s';
          runs = rw (load_one-HoldsLog records i (j ∷ js) s here (IsSmall-in s.db x)) rest.runs;
          tracks =
              subst (λ (q : Recovered). Tracks rest.s' q)
                (sym (recover-append es (all_entries records (j ∷ js)) r)) rest.tracks;
          ended = rest.ended;
        }
