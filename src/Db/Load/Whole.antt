-- ===== src/Db/Load/Whole.antt =====
-- loadIndexFromDataFiles as a whole, where no merge has finished.
use bitcask_go.Common.{
  ℕ, ◌≡◌, refl, sym, ap, ◌∙◌, false, none, some, List, [], ◌∷◌, Bytes, All, length, ◌==◌, arith,
}
use mathlib.Core.Option
use bitcask_go.Common.Assoc.{lookup}
use bitcask_go.Common.Eq.{nat_eq}
use bitcask_go.Common.Fuelled.{Fuelled}
use bitcask_go.Common.Result.{ok}
use bitcask_go.Fio.{file_exists, merge_finished_file}
use bitcask_go.Batch.Key.{non_transaction_seq_no}
use bitcask_go.Index.{Indexer}
use bitcask_go.Db.State.{Db}
use bitcask_go.Db.Invariant.{bytes_of, IsSmall}
use bitcask_go.Db.Refine.Writes.{reindexed}
use bitcask_go.Db.Load.Loop.{Loading, at_offset, load_files, loaded, load_index_from_data_files}
use bitcask_go.Db.Load.Replay.{Tracks, Reindexed-refl}
use bitcask_go.Db.Load.Files.{HoldsLog, last_of, load_files-Tracks}
use bitcask_go.Db.Log.{Logged, all_entries, Recovered, recover, nothing_recovered}

module _ {ix : Indexer} where
  -- A database whose files are open and whose index is empty.
  pub record Opened (records : ℕ → List Logged) (i : ℕ) (is : List ℕ) (db : Db ix) : Type 0 where
    pub file_ids : db.file_ids ≡ i ∷ is
    pub holds : All (HoldsLog db records) (i ∷ is)
    pub small : IsSmall db
    pub empty : (k : Bytes) → ix.get k db.index ≡ none
    pub unmerged :
        file_exists db.disk (record { dir = db.options.dir_path; name = merge_finished_file })
        ≡ false

  -- What is left: the index, the sequence number, and where the active file is written.
  pub record Restored (offset : ℕ) (r : Recovered) (db db' : Db ix) : Type 0 where
    pub index : ix.Index
    pub reclaim : ℕ
    pub at :
        db'
        ≡ record (reindexed index reclaim
            (record db { active_file = Option.map (at_offset offset) db.active_file })) {
              seq_no = r.seq_no;
            }
    pub shows : (k : Bytes) → ix.get k index ≡ r.index k

  start : Db ix → Loading ix
  start db = record { db = db; transaction_records = []; current_seq_no = non_transaction_seq_no }

  start-Tracks :
      (db : Db ix) → ((k : Bytes) → ix.get k db.index ≡ none) → Tracks (start db) nothing_recovered
  unfolding start lookup
  start-Tracks db h = record {
    shows = h;
    waiting = λ n. refl;
    waiting-IsPos = λ n. tt;
    seq_no = refl;
  }

  load_index-start :
      (db : Db ix) (i : ℕ) (is : List ℕ)
      → db.file_ids ≡ i ∷ is
      → file_exists db.disk (record { dir = db.options.dir_path; name = merge_finished_file })
        ≡ false
      → load_index_from_data_files db ≡ loaded db (load_files none (i ∷ is) (start db))
  unfolding load_index_from_data_files start
  load_index-start db i is e u =
      let some_ids : (length db.file_ids == 0) ≡ false = ground (arith, ap length e) in
      rw (some_ids, u) (ap (λ (ids : List ℕ). loaded db (load_files none ids (start db))) e)

  -- On a database whose files are open under their names, hold encoded records and are below 2
  -- ^ 62 bytes, with an empty index and no finished merge, loadIndexFromDataFiles ends without
  -- an error and without running out of fuel: the index is that of the log (a record of its own
  -- takes effect where it stands, those of a transaction where it finishes, those of one that
  -- does not finish never), the sequence number is the highest of the log, the active file is
  -- written at its end, and nothing else changes but the reclaimable size.
  pub load_index-Restored :
      (records : ℕ → List Logged) (i : ℕ) (is : List ℕ) (db : Db ix)
      → Opened records i is db
      → (db' : Db ix) × (load_index_from_data_files db ≡ some (db', ok tt))
        × Restored
            (length (bytes_of db (last_of i is)))
            (recover (all_entries records (i ∷ is)) nothing_recovered)
            db
            db'
  load_index-Restored records i is db o =
      let l =
        load_files-Tracks records db o.small i is (start db) nothing_recovered o.holds
          (unfold start in Reindexed-refl db) (start-Tracks db o.empty) in
      let offset = length (bytes_of db (last_of i is)) in
      (
        record l.s'.db { seq_no = l.s'.current_seq_no },
        load_index-start db i is o.file_ids o.unmerged
            ∙ ap (λ (x : Fuelled (Loading ix)). loaded db x) l.runs,
        record {
          index = l.ended.index;
          reclaim = l.ended.reclaim;
          at =
              ap (λ (t : Db ix). record t { seq_no = l.s'.current_seq_no }) l.ended.at
              ∙ ap
                  (λ (n : ℕ).
                    record (reindexed l.ended.index l.ended.reclaim
                      (record db { active_file = Option.map (at_offset offset) db.active_file })) {
                        seq_no = n;
                      })
                  l.tracks.seq_no;
          shows = λ k. ap (λ (t : Db ix). ix.get k t.index) (sym l.ended.at) ∙ l.tracks.shows k;
        },
      )
