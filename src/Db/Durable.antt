-- ===== src/Db/Durable.antt =====
-- A database whose data files hold a log. A write of db.go adds one record to it.
pub mod Methods
pub mod Reopen
pub mod Restart
use bitcask_go.Common.{
  ℕ, ◌≤◌, ◌<◌, ◌≡◌, sym, ap, subst, ◌∙◌, Bool-cases, Option-cases, inl, inr, true, false, Option,
  none, some, List, [], ◌∷◌, ◌++◌, Bytes, All, All-snoc, All-map, append-nil, ◌⊎◌, length, eq_cases,
  ◌==◌, arith,
}
use bitcask_go.Varint.{u32}
use bitcask_go.Data.Record.{LogRecordPos, encode_log_record}
use bitcask_go.Data.File.{DataFile}
use bitcask_go.Index.{Indexer}
use bitcask_go.Db.State.{Db}
use bitcask_go.Db.Invariant.{bytes_of, open_in, unused_from, active_id, IsWf, Places}
use bitcask_go.Db.Append.Whole.{Appended}
use bitcask_go.Db.Log.{entries_from, Logged, to_record, IsLogged, log_bytes, Entry, all_entries}
use bitcask_go.Db.Log.Grow.{
  log_bytes-snoc, log_bytes-empty, pos_behind, with_record, all_entries-append, all_entries-grow,
}

-- The older files, in the order of their ids, and the active one.
abbrev pub ids_of : List ℕ → Option DataFile → List ℕ
ids_of olders none = olders
ids_of olders (some f) = olders ++ f.file_id ∷ []

abbrev pub Below : List ℕ → Option DataFile → Type 0
Below olders none = olders ≡ []
Below olders (some f) = All (λ i. i < f.file_id) olders

All-below :
    (olders : List ℕ) (active : Option DataFile) (i : ℕ)
    → Below olders active
    → unused_from active ≤ i
    → All (λ k. k < i) (ids_of olders active)
All-below olders none i b u = rw b tt
All-below olders (some f) i b u =
    All-snoc (λ k. k < i) olders f.file_id
      (All-map (λ k. k < f.file_id) (λ k. k < i) olders (λ k h. omega arith) b) (omega arith)

no_entries :
    (records : ℕ → List Logged) (i : ℕ) → records i ≡ [] → all_entries records (i ∷ []) ≡ []
unfolding all_entries entries_from
no_entries records i e = rw e

module _ {ix : Indexer} where
  -- The data files hold the log, record by record.
  pub record HasLog (db : Db ix) (log : List Entry) : Type 0 where
    pub olders : List ℕ
    pub records : ℕ → List Logged
    pub below : Below olders db.active_file
    pub bytes : (i : ℕ) → bytes_of db i ≡ log_bytes (records i)
    pub logged : (i : ℕ) → All IsLogged (records i)
    pub entries : all_entries records (ids_of olders db.active_file) ≡ log

  -- The files in front of the one that a write goes to.
  record Front (db : Db ix) (log : List Entry) (h : HasLog db log) (i : ℕ) : Type 0 where
    front : List ℕ
    before : All (λ j. j < i) front
    entries : all_entries h.records (front ++ i ∷ []) ≡ log

  -- A new file begins with nothing in it.
  new-Front :
      (db : Db ix) (log : List Entry) (h : HasLog db log) (i : ℕ)
      → IsWf db
      → unused_from db.active_file ≤ i
      → Front db log h i
  new-Front db log h i wf u =
      let front = ids_of h.olders db.active_file in
      let nothing : all_entries h.records (i ∷ []) ≡ [] =
        no_entries h.records i (log_bytes-empty (h.records i) (sym (h.bytes i) ∙ wf.unused i u)) in
      record {
        front = front;
        before = All-below h.olders db.active_file i h.below u;
        entries =
            all_entries-append h.records front (i ∷ [])
            ∙ ap (λ (t : List Entry). all_entries h.records front ++ t) nothing
            ∙ append-nil (all_entries h.records front)
            ∙ h.entries;
      }

  Front-of :
      (db : Db ix) (log : List Entry) (h : HasLog db log) (i : ℕ)
      → IsWf db
      → Places db.active_file i
      → Front db log h i
  Front-of db log h i wf p = elim (Option-cases db.active_file) [
    | inl e ↦ new-Front db log h i wf (rw e (omega arith))
    | inr (f, e) ↦ elim (placed f e) [
      | inl same ↦ record {
        front = h.olders;
        before = rw same at (rw e at h.below);
        entries =
            ap (λ (t : ℕ). all_entries h.records (h.olders ++ t ∷ [])) (sym same)
            ∙ ap (λ a. all_entries h.records (ids_of h.olders a)) (sym e)
            ∙ h.entries;
      }
      | inr above ↦ new-Front db log h i wf (rw e (omega (arith, above)))
    ]
  ]
    where
      placed : (f : DataFile) → db.active_file ≡ some f → (f.file_id ≡ i) ⊎ (f.file_id < i)
      placed f e = rw e at p

  -- What a write adds to the log.
  pub Appended-HasLog :
      (db db' : Db ix) (log : List Entry) (l : Logged) (pos : LogRecordPos)
      → HasLog db log
      → IsLogged l
      → IsWf db
      → Appended (to_record l) db pos db'
      → HasLog db' (log ++ (l, pos) ∷ [])
  Appended-HasLog db db' log l pos h ll wf a = elim (Option-cases db'.active_file) [
    | inl e ↦ cc (ap (λ t. open_in t pos.fid db') e, a.now_open.found)
    | inr (f, e) ↦
        let fr = Front-of db log h pos.fid wf a.place in
        let id : f.file_id ≡ pos.fid = sym (ap active_id e) ∙ sym a.is_active in
        let at : length (bytes_of db pos.fid) ≡ length (log_bytes (h.records pos.fid)) =
          ap length (h.bytes pos.fid) in
        record {
          olders = fr.front;
          records = with_record pos.fid l h.records;
          below = subst (λ (o : Option DataFile). Below fr.front o) (sym e) (rw id fr.before);
          bytes = λ i. elim (eq_cases pos.fid i) [
            | inl t ↦
                subst (λ (j : ℕ). bytes_of db' j ≡ log_bytes (with_record pos.fid l h.records j)) t
                  (let self : (pos.fid == pos.fid) ≡ true = ground arith in
                    rw self (
                      a.added
                      ∙ ap (λ (b : Bytes). b ++ (encode_log_record (to_record l)).0)
                          (h.bytes pos.fid)
                      ∙ sym (log_bytes-snoc (h.records pos.fid) l)))
            | inr t ↦
                let apart : (pos.fid == i) ≡ false = ground arith in
                rw apart (a.elsewhere i t ∙ h.bytes i)
          ];
          logged = λ i. elim (Bool-cases (pos.fid == i)) [
            | inl t ↦ rw t (All-snoc IsLogged (h.records i) l (h.logged i) ll)
            | inr t ↦ rw t (h.logged i)
          ];
          entries =
              ap
                (λ (o : Option DataFile).
                  all_entries (with_record pos.fid l h.records) (ids_of fr.front o))
                e
              ∙ ap (λ (j : ℕ). all_entries (with_record pos.fid l h.records) (fr.front ++ j ∷ []))
                  id
              ∙ all_entries-grow h.records fr.front pos.fid l fr.before
              ∙ ap
                  (λ (p : LogRecordPos).
                    all_entries h.records (fr.front ++ pos.fid ∷ []) ++ (l, p) ∷ [])
                  (same_pos (a.offset ∙ at) a.size)
              ∙ ap (λ (es : List Entry). es ++ (l, pos) ∷ []) fr.entries;
        }
  ]
    where
      same_pos :
          {offset : ℕ}
          → pos.offset ≡ offset
          → pos.size ≡ u32 (encode_log_record (to_record l)).1
          → pos_behind pos.fid offset l ≡ pos
      same_pos o s = cc
