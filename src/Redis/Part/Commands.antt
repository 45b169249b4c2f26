-- ===== src/Redis/Part/Commands.antt =====
-- The steps of the commands on a database that holds a map: finding the metadata, looking for a part,
-- and committing the writes.
use bitcask_go.Common.{
  ℕ, ◌+◌, ◌^◌, ◌<◌, ◌≡◌, refl, ◌≢◌, if◌then◌else◌, true, false, Option, none, some, [], Bytes,
  length, ◌==◌, arith,
}
use bitcask_go.Common.Assoc.{Assoc}
use bitcask_go.Common.Assoc.Size.{present}
use bitcask_go.Common.Eq.{◌=?◌, bytes_eq, nat_eq, beq_self}
use bitcask_go.Common.Result.{Res, ok, err, panicked}
use bitcask_go.Common.Exec.{continue, pure}
use bitcask_go.Common.Exec.Post.{Post, Post-mono, Post-continue}
use bitcask_go.Index.{Indexer, b_plus_tree}
use bitcask_go.Batch.{WriteBatch}
use bitcask_go.Batch.Commit.{Committed}
use bitcask_go.Batch.Ranging.{Ranging, IsRanging, default_write_batch_options}
use bitcask_go.Batch.Ranging.Filled.{Filled, commit_in-Post, new_write_batch-ok}
use bitcask_go.Db.State.{Db}
use bitcask_go.Db.Invariant.{IsWf, active_id}
use bitcask_go.Db.Refine.{Contents, Refines, answer}
use bitcask_go.Db.Refine.Reads.{get-Refines}
use bitcask_go.Db.Refine.Writes.{IsStorable}
use bitcask_go.Redis.Meta.{Metadata, encode_metadata}
use bitcask_go.Redis.Meta.RoundTrip.{decode-encode_metadata, length-encode_metadata}
use bitcask_go.Redis.Types.{find_metadata, metadata_of, metadata_expired}
use bitcask_go.Redis.Part.{exists_of, exists_at, commit_new}
use bitcask_go.Redis.Part.Stands.{Finds, IsParts}

exists_of-answer : (o : Option Bytes) → exists_of (answer o) ≡ ok (present o)
exists_of-answer none = refl
exists_of-answer (some v) = refl

-- The metadata of a key can be stored.
pub metadata-IsStorable :
    (key : Bytes) (md : Metadata)
    → length key + 10 < 2 ^ 32
    → md.size < 2 ^ 32
    → IsStorable key (encode_metadata md)
metadata-IsStorable key md h s = record {
  key_fits = h;
  value_fits = ground (arith, length-encode_metadata md s);
}

-- The metadata of a map that is not empty is found until it expires.
pub IsParts-Finds :
    (data_type : ℕ) (m : Contents) (key : Bytes) (md : Metadata) (h : Assoc Bytes Bytes)
    (now version : ℕ)
    → IsParts data_type m key md h
    → length h ≢ 0
    → metadata_expired md now ≡ false
    → Finds m key data_type now version md
unfolding metadata_of
IsParts-Finds data_type m key md h now version is some_parts live =
    let counted : (md.size == 0) ≡ false = ground (arith, is.size) in
    rw (is.stored counted, decode-encode_metadata md is.fits, is.typed, beq_self data_type, live)
      refl

-- What a deletion that is committed ensures.
pub deleted-Post :
    {S : Type 0} (s₀ : S) (Q : S → Type 0) (E : S → Type 0) (x : S × Res (Unit {0}))
    → Post (λ _ s. Q s) E x
    → Post
        (λ deleted s. (deleted ≡ true) × (if deleted then Q s else s ≡ s₀))
        E
        (continue x.0 x.1 (λ _. pure true))
deleted-Post s₀ Q E (s, ok a) h = (refl, h)
deleted-Post s₀ Q E (s, err e) h = h
deleted-Post s₀ Q E (s, panicked) h = h

module _ {ix : Indexer} where
  -- A well-formed database with an index in memory holds the map m, with n file ids to spare.
  pub record IsReady (db : Db ix) (m : Contents) (n : ℕ) : Type 0 where
    pub refines : Refines db m
    pub wf : IsWf db
    pub spare : active_id db.active_file + n < 2 ^ 32
    pub in_memory : (db.options.indexer_type == b_plus_tree) ≡ false

  pub find_metadata-Finds :
      (db : Db ix) (m : Contents) (key : Bytes) (data_type now version : ℕ) (md : Metadata)
      → Refines db m
      → (length key == 0) ≡ false
      → Finds m key data_type now version md
      → find_metadata key data_type now version db ≡ ok md
  unfolding find_metadata
  find_metadata-Finds db m key data_type now version md r k f = rw (get-Refines db m key r, k) f

  pub exists_at-Refines :
      (db : Db ix) (m : Contents) (key : Bytes)
      → Refines db m
      → (length key == 0) ≡ false
      → exists_at key db ≡ ok (present (m key))
  exists_at-Refines db m key r k = rw (get-Refines db m key r, k) (exists_of-answer (m key))

  -- A batch that is filled to stand for m' makes the database hold m'.
  pub commit_new-Post :
      (g : Ranging) (db : Db ix) (m m' : Contents) (n : ℕ) (fill : WriteBatch → Db ix → WriteBatch)
      → IsRanging g
      → IsReady db m (n + 1)
      → Filled m m' n
          (fill (record { options = default_write_batch_options; pending_writes = [] }) db)
      → Post (λ _ db'. Committed (n + 1) m' db db') (λ db'. Refines db' m) (commit_new g fill db)
  unfolding commit_new
  commit_new-Post g db m m' n fill ranging ready f =
      rw (new_write_batch-ok default_write_batch_options db ready.in_memory) (
        Post-continue (λ _ db'. Committed (n + 1) m' db db') (λ db'. Refines db' m)
          (λ _ db'. Committed (n + 1) m' db db') (λ db'. Refines db' m) _ _
          (commit_in-Post g db m m' n _ ranging f ready.refines ready.wf ready.spare)
          (λ wb db' c. c) (λ db' r. r))

  -- P holds of the contents and the metadata at the key after a command, and only the metadata and the
  -- part at `changed` have changed.
  pub record After (P : Contents → Metadata → Type 0) (m : Contents) (key changed : Bytes)
      (md : Metadata) (n : ℕ) (db db' : Db ix) : Type 0 where
    pub contents : Contents
    pub metadata : Metadata
    pub committed : Committed n contents db db'
    pub holds : P contents metadata
    pub version : metadata.version ≡ md.version
    pub expire : metadata.expire ≡ md.expire
    pub rest : (j : Bytes) → (key =? j) ≡ false → (changed =? j) ≡ false → contents j ≡ m j

  -- The map h stands at the key after a command.
  abbrev pub Stands :
      ℕ → Contents → Bytes → Bytes → Metadata → Assoc Bytes Bytes → ℕ → Db ix → Db ix → Type 0
  Stands data_type m key changed md h =
      After (λ (c : Contents) md'. IsParts data_type c key md' h) m key changed md

  -- A batch of two writes at most, to the metadata and the part, is committed.
  pub fill-Post :
      (g : Ranging) (db : Db ix) (m : Contents) (key changed : Bytes) (md : Metadata)
      (P : Contents → Metadata → Type 0) (m' : Contents) (md' : Metadata)
      (fill : WriteBatch → Db ix → WriteBatch)
      → IsRanging g
      → IsReady db m 3
      → Filled m m' 2
          (fill (record { options = default_write_batch_options; pending_writes = [] }) db)
      → P m' md'
      → md'.version ≡ md.version
      → md'.expire ≡ md.expire
      → ((j : Bytes) → (key =? j) ≡ false → (changed =? j) ≡ false → m' j ≡ m j)
      → Post
          (λ _ db'. After P m key changed md 3 db db')
          (λ db'. Refines db' m)
          (commit_new g fill db)
  fill-Post g db m key changed md P m' md' fill ranging ready filled holds version expire rest =
      Post-mono (λ _ db'. Committed 3 m' db db') (λ _ db'. After P m key changed md 3 db db')
        (λ db'. Refines db' m) (λ db'. Refines db' m) _
        (commit_new-Post g db m m' 2 fill ranging ready filled)
        (λ _ db' c. record {
          contents = m';
          metadata = md';
          committed = c;
          holds = holds;
          version = version;
          expire = expire;
          rest = rest;
        })
        (λ db' r. r)
