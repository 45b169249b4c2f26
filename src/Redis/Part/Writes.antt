-- ===== src/Redis/Part/Writes.antt =====
-- The three batches of the commands on hashes and sets, and the map that stands after each.
use bitcask_go.Common.{ℕ, ◌+◌, ◌^◌, ◌<◌, ◌≡◌, refl, true, false, [], Bytes, length, ◌==◌, arith}
use bitcask_go.Common.Assoc.{Assoc, lookup, insert, remove}
use bitcask_go.Common.Assoc.Size.{present}
use bitcask_go.Common.Eq.{bytes_eq}
use bitcask_go.Common.Exec.Post.{Post}
use bitcask_go.Index.{Indexer}
use bitcask_go.Batch.{WriteBatch}
use bitcask_go.Batch.Ranging.{Ranging, IsRanging, default_write_batch_options, put_in, delete_in}
use bitcask_go.Batch.Ranging.Filled.{Filled, new-Filled, put_in-Filled, delete_in-Filled}
use bitcask_go.Db.State.{Db}
use bitcask_go.Db.Refine.{Contents, Refines, erase}
use bitcask_go.Db.Refine.Writes.{IsStorable}
use bitcask_go.Redis.Meta.{Metadata, encode_metadata}
use bitcask_go.Redis.Part.{grown, shrunk, commit_new}
use bitcask_go.Redis.Part.Stands.{
  part_key, length-part_key, IsParts, with_part, with_metadata, set-IsParts, add-IsParts,
  remove-IsParts,
}
use bitcask_go.Redis.Part.Commands.{metadata-IsStorable, IsReady, Stands, fill-Post}

-- The key and its part fit into a record.
pub record IsKeys (key p : Bytes) : Type 0 where
  pub some_key : (length key == 0) ≡ false
  pub fits : length key + length p + 18 < 2 ^ 32

pub some_part :
    (key : Bytes) (version : ℕ) (p : Bytes) → (length (part_key key version p) == 0) ≡ false
some_part key version p = ground (arith, length-part_key key version p)

pub part-IsStorable :
    (key p : Bytes) (version : ℕ) (v : Bytes)
    → IsKeys key p
    → length v < 2 ^ 32
    → IsStorable (part_key key version p) v
part-IsStorable key p version v keys fits = record {
  key_fits = omega (arith, length-part_key key version p, keys.fits);
  value_fits = fits;
}

-- The metadata is the first write of a batch.
pub metadata-Filled :
    (m : Contents) (key p : Bytes) (md : Metadata)
    → IsKeys key p
    → md.size < 2 ^ 32
    → Filled m (with_metadata m key md) 1 (
        put_in key
          (encode_metadata md)
          (record { options = default_write_batch_options; pending_writes = [] }))
metadata-Filled m key p md keys h =
    put_in-Filled m m 0 key (encode_metadata md) _ keys.some_key
      (metadata-IsStorable key md (omega (arith, keys.fits)) h)
      (new-Filled m default_write_batch_options)

Filled-more : {m m' : Contents} (wb : WriteBatch) → Filled m m' 1 wb → Filled m m' 2 wb
Filled-more wb f = record {
  stands = f.stands;
  is_batch = f.is_batch;
  keyed = f.keyed;
  bounded = omega (arith, f.bounded);
}

module _ {ix : Indexer} (g : Ranging) (db : Db ix) (m : Contents) (key p : Bytes) (md : Metadata)
    (h : Assoc Bytes Bytes) (data_type : ℕ) (ranging : IsRanging g) (ready : IsReady db m 3)
    (keys : IsKeys key p) (is : IsParts data_type m key md h) where
  pub set_part-Post :
      (v : Bytes)
      → length v < 2 ^ 32
      → present (lookup p h) ≡ true
      → Post
          (λ _ db'. Stands data_type m key (part_key key md.version p) md (insert p v h) 3 db db')
          (λ db'. Refines db' m)
          (commit_new g (λ wb _. put_in (part_key key md.version p) v wb) db)
  set_part-Post v fits there =
      fill-Post g db m key (part_key key md.version p) md
        (λ (c : Contents) md'. IsParts data_type c key md' (insert p v h)) (with_part m key md p v)
        md (λ wb _. put_in (part_key key md.version p) v wb) ranging ready
        (Filled-more _ (
          put_in-Filled m m 0 (part_key key md.version p) v _ (some_part key md.version p)
            (part-IsStorable key p md.version v keys fits)
            (new-Filled m default_write_batch_options)))
        (set-IsParts data_type m key md h is p v there) refl refl (λ j a b. rw b refl)

  pub add_part-Post :
      (v : Bytes)
      → length v < 2 ^ 32
      → length h + 1 < 2 ^ 32
      → present (lookup p h) ≡ false
      → Post
          (λ _ db'. Stands data_type m key (part_key key md.version p) md (insert p v h) 3 db db')
          (λ db'. Refines db' m)
          (commit_new g
            (λ wb _.
              put_in (part_key key md.version p) v (put_in key (encode_metadata (grown md)) wb))
            db)
  add_part-Post v fits few absent =
      let m1 = with_metadata m key (grown md) in
      fill-Post g db m key (part_key key md.version p) md
        (λ (c : Contents) md'. IsParts data_type c key md' (insert p v h)) (with_part m1 key md p v)
        (grown md)
        (λ wb _. put_in (part_key key md.version p) v (put_in key (encode_metadata (grown md)) wb))
        ranging ready
        (put_in-Filled m m1 1 (part_key key md.version p) v _ (some_part key md.version p)
          (part-IsStorable key p md.version v keys fits)
          (metadata-Filled m key p (grown md) keys (omega arith)))
        (add-IsParts data_type m key md h is p v absent few) refl refl (λ j a b. rw (a, b) refl)

  pub remove_part-Post :
      present (lookup p h) ≡ true
      → Post
          (λ _ db'. Stands data_type m key (part_key key md.version p) md (remove p h) 3 db db')
          (λ db'. Refines db' m)
          (commit_new g
            (λ wb db'.
              delete_in
                (part_key key md.version p)
                db'
                (put_in key (encode_metadata (shrunk md)) wb))
            db)
  remove_part-Post there =
      let m1 = with_metadata m key (shrunk md) in
      fill-Post g db m key (part_key key md.version p) md
        (λ (c : Contents) md'. IsParts data_type c key md' (remove p h))
        (erase m1 (part_key key md.version p)) (shrunk md)
        (λ wb db'.
          delete_in (part_key key md.version p) db' (put_in key (encode_metadata (shrunk md)) wb))
        ranging ready
        (delete_in-Filled db m m1 1 (part_key key md.version p) _ (some_part key md.version p)
          (part-IsStorable key p md.version [] keys (omega arith)).key_fits ready.refines
          (metadata-Filled m key p (shrunk md) keys (omega arith)))
        (remove-IsParts data_type m key md h is p there) refl refl (λ j a b. rw (a, b) refl)
