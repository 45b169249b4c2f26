-- ===== src/Db/Fold/Visits.antt =====
-- Fold visits the keys of the index with the values that the database holds, and ListKeys lists them.
use bitcask_go.Common.{
  ℕ, zero, suc, ◌+◌, ◌<◌, ◌≡◌, refl, ap, sym, subst, ◌∙◌, Bool-cases, inl, inr, true, false, Option,
  none, some, List, [], ◌∷◌, ◌++◌, map, Bytes, All, length, length-append, ltb-true, ltb-false,
  append_assoc, arith, if◌then◌else◌,
}
use bitcask_go.Common.Result.{Res, ok, ◌>>=◌}
use bitcask_go.Index.{Indexer, Item}
use bitcask_go.Index.Iterator
use bitcask_go.Index.Iterator.{ItemsIterator, item_at, item_or_panic}
use bitcask_go.Db.State.{Db}
use bitcask_go.Db.Ops.{get_value_by_position}
use bitcask_go.Db.Refine.{Contents, Entry, Refines}
use bitcask_go.Db.Refine.Reads.{get_value-Stored}
use bitcask_go.Db.Fold.{
  Visitor, filled, remaining_keys, fill_keys, list_keys, rounds, fold_from, fold,
}

-- Keys with their values in a map, as a list.
abbrev pub with_value : Bytes → Option Bytes → List (Bytes × Bytes) → List (Bytes × Bytes)
with_value k none rest = rest
with_value k (some v) rest = (k, v) ∷ rest

unfoldable pub pairs_of : Contents → List Item → List (Bytes × Bytes)
pairs_of m [] = []
pairs_of m (it ∷ rest) = with_value it.key (m it.key) (pairs_of m rest)

-- The visitor at one pair after another, until it wants no more.
unfoldable pub fold_pairs : {S : Type 0} → Visitor S → S → List (Bytes × Bytes) → S
fold_pairs fn s [] = s
fold_pairs fn s ((k, v) ∷ rest) =
    let (s', more) = fn s k v in if more then fold_pairs fn s' rest else s'

-- The iterator at the item behind some others.
abbrev behind : List Item → List Item → ItemsIterator
behind pre rest = record { curr_index = length pre; reverse = false; values = pre ++ rest }

item_at-append : (pre rest : List Item) (x : Item) → item_at (length pre) (pre ++ x ∷ rest) ≡ some x
unfolding item_at
item_at-append [] rest x = refl
item_at-append (y ∷ pre) rest x = item_at-append pre rest x

next-behind :
    (pre rest : List Item) (x : Item)
    → Iterator.next (behind pre (x ∷ rest)) ≡ behind (pre ++ x ∷ []) rest
unfolding Iterator.next
next-behind pre rest x =
    let len : length pre + 1 ≡ length (pre ++ x ∷ []) = omega (arith, length-append pre (x ∷ [])) in
    ap (λ (n : ℕ). moved n (pre ++ x ∷ rest)) len
    ∙ ap (λ (xs : List Item). moved (length (pre ++ x ∷ [])) xs)
        (sym (append_assoc pre (x ∷ []) rest))
  where
    moved : ℕ → List Item → ItemsIterator
    moved n xs = record { curr_index = n; reverse = false; values = xs }

valid-behind : (pre rest : List Item) (x : Item) → Iterator.valid (behind pre (x ∷ rest)) ≡ true
unfolding Iterator.valid
valid-behind pre rest x = ltb-true _ _ (omega (arith, length-append pre (x ∷ rest)))

valid-end : (pre : List Item) → Iterator.valid (behind pre []) ≡ false
unfolding Iterator.valid
valid-end pre = ltb-false _ _ (omega (arith, length-append pre []))

remaining_keys-behind :
    (fuel : ℕ) (pre rest : List Item)
    → length rest < fuel
    → remaining_keys fuel (behind pre rest) ≡ some (ok (map (λ (it : Item). it.key) rest))
unfolding remaining_keys Iterator.key
remaining_keys-behind zero pre rest h = absurd (omega arith)
remaining_keys-behind (suc fuel) pre [] h = rw (valid-end pre) refl
remaining_keys-behind (suc fuel) pre (x ∷ rest) h =
    rw (valid-behind pre rest x, item_at-append pre rest x, next-behind pre rest x)
      (rw (remaining_keys-behind fuel (pre ++ x ∷ []) rest (omega arith)) refl)

filled-all : (ks : List Bytes) → filled (length ks) ks ≡ ok ks
filled-all [] = refl
filled-all (k ∷ ks) = ap (λ (r : Res (List Bytes)). r >>= λ rest. ok (k ∷ rest)) (filled-all ks)

length-keys : (items : List Item) → length (map (λ (it : Item). it.key) items) ≡ length items
length-keys [] = refl
length-keys (x ∷ items) = omega (arith, length-keys items)

module _ {ix : Indexer} where
  -- Where the index has the size of its items, ListKeys ends without a panic with the keys of
  -- all items in the order of the index.
  pub list_keys-map :
      (db : Db ix)
      → ix.size db.index ≡ length (ix.items db.index)
      → list_keys db ≡ some (ok (map (λ (it : Item). it.key) (ix.items db.index)))
  unfolding list_keys Iterator.rewind
  list_keys-map db e =
      let keys = map (λ (it : Item). it.key) (ix.items db.index) in
      ap (λ o. fill_keys (ix.size db.index) o)
        (remaining_keys-behind (rounds db) [] (ix.items db.index) (omega arith))
      ∙ ap (λ (n : ℕ). some (filled n keys)) (e ∙ sym (length-keys (ix.items db.index)))
      ∙ ap (λ r. some r) (filled-all keys)

  -- What the index has of an item.
  abbrev pub IsIndexed : Db ix → Item → Type 0
  IsIndexed db it = ix.get it.key db.index ≡ some it.pos

  module _ {S : Type 0} (fn : Visitor S) (db : Db ix) (m : Contents) (r : Refines db m) where
    visited :
        (x : Item) (v : Option Bytes)
        → Entry db x.key (some x.pos) v
        → (w : Bytes) × (v ≡ some w) × (get_value_by_position x.pos db ≡ ok w)
    visited x none e = absurd e
    visited x (some w) e = (w, refl, get_value-Stored db e r.small)

    visited_item :
        (x : Item)
        → IsIndexed db x
        → (w : Bytes) × (m x.key ≡ some w) × (get_value_by_position x.pos db ≡ ok w)
    visited_item x h =
        visited x (m x.key) (subst (λ p. Entry db x.key p (m x.key)) h (r.entries x.key))

    fold_from-pairs :
        (fuel : ℕ) (pre rest : List Item) (s : S)
        → length rest < fuel
        → All (IsIndexed db) rest
        → fold_from fn fuel (behind pre rest) s db ≡ some (fold_pairs fn s (pairs_of m rest), ok tt)
    unfolding fold_from fold_pairs pairs_of Iterator.key Iterator.value
    fold_from-pairs zero pre rest s h all = absurd (omega arith)
    fold_from-pairs (suc fuel) pre [] s h all = rw (valid-end pre) refl
    fold_from-pairs (suc fuel) pre (x ∷ rest) s h all =
        let (w, in_map, read) = visited_item x all.0 in
        let ih = λ (s' : S). fold_from-pairs fuel (pre ++ x ∷ []) rest s' (omega arith) all.1 in
        rw
          (valid-behind pre rest x, item_at-append pre rest x, read, in_map, next-behind pre rest x)
          (elim (Bool-cases (fn s x.key w).1) [
            | inl t ↦ rw t (ih (fn s x.key w).0)
            | inr t ↦ rw t refl
          ])

    -- On a database that holds a map, where the index has every one of its items, Fold ends
    -- without an error: what it calls back has seen the key of one item after another, in the
    -- order of the index, each with the value that the map has for it, until it answered false.
    pub fold-fold_pairs :
        (s : S)
        → All (IsIndexed db) (ix.items db.index)
        → fold fn s db ≡ some (fold_pairs fn s (pairs_of m (ix.items db.index)), ok tt)
    unfolding fold Iterator.rewind
    fold-fold_pairs s all = fold_from-pairs (rounds db) [] (ix.items db.index) s (omega arith) all
