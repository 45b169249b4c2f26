-- ===== src/Tests/Iterators.antt =====
-- Iterators, at concrete inputs.
use bitcask_go.Common.{zero, suc, ◌≡◌, refl, true, false, some, List, [], ◌∷◌, Bytes, subst, arith}
use bitcask_go.Common.Eq.{bytes_eq}
use bitcask_go.Common.Result.{ok}
use bitcask_go.Index.{Item}
use bitcask_go.Index.Iterator
use bitcask_go.Index.Iterator.{ItemsIterator, new_items_iterator, bytes_ltb, item_at, at_or_beyond}
use bitcask_go.Index.Iterator.Seek.{IsOrdered, Splits, seek-Splits}
use bitcask_go.Iterator.{DbIterator, new_iterator, skip_to_next, seek}
use bitcask_go.Iterator.Skip.{Skipped, skip_to_next-Skipped, Found, seek-Found}

abbrev item : Bytes → Item
item k = record { key = k; pos = record { fid = 0; offset = 0; size = 9 } }

abbrev two_items : List Item
two_items = item (b'k' ∷ []) ∷ item (b'k' ∷ b'e' ∷ []) ∷ []

two_items-IsOrdered : IsOrdered false two_items
unfolding item_at bytes_ltb
two_items-IsOrdered zero zero x y h ex ey = absurd (omega arith)
two_items-IsOrdered zero (suc zero) x y h ex ey =
    let first : item (b'k' ∷ []) ≡ x = cc in
    let second : item (b'k' ∷ b'e' ∷ []) ≡ y = cc in
    subst (λ (i : Item). bytes_ltb i.key y.key ≡ true) first
      (subst (λ (i : Item). bytes_ltb (b'k' ∷ []) i.key ≡ true) second refl)
two_items-IsOrdered zero (suc (suc b)) x y h ex ey = cc
two_items-IsOrdered (suc a) zero x y h ex ey = absurd (omega arith)
two_items-IsOrdered (suc a) (suc zero) x y h ex ey = absurd (omega arith)
two_items-IsOrdered (suc a) (suc (suc b)) x y h ex ey = cc

abbrev over_items : ItemsIterator
over_items = new_items_iterator false two_items

abbrev over_prefix : DbIterator
over_prefix = new_iterator (record { prefix = b'k' ∷ b'e' ∷ []; reverse = false }) over_items

seek-Splits_example :
    Splits
      (λ i. at_or_beyond false (b'k' ∷ b'a' ∷ []) (item_at i two_items))
      2
      (Iterator.seek (b'k' ∷ b'a' ∷ []) over_items).curr_index
seek-Splits_example = seek-Splits (b'k' ∷ b'a' ∷ []) over_items two_items-IsOrdered

skip_to_next-Skipped_example :
    (it' : ItemsIterator) × (skip_to_next (b'k' ∷ b'e' ∷ []) over_items ≡ some (ok it'))
    × Skipped (b'k' ∷ b'e' ∷ []) over_items it'
skip_to_next-Skipped_example = skip_to_next-Skipped (b'k' ∷ b'e' ∷ []) over_items

seek-Found_example :
    (it' : DbIterator) × (seek (b'k' ∷ []) over_prefix ≡ some (ok it'))
    × Found (b'k' ∷ []) over_prefix it'
seek-Found_example = seek-Found (b'k' ∷ []) over_prefix two_items-IsOrdered
