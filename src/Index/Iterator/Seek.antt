-- ===== src/Index/Iterator/Seek.antt =====
-- Seek finds the first item at or beyond a key.
use bitcask_go.Common.{
  ℕ, zero, suc, ◌+◌, ◌/◌, ◌≤◌, ◌<◌, ◌≡◌, refl, sym, ◌∙◌, Bool, Bool-cases, inl, inr, true, false,
  some, List, [], ◌∷◌, Bytes, length, ltb, subst, eq_cases, arith, if◌then◌else◌,
}
use bitcask_go.Index.{Item}
use bitcask_go.Index.Iterator.{
  bytes_ltb, item_at, search_between, sort_search, ItemsIterator, at_or_beyond, seek,
}

bytes_ltb_trans :
    (a b c : Bytes) → bytes_ltb a b ≡ true → bytes_ltb b c ≡ true → bytes_ltb a c ≡ true
unfolding bytes_ltb
bytes_ltb_trans [] [] c h k = cc
bytes_ltb_trans [] (y ∷ ys) [] h k = cc
bytes_ltb_trans [] (y ∷ ys) (z ∷ zs) h k = refl
bytes_ltb_trans (x ∷ xs) [] c h k = cc
bytes_ltb_trans (x ∷ xs) (y ∷ ys) [] h k = cc
bytes_ltb_trans (x ∷ xs) (y ∷ ys) (z ∷ zs) h k = ground (arith, bytes_ltb_trans xs ys zs)

pub item_at-length :
    (i : ℕ) (values : List Item) → i < length values → (x : Item) × (item_at i values ≡ some x)
unfolding item_at
item_at-length i [] h = absurd (omega arith)
item_at-length zero (x ∷ rest) h = (x, refl)
item_at-length (suc i) (x ∷ rest) h = item_at-length i rest (omega arith)

-- What holds from some index on is found at the first such index.
pub record Splits (f : ℕ → Bool) (n r : ℕ) : Type 0 where
  pub inside : r ≤ n
  pub before : (k : ℕ) → k < r → f k ≡ false
  pub behind : (k : ℕ) → r ≤ k → k < n → f k ≡ true

Splits-search_between :
    (fuel : ℕ) (f : ℕ → Bool) (n i j : ℕ)
    → ((a b : ℕ) → a ≤ b → b < n → f a ≡ true → f b ≡ true)
    → j ≤ i + fuel
    → i ≤ j
    → j ≤ n
    → ((k : ℕ) → k < i → f k ≡ false)
    → ((k : ℕ) → j ≤ k → k < n → f k ≡ true)
    → Splits f n (search_between fuel f i j)
unfolding search_between
Splits-search_between zero f n i j mono enough order inside low high = record {
  inside = omega arith;
  before = low;
  behind = λ k a b. high k (omega arith) b;
}
Splits-search_between (suc fuel) f n i j mono enough order inside low high =
    elim (Bool-cases (ltb i j)) [
      | inr t ↦ rw t (
          let equal : j ≤ i = ground (arith, t) in
          record { inside = omega arith; before = low; behind = λ k a b. high k (omega arith) b })
      | inl t ↦
          let less : i < j = ground (arith, t) in
          let h = (i + j) / 2 in
          elim (Bool-cases (f h)) [
            | inl u ↦
                rw (t, u)
                  (Splits-search_between fuel f n i h mono (omega arith) (omega arith) (omega arith)
                    low (λ k a b. mono h k a b u))
            | inr u ↦
                rw (t, u)
                  (Splits-search_between fuel f n (h + 1) j mono (omega arith) (omega arith) inside
                    (λ k a. below h u (omega arith) k (omega arith)) high)
          ]
    ]
  where
    below : (h : ℕ) → f h ≡ false → h < n → (k : ℕ) → k ≤ h → f k ≡ false
    below h u b k a = elim (Bool-cases (f k)) [
      | inl v ↦ let both : true ≡ false = sym (mono k h a b v) ∙ u in cc
      | inr v ↦ v
    ]

-- The order of the iterator.
abbrev pub comes_before : Bool → Bytes → Bytes → Bool
comes_before reverse a b = if reverse then bytes_ltb b a else bytes_ltb a b

abbrev pub IsOrdered : Bool → List Item → Type 0
IsOrdered reverse values =
    (a b : ℕ) (x y : Item)
    → a < b
    → item_at a values ≡ some x
    → item_at b values ≡ some y
    → comes_before reverse x.key y.key ≡ true

beyond_trans :
    (reverse : Bool) (key : Bytes) (x y : Item)
    → comes_before reverse x.key y.key ≡ true
    → at_or_beyond reverse key (some x) ≡ true
    → at_or_beyond reverse key (some y) ≡ true
beyond_trans true key x y h k = elim (Bool-cases (bytes_ltb key y.key)) [
  | inl t ↦ ground (arith, bytes_ltb_trans key y.key x.key t h, k)
  | inr t ↦ rw t refl
]
beyond_trans false key x y h k = elim (Bool-cases (bytes_ltb y.key key)) [
  | inl t ↦ ground (arith, bytes_ltb_trans x.key y.key key h t, k)
  | inr t ↦ rw t refl
]

beyond_later :
    (reverse : Bool) (key : Bytes) (values : List Item)
    → IsOrdered reverse values
    → (a b : ℕ) → a ≤ b
    → b < length values
    → at_or_beyond reverse key (item_at a values) ≡ true
    → at_or_beyond reverse key (item_at b values) ≡ true
beyond_later reverse key values ordered a b le inside h = elim (eq_cases a b) [
  | inl same ↦ subst (λ n. at_or_beyond reverse key (item_at n values) ≡ true) same h
  | inr apart ↦
      let (x, ex) = item_at-length a values (omega arith) in
      let (y, ey) = item_at-length b values inside in
      rw ey (
        beyond_trans reverse key x y (ordered a b x y (omega (arith, apart)) ex ey)
          (subst (λ o. at_or_beyond reverse key o ≡ true) ex h))
]

-- On an iterator over items in its order, Seek goes to an index at most the number of items,
-- such that no item before it is at or beyond the key in the direction of the iterator and
-- every item from it on is.
pub seek-Splits :
    (key : Bytes) (it : ItemsIterator)
    → IsOrdered it.reverse it.values
    → Splits
        (λ i. at_or_beyond it.reverse key (item_at i it.values))
        (length it.values)
        (seek key it).curr_index
unfolding seek sort_search
seek-Splits key it ordered =
    Splits-search_between (length it.values)
      (λ i. at_or_beyond it.reverse key (item_at i it.values)) (length it.values) 0
      (length it.values) (beyond_later it.reverse key it.values ordered) (omega arith) (omega arith)
      (omega arith) (λ k a. absurd (omega arith)) (λ k a b. absurd (omega arith))
