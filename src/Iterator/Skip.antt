-- ===== src/Iterator/Skip.antt =====
-- skipToNext ends at the first item with the prefix, and what that makes of Seek.
use bitcask_go.Common.{
  ℕ, zero, suc, ◌+◌, ◌≤◌, ◌<◌, ◌≡◌, ◌⊎◌, refl, ap, sym, subst, ◌∙◌, Bool-cases, inl, inr, true,
  false, none, some, List, [], ◌∷◌, Bytes, length, ltb, ltb→lt, ◌==◌, eq_cases, arith,
}
use bitcask_go.Common.Eq.{bytes_beq}
use bitcask_go.Common.Fuelled.{Fuelled}
use bitcask_go.Common.Result.{ok}
use bitcask_go.Index.{Item}
use bitcask_go.Index.Iterator
use bitcask_go.Index.Iterator.{ItemsIterator, item_at, item_or_panic, at_or_beyond}
use bitcask_go.Index.Iterator.Seek.{IsOrdered, seek-Splits, item_at-length}
use bitcask_go.Iterator.{DbIterator, has_prefix, skip, skip_to_next, with_index, seek}

-- From it on, it' is the first item with the prefix, or the end.
pub record Skipped (prefix : Bytes) (it it' : ItemsIterator) : Type 0 where
  pub same_values : it'.values ≡ it.values
  pub same_reverse : it'.reverse ≡ it.reverse
  pub onward : it.curr_index ≤ it'.curr_index
  pub inside : it.curr_index ≤ length it.values → it'.curr_index ≤ length it.values
  pub passed :
      (k : ℕ) (x : Item)
      → it.curr_index ≤ k
      → k < it'.curr_index
      → item_at k it.values ≡ some x
      → has_prefix prefix x.key ≡ false
  pub stops :
      (x : Item) → item_at it'.curr_index it.values ≡ some x → has_prefix prefix x.key ≡ true

-- the iterator stays where it is
stays :
    (prefix : Bytes) (it : ItemsIterator)
    → ((x : Item) → item_at it.curr_index it.values ≡ some x → has_prefix prefix x.key ≡ true)
    → Skipped prefix it it
stays prefix it h = record {
  same_values = refl;
  same_reverse = refl;
  onward = omega arith;
  inside = λ b. b;
  passed = λ k x a b e. absurd (omega (arith, a, b));
  stops = h;
}

item_at-end : (i : ℕ) (values : List Item) → length values ≤ i → item_at i values ≡ none
unfolding item_at
item_at-end i [] h = refl
item_at-end zero (x ∷ rest) h = absurd (omega arith)
item_at-end (suc i) (x ∷ rest) h = item_at-end i rest (omega arith)

Skipped-next :
    (prefix : Bytes) (it it' : ItemsIterator) (x : Item)
    → it.curr_index < length it.values
    → item_at it.curr_index it.values ≡ some x
    → has_prefix prefix x.key ≡ false
    → Skipped prefix (record it { curr_index = it.curr_index + 1 }) it'
    → Skipped prefix it it'
Skipped-next prefix it it' x b e h s = record {
  same_values = s.same_values;
  same_reverse = s.same_reverse;
  onward = omega (arith, s.onward);
  inside = λ _. s.inside (omega (arith, b));
  passed = λ k y a c ey. elim (eq_cases it.curr_index k) [
    | inl same ↦
        let one : some x ≡ some y = sym e ∙ ap (λ (n : ℕ). item_at n it.values) same ∙ ey in
        let the_same : x ≡ y = cc in
        subst (λ (z : Item). has_prefix prefix z.key ≡ false) the_same h
    | inr apart ↦ s.passed k y (omega (arith, apart, a)) c ey
  ];
  stops = s.stops;
}

skip-Skipped :
    (fuel : ℕ) (prefix : Bytes) (it : ItemsIterator)
    → length it.values < it.curr_index + fuel
    → 1 ≤ fuel
    → (it' : ItemsIterator) × (skip fuel prefix it ≡ some (ok it')) × Skipped prefix it it'
unfolding skip Iterator.valid Iterator.key Iterator.next
skip-Skipped zero prefix it enough some_fuel = absurd (omega arith)
skip-Skipped (suc fuel) prefix it enough some_fuel =
    elim (Bool-cases (ltb it.curr_index (length it.values))) [
      | inr t ↦
          let over : item_at it.curr_index it.values ≡ none =
            item_at-end it.curr_index it.values (ground (arith, t)) in
          (
            it,
            rw t refl,
            stays prefix it (λ x e. let none_some : none ≡ some x = sym over ∙ e in cc),
          )
      | inl t ↦
          let inside : it.curr_index < length it.values = ground (arith, t) in
          let (x, e) = item_at-length it.curr_index it.values inside in
          elim (Bool-cases (has_prefix prefix x.key)) [
            | inl u ↦ (
              it,
              rw (t, e, u) refl,
              stays prefix it (λ y ey.
                  let one : some x ≡ some y = sym e ∙ ey in
                  let the_same : x ≡ y = cc in
                  subst (λ (z : Item). has_prefix prefix z.key ≡ true) the_same u),
            )
            | inr u ↦
                let (it', runs, s) =
                  skip-Skipped fuel prefix (record it { curr_index = it.curr_index + 1 })
                    (omega (arith, enough)) (omega (arith, enough, inside)) in
                (it', rw (t, e, u) runs, Skipped-next prefix it it' x inside e u s)
          ]
    ]

-- skipToNext ends without an error or a panic, from any position of any iterator: at the first
-- item with the prefix from there on, or at the end.
pub skip_to_next-Skipped :
    (prefix : Bytes) (it : ItemsIterator)
    → (it' : ItemsIterator) × (skip_to_next prefix it ≡ some (ok it')) × Skipped prefix it it'
unfolding skip_to_next has_prefix bytes_beq
skip_to_next-Skipped [] it = (it, refl, stays [] it (λ x e. ground arith))
skip_to_next-Skipped (b ∷ prefix) it =
    let some_prefix : (length (b ∷ prefix) == 0) ≡ false = ground arith in
    let (it', runs, s) =
      skip-Skipped (suc (length it.values)) (b ∷ prefix) it (omega arith) (omega arith) in
    (it', rw some_prefix runs, s)

-- Where Seek of the database's iterator stands: at an item at or beyond the key, with the prefix; none
-- before it is both.
pub record Found (key : Bytes) (it it' : DbIterator) : Type 0 where
  pub same_values : it'.index_iter.values ≡ it.index_iter.values
  pub same_options : it'.options ≡ it.options
  pub inside : it'.index_iter.curr_index ≤ length it.index_iter.values
  pub passed :
      (k : ℕ) (x : Item)
      → k < it'.index_iter.curr_index
      → item_at k it.index_iter.values ≡ some x
      → (at_or_beyond it.index_iter.reverse key (some x) ≡ false)
        ⊎ (has_prefix it.options.prefix x.key ≡ false)
  pub stops :
      (x : Item)
      → item_at it'.index_iter.curr_index it.index_iter.values ≡ some x
      → (at_or_beyond it.index_iter.reverse key (some x) ≡ true)
        × (has_prefix it.options.prefix x.key ≡ true)

item_at-inside :
    (i : ℕ) (values : List Item) (x : Item) → item_at i values ≡ some x → i < length values
unfolding item_at
item_at-inside i [] x e = cc
item_at-inside zero (y ∷ rest) x e = omega arith
item_at-inside (suc i) (y ∷ rest) x e = omega (arith, item_at-inside i rest x e)

Skipped-Found :
    (key : Bytes) (it : DbIterator) (i : ItemsIterator)
    → IsOrdered it.index_iter.reverse it.index_iter.values
    → Skipped it.options.prefix (Iterator.seek key it.index_iter) i
    → Found key it (record it { index_iter = i })
unfolding Iterator.seek
Skipped-Found key it i ordered s =
    let at = seek-Splits key it.index_iter ordered in
    record {
      same_values = s.same_values;
      same_options = refl;
      inside = s.inside at.inside;
      passed = λ k x b e. elim (Bool-cases (ltb k (Iterator.seek key it.index_iter).curr_index)) [
        | inl t ↦ inl (
            subst (λ o. at_or_beyond it.index_iter.reverse key o ≡ false) e
              (at.before k (ltb→lt k _ t)))
        | inr t ↦ inr (s.passed k x (ground (arith, t)) b e)
      ];
      stops = λ x e. (
        subst (λ o. at_or_beyond it.index_iter.reverse key o ≡ true) e
            (at.behind i.curr_index s.onward
              (item_at-inside i.curr_index it.index_iter.values x e)),
        s.stops x e,
      );
    }

-- On an iterator of the database whose items are in its order, Seek ends without an error or a
-- panic, at an item that is at or beyond the key in the direction of the iterator and has the
-- prefix of the options, or at the end; every item before it is not at or beyond the key or
-- lacks the prefix.
pub seek-Found :
    (key : Bytes) (it : DbIterator)
    → IsOrdered it.index_iter.reverse it.index_iter.values
    → (it' : DbIterator) × (seek key it ≡ some (ok it')) × Found key it it'
unfolding seek
seek-Found key it ordered =
    let (i, runs, s) = skip_to_next-Skipped it.options.prefix (Iterator.seek key it.index_iter) in
    (
      record it { index_iter = i },
      ap (λ (r : Fuelled ItemsIterator). with_index it r) runs,
      Skipped-Found key it i ordered s,
    )
