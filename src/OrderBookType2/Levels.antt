-- ===== src/OrderBookType2/Levels.antt =====
-- One side of the book: the lookups after a level has grown or shrunk.
use mathlib.Core.Option
use order_book_sketch.Common.{
  ℕ, ℤ, pos, ◌-ℤ◌, leb_ℤ, ◌==ℤ◌, Option, none, some, if◌then◌else◌, ◌≡◌, arith, Bool-cases, inl,
  inr, ◌∙◌,
}
use order_book_sketch.FlatMap
use order_book_sketch.FlatMap.Laws.{
  lookup, IsDescending, find-value_at, insert-find, lookup-insert, lookup-update_at, find-update_at,
  lookup-erase_at, insert-IsDescending, update_at-IsDescending, erase_at-IsDescending,
}
use order_book_sketch.OrderBookType2.{
  Level, empty_level, Side, grown, shrunk, drop_empty, reduce_level, grow_level,
}

-- The level under a priority, or `Level()`.
abbrev pub level_or_empty : ℤ → Side → Level
level_or_empty k s = Option.get_or (lookup k s) empty_level

-- What `reduce_level` leaves of a level.
abbrev pub reduced : ℤ → ℤ → Level → Option Level
reduced qty count l = if leb_ℤ (l.qty -ℤ qty) (pos 0) then none else some (shrunk qty count l)

module _ (k q : ℤ) (s : Side) (sorted : IsDescending s) where
  pub lookup-grow_level :
      (price qty : ℤ)
      → lookup q (grow_level (FlatMap.insert_pos k s) price qty (FlatMap.insert k empty_level s))
        ≡ (if k ==ℤ q then some (grown price qty (level_or_empty k s)) else lookup q s)
  unfolding grow_level
  lookup-grow_level price qty =
      let s' = FlatMap.insert k empty_level s in
      ground (
        arith,
        lookup-update_at k q (grown price qty) s' (FlatMap.insert_pos k s)
            (insert-IsDescending k empty_level s sorted) (insert-find k empty_level s sorted),
        lookup-insert k k empty_level s sorted,
        lookup-insert k q empty_level s sorted,
      )

  drop_empty-lookup :
      (it : ℕ) (l : Level)
      → FlatMap.find k s ≡ some it
      → FlatMap.value_at it s ≡ some l
      → lookup q (drop_empty it s)
        ≡ (if leb_ℤ l.qty (pos 0) then (if k ==ℤ q then none else lookup q s) else lookup q s)
  unfolding drop_empty
  drop_empty-lookup it l found here =
      rw (here, drop_empty)
        (elim (Bool-cases (leb_ℤ l.qty (pos 0))) [
          | inl gone ↦ rw gone (lookup-erase_at k q s it sorted found)
          | inr left ↦ rw left
        ])

pub lookup-reduce_level :
    (k q : ℤ) (s : Side) (sorted : IsDescending s) (it : ℕ) (qty count : ℤ) (l : Level)
    → FlatMap.find k s ≡ some it
    → lookup k s ≡ some l
    → lookup q (reduce_level it qty count s) ≡ (if k ==ℤ q then reduced qty count l else lookup q s)
unfolding reduce_level
lookup-reduce_level k q s sorted it qty count l found e =
    let f = shrunk qty count in
    let s' = FlatMap.update_at it f s in
    let found' : FlatMap.find k s' ≡ some it = find-update_at k f s it ∙ found in
    let here : FlatMap.value_at it s' ≡ some (f l) =
      find-value_at k s' it found'
      ∙ (lookup-update_at k k f s it sorted found ∙ ground (arith, e)) in
    drop_empty-lookup k q s' (update_at-IsDescending f s it sorted) it (f l) found' here
    ∙ ground (arith, lookup-update_at k q f s it sorted found, e)

pub grow_level-IsDescending :
    (k : ℤ) (s : Side) (it : ℕ) (price qty : ℤ)
    → IsDescending s
    → IsDescending (grow_level it price qty (FlatMap.insert k empty_level s))
unfolding grow_level
grow_level-IsDescending k s it price qty sorted =
    update_at-IsDescending _ _ it (insert-IsDescending k empty_level s sorted)

drop_empty-IsDescending : (it : ℕ) (s : Side) → IsDescending s → IsDescending (drop_empty it s)
unfolding drop_empty
drop_empty-IsDescending it s h =
    elim (FlatMap.value_at it s)
      as (λ v. IsDescending (elim v as (λ _. Side) [
        | some l ↦ if leb_ℤ l.qty (pos 0) then FlatMap.erase_at it s else s
        | none ↦ s
      ])) [
        | none ↦ h
        | some l ↦ elim (Bool-cases (leb_ℤ l.qty (pos 0))) [
          | inl gone ↦ rw gone (erase_at-IsDescending s it h)
          | inr left ↦ rw left h
        ]
      ]

pub reduce_level-IsDescending :
    (it : ℕ) (qty count : ℤ) (s : Side)
    → IsDescending s
    → IsDescending (reduce_level it qty count s)
unfolding reduce_level
reduce_level-IsDescending it qty count s sorted =
    drop_empty-IsDescending it _ (update_at-IsDescending (shrunk qty count) s it sorted)
