-- ===== src/Depth.antt =====
-- OrderBookStore/include/Depth.hpp: the visible price levels of both sides, SIZE for each, and the
-- excess levels beyond them. The array of 2 * SIZE levels is kept as its two halves, which no
-- operation crosses. An excess map is a FlatMap under the price for bids (std::greater) and the
-- negated price for asks (std::less), so that both stand in the order of their iteration. A pointer
-- to a level is its place.
pub mod Level
pub mod Find
pub mod Visits
pub mod Sorted
pub mod Lookup
pub mod Shifted
pub mod Held
pub mod Spilled
pub mod Adding
pub mod Missing
use order_book_sketch.Common.{
  ℕ, zero, suc, Bool, true, false, ℤ, pos, neg_ℤ, ◌+ℤ◌, ◌-ℤ◌, ltb_ℤ, ◌==ℤ◌, List, [], ◌∷◌, Option,
  none, some, ◌==◌, ◌-◌, ◌||◌, not, if◌then◌else◌, last?, length, modify_at, get_elem?, replicate,
  ◌&&◌,
}
use order_book_sketch.FlatMap
use order_book_sketch.Depth.Level.{
  DepthLevel, new_level, assign, init, add_qty_order, increase_qty, decrease_qty, close_level_order,
  stamp, invalid_level_price,
}

-- One side: `_levels` from the first to the last level of the side, and its excess map.
pub record DepthSide : Type 0 where
  pub levels : List DepthLevel
  pub excess : List (ℤ × DepthLevel)

pub record Depth : Type 0 where
  pub bids : DepthSide
  pub asks : DepthSide
  pub last_changed : ℤ
  pub last_published : ℤ

-- `DepthLevel *`: a position of the side's levels, or of its excess map
pub data Place : Type 0 where
  visible : ℕ → Place
  in_excess : ℕ → Place

-- where the linear search of `findLevel` stops
pub data Search : Type 0 where
  found : ℕ → Search
  vacant : ℕ → Search
  before : ℕ → Search
  at_end : Search

abbrev pub rank : Bool → ℤ → ℤ
rank true p = p
rank false p = neg_ℤ p

-- `is_bid ? level->_price < price : level->_price > price`
abbrev pub worse : Bool → ℤ → ℤ → Bool
worse true l p = ltb_ℤ l p
worse false l p = ltb_ℤ p l

abbrev pub further : Search → Search
further (found i) = found (suc i)
further (vacant i) = vacant (suc i)
further (before i) = before (suc i)
further at_end = at_end

-- The loop of `findLevel`, which ends before the last level of the side.
unfoldable pub search : Bool → Bool → ℤ → List DepthLevel → Search
search b create p [] = at_end
search b create p (x ∷ []) = at_end
search b create p (x ∷ y ∷ r) =
    if x.price ==ℤ p
    then found 0
    else if create && (x.price ==ℤ invalid_level_price)
    then vacant 0
    else if create && worse b x.price p
    then before 0
    else further (search b create p (y ∷ r))

-- `*(currLevel + 1) = *currLevel` and its stamp
abbrev pub moved : ℤ → DepthLevel → DepthLevel → DepthLevel
moved c l from =
    if from.price ==ℤ invalid_level_price then assign l from else stamp c (assign l from)

-- The loop of `insert_level_before` on the levels after `from`, each overwritten by the one above.
unfoldable pub shift_down : ℤ → DepthLevel → List DepthLevel → List DepthLevel
shift_down c from [] = []
shift_down c from (x ∷ xs) = moved c x from ∷ shift_down c x xs

-- The loop and the `init` of the level that it makes free.
unfoldable pub make_room : ℤ → ℤ → ℕ → List DepthLevel → List DepthLevel
make_room c p i [] = []
make_room c p zero (x ∷ xs) = init p false x ∷ shift_down c x xs
make_room c p (suc i) (x ∷ xs) = x ∷ make_room c p i xs

-- The last level of the side goes to the excess map.
unfoldable pub spill : Bool → DepthSide → DepthSide
spill b s = elim (last? s.levels) [
  | some l ↦ if l.price ==ℤ invalid_level_price then s else record s {
    excess = FlatMap.insert (rank b l.price) (assign (init (pos 0) true new_level) l) s.excess;
  }
  | none ↦ s
]

-- `insert_level_before`, where `c` is `_lastChanged` after its increment
unfoldable pub insert_level_before : Bool → ℕ → ℤ → ℤ → DepthSide → DepthSide
insert_level_before b i p c s = record (spill b s) { levels = make_room c p i s.levels }

-- `&it->second` of the excess level for the price, which is made if there is none; otherwise `end`
unfoldable pub find_excess : Bool → Bool → ℤ → DepthSide → DepthSide × Place
find_excess b create p s = elim (FlatMap.find (rank b p) s.excess) [
  | some j ↦ (s, in_excess j)
  | none ↦
      if create
      then (
        record s { excess = FlatMap.insert (rank b p) (init p true new_level) s.excess },
        in_excess (FlatMap.insert_pos (rank b p) s.excess),
      )
      else (s, visible (length s.levels - 1))
]

-- `findLevel`: the side, `_lastChanged` and the level
unfoldable pub find_level : Bool → Bool → ℤ → ℤ → DepthSide → DepthSide × ℤ × Place
find_level b create p c s = elim (search b create p s.levels) [
  | found i ↦ (s, c, visible i)
  | vacant i ↦ (record s { levels = modify_at i (init p false) s.levels }, c, visible i)
  | before i ↦ (insert_level_before b i p (c +ℤ pos 1) s, c +ℤ pos 1, visible i)
  | at_end ↦ let r = find_excess b create p s in (r.0, c, r.1)
]

-- `*level`, and a change of it
abbrev pub level_at : Place → DepthSide → Option DepthLevel
level_at (visible i) s = get_elem? s.levels i
level_at (in_excess j) s = FlatMap.value_at j s.excess

abbrev pub update_level : Place → (DepthLevel → DepthLevel) → DepthSide → DepthSide
update_level (visible i) f s = record s { levels = modify_at i f s.levels }
update_level (in_excess j) f s = record s { excess = FlatMap.update_at j f s.excess }

-- The loop of `erase_level`: each level is overwritten by the next, a vacant one only if it is the
-- level to erase.
unfoldable pub shift_up : ℤ → Bool → List DepthLevel → List DepthLevel
shift_up c here [] = []
shift_up c here (x ∷ []) = x ∷ []
shift_up c here (x ∷ y ∷ r) =
    (if not (x.price ==ℤ invalid_level_price) || here then stamp c (assign x y) else x)
    ∷ shift_up c false (y ∷ r)

unfoldable pub close_up : ℤ → ℕ → List DepthLevel → List DepthLevel
close_up c i [] = []
close_up c zero (x ∷ xs) = shift_up c true (x ∷ xs)
close_up c (suc i) (x ∷ xs) = x ∷ close_up c i xs

-- The last level takes the first excess level, or becomes vacant.
unfoldable pub refill : ℤ → DepthSide → DepthSide
refill c s = elim s.excess [
  | [] ↦ record s {
    levels =
        modify_at (length s.levels - 1) (λ l. stamp c (init invalid_level_price false l)) s.levels;
  }
  | e ∷ m ↦ record s {
    levels = modify_at (length s.levels - 1) (λ l. stamp c (assign l e.1)) s.levels;
    excess = m;
  }
]

-- `lastSideLevel->_price != INVALID_LEVEL_PRICE`
abbrev pub is_held : Option DepthLevel → Bool
is_held none = false
is_held (some l) = not (l.price ==ℤ invalid_level_price)

-- `erase_level` on a visible level, where `c` is `_lastChanged` after its increment
unfoldable pub erase_visible : ℤ → ℕ → DepthSide → DepthSide
erase_visible c i s =
    let s' = record s { levels = close_up c i s.levels } in
    if (i == (length s.levels - 1)) || is_held (last? s.levels) then refill c s' else s'

-- `erase(price)` of an excess map
abbrev pub erase_excess : Bool → ℤ → DepthSide → DepthSide
erase_excess b p s = elim (FlatMap.find (rank b p) s.excess) [
  | some j ↦ record s { excess = FlatMap.erase_at j s.excess }
  | none ↦ s
]

-- `erase_level`. An excess level is marked as one, so the last clause is not reached.
unfoldable pub erase_level : Bool → Place → DepthLevel → ℤ → DepthSide → DepthSide × ℤ
erase_level b (visible i) l c s =
    if l.is_excess
    then (erase_excess b l.price s, c)
    else (erase_visible (c +ℤ pos 1) i s, c +ℤ pos 1)
erase_level b (in_excess j) l c s = (if l.is_excess then erase_excess b l.price s else s, c)

-- `is_bid ? bids : asks`, read and written with `_lastChanged`
abbrev pub side_of : Bool → Depth → DepthSide
side_of true d = d.bids
side_of false d = d.asks

abbrev pub put : Bool → DepthSide → ℤ → Depth → Depth
put true s c d = record d { bids = s; last_changed = c }
put false s c d = record d { asks = s; last_changed = c }

-- `add_order`, on the level that was found
unfoldable pub add_at : ℤ → DepthSide × ℤ × Place → DepthSide × ℤ
add_at q (s, c, at) = elim (level_at at s) [
  | some l ↦
      if l.is_excess
      then (update_level at (add_qty_order q) s, c)
      else (update_level at (λ x. stamp (c +ℤ pos 1) (add_qty_order q x)) s, c +ℤ pos 1)
  | none ↦ (s, c)
]

unfoldable pub add_order : ℤ → ℤ → Bool → Depth → Depth
add_order p q b d =
    let r = add_at q (find_level b true p d.last_changed (side_of b d)) in put b r.0 r.1 d

-- `changeQtyOrder`: `increase_qty(delta)` or `decrease_qty(std::abs(delta))`
abbrev pub change_level : ℤ → DepthLevel → DepthLevel
change_level delta l =
    if ltb_ℤ (pos 0) delta then increase_qty delta l else decrease_qty (neg_ℤ delta) l

unfoldable pub change_at : ℤ → DepthSide × ℤ × Place → DepthSide × ℤ
change_at delta (s, c, at) =
    if delta ==ℤ pos 0
    then (s, c)
    else (update_level at (λ l. stamp (c +ℤ pos 1) (change_level delta l)) s, c +ℤ pos 1)

unfoldable pub change_qty_order : ℤ → ℤ → Bool → Depth → Depth
change_qty_order p delta b d =
    let r = change_at delta (find_level b false p d.last_changed (side_of b d)) in put b r.0 r.1 d

-- What `close_order` returns, or the exception of a level without orders.
pub data Closing : Type 0 where
  closed : Bool → Closing
  no_orders : Closing

unfoldable pub close_at : Bool → ℤ → DepthSide × ℤ × Place → DepthSide × ℤ × Closing
close_at b q (s, c, at) = elim (level_at at s) [
  | some l ↦ elim (close_level_order q l) [
    | some (l', true) ↦
        let r = erase_level b at l' c (update_level at (λ _. l') s) in (r.0, r.1, closed true)
    | some (l', false) ↦ (update_level at (λ _. stamp (c +ℤ pos 1) l') s, c +ℤ pos 1, closed false)
    | none ↦ (s, c, no_orders)
  ]
  | none ↦ (s, c, closed false)
]

unfoldable pub close_order : ℤ → ℤ → Bool → Depth → Depth × Closing
close_order p q b d =
    let r = close_at b q (find_level b false p d.last_changed (side_of b d)) in
    (put b r.0 r.1 d, r.2)

-- `replace_order`. An exception leaves the order added at the new price.
unfoldable pub replace_order : ℤ → ℤ → ℤ → ℤ → Bool → Depth → Depth × Closing
replace_order old_price new_price old_qty new_qty b d =
    if old_price ==ℤ new_price
    then (change_qty_order new_price (new_qty -ℤ old_qty) b d, closed false)
    else close_order old_price old_qty b (add_order new_price new_qty b d)

-- `changed`, `published`
abbrev pub changed : Depth → Bool
changed d = ltb_ℤ d.last_published d.last_changed

abbrev pub published : Depth → Depth
published d = record d { last_published = d.last_changed }

-- SIZE vacant levels on each side. No constructor sets the two change ids: they are what the memory
-- holds.
abbrev pub empty_side : ℕ → DepthSide
empty_side n = record { levels = replicate n new_level; excess = [] }

abbrev pub empty_depth : ℕ → ℤ → ℤ → Depth
empty_depth n c p = record {
  bids = empty_side n;
  asks = empty_side n;
  last_changed = c;
  last_published = p;
}
