-- ===== src/OrderBookImproved/Shown/Printed.antt =====
-- What `toString` prints of a side: true levels, best first, and none left out but for the limit.
use order_book_sketch.Common.{
  ℕ, zero, suc, Bool, true, false, ℤ, ◌==ℤ◌, List, [], ◌∷◌, length, some, ◌==◌, ◌≡◌, ◌≢◌, ◌⊎◌, refl,
  arith, Bool-cases, inl, inr, ap, All, ne→==,
}
use order_book_sketch.Messages.{SimpleOrder}
use order_book_sketch.OrderBookType2.{Level}
use order_book_sketch.OrderBookType2.Ledger.{count_at, level_at}
use order_book_sketch.OrderBookImproved.{Node, Half, before}
use order_book_sketch.OrderBookImproved.Nodes.{orders_of, IsKeyed}
use order_book_sketch.OrderBookImproved.Sides.{Holds}
use order_book_sketch.OrderBookImproved.Priority.{IsPrior}
use order_book_sketch.OrderBookImproved.Shown.{
  upper_bound, count_orders, rows, shown, AreOn, agg_quantity-qty_at,
}
use order_book_sketch.OrderBookImproved.Shown.Keys.{
  has_key, has_price, IsSorted, nodes-IsSorted, upper_bound-IsSorted, upper_bound-has_key,
  best_before, key_after, has_key-count_at, own_keys, upper_bound-HasKeys, count_orders-has_key,
}

-- one level after the other, each with a worse price
abbrev pub AreWorse : Bool → ℤ → List Level → Type 0
AreWorse buy k [] = Unit
AreWorse buy k (l ∷ ls) = (before buy k l.price ≡ true) × AreWorse buy l.price ls

abbrev pub AreOrdered : Bool → List Level → Type 0
AreOrdered buy [] = Unit
AreOrdered buy (l ∷ ls) = AreWorse buy l.price ls

module _ (buy : Bool) (all : List Node) where
  rows-AreWorse :
      (left : ℕ) (k : ℤ) (ns : List Node)
      → AreWorse buy k (rows buy left all (upper_bound buy k ns))
  unfolding rows upper_bound
  rows-AreWorse zero k ns = tt
  rows-AreWorse (suc left) k [] = tt
  rows-AreWorse (suc left) k (n ∷ ns) = elim (Bool-cases (before buy k n.key)) [
    | inl y ↦ rw y (y, rows-AreWorse left n.key all)
    | inr x ↦ rw x (rows-AreWorse (suc left) k ns)
  ]

module _ (buy : Bool) (all : List Node) (sorted : IsSorted buy all) (p : ℤ)
    (on : has_key p all ≡ true) where
  -- A price with a node is printed, or every level that may be printed is and has a better price.
  rows_complete :
      (left : ℕ) (it : List Node)
      → IsSorted buy it
      → has_key p it ≡ true
      → (has_price p (rows buy left all it) ≡ true)
        ⊎ ((length (rows buy left all it) ≡ left)
            × All (λ (l : Level). before buy l.price p ≡ true) (rows buy left all it))
  unfolding rows has_price has_key
  rows_complete zero it s h = inr (refl, tt)
  rows_complete (suc left) [] s h = cc
  rows_complete (suc left) (n ∷ it) s h = elim (Bool-cases (n.key ==ℤ p)) [
    | inl e ↦ inl (rw e)
    | inr x ↦
        let after =
          best_before buy n.key p (key_after buy n.key p it s.0 (ground (arith, h, x))) x in
        elim (rows_complete left (upper_bound buy n.key all)
          (upper_bound-IsSorted buy n.key all sorted)
          (upper_bound-has_key buy n.key p all after on)) [
            | inl found ↦ inl (rw (x, found))
            | inr (full, better) ↦ inr (ap suc full, (after, better))
          ]
  ]

module _ (buy : Bool) (all : List Node) (keyed : IsKeyed all)
    (side : AreOn buy (orders_of all)) where
  level_at-rows :
      (left : ℕ) (it : List Node)
      → All (λ (m : Node). has_key m.key all ≡ true) it
      → All (λ (l : Level). level_at buy l.price (orders_of all) ≡ some l) (rows buy left all it)
  unfolding rows level_at
  level_at-rows zero it h = tt
  level_at-rows (suc left) [] h = tt
  level_at-rows (suc left) (n ∷ it) h =
      let r = agg_quantity-qty_at buy n.key all keyed side in
      let some_order : (count_orders n.key all == 0) ≡ false =
        ne→== _ 0 (count_orders-has_key n.key all h.0) in
      (
        rw (← r.0, ← r.1, some_order) refl,
        level_at-rows left (upper_bound buy n.key all)
            (upper_bound-HasKeys buy n.key all all (own_keys all)),
      )

rows-AreOrdered :
    (buy : Bool) (left : ℕ) (all it : List Node) → AreOrdered buy (rows buy left all it)
unfolding rows
rows-AreOrdered buy zero all it = tt
rows-AreOrdered buy (suc left) all [] = tt
rows-AreOrdered buy (suc left) all (n ∷ it) = rows-AreWorse buy all left n.key all

-- In a half of the book that holds a list of orders of its side, each level that `toString` prints is the
-- number and the quantity sum of the orders at its price, with at least one, and the prices get worse
-- from one to the next.
pub shown_levels :
    (buy : Bool) (h : Half) (os : List SimpleOrder)
    → Holds h os
    → AreOn buy os
    → All (λ (l : Level). level_at buy l.price os ≡ some l) (shown buy h)
      × AreOrdered buy (shown buy h)
unfolding shown
shown_levels buy h os H a = (
  rw (← H.orders)
      (level_at-rows buy h.nodes H.valid.keyed (rw H.orders a) 10 h.nodes (own_keys h.nodes)),
  rows-AreOrdered buy 10 h.nodes h.nodes,
)

-- In a half of the book that holds a list of orders of its side in price order, a price at which an order
-- rests is printed, or ten levels are and each has a better price.
pub shown_complete :
    (buy : Bool) (h : Half) (os : List SimpleOrder) (p : ℤ)
    → Holds h os
    → AreOn buy os
    → IsPrior buy os
    → count_at buy p os ≢ 0
    → (has_price p (shown buy h) ≡ true)
      ⊎ ((length (shown buy h) ≡ 10)
          × All (λ (l : Level). before buy l.price p ≡ true) (shown buy h))
unfolding shown
shown_complete buy h os p H a s c =
    let sorted = nodes-IsSorted buy h.nodes H.valid.keyed (rw H.orders s) in
    let on = has_key-count_at buy p h.nodes H.valid.keyed (rw H.orders a) (rw H.orders c) in
    rows_complete buy h.nodes sorted p on 10 h.nodes sorted on
