-- ===== src/OrderBookImproved/Shown.antt =====
-- `OrderBookImproved::toString` (OrderBookStore/src/OrderBookImproved.cpp): the levels that it prints
-- for a side, at most ten; the text around the numbers is left out.
pub mod Keys
pub mod Printed
use order_book_sketch.Common.{
  ℕ, zero, suc, Bool, true, false, ◌||◌, ℤ, pos, ◌+ℤ◌, ltb_ℤ, ◌==ℤ◌, List, [], ◌∷◌, length, Option,
  none, some, ◌==◌, ◌+◌, ◌≤◌, if◌then◌else◌, ◌≡◌, ◌≢◌, ◌⊎◌, refl, arith, Bool-cases, Option-cases,
  inl, inr, ◌∙◌, sym, ap, All, ==ℤ→eq, ==ℤ_refl, ne→==,
}
use order_book_sketch.Messages.{SimpleOrder, is_buy}
use order_book_sketch.OrderBookType2.{Level}
use order_book_sketch.OrderBookType2.Ledger.{rests_at, qty_at, count_at, level_at}
use order_book_sketch.OrderBookType2.Refine.{rests_at-own}
use order_book_sketch.OrderBookImproved.{Node, Half, before}
use order_book_sketch.OrderBookImproved.Nodes.{orders_of, IsKeyed}
use order_book_sketch.OrderBookImproved.Sides.{IsValid, Holds}
use order_book_sketch.OrderBookImproved.Priority.{NoneBefore, IsPrior}

-- `upper_bound`: the nodes from the first one whose key comes after
unfoldable pub upper_bound : Bool → ℤ → List Node → List Node
upper_bound buy k [] = []
upper_bound buy k (n ∷ ns) = if before buy k n.key then n ∷ ns else upper_bound buy k ns

-- the sum and the count over `equal_range`
unfoldable pub agg_quantity : ℤ → List Node → ℤ
agg_quantity k [] = pos 0
agg_quantity k (n ∷ ns) = (if n.key ==ℤ k then n.order.qty else pos 0) +ℤ agg_quantity k ns

unfoldable pub count_orders : ℤ → List Node → ℕ
count_orders k [] = 0
count_orders k (n ∷ ns) = (if n.key ==ℤ k then 1 else 0) + count_orders k ns

-- The loop from the node `it` on, where `left` more levels may be printed.
unfoldable pub rows : Bool → ℕ → List Node → List Node → List Level
unfolding upper_bound agg_quantity count_orders
rows buy zero all it = []
rows buy (suc left) all [] = []
rows buy (suc left) all (n ∷ _) =
    record {
      price = n.key;
      qty = agg_quantity n.key all;
      order_count = pos (count_orders n.key all);
    }
    ∷ rows buy left all (upper_bound buy n.key all)

unfoldable pub shown : Bool → Half → List Level
unfolding rows
shown buy h = rows buy 10 h.nodes h.nodes

-- Every order is on the side.
abbrev pub AreOn : Bool → List SimpleOrder → Type 0
AreOn buy os = All (λ (o : SimpleOrder). is_buy o ≡ buy) os

agg_quantity-qty_at :
    (buy : Bool) (k : ℤ) (ns : List Node)
    → IsKeyed ns
    → AreOn buy (orders_of ns)
    → (agg_quantity k ns ≡ qty_at buy k (orders_of ns))
      × (count_orders k ns ≡ count_at buy k (orders_of ns))
unfolding agg_quantity count_orders qty_at count_at
agg_quantity-qty_at buy k [] h a = (refl, refl)
agg_quantity-qty_at buy k (n ∷ ns) h a =
    let r = agg_quantity-qty_at buy k ns h.1 a.1 in
    rw (h.0, rests_at-own buy k n.order a.0, r.0, r.1) (refl, refl)
