-- ===== src/OrderBook.antt =====
-- OrderBookStore/include/OrderStateKeeper.hpp and OrderBook.hpp: the first version of the book, which
-- keeps the open orders of each side by id and the depth. A method gives the book after it, also
-- when it throws, and how it ended.
use order_book_sketch.Common.{
  ℕ, Bool, true, false, ℤ, pos, neg_ℤ, ◌+ℤ◌, ◌-ℤ◌, ltb_ℤ, ◌==ℤ◌, ◌&&◌, List, [], ◌∷◌, Option, none,
  some, if◌then◌else◌,
}
use order_book_sketch.Dictionary.Assoc
use order_book_sketch.Messages.{SimpleOrder, is_buy}
use order_book_sketch.Depth.{
  Depth, Closing, closed, no_orders, add_order, close_order, replace_order, change_qty_order,
}

pub record OrderStateKeeper : Type 0 where
  pub order : SimpleOrder
  pub open_qty : ℤ
  pub price : ℤ

abbrev pub new_keeper : SimpleOrder → OrderStateKeeper
new_keeper o = record { order = o; open_qty = o.qty; price = o.price }

abbrev pub set_price : ℤ → OrderStateKeeper → OrderStateKeeper
set_price p k = record k { price = p }

-- `none` is the exception on a deduction of more than is open.
abbrev pub change_qty : ℤ → OrderStateKeeper → Option OrderStateKeeper
change_qty delta k =
    if ltb_ℤ delta (pos 0) && ltb_ℤ k.open_qty (neg_ℤ delta)
    then none
    else some (record k { open_qty = k.open_qty +ℤ delta })

-- The exception on too large a fill is constructed and not thrown.
abbrev pub fill : ℤ → OrderStateKeeper → OrderStateKeeper
fill q k = record k { open_qty = k.open_qty -ℤ q }

abbrev pub filled : OrderStateKeeper → Bool
filled k = k.open_qty ==ℤ pos 0

abbrev pub filled_qty : OrderStateKeeper → ℤ
filled_qty k = k.order.qty -ℤ k.open_qty

pub record OrderBook : Type 0 where
  pub bids : List (ℕ × OrderStateKeeper)
  pub asks : List (ℕ × OrderStateKeeper)
  pub transaction_id : ℤ
  pub depth : Depth

-- `OrderBook()`
abbrev pub new_book : Depth → OrderBook
new_book d = record { bids = []; asks = []; transaction_id = pos 0; depth = d }

-- How a call ended.
pub data Ending : Type 0 where
  done : Ending
  runtime_error : Ending

-- What `cancel` leads to: a book and an ending, or the erasure of an iterator from a map that it does not
-- belong to, after which nothing is known.
pub data Cancelled : Type 0 where
  cancelled : OrderBook → Ending → Cancelled
  undefined : Cancelled

abbrev pub count_transaction : OrderBook → OrderBook
count_transaction b = record b { transaction_id = b.transaction_id +ℤ pos 1 }

abbrev pub keepers : Bool → OrderBook → List (ℕ × OrderStateKeeper)
keepers true b = b.bids
keepers false b = b.asks

abbrev pub set_keepers : Bool → List (ℕ × OrderStateKeeper) → OrderBook → OrderBook
set_keepers true m b = record b { bids = m }
set_keepers false m b = record b { asks = m }

-- `addNew`
unfoldable pub add_new : SimpleOrder → OrderBook → OrderBook × Ending
add_new o b₀ =
    let b = count_transaction b₀ in
    if o.qty ==ℤ pos 0
    then (b, runtime_error)
    else let m = Assoc.emplace o.order_id (new_keeper o) (keepers (is_buy o) b) in
      let b' = set_keepers (is_buy o) m.0 b in
      (record b' { depth = add_order o.price o.qty (is_buy o) b.depth }, done)

-- The end of `cancel` once the depth is done: a bid is erased by its own iterator, an ask by its
-- iterator in the map of the bids.
abbrev pub erase_cancelled : SimpleOrder → OrderBook → Cancelled
erase_cancelled o b =
    if is_buy o
    then cancelled (record b { bids = Assoc.erase o.order_id b.bids }) done
    else undefined

-- `cancel`, which takes price, quantity and side from the order that was added
unfoldable pub cancel : SimpleOrder → OrderBook → Cancelled
cancel o b₀ =
    let b = count_transaction b₀ in
    elim (Assoc.find o.order_id (keepers (is_buy o) b)) [
      | some k ↦
          let r = close_order k.order.price k.order.qty (is_buy k.order) b.depth in
          elim r.1 [
            | closed _ ↦ erase_cancelled o (record b { depth = r.0 })
            | no_orders ↦ cancelled (record b { depth = r.0 }) runtime_error
          ]
      | none ↦ cancelled b done
    ]

-- `it->second->change_qty(delta)`, and `setPrice` if the price is another than the original order's
unfoldable pub replace_keeper : SimpleOrder → OrderStateKeeper → OrderBook → OrderBook × Ending
replace_keeper o k b = elim (change_qty (k.order.qty -ℤ o.qty) k) [
  | none ↦ (b, runtime_error)
  | some k' ↦
      let k'' = if o.price ==ℤ k.order.price then k' else set_price o.price k' in
      let m = Assoc.erase o.order_id (keepers (is_buy o) b) in
      (set_keepers (is_buy o) ((o.order_id, k'') ∷ m) b, done)
]

-- What `replace` does to the depth for an order that is known: an ask at its original price only
-- has its level changed.
unfoldable pub replace_depth : SimpleOrder → OrderStateKeeper → Depth → Depth × Closing
replace_depth o k d =
    if is_buy o
    then replace_order k.price o.price k.open_qty o.qty true d
    else if o.price ==ℤ k.order.price
    then (change_qty_order o.price (k.order.qty -ℤ o.qty) false d, closed false)
    else replace_order k.price o.price k.open_qty o.qty false d

-- `replace`; an unknown order is added.
unfoldable pub replace : SimpleOrder → OrderBook → OrderBook × Ending
replace o b₀ =
    let b = count_transaction b₀ in
    elim (Assoc.find o.order_id (keepers (is_buy o) b)) [
      | some k ↦
          let r = replace_depth o k b.depth in
          elim r.1 [
            | closed _ ↦ replace_keeper o k (record b { depth = r.0 })
            | no_orders ↦ (record b { depth = r.0 }, runtime_error)
          ]
      | none ↦ add_new o b
    ]
