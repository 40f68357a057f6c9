-- ===== src/OrderBookType2.antt =====
-- OrderBookStore/include/OrderBookType2.hpp: the book that the subscriber keeps for an instrument.
-- Each side is a flat map from a priority (the price, negated for bids) to a price level, and a hash
-- map holds the orders by id. A method returns the new book beside its result, also when it throws,
-- since the subscriber catches the exception and goes on with the book.
pub mod Levels
pub mod Ledger
pub mod Refine
pub mod Feed
pub mod Best
pub mod Modify
pub mod Ghost
pub mod Trade
use order_book_sketch.Common.{
  ℕ, Bool, true, false, ℤ, pos, neg_ℤ, ◌+ℤ◌, ◌-ℤ◌, leb_ℤ, ltb_ℤ, leb, not, ◌==ℤ◌, List, [], ◌∷◌,
  Option, none, some, ◌==◌, ◌||◌, if◌then◌else◌, last?,
}
use order_book_sketch.FlatMap
use order_book_sketch.FlatMap.{is_begin}
use order_book_sketch.Dictionary.{Dictionary}
use order_book_sketch.Messages.{SimpleOrder, SimpleTrade, is_buy, prio_of}

pub record Level : Type 0 where
  pub price : ℤ
  pub qty : ℤ
  pub order_count : ℤ

-- `Level()`
abbrev pub empty_level : Level
empty_level = record { price = pos 0; qty = pos 0; order_count = pos 0 }

abbrev pub Side : Type 0
Side = List (ℤ × Level)

pub record BestPrice : Type 0 where
  pub bidqty : ℤ
  pub bid : ℤ
  pub ask : ℤ
  pub askqty : ℤ

-- What a call gives: `processOrder`'s value, or the exception on a duplicate order id.
pub data Outcome : Type 0 where
  returned : Bool → Outcome
  duplicate_order : Outcome

-- `qty -= qty; orderCount -= count`
abbrev pub shrunk : ℤ → ℤ → Level → Level
shrunk qty count l = record l { qty = l.qty -ℤ qty; order_count = l.order_count -ℤ count }

-- `price = price; qty += qty; orderCount += 1`
abbrev pub grown : ℤ → ℤ → Level → Level
grown price qty l = record {
  price = price;
  qty = l.qty +ℤ qty;
  order_count = l.order_count +ℤ pos 1;
}

-- `if (it->second.qty <= 0) side.erase(it)`
unfoldable pub drop_empty : ℕ → Side → Side
drop_empty it side = elim (FlatMap.value_at it side) [
  | some l ↦ if leb_ℤ l.qty (pos 0) then FlatMap.erase_at it side else side
  | none ↦ side
]

-- `qty` is taken off the level at `it`, `count` orders with it, and the level is erased if nothing
-- is left.
unfoldable pub reduce_level : ℕ → ℤ → ℤ → Side → Side
unfolding drop_empty
reduce_level it qty count side = drop_empty it (FlatMap.update_at it (shrunk qty count) side)

-- `qty` and one order are added to the level at `it`, which gets the price.
unfoldable pub grow_level : ℕ → ℤ → ℤ → Side → Side
grow_level it price qty side = FlatMap.update_at it (grown price qty) side

module _ (D : Dictionary SimpleOrder) where
  pub record Book : Type 0 where
    pub buy : Side
    pub sell : Side
    pub orders : D.Map

  -- `isBuy ? buy_ : sell_`, read and written
  abbrev pub side_of : Bool → Book → Side
  side_of true b = b.buy
  side_of false b = b.sell

  abbrev pub set_side : Bool → Side → Book → Book
  set_side true s b = record b { buy = s }
  set_side false s b = record b { sell = s }

  -- `addNewOrder`
  unfoldable pub add_new_order : SimpleOrder → Book → Book × Bool
  add_new_order o b =
      let prio = prio_of (is_buy o) o.price in
      let side = side_of (is_buy o) b in
      let it = FlatMap.insert_pos prio side in
      let side' = grow_level it o.price o.qty (FlatMap.insert prio empty_level side) in
      (set_side (is_buy o) side' b, is_begin it)

  -- `modifyOrder` on another price: off the old level, then onto the new level, which is looked for
  -- on the side of the old order.
  unfoldable pub move_order : SimpleOrder → SimpleOrder → Book → Book × Bool
  move_order new old b =
      let prio = prio_of (is_buy old) old.price in
      let side = side_of (is_buy old) b in
      let remove_it = FlatMap.insert_pos prio side in
      let side₁ = reduce_level remove_it old.qty (pos 1) (FlatMap.insert prio empty_level side) in
      let new_prio = prio_of (is_buy new) new.price in
      let add_it = FlatMap.insert_pos new_prio side₁ in
      let side₂ = grow_level add_it new.price new.qty (FlatMap.insert new_prio empty_level side₁) in
      (set_side (is_buy old) side₂ b, is_begin add_it || is_begin remove_it)

  -- `modifyOrder` on another quantity: the level gets the difference.
  unfoldable pub change_qty : SimpleOrder → SimpleOrder → Book → Book × Bool
  change_qty new old b =
      let prio = prio_of (is_buy old) old.price in
      let side = side_of (is_buy old) b in
      let it = FlatMap.insert_pos prio side in
      let side₁ =
        reduce_level it (old.qty -ℤ new.qty) (pos 0) (FlatMap.insert prio empty_level side) in
      (set_side (is_buy old) side₁ b, is_begin it)

  -- `modifyOrder`
  unfoldable pub modify_order : SimpleOrder → SimpleOrder → Book → Book × Bool
  unfolding move_order change_qty
  modify_order new old b =
      if not (new.price ==ℤ old.price)
      then move_order new old b
      else if not (new.qty ==ℤ old.qty)
      then change_qty new old b
      else (b, false)

  -- `cancelOrder`
  unfoldable pub cancel_order : SimpleOrder → Book → Book × Bool
  cancel_order old b =
      let side = side_of (is_buy old) b in
      elim (FlatMap.find (prio_of (is_buy old) old.price) side) [
        | none ↦ (b, false)
        | some it ↦ (set_side (is_buy old) (reduce_level it old.qty (pos 1) side) b, is_begin it)
      ]

  -- `doTrade`
  unfoldable pub do_trade : Bool → ℤ → ℤ → Book → Book × Bool
  do_trade buy price qty b =
      let side = side_of buy b in
      elim (FlatMap.find (prio_of buy price) side) [
        | none ↦ (b, false)
        | some it ↦ (set_side buy (reduce_level it qty (pos 1) side) b, is_begin it)
      ]

  -- `case 'N'`, `case 'M'` and `case 'X'` of `processOrder`
  unfoldable pub process_new : SimpleOrder → Book → Book × Outcome
  unfolding add_new_order
  process_new o b =
      let (m, _, inserted) = D.emplace o.order_id o b.orders in
      let (b', front) = add_new_order o (record b { orders = m }) in
      if inserted then (b', returned front) else (record b { orders = m }, duplicate_order)

  unfoldable pub process_modify : SimpleOrder → Book → Book × Outcome
  unfolding add_new_order modify_order
  process_modify o b =
      let (m, entry, inserted) = D.emplace o.order_id o b.orders in
      let (b₁, front₁) = add_new_order entry (record b { orders = m }) in
      let (b₂, front₂) = modify_order o entry (record b { orders = m }) in
      if inserted then (b₁, returned front₁) else (b₂, returned front₂)

  unfoldable pub process_cancel : SimpleOrder → Book → Book × Outcome
  unfolding cancel_order
  process_cancel o b = elim (D.find o.order_id b.orders) [
    | none ↦ (b, returned false)
    | some old ↦
        let (b', front) = cancel_order old (record b { orders = D.erase o.order_id b.orders }) in
        (b', returned front)
  ]

  unfoldable pub process_order : SimpleOrder → Book → Book × Outcome
  unfolding process_new process_modify process_cancel
  process_order o b =
      if o.msg_type == b'N'
      then process_new o b
      else if o.msg_type == b'M'
      then process_modify o b
      else if o.msg_type == b'X'
      then process_cancel o b
      else (b, returned false)

  -- `erase(it)` where the order found is not larger than the trade
  unfoldable pub drop_filled : ℕ → SimpleOrder → SimpleTrade → Book → Book
  drop_filled id o t b = if leb_ℤ o.qty t.qty then record b { orders = D.erase id b.orders } else b

  -- the first half of `processTrade`
  unfoldable pub trade_buy : SimpleTrade → Book → Book × Bool
  unfolding drop_filled do_trade
  trade_buy t b =
      if t.buy_order_id == 0 then (b, false) else elim (D.find t.buy_order_id b.orders) [
        | none ↦ (b, false)
        | some o ↦ do_trade true t.price t.qty (drop_filled t.buy_order_id o t b)
      ]

  -- The second half looks up the buy order's id as well, and `||` skips `doTrade` after a `true`.
  unfoldable pub trade_sell : SimpleTrade → Bool → Book → Book × Bool
  unfolding drop_filled do_trade
  trade_sell t done b =
      if t.sell_order_id == 0 then (b, done) else elim (D.find t.buy_order_id b.orders) [
        | none ↦ (b, done)
        | some o ↦
            let b' = drop_filled t.buy_order_id o t b in
            if done then (b', true) else do_trade false t.price t.qty b'
      ]

  unfoldable pub process_trade : SimpleTrade → Book → Book × Bool
  unfolding trade_buy trade_sell
  process_trade t b = let (b', done) = trade_buy t b in trade_sell t done b'

  -- `GetBestPrice`
  unfoldable pub get_best_price : Book → BestPrice
  get_best_price b = record {
    bidqty = elim (last? b.buy) [ some e ↦ e.1.qty | none ↦ pos 0 ];
    bid = elim (last? b.buy) [ some e ↦ e.1.price | none ↦ pos 0 ];
    ask = elim (last? b.sell) [ some e ↦ e.1.price | none ↦ pos 0 ];
    askqty = elim (last? b.sell) [ some e ↦ e.1.qty | none ↦ pos 0 ];
  }
