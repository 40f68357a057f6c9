-- ===== src/Depth/Level.antt =====
-- OrderBookStore/include/DepthLevel.hpp: one price level of the depth. Prices, quantities, counts and
-- change ids are signed. `_orders`, a vector of addresses, is only ever copied.
use order_book_sketch.Common.{
  ℕ, Bool, true, false, ℤ, pos, ◌+ℤ◌, ◌-ℤ◌, leb_ℤ, ltb_ℤ, ◌==ℤ◌, List, [], Option, none, some,
  if◌then◌else◌,
}

-- `INVALID_LEVEL_PRICE`
abbrev pub invalid_level_price : ℤ
invalid_level_price = pos 0

pub record DepthLevel : Type 0 where
  pub price : ℤ
  pub total_qty : ℤ
  pub orders_count : ℤ
  pub orders : List ℕ
  pub is_excess : Bool
  pub last_change : ℤ

-- `DepthLevel()`
abbrev pub new_level : DepthLevel
new_level = record {
  price = invalid_level_price;
  total_qty = pos 0;
  orders_count = pos 0;
  orders = [];
  is_excess = false;
  last_change = pos 0;
}

-- `operator=`: the mark of an excess level stays, and so does the stamp when the source is vacant.
abbrev pub assign : DepthLevel → DepthLevel → DepthLevel
assign l rhs = record {
  price = rhs.price;
  total_qty = rhs.total_qty;
  orders_count = rhs.orders_count;
  orders = rhs.orders;
  is_excess = l.is_excess;
  last_change = if rhs.price ==ℤ invalid_level_price then l.last_change else rhs.last_change;
}

-- `init(price, is_excess)`
abbrev pub init : ℤ → Bool → DepthLevel → DepthLevel
init p e l = record l { price = p; total_qty = pos 0; orders_count = pos 0; is_excess = e }

abbrev pub add_qty_order : ℤ → DepthLevel → DepthLevel
add_qty_order q l = record l {
  orders_count = l.orders_count +ℤ pos 1;
  total_qty = l.total_qty +ℤ q;
}

abbrev pub increase_qty : ℤ → DepthLevel → DepthLevel
increase_qty q l = record l { total_qty = l.total_qty +ℤ q }

abbrev pub decrease_qty : ℤ → DepthLevel → DepthLevel
decrease_qty q l = record l { total_qty = l.total_qty -ℤ q }

-- `set(price, qty, order_count, last_change)`
abbrev pub set_level : ℤ → ℤ → ℤ → ℤ → DepthLevel → DepthLevel
set_level p q n c l = record l { price = p; total_qty = q; orders_count = n; last_change = c }

-- `close_order(qty)`: the level after it and whether it became empty, or the exception on a level
-- without orders. The exception on a short quantity is constructed and not thrown.
unfoldable pub close_level_order : ℤ → DepthLevel → Option (DepthLevel × Bool)
close_level_order q l =
    if l.orders_count ==ℤ pos 0
    then none
    else if l.orders_count ==ℤ pos 1
    then some (record l { orders_count = pos 0; total_qty = pos 0 }, true)
    else some (
      record l {
        orders_count = l.orders_count -ℤ pos 1;
        total_qty = if leb_ℤ q l.total_qty then l.total_qty -ℤ q else l.total_qty;
      },
      false,
    )

-- `last_change(stamp)`
abbrev pub stamp : ℤ → DepthLevel → DepthLevel
stamp c l = record l { last_change = c }

abbrev pub changed_since : ℤ → DepthLevel → Bool
changed_since c l = ltb_ℤ c l.last_change
