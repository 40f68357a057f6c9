-- ===== src/Messages.antt =====
-- The market data messages and the orders and trades made from them:
-- Common/include/MktDataGlobalHeaderMsg.hpp, MktDataOrderMsg.hpp, MktDataTradeMsg.hpp and
-- OrderBookStore/include/Order.hpp, Trade.hpp. Order ids and token numbers are only hashed and
-- compared, so they are bit patterns, as numbers; prices and quantities are signed integers. A
-- `char` is its code.
use order_book_sketch.Common.{ℕ, Bool, ℤ, pos, neg_ℤ, ◌==◌, ltb_ℤ, if◌then◌else◌}

pub record MktDataGlobalHeaderMsg : Type 0 where
  pub len : ℕ
  pub stream_id : ℕ
  pub seq_no : ℕ

pub record MktDataOrderMsg : Type 0 where
  pub timestamp : ℕ
  pub order_id : ℕ
  pub token_no : ℕ
  pub order_type : ℕ
  pub price : ℤ
  pub qty : ℤ

pub record MktDataTradeMsg : Type 0 where
  pub timestamp : ℕ
  pub buy_side_order_id : ℕ
  pub sell_side_order_id : ℕ
  pub token_no : ℕ
  pub price : ℤ
  pub qty : ℤ

pub record SimpleOrder : Type 0 where
  pub header : MktDataGlobalHeaderMsg
  pub msg_type : ℕ
  pub timestamp : ℕ
  pub order_id : ℕ
  pub token_no : ℕ
  pub order_type : ℕ
  pub price : ℤ
  pub qty : ℤ

pub record SimpleTrade : Type 0 where
  pub header : MktDataGlobalHeaderMsg
  pub msg_type : ℕ
  pub timestamp : ℕ
  pub buy_order_id : ℕ
  pub sell_order_id : ℕ
  pub token_no : ℕ
  pub price : ℤ
  pub qty : ℤ

unfoldable pub simple_order : MktDataGlobalHeaderMsg → ℕ → MktDataOrderMsg → SimpleOrder
simple_order h t m = record {
  header = h;
  msg_type = t;
  timestamp = m.timestamp;
  order_id = m.order_id;
  token_no = m.token_no;
  order_type = m.order_type;
  price = m.price;
  qty = m.qty;
}

unfoldable pub simple_trade : MktDataGlobalHeaderMsg → ℕ → MktDataTradeMsg → SimpleTrade
simple_trade h t m = record {
  header = h;
  msg_type = t;
  timestamp = m.timestamp;
  buy_order_id = m.buy_side_order_id;
  sell_order_id = m.sell_side_order_id;
  token_no = m.token_no;
  price = m.price;
  qty = m.qty;
}

-- `_orderType == 'B'`
abbrev pub is_buy : SimpleOrder → Bool
is_buy o = o.order_type == b'B'

-- `price() > 0`
abbrev pub is_limit : SimpleOrder → Bool
is_limit o = ltb_ℤ (pos 0) o.price

-- The key of an order's price level in `OrderBookType2`: `is_buy() ? -price() : price()`.
abbrev pub prio_of : Bool → ℤ → ℤ
prio_of buy p = if buy then neg_ℤ p else p
