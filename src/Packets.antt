-- ===== src/Packets.antt =====
-- The packets of the feed as bytes: what `memcpy` makes of the bytes in OrderBookStore/include/Subscriber.hpp,
-- where the packed structures of Common/include/MktDataGlobalHeaderMsg.hpp, MktDataOrderMsg.hpp and
-- MktDataTradeMsg.hpp lie on a machine that stores the low byte first.
pub mod Fields
pub mod RoundTrip
use order_book_sketch.Common.{
  ℕ, zero, suc, ℤ, pos, negsuc, List, [], ◌∷◌, ◌++◌, take, drop, ltb, ◌+◌, ◌-◌, ◌*◌, ◌/◌, ◌%◌, ◌^◌,
  if◌then◌else◌, ◌==◌, ◌||◌,
}
use order_book_sketch.Messages.{MktDataGlobalHeaderMsg, MktDataOrderMsg, MktDataTradeMsg}

-- the number that the bytes store
unfoldable pub load : List ℕ → ℕ
load [] = 0
load (b ∷ bs) = b + 256 * load bs

-- the number of `n` bytes from `i` on
abbrev pub field : ℕ → ℕ → List ℕ → ℕ
field i n bs = load (take n (drop i bs))

-- an `int32_t` by its bits
abbrev pub int_of : ℕ → ℤ
int_of n = if ltb n (2 ^ 31) then pos n else negsuc (2 ^ 32 - n - 1)

-- `sizeof(MktDataGlobalHeaderMsg) + sizeof(char)`, `sizeof(MktDataOrderMsg)`, `sizeof(MktDataTradeMsg)`
abbrev pub header_size : ℕ
header_size = 9

abbrev pub order_size : ℕ
order_size = 29

abbrev pub trade_size : ℕ
trade_size = 36

unfoldable pub load_header : List ℕ → MktDataGlobalHeaderMsg
load_header bs = record { len = field 0 2 bs; stream_id = field 2 2 bs; seq_no = field 4 4 bs }

-- `*msgType`
unfoldable pub load_type : List ℕ → ℕ
load_type bs = field 8 1 bs

unfoldable pub load_order : List ℕ → MktDataOrderMsg
load_order bs = record {
  timestamp = field 0 8 bs;
  order_id = field 8 8 bs;
  token_no = field 16 4 bs;
  order_type = field 20 1 bs;
  price = int_of (field 21 4 bs);
  qty = int_of (field 25 4 bs);
}

unfoldable pub load_trade : List ℕ → MktDataTradeMsg
load_trade bs = record {
  timestamp = field 0 8 bs;
  buy_side_order_id = field 8 8 bs;
  sell_side_order_id = field 16 8 bs;
  token_no = field 24 4 bs;
  price = int_of (field 28 4 bs);
  qty = int_of (field 32 4 bs);
}

-- `switch (*msgType)`
pub data Kind : Type 0 where
  order_kind : Kind
  trade_kind : Kind
  unknown_kind : Kind

unfoldable pub kind_of : ℕ → Kind
kind_of t =
    if (t == b'N') || (t == b'M') || (t == b'X') || (t == b'G') || (t == b'H') || (t == b'J')
    then order_kind
    else if (t == b'T') || (t == b'K')
    then trade_kind
    else unknown_kind

-- a message of the feed with its header and its type
pub data Packet : Type 0 where
  order_packet : MktDataGlobalHeaderMsg → ℕ → MktDataOrderMsg → Packet
  trade_packet : MktDataGlobalHeaderMsg → ℕ → MktDataTradeMsg → Packet
