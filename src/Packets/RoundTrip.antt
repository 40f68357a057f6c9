-- ===== src/Packets/RoundTrip.antt =====
-- A message that is written and loaded again.
use order_book_sketch.Common.{◌∷◌, ℕ, List, [], ◌++◌, ◌^◌, ◌<◌, ◌≡◌, refl}
use order_book_sketch.Messages.{MktDataGlobalHeaderMsg, MktDataOrderMsg, MktDataTradeMsg}
use order_book_sketch.Packets.{load_header, load_type, load_order, load_trade}
use order_book_sketch.Packets.{order_kind, trade_kind, kind_of, Packet, order_packet, trade_packet}
use order_book_sketch.Packets.Fields.{
  store, load-store, bits_of, bits_of-below, int_of-bits_of, IsInt32,
}

-- the bytes of a header and a message type, and of the two bodies
abbrev pub header_bytes : MktDataGlobalHeaderMsg → ℕ → List ℕ
header_bytes h t = store 2 h.len ++ (store 2 h.stream_id ++ (store 4 h.seq_no ++ (store 1 t ++ [])))

abbrev pub order_bytes : MktDataOrderMsg → List ℕ
order_bytes m =
    store 8 m.timestamp
    ++ (store 8 m.order_id
        ++ (store 4 m.token_no
            ++ (store 1 m.order_type
                ++ (store 4 (bits_of m.price) ++ (store 4 (bits_of m.qty) ++ [])))))

abbrev pub trade_bytes : MktDataTradeMsg → List ℕ
trade_bytes m =
    store 8 m.timestamp
    ++ (store 8 m.buy_side_order_id
        ++ (store 8 m.sell_side_order_id
            ++ (store 4 m.token_no
                ++ (store 4 (bits_of m.price) ++ (store 4 (bits_of m.qty) ++ [])))))

-- All fields fit their widths.
abbrev pub IsHeader : MktDataGlobalHeaderMsg → Type 0
IsHeader h = (h.len < 256 ^ 2) × (h.stream_id < 256 ^ 2) × (h.seq_no < 256 ^ 4)

abbrev pub IsOrder : MktDataOrderMsg → Type 0
IsOrder m =
    (m.timestamp < 256 ^ 8)
    × (m.order_id < 256 ^ 8)
    × (m.token_no < 256 ^ 4)
    × (m.order_type < 256)
    × IsInt32 m.price
    × IsInt32 m.qty

abbrev pub IsTrade : MktDataTradeMsg → Type 0
IsTrade m =
    (m.timestamp < 256 ^ 8)
    × (m.buy_side_order_id < 256 ^ 8)
    × (m.sell_side_order_id < 256 ^ 8)
    × (m.token_no < 256 ^ 4)
    × IsInt32 m.price
    × IsInt32 m.qty

pub load_header-header_bytes :
    (h : MktDataGlobalHeaderMsg) (t : ℕ) → IsHeader h → load_header (header_bytes h t) ≡ h
unfolding load_header
load_header-header_bytes h t (a, b, c) =
    rw (load-store 2 h.len a, load-store 2 h.stream_id b, load-store 4 h.seq_no c) refl

pub load_type-header_bytes :
    (h : MktDataGlobalHeaderMsg) (t : ℕ) → t < 256 → load_type (header_bytes h t) ≡ t
unfolding load_type
load_type-header_bytes h t lt = load-store 1 t lt

pub load_order-order_bytes : (m : MktDataOrderMsg) → IsOrder m → load_order (order_bytes m) ≡ m
unfolding load_order
load_order-order_bytes m (a, b, c, d, p, q) =
    rw
      (
        load-store 8 m.timestamp a,
        load-store 8 m.order_id b,
        load-store 4 m.token_no c,
        load-store 1 m.order_type d,
        load-store 4 (bits_of m.price) (bits_of-below m.price p),
        load-store 4 (bits_of m.qty) (bits_of-below m.qty q),
        int_of-bits_of m.price p,
        int_of-bits_of m.qty q,
      )
      refl

pub load_trade-trade_bytes : (m : MktDataTradeMsg) → IsTrade m → load_trade (trade_bytes m) ≡ m
unfolding load_trade
load_trade-trade_bytes m (a, b, c, d, p, q) =
    rw
      (
        load-store 8 m.timestamp a,
        load-store 8 m.buy_side_order_id b,
        load-store 8 m.sell_side_order_id c,
        load-store 4 m.token_no d,
        load-store 4 (bits_of m.price) (bits_of-below m.price p),
        load-store 4 (bits_of m.qty) (bits_of-below m.qty q),
        int_of-bits_of m.price p,
        int_of-bits_of m.qty q,
      )
      refl

abbrev pub bytes_of : Packet → List ℕ
bytes_of (order_packet h t m) = header_bytes h t ++ order_bytes m
bytes_of (trade_packet h t m) = header_bytes h t ++ trade_bytes m

abbrev pub bytes_of_all : List Packet → List ℕ
bytes_of_all [] = []
bytes_of_all (p ∷ ps) = bytes_of p ++ bytes_of_all ps

-- All fields fit their widths, and the type is one of those of the body.
abbrev pub IsPacket : Packet → Type 0
IsPacket (order_packet h t m) = IsHeader h × (t < 256) × IsOrder m × (kind_of t ≡ order_kind)
IsPacket (trade_packet h t m) = IsHeader h × (t < 256) × IsTrade m × (kind_of t ≡ trade_kind)
