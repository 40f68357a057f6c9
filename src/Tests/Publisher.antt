-- ===== src/Tests/Publisher.antt =====
-- The publisher and the subscriber on a file of two messages that stand in the wrong order.
use order_book_sketch.Common.{ℕ, pos, List, [], ◌∷◌, none, some, ◌≡◌, refl}
use order_book_sketch.Messages.{MktDataGlobalHeaderMsg, MktDataOrderMsg}
use order_book_sketch.Packets.{Packet, order_packet}
use order_book_sketch.Packets.RoundTrip.{bytes_of}
use order_book_sketch.OrderGenerator.{OrderGenerator, hex_to_string, digit_of, hex_from, push_back}
use order_book_sketch.OrderGenerator.Hex.{hex_of}
use order_book_sketch.OrderGenerator.Messages.{Line}
use order_book_sketch.Subscriber.{Dangling, Subscriber}

abbrev header : ℕ → MktDataGlobalHeaderMsg
header n = record { len = 38; stream_id = 1; seq_no = n }

abbrev buy : ℕ → MktDataOrderMsg
buy id = record {
  timestamp = 4;
  order_id = id;
  token_no = 7;
  order_type = b'B';
  price = pos 258;
  qty = pos 5;
}

abbrev sent : List Packet
sent = order_packet (header 9) b'X' (buy 1) ∷ order_packet (header 8) b'N' (buy 1) ∷ []

abbrev file : List (Line × Line × Line)
file =
    (some (b' ' ∷ hex_of (bytes_of (order_packet (header 9) b'X' (buy 1)))), none, some (b' ' ∷ []))
    ∷ (none, some (hex_of (bytes_of (order_packet (header 8) b'N' (buy 1)))), none)
    ∷ []

-- Every completion reads another header and takes an order for one of type 'X'.
abbrev swapped : Dangling
swapped n h t = (header 0, b'X')

-- A character that is no digit is refused, and so is an odd number of digits.
refused : (hex_to_string (b'g' ∷ b'0' ∷ []) ≡ none) × (hex_to_string (b'1' ∷ []) ≡ none)
unfolding hex_to_string hex_from digit_of push_back
refused = (refl, refl)
