-- ===== src/Publisher.antt =====
-- MarketDataPublisher/include/Publisher.hpp: the session that asks its socket, which stays open, to write
-- the messages of a generator. A write has the bytes of its buffer when it is asked for; the buffer is
-- freed right after that, so what reaches the other end is an argument, a function of the writes.
-- `none` is a message whose type and variant do not go together, where `boost::get` throws.
pub mod Feed
pub mod Books
pub mod File
use order_book_sketch.Common.{
  ℕ, ℤ, Bool, true, false, ◌&&◌, not, List, [], ◌∷◌, ◌++◌, Option, none, some, ◌==◌, ◌≡◌,
  if◌then◌else◌,
}
use order_book_sketch.Messages.{MktDataOrderMsg, MktDataTradeMsg}
use order_book_sketch.Packets.{
  Packet, order_packet, trade_packet, Kind, order_kind, trade_kind, unknown_kind, kind_of,
}
use order_book_sketch.Packets.RoundTrip.{header_bytes, order_bytes, trade_bytes}

-- the bytes of some writes, one after the other
abbrev pub joined : List (List ℕ) → List ℕ
joined [] = []
joined (bytes ∷ writes) = bytes ++ joined writes

-- the only token of a session that runs for a single security
abbrev pub single_token : ℕ
single_token = 47958

-- The socket takes each write whole before the next is asked for, and so before its buffer is freed.
abbrev pub IsPrompt : (List (List ℕ) → List ℕ) → Type 0
IsPrompt wire = (writes : List (List ℕ)) → wire writes ≡ joined writes

-- the writes that one message asks for
unfoldable pub written : Bool → Kind → Packet → Option (List (List ℕ))
written single order_kind (order_packet h t m) =
    if single && not (m.token_no == single_token)
    then some []
    else some ((header_bytes h t ++ order_bytes m) ∷ [])
written single order_kind (trade_packet h t m) = none
written single trade_kind (order_packet h t m) = none
written single trade_kind (trade_packet h t m) =
    if single && not (m.token_no == single_token)
    then some []
    else some ((header_bytes h t ++ trade_bytes m) ∷ [])
written single unknown_kind p = some []

abbrev pub type_of : Packet → ℕ
type_of (order_packet h t m) = t
type_of (trade_packet h t m) = t

unfoldable pub append_to : List (List ℕ) → Option (List (List ℕ)) → Option (List (List ℕ))
append_to writes none = none
append_to writes (some rest) = some (writes ++ rest)

unfoldable pub and_then : Option (List (List ℕ)) → Option (List (List ℕ)) → Option (List (List ℕ))
and_then none rest = none
and_then (some writes) rest = append_to writes rest

-- the loop of `doRead`
unfoldable pub do_read : Bool → List (ℤ × Packet) → Option (List (List ℕ))
do_read single [] = some []
do_read single ((_, p) ∷ m) = and_then (written single (kind_of (type_of p)) p) (do_read single m)
