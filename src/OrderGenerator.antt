-- ===== src/OrderGenerator.antt =====
-- MarketDataPublisher/include/OrderGenerator.hpp: the messages that the publisher sends, read from the
-- hexadecimal lines of a file, three for each message. What the regular expression finds in a line is an
-- argument: the text of its group, or nothing. The map of the messages is ordered by sequence number.
-- `out_of_bounds` is a copy from behind the end of the bytes, which a zero ends. The counters, which are only printed, are
-- left out.
pub mod Hex
pub mod Messages
pub mod Ordered
pub mod Tokens
use order_book_sketch.Common.{
  ℕ, zero, suc, ℤ, ltb_ℤ, ◌==ℤ◌, Bool, true, false, ◌||◌, ◌&&◌, List, [], ◌∷◌, ◌++◌, Option, none,
  some, ltb, leb, ◌==◌, ◌+◌, ◌*◌, ◌%◌, length, take, drop, get_or, if◌then◌else◌,
}
use order_book_sketch.Messages.{MktDataGlobalHeaderMsg, MktDataOrderMsg, MktDataTradeMsg}
use order_book_sketch.Packets.{
  Packet, order_packet, trade_packet, Kind, order_kind, trade_kind, unknown_kind, kind_of,
  header_size, order_size, trade_size, int_of, load_header, load_type, load_order, load_trade,
}

-- `lut`
abbrev pub hex_digits : List ℕ
hex_digits =
    b'0' ∷ b'1' ∷ b'2' ∷ b'3' ∷ b'4' ∷ b'5' ∷ b'6' ∷ b'7' ∷ b'8' ∷ b'9' ∷ b'a' ∷ b'b' ∷ b'c' ∷ b'd'
    ∷ b'e' ∷ b'f' ∷ []

-- `std::lower_bound`, as a distance
abbrev pub lower_bound : ℕ → List ℕ → ℕ
lower_bound c [] = 0
lower_bound c (d ∷ ds) = if ltb d c then suc (lower_bound c ds) else 0

-- a digit, where the one found is the one looked for; behind the digits stands a 0
unfoldable pub digit_of : ℕ → Option ℕ
digit_of c = let i = lower_bound c hex_digits in if get_or hex_digits i 0 == c then some i else none

unfoldable pub push_back : Option ℕ → Option ℕ → Option (List ℕ) → Option (List ℕ)
push_back none q rest = none
push_back (some p) none rest = none
push_back (some p) (some q) none = none
push_back (some p) (some q) (some bytes) = some ((16 * p + q) ∷ bytes)

-- the loop of `hex_to_string`
unfoldable pub hex_from : List ℕ → Option (List ℕ)
hex_from [] = some []
hex_from (a ∷ []) = none
hex_from (a ∷ (b ∷ s)) = push_back (digit_of a) (digit_of b) (hex_from s)

-- `hex_to_string`; `none` if it throws
unfoldable pub hex_to_string : List ℕ → Option (List ℕ)
hex_to_string s = if length s % 2 == 1 then none else hex_from s

-- `isspace`
abbrev pub is_space : ℕ → Bool
is_space c = (c == b' ') || (leb 9 c && leb c 13)

unfoldable pub remove_spaces : List ℕ → List ℕ
remove_spaces [] = []
remove_spaces (c ∷ s) = if is_space c then remove_spaces s else c ∷ remove_spaces s

-- `emplace` of a map, and `insert` of a set, in ascending order of the keys
unfoldable pub emplace : {V : Type 0} → ℤ → V → List (ℤ × V) → List (ℤ × V)
emplace k v [] = (k, v) ∷ []
emplace k v ((j, w) ∷ m) =
    let rest = emplace k v m in
    if ltb_ℤ k j then (k, v) ∷ (j, w) ∷ m else if k ==ℤ j then (j, w) ∷ m else (j, w) ∷ rest

pub record OrderGenerator : Type 0 where
  pub orders : List Packet
  pub trades : List Packet
  pub tokens : List (ℤ × ℕ)
  pub messages : List (ℤ × Packet)

abbrev pub new_generator : OrderGenerator
new_generator = record { orders = []; trades = []; tokens = []; messages = [] }

-- what the bytes of a message lead to
pub data Generated : Type 0 where
  generated : OrderGenerator → Generated
  unsupported : Generated
  out_of_bounds : Generated

unfoldable pub add_order :
    MktDataGlobalHeaderMsg → ℕ → MktDataOrderMsg → OrderGenerator → OrderGenerator
add_order h t m g = record {
  orders = g.orders ++ (order_packet h t m ∷ []);
  trades = g.trades;
  tokens = emplace (int_of m.token_no) m.token_no g.tokens;
  messages = emplace (int_of h.seq_no) (order_packet h t m) g.messages;
}

unfoldable pub add_trade :
    MktDataGlobalHeaderMsg → ℕ → MktDataTradeMsg → OrderGenerator → OrderGenerator
add_trade h t m g = record {
  orders = g.orders;
  trades = g.trades ++ (trade_packet h t m ∷ []);
  tokens = emplace (int_of m.token_no) m.token_no g.tokens;
  messages = emplace (int_of h.seq_no) (trade_packet h t m) g.messages;
}

-- the switch on the type, with the bytes behind it up to the final zero
unfoldable pub on_body : MktDataGlobalHeaderMsg → ℕ → Kind → List ℕ → OrderGenerator → Generated
on_body h t order_kind body g =
    if ltb (length body) order_size
    then out_of_bounds
    else generated (add_order h t (load_order body) g)
on_body h t trade_kind body g =
    if ltb (length body) trade_size
    then out_of_bounds
    else generated (add_trade h t (load_trade body) g)
on_body h t unknown_kind body g = unsupported

-- the bytes of a message, with the zero that ends a string
unfoldable pub on_bytes : List ℕ → OrderGenerator → Generated
on_bytes bytes g =
    if ltb (length bytes) header_size
    then out_of_bounds
    else let t = load_type bytes in
      on_body (load_header bytes) t (kind_of t) (drop header_size bytes) g

-- the text of a message, whose exception is caught; its bytes are read as `c_str` gives them
unfoldable pub on_decoded : Option (List ℕ) → OrderGenerator → Generated
on_decoded none g = generated g
on_decoded (some bytes) g = on_bytes (bytes ++ (0 ∷ [])) g

unfoldable pub on_text : List ℕ → OrderGenerator → Generated
on_text text g = on_decoded (hex_to_string (remove_spaces text)) g

abbrev pub text_of : Option (List ℕ) → List ℕ
text_of none = []
text_of (some s) = s

-- the lines of the file, with the number of lines since the last message and their text
unfoldable pub generate_from : List (Option (List ℕ)) → ℕ → List ℕ → OrderGenerator → Generated
generate_from [] count text g = generated g
generate_from (l ∷ ls) count text g =
    let text' = text ++ text_of l in
    let more = generate_from ls (suc count) text' g in
    if suc count == 3
    then elim (on_text text' g) [
      | generated g' ↦ generate_from ls 0 [] g'
      | unsupported ↦ unsupported
      | out_of_bounds ↦ out_of_bounds
    ]
    else more

-- `OrderGenerator(...)` of a file that is readable
abbrev pub generate : List (Option (List ℕ)) → Generated
generate lines = generate_from lines 0 [] new_generator

-- `getTokens`: the tokens in their order
abbrev pub values_of : List (ℤ × ℕ) → List ℕ
values_of [] = []
values_of ((k, v) ∷ m) = v ∷ values_of m

abbrev pub get_tokens : OrderGenerator → List ℕ
get_tokens g = values_of g.tokens
