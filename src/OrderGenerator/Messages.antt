-- ===== src/OrderGenerator/Messages.antt =====
-- A file of packets is read back.
use order_book_sketch.Common.{
  ℕ, zero, suc, false, List, [], ◌∷◌, ◌++◌, Option, ltb, ◌/◌, ◌<◌, length, ◌≡◌, refl, arith, All,
  ◌∙◌,
}
use order_book_sketch.Messages.{MktDataGlobalHeaderMsg, MktDataOrderMsg, MktDataTradeMsg}
use order_book_sketch.Packets.{
  Packet, order_packet, trade_packet, kind_of, header_size, load_header, load_type, load_order,
  load_trade,
}
use order_book_sketch.Packets.Fields.{store, load-store}
use order_book_sketch.Packets.RoundTrip.{
  header_bytes, order_bytes, trade_bytes, IsHeader, bytes_of, IsPacket, load_order-order_bytes,
  load_trade-trade_bytes,
}
use order_book_sketch.OrderGenerator.{
  remove_spaces, OrderGenerator, new_generator, generated, add_order, add_trade, on_body, on_bytes,
  on_decoded, on_text, text_of, generate_from, generate,
}
use order_book_sketch.OrderGenerator.Hex.{hex_of, hex_to_string-hex_of}

-- a line of the file by what the regular expression finds in it
abbrev pub Line : Type 0
Line = Option (List ℕ)

abbrev pub add_packet : Packet → OrderGenerator → OrderGenerator
add_packet (order_packet h t m) g = add_order h t m g
add_packet (trade_packet h t m) g = add_trade h t m g

abbrev pub add_packets : List Packet → OrderGenerator → OrderGenerator
add_packets [] g = g
add_packets (p ∷ ps) g = add_packets ps (add_packet p g)

-- Three lines have the digits of the packet's bytes, with any spaces between them.
abbrev pub IsText : Line × Line × Line → Packet → Type 0
IsText (a, b, c) p = remove_spaces (((text_of a) ++ text_of b) ++ text_of c) ≡ hex_of (bytes_of p)

abbrev pub IsFile : List (Line × Line × Line) → List Packet → Type 0
IsFile [] [] = Unit
IsFile [] (p ∷ ps) = ⊥
IsFile (l ∷ ls) [] = ⊥
IsFile (l ∷ ls) (p ∷ ps) = IsText l p × IsFile ls ps

abbrev pub lines_of : List (Line × Line × Line) → List Line
lines_of [] = []
lines_of ((a, b, c) ∷ ls) = a ∷ b ∷ c ∷ lines_of ls

store-bytes : (n x : ℕ) → All (λ b. b < 256) (store n x)
store-bytes zero x = tt
store-bytes (suc n) x = (omega arith, store-bytes n (x / 256))

All-append : (P : ℕ → Type 0) (xs ys : List ℕ) → All P xs → All P ys → All P (xs ++ ys)
All-append P [] ys h k = k
All-append P (x ∷ xs) ys h k = (h.0, All-append P xs ys h.1 k)

IsByte-header : (h : MktDataGlobalHeaderMsg) (t : ℕ) → All (λ b. b < 256) (header_bytes h t)
IsByte-header h t = omega arith

IsByte-bytes_of : (p : Packet) → All (λ b. b < 256) (bytes_of p)
IsByte-bytes_of (order_packet h t m) =
    All-append (λ b. b < 256) (header_bytes h t) (order_bytes m) (IsByte-header h t) (omega arith)
IsByte-bytes_of (trade_packet h t m) =
    All-append (λ b. b < 256) (header_bytes h t) (trade_bytes m) (IsByte-header h t) (omega arith)

on_bytes_lem :
    (h : MktDataGlobalHeaderMsg) (t : ℕ) (body : List ℕ) (g : OrderGenerator)
    → IsHeader h
    → t < 256
    → on_bytes (header_bytes h t ++ body) g ≡ on_body h t (kind_of t) body g
unfolding on_bytes load_header load_type
on_bytes_lem h t body g (a, b, c) lt =
    let long : ltb (length (header_bytes h t ++ body)) header_size ≡ false = ground arith in
    rw
      (
        long,
        load-store 2 h.len a,
        load-store 2 h.stream_id b,
        load-store 4 h.seq_no c,
        load-store 1 t lt,
      )
      refl

-- The zero behind the bytes is not read.
load_order_ended :
    (m : MktDataOrderMsg) → load_order (order_bytes m ++ (0 ∷ [])) ≡ load_order (order_bytes m)
unfolding load_order
load_order_ended m = refl

load_trade_ended :
    (m : MktDataTradeMsg) → load_trade (trade_bytes m ++ (0 ∷ [])) ≡ load_trade (trade_bytes m)
unfolding load_trade
load_trade_ended m = refl

on_bytes-bytes_of :
    (p : Packet) (g : OrderGenerator)
    → IsPacket p
    → on_bytes (bytes_of p ++ (0 ∷ [])) g ≡ generated (add_packet p g)
unfolding on_body
on_bytes-bytes_of (order_packet h t m) g (ok, lt, body, kind) =
    on_bytes_lem h t (order_bytes m ++ (0 ∷ [])) g ok lt
    ∙ rw (kind, load_order_ended m, load_order-order_bytes m body) refl
on_bytes-bytes_of (trade_packet h t m) g (ok, lt, body, kind) =
    on_bytes_lem h t (trade_bytes m ++ (0 ∷ [])) g ok lt
    ∙ rw (kind, load_trade_ended m, load_trade-trade_bytes m body) refl

on_text-bytes_of :
    (p : Packet) (text : List ℕ) (g : OrderGenerator)
    → IsPacket p
    → remove_spaces text ≡ hex_of (bytes_of p)
    → on_text text g ≡ generated (add_packet p g)
unfolding on_text on_decoded
on_text-bytes_of p text g ok e =
    rw (e, hex_to_string-hex_of (bytes_of p) (IsByte-bytes_of p)) (on_bytes-bytes_of p g ok)

generate_from-lines :
    (ls : List (Line × Line × Line)) (ps : List Packet) (g : OrderGenerator)
    → IsFile ls ps
    → All IsPacket ps
    → generate_from (lines_of ls) 0 [] g ≡ generated (add_packets ps g)
unfolding generate_from
generate_from-lines [] [] g file ok = refl
generate_from-lines [] (p ∷ ps) g file ok = absurd file
generate_from-lines (l ∷ ls) [] g file ok = absurd file
generate_from-lines ((a, b, c) ∷ ls) (p ∷ ps) g file ok =
    rw (on_text-bytes_of p (((text_of a) ++ text_of b) ++ text_of c) g ok.0 file.0, generate_from)
      (generate_from-lines ls ps (add_packet p g) file.1 ok.1)

-- A file with the hexadecimal digits of the bytes of some packets, three lines for each, is read as these
-- packets in the file's order.
pub generate-lines_of :
    (ls : List (Line × Line × Line)) (ps : List Packet)
    → IsFile ls ps
    → All IsPacket ps
    → generate (lines_of ls) ≡ generated (add_packets ps new_generator)
generate-lines_of ls ps file ok = generate_from-lines ls ps new_generator file ok
