-- ===== src/Publisher/Feed.antt =====
-- From the file of the publisher to the books of the subscriber.
use order_book_sketch.Common.{
  ℕ, ℤ, false, List, [], ◌∷◌, ◌++◌, length, ◌<◌, some, ◌≡◌, refl, arith, All, append-nil, ap,
}
use order_book_sketch.Dictionary.{Dictionary}
use order_book_sketch.Messages.{SimpleOrder}
use order_book_sketch.Packets.{Packet, order_packet, trade_packet, kind_of}
use order_book_sketch.Packets.RoundTrip.{bytes_of, bytes_of_all, IsPacket}
use order_book_sketch.OrderGenerator.{OrderGenerator, new_generator, generated, generate}
use order_book_sketch.OrderGenerator.Messages.{
  Line, add_packet, add_packets, IsFile, lines_of, generate-lines_of,
}
use order_book_sketch.OrderGenerator.Ordered.{
  find, IsAscending, seq_of, first_of, messages_lem, All-emplace, messages-add_packet,
}
use order_book_sketch.Publisher.{joined, IsPrompt, written, type_of, append_to, and_then, do_read}
use order_book_sketch.Subscriber.{Dangling, Subscriber, at_close, read_all}
use order_book_sketch.Subscriber.Bytes.{on_packets}
use order_book_sketch.Subscriber.Ends.{read_all_cut}

abbrev pub packets_of : List (ℤ × Packet) → List Packet
packets_of [] = []
packets_of ((k, p) ∷ m) = p ∷ packets_of m

abbrev pub writes_of : List Packet → List (List ℕ)
writes_of [] = []
writes_of (p ∷ ps) = bytes_of p ∷ writes_of ps

pub joined-writes_of : (ps : List Packet) → joined (writes_of ps) ≡ bytes_of_all ps
joined-writes_of [] = refl
joined-writes_of (p ∷ ps) = ap (λ r. bytes_of p ++ r) (joined-writes_of ps)

written-packet :
    (p : Packet) → IsPacket p → written false (kind_of (type_of p)) p ≡ some (bytes_of p ∷ [])
unfolding written
written-packet (order_packet h t m) (_, _, _, kind) = rw kind refl
written-packet (trade_packet h t m) (_, _, _, kind) = rw kind refl

pub do_read-packets :
    (m : List (ℤ × Packet))
    → All (λ e. IsPacket e.1) m
    → do_read false m ≡ some (writes_of (packets_of m))
unfolding do_read and_then append_to
do_read-packets [] ok = refl
do_read-packets ((k, p) ∷ m) ok = rw (written-packet p ok.0, do_read-packets m ok.1) refl

pub All-messages :
    (P : Packet → Type 0) (ps : List Packet) (g : OrderGenerator)
    → All P ps
    → All (λ e. P e.1) g.messages
    → All (λ e. P e.1) (add_packets ps g).messages
All-messages P [] g ok h = h
All-messages P (p ∷ ps) g ok h =
    All-messages P ps (add_packet p g) ok.1
      (rw (messages-add_packet p g) (All-emplace (λ e. P e.1) (seq_of p) p g.messages ok.0 h))

IsPacket-packets_of :
    (m : List (ℤ × Packet)) → All (λ e. IsPacket e.1) m → All IsPacket (packets_of m)
IsPacket-packets_of [] h = tt
IsPacket-packets_of ((k, p) ∷ m) h = (h.0, IsPacket-packets_of m h.1)

module _ (D : Dictionary SimpleOrder) (S : Dictionary ℕ) (took : ℕ → ℕ) (dangling : Dangling) where
  -- A publisher whose file has the hexadecimal digits of the bytes of some packets, three lines for each,
  -- and whose socket is prompt writes bytes from which a subscriber reads, until the socket is closed, the packets in the ascending
  -- order of their sequence numbers, the first of each number, and does what these do.
  pub published-on_packets :
      (wire : List (List ℕ) → List ℕ) (ls : List (Line × Line × Line)) (ps : List Packet) (n : ℕ)
      (s : Subscriber D S)
      → IsPrompt wire
      → IsFile ls ps
      → All IsPacket ps
      → length (packets_of (add_packets ps new_generator).messages) < n
      → (g : OrderGenerator) × (writes : List (List ℕ)) × (generate (lines_of ls) ≡ generated g)
        × (do_read false g.messages ≡ some writes)
        × (read_all D S took dangling n s (wire writes)
            ≡ at_close (on_packets D S took dangling (packets_of g.messages) s))
        × IsAscending g.messages
        × ((q : ℤ) → find q g.messages ≡ first_of q ps)
  published-on_packets wire ls ps n s prompt file ok fuel =
      let g = add_packets ps new_generator in
      let fits = All-messages IsPacket ps new_generator ok tt in
      let sent = packets_of g.messages in
      let (ascending, finds) = messages_lem ps in
      let reads =
        read_all_cut D S took dangling sent n s [] (IsPacket-packets_of g.messages fits)
          (omega arith) fuel in
      (
        g,
        writes_of sent,
        generate-lines_of ls ps file ok,
        do_read-packets g.messages fits,
        rw (prompt (writes_of sent), joined-writes_of sent)
            (rw⁻¹ (append-nil (bytes_of_all sent)) reads),
        ascending,
        finds,
      )
