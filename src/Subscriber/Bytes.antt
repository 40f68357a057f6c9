-- ===== src/Subscriber/Bytes.antt =====
-- What the subscriber does on the bytes of some packets and on whatever comes after them.
use order_book_sketch.Packets.{Packet, kind_of, order_kind, order_packet, trade_kind, trade_packet}
use order_book_sketch.Packets.RoundTrip.{IsPacket, bytes_of, bytes_of_all}
use order_book_sketch.Common.{
  ℕ, zero, suc, true, false, List, [], ◌∷◌, ◌++◌, none, some, ltb, ◌+◌, ◌<◌, length, take, drop,
  ◌≡◌, refl, arith, ◌∙◌, ap, length-append, append-append, All,
}
use order_book_sketch.Dictionary.{Dictionary}
use order_book_sketch.Messages.{
  MktDataGlobalHeaderMsg, MktDataOrderMsg, MktDataTradeMsg, SimpleOrder, simple_order, simple_trade,
}
use order_book_sketch.Packets.{header_size, order_size, trade_size}
use order_book_sketch.Packets.RoundTrip.{
  header_bytes, order_bytes, trade_bytes, IsHeader, IsOrder, IsTrade, load_header-header_bytes,
  load_type-header_bytes, load_order-order_bytes, load_trade-trade_bytes,
}
use order_book_sketch.Subscriber.{
  async_read, Dangling, Subscriber, Next, read_header, closed, idle, on_order, on_trade, order_read,
  trade_read, do_read_body, header_read, do_read_header, Ended, at_close, at_idle, read_all,
}

pub take-append : {A : Type 0} (n : ℕ) (xs ys : List A) → length xs ≡ n → take n (xs ++ ys) ≡ xs
take-append zero [] ys e = refl
take-append zero (x ∷ xs) ys e = absurd (omega arith)
take-append (suc n) [] ys e = absurd (omega arith)
take-append (suc n) (x ∷ xs) ys e = ap (λ r. x ∷ r) (take-append n xs ys (omega arith))

pub drop-append : {A : Type 0} (n : ℕ) (xs ys : List A) → length xs ≡ n → drop n (xs ++ ys) ≡ ys
drop-append zero [] ys e = refl
drop-append zero (x ∷ xs) ys e = absurd (omega arith)
drop-append (suc n) [] ys e = absurd (omega arith)
drop-append (suc n) (x ∷ xs) ys e = drop-append n xs ys (omega arith)

-- As many bytes as are read come first.
pub async_read-append :
    (n : ℕ) (xs ys : List ℕ) → length xs ≡ n → async_read n (xs ++ ys) ≡ some (xs, ys)
unfolding async_read
async_read-append n xs ys e =
    let enough : ltb (length (xs ++ ys)) n ≡ false = ground (arith, length-append xs ys, e) in
    rw (enough, take-append n xs ys e, drop-append n xs ys e) refl

pub async_read_short : (n : ℕ) (bs : List ℕ) → length bs < n → async_read n bs ≡ none
unfolding async_read
async_read_short n bs h = let short : ltb (length bs) n ≡ true = ground (arith, h) in rw short refl

module _ (D : Dictionary SimpleOrder) (S : Dictionary ℕ) (took : ℕ → ℕ) (dangling : Dangling) where
  -- what one packet does, its kind known from its body, with the header and the type that are read
  -- through the references
  abbrev pub on_packet : Packet → Subscriber D S → Subscriber D S
  on_packet (order_packet h t m) s =
      let n = suc s.pcount in
      let seen = dangling n h t in
      on_order D S (took n) (simple_order (seen.0) (seen.1) m) (record s { pcount = n })
  on_packet (trade_packet h t m) s =
      let n = suc s.pcount in
      let seen = dangling n h t in
      on_trade D S (took n) (simple_trade (seen.0) (seen.1) m) (record s { pcount = n })

  abbrev pub on_packets : List Packet → Subscriber D S → Subscriber D S
  on_packets [] s = s
  on_packets (p ∷ ps) s = on_packets ps (on_packet p s)

  pub do_read_header_lem :
      (h : MktDataGlobalHeaderMsg) (t : ℕ) (s : Subscriber D S) (rest : List ℕ)
      → IsHeader h
      → t < 256
      → do_read_header D S took dangling s (header_bytes h t ++ rest)
        ≡ do_read_body D S
            (took (suc s.pcount))
            (dangling (suc s.pcount))
            h
            t
            (kind_of t)
            (record s { pcount = suc s.pcount })
            rest
  unfolding do_read_header header_read
  do_read_header_lem h t s rest ok lt =
      rw
        (
          async_read-append header_size (header_bytes h t) rest refl,
          load_header-header_bytes h t ok,
          load_type-header_bytes h t lt,
        )
        refl

  order_read_lem :
      (h : MktDataGlobalHeaderMsg) (t : ℕ) (m : MktDataOrderMsg) (s : Subscriber D S)
      (rest : List ℕ)
      → IsOrder m
      → do_read_body D S
          (took s.pcount)
          (dangling s.pcount)
          h
          t
          order_kind
          s
          (order_bytes m ++ rest)
        ≡ read_header
            (on_order D S
              (took s.pcount)
              (simple_order ((dangling s.pcount h t).0) ((dangling s.pcount h t).1) m)
              s)
            rest
  unfolding do_read_body order_read
  order_read_lem h t m s rest ok =
      rw (async_read-append order_size (order_bytes m) rest refl, load_order-order_bytes m ok) refl

  trade_read_lem :
      (h : MktDataGlobalHeaderMsg) (t : ℕ) (m : MktDataTradeMsg) (s : Subscriber D S)
      (rest : List ℕ)
      → IsTrade m
      → do_read_body D S
          (took s.pcount)
          (dangling s.pcount)
          h
          t
          trade_kind
          s
          (trade_bytes m ++ rest)
        ≡ read_header
            (on_trade D S
              (took s.pcount)
              (simple_trade ((dangling s.pcount h t).0) ((dangling s.pcount h t).1) m)
              s)
            rest
  unfolding do_read_body trade_read
  trade_read_lem h t m s rest ok =
      rw (async_read-append trade_size (trade_bytes m) rest refl, load_trade-trade_bytes m ok) refl

  do_read_header-packet :
      (p : Packet) (s : Subscriber D S) (rest : List ℕ)
      → IsPacket p
      → do_read_header D S took dangling s (bytes_of p ++ rest) ≡ read_header (on_packet p s) rest
  do_read_header-packet (order_packet h t m) s rest (ok, lt, body, kind) =
      do_read_header_lem h t s (order_bytes m ++ rest) ok lt
      ∙ rw kind (order_read_lem h t m (record s { pcount = suc s.pcount }) rest body)
  do_read_header-packet (trade_packet h t m) s rest (ok, lt, body, kind) =
      do_read_header_lem h t s (trade_bytes m ++ rest) ok lt
      ∙ rw kind (trade_read_lem h t m (record s { pcount = suc s.pcount }) rest body)

  unfoldable pub after_next : ℕ → Next D S → Ended D S
  after_next n (read_header s rest) = read_all D S took dangling n s rest
  after_next n (closed s) = at_close s
  after_next n (idle s) = at_idle s

  pub read_all-next :
      (n : ℕ) (s : Subscriber D S) (bs : List ℕ)
      → read_all D S took dangling (suc n) s bs
        ≡ after_next n (do_read_header D S took dangling s bs)
  unfolding read_all after_next
  read_all-next n s bs = refl

  -- The bytes of some packets do what the packets do, and the reading goes on after them.
  pub read_all-bytes_of_all :
      (ps : List Packet) (k n : ℕ) (s : Subscriber D S) (rest : List ℕ)
      → All IsPacket ps
      → k ≡ length ps + n
      → read_all D S took dangling k s (bytes_of_all ps ++ rest)
        ≡ read_all D S took dangling n (on_packets ps s) rest
  unfolding after_next
  read_all-bytes_of_all [] k n s rest ok e = let same : k ≡ n = omega arith in rw same refl
  read_all-bytes_of_all (p ∷ ps) zero n s rest ok e = absurd (omega arith)
  read_all-bytes_of_all (p ∷ ps) (suc k) n s rest ok e =
      rw
        (
          append-append (bytes_of p) (bytes_of_all ps) rest,
          read_all-next k s (bytes_of p ++ (bytes_of_all ps ++ rest)),
          do_read_header-packet p s (bytes_of_all ps ++ rest) ok.0,
        )
        (read_all-bytes_of_all ps k n (on_packet p s) rest ok.1 (omega arith))
