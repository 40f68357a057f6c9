-- ===== src/Subscriber/Session.antt =====
-- From the bytes of the feed to the books: the subscriber and the manager together.
use order_book_sketch.Packets.{Packet, order_packet}
use order_book_sketch.Packets.RoundTrip.{IsPacket, bytes_of_all}
use order_book_sketch.Common.{
  ℕ, suc, true, List, [], ◌∷◌, some, length, ◌<◌, ◌≤◌, ◌≡◌, refl, arith, ◌∙◌, ap, All, append-nil,
}
use order_book_sketch.Dictionary.{Dictionary}
use order_book_sketch.Messages.{MktDataGlobalHeaderMsg, MktDataOrderMsg, SimpleOrder, simple_order}
use order_book_sketch.OrderBookType2.{Book}
use order_book_sketch.OrderBookType2.Refine.{Represents}
use order_book_sketch.OrderBookType2.Feed.{ledger_run, IsFeed}
use order_book_sketch.OrderBookManager.Type2.{max_securities, new_manager, init}
use order_book_sketch.OrderBookManager.Routing.{book_of}
use order_book_sketch.OrderBookManager.Feed.{
  of_token, listed, run_orders, HasTokens, AreKeys, session-Represents, init-book_of,
  new_manager-IsRouted,
}
use order_book_sketch.LatencyChecker.{new_latency}
use order_book_sketch.Subscriber.{
  Dangling, Subscriber, new_subscriber, on_order, at_close, read_all,
}
use order_book_sketch.Subscriber.Bytes.{on_packet, on_packets}
use order_book_sketch.Subscriber.Ends.{read_all_cut}

-- an order message with its header and its type
abbrev pub OrderMsg : Type 0
OrderMsg = MktDataGlobalHeaderMsg × ℕ × MktDataOrderMsg

abbrev pub packets : List OrderMsg → List Packet
packets [] = []
packets ((h, t, m) ∷ ms) = order_packet h t m ∷ packets ms

-- the orders that the subscriber makes of them, with the header and the type that it reads for each: the
-- packets count from the number given
abbrev pub orders : Dangling → ℕ → List OrderMsg → List SimpleOrder
orders dangling n [] = []
orders dangling n ((h, t, m) ∷ ms) =
    simple_order ((dangling n h t).0) ((dangling n h t).1) m ∷ orders dangling (suc n) ms

length-packets : (ms : List OrderMsg) → length (packets ms) ≡ length ms
length-packets [] = refl
length-packets ((h, t, m) ∷ ms) = ap suc (length-packets ms)

module _ (D : Dictionary SimpleOrder) (S : Dictionary ℕ) (took : ℕ → ℕ) (dangling : Dangling) where
  manager-on_packets :
      (ms : List OrderMsg) (s : Subscriber D S)
      → (on_packets D S took dangling (packets ms) s).manager
        ≡ run_orders D S (orders dangling (suc s.pcount) ms) s.manager
  unfolding run_orders on_order
  manager-on_packets [] s = refl
  manager-on_packets ((h, t, m) ∷ ms) s =
      manager-on_packets ms (on_packet D S took dangling (order_packet h t m) s)

  -- A subscriber for at most 32767 tokens that the map can hold, whose socket delivers the bytes of
  -- order packets, for such tokens, with ids that the order maps can hold and positive quantities, and is
  -- then closed: it reads them all. Whatever headers and types it reads through its dangling references,
  -- none of these types a modification's, the book of each listed token exists afterwards and represents
  -- the resting orders that the orders made of these headers and types and of the token's own bodies
  -- leave.
  pub read_all-Represents :
      (tokens : List ℕ) (ms : List OrderMsg) (n q : ℕ)
      → AreKeys D S tokens
      → length tokens ≤ max_securities
      → All IsPacket (packets ms)
      → HasTokens D S (orders dangling 1 ms)
      → IsFeed D (orders dangling 1 ms)
      → S.IsKey q
      → listed q tokens ≡ true
      → length ms < n
      → (s : Subscriber D S) × (s' : Subscriber D S) × (b : Book D) × (new_subscriber D S tokens
          ≡ some s)
        × (read_all D S took dangling n s (bytes_of_all (packets ms)) ≡ at_close s')
        × (book_of D S q s'.manager ≡ some b)
        × Represents D b (ledger_run D (of_token q (orders dangling 1 ms)) [])
  read_all-Represents tokens ms n q kt room ok kf f kq on fuel =
      let m = (init D S tokens (new_manager D S)).0 in
      let s : Subscriber D S = record { manager = m; pcount = 0; latency = new_latency } in
      let started =
        init-book_of D S tokens (new_manager D S) (new_manager-IsRouted D S) kt
          (omega (arith, room)) in
      let (b, there, represents) =
        session-Represents D S tokens (orders dangling 1 ms) q kt room kf f kq on in
      let s' = on_packets D S took dangling (packets ms) s in
      let ends =
        read_all_cut D S took dangling (packets ms) n s [] ok (omega arith)
          (omega (arith, length-packets ms, fuel)) in
      (
        s,
        s',
        b,
        rw (started.0) refl,
        rw⁻¹ (append-nil (bytes_of_all (packets ms))) ends,
        ap (λ x. book_of D S q x) (manager-on_packets ms s) ∙ there,
        represents,
      )
