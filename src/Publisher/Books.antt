-- ===== src/Publisher/Books.antt =====
-- From the file of the publisher to the books of the subscriber's manager.
use order_book_sketch.Common.{
  ℕ, suc, ℤ, pos, ◌<ℤ◌, true, false, List, [], ◌∷◌, length, ◌<◌, ◌≤◌, some, ◌≡◌, ◌≢◌, refl, arith,
  All, ap,
}
use order_book_sketch.Dictionary.{Dictionary}
use order_book_sketch.Messages.{MktDataGlobalHeaderMsg, SimpleOrder, simple_order}
use order_book_sketch.Packets.{Packet, order_packet, trade_packet}
use order_book_sketch.Packets.RoundTrip.{IsPacket}
use order_book_sketch.OrderGenerator.{OrderGenerator, new_generator, generated, generate}
use order_book_sketch.OrderGenerator.Messages.{
  Line, add_packets, IsFile, lines_of, generate-lines_of,
}
use order_book_sketch.OrderGenerator.Ordered.{find, IsAscending, first_of, messages_lem}
use order_book_sketch.Publisher.{IsPrompt, do_read}
use order_book_sketch.Publisher.Feed.{
  packets_of, writes_of, joined-writes_of, do_read-packets, All-messages,
}
use order_book_sketch.OrderBookType2.{Book}
use order_book_sketch.OrderBookType2.Refine.{Represents}
use order_book_sketch.OrderBookType2.Feed.{ledger_run, IsFeed}
use order_book_sketch.OrderBookManager.Type2.{max_securities}
use order_book_sketch.OrderBookManager.Routing.{book_of}
use order_book_sketch.OrderBookManager.Feed.{of_token, listed, HasTokens, AreKeys}
use order_book_sketch.Subscriber.{Dangling, Subscriber, new_subscriber, at_close, read_all}
use order_book_sketch.Subscriber.Session.{OrderMsg, packets, orders, read_all-Represents}

-- the orders among some packets
abbrev pub messages_of : List Packet → List OrderMsg
messages_of [] = []
messages_of (order_packet h t m ∷ ps) = (h, t, m) ∷ messages_of ps
messages_of (trade_packet h t m ∷ ps) = messages_of ps

-- No type that is read through a dangling reference is a modification's unless the packet's is.
abbrev pub KeepsModified : Dangling → Type 0
KeepsModified dangling =
    (n : ℕ) (h : MktDataGlobalHeaderMsg) (t : ℕ) → t ≢ b'M' → (dangling n h t).1 ≢ b'M'

module _ (D : Dictionary SimpleOrder) (S : Dictionary ℕ) where
  -- The packet of an order that is no modification, with an id and a token that the maps can hold and a
  -- positive quantity.
  abbrev pub IsOrderPacket : Packet → Type 0
  IsOrderPacket (order_packet h t m) =
      let o = simple_order h t m in
      IsPacket (order_packet h t m)
      × S.IsKey o.token_no
      × D.IsKey o.order_id
      × (o.msg_type ≢ b'M')
      × (pos 0 <ℤ o.qty)
  IsOrderPacket (trade_packet h t m) = ⊥

  IsOrderPacket-IsPacket : (p : Packet) → IsOrderPacket p → IsPacket p
  IsOrderPacket-IsPacket (order_packet h t m) ok = ok.0
  IsOrderPacket-IsPacket (trade_packet h t m) ok = absurd ok

  pub All-IsPacket : (ps : List Packet) → All IsOrderPacket ps → All IsPacket ps
  All-IsPacket [] ok = tt
  All-IsPacket (p ∷ ps) ok = (IsOrderPacket-IsPacket p ok.0, All-IsPacket ps ok.1)

  packets-messages_of : (ps : List Packet) → All IsOrderPacket ps → packets (messages_of ps) ≡ ps
  packets-messages_of [] ok = refl
  packets-messages_of (order_packet h t m ∷ ps) ok =
      ap (λ r. order_packet h t m ∷ r) (packets-messages_of ps ok.1)
  packets-messages_of (trade_packet h t m ∷ ps) ok = absurd (ok.0)

  length-messages_of :
      (ps : List Packet) → All IsOrderPacket ps → length (messages_of ps) ≡ length ps
  length-messages_of [] ok = refl
  length-messages_of (order_packet h t m ∷ ps) ok = ap suc (length-messages_of ps ok.1)
  length-messages_of (trade_packet h t m ∷ ps) ok = absurd (ok.0)

  messages_of-HasTokens :
      (dangling : Dangling) (n : ℕ) (ps : List Packet)
      → All IsOrderPacket ps
      → HasTokens D S (orders dangling n (messages_of ps))
  unfolding simple_order
  messages_of-HasTokens dangling n [] ok = tt
  messages_of-HasTokens dangling n (order_packet h t m ∷ ps) ok =
      (ok.0.1, messages_of-HasTokens dangling (suc n) ps ok.1)
  messages_of-HasTokens dangling n (trade_packet h t m ∷ ps) ok = absurd (ok.0)

  messages_of-IsFeed :
      (dangling : Dangling) (n : ℕ) (ps : List Packet)
      → KeepsModified dangling
      → All IsOrderPacket ps
      → IsFeed D (orders dangling n (messages_of ps))
  unfolding simple_order
  messages_of-IsFeed dangling n [] keeps ok = tt
  messages_of-IsFeed dangling n (order_packet h t m ∷ ps) keeps ok =
      (ok.0.2, keeps n h t ok.0.3, ok.0.4, messages_of-IsFeed dangling (suc n) ps keeps ok.1)
  messages_of-IsFeed dangling n (trade_packet h t m ∷ ps) keeps ok = absurd (ok.0)

  IsPacket-entries :
      (m : List (ℤ × Packet)) → All (λ e. IsOrderPacket e.1) m → All (λ e. IsPacket e.1) m
  IsPacket-entries [] h = tt
  IsPacket-entries ((k, p) ∷ m) h = (IsOrderPacket-IsPacket p h.0, IsPacket-entries m h.1)

  All-packets_of :
      (m : List (ℤ × Packet)) → All (λ e. IsOrderPacket e.1) m → All IsOrderPacket (packets_of m)
  All-packets_of [] h = tt
  All-packets_of ((k, p) ∷ m) h = (h.0, All-packets_of m h.1)

  module _ (took : ℕ → ℕ) (dangling : Dangling) where
    -- A publisher's file has the hexadecimal digits of the bytes of order packets, three lines for each,
    -- none of them a modification, with tokens and ids that the maps can hold and positive quantities.
    -- It is read without an exception, and its messages stand in the ascending order of their sequence
    -- numbers, under each number the first packet that has it. A subscriber for at most 32767 tokens
    -- reads what the publisher's socket, if it is prompt, then delivers until it is closed, and the book of
    -- each listed token exists afterwards and represents the resting orders that the token's messages
    -- leave in that order, with the headers and the types that the subscriber reads through its dangling
    -- references, if no type becomes a modification's there.
    pub published-Represents :
        (wire : List (List ℕ) → List ℕ) (ls : List (Line × Line × Line)) (ps : List Packet)
        (tokens : List ℕ) (n q : ℕ)
        → IsPrompt wire
        → KeepsModified dangling
        → IsFile ls ps
        → All IsOrderPacket ps
        → AreKeys D S tokens
        → length tokens ≤ max_securities
        → S.IsKey q
        → listed q tokens ≡ true
        → length (packets_of (add_packets ps new_generator).messages) < n
        → (g : OrderGenerator) × (writes : List (List ℕ)) × (s : Subscriber D S) × (s' : Subscriber
            D S)
          × (b : Book D) × (generate (lines_of ls) ≡ generated g)
          × IsAscending g.messages
          × ((k : ℤ) → find k g.messages ≡ first_of k ps)
          × (do_read false g.messages ≡ some writes)
          × (new_subscriber D S tokens ≡ some s)
          × (read_all D S took dangling n s (wire writes) ≡ at_close s')
          × (book_of D S q s'.manager ≡ some b)
          × Represents D b (
              ledger_run D
                (of_token q (orders dangling 1 (messages_of (packets_of g.messages))))
                [])
    published-Represents wire ls ps tokens n q prompt keeps file ok kt room kq on fuel =
        let g = add_packets ps new_generator in
        let sent = packets_of g.messages in
        let all = All-messages IsOrderPacket ps new_generator ok tt in
        let fits = All-packets_of g.messages all in
        let same = packets-messages_of sent fits in
        let (ascending, finds) = messages_lem ps in
        let packed : All IsPacket (packets (messages_of sent)) = rw same (All-IsPacket sent fits) in
        let (s, s', b, made, reads, there, represents) =
          read_all-Represents D S took dangling tokens (messages_of sent) n q kt room packed
            (messages_of-HasTokens dangling 1 sent fits)
            (messages_of-IsFeed dangling 1 sent keeps fits) kq on
            (omega (arith, length-messages_of sent fits, fuel)) in
        (
          g,
          writes_of sent,
          s,
          s',
          b,
          generate-lines_of ls ps file (All-IsPacket ps ok),
          ascending,
          finds,
          do_read-packets g.messages (IsPacket-entries g.messages all),
          made,
          rw (prompt (writes_of sent), joined-writes_of sent) (rw same at reads),
          there,
          represents,
        )
