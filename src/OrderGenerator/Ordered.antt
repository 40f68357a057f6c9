-- ===== src/OrderGenerator/Ordered.antt =====
-- The map of the messages: in the order of the sequence numbers, the first of each number.
use order_book_sketch.Common.{
  ℤ, ltb_ℤ, ◌==ℤ◌, ◌<ℤ◌, Bool, true, false, List, [], ◌∷◌, Option, none, some, if◌then◌else◌, ◌≡◌,
  refl, arith, All, sym, ◌∙◌, ap, Bool-cases, inl, inr,
}
use order_book_sketch.Packets.{Packet, order_packet, trade_packet, int_of}
use order_book_sketch.OrderGenerator.{emplace, OrderGenerator, new_generator, add_order, add_trade}
use order_book_sketch.OrderGenerator.Messages.{add_packet, add_packets}

module _ {V : Type 0} where
  abbrev pub find : ℤ → List (ℤ × V) → Option V
  find q [] = none
  find q ((k, v) ∷ m) = if k ==ℤ q then some v else find q m

  abbrev pub IsAscending : List (ℤ × V) → Type 0
  IsAscending [] = Unit
  IsAscending ((k, v) ∷ m) = All (λ e. k <ℤ e.0) m × IsAscending m

  -- what a key leads to once a value is offered for another
  abbrev pub pick : Bool → V → Option V → Option V
  pick false v o = o
  pick true v none = some v
  pick true v (some w) = some w

  pick-some : (b : Bool) (v w : V) → pick b v (some w) ≡ some w
  pick-some false v w = refl
  pick-some true v w = refl

  find_below : (q j : ℤ) (m : List (ℤ × V)) → q <ℤ j → All (λ e. j <ℤ e.0) m → find q m ≡ none
  find_below q j [] lt h = refl
  find_below q j ((k, v) ∷ m) lt h =
      let other : (k ==ℤ q) ≡ false = ground (arith, lt, h.0) in rw other (find_below q j m lt h.1)

  pub find-emplace :
      (q k : ℤ) (v : V) (m : List (ℤ × V))
      → IsAscending m
      → find q (emplace k v m) ≡ pick (k ==ℤ q) v (find q m)
  unfolding emplace
  find-emplace q k v [] h = elim (Bool-cases (k ==ℤ q)) [ inl y ↦ rw y refl | inr n ↦ rw n refl ]
  find-emplace q k v ((j, w) ∷ m) h = elim (Bool-cases (ltb_ℤ k j)) [
    | inl less ↦ elim (Bool-cases (k ==ℤ q)) [
      | inl y ↦
          let none_here : (j ==ℤ q) ≡ false = ground (arith, less, y) in
          let none_there : find q m ≡ none = find_below q j m (ground (arith, less, y)) h.0 in
          rw (less, y, none_here, none_there) refl
      | inr n ↦ rw (less, n) refl
    ]
    | inr more ↦ elim (Bool-cases (k ==ℤ j)) [
      | inl same ↦ elim (Bool-cases (j ==ℤ q)) [
        | inl y ↦ rw (more, same, y) (sym (pick-some (k ==ℤ q) v w))
        | inr n ↦
            let other : (k ==ℤ q) ≡ false = ground (arith, same, n) in
            rw (more, same, n, other) refl
      ]
      | inr apart ↦ elim (Bool-cases (j ==ℤ q)) [
        | inl y ↦ rw (more, apart, y) (sym (pick-some (k ==ℤ q) v w))
        | inr n ↦ rw (more, apart, n) (find-emplace q k v m h.1)
      ]
    ]
  ]

  pub All-emplace :
      (P : ℤ × V → Type 0) (k : ℤ) (v : V) (m : List (ℤ × V))
      → P (k, v)
      → All P m
      → All P (emplace k v m)
  unfolding emplace
  All-emplace P k v [] p h = (p, tt)
  All-emplace P k v ((j, w) ∷ m) p h = elim (Bool-cases (ltb_ℤ k j)) [
    | inl less ↦ rw less (p, h)
    | inr more ↦ elim (Bool-cases (k ==ℤ j)) [
      | inl same ↦ rw (more, same) h
      | inr apart ↦ rw (more, apart) (h.0, All-emplace P k v m p h.1)
    ]
  ]

  All-above : (k j : ℤ) (m : List (ℤ × V)) → k <ℤ j → All (λ e. j <ℤ e.0) m → All (λ e. k <ℤ e.0) m
  All-above k j [] lt h = tt
  All-above k j (e ∷ m) lt h = (omega (arith, lt, h.0), All-above k j m lt h.1)

  pub emplace-IsAscending :
      (k : ℤ) (v : V) (m : List (ℤ × V)) → IsAscending m → IsAscending (emplace k v m)
  unfolding emplace
  emplace-IsAscending k v [] h = (tt, tt)
  emplace-IsAscending k v ((j, w) ∷ m) h = elim (Bool-cases (ltb_ℤ k j)) [
    | inl less ↦ let lt : k <ℤ j = ground (arith, less) in rw less ((lt, All-above k j m lt h.0), h)
    | inr more ↦ elim (Bool-cases (k ==ℤ j)) [
      | inl same ↦ rw (more, same) h
      | inr apart ↦
          let lt : j <ℤ k = ground (arith, more, apart) in
          rw (more, apart) (All-emplace (λ e. j <ℤ e.0) k v m lt h.0, emplace-IsAscending k v m h.1)
    ]
  ]

abbrev pub seq_of : Packet → ℤ
seq_of (order_packet h t m) = int_of h.seq_no
seq_of (trade_packet h t m) = int_of h.seq_no

abbrev pub first_of : ℤ → List Packet → Option Packet
first_of q [] = none
first_of q (p ∷ ps) = if seq_of p ==ℤ q then some p else first_of q ps

-- The messages of the generator after one more packet.
pub messages-add_packet :
    (p : Packet) (g : OrderGenerator) → (add_packet p g).messages ≡ emplace (seq_of p) p g.messages
unfolding add_order add_trade
messages-add_packet (order_packet h t m) g = refl
messages-add_packet (trade_packet h t m) g = refl

abbrev or_else : Option Packet → Option Packet → Option Packet
or_else none o = o
or_else (some p) o = some p

pick_first :
    (q : ℤ) (p : Packet) (ps : List Packet) (o : Option Packet)
    → or_else (pick (seq_of p ==ℤ q) p o) (first_of q ps) ≡ or_else o (first_of q (p ∷ ps))
pick_first q p ps none = elim (Bool-cases (seq_of p ==ℤ q)) [
  | inl y ↦ rw y refl
  | inr n ↦ rw n refl
]
pick_first q p ps (some w) = elim (Bool-cases (seq_of p ==ℤ q)) [
  | inl y ↦ rw y refl
  | inr n ↦ rw n refl
]

or_else-none : (o : Option Packet) → o ≡ or_else o none
or_else-none none = refl
or_else-none (some p) = refl

messages-add_packets :
    (ps : List Packet) (g : OrderGenerator)
    → IsAscending g.messages
    → IsAscending (add_packets ps g).messages
      × ((q : ℤ) → find q (add_packets ps g).messages ≡ or_else (find q g.messages) (first_of q ps))
messages-add_packets [] g h = (h, λ q. or_else-none (find q g.messages))
messages-add_packets (p ∷ ps) g h =
    let more : IsAscending (add_packet p g).messages =
      rw (messages-add_packet p g) (emplace-IsAscending (seq_of p) p g.messages h) in
    let (ascending, finds) = messages-add_packets ps (add_packet p g) more in
    (
      ascending,
      λ q.
          finds q
          ∙ ap (λ m. or_else (find q m) (first_of q ps)) (messages-add_packet p g)
          ∙ ap (λ o. or_else o (first_of q ps)) (find-emplace q (seq_of p) p g.messages h)
          ∙ pick_first q p ps (find q g.messages),
    )

-- The messages read from packets stand in the ascending order of their sequence numbers, and under each
-- number there is the first packet that has it.
pub messages_lem :
    (ps : List Packet)
    → let m = (add_packets ps new_generator).messages in
      IsAscending m × ((q : ℤ) → find q m ≡ first_of q ps)
messages_lem ps = messages-add_packets ps new_generator tt
