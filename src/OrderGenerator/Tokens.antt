-- ===== src/OrderGenerator/Tokens.antt =====
-- The tokens of a file: each packet's token is among them.
use order_book_sketch.Common.{
  ℕ, ℤ, ltb_ℤ, ◌==ℤ◌, ◌==◌, ◌^◌, ◌<◌, true, List, [], ◌∷◌, ◌≡◌, refl, arith, All, ==_refl,
  Bool-cases, inl, inr,
}
use order_book_sketch.Packets.{Packet, order_packet, trade_packet, int_of}
use order_book_sketch.Packets.RoundTrip.{IsPacket}
use order_book_sketch.OrderGenerator.{
  emplace, OrderGenerator, new_generator, add_order, add_trade, values_of, get_tokens,
}
use order_book_sketch.OrderGenerator.Messages.{add_packet, add_packets}
use order_book_sketch.OrderGenerator.Ordered.{All-emplace}
use order_book_sketch.OrderBookManager.Feed.{listed}

abbrev pub token_of : Packet → ℕ
token_of (order_packet h t m) = m.token_no
token_of (trade_packet h t m) = m.token_no

abbrev pub tokens_of : List Packet → List ℕ
tokens_of [] = []
tokens_of (p ∷ ps) = token_of p ∷ tokens_of ps

-- Each token stands under its own number.
abbrev IsOwn : ℤ × ℕ → Type 0
IsOwn (k, v) = (k ≡ int_of v) × (v < 2 ^ 32)

int_of-injective : (a b : ℕ) → a < 2 ^ 32 → b < 2 ^ 32 → (int_of a ==ℤ int_of b) ≡ true → a ≡ b
int_of-injective a b la lb e = ground (arith, la, lb, e)

listed-emplace_old :
    (q : ℕ) (k : ℤ) (v : ℕ) (m : List (ℤ × ℕ))
    → listed q (values_of m) ≡ true
    → listed q (values_of (emplace k v m)) ≡ true
unfolding emplace listed
listed-emplace_old q k v [] h = absurd (cc)
listed-emplace_old q k v ((j, w) ∷ m) h = elim (Bool-cases (ltb_ℤ k j)) [
  | inl less ↦ elim (Bool-cases (v == q)) [ inl y ↦ rw (less, y) refl | inr n ↦ rw (less, n) h ]
  | inr more ↦ elim (Bool-cases (k ==ℤ j)) [
    | inl same ↦ rw (more, same) h
    | inr apart ↦ elim (Bool-cases (w == q)) [
      | inl y ↦ rw (more, apart, y) refl
      | inr n ↦
          let rest : listed q (values_of m) ≡ true = rw n at h in
          rw (more, apart, n) (listed-emplace_old q k v m rest)
    ]
  ]
]

listed-emplace_new :
    (v : ℕ) (m : List (ℤ × ℕ))
    → v < 2 ^ 32
    → All IsOwn m
    → listed v (values_of (emplace (int_of v) v m)) ≡ true
unfolding emplace listed
listed-emplace_new v [] lt h = rw (==_refl v) refl
listed-emplace_new v ((j, w) ∷ m) lt h = elim (Bool-cases (ltb_ℤ (int_of v) j)) [
  | inl less ↦ rw (less, ==_refl v) refl
  | inr more ↦ elim (Bool-cases (int_of v ==ℤ j)) [
    | inl same ↦
        let equal : (int_of v ==ℤ int_of w) ≡ true = rw (h.0.0) at same in
        let one : v ≡ w = int_of-injective v w lt h.0.1 equal in
        let found : (w == v) ≡ true = ground (arith, one) in rw (more, same, found) refl
    | inr apart ↦ elim (Bool-cases (w == v)) [
      | inl y ↦ rw (more, apart, y) refl
      | inr n ↦ rw (more, apart, n) (listed-emplace_new v m lt h.1)
    ]
  ]
]

tokens-add_packet :
    (p : Packet) (g : OrderGenerator)
    → (add_packet p g).tokens ≡ emplace (int_of (token_of p)) (token_of p) g.tokens
unfolding add_order add_trade
tokens-add_packet (order_packet h t m) g = refl
tokens-add_packet (trade_packet h t m) g = refl

All-values_of : (P : ℕ → Type 0) (m : List (ℤ × ℕ)) → All (λ e. P e.1) m → All P (values_of m)
All-values_of P [] h = tt
All-values_of P ((k, v) ∷ m) h = (h.0, All-values_of P m h.1)

All-entries : (P : ℕ → Type 0) (m : List (ℤ × ℕ)) → All P (values_of m) → All (λ e. P e.1) m
All-entries P [] h = tt
All-entries P ((k, v) ∷ m) h = (h.0, All-entries P m h.1)

IsPacket-token : (p : Packet) → IsPacket p → token_of p < 2 ^ 32
IsPacket-token (order_packet h t m) ok = omega (arith, ok.2)
IsPacket-token (trade_packet h t m) ok = omega (arith, ok.2)

listed-add_packets :
    (q : ℕ) (ps : List Packet) (g : OrderGenerator)
    → listed q (get_tokens g) ≡ true
    → listed q (get_tokens (add_packets ps g)) ≡ true
listed-add_packets q [] g h = h
listed-add_packets q (p ∷ ps) g h = listed-add_packets q ps (add_packet p g) (
    rw (tokens-add_packet p g) (listed-emplace_old q (int_of (token_of p)) (token_of p) g.tokens h))

listed-tokens_of :
    (q : ℕ) (ps : List Packet) (g : OrderGenerator)
    → All IsPacket ps
    → All IsOwn g.tokens
    → listed q (tokens_of ps) ≡ true
    → listed q (get_tokens (add_packets ps g)) ≡ true
unfolding listed
listed-tokens_of q [] g ok own h = absurd (cc)
listed-tokens_of q (p ∷ ps) g ok own h =
    let small = IsPacket-token p ok.0 in
    elim (Bool-cases (token_of p == q)) [
      | inl y ↦
          let same : token_of p ≡ q = ground (arith, y) in
          let here : listed (token_of p) (get_tokens (add_packet p g)) ≡ true =
            rw (tokens-add_packet p g) (listed-emplace_new (token_of p) g.tokens small own) in
          listed-add_packets q ps (add_packet p g) (rw same at here)
      | inr n ↦
          let rest : listed q (tokens_of ps) ≡ true = rw n at h in
          listed-tokens_of q ps (add_packet p g) ok.1
            (rw (tokens-add_packet p g)
              (All-emplace IsOwn (int_of (token_of p)) (token_of p) g.tokens (refl, small) own))
            rest
    ]

-- Every token of a packet that is read is among the generator's tokens.
pub get_tokens-listed :
    (q : ℕ) (ps : List Packet)
    → All IsPacket ps
    → listed q (tokens_of ps) ≡ true
    → listed q (get_tokens (add_packets ps new_generator)) ≡ true
get_tokens-listed q ps ok h = listed-tokens_of q ps new_generator ok tt h

-- What holds for the tokens of the packets holds for the generator's tokens.
pub All-get_tokens :
    (P : ℕ → Type 0) (ps : List Packet) (g : OrderGenerator)
    → All (λ p. P (token_of p)) ps
    → All P (get_tokens g)
    → All P (get_tokens (add_packets ps g))
All-get_tokens P [] g ok h = h
All-get_tokens P (p ∷ ps) g ok h = All-get_tokens P ps (add_packet p g) ok.1 (
    rw (tokens-add_packet p g) (
      All-values_of P (emplace (int_of (token_of p)) (token_of p) g.tokens) (
        All-emplace (λ e. P e.1) (int_of (token_of p)) (token_of p) g.tokens ok.0
          (All-entries P g.tokens h))))
