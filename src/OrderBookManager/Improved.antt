-- ===== src/OrderBookManager/Improved.antt =====
-- `OrderBookManagerImproved` of OrderBookStore/include/OrderBookManager.hpp: a map from tokens to books.
use mathlib.Core.Option
use order_book_sketch.Common.{
  ℕ, Bool, true, false, ◌||◌, List, [], ◌∷◌, Option, none, some, ◌==◌, if◌then◌else◌, ◌≡◌, refl,
  arith, ◌∙◌, Bool-cases, Option-cases, inl, inr, ==→eq,
}
use order_book_sketch.Dictionary.Assoc
use order_book_sketch.Messages.{SimpleOrder, SimpleTrade}
use order_book_sketch.OrderBookImproved.{Book, Outcome, process_order, process_trade}
use order_book_sketch.OrderBookManager.Feed.{listed}

abbrev pub Manager : Type 0
Manager = List (ℕ × Book)

-- `OrderBookImproved(token)`
abbrev pub new_improved : Book
new_improved = record {
  bids = record { nodes = []; hash = []; next = 0 };
  asks = record { nodes = []; hash = []; next = 0 };
}

-- `init` with the tokens of the file: `emplace` keeps a book that is there.
unfoldable pub init : List ℕ → Manager → Manager
init [] m = m
init (token ∷ tokens) m = let (m', _, _) = Assoc.emplace token new_improved m in init tokens m'

-- what a call on `it->second` leaves in the map
unfoldable pub write_back : ℕ → Book → Manager → Manager
write_back token b [] = []
write_back token b ((t, c) ∷ m) = if t == token then (t, b) ∷ m else (t, c) ∷ write_back token b m

-- `addOrder`: what the book's call gives, or none for the exception on an unknown token
unfoldable pub add_order : SimpleOrder → Manager → Manager × Option Outcome
add_order o m = elim (Assoc.find o.token_no m) [
  | none ↦ (m, none)
  | some b ↦ let (b', r) = process_order o b in (write_back o.token_no b' m, some r)
]

-- `addTrade`, likewise
unfoldable pub add_trade : SimpleTrade → Manager → Manager × Option Outcome
add_trade t m = elim (Assoc.find t.token_no m) [
  | none ↦ (m, none)
  | some b ↦ let (b', r) = process_trade t b in (write_back t.token_no b' m, some r)
]

find-write_back :
    (t q : ℕ) (b c : Book) (m : Manager)
    → Assoc.find t m ≡ some c
    → Assoc.find q (write_back t b m) ≡ (if t == q then some b else Assoc.find q m)
unfolding Assoc.find write_back
find-write_back t q b c [] h = cc
find-write_back t q b c ((u, d) ∷ m) h = ground (arith, find-write_back t q b c m)

-- a call on the book of one token, seen from any other
on_book :
    (t q : ℕ) (m : Manager) (b : Book) (f : Book → Book)
    → Assoc.find t m ≡ some b
    → Assoc.find q (write_back t (f b) m)
      ≡ (if t == q then Option.map f (Assoc.find q m) else Assoc.find q m)
on_book t q m b f e =
    find-write_back t q (f b) b m e
    ∙ elim (Bool-cases (t == q)) [ inl y ↦ rw y (rw (← ==→eq t q y) (rw e)) | inr n ↦ rw n ]

no_book :
    (t q : ℕ) (m : Manager) (f : Book → Book)
    → Assoc.find t m ≡ none
    → Assoc.find q m ≡ (if t == q then Option.map f (Assoc.find q m) else Assoc.find q m)
no_book t q m f e = elim (Bool-cases (t == q)) [
  | inl y ↦ rw y (rw (← ==→eq t q y) (rw e))
  | inr n ↦ rw n
]

order_on_book :
    (o : SimpleOrder) (m : Manager) (q : ℕ)
    → (Assoc.find q (add_order o m).0 ≡ (
        if o.token_no == q
        then Option.map (λ b. (process_order o b).0) (Assoc.find q m)
        else Assoc.find q m))
      × ((add_order o m).1 ≡ Option.map (λ b. (process_order o b).1) (Assoc.find o.token_no m))
unfolding add_order
order_on_book o m q = elim (Option-cases (Assoc.find o.token_no m)) [
  | inl e ↦ rw (e, add_order) (no_book o.token_no q m (λ b. (process_order o b).0) e, refl)
  | inr (b, e) ↦ rw (e, add_order) (on_book o.token_no q m b (λ c. (process_order o c).0) e, refl)
]

trade_on_book :
    (t : SimpleTrade) (m : Manager) (q : ℕ)
    → (Assoc.find q (add_trade t m).0 ≡ (
        if t.token_no == q
        then Option.map (λ b. (process_trade t b).0) (Assoc.find q m)
        else Assoc.find q m))
      × ((add_trade t m).1 ≡ Option.map (λ b. (process_trade t b).1) (Assoc.find t.token_no m))
unfolding add_trade
trade_on_book t m q = elim (Option-cases (Assoc.find t.token_no m)) [
  | inl e ↦ rw (e, add_trade) (no_book t.token_no q m (λ b. (process_trade t b).0) e, refl)
  | inr (b, e) ↦ rw (e, add_trade) (on_book t.token_no q m b (λ c. (process_trade t c).0) e, refl)
]

-- `addOrder` runs `processOrder` on the book of the order's token, `addTrade` runs `processTrade` on
-- that of the trade's; each gives what the book's call gives, throws on an unknown token, and changes
-- the book of no other token.
pub calls_on_books :
    (o : SimpleOrder) (t : SimpleTrade) (m : Manager) (q : ℕ)
    → ((Assoc.find q (add_order o m).0 ≡ (
          if o.token_no == q
          then Option.map (λ b. (process_order o b).0) (Assoc.find q m)
          else Assoc.find q m))
        × ((add_order o m).1 ≡ Option.map (λ b. (process_order o b).1) (Assoc.find o.token_no m)))
      × (Assoc.find q (add_trade t m).0 ≡ (
          if t.token_no == q
          then Option.map (λ b. (process_trade t b).0) (Assoc.find q m)
          else Assoc.find q m))
      × ((add_trade t m).1 ≡ Option.map (λ b. (process_trade t b).1) (Assoc.find t.token_no m))
calls_on_books o t m q = let r = trade_on_book t m q in (order_on_book o m q, r.0, r.1)

find-emplace :
    (t q : ℕ) (m : Manager)
    → Assoc.find q (Assoc.emplace t new_improved m).0
      ≡ (if t == q then some (Option.get_or (Assoc.find q m) new_improved) else Assoc.find q m)
find-emplace t q m = elim (Option-cases (Assoc.find t m)) [
  | inl e ↦ rw (Assoc.emplace_new t new_improved m e) (
      Assoc.find-cons t q new_improved m
      ∙ elim (Bool-cases (t == q)) [ inl y ↦ rw y (rw (← ==→eq t q y) (rw e)) | inr n ↦ rw n ])
  | inr (b, e) ↦
      rw (Assoc.emplace_old t new_improved b m e)
        (elim (Bool-cases (t == q)) [ inl y ↦ rw y (rw (← ==→eq t q y) (rw e)) | inr n ↦ rw n ])
]

listed_twice :
    (l t : Bool) (r : Option Book)
    → (if l
        then some
            (Option.get_or (if t then some (Option.get_or r new_improved) else r) new_improved)
        else if t
        then some (Option.get_or r new_improved)
        else r)
      ≡ (if t || l then some (Option.get_or r new_improved) else r)
listed_twice true true r = refl
listed_twice true false r = refl
listed_twice false true r = refl
listed_twice false false r = refl

-- `init` gives every listed token a book, a new one where it had none, and keeps every other.
pub find-init :
    (tokens : List ℕ) (m : Manager) (q : ℕ)
    → Assoc.find q (init tokens m) ≡ (
        if listed q tokens
        then some (Option.get_or (Assoc.find q m) new_improved)
        else Assoc.find q m)
unfolding init listed
find-init [] m q = refl
find-init (t ∷ tokens) m q =
    find-init tokens (Assoc.emplace t new_improved m).0 q
    ∙ rw find-emplace (listed_twice (listed q tokens) (t == q) (Assoc.find q m))
