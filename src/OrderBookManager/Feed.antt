-- ===== src/OrderBookManager/Feed.antt =====
-- A whole session of a manager: the tokens of its file, then a feed for all of them.
use mathlib.Core.Option
use order_book_sketch.Common.{
  ℕ, Bool, true, false, List, [], ◌∷◌, length, Option, none, some, ◌==◌, ◌≤◌, ◌+◌, if◌then◌else◌,
  ◌||◌, ◌≡◌, refl, arith, ◌∙◌, Bool-cases, Option-cases, inl, inr,
}
use order_book_sketch.Dictionary.{Dictionary}
use order_book_sketch.Messages.{SimpleOrder}
use order_book_sketch.OrderBookType2.{Book, process_order}
use order_book_sketch.FlatMap.Laws.{lookup}
use order_book_sketch.OrderBookType2.Ledger.{find_order, count_at, level_at}
use order_book_sketch.OrderBookType2.Refine.{Represents}
use order_book_sketch.OrderBookType2.Feed.{ledger_run, IsFeed, run-Represents}
use order_book_sketch.OrderBookType2.Feed
use order_book_sketch.OrderBookManager.Type2.{
  max_securities, Manager, new_book, new_manager, subscribe, init, add_order,
}
use order_book_sketch.OrderBookManager.Routing.{
  book_of, IsRouted, subscribe-IsRouted, subscribe-book_of, add_order-IsRouted, add_order-book_of,
}

-- the orders of one token
unfoldable pub of_token : ℕ → List SimpleOrder → List SimpleOrder
of_token token [] = []
of_token token (o ∷ feed) =
    if o.token_no == token then o ∷ of_token token feed else of_token token feed

unfoldable pub listed : ℕ → List ℕ → Bool
listed token [] = false
listed token (t ∷ ts) = t == token || listed token ts

module _ (D : Dictionary SimpleOrder) (S : Dictionary ℕ) where
  -- message after message; an exception is caught and the next message read
  unfoldable pub run_orders : List SimpleOrder → Manager D S → Manager D S
  run_orders [] m = m
  run_orders (o ∷ feed) m = run_orders feed (add_order D S o m).0

  abbrev pub HasTokens : List SimpleOrder → Type 0
  HasTokens [] = Unit
  HasTokens (o ∷ feed) = S.IsKey o.token_no × HasTokens feed

  abbrev pub AreKeys : List ℕ → Type 0
  AreKeys [] = Unit
  AreKeys (t ∷ ts) = S.IsKey t × AreKeys ts

  run_nothing : (r : Option (Book D)) → r ≡ Option.map (Feed.run D []) r
  unfolding Feed.run
  run_nothing none = refl
  run_nothing (some b) = refl

  run_after :
      (o : SimpleOrder) (feed : List SimpleOrder) (r : Option (Book D))
      → Option.map (Feed.run D feed) (Option.map (λ b. (process_order D o b).0) r)
        ≡ Option.map (Feed.run D (o ∷ feed)) r
  unfolding Feed.run
  run_after o feed none = refl
  run_after o feed (some b) = refl

  -- A feed for many tokens does to the book of each what the token's own messages do to it, in their
  -- order.
  pub run_orders-book_of :
      (feed : List SimpleOrder) (m : Manager D S) (q : ℕ)
      → IsRouted D S m
      → HasTokens feed
      → S.IsKey q
      → book_of D S q (run_orders feed m)
        ≡ Option.map (Feed.run D (of_token q feed)) (book_of D S q m)
  unfolding run_orders of_token Feed.run
  run_orders-book_of [] m q h k kq = run_nothing (book_of D S q m)
  run_orders-book_of (o ∷ feed) m q h k kq = elim (Bool-cases (o.token_no == q)) [
    | inl y ↦ rw y (
        run_orders-book_of feed (add_order D S o m).0 q (add_order-IsRouted D S m h o k.0) k.1 kq
        ∙ rw (add_order-book_of D S m h o k.0 q kq, y)
            (run_after o (of_token q feed) (book_of D S q m)))
    | inr n ↦ rw n (
        run_orders-book_of feed (add_order D S o m).0 q (add_order-IsRouted D S m h o k.0) k.1 kq
        ∙ rw (add_order-book_of D S m h o k.0 q kq, n))
  ]

  of_token-IsFeed : (q : ℕ) (feed : List SimpleOrder) → IsFeed D feed → IsFeed D (of_token q feed)
  unfolding of_token
  of_token-IsFeed q [] f = tt
  of_token-IsFeed q (o ∷ feed) f = elim (Bool-cases (o.token_no == q)) [
    | inl y ↦ rw y (f.0, f.1, f.2, of_token-IsFeed q feed f.3)
    | inr n ↦ rw n (of_token-IsFeed q feed f.3)
  ]

  listed_again :
      (t q : ℕ) (tokens : List ℕ) (r : Option (Book D))
      → (if listed q tokens
          then some (
              Option.get_or
                (if t == q then some (Option.get_or r (new_book D S)) else r)
                (new_book D S))
          else if t == q
          then some (Option.get_or r (new_book D S))
          else r)
        ≡ (if t == q || listed q tokens then some (Option.get_or r (new_book D S)) else r)
  listed_again t q tokens r = elim (Bool-cases (t == q)) [
    | inl y ↦ elim (Bool-cases (listed q tokens)) [ inl l ↦ rw (y, l) | inr l ↦ rw (y, l) ]
    | inr n ↦ rw n
  ]

  -- With room for all of them, `init` gives each token of the list a book and throws nothing.
  pub init-book_of :
      (tokens : List ℕ) (m : Manager D S)
      → IsRouted D S m
      → AreKeys tokens
      → length m.books + length tokens ≤ max_securities
      → ((init D S tokens m).1 ≡ true)
        × IsRouted D S (init D S tokens m).0
        × ((q : ℕ)
            → S.IsKey q
            → book_of D S q (init D S tokens m).0 ≡ (
                if listed q tokens
                then some (Option.get_or (book_of D S q m) (new_book D S))
                else book_of D S q m))
  unfolding init listed
  init-book_of [] m h k room = (refl, h, λ q kq. refl)
  init-book_of (t ∷ tokens) m h k room =
      let s = subscribe-book_of D S m h t k.0 (omega arith) in
      let r =
        init-book_of tokens (subscribe D S t m).0 (subscribe-IsRouted D S m h t k.0) k.1
          (omega (arith, s.1)) in
      elim (Option-cases (subscribe D S t m).1) [
        | inl e ↦ absurd (s.0 e)
        | inr (i, e) ↦
            rw (e, init)
              (
                r.0,
                r.1,
                λ q kq. r.2 q kq ∙ rw (s.2 q kq) (listed_again t q tokens (book_of D S q m)),
              )
      ]

  pub new_manager-IsRouted : IsRouted D S (new_manager D S)
  new_manager-IsRouted = record {
    valid = S.empty-IsValid;
    within = λ t i k e. cc (e, S.find-empty t k);
    apart = λ t u i kt ku e f. cc (e, S.find-empty t kt);
    size = omega arith;
  }

  new_manager-book_of : (q : ℕ) → S.IsKey q → book_of D S q (new_manager D S) ≡ none
  unfolding book_of
  new_manager-book_of q k = rw (S.find-empty q k, book_of)

  new_book-Represents : Represents D (new_book D S) []
  unfolding find_order lookup level_at count_at
  new_book-Represents = record {
    valid = D.empty-IsValid;
    ledger = tt;
    finds = λ id k. D.find-empty id k;
    buys = record { sorted = tt; levels = λ p. refl };
    sells = record { sorted = tt; levels = λ p. refl };
  }

  -- From `init` with at most 32767 tokens and through any feed of new orders and cancels for them,
  -- the book of each token represents the resting orders of the token's own messages.
  pub session-Represents :
      (tokens : List ℕ) (feed : List SimpleOrder) (q : ℕ)
      → AreKeys tokens
      → length tokens ≤ max_securities
      → HasTokens feed
      → IsFeed D feed
      → S.IsKey q
      → listed q tokens ≡ true
      → (b : Book D) × (book_of D S q (run_orders feed (init D S tokens (new_manager D S)).0)
          ≡ some b)
        × Represents D b (ledger_run D (of_token q feed) [])
  session-Represents tokens feed q kt room kf f kq on =
      let r = init-book_of tokens (new_manager D S) new_manager-IsRouted kt (omega (arith, room)) in
      let first : book_of D S q (init D S tokens (new_manager D S)).0 ≡ some (new_book D S) =
        r.2 q kq ∙ rw (on, new_manager-book_of q kq) in
      (
        Feed.run D (of_token q feed) (new_book D S),
        run_orders-book_of feed _ q r.1 kf kq ∙ rw first,
        run-Represents D (of_token q feed) _ [] new_book-Represents (of_token-IsFeed q feed f),
      )
