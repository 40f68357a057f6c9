-- ===== src/OrderBookManager/Routing.antt =====
-- A manager leads every token to a book of its own.
use mathlib.Core.Option
use order_book_sketch.Common.{
  ℕ, true, false, [], ◌∷◌, ◌++◌, length, get_elem?, set, Option, none, some, ◌==◌, ◌%◌, ◌<◌, ◌≤◌,
  if◌then◌else◌, ◌≡◌, ◌≢◌, ◌⊎◌, refl, arith, ◌∙◌, Bool-cases, Option-cases, inl, inr, length-set,
  length-append, get_elem?-set_self, get_elem?-set_ne, get_elem?-append_old, get_elem?-append_new,
  get_elem?-below, ==→eq, ◌+◌,
}
use order_book_sketch.Dictionary.{Dictionary}
use order_book_sketch.Messages.{SimpleOrder, SimpleTrade}
use order_book_sketch.OrderBookType2.{Book, process_order, process_trade}
use order_book_sketch.OrderBookManager.Type2.{
  max_securities, Manager, new_book, subscribe, add_order, add_trade,
}

module _ (D : Dictionary SimpleOrder) (S : Dictionary ℕ) where
  unfoldable pub book_of : ℕ → Manager D S → Option (Book D)
  book_of token m = elim (S.find token m.symbols) [ none ↦ none | some i ↦ get_elem? m.books i ]

  pub record IsRouted (m : Manager D S) : Type 0 where
    pub valid : S.IsValid m.symbols
    pub within : (t i : ℕ) → S.IsKey t → S.find t m.symbols ≡ some i → i < length m.books
    pub apart :
        (t u i : ℕ)
        → S.IsKey t
        → S.IsKey u
        → S.find t m.symbols ≡ some i
        → S.find u m.symbols ≡ some i
        → t ≡ u
    pub size : length m.books ≤ max_securities

  -- a write to the book of one token
  module _ (m : Manager D S) (h : IsRouted m) (t i : ℕ) (key : S.IsKey t)
      (found : S.find t m.symbols ≡ some i) (b : Book D) where
    pub set-IsRouted : IsRouted (record m { books = set m.books i b })
    set-IsRouted = record {
      valid = h.valid;
      within = λ u j ku e. rw length-set (h.within u j ku e);
      apart = h.apart;
      size = rw length-set h.size;
    }

    pub book_of-set :
        (q : ℕ)
        → S.IsKey q
        → book_of q (record m { books = set m.books i b })
          ≡ (if t == q then some b else book_of q m)
    unfolding book_of
    book_of-set q kq = elim (Bool-cases (t == q)) [
      | inl e ↦
          let (w, at) = get_elem?-below m.books i (h.within t i key found) in
          rw e (rw (← ==→eq t q e) (rw (found, book_of) (get_elem?-set_self m.books i b w at)))
      | inr n ↦ rw n (elim (Option-cases (S.find q m.symbols)) [
        | inl e ↦ rw (e, book_of)
        | inr (j, e) ↦
            rw (e, book_of)
              (get_elem?-set_ne m.books i j b
                (λ same. ground (arith, h.apart t q i key kq found (rw same e))))
      ])
    ]

  module _ (m : Manager D S) (h : IsRouted m) where
    -- where the manager leads a token
    place_of :
        (t : ℕ)
        → S.IsKey t
        → ((S.find t m.symbols ≡ none) × (book_of t m ≡ none))
          ⊎ ((i : ℕ) × (b : Book D) × (S.find t m.symbols ≡ some i)
              × (get_elem? m.books i ≡ some b)
              × (book_of t m ≡ some b))
    unfolding book_of
    place_of t key = elim (Option-cases (S.find t m.symbols)) [
      | inl e ↦ inl (e, rw (e, book_of))
      | inr (i, e) ↦
          let (b, at) = get_elem?-below m.books i (h.within t i key e) in
          inr (i, b, e, at, rw (e, book_of) at)
    ]

    on_token :
        (t q : ℕ) (r : Option (Book D))
        → book_of t m ≡ r
        → (f : Book D → Book D)
        → (if t == q then Option.map f r else book_of q m)
          ≡ (if t == q then Option.map f (book_of q m) else book_of q m)
    on_token t q r e f = elim (Bool-cases (t == q)) [
      | inl y ↦ rw y (rw (← ==→eq t q y) (rw e))
      | inr n ↦ rw n
    ]

    off_token :
        (t q : ℕ)
        → book_of t m ≡ none
        → (f : Book D → Book D)
        → book_of q m ≡ (if t == q then Option.map f (book_of q m) else book_of q m)
    off_token t q e f = elim (Bool-cases (t == q)) [
      | inl y ↦ rw y (rw (← ==→eq t q y) (rw e))
      | inr n ↦ rw n
    ]

    module _ (o : SimpleOrder) (key : S.IsKey o.token_no) where
      pub add_order-IsRouted : IsRouted (add_order D S o m).0
      unfolding add_order
      add_order-IsRouted = elim (place_of o.token_no key) [
        | inl (e, f) ↦ rw (e, add_order) h
        | inr (i, b, e, at, f) ↦
            rw (e, add_order) (rw (at, add_order) (set-IsRouted m h o.token_no i key e _))
      ]

      -- `addOrder` runs `processOrder` on the book of the order's token and changes no other.
      pub add_order-book_of :
          (q : ℕ)
          → S.IsKey q
          → book_of q (add_order D S o m).0 ≡ (
              if o.token_no == q
              then Option.map (λ b. (process_order D o b).0) (book_of q m)
              else book_of q m)
      unfolding add_order
      add_order-book_of q kq = elim (place_of o.token_no key) [
        | inl (e, f) ↦ rw (e, add_order) (off_token o.token_no q f (λ b. (process_order D o b).0))
        | inr (i, b, e, at, f) ↦
            rw (e, add_order)
              (rw (at, add_order)
                (book_of-set m h o.token_no i key e _ q kq
                  ∙ on_token o.token_no q (some b) f (λ b. (process_order D o b).0)))
      ]

    module _ (t : SimpleTrade) (key : S.IsKey t.token_no) where
      pub add_trade-IsRouted : IsRouted (add_trade D S t m).0
      unfolding add_trade
      add_trade-IsRouted = elim (place_of t.token_no key) [
        | inl (e, f) ↦ rw (e, add_trade) h
        | inr (i, b, e, at, f) ↦
            rw (e, add_trade) (rw (at, add_trade) (set-IsRouted m h t.token_no i key e _))
      ]

      -- `addTrade` runs `processTrade` on the book of the trade's token and changes no other.
      pub add_trade-book_of :
          (q : ℕ)
          → S.IsKey q
          → book_of q (add_trade D S t m).0 ≡ (
              if t.token_no == q
              then Option.map (λ b. (process_trade D t b).0) (book_of q m)
              else book_of q m)
      unfolding add_trade
      add_trade-book_of q kq = elim (place_of t.token_no key) [
        | inl (e, f) ↦ rw (e, add_trade) (off_token t.token_no q f (λ b. (process_trade D t b).0))
        | inr (i, b, e, at, f) ↦
            rw (e, add_trade)
              (rw (at, add_trade)
                (book_of-set m h t.token_no i key e _ q kq
                  ∙ on_token t.token_no q (some b) f (λ b. (process_trade D t b).0)))
      ]

    module _ (t : ℕ) (key : S.IsKey t) where
      first_book :
          (q : ℕ)
          → book_of t m ≡ none
          → (if t == q then some (new_book D S) else book_of q m)
            ≡ (if t == q then some (Option.get_or (book_of q m) (new_book D S)) else book_of q m)
      first_book q e = elim (Bool-cases (t == q)) [
        | inl y ↦ rw y (rw (← ==→eq t q y) (rw e))
        | inr n ↦ rw n
      ]

      kept :
          (q : ℕ) (b : Book D)
          → book_of t m ≡ some b
          → book_of q m
            ≡ (if t == q then some (Option.get_or (book_of q m) (new_book D S)) else book_of q m)
      kept q b e = elim (Bool-cases (t == q)) [
        | inl y ↦ rw y (rw (← ==→eq t q y) (rw e))
        | inr n ↦ rw n
      ]

      subscribe-known :
          (b : Book D)
          → book_of t m ≡ some b
          → ((subscribe D S t m).0 ≡ m) × ((subscribe D S t m).1 ≢ none)
      unfolding subscribe
      subscribe-known b has = elim (place_of t key) [
        | inl (e, f) ↦ cc
        | inr (i, b, e, at, f) ↦ rw (e, subscribe) (refl, λ x. cc)
      ]

      module _ (unknown : book_of t m ≡ none) where
        absent : S.find t m.symbols ≡ none
        absent = elim (place_of t key) [ inl (e, f) ↦ e | inr (i, b, e, at, f) ↦ cc ]

        subscribe-full : length m.books ≡ max_securities → subscribe D S t m ≡ (m, none)
        unfolding subscribe
        subscribe-full full =
            let yes : (length m.books == max_securities) ≡ true = ground (arith, full) in
            rw (absent, subscribe) (rw yes)

        module _ (room : length m.books < max_securities) where
          abbrev after : Manager D S
          after = record {
            books = m.books ++ (new_book D S ∷ []);
            symbols = (S.emplace t (length m.books) m.symbols).0;
          }

          subscribe_new : subscribe D S t m ≡ (after, some (length m.books))
          unfolding subscribe
          subscribe_new =
              let no : (length m.books == max_securities) ≡ false = ground arith in
              let small : length m.books % 65536 ≡ length m.books = omega arith in
              rw (absent, subscribe) (rw (no, small))

          find-after :
              (q : ℕ)
              → S.IsKey q
              → S.find q after.symbols
                ≡ (if t == q then some (length m.books) else S.find q m.symbols)
          find-after q kq = S.find-emplace_new t q (length m.books) m.symbols h.valid key kq absent

          after-book_of :
              (q : ℕ)
              → S.IsKey q
              → book_of q after ≡ (if t == q then some (new_book D S) else book_of q m)
          unfolding book_of
          after-book_of q kq = elim (Bool-cases (t == q)) [
            | inl y ↦
                let f : S.find q after.symbols ≡ some (length m.books) = find-after q kq ∙ rw y in
                rw y (rw (f, book_of) (get_elem?-append_new m.books (new_book D S)))
            | inr n ↦
                let f : S.find q after.symbols ≡ S.find q m.symbols = find-after q kq ∙ rw n in
                rw n (elim (Option-cases (S.find q m.symbols)) [
                  | inl e ↦ rw (f ∙ e, e, book_of)
                  | inr (j, e) ↦
                      rw (f ∙ e, e, book_of)
                        (get_elem?-append_old m.books (new_book D S ∷ []) j (h.within q j kq e))
                ])
          ]

          after-IsRouted : IsRouted after
          after-IsRouted = record {
            valid = S.emplace-IsValid t (length m.books) m.symbols h.valid key;
            within = λ u j ku e. ground (
              arith,
              e,
              length-append m.books (new_book D S ∷ []),
              h.within u j ku,
              find-after u ku,
            );
            apart = λ u v j ku kv e f. ground (
              arith,
              h.apart u v j ku kv,
              h.within u j ku,
              h.within v j kv,
              find-after u ku,
              find-after v kv,
            );
            size = omega (arith, length-append m.books (new_book D S ∷ []));
          }

      pub subscribe-IsRouted : IsRouted (subscribe D S t m).0
      subscribe-IsRouted = elim (Option-cases (book_of t m)) [
        | inl e ↦ elim (Bool-cases (length m.books == max_securities)) [
          | inl full ↦ rw (subscribe-full e (==→eq _ _ full)) h
          | inr room ↦
              let r : length m.books < max_securities = ground (arith, room, h.size) in
              rw (subscribe_new e r) (after-IsRouted e r)
        ]
        | inr (b, e) ↦ rw (subscribe-known b e).0 h
      ]

      -- With room for one more book, `subscribe` throws nothing, gives a token without a book an
      -- empty one, keeps every other book, and adds at most one.
      pub subscribe-book_of :
          length m.books < max_securities
          → ((subscribe D S t m).1 ≢ none)
            × (length (subscribe D S t m).0.books ≤ 1 + length m.books)
            × ((q : ℕ)
                → S.IsKey q
                → book_of q (subscribe D S t m).0 ≡ (
                    if t == q
                    then some (Option.get_or (book_of q m) (new_book D S))
                    else book_of q m))
      subscribe-book_of room = elim (Option-cases (book_of t m)) [
        | inl e ↦ rw (subscribe_new e room) (
          λ x. cc,
          omega (arith, length-append m.books (new_book D S ∷ [])),
          λ q kq. after-book_of e room q kq ∙ first_book q e,
        )
        | inr (b, e) ↦
            let known = subscribe-known b e in
            (known.1, rw known.0 (omega arith), λ q kq. rw known.0 (kept q b e))
      ]
