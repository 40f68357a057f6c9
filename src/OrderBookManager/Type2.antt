-- ===== src/OrderBookManager/Type2.antt =====
-- `OrderBookManagerType2`: the books in a vector, and a hash map from tokens to positions in it. A
-- book's user data is a pointer that no operation reads, and is left out; the callback is a comment
-- in the code.
use order_book_sketch.Common.{
  ℕ, Bool, true, false, List, [], ◌∷◌, ◌++◌, length, get_elem?, set, Option, none, some, ◌==◌, ◌%◌,
  if◌then◌else◌,
}
use order_book_sketch.Dictionary.{Dictionary}
use order_book_sketch.Messages.{SimpleOrder, SimpleTrade}
use order_book_sketch.OrderBookType2.{Outcome, Book, process_order, process_trade}

-- `MAXSECURITIES`, `std::numeric_limits<int16_t>::max()`
abbrev pub max_securities : ℕ
max_securities = 32767

module _ (D : Dictionary SimpleOrder) (S : Dictionary ℕ) where
  pub record Manager : Type 0 where
    pub books : List (Book D)
    pub symbols : S.Map

  -- `OrderBookType2(_sizeHint)`
  abbrev pub new_book : Book D
  new_book = record { buy = []; sell = []; orders = D.empty }

  -- `OrderBookManagerType2(...)`
  abbrev pub new_manager : Manager
  new_manager = record { books = []; symbols = S.empty }

  -- `subscribe`: the position of the book it returns, or the exception. The position is stored in
  -- 16 bits.
  unfoldable pub subscribe : ℕ → Manager → Manager × Option ℕ
  subscribe token m = elim (S.find token m.symbols) [
    | some i ↦ (m, some i)
    | none ↦
        let index = length m.books in
        if index == max_securities then (m, none) else (
          record {
            books = m.books ++ (new_book ∷ []);
            symbols = (S.emplace token (index % 65536) m.symbols).0;
          },
          some index,
        )
  ]

  -- `init` with the tokens of the file; an exception of `subscribe` leaves it.
  unfoldable pub init : List ℕ → Manager → Manager × Bool
  init [] m = (m, true)
  init (token ∷ tokens) m =
      let (m', index) = subscribe token m in
      let rest = init tokens m' in elim index [ none ↦ (m', false) | some _ ↦ rest ]

  -- `addOrder`: the outcome of the book, or none for the exception on an unknown token
  unfoldable pub add_order : SimpleOrder → Manager → Manager × Option Outcome
  add_order o m = elim (S.find o.token_no m.symbols) [
    | none ↦ (m, none)
    | some i ↦ elim (get_elem? m.books i) [
      | none ↦ (m, none)
      | some b ↦
          let (b', r) = process_order D o b in (record m { books = set m.books i b' }, some r)
    ]
  ]

  -- `addTrade`: false for the exception on an unknown token
  unfoldable pub add_trade : SimpleTrade → Manager → Manager × Bool
  add_trade t m = elim (S.find t.token_no m.symbols) [
    | none ↦ (m, false)
    | some i ↦ elim (get_elem? m.books i) [
      | none ↦ (m, false)
      | some b ↦ let (b', _) = process_trade D t b in (record m { books = set m.books i b' }, true)
    ]
  ]
