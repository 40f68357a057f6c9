-- ===== src/Subscriber.antt =====
-- OrderBookStore/include/Subscriber.hpp: the loop that reads packets from the socket and gives each to
-- the manager of the books. What the socket will deliver until it is closed is a list of bytes, and
-- `async_read` of a number of bytes completes with these, or with an error if fewer are left. The
-- lambdas of `doReadBody` hold references to its parameters, which are gone when the read completes:
-- what such a lambda reads through them, as the header and the type of the n-th packet, is an argument,
-- with what the parameters pointed to. The time that each packet took is an argument. Printing and
-- logging are left out.
pub mod Bytes
pub mod Ends
pub mod Session
use order_book_sketch.Common.{
  ℕ, zero, suc, Bool, true, false, List, [], ◌∷◌, Option, none, some, ltb, ◌==◌, ◌||◌, ◌+◌, length,
  take, drop, if◌then◌else◌,
}
use order_book_sketch.Dictionary.{Dictionary}
use order_book_sketch.Messages.{
  MktDataGlobalHeaderMsg, SimpleOrder, SimpleTrade, simple_order, simple_trade,
}
use order_book_sketch.Packets.{
  header_size, order_size, trade_size, load_header, load_type, load_order, load_trade, Kind,
  order_kind, trade_kind, unknown_kind, kind_of,
}
use order_book_sketch.OrderBookManager.Type2.{Manager, new_manager, init, add_order, add_trade}
use order_book_sketch.OrderGenerator.{
  Generated, generated, unsupported, out_of_bounds, generate, get_tokens,
}
use order_book_sketch.LatencyChecker.{Latency, new_latency, record_latency}

-- `async_read` of `n` bytes: these and what is still to come, or an error
unfoldable pub async_read : ℕ → List ℕ → Option (List ℕ × List ℕ)
async_read n bs = if ltb (length bs) n then none else some (take n bs, drop n bs)

-- what the completion of the n-th body reads through its references, for the header and the type there were
abbrev pub Dangling : Type 0
Dangling = ℕ → MktDataGlobalHeaderMsg → ℕ → MktDataGlobalHeaderMsg × ℕ

module _ (D : Dictionary SimpleOrder) (S : Dictionary ℕ) where
  pub record Subscriber : Type 0 where
    pub manager : Manager D S
    pub pcount : ℕ
    pub latency : Latency

  -- `Subscriber(...)`, with the tokens of the file; `none` if `init` of the manager throws
  abbrev pub new_subscriber : List ℕ → Option Subscriber
  new_subscriber tokens =
      let m = init D S tokens (new_manager D S) in
      if m.1 then some (record { manager = m.0; pcount = 0; latency = new_latency }) else none

  -- The same for a file: `init` takes the tokens of the generator of OrderBookStore, whose constructor
  -- is that of the publisher's less the containers of messages. `none` if it throws.
  unfoldable pub of_generated : Generated → Option Subscriber
  of_generated (generated g) = new_subscriber (get_tokens g)
  of_generated unsupported = none
  of_generated out_of_bounds = none

  unfoldable pub file_subscriber : List (Option (List ℕ)) → Option Subscriber
  file_subscriber lines = of_generated (generate lines)

  -- How a packet ends: the next header is read, the socket is closed, or nothing is read any more.
  pub data Next : Type 0 where
    read_header : Subscriber → List ℕ → Next
    closed : Subscriber → Next
    idle : Subscriber → Next

  -- The order of a body, given to the manager. An exception is caught, and the latency counts.
  unfoldable pub on_order : ℕ → SimpleOrder → Subscriber → Subscriber
  on_order took o s = record s {
    manager = (add_order D S o s.manager).0;
    latency = record_latency took s.latency;
  }

  unfoldable pub on_trade : ℕ → SimpleTrade → Subscriber → Subscriber
  on_trade took t s = record s {
    manager = (add_trade D S t s.manager).0;
    latency = record_latency took s.latency;
  }

  -- the completions of the reads of `doReadBody`, with the header and the type that they read through
  -- their references
  unfoldable pub order_read :
      ℕ → MktDataGlobalHeaderMsg × ℕ → Subscriber → Option (List ℕ × List ℕ) → Next
  order_read took seen s none = closed s
  order_read took seen s (some (body, rest)) =
      read_header (on_order took (simple_order (seen.0) (seen.1) (load_order body)) s) rest

  unfoldable pub trade_read :
      ℕ → MktDataGlobalHeaderMsg × ℕ → Subscriber → Option (List ℕ × List ℕ) → Next
  trade_read took seen s none = closed s
  trade_read took seen s (some (body, rest)) =
      read_header (on_trade took (simple_trade (seen.0) (seen.1) (load_trade body)) s) rest

  -- `doReadBody`, whose switch is still on its parameter
  unfoldable pub do_read_body :
      ℕ
      → (MktDataGlobalHeaderMsg → ℕ → MktDataGlobalHeaderMsg × ℕ)
      → MktDataGlobalHeaderMsg
      → ℕ
      → Kind
      → Subscriber
      → List ℕ
      → Next
  do_read_body took later h t order_kind s bs =
      order_read took (later h t) s (async_read order_size bs)
  do_read_body took later h t trade_kind s bs =
      trade_read took (later h t) s (async_read trade_size bs)
  do_read_body took later h t unknown_kind s bs = idle s

  -- the completion of the read of `doReadHeader`
  unfoldable pub header_read : (ℕ → ℕ) → Dangling → Subscriber → Option (List ℕ × List ℕ) → Next
  header_read took dangling s none = closed s
  header_read took dangling s (some (head, rest)) =
      let n = suc s.pcount in
      let t = load_type head in
      do_read_body (took n) (dangling n) (load_header head) t (kind_of t) (record s { pcount = n })
        rest

  -- `doReadHeader`
  unfoldable pub do_read_header : (ℕ → ℕ) → Dangling → Subscriber → List ℕ → Next
  do_read_header took dangling s bs = header_read took dangling s (async_read header_size bs)

  -- How the reading ends: with the socket closed or without, or not with the fuel given.
  pub data Ended : Type 0 where
    at_close : Subscriber → Ended
    at_idle : Subscriber → Ended
    out_of_fuel : Ended

  -- one packet after the other
  unfoldable pub read_all : (ℕ → ℕ) → Dangling → ℕ → Subscriber → List ℕ → Ended
  read_all took dangling zero s bs = out_of_fuel
  read_all took dangling (suc n) s bs = elim (do_read_header took dangling s bs) [
    | read_header s' rest ↦ read_all took dangling n s' rest
    | closed s' ↦ at_close s'
    | idle s' ↦ at_idle s'
  ]
