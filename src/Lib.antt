-- ===== src/Lib.antt =====
-- OrderBookSketch keeps the order books of an exchange's instruments from its market data feed. A
-- publisher sends recorded messages in the order of their sequence numbers. A subscriber reads the
-- messages of the feed and makes an order or a trade object of each; an order book manager finds the
-- book of the message's token and hands the object on; the book keeps its resting orders and its price
-- levels. There are two books with the same interface: OrderBookType2, with a
-- sorted vector of levels on each side and a hash map of orders, and OrderBookImproved, with a multimap
-- of orders on each side and a hash map of iterators. An older one, OrderBook, keeps the orders by id over
-- a depth with a fixed number of visible levels. The order management system keeps a session with the
-- exchange over a TCP connection: it logs on, reads messages in a thread and checks when to send a
-- heartbeat and when to disconnect.
--
-- Which file models what:
-- - Messages.antt: the order and trade messages (Common/include/MktDataGlobalHeaderMsg.hpp,
--   MktDataOrderMsg.hpp, MktDataTradeMsg.hpp) and the objects made of them
--   (OrderBookStore/include/Order.hpp, Trade.hpp).
-- - FlatMap.antt: the flat_map of boost that OrderBookType2 keeps its levels in, as a list that is
--   sorted by descending priority; its operations are the documented behaviour of `find`, `insert` and
--   `erase`, with positions for iterators. FlatMap/Laws.antt has its lookup laws.
-- - Dictionary.antt: what OrderBookType2 calls of its hash map (Common/include/HashMap.h), with laws, as
--   an interface that a section takes; Dictionary/Assoc.antt fills it with an association list, which
--   also stands for std::unordered_map.
-- - OrderBookType2.antt: OrderBookStore/include/OrderBookType2.hpp, one function for each method and
--   each case of `processOrder`. Its children: Levels (a level that grows or shrinks), Ledger (the
--   specification, a list of resting orders, and what it adds up to), Refine (a side and a book against
--   a ledger), Feed (new orders and cancels), Modify, Ghost, Trade and Best (`GetBestPrice`).
-- - OrderBookImproved.antt: OrderBookStore/include/OrderBookImproved.hpp and
--   OrderBookStore/src/OrderBookImproved.cpp. Its children: Nodes and Placing (the multimap), Sides (one
--   side and its hash map), Refine (the book against two lists of orders), Priority (price-time
--   priority), Shown (the levels that `toString` prints).
-- - OrderBookManager/Type2.antt: OrderBookManagerType2 of OrderBookStore/include/OrderBookManager.hpp,
--   which leads a token to its book; Routing has the invariant and what each call does to the books, Feed
--   a whole session: the tokens, then the messages of all of them. Improved: OrderBookManagerImproved.
-- - HashMap.antt: the hash table of Common/include/HashMap.h; Cyclic has the arithmetic of positions, Slots
--   the buckets as a list, Probing and Lookup `find`, Insert and Grow `emplace`, Erase and Erased `erase`,
--   and Instance fills the interface of Dictionary.antt.
-- - Depth.antt: OrderBookStore/include/Depth.hpp, with the levels of DepthLevel.hpp in Depth/Level.antt;
--   Find has one equation for each way a search ends, Sorted the order of the visible levels, Missing
--   prices that no level holds; Visits, Lookup, Shifted, Held, Spilled and Adding take the depth as a map
--   from prices to quantities and counts. OrderBook.antt: OrderBookStore/include/OrderBook.hpp and
--   OrderStateKeeper.hpp, the older book over the depth.
-- - ExchangeConnection.antt: OrderManagementSystem/include/ExchangeConnection.hpp; Attempts is about
--   `connect`, Written about `writeMsg`. ExchangeSession.antt:
--   OrderManagementSystem/include/ExchangeSession.hpp and OrderManagementSystem/src/ExchangeSession.cpp
--   with what NSESession overrides; Reader has the rounds of the reader thread,
--   Drained its loop over the bytes received, Reached what the thread reaches.
-- - OrderGenerator.antt: MarketDataPublisher/include/OrderGenerator.hpp; Hex has the digits, Messages a file
--   that is read, Ordered the map of its messages, Tokens the set of its tokens, which is also what
--   OrderBookStore/include/OrderGenerator.hpp reads of it. Publisher.antt:
--   MarketDataPublisher/include/Publisher.hpp; Feed goes from the file to what the subscriber does, Books on
--   to the books, and File has one file for both.
-- - Packets.antt: the messages as bytes, as the packed structures lie in memory; RoundTrip writes and loads
--   them. Subscriber.antt: OrderBookStore/include/Subscriber.hpp; Bytes has what packets do, Ends how the
--   reading ends, Session the whole way from bytes to books. LatencyChecker.antt:
--   OrderBookStore/include/LatencyChecker.hpp; Sorted is about its statistics.
-- - Elements.antt: the elements that queues link, in a memory that `new` and `delete` change
--   (Common/include/containers/allocator.hpp). MsgList.antt: Common/include/containers/msglist.hpp; Chain has
--   linked elements, Fifo each call, Runs sequences of calls. MsgQ.antt: Common/include/containers/msgq.hpp;
--   Waiting is about `post` and `wait`. Referencer.antt: Common/include/containers/Referencer.hpp, which runs
--   tasks in turn; Ready has its steps, Serving is about `execute`, Slices about its limit, Session about a
--   Referencer from its construction on.
-- - OrderPool.antt: the pool of orders of OrderManagementSystem/src/BaseOrderManager.cpp, with the clones of
--   OrderManagementSystem/include/NSEOrder.hpp; Buffers is about what the orders of a pool share.
-- - LocalBuffer.antt: OrderManagementSystem/include/LocalBuffer.hpp; RoundTrip writes and reads it.
-- - Digits.antt: the digit conversions of Common/include/Common.hpp; Values reads the digits back,
--   Unrolled has the templates.
-- - Common.antt and its children: shared names, Boolean tests, signed numbers and lists.
-- - Tests.antt and its children: runs on concrete inputs.
--
-- A book is a record that the methods take and return; an exception is a value beside the book as the
-- throw leaves it, since the callers catch it and go on. Prices and quantities are signed numbers without
-- bounds: overflow of a signed number is undefined behaviour in the program, and the exchange's numbers
-- stay far below it. Order ids, tokens and message types are natural numbers; counters
-- wrap around at the width of their words where nothing else bounds them. An iterator of a sorted vector
-- is a position; an iterator of a multimap is a number that no other node of it has or had.
-- Loops are recursions on lists or on a number that the code itself counts down or up to. The loops of
-- the hash table have the number of buckets as fuel, which its invariant makes enough; the loop of
-- `readThread` over the bytes received has fuel, of which one unit more than the bytes is enough. A call
-- of the operating system is an argument: what it returned, one entry for each call. What `new` returns
-- is an argument as well, the address of nothing that lives. So is what the subscriber's lambdas read
-- through their dangling references, for each packet, what the publisher's socket delivers of the writes
-- it is asked for, whose buffers are freed at once, and the floating-point `ceil` of a percentage.
-- `execute` of a Referencer and the loops of `wait` have fuel, since the first runs for as long as tasks
-- arrive and the second may never end.
--
-- Not modelled: printing, sockets, threads, clocks and logging, and the vendored spdlog; also, so far,
-- the lockless queues, the free lists that keep elements, flow control and the adaptor layer of the
-- order management system. Two classes are left out because no run gets to use them: the constructor of
-- FastBuffer (Common/include/FastBuffer.hpp) throws for every size, and SeqNumStore
-- (OrderManagementSystem/include/SeqNumStore.hpp) writes through pointers that are null for ever.
pub mod Common
pub mod Messages
pub mod FlatMap
pub mod Dictionary
pub mod OrderBookType2
pub mod OrderBookImproved
pub mod OrderBookManager
pub mod LocalBuffer
pub mod Digits
pub mod Depth
pub mod Packets
pub mod OrderGenerator
pub mod Publisher
pub mod LatencyChecker
pub mod Elements
pub mod MsgList
pub mod MsgQ
pub mod Referencer
pub mod Subscriber
pub mod ExchangeConnection
pub mod ExchangeSession
pub mod OrderBook
pub mod HashMap
pub mod OrderPool
mod Tests
