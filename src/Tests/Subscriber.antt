-- ===== src/Tests/Subscriber.antt =====
-- The subscriber on the bytes of two packets.
use order_book_sketch.Packets.{kind_of}
use order_book_sketch.Packets.RoundTrip.{IsPacket, bytes_of_all}
use order_book_sketch.Common.{
  ℕ, suc, Bool, All, pos, List, [], ◌∷◌, ◌++◌, some, ◌≡◌, ◌≢◌, refl, arith, ◌==◌, if◌then◌else◌,
  none, ◌+◌, ◌*◌, ◌/◌, ◌≤◌,
}
use order_book_sketch.Dictionary.Assoc.{assoc_list}
use order_book_sketch.Messages.{
  MktDataGlobalHeaderMsg, MktDataOrderMsg, MktDataTradeMsg, SimpleOrder, simple_order,
}
use order_book_sketch.OrderBookType2.{Book}
use order_book_sketch.OrderBookType2.Refine.{Represents}
use order_book_sketch.OrderBookType2.Feed.{ledger_run}
use order_book_sketch.OrderBookManager.Type2.{new_manager, init}
use order_book_sketch.OrderBookManager.Routing.{book_of}
use order_book_sketch.OrderBookManager.Feed.{of_token, listed}
use order_book_sketch.Packets.{load_order}
use order_book_sketch.Packets.RoundTrip.{
  header_bytes, order_bytes, load_order-order_bytes, IsHeader, IsOrder,
}
use order_book_sketch.LatencyChecker.{Latency, new_latency, sort, get_percentile}
use order_book_sketch.LatencyChecker.Sorted.{
  count, IsSorted, IsPercentile, get_percentile-IsPercentile, record_all, IsAttained,
  record_all-IsBounded,
}
use order_book_sketch.Subscriber.{
  Dangling, Subscriber, new_subscriber, at_close, at_idle, out_of_fuel, read_all,
}
use order_book_sketch.Subscriber.Bytes.{on_packets}
use order_book_sketch.Subscriber.Ends.{read_all_ends, read_all_unknown}
use order_book_sketch.Subscriber.Session.{OrderMsg, packets, orders, read_all-Represents}

abbrev header : MktDataGlobalHeaderMsg
header = record { len = 38; stream_id = 1; seq_no = 1 }

abbrev buy : MktDataOrderMsg
buy = record {
  timestamp = 4;
  order_id = 1;
  token_no = 7;
  order_type = b'B';
  price = pos 258;
  qty = pos 5;
}

abbrev trade : MktDataTradeMsg
trade = record {
  timestamp = 5;
  buy_side_order_id = 1;
  sell_side_order_id = 0;
  token_no = 7;
  price = pos 258;
  qty = pos 5;
}

abbrev took : ℕ → ℕ
took n = 100

-- The second completion reads the header of another packet, and a type that is none.
abbrev seen : Dangling
seen n h t = if n == 2 then (record h { seq_no = 9 }, 0) else (h, t)

abbrev messages : List OrderMsg
messages = (header, b'N', buy) ∷ (header, b'X', buy) ∷ []

abbrev subscriber : Subscriber (assoc_list SimpleOrder) (assoc_list ℕ)
subscriber = record {
  manager =
      (init (assoc_list SimpleOrder) (assoc_list ℕ) (7 ∷ 8 ∷ [])
        (new_manager (assoc_list SimpleOrder) (assoc_list ℕ))).0;
  pcount = 0;
  latency = new_latency;
}

buy_fits : IsOrder buy
buy_fits = omega arith

header_fits : IsHeader header
header_fits = omega arith

packets_fit : All IsPacket (packets messages)
unfolding kind_of
packets_fit =
    ((header_fits, omega arith, buy_fits, refl), ((header_fits, omega arith, buy_fits, refl), tt))

read_all-Represents_example :
    (s : Subscriber (assoc_list SimpleOrder) (assoc_list ℕ)) × (s' : Subscriber
      (assoc_list SimpleOrder)
      (assoc_list ℕ))
    × (b : Book (assoc_list SimpleOrder)) × (new_subscriber
          (assoc_list SimpleOrder)
          (assoc_list ℕ)
          (7 ∷ 8 ∷ [])
        ≡ some s)
    × (read_all
          (assoc_list SimpleOrder)
          (assoc_list ℕ)
          took
          seen
          3
          s
          (bytes_of_all (packets messages))
        ≡ at_close s')
    × (book_of (assoc_list SimpleOrder) (assoc_list ℕ) 7 s'.manager ≡ some b)
    × Represents
        (assoc_list SimpleOrder)
        b
        (ledger_run (assoc_list SimpleOrder) (of_token 7 (orders seen 1 messages)) [])
unfolding listed simple_order
read_all-Represents_example =
    read_all-Represents (assoc_list SimpleOrder) (assoc_list ℕ) took seen (7 ∷ 8 ∷ []) messages 3 7
      (tt, (tt, tt)) (omega arith) packets_fit (tt, (tt, tt)) (omega arith) tt refl (omega arith)

read_all_ends_example :
    read_all (assoc_list SimpleOrder) (assoc_list ℕ) took seen 4 subscriber (1 ∷ 2 ∷ 3 ∷ [])
    ≢ out_of_fuel
read_all_ends_example =
    read_all_ends (assoc_list SimpleOrder) (assoc_list ℕ) took seen 4 subscriber (1 ∷ 2 ∷ 3 ∷ [])
      (omega arith)

load_order-order_bytes_example : load_order (order_bytes buy) ≡ buy
load_order-order_bytes_example = load_order-order_bytes buy (omega arith)

read_all_unknown_example :
    read_all
      (assoc_list SimpleOrder)
      (assoc_list ℕ)
      took
      seen
      3
      subscriber
      (bytes_of_all (packets messages) ++ (header_bytes header b'L' ++ (1 ∷ 2 ∷ [])))
    ≡ (let end =
          on_packets
            (assoc_list SimpleOrder)
            (assoc_list ℕ)
            took
            seen
            (packets messages)
            subscriber in
        at_idle (record end { pcount = suc end.pcount }))
unfolding kind_of
read_all_unknown_example =
    read_all_unknown (assoc_list SimpleOrder) (assoc_list ℕ) took seen (packets messages) 3
      subscriber header b'L' (1 ∷ 2 ∷ []) packets_fit header_fits (omega arith) refl (omega arith)

-- five packets and how long each took
abbrev latency : Latency
latency = record { latencies = 30 ∷ 10 ∷ 50 ∷ 20 ∷ 40 ∷ []; max_latency = 50; min_latency = 10 }

-- the ceiling, exactly
abbrev ceil_of : ℕ → ℕ → ℕ
ceil_of per n = (per * n + 999) / 1000

get_percentile-IsPercentile_example :
    IsPercentile 500 latency.latencies (get_percentile ceil_of 500 latency).1
    × IsSorted (get_percentile ceil_of 500 latency).0.latencies
    × ((p : ℕ → Bool)
        → count p (get_percentile ceil_of 500 latency).0.latencies ≡ count p latency.latencies)
get_percentile-IsPercentile_example =
    get_percentile-IsPercentile ceil_of 500 latency (omega arith) (omega arith, omega arith)

-- The 99.9th percentile of five latencies is behind their end.
percentile_runs :
    ((get_percentile ceil_of 500 latency).1 ≡ some 40)
    × ((get_percentile ceil_of 999 latency).1 ≡ none)
unfolding get_percentile sort
percentile_runs = (refl, refl)

record_all-IsBounded_example :
    let l = record_all (30 ∷ 10 ∷ 50 ∷ []) new_latency in
    (l.latencies ≡ 30 ∷ 10 ∷ 50 ∷ [])
    × All (λ x. (l.min_latency ≤ x) × (x ≤ l.max_latency)) (30 ∷ 10 ∷ 50 ∷ [])
    × IsAttained (30 ∷ 10 ∷ 50 ∷ []) new_latency l
record_all-IsBounded_example = record_all-IsBounded (30 ∷ 10 ∷ 50 ∷ [])
