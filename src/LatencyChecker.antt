-- ===== src/LatencyChecker.antt =====
-- OrderBookStore/include/LatencyChecker.hpp: the statistics that all checkers share. A latency is the
-- number of nanoseconds between the construction and the destruction of a checker, an argument here.
-- The floating-point `ceil` of a percentage, in tenths of a percent, of a number is an argument as well.
pub mod Sorted
use order_book_sketch.Common.{
  ℕ, zero, suc, Bool, true, false, List, [], ◌∷◌, ◌++◌, Option, none, some, ltb, leb, not, ◌==◌,
  ◌+◌, ◌-◌, ◌/◌, ◌%◌, ◌^◌, length, get_elem?, if◌then◌else◌,
}

pub record Latency : Type 0 where
  pub latencies : List ℕ
  pub max_latency : ℕ
  pub min_latency : ℕ

-- the static members, as the constructor of `Subscriber` sets the two bounds
abbrev pub new_latency : Latency
new_latency = record { latencies = []; max_latency = 0; min_latency = 2 ^ 31 - 1 }

-- `~LatencyChecker()`
unfoldable pub record_latency : ℕ → Latency → Latency
record_latency latency l = record {
  latencies = l.latencies ++ (latency ∷ []);
  min_latency = if ltb latency l.min_latency then latency else l.min_latency;
  max_latency = if ltb l.max_latency latency then latency else l.max_latency;
}

abbrev pub is_latency_available : Latency → Bool
is_latency_available l = ltb 0 (length l.latencies)

abbrev pub sum : List ℕ → ℕ
sum [] = 0
sum (x ∷ xs) = x + sum xs

-- `getAverageLatency`, where the sum is a `size_t`
unfoldable pub get_average_latency : Latency → ℕ
get_average_latency l =
    if not (is_latency_available l) then 0 else sum l.latencies % 2 ^ 64 / length l.latencies

-- `std::sort` with `std::less`
abbrev pub sort_in : ℕ → List ℕ → List ℕ
sort_in x [] = x ∷ []
sort_in x (y ∷ ys) = if leb x y then x ∷ y ∷ ys else y ∷ sort_in x ys

unfoldable pub sort : List ℕ → List ℕ
sort [] = []
sort (x ∷ xs) = sort_in x (sort xs)

-- `getPercentile`, which leaves the latencies sorted; `none` is a read behind their end.
unfoldable pub get_percentile : (ℕ → ℕ → ℕ) → ℕ → Latency → Latency × Option ℕ
get_percentile ceil_of per l =
    let tmp = ceil_of per (length l.latencies) in
    if not (is_latency_available l)
    then (l, some 0)
    else (record l { latencies = sort l.latencies }, get_elem? (sort l.latencies) tmp)
