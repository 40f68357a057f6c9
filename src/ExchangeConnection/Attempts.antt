-- ===== src/ExchangeConnection/Attempts.antt =====
-- When `connect` succeeds and what `writeMsg` returns.
use order_book_sketch.Common.{
  ℕ, zero, suc, Bool, true, false, ℤ, negsuc, ◌==ℤ◌, ==ℤ→eq, ◌≡◌, ◌≢◌, ◌<◌, ◌≤◌, ◌+◌, ◌-◌, refl,
  arith, Bool-cases, inl, inr, ◌⊎◌, ltb,
}
use order_book_sketch.ExchangeConnection.{Connection, connect, connect_from}

-- Attempt `i` of those from `retry` on is the first that gives a socket.
abbrev pub IsFirst : (ℕ → ℤ) → ℕ → ℕ → Type 0
IsFirst create retry i =
    (retry ≤ i) × (create i ≢ negsuc 0) × ((j : ℕ) → retry ≤ j → j < i → create j ≡ negsuc 0)

-- Either the first socket of the attempts is taken, or all the attempts fail.
abbrev pub IsConnected : (ℕ → ℤ) → ℕ → ℕ → Connection → Connection × Bool → Type 0
IsConnected create retry n c r =
    ((i : ℕ) × (i ≤ retry + n)
      × IsFirst create retry i
      × (r ≡ (record c { socket_file_desc = create i }, true)))
    ⊎ (((i : ℕ) → retry ≤ i → i ≤ retry + n → create i ≡ negsuc 0) × (r ≡ (c, false)))

connect_from_stops :
    (create : ℕ → ℤ) (retry n : ℕ) (c : Connection)
    → (create retry ==ℤ negsuc 0) ≡ false
    → connect_from create retry n c ≡ (record c { socket_file_desc = create retry }, true)
unfolding connect_from
connect_from_stops create retry zero c e = rw e refl
connect_from_stops create retry (suc n) c e = rw e refl

connect_from_fails :
    (create : ℕ → ℤ) (retry : ℕ) (c : Connection)
    → (create retry ==ℤ negsuc 0) ≡ true
    → connect_from create retry 0 c ≡ (c, false)
unfolding connect_from
connect_from_fails create retry c e = rw e refl

connect_from_goes_on :
    (create : ℕ → ℤ) (retry n : ℕ) (c : Connection)
    → (create retry ==ℤ negsuc 0) ≡ true
    → connect_from create retry (suc n) c ≡ connect_from create (suc retry) n c
unfolding connect_from
connect_from_goes_on create retry n c e = rw e refl

IsConnected-now :
    (create : ℕ → ℤ) (retry n : ℕ) (c : Connection)
    → (create retry ==ℤ negsuc 0) ≡ false
    → IsConnected create retry n c (connect_from create retry n c)
IsConnected-now create retry n c e =
    let taken : create retry ≢ negsuc 0 = λ h. ground (arith, e, h) in
    inl (
      retry,
      omega arith,
      (omega arith, taken, λ j h k. absurd (omega arith)),
      connect_from_stops create retry n c e,
    )

only_attempt :
    (create : ℕ → ℤ) (retry i : ℕ)
    → create retry ≡ negsuc 0
    → retry ≤ i
    → i ≤ retry + 0
    → create i ≡ negsuc 0
only_attempt create retry i e h k = let same : i ≡ retry = omega arith in rw same e

from_later :
    (create : ℕ → ℤ) (retry j : ℕ)
    → create retry ≡ negsuc 0
    → (suc retry ≤ j → create j ≡ negsuc 0)
    → retry ≤ j
    → create j ≡ negsuc 0
from_later create retry j e later h = elim (Bool-cases (ltb retry j)) [
  | inl lt ↦ later (ground (arith, lt))
  | inr ge ↦ let same : j ≡ retry = ground (arith, ge, h) in rw same e
]

IsConnected-later :
    (create : ℕ → ℤ) (retry n : ℕ) (c : Connection) (r : Connection × Bool)
    → create retry ≡ negsuc 0
    → IsConnected create (suc retry) n c r
    → IsConnected create retry (suc n) c r
IsConnected-later create retry n c r e (inl (i, k, (h, taken, before), q)) = inl (
  i,
  omega arith,
  (omega arith, taken, λ j a b. from_later create retry j e (λ l. before j l b) a),
  q,
)
IsConnected-later create retry n c r e (inr (all, q)) =
    inr (λ i a b. from_later create retry i e (λ l. all i l (omega arith)) a, q)

connect_from-IsConnected :
    (create : ℕ → ℤ) (retry n : ℕ) (c : Connection)
    → IsConnected create retry n c (connect_from create retry n c)
connect_from-IsConnected create retry zero c = elim (Bool-cases (create retry ==ℤ negsuc 0)) [
  | inr e ↦ IsConnected-now create retry 0 c e
  | inl e ↦
      let z = ==ℤ→eq _ _ e in
      inr (λ i. only_attempt create retry i z, connect_from_fails create retry c e)
]
connect_from-IsConnected create retry (suc n) c = elim (Bool-cases (create retry ==ℤ negsuc 0)) [
  | inr e ↦ IsConnected-now create retry (suc n) c e
  | inl e ↦ rw (connect_from_goes_on create retry n c e) (
      IsConnected-later create retry n c (connect_from create (suc retry) n c) (==ℤ→eq _ _ e)
        (connect_from-IsConnected create (suc retry) n c))
]

-- `connect` ends after at most `_maxRetries` attempts, and after one if that is 0: it returns true
-- with the socket of the first attempt that gives one, or false with the connection as it was when
-- all of these attempts fail.
pub connect-IsConnected :
    (create : ℕ → ℤ) (c : Connection)
    → IsConnected create 0 (c.max_retries - 1) c (connect create c)
unfolding connect
connect-IsConnected create c = connect_from-IsConnected create 0 (c.max_retries - 1) c
