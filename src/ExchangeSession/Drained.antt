-- ===== src/ExchangeSession/Drained.antt =====
-- The loop of `readThread` over the bytes received: it ends, and every byte is in a message or left.
use order_book_sketch.Common.{
  ℕ, zero, suc, Bool, true, false, ℤ, pos, List, [], ◌∷◌, ◌++◌, append-append, sym, none, some, ◌≡◌,
  refl, ◌≤◌, ◌<◌, ◌+◌, ◌-◌, arith, Option-cases, Bool-cases, inl, inr, ◌∙◌, ap, int_laws, ◌-ℤ◌, ltb,
  not, ◌&&◌, ◌==◌, ◌==ℤ◌,
}
use order_book_sketch.ExchangeSession.{World}
use order_book_sketch.ExchangeSession.Reader.{
  Drain, Framer, full_msg, take_msg, leave, drain, disconnect_if, overrun, word,
}

pub drain_no_fuel : (f : Framer) (w : World) (d : Drain) → drain f w 0 d ≡ none
unfolding drain
drain_no_fuel f w d = refl

pub drain-take_msg :
    (f : Framer) (w : World) (n len : ℕ) (d : Drain)
    → full_msg f d ≡ some len
    → drain f w (suc n) d ≡ drain f w n (take_msg w len d)
unfolding drain
drain-take_msg f w n len d e = rw (e, drain) refl

pub drain-leave :
    (f : Framer) (w : World) (n : ℕ) (d : Drain)
    → full_msg f d ≡ none
    → drain f w (suc n) d ≡ some (leave w d)
unfolding drain
drain-leave f w n d e = rw (e, drain) refl

-- A message that `isFullMsg` finds in some bytes is not empty and is all there.
abbrev pub IsFramer : Framer → Type 0
IsFramer f = (i t len : ℕ) → 0 < t → f i (pos t) ≡ some len → (0 < len) × (len ≤ t)

disconnect_if_place :
    (w : World) (t : Bool) (d : Drain)
    → ((disconnect_if w t d).curr ≡ d.curr) × ((disconnect_if w t d).total ≡ d.total)
disconnect_if_place w true d = (refl, refl)
disconnect_if_place w false d = (refl, refl)

take_msg_place :
    (w : World) (len : ℕ) (d : Drain)
    → ((take_msg w len d).curr ≡ d.curr + len) × ((take_msg w len d).total ≡ d.total -ℤ pos len)
unfolding take_msg
take_msg_place w len d =
    let d₁ = record d {
      session = record (d.session) { last_rec_time = w.now };
      handled = (d.curr, len) ∷ d.handled;
    } in
    let d₂ = disconnect_if w (ltb (word d.total) len) d₁ in
    let d₃ = record d₂ { curr = d.curr + len; total = d.total -ℤ pos len } in
    disconnect_if_place w (overrun d₃) d₃

leave_place : (w : World) (d : Drain) → ((leave w d).curr ≡ d.curr) × ((leave w d).total ≡ d.total)
unfolding leave
leave_place w d = disconnect_if_place w (not (d.curr == 0) && overrun d) d

full_msg_frames :
    (f : Framer) (d : Drain) (t len : ℕ)
    → IsFramer f
    → d.total ≡ pos t
    → full_msg f d ≡ some len
    → (0 < len) × (len ≤ t)
unfolding full_msg
full_msg_frames f d t len fr e q = elim (Bool-cases (d.total ==ℤ pos 0)) [
  | inl z ↦ let none_here = rw z at q in absurd (cc)
  | inr nz ↦
      let there : f d.curr d.total ≡ some len = rw nz at q in
      fr d.curr t len (ground (arith, nz, e)) (rw e at there)
]

full_msg_place :
    (f : Framer) (d d' : Drain)
    → d'.curr ≡ d.curr
    → d'.total ≡ d.total
    → full_msg f d' ≡ full_msg f d
unfolding full_msg
full_msg_place f d d' c k = rw (c, k) refl

minus_len : (x : ℤ) (t len : ℕ) → x ≡ pos t → len ≤ t → x -ℤ pos len ≡ pos (t - len)
minus_len x t len e h = rw e (omega int_laws)

-- Where the loop ended: `t` bytes are left, with no message in them.
abbrev pub IsDrained : Framer → ℕ → Drain → Type 0
IsDrained f stop d = (t : ℕ) × (d.total ≡ pos t) × (d.curr + t ≡ stop) × (full_msg f d ≡ none)

-- Messages, as offset and length, the latest first, that lie side by side from `start` to `cur`, each of them
-- what `isFullMsg` finds at its offset among the bytes up to `stop`.
abbrev pub IsTiling : Framer → ℕ → ℕ → ℕ → List (ℕ × ℕ) → Type 0
IsTiling f start stop cur [] = cur ≡ start
IsTiling f start stop cur ((at, len) ∷ ms) =
    (at + len ≡ cur) × (f at (pos (stop - at)) ≡ some len) × IsTiling f start stop at ms

IsTiling-snoc :
    (f : Framer) (start stop cur len : ℕ) (ms : List (ℕ × ℕ))
    → f start (pos (stop - start)) ≡ some len
    → IsTiling f (start + len) stop cur ms
    → IsTiling f start stop cur (ms ++ ((start, len) ∷ []))
IsTiling-snoc f start stop cur len [] q h = (sym h, q, refl)
IsTiling-snoc f start stop cur len ((at, n) ∷ ms) q h =
    (h.0, h.1, IsTiling-snoc f start stop at len ms q h.2)

disconnect_if_handled :
    (w : World) (t : Bool) (d : Drain) → (disconnect_if w t d).handled ≡ d.handled
disconnect_if_handled w true d = refl
disconnect_if_handled w false d = refl

take_msg_handled :
    (w : World) (len : ℕ) (d : Drain) → (take_msg w len d).handled ≡ (d.curr, len) ∷ d.handled
unfolding take_msg
take_msg_handled w len d =
    let d₁ = record d {
      session = record (d.session) { last_rec_time = w.now };
      handled = (d.curr, len) ∷ d.handled;
    } in
    let d₂ = disconnect_if w (ltb (word d.total) len) d₁ in
    let d₃ = record d₂ { curr = d.curr + len; total = d.total -ℤ pos len } in
    disconnect_if_handled w (overrun d₃) d₃ ∙ disconnect_if_handled w (ltb (word d.total) len) d₁

full_msg_found :
    (f : Framer) (d : Drain) (t len : ℕ)
    → d.total ≡ pos t
    → full_msg f d ≡ some len
    → f d.curr (pos t) ≡ some len
unfolding full_msg
full_msg_found f d t len e q = elim (Bool-cases (d.total ==ℤ pos 0)) [
  | inl z ↦ let none_here = rw z at q in absurd (cc)
  | inr nz ↦ let there : f d.curr d.total ≡ some len = rw nz at q in rw e at there
]

-- what the loop handled between two places, the latest first, beyond what had been handled
abbrev pub IsHandled : Framer → ℕ → ℕ → Drain → List (ℕ × ℕ) → Type 0
IsHandled f start stop d before =
    (ms : List (ℕ × ℕ)) × (d.handled ≡ ms ++ before) × IsTiling f start stop d.curr ms

IsHandled-take_msg :
    (f : Framer) (w : World) (t len start stop : ℕ) (d d' : Drain)
    → f d.curr (pos t) ≡ some len
    → start ≡ d.curr + len
    → stop ≡ d.curr + t
    → IsHandled f start stop d' (take_msg w len d).handled
    → IsHandled f d.curr (d.curr + t) d' d.handled
IsHandled-take_msg f w t len start stop d d' q begin end (ms, kept, tiling) =
    let from : IsTiling f (d.curr + len) (d.curr + t) d'.curr ms = rw (begin, end) at tiling in
    let here : f d.curr (pos (d.curr + t - d.curr)) ≡ some len =
      (let same : d.curr + t - d.curr ≡ t = omega arith in rw same q) in
    (
      ms ++ ((d.curr, len) ∷ []),
      kept
          ∙ (ap (λ r. ms ++ r) (take_msg_handled w len d)
              ∙ sym (append-append ms ((d.curr, len) ∷ []) d.handled)),
      IsTiling-snoc f d.curr (d.curr + t) d'.curr len ms here from,
    )

leave_handled : (w : World) (d : Drain) → (leave w d).handled ≡ d.handled
unfolding leave
leave_handled w d = disconnect_if_handled w (not (d.curr == 0) && overrun d) d

-- With an `isFullMsg` that finds no empty message and none beyond the bytes there are, the loop over
-- `t` bytes ends within `t + 1` rounds, the last of which finds no message; the messages given to
-- `processInMessage` lie side by side from the first byte to where the loop stopped, each of them what
-- `isFullMsg` finds there, and no message is left in the bytes behind them.
pub drain-IsDrained :
    (f : Framer) (w : World) (n t : ℕ) (d : Drain)
    → IsFramer f
    → d.total ≡ pos t
    → t < n
    → (d' : Drain) × (drain f w n d ≡ some d')
      × IsDrained f (d.curr + t) d'
      × IsHandled f d.curr (d.curr + t) d' d.handled
drain-IsDrained f w zero t d fr e h = absurd (omega arith)
drain-IsDrained f w (suc n) t d fr e h = elim (Option-cases (full_msg f d)) [
  | inl q ↦
      let (c, k) = leave_place w d in
      let idle = full_msg_place f d (leave w d) c k ∙ q in
      (
        leave w d,
        drain-leave f w n d q,
        (t, k ∙ e, ap (λ x. x + t) c, idle),
        ([], leave_handled w d, c),
      )
  | inr (len, q) ↦
      let (some_bytes, fits) = full_msg_frames f d t len fr e q in
      let (c, k) = take_msg_place w len d in
      let d₂ = take_msg w len d in
      let left : d₂.total ≡ pos (t - len) = k ∙ minus_len d.total t len e fits in
      let (d', run, (t', e', stop, idle), handled) =
        drain-IsDrained f w n (t - len) d₂ fr left (omega arith) in
      let same : d₂.curr + (t - len) ≡ d.curr + t = omega (arith, c, fits) in
      (
        d',
        drain-take_msg f w n len d q ∙ run,
        (t', e', omega (arith, stop, c), idle),
        IsHandled-take_msg f w t len d₂.curr (d₂.curr + (t - len)) d d'
            (full_msg_found f d t len e q) c same handled,
      )
]
