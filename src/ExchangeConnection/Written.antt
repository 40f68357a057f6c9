-- ===== src/ExchangeConnection/Written.antt =====
-- What `writeMsg` returns.
use order_book_sketch.Common.{
  ℕ, suc, true, ℤ, pos, negsuc, List, [], ◌∷◌, ◌++◌, some, ◌≡◌, refl, ◌<◌, ◌≤◌, ◌+◌, ltb, leb,
  arith, Bool-cases, inl, inr, All, ◌⊎◌, ap,
}
use order_book_sketch.ExchangeConnection.{
  Sent, sent_bytes, sent_none, retry_ready, send_failed, write_from, write_msg,
}

-- Each `send` takes at least one of the bytes that it is given and no more than these.
abbrev pub IsSending : ℕ → ℕ → List Sent → Type 0
IsSending size out [] = Unit
IsSending size out (sent_bytes n ∷ calls) =
    (out < size → (0 < n) × (out + n ≤ size)) × IsSending size (out + n) calls
IsSending size out (sent_none ∷ calls) = Unit
IsSending size out (retry_ready ∷ calls) = IsSending size out calls
IsSending size out (send_failed ∷ calls) = Unit

-- the calls that do not only find the socket busy
abbrev pub tries : List Sent → ℕ
tries [] = 0
tries (sent_bytes n ∷ calls) = suc (tries calls)
tries (sent_none ∷ calls) = suc (tries calls)
tries (retry_ready ∷ calls) = tries calls
tries (send_failed ∷ calls) = suc (tries calls)

-- the bytes that some calls take
abbrev pub taken : List Sent → ℕ
taken [] = 0
taken (sent_bytes n ∷ calls) = n + taken calls
taken (sent_none ∷ calls) = taken calls
taken (retry_ready ∷ calls) = taken calls
taken (send_failed ∷ calls) = taken calls

-- A call that neither fails nor finds the connection closed.
abbrev pub Proceeds : Sent → Type 0
Proceeds (sent_bytes n) = Unit
Proceeds sent_none = ⊥
Proceeds retry_ready = Unit
Proceeds send_failed = ⊥

-- What is returned at a call before which `k` bytes are out: all of the message with the last bytes, -1
-- where the connection is closed, and on an error the bytes that are out, or -1 if none is.
abbrev pub IsLast : ℕ → ℕ → Sent → ℤ → Type 0
IsLast size k (sent_bytes n) r = (k + n ≡ size) × (r ≡ pos size)
IsLast size k sent_none r = r ≡ negsuc 0
IsLast size k retry_ready r = ⊥
IsLast size k send_failed r = ((k ≡ 0) × (r ≡ negsuc 0)) ⊎ ((0 < k) × (r ≡ pos k))

-- With `out` bytes out, some calls proceed and leave a part of the message, and the next one is the last.
abbrev pub IsWritten : ℕ → ℕ → List Sent → ℤ → Type 0
IsWritten size out calls r =
    (before : List Sent) × (last : Sent) × (after : List Sent) × (calls ≡ before ++ (last ∷ after))
    × All Proceeds before
    × (out + taken before < size)
    × IsLast size (out + taken before) last r

IsWritten-bytes :
    (size out n : ℕ) (calls : List Sent) (r : ℤ)
    → IsWritten size (out + n) calls r
    → IsWritten size out (sent_bytes n ∷ calls) r
IsWritten-bytes size out n calls r (before, last, after, e, go, part, end) =
    let sum : out + n + taken before ≡ out + (n + taken before) = omega arith in
    (
      sent_bytes n ∷ before,
      last,
      after,
      ap (λ x. sent_bytes n ∷ x) e,
      (tt, go),
      rw sum at part,
      rw sum at end,
    )

IsWritten-retry :
    (size out : ℕ) (calls : List Sent) (r : ℤ)
    → IsWritten size out calls r
    → IsWritten size out (retry_ready ∷ calls) r
IsWritten-retry size out calls r (before, last, after, e, go, part, end) =
    (retry_ready ∷ before, last, after, ap (λ x. retry_ready ∷ x) e, (tt, go), part, end)

IsWritten-last :
    (size out : ℕ) (c : Sent) (calls : List Sent) (r : ℤ)
    → out < size
    → IsLast size out c r
    → IsWritten size out (c ∷ calls) r
IsWritten-last size out c calls r lt end =
    let here : out ≡ out + 0 = omega arith in
    ([], c, calls, refl, tt, rw here at lt, rw here at end)

write_from-IsWritten :
    (size out : ℕ) (calls : List Sent)
    → out < size
    → IsSending size out calls
    → size ≤ out + tries calls
    → (r : ℤ) × (write_from size out calls ≡ some r) × IsWritten size out calls r
unfolding write_from
write_from-IsWritten size out [] lt s enough = absurd (omega arith)
write_from-IsWritten size out (sent_bytes n ∷ calls) lt s enough =
    let (some_bytes, fits) = s.0 lt in
    elim (Bool-cases (ltb (out + n) size)) [
      | inl t ↦
          let (r, e, w) =
            write_from-IsWritten size (out + n) calls (ground (arith, t)) s.1 (omega arith) in
          (r, rw t e, IsWritten-bytes size out n calls r w)
      | inr t ↦
          let whole : out + n ≡ size = ground (arith, t, fits) in
          (
            pos size,
            rw t (ap (λ k. some (pos k)) whole),
            IsWritten-last size out (sent_bytes n) calls (pos size) lt (whole, refl),
          )
    ]
write_from-IsWritten size out (sent_none ∷ calls) lt s enough =
    (negsuc 0, refl, IsWritten-last size out sent_none calls (negsuc 0) lt refl)
write_from-IsWritten size out (retry_ready ∷ calls) lt s enough =
    let t : ltb out size ≡ true = ground (arith, lt) in
    let (r, e, w) = write_from-IsWritten size out calls lt s enough in
    (r, rw t e, IsWritten-retry size out calls r w)
write_from-IsWritten size out (send_failed ∷ calls) lt s enough = elim (Bool-cases (leb out 0)) [
  | inl t ↦ (
    negsuc 0,
    rw t refl,
    IsWritten-last size out send_failed calls (negsuc 0) lt (inl (ground (arith, t), refl)),
  )
  | inr t ↦ (
    pos out,
    rw t refl,
    IsWritten-last size out send_failed calls (pos out) lt (inr (ground (arith, t), refl)),
  )
]

-- On a message that is not empty, with a `send` that takes at least one byte when it takes any and
-- never more than it is given, and with as many calls that do not only find the socket busy as the
-- message has bytes, `writeMsg` returns. The calls up to one proceed and leave a part of the message;
-- that one ends it: it takes exactly the rest, and the size of the message is returned; or it finds the
-- connection closed, and -1 is; or it fails, and the bytes that are out are, or -1 if none is.
pub write_msg-IsWritten :
    (size : ℕ) (calls : List Sent)
    → 0 < size
    → IsSending size 0 calls
    → size ≤ tries calls
    → (r : ℤ) × (write_msg size calls ≡ some r) × IsWritten size 0 calls r
unfolding write_msg
write_msg-IsWritten size calls lt s enough =
    write_from-IsWritten size 0 calls lt s (omega (arith, enough))
