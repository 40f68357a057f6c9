-- ===== src/Subscriber/Ends.antt =====
-- How the subscriber's reading ends.
use order_book_sketch.Packets.{Kind, Packet, kind_of, order_kind, trade_kind, unknown_kind}
use order_book_sketch.Packets.RoundTrip.{IsPacket, bytes_of_all}
use order_book_sketch.Common.{
  ℕ, zero, suc, List, [], ◌∷◌, ◌++◌, some, ltb, ◌-◌, ◌<◌, length, drop, ◌≡◌, ◌≢◌, refl, arith, sym,
  ◌∙◌, ap, Bool-cases, Option-cases, inl, inr, All, ◌⊎◌,
}
use order_book_sketch.Dictionary.{Dictionary}
use order_book_sketch.Messages.{MktDataGlobalHeaderMsg, SimpleOrder}
use order_book_sketch.Packets.{header_size, order_size, trade_size, load_header, load_type}
use order_book_sketch.Packets.RoundTrip.{header_bytes, IsHeader}
use order_book_sketch.Subscriber.{
  async_read, Dangling, Subscriber, Next, read_header, closed, idle, order_read, trade_read,
  do_read_body, header_read, do_read_header, at_close, at_idle, out_of_fuel, read_all,
}
use order_book_sketch.Subscriber.Bytes.{
  async_read_short, on_packets, do_read_header_lem, after_next, read_all-next,
  read_all-bytes_of_all,
}

length-drop : (n : ℕ) (bs : List ℕ) → length (drop n bs) ≡ length bs - n
length-drop zero bs = omega arith
length-drop (suc n) [] = omega arith
length-drop (suc n) (b ∷ bs) = omega (arith, length-drop n bs)

-- What is left after a read is shorter.
async_read-length :
    (n : ℕ) (bs xs rest : List ℕ)
    → 0 < n
    → async_read n bs ≡ some (xs, rest)
    → length rest < length bs
unfolding async_read
async_read-length n bs xs rest pos e = elim (Bool-cases (ltb (length bs) n)) [
  | inl t ↦ let z = rw t at e in absurd (cc)
  | inr t ↦
      let z = rw t at e in
      let r : rest ≡ drop n bs = cc in rw r (ground (arith, length-drop n bs, t))
]

module _ (D : Dictionary SimpleOrder) (S : Dictionary ℕ) (took : ℕ → ℕ) (dangling : Dangling) where
  -- The next header is read from fewer bytes.
  abbrev pub Shrinks : ℕ → Next D S → Type 0
  Shrinks n (read_header s rest) = length rest < n
  Shrinks n (closed s) = Unit
  Shrinks n (idle s) = Unit

  Shrinks-do_read_body :
      (t : ℕ) (later : MktDataGlobalHeaderMsg → ℕ → MktDataGlobalHeaderMsg × ℕ)
      (h : MktDataGlobalHeaderMsg) (ty n : ℕ) (k : Kind) (s : Subscriber D S) (bs : List ℕ)
      → length bs < n
      → Shrinks n (do_read_body D S t later h ty k s bs)
  unfolding do_read_body order_read trade_read
  Shrinks-do_read_body t later h ty n order_kind s bs lt =
      elim (Option-cases (async_read order_size bs)) [
        | inl e ↦ rw e tt
        | inr ((xs, rest), e) ↦
            let less = async_read-length order_size bs xs rest (omega arith) e in rw e (omega arith)
      ]
  Shrinks-do_read_body t later h ty n trade_kind s bs lt =
      elim (Option-cases (async_read trade_size bs)) [
        | inl e ↦ rw e tt
        | inr ((xs, rest), e) ↦
            let less = async_read-length trade_size bs xs rest (omega arith) e in rw e (omega arith)
      ]
  Shrinks-do_read_body t later h ty n unknown_kind s bs lt = tt

  Shrinks-do_read_header :
      (s : Subscriber D S) (bs : List ℕ)
      → Shrinks (length bs) (do_read_header D S took dangling s bs)
  unfolding do_read_header header_read
  Shrinks-do_read_header s bs = elim (Option-cases (async_read header_size bs)) [
    | inl e ↦ rw e tt
    | inr ((xs, rest), e) ↦
        let less = async_read-length header_size bs xs rest (omega arith) e in
        rw e (
          Shrinks-do_read_body (took (suc s.pcount)) (dangling (suc s.pcount)) (load_header xs)
            (load_type xs) (length bs) (kind_of (load_type xs)) (record s { pcount = suc s.pcount })
            rest less)
  ]

  Next-cases :
      (x : Next D S)
      → ((s : Subscriber D S) × (rest : List ℕ) × (x ≡ read_header s rest))
        ⊎ ((n : ℕ) → after_next D S took dangling n x ≢ out_of_fuel)
  unfolding after_next
  Next-cases (read_header s rest) = inl (s, rest, refl)
  Next-cases (closed s) = inr (λ n e. absurd (cc))
  Next-cases (idle s) = inr (λ n e. absurd (cc))

  -- Whatever the bytes are, the reading ends within one more round than there are bytes: with the
  -- socket closed, or at a packet of an unknown type.
  pub read_all_ends :
      (n : ℕ) (s : Subscriber D S) (bs : List ℕ)
      → length bs < n
      → read_all D S took dangling n s bs ≢ out_of_fuel
  unfolding after_next
  read_all_ends zero s bs lt e = absurd (omega arith)
  read_all_ends (suc n) s bs lt e = elim (Next-cases (do_read_header D S took dangling s bs)) [
    | inl (s', rest, q) ↦
        let shrinks = Shrinks-do_read_header s bs in
        let less : length rest < length bs = rw q at shrinks in
        let go : read_all D S took dangling n s' rest ≡ out_of_fuel =
          sym
            (read_all-next D S took dangling n s bs ∙ ap (λ x. after_next D S took dangling n x) q)
          ∙ e in
        read_all_ends n s' rest (omega arith) go
    | inr ends ↦ ends n (sym (read_all-next D S took dangling n s bs) ∙ e)
  ]

  -- After the bytes of some packets, fewer bytes than a header close the socket.
  pub read_all_cut :
      (ps : List Packet) (n : ℕ) (s : Subscriber D S) (rest : List ℕ)
      → All IsPacket ps
      → length rest < header_size
      → length ps < n
      → read_all D S took dangling n s (bytes_of_all ps ++ rest)
        ≡ at_close (on_packets D S took dangling ps s)
  unfolding after_next do_read_header header_read
  read_all_cut ps n s rest ok short room =
      let end = on_packets D S took dangling ps s in
      rw
        (
          read_all-bytes_of_all D S took dangling ps n (suc (n - length ps - 1)) s rest ok
              (omega arith),
          read_all-next D S took dangling (n - length ps - 1) end rest,
          async_read_short header_size rest short,
        )
        refl

  -- After the bytes of some packets, a header of an unknown type ends the reading without closing the
  -- socket: the packet counts, and nothing of what follows has an effect, whatever is read through the
  -- dangling references.
  pub read_all_unknown :
      (ps : List Packet) (n : ℕ) (s : Subscriber D S) (h : MktDataGlobalHeaderMsg) (t : ℕ)
      (rest : List ℕ)
      → All IsPacket ps
      → IsHeader h
      → t < 256
      → kind_of t ≡ unknown_kind
      → length ps < n
      → read_all D S took dangling n s (bytes_of_all ps ++ (header_bytes h t ++ rest)) ≡ (
          let end = on_packets D S took dangling ps s in
          at_idle (record end { pcount = suc end.pcount }))
  unfolding after_next do_read_body
  read_all_unknown ps n s h t rest ok oh lt unknown room =
      let end = on_packets D S took dangling ps s in
      rw
        (
          read_all-bytes_of_all D S took dangling ps n (suc (n - length ps - 1)) s
              (header_bytes h t ++ rest) ok (omega arith),
          read_all-next D S took dangling (n - length ps - 1) end (header_bytes h t ++ rest),
          do_read_header_lem D S took dangling h t end rest oh lt,
          unknown,
        )
        refl
