-- ===== src/OrderPool/Buffers.antt =====
-- All orders of a pool have one buffer.
use order_book_sketch.Common.{
  ℕ, zero, suc, ◌-◌, false, List, [], ◌∷◌, none, some, ◌==◌, ◌≡◌, ◌≢◌, ◌⊎◌, refl, arith, ==_refl,
  Bool-cases, Option-cases, inl, inr,
}
use order_book_sketch.Dictionary.Assoc.{find, find-cons}
use order_book_sketch.OrderPool.{
  BaseOrder, BaseOrderManager, put_found, put_order, clone, get_found, get_order, put_clone,
  put_clones, init_order_pool, Reached, at_start, on_get, on_put,
}

abbrev pub Lives : ℕ → List (ℕ × BaseOrder) → Type 0
Lives p m = (o : BaseOrder) × (find p m ≡ some o)

-- Every order has the buffer, and its link is null or leads to an order.
abbrev pub IsLinked : ℕ → List (ℕ × BaseOrder) → Type 0
IsLinked buffer m =
    (p : ℕ) (o : BaseOrder)
    → find p m ≡ some o
    → (o.buffer ≡ buffer) × ((o.next ≡ 0) ⊎ Lives o.next m)

pub record IsPool (buffer : ℕ) (m : BaseOrderManager) : Type 0 where
  pub first : Lives m.order_list m.memory
  pub linked : IsLinked buffer m.memory

none-found : (q : ℕ) (o : BaseOrder) → find q [] ≡ some o → ⊥
unfolding find
none-found q o e = absurd (cc)

Lives-cons : (p q : ℕ) (o : BaseOrder) (m : List (ℕ × BaseOrder)) → Lives q m → Lives q ((p, o) ∷ m)
Lives-cons p q o m (o', e) = elim (Bool-cases (p == q)) [
  | inl y ↦ (o, rw (find-cons p q o m, y) refl)
  | inr n ↦ (o', rw (find-cons p q o m, n) e)
]

find-here : (p : ℕ) (o : BaseOrder) (m : List (ℕ × BaseOrder)) → find p ((p, o) ∷ m) ≡ some o
find-here p o m = rw (find-cons p p o m, ==_refl p) refl

Lives-here : (p : ℕ) (o : BaseOrder) (m : List (ℕ × BaseOrder)) → Lives p ((p, o) ∷ m)
Lives-here p o m = (o, rw (find-cons p p o m, ==_refl p) refl)

-- A write of an order with the buffer and such a link.
IsLinked-cons :
    (buffer p : ℕ) (o : BaseOrder) (m : List (ℕ × BaseOrder))
    → IsLinked buffer m
    → o.buffer ≡ buffer
    → (o.next ≡ 0) ⊎ Lives o.next ((p, o) ∷ m)
    → IsLinked buffer ((p, o) ∷ m)
IsLinked-cons buffer p o m h b link q o' e = elim (Bool-cases (p == q)) [
  | inl y ↦
      let hit = rw (find-cons p q o m, y) at e in let same : o ≡ o' = cc in rw (← same) (b, link)
  | inr n ↦
      let old = rw (find-cons p q o m, n) at e in
      let (b', link') = h q o' old in
      (b', elim link' [ inl z ↦ inl z | inr l ↦ inr (Lives-cons p o'.next o m l) ])
]

put_order_lem :
    (buffer p : ℕ) (m : BaseOrderManager) (o : BaseOrder)
    → Lives m.order_list m.memory ⊎ (m.order_list ≡ 0)
    → IsLinked buffer m.memory
    → find p m.memory ≡ some o
    → (m' : BaseOrderManager) × (put_order p m ≡ some m')
      × IsPool buffer m'
      × ((q : ℕ) → Lives q m.memory → Lives q m'.memory)
unfolding put_order put_found
put_order_lem buffer p m o first linked e =
    let o' : BaseOrder = record o { next = m.order_list } in
    (
      record { memory = (p, o') ∷ m.memory; order_list = p },
      rw e refl,
      record {
        first = Lives-here p o' m.memory;
        linked =
            IsLinked-cons buffer p o' m.memory linked (linked p o e).0 (elim first [
              | inl l ↦ inr (Lives-cons p m.order_list o' m.memory l)
              | inr z ↦ inl z
            ]);
      },
      λ q l. Lives-cons p q o' m.memory l,
    )

put_order-none : (p : ℕ) (m : BaseOrderManager) → find p m.memory ≡ none → put_order p m ≡ none
unfolding put_order put_found
put_order-none p m e = rw e refl

put_order-IsPool :
    (buffer p : ℕ) (m m' : BaseOrderManager)
    → IsPool buffer m
    → put_order p m ≡ some m'
    → IsPool buffer m'
put_order-IsPool buffer p m m' h e = elim (Option-cases (find p m.memory)) [
  | inl missing ↦ let none_given = put_order-none p m missing in absurd (cc)
  | inr (o, there) ↦
      let (m1, done, pool, _) = put_order_lem buffer p m o (inl h.first) h.linked there in
      let same : m1 ≡ m' = cc in rw same at pool
]

module _ (new : List (ℕ × BaseOrder) → ℕ) where
  get_found_lem :
      (buffer : ℕ) (m : BaseOrderManager) (o : BaseOrder)
      → IsPool buffer m
      → find m.order_list m.memory ≡ some o
      → (m' : BaseOrderManager) × (p : ℕ) × (o' : BaseOrder) × (get_found new m (some o)
          ≡ some (m', p))
        × IsPool buffer m'
        × (find p m'.memory ≡ some o')
        × (o'.buffer ≡ buffer)
  unfolding get_found
  get_found_lem buffer m o h e = elim (Bool-cases (o.next == 0)) [
    | inl y ↦
        let p = new m.memory in
        let last : o.next ≡ 0 = ground (arith, y) in
        let own = (h.linked m.order_list o e).0 in
        (
          record m { memory = (p, o) ∷ m.memory },
          p,
          o,
          rw y refl,
          record {
            first = Lives-cons p m.order_list o m.memory h.first;
            linked = IsLinked-cons buffer p o m.memory h.linked own (inl last);
          },
          find-here p o m.memory,
          own,
        )
    | inr n ↦
        let (own, link) = h.linked m.order_list o e in
        (
          record m { order_list = o.next },
          m.order_list,
          o,
          rw n refl,
          record {
            first = elim link [ inl z ↦ absurd (ground (arith, n, z)) | inr l ↦ l ];
            linked = h.linked;
          },
          e,
          own,
        )
  ]

  get_order_lem :
      (buffer : ℕ) (m : BaseOrderManager)
      → IsPool buffer m
      → (m' : BaseOrderManager) × (p : ℕ) × (o' : BaseOrder) × (get_order new m ≡ some (m', p))
        × IsPool buffer m'
        × (find p m'.memory ≡ some o')
        × (o'.buffer ≡ buffer)
  unfolding get_order
  get_order_lem buffer m h = let (o, e) = h.first in rw e (get_found_lem buffer m o h e)

  Reached-IsPool :
      {start m : BaseOrderManager} (buffer : ℕ)
      → IsPool buffer start
      → Reached new start m
      → IsPool buffer m
  Reached-IsPool buffer h at_start = h
  Reached-IsPool {m = m} buffer h (on_get {m = m1} p r e) =
      let (m2, p2, o, got, pool, _, _) = get_order_lem buffer m1 (Reached-IsPool buffer h r) in
      let same : m2 ≡ m = cc in rw same at pool
  Reached-IsPool {m = m} buffer h (on_put {m = m1} p r e) =
      put_order-IsPool buffer p m1 m (Reached-IsPool buffer h r) e

  -- a clone that is put into the pool
  put_clone_lem :
      (buffer p : ℕ) (m : BaseOrderManager) (o : BaseOrder)
      → IsPool buffer m
      → find p m.memory ≡ some o
      → (m' : BaseOrderManager) × (put_clone new m (some o) ≡ some m')
        × IsPool buffer m'
        × ((q : ℕ) → Lives q m.memory → Lives q m'.memory)
  unfolding put_clone
  put_clone_lem buffer p m o h e =
      let c = new m.memory in
      let (own, link) = h.linked p o e in
      let copied : (o.next ≡ 0) ⊎ Lives o.next ((c, o) ∷ m.memory) = elim link [
        | inl z ↦ inl z
        | inr l ↦ inr (Lives-cons c o.next o m.memory l)
      ] in
      let linked = IsLinked-cons buffer c o m.memory h.linked own copied in
      let (m', done, pool, live) =
        put_order_lem buffer c (clone new o m).0 o
          (inl (Lives-cons c m.order_list o m.memory h.first)) linked (find-here c o m.memory) in
      (m', done, pool, λ q l. live q (Lives-cons c q o m.memory l))

  put_clones_lem :
      (buffer p : ℕ) (n : ℕ) (m : BaseOrderManager)
      → IsPool buffer m
      → Lives p m.memory
      → (m' : BaseOrderManager) × (put_clones new n p m ≡ some m') × IsPool buffer m'
  unfolding put_clones
  put_clones_lem buffer p zero m h lives = (m, refl, h)
  put_clones_lem buffer p (suc n) m h (o, there) =
      let (m1, put_it, pool, live) = put_clone_lem buffer p m o h there in
      let (m2, rest, pool') = put_clones_lem buffer p n m1 pool (live p (o, there)) in
      (m2, rw (there, put_it, put_clones) rest, pool')

  init_order_pool_lem :
      (buffer size : ℕ)
      → (m : BaseOrderManager) × (init_order_pool new buffer size ≡ some m) × IsPool buffer m
  unfolding init_order_pool
  init_order_pool_lem buffer size =
      let o : BaseOrder = record { next = 0; buffer = buffer } in
      let p = new [] in
      let m : BaseOrderManager = record { memory = (p, o) ∷ []; order_list = 0 } in
      let nothing : IsLinked buffer [] = λ q o' e. absurd (none-found q o' e) in
      let linked = IsLinked-cons buffer p o [] nothing refl (inl refl) in
      let (m1, put_it, pool, live) =
        put_order_lem buffer p m o (inr refl) linked (find-here p o []) in
      let (m2, rest, pool') =
        put_clones_lem buffer p (size - 1) m1 pool (live p (Lives-here p o [])) in
      (m2, rw (put_it, init_order_pool) rest, pool')

  -- Once `initOrderPool` has run, whatever its size, and after any calls of `getOrder` and `putOrder`,
  -- `getOrder` gives an order without following a pointer to nothing, and the order has the one buffer
  -- that the first order was made with.
  pub get_order-shared :
      (buffer size : ℕ)
      → (start : BaseOrderManager) × (init_order_pool new buffer size ≡ some start)
        × ((m : BaseOrderManager)
            → Reached new start m
            → (m' : BaseOrderManager) × (p : ℕ) × (o : BaseOrder) × (get_order new m ≡ some (m', p))
              × (find p m'.memory ≡ some o)
              × (o.buffer ≡ buffer))
  get_order-shared buffer size =
      let (start, made, pool) = init_order_pool_lem buffer size in
      (
        start,
        made,
        λ m r.
            let (m', p, o, got, _, there, own) =
              get_order_lem buffer m (Reached-IsPool buffer pool r) in
            (m', p, o, got, there, own),
      )

  -- An order that is put back twice in a row is given out by every `getOrder` that follows.
  pub put_order-twice :
      (p : ℕ) (m : BaseOrderManager)
      → p ≢ 0
      → Lives p m.memory
      → (m1 : BaseOrderManager) × (m2 : BaseOrderManager) × (put_order p m ≡ some m1)
        × (put_order p m1 ≡ some m2)
        × (get_order new m2 ≡ some (m2, p))
  unfolding put_order put_found get_order get_found
  put_order-twice p m ne (o, there) =
      let o1 : BaseOrder = record o { next = m.order_list } in
      let o2 : BaseOrder = record o { next = p } in
      let m1 : BaseOrderManager = record { memory = (p, o1) ∷ m.memory; order_list = p } in
      let m2 : BaseOrderManager = record { memory = (p, o2) ∷ m1.memory; order_list = p } in
      let nonzero : (p == 0) ≡ false = ground (arith, ne) in
      (
        m1,
        m2,
        rw there refl,
        rw (find-here p o1 m.memory) refl,
        rw (find-here p o2 m1.memory, nonzero) refl,
      )
