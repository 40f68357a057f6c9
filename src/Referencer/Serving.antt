-- ===== src/Referencer/Serving.antt =====
-- `execute` calls the tasks in the order in which they were put.
use order_book_sketch.Common.{
  ℕ, zero, suc, ℤ, pos, ◌==ℤ◌, false, List, [], ◌∷◌, ◌++◌, Option, none, some, ◌==◌, ◌≡◌, ◌≢◌, refl,
  arith, ◌∙◌, ap, All, get_or,
}
use order_book_sketch.Elements.{Memory, IsNew}
use order_book_sketch.MsgList.Fifo.{Holds}
use order_book_sketch.Referencer.{
  priority_max, Referencer, next_task, Round, go_on, done, fault, same_slice, count_call,
  after_call, on_called, call_functor, round, Executed, returned, broken, execute_from, slice_of,
  execute,
}
use order_book_sketch.Referencer.Ready.{
  IsReady, IsIdle, IsIdle-trans, Holds-nonzero, put_all-IsReady, IsPlain, next_task-plain,
}

-- the calls of a queue that is served for `n` rounds, the latest first, with what arrives during each;
-- `none` if it is not empty by then
abbrev pub serve : (ℕ → List ℕ) → ℕ → List ℕ → List ℕ → Option (List ℕ)
serve meanwhile n [] called = some called
serve meanwhile zero (t ∷ ts) called = none
serve meanwhile (suc n) (t ∷ ts) called = serve meanwhile n (ts ++ meanwhile t) (t ∷ called)

after_call-plain :
    (new : Memory → ℕ) (post : ℕ → ℤ) (res t : ℕ) (r : Referencer)
    → IsPlain res
    → r.priority ≡ priority_max
    → after_call new post priority_max res t r ≡ same_slice new post (next_task new post res t r)
unfolding after_call count_call
after_call-plain new post res t r (_, last, _, end) prio =
    let more : (r.priority ==ℤ pos 0) ≡ false = rw prio refl in rw (end, more, last) refl

module _ (new : Memory → ℕ) (is_new : IsNew new) (post : ℕ → ℤ) (result : ℕ → ℕ)
    (meanwhile : ℕ → List ℕ) where
  abbrev pub after_round : List ℕ → Referencer → Round new post
  after_round [] r = done r
  after_round (u ∷ us) r = go_on r u

  pub same_slice-ready :
      (ts : List ℕ) (r : Referencer)
      → IsReady r ts
      → same_slice new post (some (r, get_or ts 0 0)) ≡ after_round ts r
  unfolding same_slice
  same_slice-ready [] r h = refl
  same_slice-ready (u ∷ us) r h =
      let ne = (Holds-nonzero r.completion_list (u ∷ us) h.holds).0 in
      let nonzero : (u == 0) ≡ false = ground (arith, ne) in rw nonzero refl

  -- A round calls the functor of the task, while others are put behind the rest.
  pub round-after_call :
      (slice : ℤ) (t : ℕ) (r : Referencer) (ts : List ℕ)
      → All (λ u. u ≢ 0) (meanwhile t)
      → IsReady r (t ∷ ts)
      → (r' : Referencer) × (round new post result meanwhile slice t r
          ≡ after_call new post slice (result t) t r')
        × IsReady r' (t ∷ (ts ++ meanwhile t))
        × IsIdle (record r { called = t ∷ r.called }) r'
  unfolding round call_functor on_called
  round-after_call slice t r ts ok h =
      let r0 : Referencer = record r { called = t ∷ r.called } in
      let ready0 : IsReady r0 (t ∷ ts) = record { holds = h.holds; in_use = h.in_use } in
      let (r1, puts, ready1, idle1) =
        put_all-IsReady new is_new post (meanwhile t) t r0 ts ok ready0 in
      let nonzero : (t == 0) ≡ false =
        let ne = (Holds-nonzero r.completion_list (t ∷ ts) h.holds).0 in ground (arith, ne) in
      (r1, rw (nonzero, h.in_use.0, puts) refl, ready1, idle1)

  -- One round calls the functor of the task and takes the next one.
  round-plain :
      (t : ℕ) (r : Referencer) (ts : List ℕ)
      → IsPlain (result t)
      → All (λ u. u ≢ 0) (meanwhile t)
      → r.priority ≡ priority_max
      → IsReady r (t ∷ ts)
      → (r' : Referencer) × (round new post result meanwhile priority_max t r
          ≡ after_round (ts ++ meanwhile t) r')
        × IsReady r' (ts ++ meanwhile t)
        × IsIdle (record r { called = t ∷ r.called }) r'
  round-plain t r ts plain ok prio h =
      let (r1, calls, ready1, idle1) = round-after_call priority_max t r ts ok h in
      let (r2, taken, ready2, idle2) =
        next_task-plain new is_new post (result t) t r1 (ts ++ meanwhile t) plain ready1 in
      (
        r2,
        calls
            ∙ after_call-plain new post (result t) t r1 plain (idle1.priority ∙ prio)
            ∙ ap (λ x. same_slice new post x) taken
            ∙ same_slice-ready (ts ++ meanwhile t) r2 ready2,
        ready2,
        IsIdle-trans (record r { called = t ∷ r.called }) r1 r2 idle1 idle2,
      )

  -- what `n` more rounds make of a round's end
  abbrev pub finish : ℕ → Round new post → Executed new post result meanwhile
  finish n (go_on r t) = execute_from new post result meanwhile n priority_max t r
  finish n (done r) = returned r
  finish n fault = broken

  execute_from-round :
      (n t : ℕ) (r : Referencer)
      → execute_from new post result meanwhile (suc n) priority_max t r
        ≡ finish n (round new post result meanwhile priority_max t r)
  unfolding execute_from
  execute_from-round n t r = elim (round new post result meanwhile priority_max t r) [
    | go_on r' t' ↦ refl
    | done r' ↦ refl
    | fault ↦ refl
  ]

  -- How the rounds end that begin with a queue.
  abbrev pub IsServed : Referencer → List ℕ → Executed new post result meanwhile → Type 0
  IsServed r called x =
      (r' : Referencer) × (x ≡ returned r')
      × (r'.called ≡ called)
      × (r'.posted ≡ r.posted)
      × (r'.deleted ≡ r.deleted)
      × Holds r'.completion_list []

  finish-IsServed :
      (n : ℕ) (ts : List ℕ) (r : Referencer) (called : List ℕ)
      → ((u : ℕ) → IsPlain (result u))
      → ((u : ℕ) → All (λ v. v ≢ 0) (meanwhile u))
      → r.priority ≡ priority_max
      → IsReady r ts
      → serve meanwhile n ts r.called ≡ some called
      → IsServed r called (finish n (after_round ts r))
  finish-IsServed n [] r called plain ok prio h e =
      let same : r.called ≡ called = cc in (r, refl, same, refl, refl, h.holds)
  finish-IsServed zero (t ∷ ts) r called plain ok prio h e = absurd (cc)
  finish-IsServed (suc n) (t ∷ ts) r called plain ok prio h e =
      let (r1, ends, ready, idle) = round-plain t r ts (plain t) (ok t) prio h in
      let e1 : serve meanwhile n (ts ++ meanwhile t) r1.called ≡ some called = rw (idle.called) e in
      let (r', returns, calls, posts, deletes, empty) =
        finish-IsServed n (ts ++ meanwhile t) r1 called plain ok (idle.priority ∙ prio) ready e1 in
      (
        r',
        execute_from-round n t r ∙ ap (λ x. finish n x) ends ∙ returns,
        calls,
        posts ∙ idle.posted,
        deletes ∙ idle.deleted,
        empty,
      )

  -- A Referencer without a limit, whose list holds the task and others behind it, all in use, with
  -- functors that return none of the four bits, and with a queue that is served to its end in some number
  -- of rounds: `execute` returns after as many, having called the functors as the queue is served, and
  -- the list is empty. It posts and deletes nothing.
  pub execute-serve :
      (n t : ℕ) (r : Referencer) (ts called : List ℕ)
      → ((u : ℕ) → IsPlain (result u))
      → ((u : ℕ) → All (λ v. v ≢ 0) (meanwhile u))
      → r.priority ≡ priority_max
      → IsReady r (t ∷ ts)
      → serve meanwhile n (t ∷ ts) r.called ≡ some called
      → IsServed r called (execute new post result meanwhile n t r)
  unfolding slice_of
  execute-serve n t r ts called plain ok prio h e =
      let unlimited : slice_of new post result meanwhile t r ≡ priority_max = rw prio refl in
      rw unlimited (finish-IsServed n (t ∷ ts) r called plain ok prio h e)
