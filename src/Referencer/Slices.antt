-- ===== src/Referencer/Slices.antt =====
-- `execute` with a limit on the number of calls.
use order_book_sketch.Common.{
  ℕ, zero, suc, ℤ, pos, ◌==ℤ◌, ltb_ℤ, ◌-ℤ◌, ◌≤◌, ◌<◌, true, false, List, [], ◌∷◌, ◌++◌, some, ◌==◌,
  ◌≡◌, ◌≢◌, refl, arith, ◌∙◌, ap, All, get_or,
}
use order_book_sketch.Elements.{Memory, IsNew}
use order_book_sketch.Referencer.{
  priority_q_size, Referencer, Round, go_on, done, fault, end_slice, same_slice, count_call,
  after_call, next_task, round, Executed, returned, broken, execute_from, slice_of, execute,
}
use order_book_sketch.Referencer.Ready.{IsReady, IsPlain, next_task-plain, Holds-nonzero}
use order_book_sketch.Referencer.Serving.{same_slice-ready, after_round, round-after_call}

-- a queue that is served for at most `j` rounds, and the calls, the latest first
abbrev pub turns : (ℕ → List ℕ) → ℕ → List ℕ → List ℕ → List ℕ × List ℕ
turns meanwhile zero ts called = (ts, called)
turns meanwhile (suc j) [] called = ([], called)
turns meanwhile (suc j) (t ∷ ts) called = turns meanwhile j (ts ++ meanwhile t) (t ∷ called)

-- what is posted when a slice ends with a queue
abbrev pub post_first : List ℕ → List ℕ → List ℕ
post_first [] posted = posted
post_first (u ∷ us) posted = u ∷ posted

one_less : (j : ℕ) → pos (suc j) -ℤ pos 1 ≡ pos j
unfolding ◌-ℤ◌
one_less j = ground arith

module _ (new : Memory → ℕ) (is_new : IsNew new) (post : ℕ → ℤ) where
  -- the end of a slice
  end_slice-ready :
      (ts : List ℕ) (r : Referencer)
      → IsReady r ts
      → end_slice new post (some (r, get_or ts 0 0))
        ≡ done (record r { posted = post_first ts r.posted })
  unfolding end_slice
  end_slice-ready [] r h = refl
  end_slice-ready (u ∷ us) r h =
      let ne = (Holds-nonzero r.completion_list (u ∷ us) h.holds).0 in
      let nonzero : (u == 0) ≡ false = ground (arith, ne) in rw nonzero refl

  -- The call is counted, and the slice goes on until the limit is 0.
  after_call_last :
      (k res t : ℕ) (r : Referencer)
      → IsPlain res
      → r.priority ≡ pos 1
      → after_call new post (pos (suc k)) res t r
        ≡ end_slice new post (next_task new post res t (record r { priority = pos 0 }))
  unfolding after_call count_call
  after_call_last k res t r (_, _, _, end) prio =
      let limited : ltb_ℤ (pos 0) (pos (suc k)) ≡ true = ground arith in
      rw (end, limited, prio, one_less 0) refl

  after_call_more :
      (k j res t : ℕ) (r : Referencer)
      → IsPlain res
      → r.priority ≡ pos (suc (suc j))
      → after_call new post (pos (suc k)) res t r
        ≡ same_slice new post (next_task new post res t (record r { priority = pos (suc j) }))
  unfolding after_call count_call
  after_call_more k j res t r (_, last, _, end) prio =
      let limited : ltb_ℤ (pos 0) (pos (suc k)) ≡ true = ground arith in
      let more : (pos (suc j) ==ℤ pos 0) ≡ false = ground arith in
      rw (end, limited, prio, one_less (suc j), more, last) refl

module _ (new : Memory → ℕ) (is_new : IsNew new) (post : ℕ → ℤ) (result : ℕ → ℕ)
    (meanwhile : ℕ → List ℕ) (k : ℕ) where
  -- what `n` more rounds make of a round's end
  abbrev finish : ℕ → Round new post → Executed new post result meanwhile
  finish n (go_on r t) = execute_from new post result meanwhile n (pos (suc k)) t r
  finish n (done r) = returned r
  finish n fault = broken

  execute_from-round :
      (n t : ℕ) (r : Referencer)
      → execute_from new post result meanwhile (suc n) (pos (suc k)) t r
        ≡ finish n (round new post result meanwhile (pos (suc k)) t r)
  unfolding execute_from
  execute_from-round n t r = elim (round new post result meanwhile (pos (suc k)) t r) [
    | go_on r' t' ↦ refl
    | done r' ↦ refl
    | fault ↦ refl
  ]

  -- How `execute` ends that leaves a queue: its first task is posted.
  abbrev pub IsSliced : Referencer → List ℕ × List ℕ → Executed new post result meanwhile → Type 0
  IsSliced r w x =
      (r' : Referencer) × (x ≡ returned r')
      × (r'.called ≡ w.1)
      × (r'.posted ≡ post_first w.0 r.posted)
      × IsReady r' w.0

  IsSliced-from :
      (r0 r : Referencer) (w : List ℕ × List ℕ) (x : Executed new post result meanwhile)
      → r.posted ≡ r0.posted
      → IsSliced r w x
      → IsSliced r0 w x
  IsSliced-from r0 r w x same (r', ends, calls, posts, ready) =
      (r', ends, calls, posts ∙ ap (λ p. post_first w.0 p) same, ready)

  -- a call of a functor, and the next task
  call_and_next :
      (j t : ℕ) (r : Referencer) (ts : List ℕ)
      → IsPlain (result t)
      → All (λ v. v ≢ 0) (meanwhile t)
      → r.priority ≡ pos (suc j)
      → IsReady r (t ∷ ts)
      → (r1 : Referencer) × (r2 : Referencer) × (round new post result meanwhile (pos (suc k)) t r
          ≡ after_call new post (pos (suc k)) (result t) t r1)
        × (r1.priority ≡ pos (suc j))
        × (next_task new post (result t) t (record r1 { priority = pos j })
            ≡ some (r2, get_or (ts ++ meanwhile t) 0 0))
        × IsReady r2 (ts ++ meanwhile t)
        × (r2.priority ≡ pos j)
        × (r2.called ≡ t ∷ r.called)
        × (r2.posted ≡ r.posted)
  call_and_next j t r ts plain ok prio h =
      let (r1, calls, ready1, idle1) =
        round-after_call new is_new post result meanwhile (pos (suc k)) t r ts ok h in
      let counted : Referencer = record r1 { priority = pos j } in
      let ready : IsReady counted (t ∷ (ts ++ meanwhile t)) = record {
        holds = ready1.holds;
        in_use = ready1.in_use;
      } in
      let (r2, taken, ready2, idle2) =
        next_task-plain new is_new post (result t) t counted (ts ++ meanwhile t) plain ready in
      (
        r1,
        r2,
        calls,
        idle1.priority ∙ prio,
        taken,
        ready2,
        idle2.priority,
        idle2.called ∙ idle1.called,
        idle2.posted ∙ idle1.posted,
      )

  go_on-IsSliced :
      (n j : ℕ) (r : Referencer) (ts : List ℕ)
      → ((u : ℕ) → IsPlain (result u))
      → ((u : ℕ) → All (λ v. v ≢ 0) (meanwhile u))
      → suc j ≤ n
      → r.priority ≡ pos (suc j)
      → IsReady r ts
      → IsSliced r
          (turns meanwhile (suc j) ts r.called)
          (finish n (after_round new is_new post result meanwhile ts r))
  go_on-IsSliced n j r [] plain ok le prio h = (r, refl, refl, refl, h)
  go_on-IsSliced zero j r (t ∷ ts) plain ok le prio h = absurd (omega (arith, le))
  go_on-IsSliced (suc n) zero r (t ∷ ts) plain ok le prio h =
      let (r1, r2, calls, prio1, taken, ready, prio2, called, posted) =
        call_and_next zero t r ts (plain t) (ok t) prio h in
      let q = ts ++ meanwhile t in
      (
        record r2 { posted = post_first q r2.posted },
        execute_from-round n t r
            ∙ ap (λ x. finish n x)
                (calls
                  ∙ after_call_last new is_new post k (result t) t r1 (plain t) prio1
                  ∙ ap (λ x. end_slice new post x) taken
                  ∙ end_slice-ready new is_new post q r2 ready),
        called,
        ap (λ p. post_first q p) posted,
        record { holds = ready.holds; in_use = ready.in_use },
      )
  go_on-IsSliced (suc n) (suc j) r (t ∷ ts) plain ok le prio h =
      let (r1, r2, calls, prio1, taken, ready, prio2, called, posted) =
        call_and_next (suc j) t r ts (plain t) (ok t) prio h in
      let q = ts ++ meanwhile t in
      let ends : execute_from new post result meanwhile (suc n) (pos (suc k)) t r
          ≡ finish n (after_round new is_new post result meanwhile q r2) =
        execute_from-round n t r
        ∙ ap (λ x. finish n x)
            (calls
              ∙ after_call_more new is_new post k j (result t) t r1 (plain t) prio1
              ∙ ap (λ x. same_slice new post x) taken
              ∙ same_slice-ready new is_new post result meanwhile q r2 ready) in
      let rest = go_on-IsSliced n j r2 q plain ok (omega (arith, le)) prio2 ready in
      let rest' = rw called at rest in
      rw ends (
        IsSliced-from r r2 (turns meanwhile (suc j) q (t ∷ r.called))
          (finish n (after_round new is_new post result meanwhile q r2)) posted rest')

  -- With a limit of one call or more, functors that return none of the four bits, and a list that holds
  -- the task and others behind it, all in use: `execute` returns, having called as many functors as the
  -- limit says in the order of the queue, or all if the queue is served before, and where tasks are left
  -- it posts the first of them.
  pub execute-turns :
      (n t : ℕ) (r : Referencer) (ts : List ℕ)
      → ((u : ℕ) → IsPlain (result u))
      → ((u : ℕ) → All (λ v. v ≢ 0) (meanwhile u))
      → k < n
      → r.priority ≡ pos (suc k)
      → IsReady r (t ∷ ts)
      → IsSliced r
          (turns meanwhile (suc k) (t ∷ ts) r.called)
          (execute new post result meanwhile n t r)
  unfolding slice_of
  execute-turns n t r ts plain ok lt prio h =
      let other : (r.priority ==ℤ priority_q_size) ≡ false = rw prio (ground arith) in
      let limited : slice_of new post result meanwhile t r ≡ pos (suc k) = rw other prio in
      rw limited (go_on-IsSliced n k r (t ∷ ts) plain ok (omega (arith, lt)) prio h)
