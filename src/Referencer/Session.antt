-- ===== src/Referencer/Session.antt =====
-- A Referencer from its construction on, and the tasks that `getNext` gives.
use order_book_sketch.Common.{
  ℕ, suc, ℤ, pos, ltb_ℤ, true, not, List, [], ◌∷◌, length, some, ◌≡◌, ◌≢◌, refl, arith, ◌∙◌, All,
}
use order_book_sketch.Elements.{Memory, IsNew}
use order_book_sketch.MsgList.Fifo.{
  Holds, new_list-Holds, put-Holds, get-Holds, get_empty, peek-Holds,
}
use order_book_sketch.Referencer.{
  FlagStatus, Referencer, set_inuse, new_referencer, after_put, put_task, put_all, after_peek,
  after_get, get_next, execute,
}
use order_book_sketch.Referencer.Ready.{IsReady, set_inuse_self, put_all-IsReady, IsPlain}
use order_book_sketch.Referencer.Serving.{serve, IsServed, execute-serve}

-- what `getNext` should give, and what it gives
abbrev pub second : List ℕ → ℕ
second [] = 0
second (t ∷ []) = t
second (t ∷ (u ∷ us)) = u

abbrev pub rest_of : List ℕ → List ℕ
rest_of [] = []
rest_of (t ∷ ts) = ts

module _ (new : Memory → ℕ) (is_new : IsNew new) (post : ℕ → ℤ) where
  -- `getNext` takes the first task out of the list and gives the second, a null pointer if the list was
  -- empty, but the task that it took out if there is no second.
  pub get_next-second :
      (r : Referencer) (ts : List ℕ)
      → Holds r.completion_list ts
      → (r' : Referencer) × (get_next new post r ≡ some (r', second ts))
        × Holds r'.completion_list (rest_of ts)
  unfolding get_next after_get after_peek
  get_next-second r [] h = (r, rw (get_empty r.completion_list h) refl, h)
  get_next-second r (t ∷ []) h =
      let (l, got, holds) = get-Holds t r.completion_list [] h in
      (record r { completion_list = l }, rw got refl, holds)
  get_next-second r (t ∷ (u ∷ us)) h =
      let (l, got, holds) = get-Holds t r.completion_list (u ∷ us) h in
      let more : ltb_ℤ (pos 0) (pos (suc (length us))) ≡ true = ground arith in
      (record r { completion_list = l }, rw (got, more, peek-Holds l (u ∷ us) holds) refl, holds)

  -- A task that is put into an empty list is posted.
  put_task-first :
      (t : ℕ) (r : Referencer)
      → t ≢ 0
      → Holds r.completion_list []
      → (r' : Referencer) × (put_task new post t r ≡ some (r', not (ltb_ℤ (post t) (pos 0))))
        × IsReady r' (t ∷ [])
        × (r'.priority ≡ r.priority)
        × (r'.called ≡ r.called)
        × (r'.posted ≡ t ∷ r.posted)
  unfolding put_task after_put
  put_task-first t r ne h =
      let (l, put_it, holds) = put-Holds new is_new t r.completion_list [] ne h in
      (
        record (set_inuse t r) { completion_list = l; posted = t ∷ r.posted },
        rw put_it refl,
        record { holds = holds; in_use = (set_inuse_self t r, tt) },
        refl,
        refl,
        refl,
      )

  -- Some tasks, none of them null, are put into a new Referencer: only the first of them is posted. Where
  -- their functors return none of the four bits, and the queue of the tasks, with those that are put
  -- while functors run, is served to its end in some number of rounds, `execute` of the first task
  -- returns after as many, has called the functors in the order in which the tasks were put, has posted
  -- nothing more and leaves the list empty.
  pub put_all-execute :
      (result : ℕ → ℕ) (meanwhile : ℕ → List ℕ) (m : Memory) (status : ℕ → FlagStatus) (n t : ℕ)
      (ts called : List ℕ)
      → t ≢ 0
      → All (λ u. u ≢ 0) ts
      → ((u : ℕ) → IsPlain (result u))
      → ((u : ℕ) → All (λ v. v ≢ 0) (meanwhile u))
      → serve meanwhile n (t ∷ ts) [] ≡ some called
      → (r : Referencer) × (put_all new post (t ∷ ts) (new_referencer new post m status) ≡ some r)
        × (r.posted ≡ t ∷ [])
        × IsServed new is_new post result meanwhile r called
            (execute new post result meanwhile n t r)
  unfolding put_all
  put_all-execute result meanwhile m status n t ts called t0 ts0 plain ok e =
      let r0 = new_referencer new post m status in
      let (r1, first, ready1, prio1, called1, posted1) =
        put_task-first t r0 t0 (new_list-Holds new is_new m) in
      let (r, rest, ready, idle) = put_all-IsReady new is_new post ts t r1 [] ts0 ready1 in
      let e' : serve meanwhile n (t ∷ ts) r.called ≡ some called = rw (idle.called, called1) e in
      (
        r,
        rw (first, put_all) rest,
        idle.posted ∙ posted1,
        execute-serve new is_new post result meanwhile n t r ts called plain ok
            (idle.priority ∙ prio1) ready e',
      )
