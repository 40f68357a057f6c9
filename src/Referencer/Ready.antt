-- ===== src/Referencer/Ready.antt =====
-- The calls of a Referencer whose list holds tasks: others are put behind them, and the first is taken.
use order_book_sketch.Common.{
  ℕ, suc, ℤ, pos, ◌==ℤ◌, ltb_ℤ, true, false, List, [], ◌∷◌, ◌++◌, length, some, ◌==◌, ◌≡◌, ◌≢◌,
  refl, arith, ◌∙◌, All, All-snoc, append-append, append-nil, get_or, Bool-cases, inl, inr,
}
use order_book_sketch.Elements.{Memory, IsNew}
use order_book_sketch.MsgList.{MsgList}
use order_book_sketch.MsgList.Chain.{Link, values, IsChain}
use order_book_sketch.MsgList.Fifo.{Holds, put-Holds, get-Holds, peek-Holds}
use order_book_sketch.Referencer.{
  is_inuse, has_keep, has_last, has_del, has_end, Referencer, set_inuse, after_put, put_task,
  put_all, after_peek, after_get_next, next_task,
}

-- The list holds the tasks, and each is in use.
pub record IsReady (r : Referencer) (ts : List ℕ) : Type 0 where
  pub holds : Holds r.completion_list ts
  pub in_use : All (λ t. is_inuse (r.status t) ≡ true) ts

-- Nothing was called, posted or deleted in between, and the priority is the same.
pub record IsIdle (r r' : Referencer) : Type 0 where
  pub priority : r'.priority ≡ r.priority
  pub called : r'.called ≡ r.called
  pub posted : r'.posted ≡ r.posted
  pub deleted : r'.deleted ≡ r.deleted

pub IsIdle-trans : (r r' r'' : Referencer) → IsIdle r r' → IsIdle r' r'' → IsIdle r r''
IsIdle-trans r r' r'' h k = record {
  priority = k.priority ∙ h.priority;
  called = k.called ∙ h.called;
  posted = k.posted ∙ h.posted;
  deleted = k.deleted ∙ h.deleted;
}

set_inuse-in_use :
    (t : ℕ) (r : Referencer) (ts : List ℕ)
    → All (λ u. is_inuse (r.status u) ≡ true) ts
    → All (λ u. is_inuse ((set_inuse t r).status u) ≡ true) ts
set_inuse-in_use t r [] h = tt
set_inuse-in_use t r (u ∷ us) h = (
  elim (Bool-cases (u == t)) [ inl y ↦ rw y refl | inr n ↦ rw n (h.0) ],
  set_inuse-in_use t r us h.1,
)

pub set_inuse_self : (t : ℕ) (r : Referencer) → is_inuse ((set_inuse t r).status t) ≡ true
set_inuse_self t r = let same : (t == t) ≡ true = ground arith in rw same refl

links-nonzero :
    (m : Memory) (p : ℕ) (ls : List Link) → IsChain m p ls → All (λ x. x ≢ 0) (values ls)
links-nonzero m p [] h = tt
links-nonzero m p ((q, x) ∷ ls) h = (h.2, links-nonzero m q ls h.5)

pub Holds-nonzero : (l : MsgList) (xs : List ℕ) → Holds l xs → All (λ x. x ≢ 0) xs
Holds-nonzero l xs h = rw (h.messages) at (links-nonzero l.memory l.head h.links h.chain)

module _ (new : Memory → ℕ) (is_new : IsNew new) (post : ℕ → ℤ) where
  -- A task that is put behind others is not posted.
  put_task-IsReady :
      (t u : ℕ) (r : Referencer) (us : List ℕ)
      → t ≢ 0
      → IsReady r (u ∷ us)
      → (r' : Referencer) × (put_task new post t r ≡ some (r', true))
        × IsReady r' (u ∷ (us ++ (t ∷ [])))
        × IsIdle r r'
  unfolding put_task after_put
  put_task-IsReady t u r us ne h =
      let (l, put_it, holds) = put-Holds new is_new t r.completion_list (u ∷ us) ne h.holds in
      let several : (pos (suc (suc (length us))) ==ℤ pos 1) ≡ false = ground arith in
      (
        record (set_inuse t r) { completion_list = l },
        rw (put_it, several) refl,
        record {
          holds = holds;
          in_use =
              All-snoc (λ v. is_inuse ((set_inuse t r).status v) ≡ true) (u ∷ us) t
                (set_inuse-in_use t r (u ∷ us) h.in_use) (set_inuse_self t r);
        },
        record { priority = refl; called = refl; posted = refl; deleted = refl },
      )

  pub put_all-IsReady :
      (ts : List ℕ) (u : ℕ) (r : Referencer) (us : List ℕ)
      → All (λ t. t ≢ 0) ts
      → IsReady r (u ∷ us)
      → (r' : Referencer) × (put_all new post ts r ≡ some r')
        × IsReady r' (u ∷ (us ++ ts))
        × IsIdle r r'
  unfolding put_all
  put_all-IsReady [] u r us ok h = (
    r,
    refl,
    rw (append-nil us) h,
    record { priority = refl; called = refl; posted = refl; deleted = refl },
  )
  put_all-IsReady (t ∷ ts) u r us ok h =
      let (r1, put_it, ready, idle) = put_task-IsReady t u r us ok.0 h in
      let (r2, rest, ready', idle') = put_all-IsReady ts u r1 (us ++ (t ∷ [])) ok.1 ready in
      let same : (us ++ (t ∷ [])) ++ ts ≡ us ++ (t ∷ ts) = append-append us (t ∷ []) ts in
      (
        r2,
        rw (put_it, put_all) rest,
        rw (← same) ready',
        record {
          priority = idle'.priority ∙ idle.priority;
          called = idle'.called ∙ idle.called;
          posted = idle'.posted ∙ idle.posted;
          deleted = idle'.deleted ∙ idle.deleted;
        },
      )

-- A functor that returns none of the four bits.
abbrev pub IsPlain : ℕ → Type 0
IsPlain res =
    (has_keep res ≡ false) × (has_last res ≡ false) × (has_del res ≡ false) × (has_end res ≡ false)

module _ (new : Memory → ℕ) (is_new : IsNew new) (post : ℕ → ℤ) where
  -- The task leaves the list, and the next one is its new first, if there is one.
  pub next_task-plain :
      (res t : ℕ) (r : Referencer) (ts : List ℕ)
      → IsPlain res
      → IsReady r (t ∷ ts)
      → (r' : Referencer) × (next_task new post res t r ≡ some (r', get_or ts 0 0))
        × IsReady r' ts
        × IsIdle r r'
  unfolding next_task after_get_next after_peek
  next_task-plain res t r [] (keep, _, del, _) h =
      let (l, got, holds) = get-Holds t r.completion_list [] h.holds in
      (
        record r { completion_list = l },
        rw (keep, del, got) refl,
        record { holds = holds; in_use = tt },
        record { priority = refl; called = refl; posted = refl; deleted = refl },
      )
  next_task-plain res t r (u ∷ us) (keep, _, del, _) h =
      let (l, got, holds) = get-Holds t r.completion_list (u ∷ us) h.holds in
      let more : ltb_ℤ (pos 0) (pos (suc (length us))) ≡ true = ground arith in
      (
        record r { completion_list = l },
        rw (keep, del, got, more, peek-Holds l (u ∷ us) holds) refl,
        record { holds = holds; in_use = h.in_use.1 },
        record { priority = refl; called = refl; posted = refl; deleted = refl },
      )
