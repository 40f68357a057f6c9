-- ===== src/Referencer.antt =====
-- Common/include/containers/Referencer.hpp: tasks that share a resource are run one at a time, in the
-- order in which they were put. A task is a pointer. The functor of a task and the dispatch queue are
-- arguments: the bits that the functor returns, the tasks that are put while it runs, and what `post`
-- returns. The Referencer has no aspect, as its constructor leaves it by default. What has been called,
-- posted and deleted is kept, the latest first. `none` is a pointer to nothing that lives.
pub mod Ready
pub mod Serving
pub mod Session
pub mod Slices
use order_book_sketch.Common.{
  ℕ, zero, suc, ℤ, pos, negsuc, ◌+ℤ◌, ◌-ℤ◌, ◌==ℤ◌, ltb_ℤ, Bool, true, false, not, ◌||◌, List, [],
  ◌∷◌, Option, none, some, ◌==◌, ◌/◌, ◌%◌, if◌then◌else◌, ◌≡◌, refl,
}
use order_book_sketch.Elements.{Memory}
use order_book_sketch.MsgList.{MsgList, get, peek, new_list, put}

-- `FlagStatus`
pub data FlagStatus : Type 0 where
  status_free : FlagStatus
  status_inuse : FlagStatus
  status_canceled : FlagStatus
  status_completed : FlagStatus

abbrev pub is_inuse : FlagStatus → Bool
is_inuse status_free = false
is_inuse status_inuse = true
is_inuse status_canceled = false
is_inuse status_completed = false

-- `ReturnBitmask`, one test for each bit
abbrev pub has_keep : ℕ → Bool
has_keep res = res % 2 == 1

abbrev pub has_last : ℕ → Bool
has_last res = (res / 2) % 2 == 1

abbrev pub has_del : ℕ → Bool
has_del res = (res / 4) % 2 == 1

abbrev pub has_end : ℕ → Bool
has_end res = (res / 8) % 2 == 1

-- `FUNCTOR_PRIORITY_MAX` and `FUNCTOR_PRIORITY_Q_SIZE`
abbrev pub priority_max : ℤ
priority_max = negsuc 0

abbrev pub priority_q_size : ℤ
priority_q_size = negsuc 1

pub record Referencer : Type 0 where
  pub completion_list : MsgList
  pub priority : ℤ
  pub status : ℕ → FlagStatus
  pub called : List ℕ
  pub posted : List ℕ
  pub deleted : List ℕ

-- `setStatus(FLAG_STATUS_INUSE)` of a task
abbrev pub set_inuse : ℕ → Referencer → Referencer
set_inuse t r = record r { status = λ q. if q == t then status_inuse else r.status q }

module _ (new : Memory → ℕ) (post : ℕ → ℤ) where
  -- `Referencer()`
  abbrev pub new_referencer : Memory → (ℕ → FlagStatus) → Referencer
  new_referencer m status = record {
    completion_list = new_list new m;
    priority = priority_max;
    status = status;
    called = [];
    posted = [];
    deleted = [];
  }

  -- the test of `put` on the size that the list gives
  unfoldable pub after_put : ℕ → Referencer → Option (MsgList × ℤ) → Option (Referencer × Bool)
  after_put t r none = none
  after_put t r (some (l, size)) =
      if size ==ℤ pos 1
      then some
          (record r { completion_list = l; posted = t ∷ r.posted }, not (ltb_ℤ (post t) (pos 0)))
      else some (record r { completion_list = l }, true)

  -- `Referencer::put`
  unfoldable pub put_task : ℕ → Referencer → Option (Referencer × Bool)
  put_task t r = after_put t (set_inuse t r) (put new t r.completion_list)

  unfoldable pub put_all : List ℕ → Referencer → Option Referencer
  put_all [] r = some r
  put_all (t ∷ ts) r = elim (put_task t r) [ none ↦ none | some (r', _) ↦ put_all ts r' ]

  -- `peek` after `get`
  unfoldable pub after_peek : Referencer → Option (ℕ × ℤ) → Option (Referencer × ℕ)
  after_peek r none = none
  after_peek r (some (t, _)) = some (r, t)

  -- `getNext`: where the list is empty afterwards, the pointer is still what `get` made of it.
  unfoldable pub after_get : Referencer → Option (MsgList × ℕ × ℤ) → Option (Referencer × ℕ)
  after_get r none = none
  after_get r (some (l, t, size)) =
      if ltb_ℤ (pos 0) size
      then after_peek (record r { completion_list = l }) (peek l)
      else some (record r { completion_list = l }, t)

  unfoldable pub get_next : Referencer → Option (Referencer × ℕ)
  get_next r = after_get r (get r.completion_list)

  -- the same in `execute`, where the pointer is null if the list is empty afterwards
  unfoldable pub after_get_next : Referencer → Option (MsgList × ℕ × ℤ) → Option (Referencer × ℕ)
  after_get_next r none = none
  after_get_next r (some (l, t, size)) =
      if ltb_ℤ (pos 0) size
      then after_peek (record r { completion_list = l }) (peek l)
      else some (record r { completion_list = l }, 0)

  -- What follows a call of a functor that returned `res`: the task is deleted, and the next one is
  -- taken, as the bits say.
  unfoldable pub next_task : ℕ → ℕ → Referencer → Option (Referencer × ℕ)
  next_task res t r =
      let r' = if has_del res then record r { deleted = t ∷ r.deleted } else r in
      if has_keep res
      then some (r', if has_del res then 0 else t)
      else after_get_next r' (get r'.completion_list)

  -- how a round of `execute` ends
  pub data Round : Type 0 where
    go_on : Referencer → ℕ → Round
    done : Referencer → Round
    fault : Round

  -- the end of a slice: the next task is posted for another dispatcher
  unfoldable pub end_slice : Option (Referencer × ℕ) → Round
  end_slice none = fault
  end_slice (some (r, t)) = if t == 0 then done r else done (record r { posted = t ∷ r.posted })

  unfoldable pub same_slice : Option (Referencer × ℕ) → Round
  same_slice none = fault
  same_slice (some (r, t)) = if t == 0 then done r else go_on r t

  unfoldable pub count_call : ℤ → Referencer → Referencer
  count_call slice r = record r {
    priority = if ltb_ℤ (pos 0) slice then r.priority -ℤ pos 1 else r.priority;
  }

  -- what follows the call of the functor
  unfoldable pub after_call : ℤ → ℕ → ℕ → Referencer → Round
  after_call slice res t r =
      if has_end res
      then done r
      else let r' = count_call slice r in
        if (r'.priority ==ℤ pos 0) || has_last res
        then end_slice (next_task res t r')
        else same_slice (next_task res t r')

  module _ (result : ℕ → ℕ) (meanwhile : ℕ → List ℕ) where
    unfoldable pub on_called : ℤ → ℕ → Option Referencer → Round
    on_called slice t none = fault
    on_called slice t (some r) = after_call slice (result t) t r

    -- the call of the functor of `t`
    unfoldable pub call_functor : ℤ → ℕ → Referencer → Round
    call_functor slice t r =
        on_called slice t (put_all (meanwhile t) (record r { called = t ∷ r.called }))

    -- one round of the loop of `execute`
    unfoldable pub round : ℤ → ℕ → Referencer → Round
    round slice t r =
        if t == 0
        then done r
        else if is_inuse (r.status t)
        then call_functor slice t r
        else let r' = set_inuse t r in
          if r.completion_list.size ==ℤ pos 1 then call_functor slice t r' else go_on r' t

    -- how `execute` ends; `running` is when the rounds given are over
    pub data Executed : Type 0 where
      returned : Referencer → Executed
      running : Executed
      broken : Executed

    unfoldable pub execute_from : ℕ → ℤ → ℕ → Referencer → Executed
    execute_from zero slice t r = running
    execute_from (suc n) slice t r = elim (round slice t r) [
      | go_on r' t' ↦ execute_from n slice t' r'
      | done r' ↦ returned r'
      | fault ↦ broken
    ]

    -- the priority that `execute` starts with
    unfoldable pub slice_of : ℕ → Referencer → ℤ
    slice_of t r =
        if r.priority ==ℤ priority_q_size
        then (if is_inuse (r.status t)
            then r.completion_list.size
            else r.completion_list.size +ℤ pos 1)
        else r.priority

    -- `execute`, for `n` rounds
    abbrev pub execute : ℕ → ℕ → Referencer → Executed
    execute n t r = execute_from n (slice_of t r) t r
