-- ===== src/MsgQ.antt =====
-- Common/include/containers/msgq.hpp: the queue of messages with keys that threads wait on, with a spin
-- lock, as its template arguments are by default. A call that would spin on the lock of the queue that
-- it holds itself is `blocked`, and `fault` is a pointer to nothing that lives. The waits of the condition
-- have empty bodies, and `GetTime` gives the same time always.
pub mod Waiting
use order_book_sketch.Common.{
  ℕ, zero, suc, ℤ, pos, negsuc, ◌+ℤ◌, ◌-ℤ◌, ◌==ℤ◌, leb_ℤ, Bool, true, false, List, [], ◌∷◌, Option,
  none, some, ◌==◌, if◌then◌else◌, ◌≡◌, refl,
}
use order_book_sketch.Elements.{
  MsgElement, new_element, Memory, at, write, get_element, release_element,
}

pub record MsgQ : Type 0 where
  pub memory : Memory
  pub head : ℕ
  pub tail : ℕ
  pub waiting_for_take : ℤ
  pub locked : Bool

-- how a call ends, with what it returns
pub data Ended (A : Type 0) : Type 0 where
  ended : MsgQ → A → Ended A
  blocked : Ended A
  fault : Ended A

-- a message, or a null pointer, and the key that comes with it
abbrev pub Taken : Type 0
Taken = ℕ × Option ℕ

-- the end of `get`
unfoldable pub take_next : MsgQ → ℕ → Option MsgElement → Ended Taken
take_next q p none = fault
take_next q p (some e) =
    ended (record q { head = p; memory = release_element q.head q.memory }) (e.value, some e.key)

-- `get` with the head as it finds it
unfoldable pub take_at : MsgQ → Option MsgElement → Ended Taken
take_at q none = fault
take_at q (some m) =
    if m.next == 0 then ended q (0, none) else take_next q m.next (at m.next q.memory)

-- `MsgQ::get`
unfoldable pub get : MsgQ → Ended Taken
get q = if q.locked then blocked else take_at q (at q.head q.memory)

-- the locked part of `post`
unfoldable pub link : ℕ → MsgQ → Option MsgElement → Ended ℤ
link p q none = fault
link p q (some t) =
    ended (record q { memory = write q.tail (record t { next = p }) q.memory; tail = p }) (pos 0)

-- What `wait` returns, with the message that it leaves in `data`; the key stays behind.
abbrev pub Waited : Type 0
Waited = ℤ × ℕ

abbrev pub stop_waiting : MsgQ → MsgQ
stop_waiting q = record q { waiting_for_take = q.waiting_for_take -ℤ pos 1; locked = false }

-- The loops of `wait`, `n` times at most. `none` is a wait that goes on.
unfoldable pub wait_from : ℕ → ℤ → MsgQ → Option (Ended Waited)
wait_from zero timeout q = none
wait_from (suc n) timeout q = elim (get q) [
  | blocked ↦ some blocked
  | fault ↦ some fault
  | ended q' (data', _) ↦
      if data' == 0
      then (if timeout ==ℤ negsuc 0
          then wait_from n timeout q'
          else if leb_ℤ timeout (pos 0)
          then some (ended (stop_waiting q') (negsuc 0, 0))
          else wait_from n timeout q')
      else some (ended (stop_waiting q') (pos 0, data'))
]

-- what `wait` does after its first `get`
unfoldable pub wait_after : ℕ → ℤ → Ended Taken → Option (Ended Waited)
wait_after n timeout blocked = some blocked
wait_after n timeout fault = some fault
wait_after n timeout (ended q (data', _)) =
    if data' == 0
    then (if timeout ==ℤ pos 0
        then some (ended q (negsuc 0, 0))
        else if q.locked
        then some blocked
        else wait_from n timeout
            (record q { waiting_for_take = q.waiting_for_take +ℤ pos 1; locked = true }))
    else some (ended q (pos 0, data'))

-- `MsgQ::wait`
unfoldable pub wait : ℕ → ℤ → MsgQ → Option (Ended Waited)
wait n timeout q = wait_after n timeout (get q)

module _ (new : Memory → ℕ) where
  -- `MsgQ()`
  abbrev pub new_queue : Memory → MsgQ
  new_queue m = record {
    memory = write (new m) new_element m;
    head = new m;
    tail = new m;
    waiting_for_take = pos 0;
    locked = false;
  }

  -- `MsgQ::post`; the signal of the condition has an empty body
  unfoldable pub post : ℕ → ℕ → MsgQ → Ended ℤ
  post value key q =
      if value == 0
      then ended q (negsuc 0)
      else let (m, p) = get_element new q.memory in
        let memory = write p (record new_element { value = value; key = key }) m in
        if q.locked then blocked else link p (record q { memory = memory }) (at q.tail memory)
