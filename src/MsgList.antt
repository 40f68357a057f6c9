-- ===== src/MsgList.antt =====
-- Common/include/containers/msglist.hpp: the linked list of messages, with one element before the first
-- message. Each call is atomic here, as its lock makes it for calls of the same end. The result is `none`
-- where the code would follow a pointer to nothing that lives.
pub mod Chain
pub mod Fifo
pub mod Runs
use order_book_sketch.Common.{
  ℕ, zero, suc, ℤ, pos, negsuc, ◌+ℤ◌, ◌-ℤ◌, List, [], ◌∷◌, Option, none, some, ◌==◌, if◌then◌else◌,
  ◌≡◌, refl,
}
use order_book_sketch.Elements.{
  MsgElement, new_element, Memory, at, write, get_element, release_element,
}

pub record MsgList : Type 0 where
  pub memory : Memory
  pub head : ℕ
  pub tail : ℕ
  pub size : ℤ

-- the write of `_tail->_next` and what follows it in `put`
unfoldable pub append : ℕ → MsgList → Option MsgElement → Option (MsgList × ℤ)
append p l none = none
append p l (some t) =
    let size = l.size +ℤ pos 1 in
    some (
      record {
        memory = write l.tail (record t { next = p }) l.memory;
        head = l.head;
        tail = p;
        size = size;
      },
      size,
    )

-- the end of `get`: the old head and its message go
unfoldable pub advance : MsgList → ℕ → Option MsgElement → Option (MsgList × ℕ × ℤ)
advance l p none = none
advance l p (some e) =
    let size = l.size -ℤ pos 1 in
    let memory = if e.value == 0 then l.memory else release_element l.head l.memory in
    some (record { memory = memory; head = p; tail = l.tail; size = size }, e.value, size)

-- `get` with the head as it finds it
unfoldable pub get_at : MsgList → Option MsgElement → Option (MsgList × ℕ × ℤ)
get_at l none = none
get_at l (some m) =
    if m.next == 0 then some (l, 0, pos 0) else advance l m.next (at m.next l.memory)

unfoldable pub get : MsgList → Option (MsgList × ℕ × ℤ)
get l = get_at l (at l.head l.memory)

-- what `peek` reads in the element after the head
unfoldable pub peek_next : MsgList → Option MsgElement → Option (ℕ × ℤ)
peek_next l none = none
peek_next l (some e) = some (e.value, l.size)

unfoldable pub peek_at : MsgList → Option MsgElement → Option (ℕ × ℤ)
peek_at l none = none
peek_at l (some m) = if m.next == 0 then some (0, l.size) else peek_next l (at m.next l.memory)

unfoldable pub peek : MsgList → Option (ℕ × ℤ)
peek l = peek_at l (at l.head l.memory)

module _ (new : Memory → ℕ) where
  -- `MsgList()`
  abbrev pub new_list : Memory → MsgList
  new_list m = record {
    memory = write (new m) new_element m;
    head = new m;
    tail = new m;
    size = pos 0;
  }

  unfoldable pub put : ℕ → MsgList → Option (MsgList × ℤ)
  put value l =
      if value == 0
      then some (l, negsuc 0)
      else let (m, p) = get_element new l.memory in
        let memory = write p (record new_element { value = value }) m in
        append p (record l { memory = memory }) (at l.tail memory)
