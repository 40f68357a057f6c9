-- ===== src/ExchangeSession/Reader.antt =====
-- `readThread` and `recvMsg` of ExchangeSession.cpp, with NSESession's `disconnect`. A poll is one
-- round of the loop of `recvMsg`: what the world gives, what `select` returns and what `recv` does. An
-- offset counts from the start of the read buffer, where every `recv` writes, since `_msgSize` stays 0.
use order_book_sketch.Common.{
  ℕ, zero, suc, Bool, true, false, ℤ, pos, ◌+ℤ◌, ◌-ℤ◌, ◌==ℤ◌, leb, ◌+◌, ◌&&◌, not, List, ◌≡◌, ◌==◌,
  ltb, ◌-◌, ◌^◌, negsuc, [], ◌∷◌, Option, none, some, if◌then◌else◌,
}
use order_book_sketch.ExchangeConnection.{is_connected, is_ready_read, would_spin}
use order_book_sketch.ExchangeSession.{
  World, Session, Ending, returned, runtime_error, disconnect, send_logon, check_status,
}

-- What `recv` does: some bytes, the end of the stream, an error to try again after, another error.
pub data Received : Type 0 where
  bytes : ℕ → Received
  peer_closed : Received
  try_again : Received
  failed : Received

pub record Poll : Type 0 where
  pub world : World
  pub selected : ℤ
  pub received : Received

-- How `recvMsg` ends: true with a number of bytes, false, an exception of `checkStatus`, or not yet
-- after the polls given.
pub data Receipt : Type 0 where
  got : ℕ → Receipt
  lost : Receipt
  threw : Receipt
  waiting : Receipt

-- `recvMsg` once the socket is ready, given the outcome of its loop after a check and without one
unfoldable pub on_received :
    World → Received → Session → Session × Receipt → Session × Receipt → Session × Receipt
on_received w (bytes n) s checked again = (s, got n)
on_received w peer_closed s checked again = (disconnect w s, lost)
on_received w try_again s checked again = if would_spin s.connection then checked else again
on_received w failed s checked again = (disconnect w s, lost)

-- The loop goes on after a check that did not throw.
unfoldable pub after_check : (Session → Session × Receipt) → Session × Ending → Session × Receipt
after_check k (s, returned) = k s
after_check k (s, runtime_error) = (s, threw)

-- `recvMsg`
unfoldable pub recv_msg : List Poll → Session → Session × Receipt
recv_msg [] s = (s, waiting)
recv_msg (p ∷ ps) s =
    let checked = after_check (λ t. recv_msg ps t) (check_status p.world s) in
    if is_ready_read p.selected s.connection
    then on_received p.world p.received s checked (recv_msg ps s)
    else if is_connected s.connection
    then checked
    else (s, lost)

-- What the loop over the received bytes works on: the session, `currMsgBuf`, `totalSize`,
-- `readBufEnd`, and the messages given to `processInMessage`, as offset and length, the latest first.
pub record Drain : Type 0 where
  pub session : Session
  pub curr : ℕ
  pub total : ℤ
  pub read_end : ℕ
  pub handled : List (ℕ × ℕ)

-- `isFullMsg`: the length of the message at an offset if all of it is there
abbrev pub Framer : Type 0
Framer = ℕ → ℤ → Option ℕ

-- a signed count as the 64-bit word that it is compared as
abbrev pub word : ℤ → ℕ
word (pos n) = n
word (negsuc n) = 2 ^ 64 - suc n

-- `NSESession::isFullMsg`: everything is one message.
abbrev pub nse_framer : Framer
nse_framer offset total = some (word total)

-- `totalSize && isFullMsg(currMsgBuf, totalSize, msgLen)`
unfoldable pub full_msg : Framer → Drain → Option ℕ
full_msg f d = if d.total ==ℤ pos 0 then none else f d.curr d.total

-- `this->disconnect()` if the test holds
abbrev pub disconnect_if : World → Bool → Drain → Drain
disconnect_if w t d = if t then record d { session = disconnect w d.session } else d

-- `currMsgBuf >= readBufEnd && totalSize`
abbrev pub overrun : Drain → Bool
overrun d = leb d.read_end d.curr && not (d.total ==ℤ pos 0)

-- One round of the loop on a full message, where `processInMessage` does nothing to the session
unfoldable pub take_msg : World → ℕ → Drain → Drain
take_msg w len d =
    let d₁ = record d {
      session = record (d.session) { last_rec_time = w.now };
      handled = (d.curr, len) ∷ d.handled;
    } in
    let d₂ = disconnect_if w (ltb (word d.total) len) d₁ in
    let d₃ = record d₂ { curr = d.curr + len; total = d.total -ℤ pos len } in
    disconnect_if w (overrun d₃) d₃

-- The last round: the bytes of an unfinished message are moved to the start of the buffer.
unfoldable pub leave : World → Drain → Drain
leave w d = disconnect_if w (not (d.curr == 0) && overrun d) d

-- The loop, with fuel for the messages
unfoldable pub drain : Framer → World → ℕ → Drain → Option Drain
drain f w zero d = none
drain f w (suc n) d = elim (full_msg f d) [
  | some len ↦ drain f w n (take_msg w len d)
  | none ↦ some (leave w d)
]

-- What `readThread` keeps between its rounds: the session, whether `start` is set, `readBufEnd` and
-- `totalSize`.
pub record Reader : Type 0 where
  pub session : Session
  pub started : Bool
  pub read_end : ℕ
  pub total : ℤ

abbrev pub new_reader : Session → Reader
new_reader s = record { session = s; started = false; read_end = 0; total = pos 0 }

-- What is done first in a round of `readThread` on a session that is not logged on
unfoldable pub log_on_first : World → Reader → Reader × Ending
log_on_first w r =
    if r.session.logged_on
    then (r, returned)
    else if r.session.sent_logon
    then (let c = check_status w r.session in (record r { session = c.0 }, c.1))
    else let l = send_logon w r.session in
      (record r { session = l.0; started = false; read_end = 0 }, l.1)

-- The end of a round, after the loop over the bytes
unfoldable pub after_drain : World → ℕ → Option Drain → Option Reader
after_drain w end none = none
after_drain w end (some d) = some (record {
  session = (check_status w d.session).0;
  started = true;
  read_end = end;
  total = d.total;
})

-- `start` and `readBufEnd` are set by the first receipt only.
abbrev pub end_of : ℕ → Reader → ℕ
end_of sz r = if r.started then r.read_end else sz

abbrev pub drain_of : ℕ → Reader → Drain
drain_of sz r = record {
  session = r.session;
  curr = 0;
  total = r.total +ℤ pos sz;
  read_end = end_of sz r;
  handled = [];
}

-- The rest of a round once `sz` bytes are received
unfoldable pub on_bytes : Framer → World → ℕ → ℕ → Reader → Option Reader
on_bytes f w fuel sz r = after_drain w (end_of sz r) (drain f w fuel (drain_of sz r))

-- A round after `recvMsg`: when it returns false the count of bytes starts again.
unfoldable pub on_receipt : Framer → World → ℕ → Reader → Receipt → Option Reader
on_receipt f w fuel r (got sz) = on_bytes f w fuel sz r
on_receipt f w fuel r lost = some (record r { total = pos 0 })
on_receipt f w fuel r threw = some r
on_receipt f w fuel r waiting = none

-- A round after its first part, where an exception ends the round
unfoldable pub read_on : Framer → List Poll → World → ℕ → Reader × Ending → Option Reader
read_on f ps w fuel (r, returned) =
    let m = recv_msg ps r.session in on_receipt f w fuel (record r { session = m.0 }) m.1
read_on f ps w fuel (r, runtime_error) = some r

-- A round of the loop of `readThread`; `none` if it does not end with the polls and the fuel given.
-- The first world is that of the log on, the second that of all that follows the receipt.
unfoldable pub read_step : Framer → World → List Poll → World → ℕ → Reader → Option Reader
read_step f w ps w₂ fuel r = read_on f ps w₂ fuel (log_on_first w r)

-- The reader thread runs rounds until `_shutdown`.
pub data Runs (f : Framer) : Reader → Reader → Type 0 where
  at_start : {r : Reader} → Runs f r r
  round :
      {r r' r'' : Reader} (w : World) (ps : List Poll) (w₂ : World) (fuel : ℕ)
      → Runs f r r'
      → r'.session.is_shutdown ≡ false
      → read_step f w ps w₂ fuel r' ≡ some r''
      → Runs f r r''
