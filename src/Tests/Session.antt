-- ===== src/Tests/Session.antt =====
-- The session with an exchange on a few rounds.
use order_book_sketch.Common.{
  ℕ, zero, suc, true, false, ℤ, pos, negsuc, List, [], ◌∷◌, some, ◌≡◌, refl, arith, ◌+ℤ◌, ◌-ℤ◌,
  replicate,
}
use order_book_sketch.ExchangeConnection
use order_book_sketch.ExchangeConnection.{
  Connection, new_connection, connect, connect_from, is_ready_read,
}
use order_book_sketch.ExchangeConnection.Written.{IsWritten, write_msg-IsWritten}
use order_book_sketch.ExchangeConnection.{
  Sent, sent_bytes, sent_none, send_failed, retry_ready, write_msg, write_from,
}
use order_book_sketch.ExchangeConnection.Attempts.{IsConnected, connect-IsConnected}
use order_book_sketch.ExchangeSession.{
  World, Session, logon, new_session, init, disconnect, check_status, send_logon, log_on, send_raw,
  check_logon,
}
use order_book_sketch.ExchangeSession.Reader.{
  Reader, new_reader, nse_framer, Poll, bytes, peer_closed, read_step, at_start, round, Drain,
  drain, read_on, log_on_first, recv_msg, on_received, on_receipt, after_check, on_bytes,
  after_drain, take_msg, leave, full_msg,
}
use order_book_sketch.ExchangeSession.Reached.{IsQuiet, Runs-IsQuiet}
use order_book_sketch.ExchangeSession.Drained.{IsFramer, IsDrained, IsHandled, drain-IsDrained}

-- the second attempt gives socket 5
abbrev second_works : ℕ → ℤ
second_works (suc zero) = pos 5
second_works n = negsuc 0

connect-IsConnected_example :
    IsConnected second_works 0 2 new_connection (connect second_works new_connection)
connect-IsConnected_example = connect-IsConnected second_works new_connection

-- 13 bytes, of which the first call takes 5 and the third the rest
abbrev calls : List Sent
calls = sent_bytes 5 ∷ retry_ready ∷ sent_bytes 8 ∷ replicate 11 sent_none

write_msg-IsWritten_example : (r : ℤ) × (write_msg 13 calls ≡ some r) × IsWritten 13 0 calls r
write_msg-IsWritten_example =
    write_msg-IsWritten 13 calls (omega arith)
      ((λ h. (omega arith, omega arith)), ((λ h. (omega arith, omega arith)), tt)) (omega arith)

-- The second call fails: five bytes are out.
cut_short : write_msg 13 (sent_bytes 5 ∷ send_failed ∷ []) ≡ some (pos 5)
unfolding write_msg write_from
cut_short = refl

abbrev world : ℤ → World
world now = record {
  now = now;
  create = second_works;
  fill_length = λ _. 13;
  written = λ _. pos 13;
}

abbrev up : Session
up = record (new_session (pos 100)) {
  connection = record new_connection { socket_file_desc = pos 5 };
  logged_on = true;
  sent = logon ∷ [];
}

nse_framer-IsFramer : IsFramer nse_framer
nse_framer-IsFramer i t len h e = ground arith

abbrev received : Drain
received = record { session = up; curr = 0; total = pos 20; read_end = 20; handled = [] }

drain-IsDrained_example :
    (d : Drain) × (drain nse_framer (world (pos 140)) 21 received ≡ some d)
    × IsDrained nse_framer 20 d
    × IsHandled nse_framer 0 20 d []
drain-IsDrained_example =
    drain-IsDrained nse_framer (world (pos 140)) 21 20 received nse_framer-IsFramer refl
      (omega arith)

abbrev start : Reader
start = new_reader (init (new_session (pos 100)))

-- A round that connects, logs on and loses the connection, and then one that gets four bytes.
abbrev closing : List Poll
closing = record { world = world (pos 101); selected = pos 1; received = peer_closed } ∷ []

abbrev four : List Poll
four = record { world = world (pos 102); selected = pos 1; received = bytes 4 } ∷ []

-- after the first of them, and after both
abbrev closed_reader : Reader
closed_reader = record {
  session = record (init (new_session (pos 100))) {
    last_sent_time = pos 100;
    sent = logon ∷ [];
    posted = false ∷ [];
  };
  started = false;
  read_end = 0;
  total = pos 0;
}

closed_step :
    read_step nse_framer (world (pos 100)) closing (world (pos 101)) 5 start ≡ some closed_reader
unfolding read_step read_on log_on_first send_logon log_on send_raw connect connect_from recv_msg
    on_received on_receipt disconnect ExchangeConnection.disconnect is_ready_read after_check
    check_status check_logon ◌-ℤ◌
closed_step = refl

abbrev open_reader : Reader
open_reader = record {
  session = record (init (new_session (pos 100))) {
    connection = record (init (new_session (pos 100))).connection { socket_file_desc = pos 5 };
    sent_logon = true;
    last_sent_time = pos 101;
    last_rec_time = pos 102;
    sent = logon ∷ logon ∷ [];
    posted = false ∷ [];
  };
  started = true;
  read_end = 4;
  total = pos 0;
}

open_step :
    read_step nse_framer (world (pos 101)) four (world (pos 102)) 5 closed_reader ≡ some open_reader
unfolding read_step read_on log_on_first send_logon log_on send_raw connect connect_from recv_msg
    on_received on_receipt disconnect ExchangeConnection.disconnect is_ready_read after_check
    check_status check_logon ◌-ℤ◌ ◌+ℤ◌ on_bytes after_drain take_msg leave full_msg drain
open_step = refl

start-IsQuiet : IsQuiet start.session
start-IsQuiet = (refl, tt, λ h. absurd (cc))

Runs-IsQuiet_example : IsQuiet open_reader.session
Runs-IsQuiet_example = Runs-IsQuiet nse_framer start open_reader start-IsQuiet (
    round (world (pos 101)) four (world (pos 102)) 5
      (round (world (pos 100)) closing (world (pos 101)) 5 at_start refl closed_step) refl
      open_step)
