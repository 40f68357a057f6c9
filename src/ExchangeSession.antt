-- ===== src/ExchangeSession.antt =====
-- OrderManagementSystem/include/ExchangeSession.hpp, src/ExchangeSession.cpp and what
-- include/NSESession.hpp and src/NSESession.cpp override in it: the session with an exchange and its
-- reader thread. What the world gives to a call stands in a World: the time, the sockets that attempts
-- to connect give, the lengths of the filled messages and what `writeMsg` returns for them. The
-- administrative messages that went out and the notifications that were posted are kept in lists, the
-- latest first. The bytes of the read buffer are not kept, and the buffer sizes that are only printed
-- are left out.
pub mod Reader
pub mod Drained
pub mod Reached
use order_book_sketch.Common.{
  ℕ, zero, suc, Bool, true, false, ℤ, pos, ◌+ℤ◌, ◌-ℤ◌, leb_ℤ, ltb_ℤ, ◌==ℤ◌, ◌==◌, leb, ◌+◌, ◌*◌,
  ◌&&◌, ◌||◌, not, List, [], ◌∷◌, if◌then◌else◌,
}
use order_book_sketch.ExchangeConnection
use order_book_sketch.ExchangeConnection.{Connection, is_connected}

pub data AdminMsg : Type 0 where
  logon : AdminMsg
  logout : AdminMsg
  heartbeat : AdminMsg
  test_req : AdminMsg

pub record World : Type 0 where
  pub now : ℤ
  pub create : ℕ → ℤ
  pub fill_length : AdminMsg → ℕ
  pub written : AdminMsg → ℤ

pub record Session : Type 0 where
  pub connection : Connection
  pub is_shutdown : Bool
  pub logged_on : Bool
  pub sent_logon : Bool
  pub logon_timeout : ℤ
  pub sent_logout : Bool
  pub send_pending : Bool
  pub need_test_req : Bool
  pub disconnect_timeout_on_hb_miss : ℤ
  pub heart_beat_interval : ℤ
  pub last_sent_time : ℤ
  pub last_rec_time : ℤ
  pub test_req_interval : ℕ
  pub test_req_cnt : ℕ
  pub sent : List AdminMsg
  pub posted : List Bool

-- `ExchangeSession(name)` at the time `now`
abbrev pub new_session : ℤ → Session
new_session now = record {
  connection = ExchangeConnection.new_connection;
  is_shutdown = false;
  logged_on = false;
  sent_logon = false;
  logon_timeout = pos 10;
  sent_logout = false;
  send_pending = false;
  need_test_req = false;
  disconnect_timeout_on_hb_miss = pos 3;
  heart_beat_interval = pos 30;
  last_sent_time = now;
  last_rec_time = now;
  test_req_interval = 5;
  test_req_cnt = 0;
  sent = [];
  posted = [];
}

-- `init(configStr)` of the connection in it
abbrev pub init : Session → Session
init s = record s { connection = ExchangeConnection.init s.connection }

-- `start()`: the thread is the caller of `Reader.read_step`
abbrev pub start : Session → Session
start s = record s { is_shutdown = false }

-- A call returns, or throws std::runtime_error.
pub data Ending : Type 0 where
  returned : Ending
  runtime_error : Ending

-- `NSESession::disconnect`: the connection is closed without another attempt, the flags are reset and
-- the closing is posted.
unfoldable pub disconnect : World → Session → Session
disconnect w s = record s {
  connection = ExchangeConnection.disconnect w.create false s.connection;
  logged_on = false;
  sent_logon = false;
  sent_logout = false;
  posted = false ∷ s.posted;
}

-- `NSESession::sendRaw`, which is `sendMsg`
unfoldable pub send_raw : World → AdminMsg → Session → Session × Bool
send_raw w m s =
    if not (w.fill_length m == 0) && (w.written m ==ℤ pos (w.fill_length m))
    then (record s { last_sent_time = w.now; sent = m ∷ s.sent }, true)
    else (s, false)

abbrev pub finish_logon : Session × Bool → Session × Ending
finish_logon (s, true) = (record s { sent_logon = true }, returned)
finish_logon (s, false) = (s, runtime_error)

-- The end of `sendLogon` on a connected session
unfoldable pub log_on : World → Session → Session × Ending
log_on w s =
    if s.logged_on
    then (s, returned)
    else finish_logon (send_raw w logon (record s { sent_logon = false }))

-- `sendLogon`
unfoldable pub send_logon : World → Session → Session × Ending
send_logon w s =
    if is_connected s.connection
    then log_on w s
    else let r = ExchangeConnection.connect w.create s.connection in
      if r.1
      then log_on w (record s { connection = r.0 })
      else (record s { connection = r.0 }, runtime_error)

-- `sendLogout`, which is all that `NSESession::shutdown` does
unfoldable pub send_logout : World → Session → Session × Ending
send_logout w s =
    if s.sent_logout || not s.logged_on
    then (s, returned)
    else let r = send_raw w logout s in
      if r.1 then (record (r.0) { sent_logout = true }, returned) else (r.0, runtime_error)

abbrev pub finish_send : Session × Bool → Session × Ending
finish_send (s, true) = (s, returned)
finish_send (s, false) = (s, runtime_error)

-- `sendHeartbeat`
unfoldable pub send_heartbeat : World → Session → Session × Ending
send_heartbeat w s =
    if s.send_pending || not s.logged_on
    then (s, returned)
    else finish_send (send_raw w heartbeat s)

-- `sendTestReq`
unfoldable pub send_test_req : World → Session → Session × Ending
send_test_req w s = if not s.logged_on then (s, returned) else finish_send (send_raw w test_req s)

-- `checkStatus` on a session that is not connected or not logged on
unfoldable pub check_logon : World → Session → Session
check_logon w s =
    if is_connected s.connection
      && s.sent_logon
      && ltb_ℤ s.logon_timeout (w.now -ℤ s.last_sent_time)
    then disconnect w s
    else s

-- `++_testReqCnt` after a request that did not throw
abbrev pub count_request : Session × Ending → Session × Ending
count_request (t, returned) = (record t { test_req_cnt = t.test_req_cnt + 1 }, returned)
count_request (t, runtime_error) = (t, runtime_error)

-- `checkStatus`: the branch on what was received last
unfoldable pub check_received : World → Session → Session × Ending
check_received w s =
    let since = w.now -ℤ s.last_rec_time in
    if leb_ℤ s.disconnect_timeout_on_hb_miss since
    then (disconnect w (record s { logged_on = false }), returned)
    else if not s.need_test_req
    then (s, returned)
    else if leb_ℤ (pos ((s.test_req_cnt + 1) * s.test_req_interval)) since
    then (if s.send_pending then count_request (send_test_req w s) else (s, returned))
    else if not (s.test_req_cnt == 0) && ltb_ℤ since (pos s.test_req_interval)
    then (record s { test_req_cnt = 0 }, returned)
    else (s, returned)

-- `checkStatus`: the heartbeat at the end, if it is due and nothing was thrown before
unfoldable pub heartbeat_after : World → Bool → Session × Ending → Session × Ending
heartbeat_after w due (s, returned) = if due then send_heartbeat w s else (s, returned)
heartbeat_after w due (s, runtime_error) = (s, runtime_error)

-- `checkStatus`, where the heartbeat is due by the time that had passed when the check began
unfoldable pub check_status : World → Session → Session × Ending
check_status w s =
    if not (is_connected s.connection) || not s.logged_on
    then (check_logon w s, returned)
    else heartbeat_after w (leb_ℤ s.heart_beat_interval (w.now -ℤ s.last_sent_time))
        (check_received w s)
