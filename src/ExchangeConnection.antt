-- ===== src/ExchangeConnection.antt =====
-- OrderManagementSystem/include/ExchangeConnection.hpp: the TCP connection of a session. What the
-- system calls return (`createConnection`, `send`, `recv`, `select`) is an argument: a function of
-- the attempt, or a list of one entry for each call.
pub mod Attempts
pub mod Written
use order_book_sketch.Common.{
  ℕ, zero, suc, Bool, true, false, ℤ, pos, negsuc, ◌+ℤ◌, ◌==ℤ◌, ltb_ℤ, ltb, leb, ◌-◌, ◌+◌, ◌&&◌,
  not, List, [], ◌∷◌, Option, none, some, if◌then◌else◌,
}

pub record Connection : Type 0 where
  pub non_blocking : Bool
  pub spin_reader_thread : Bool
  pub socket_buf_size : ℕ
  pub connect_timeout : ℕ
  pub max_retries : ℕ
  pub reconnect_interval : ℕ
  pub select_timeout : ℕ
  pub socket_file_desc : ℤ

-- `ExchangeConnection()`
abbrev pub new_connection : Connection
new_connection = record {
  non_blocking = true;
  spin_reader_thread = false;
  socket_buf_size = 1048576;
  connect_timeout = 3;
  max_retries = 3;
  reconnect_interval = 2;
  select_timeout = 5;
  socket_file_desc = negsuc 0;
}

-- `init(config)`, which sets fixed values
abbrev pub init : Connection → Connection
init c = record {
  non_blocking = true;
  spin_reader_thread = false;
  socket_buf_size = 1024;
  connect_timeout = 10;
  max_retries = 5;
  reconnect_interval = 10;
  select_timeout = 10;
  socket_file_desc = negsuc 0;
}

abbrev pub is_connected : Connection → Bool
is_connected c = not (c.socket_file_desc ==ℤ negsuc 0)

-- The loop of `connect` from the attempt `retry`, with at most `n` further attempts after it.
unfoldable pub connect_from : (ℕ → ℤ) → ℕ → ℕ → Connection → Connection × Bool
connect_from create retry zero c =
    if create retry ==ℤ negsuc 0
    then (c, false)
    else (record c { socket_file_desc = create retry }, true)
connect_from create retry (suc n) c =
    let rest = connect_from create (suc retry) n c in
    if create retry ==ℤ negsuc 0 then rest else (record c { socket_file_desc = create retry }, true)

-- `connect`: the loop makes an attempt before it looks at `_maxRetries`.
unfoldable pub connect : (ℕ → ℤ) → Connection → Connection × Bool
connect create c = connect_from create 0 (c.max_retries - 1) c

-- `disconnect(reconnect)`
unfoldable pub disconnect : (ℕ → ℤ) → Bool → Connection → Connection
disconnect create reconnect c =
    let c' = record c { socket_file_desc = negsuc 0 } in
    if reconnect then (connect create c').0 else c'

-- `isReadyRead`, where `rv` is what `select` returns
unfoldable pub is_ready_read : ℤ → Connection → Bool
is_ready_read rv c =
    if c.non_blocking && not c.spin_reader_thread then is_connected c && ltb_ℤ (pos 0) rv else true

abbrev pub would_spin : Connection → Bool
would_spin c = c.non_blocking && c.spin_reader_thread

-- What one `send` does: some bytes, none, an error after which `select` finds the socket ready, or
-- another error.
pub data Sent : Type 0 where
  sent_bytes : ℕ → Sent
  sent_none : Sent
  retry_ready : Sent
  send_failed : Sent

-- The loop of `writeMsg` once `bytes_sent` of `size` bytes are out; `none` if it is still at it after
-- the calls of the list. The condition of the loop is tested after a `continue` too.
unfoldable pub write_from : ℕ → ℕ → List Sent → Option ℤ
write_from size bytes_sent [] = none
write_from size bytes_sent (sent_bytes n ∷ calls) =
    let rest = write_from size (bytes_sent + n) calls in
    if ltb (bytes_sent + n) size then rest else some (pos (bytes_sent + n))
write_from size bytes_sent (sent_none ∷ calls) = some (negsuc 0)
write_from size bytes_sent (retry_ready ∷ calls) =
    let rest = write_from size bytes_sent calls in
    if ltb bytes_sent size then rest else some (pos bytes_sent)
write_from size bytes_sent (send_failed ∷ calls) =
    if leb bytes_sent 0 then some (negsuc 0) else some (pos bytes_sent)

-- `writeMsg`
unfoldable pub write_msg : ℕ → List Sent → Option ℤ
write_msg size calls = write_from size 0 calls
