-- ===== src/ExchangeSession/Reached.antt =====
-- What the reader thread can make of a new session: nothing in the code reports a successful logon.
use order_book_sketch.Common.{
  ℕ, zero, suc, Bool, true, false, ℤ, pos, negsuc, ◌==ℤ◌, ◌==◌, ==ℤ→eq, ltb_ℤ, ◌&&◌, not, List, [],
  ltb, ◌+◌, ◌∷◌, some, All, ◌≡◌, refl, arith, Bool-cases, Option-cases, inl, inr, ◌⊎◌, sym, ◌∙◌,
  ◌-ℤ◌,
}
use order_book_sketch.ExchangeConnection
use order_book_sketch.ExchangeConnection.{Connection, is_connected, is_ready_read, would_spin}
use order_book_sketch.ExchangeConnection.Attempts.{connect-IsConnected}
use order_book_sketch.ExchangeSession.{
  World, Session, AdminMsg, logon, Ending, returned, runtime_error, disconnect, send_raw, log_on,
  finish_logon, send_logon, check_logon, check_status,
}
use order_book_sketch.ExchangeSession.Drained.{drain_no_fuel, drain-take_msg, drain-leave}
use order_book_sketch.ExchangeSession.Reader.{
  Poll, Received, bytes, peer_closed, try_again, failed, Receipt, got, lost, threw, waiting,
  on_received, after_check, recv_msg, Drain, Framer, full_msg, disconnect_if, overrun, take_msg,
  leave, drain, Reader, log_on_first, drain_of, after_drain, on_bytes, on_receipt, read_on,
  read_step, Runs, at_start, round, word,
}

-- Not logged on, only logons were sent, and a logon that was sent went over a connection that is open.
abbrev pub IsQuiet : Session → Type 0
IsQuiet s =
    (s.logged_on ≡ false)
    × All (λ m. m ≡ logon) s.sent
    × (s.sent_logon ≡ true → is_connected s.connection ≡ true)

IsQuiet-disconnect : (w : World) (s : Session) → IsQuiet s → IsQuiet (disconnect w s)
unfolding disconnect
IsQuiet-disconnect w s h = (refl, h.1, λ (e : false ≡ true). absurd (cc))

IsQuiet-check_logon : (w : World) (s : Session) → IsQuiet s → IsQuiet (check_logon w s)
unfolding check_logon
IsQuiet-check_logon w s h =
    let t =
      is_connected s.connection
      && s.sent_logon
      && ltb_ℤ s.logon_timeout (w.now -ℤ s.last_sent_time) in
    elim (Bool-cases t) [ inl e ↦ rw e (IsQuiet-disconnect w s h) | inr n ↦ rw n h ]

pub check_status_quiet :
    (w : World) (s : Session) → s.logged_on ≡ false → check_status w s ≡ (check_logon w s, returned)
unfolding check_status
check_status_quiet w s h = elim (Bool-cases (is_connected s.connection)) [
  | inl e ↦ rw (e, h) refl
  | inr n ↦ rw n refl
]

connect-is_connected :
    (create : ℕ → ℤ) (c : Connection)
    → (ExchangeConnection.connect create c).1 ≡ true
    → is_connected (ExchangeConnection.connect create c).0 ≡ true
connect-is_connected create c e = elim (connect-IsConnected create c) [
  | inl (i, _, (_, taken, _), q) ↦ rw q (ground (arith, taken, ==ℤ→eq (create i) (negsuc 0)))
  | inr (_, q) ↦ absurd (cc)
]

send_raw-cases :
    (w : World) (m : AdminMsg) (s : Session)
    → (send_raw w m s ≡ (record s { last_sent_time = w.now; sent = m ∷ s.sent }, true))
      ⊎ (send_raw w m s ≡ (s, false))
unfolding send_raw
send_raw-cases w m s =
    let t = not (w.fill_length m == 0) && (w.written m ==ℤ pos (w.fill_length m)) in
    elim (Bool-cases t) [ inl e ↦ inl (rw e refl) | inr n ↦ inr (rw n refl) ]

log_on_quiet :
    (w : World) (s : Session)
    → s.logged_on ≡ false
    → log_on w s ≡ finish_logon (send_raw w logon (record s { sent_logon = false }))
unfolding log_on
log_on_quiet w s h = rw h refl

IsQuiet-log_on :
    (w : World) (s : Session)
    → IsQuiet s
    → is_connected s.connection ≡ true
    → IsQuiet (log_on w s).0
IsQuiet-log_on w s h c =
    rw (log_on_quiet w s h.0) (elim (send_raw-cases w logon (record s { sent_logon = false })) [
      | inl e ↦ rw e (h.0, (refl, h.1), λ _. c)
      | inr e ↦ rw e (h.0, h.1, λ _. c)
    ])

IsQuiet-send_logon : (w : World) (s : Session) → IsQuiet s → IsQuiet (send_logon w s).0
unfolding send_logon
IsQuiet-send_logon w s h = elim (Bool-cases (is_connected s.connection)) [
  | inl e ↦ rw e (IsQuiet-log_on w s h e)
  | inr n ↦ elim (Bool-cases (ExchangeConnection.connect w.create s.connection).1) [
    | inl e ↦
        let t = record s { connection = (ExchangeConnection.connect w.create s.connection).0 } in
        let c = connect-is_connected w.create s.connection e in
        rw (n, e) (IsQuiet-log_on w t (h.0, h.1, λ _. c) c)
    | inr m ↦ rw (n, m) (h.0, h.1, λ q. let k = h.2 q in absurd (cc))
  ]
]

IsQuiet-on_received :
    (w : World) (x : Received) (s : Session) (checked again : Session × Receipt)
    → IsQuiet s
    → IsQuiet checked.0
    → IsQuiet again.0
    → IsQuiet (on_received w x s checked again).0
unfolding on_received
IsQuiet-on_received w (bytes n) s checked again h c a = h
IsQuiet-on_received w peer_closed s checked again h c a = IsQuiet-disconnect w s h
IsQuiet-on_received w failed s checked again h c a = IsQuiet-disconnect w s h
IsQuiet-on_received w try_again s checked again h c a =
    elim (Bool-cases (would_spin s.connection)) [ inl e ↦ rw e c | inr n ↦ rw n a ]

IsQuiet-recv_msg : (ps : List Poll) (s : Session) → IsQuiet s → IsQuiet (recv_msg ps s).0
unfolding recv_msg after_check
IsQuiet-recv_msg [] s h = h
IsQuiet-recv_msg (p ∷ ps) s h =
    let later = IsQuiet-recv_msg ps (check_logon p.world s) (IsQuiet-check_logon p.world s h) in
    let again = IsQuiet-recv_msg ps s h in
    let checked = after_check (λ t. recv_msg ps t) (check_logon p.world s, returned) in
    let k : IsQuiet checked.0 = later in
    rw (check_status_quiet p.world s h.0)
      (elim (Bool-cases (is_ready_read p.selected s.connection)) [
        | inl e ↦ rw e (IsQuiet-on_received p.world p.received s checked (recv_msg ps s) h k again)
        | inr n ↦ elim (Bool-cases (is_connected s.connection)) [
          | inl e ↦ rw (n, e) k
          | inr m ↦ rw (n, m) h
        ]
      ])

IsQuiet-disconnect_if :
    (w : World) (t : Bool) (d : Drain) → IsQuiet d.session → IsQuiet (disconnect_if w t d).session
IsQuiet-disconnect_if w true d h = IsQuiet-disconnect w d.session h
IsQuiet-disconnect_if w false d h = h

IsQuiet-take_msg :
    (w : World) (len : ℕ) (d : Drain) → IsQuiet d.session → IsQuiet (take_msg w len d).session
unfolding take_msg
IsQuiet-take_msg w len d h =
    let d₁ = record d {
      session = record (d.session) { last_rec_time = w.now };
      handled = (d.curr, len) ∷ d.handled;
    } in
    let d₂ = disconnect_if w (ltb (word d.total) len) d₁ in
    let d₃ = record d₂ { curr = d.curr + len; total = d.total -ℤ pos len } in
    IsQuiet-disconnect_if w (overrun d₃) d₃ (IsQuiet-disconnect_if w (ltb (word d.total) len) d₁ h)

IsQuiet-leave : (w : World) (d : Drain) → IsQuiet d.session → IsQuiet (leave w d).session
unfolding leave
IsQuiet-leave w d h = IsQuiet-disconnect_if w (not (d.curr == 0) && overrun d) d h

IsQuiet-drain :
    (f : Framer) (w : World) (n : ℕ) (d d' : Drain)
    → IsQuiet d.session
    → drain f w n d ≡ some d'
    → IsQuiet d'.session
IsQuiet-drain f w zero d d' h e = let z = drain_no_fuel f w d in absurd (cc)
IsQuiet-drain f w (suc n) d d' h e = elim (Option-cases (full_msg f d)) [
  | inr (len, q) ↦
      let rest : drain f w n (take_msg w len d) ≡ some d' =
        sym (drain-take_msg f w n len d q) ∙ e in
      IsQuiet-drain f w n (take_msg w len d) d' (IsQuiet-take_msg w len d h) rest
  | inl q ↦
      let ended : d' ≡ leave w d = cc (drain-leave f w n d q) in
      let last = IsQuiet-leave w d h in rw ended last
]

IsQuiet-check_status : (w : World) (s : Session) → IsQuiet s → IsQuiet (check_status w s).0
IsQuiet-check_status w s h = rw (check_status_quiet w s h.0) (IsQuiet-check_logon w s h)

log_on_first_sent :
    (w : World) (r : Reader)
    → r.session.logged_on ≡ false
    → r.session.sent_logon ≡ true
    → log_on_first w r
      ≡ (record r { session = (check_status w r.session).0 }, (check_status w r.session).1)
unfolding log_on_first
log_on_first_sent w r h e = rw (h, e) refl

log_on_first_new :
    (w : World) (r : Reader)
    → r.session.logged_on ≡ false
    → r.session.sent_logon ≡ false
    → log_on_first w r ≡ (
      record r { session = (send_logon w r.session).0; started = false; read_end = 0 },
      (send_logon w r.session).1,
    )
unfolding log_on_first
log_on_first_new w r h e = rw (h, e) refl

IsQuiet-log_on_first :
    (w : World) (r : Reader) → IsQuiet r.session → IsQuiet (log_on_first w r).0.session
IsQuiet-log_on_first w r h = elim (Bool-cases r.session.sent_logon) [
  | inl e ↦ rw (log_on_first_sent w r h.0 e) (IsQuiet-check_status w r.session h)
  | inr n ↦ rw (log_on_first_new w r h.0 n) (IsQuiet-send_logon w r.session h)
]

IsQuiet-on_bytes :
    (f : Framer) (w : World) (fuel sz : ℕ) (r r' : Reader)
    → IsQuiet r.session
    → on_bytes f w fuel sz r ≡ some r'
    → IsQuiet r'.session
unfolding on_bytes after_drain
IsQuiet-on_bytes f w fuel sz r r' h e = elim (Option-cases (drain f w fuel (drain_of sz r))) [
  | inl q ↦ let z = rw q at e in absurd (cc)
  | inr (d', q) ↦
      let z = rw q at e in
      let t : (check_status w d'.session).0 ≡ r'.session = cc in
      rw⁻¹ t (IsQuiet-check_status w d'.session (IsQuiet-drain f w fuel (drain_of sz r) d' h q))
]

IsQuiet-on_receipt :
    (f : Framer) (w : World) (fuel : ℕ) (r r' : Reader) (x : Receipt)
    → IsQuiet r.session
    → on_receipt f w fuel r x ≡ some r'
    → IsQuiet r'.session
unfolding on_receipt
IsQuiet-on_receipt f w fuel r r' (got sz) h e = IsQuiet-on_bytes f w fuel sz r r' h e
IsQuiet-on_receipt f w fuel r r' lost h e = let t : r.session ≡ r'.session = cc in rw⁻¹ t h
IsQuiet-on_receipt f w fuel r r' threw h e = let t : r.session ≡ r'.session = cc in rw⁻¹ t h
IsQuiet-on_receipt f w fuel r r' waiting h e = absurd (cc)

IsQuiet-read_on :
    (f : Framer) (ps : List Poll) (w : World) (fuel : ℕ) (l : Reader × Ending) (r' : Reader)
    → IsQuiet l.0.session
    → read_on f ps w fuel l ≡ some r'
    → IsQuiet r'.session
unfolding read_on
IsQuiet-read_on f ps w fuel (r, returned) r' h e =
    let m = recv_msg ps r.session in
    IsQuiet-on_receipt f w fuel (record r { session = m.0 }) r' m.1
      (IsQuiet-recv_msg ps r.session h) e
IsQuiet-read_on f ps w fuel (r, runtime_error) r' h e =
    let t : r.session ≡ r'.session = cc in rw⁻¹ t h

-- Whatever the exchange and the network do, every session that the reader thread reaches from one
-- that is not logged on, that has sent nothing but logons and that has a connection if a logon of it
-- is out, is again such a session: it never sends a logout, a heartbeat or a test request.
pub Runs-IsQuiet :
    (f : Framer) (r r' : Reader) → IsQuiet r.session → Runs f r r' → IsQuiet r'.session
unfolding read_step
Runs-IsQuiet f r r' h at_start = h
Runs-IsQuiet f r r' h (round {r' = r₁} w ps w₂ fuel before running e) =
    let so_far = Runs-IsQuiet f r r₁ h before in
    IsQuiet-read_on f ps w₂ fuel (log_on_first w r₁) r' (IsQuiet-log_on_first w r₁ so_far) e
