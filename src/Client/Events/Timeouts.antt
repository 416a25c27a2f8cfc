-- ===== src/Client/Events/Timeouts.antt =====
-- The timeouts of src/ClientBase.tpp: _checkAckTimeout, _checkRxTimeout, and _sockPoll's end.
use async_tcpsock.Base.{
  ℕ, ◌+◌, ◌-◌, ◌≤◌, ◌<◌, ◌≡◌, refl, Bool, true, false, not, none, some, List, [], ◌∷◌, arith, leb,
  if◌then◌else◌, ◌&&◌, Option-cases, inl, inr,
}
use async_tcpsock.Os.{Os}
use async_tcpsock.Buffer.{WriteQueueBuffer}
use async_tcpsock.Client.State.{Sys, ClientBase, locked, unlocked}
use async_tcpsock.Client.Callbacks.{Callback}
use async_tcpsock.Client.Program.{invoke, dispatch}
use async_tcpsock.Client.Api.{is_ready}
use async_tcpsock.Client.Queue.{milliseconds}
use async_tcpsock.Client.Fires.{invoked_of, invoke_fires, _close_fires}
use async_tcpsock.Client.Events.{
  ack_overdue, check_front, check_ack_timeout, check_rx_timeout, poll_timeouts,
}

-- The first buffer has waited for `timeout` and was never marked as written.
abbrev front_overdue : Os → ℕ → ℕ → List WriteQueueBuffer → Bool
front_overdue os timeout now [] = false
front_overdue os timeout now (first ∷ rest) = ack_overdue os timeout now first

abbrev ack_due : Os → ClientBase → ℕ → Bool
ack_due os c now = elim c.ack_timeout [
  | none ↦ false
  | some timeout ↦ not c.ack_timeout_signaled && front_overdue os timeout now c.write_queue
]

-- When the first buffer was queued, if there is one.
abbrev front_time : List WriteQueueBuffer → ℕ
front_time [] = 0
front_time (first ∷ rest) = first.queued_at

module _ (os : Os) where
  check_front_lem :
      (t : ℕ) (bufs : List WriteQueueBuffer) (s : Sys os)
      → let r = check_front os t bufs s in
        let now = (os.now s.world).0 in
        let due = front_overdue os t now bufs in
        (r.0 ≡ due)
        × (invoked_of r.1.log ≡ (
            if due
            then Callback.timeout (milliseconds (now - front_time bufs)) ∷ invoked_of s.log
            else invoked_of s.log))
  unfolding check_front
  check_front_lem t [] s = (refl, refl)
  check_front_lem t (first ∷ rest) s =
      let (now, w) = os.now s.world in
      let c = record s.client {
        ack_timeout_signaled = true;
        write_mutex = unlocked s.client.write_mutex;
      } in
      ground (
        arith,
        invoke_fires os (Callback.timeout (milliseconds (now - first.queued_at)))
            (record s { client = c; world = w }),
      )

  -- The ACK timeout fires TIMEOUT, with how long the first buffer has waited, exactly when a
  -- timeout is set, it has not fired since the last `add`, the queue is not empty, and its first
  -- buffer has waited that long and is not marked as written; and it returns true then and false
  -- else.
  check_ack_timeout_lem :
      (s : Sys os)
      → let r = check_ack_timeout os s in
        let now = (os.now s.world).0 in
        let due = ack_due os s.client now in
        (r.0 ≡ due)
        × (invoked_of r.1.log ≡ (
            if due
            then Callback.timeout (milliseconds (now - front_time s.client.write_queue))
              ∷ invoked_of s.log
            else invoked_of s.log))
  unfolding check_ack_timeout
  check_ack_timeout_lem s =
      let held = record s {
        client = record s.client { write_mutex = locked s.client.write_mutex };
      } in
      let front = λ (t : ℕ). check_front_lem t s.client.write_queue held in
      elim (Option-cases s.client.ack_timeout) [
        | inl e ↦ ground arith
        | inr (t, e) ↦ ground (arith, front t)
      ]

  -- Without a TIMEOUT handler, which might add bytes, an ACK timeout that has fired does not fire
  -- at the next check.
  ack_timeout_once :
      (s : Sys os)
      → s.client.callbacks.timeout_handler ≡ none
      → (check_ack_timeout os s).0 ≡ true
      → (check_ack_timeout os (check_ack_timeout os s).1).0 ≡ false
  unfolding check_ack_timeout check_front invoke dispatch
  ack_timeout_once s n e = ground arith

  -- With an ACK timeout that has not fired, it fires also for a first buffer of which some bytes
  -- were written, if that buffer has waited long enough and `writtenAt` is not set.
  ack_timeout_partial :
      (t : ℕ) (first : WriteQueueBuffer) (rest : List WriteQueueBuffer) (s : Sys os)
      → s.client.ack_timeout ≡ some t
      → s.client.ack_timeout_signaled ≡ false
      → s.client.write_queue ≡ first ∷ rest
      → 0 < first.amount_written
      → first.written_at ≡ 0
      → first.queued_at + t ≤ (os.now s.world).0
      → (check_ack_timeout os s).0 ≡ true
  ack_timeout_partial t first rest s a n q w f h = ground (arith, check_ack_timeout_lem s)

  -- With a receive timeout set, the check is true exactly when it has run out and the socket has
  -- nothing to read; if it has run out and there is something to read, the time starts anew; the
  -- state does not change.
  check_rx_timeout_lem :
      (t : ℕ) (s : Sys os)
      → s.client.rx_timeout ≡ some t
      → let r = check_rx_timeout os s in
        let (now, w) = os.now s.world in
        let late = leb (s.client.rx_last_packet + t) now in
        let readable = is_ready (os.select_read s.client.socket w).0 in
        (r.0 ≡ (late && not readable))
        × (r.1.client.rx_last_packet ≡ (if late && readable then now else s.client.rx_last_packet))
        × (r.1.client.state ≡ s.client.state)
  unfolding check_rx_timeout
  check_rx_timeout_lem t s e = ground arith

  rx_log : (s : Sys os) → (check_rx_timeout os s).1.log ≡ s.log
  unfolding check_rx_timeout
  rx_log s = ground arith

  -- The end of a poll fires POLL when neither timeout holds; what the ACK check fired and nothing
  -- more when that timeout holds; and nothing more when the receive timeout holds.
  pub poll_timeouts_fires :
      (s : Sys os)
      → let (ack, s1) = check_ack_timeout os s in
        let (rx, s2) = check_rx_timeout os s1 in
        invoked_of (poll_timeouts os s).1.log ≡ (
          if ack
          then invoked_of s1.log
          else if rx
          then invoked_of s1.log
          else Callback.poll ∷ invoked_of s1.log)
  unfolding poll_timeouts
  poll_timeouts_fires s =
      let (ack, s1) = check_ack_timeout os s in
      let (rx, s2) = check_rx_timeout os s1 in
      ground (arith, rx_log s1, _close_fires os s2, invoke_fires os Callback.poll s2)
