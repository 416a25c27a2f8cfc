-- ===== src/Client/Invariant/Events.antt =====
-- The functions that the manager's task calls keep the invariant (src/ClientBase.tpp).
use async_tcpsock.Base.{
  pos, ◌⊎◌, ==ℤ_iff, zero, suc, Bool-cases, inl, inr, ℕ, ◌≡◌, arith, List, [], ◌∷◌, ℤ, Bool, true,
  false, ◌==ℤ◌, minus_one,
}
use async_tcpsock.Os.{Ret, ok, failed, Os, ReadRet}
use async_tcpsock.Os.Laws.{Lawful, IsFailed}
use async_tcpsock.Buffer.{WriteQueueBuffer}
use async_tcpsock.Client.State.{Sys, held, disconnected}
use async_tcpsock.Client.Callbacks.{Callback}
use async_tcpsock.Client.Queue.{WriteStats}
use async_tcpsock.Client.Queue.Accounting.{owed-drop-collect}
use async_tcpsock.Client.Events
use async_tcpsock.Client.Invariant.{Holds, Inv, connect-Inv, _close-Inv, process_write_queue-Holds}
use async_tcpsock.Client.Invariant.Programs.{invoke-Inv}

module _ (os : Os) (laws : Lawful os) where
  _error-Inv : (code : ℤ) (s : Sys os) → Inv os s.client → Inv os (Events._error os code s).1.client
  unfolding Events._error
  _error-Inv code s h = _close-Inv os laws _ (invoke-Inv os laws (Callback.error code) s h)

  notify-Inv :
      (stats : List WriteStats) (s : Sys os)
      → Inv os s.client
      → Inv os (Events.notify os stats s).1.client
  unfolding Events.notify
  notify-Inv [] s h = h
  notify-Inv (st ∷ rest) s h =
      notify-Inv rest _ (invoke-Inv os laws (Callback.sent st.length st.delay) s h)

  -- The mutex is held before and free after, on the error path too.
  cleanup-Inv :
      (s : Sys os) → Holds os held s.client → Inv os (Events.cleanup_write_queue os s).1.client
  unfolding Events.cleanup_write_queue
  cleanup-Inv s h = grind (
    arith,
    _error-Inv,
    notify-Inv,
    owed-drop-collect s.client.write_queue s.client.rx_last_packet,
  )

  check_front-Inv :
      (t : ℕ) (bufs : List WriteQueueBuffer) (s : Sys os)
      → Holds os held s.client
      → Inv os (Events.check_front os t bufs s).1.client
  unfolding Events.check_front
  check_front-Inv t [] s h = ground arith
  check_front-Inv t (b ∷ bs) s h = grind (arith, invoke-Inv os laws)

  check_ack_timeout-Inv :
      (s : Sys os) → Inv os s.client → Inv os (Events.check_ack_timeout os s).1.client
  unfolding Events.check_ack_timeout
  check_ack_timeout-Inv s h = grind (arith, check_front-Inv)

  check_rx_timeout-Inv :
      (s : Sys os) → Inv os s.client → Inv os (Events.check_rx_timeout os s).1.client
  unfolding Events.check_rx_timeout
  check_rx_timeout-Inv s h = ground arith

  write_available-Inv :
      (b : Bool) (s : Sys os) → Inv os s.client → Inv os (Events.write_available os b s).1.client
  unfolding Events.write_available
  write_available-Inv b s h = grind (arith, cleanup-Inv, process_write_queue-Holds os laws held)

  finish_connect-Inv :
      (s : Sys os)
      → Inv os s.client
      → (s.client.socket ==ℤ minus_one) ≡ false
      → Inv os (Events.finish_connect os s).1.client
  unfolding Events.finish_connect
  finish_connect-Inv s h o =
      write_available-Inv true _ (invoke-Inv os laws Callback.connect _ (ground arith))

  after_so_error-Inv :
      (r : Ret) (s : Sys os)
      → Inv os s.client
      → (IsFailed r ⊎ ((s.client.socket ==ℤ minus_one) ≡ false))
      → Inv os (Events.after_so_error os r s).1.client
  unfolding Events.after_so_error
  after_so_error-Inv (failed e) s h o = _error-Inv e s h
  after_so_error-Inv (ok zero) s h (inl f) = absurd f
  after_so_error-Inv (ok zero) s h (inr o) = finish_connect-Inv s h o
  after_so_error-Inv (ok (suc n)) s h o = _error-Inv (pos (suc n)) s h

  open_or_IsFailed :
      (socket : ℤ) (w : os.World)
      → IsFailed (os.so_error socket w).0 ⊎ ((socket ==ℤ minus_one) ≡ false)
  open_or_IsFailed socket w = elim (Bool-cases (socket ==ℤ minus_one)) [
    | inl e ↦ inl (rw ((==ℤ_iff socket minus_one).0 e) (laws.bad_descriptor w))
    | inr e ↦ inr e
  ]

  -- Also when a callback of another client has closed this one after `select`.
  pub sock_is_writeable-Inv :
      (s : Sys os) → Inv os s.client → Inv os (Events.sock_is_writeable os s).1.client
  unfolding Events.sock_is_writeable
  sock_is_writeable-Inv s h =
      let (r, w) = os.so_error s.client.socket s.world in
      ground (
        arith,
        write_available-Inv false s h,
        after_so_error-Inv r (record s { world = w }) (ground arith)
            (open_or_IsFailed s.client.socket s.world),
      )

  pub handle_read-Inv :
      (r : ReadRet) (s : Sys os) → Inv os s.client → Inv os (Events.handle_read os r s).1.client
  unfolding Events.handle_read
  handle_read-Inv (ReadRet.bytes []) s h = _close-Inv os laws s h
  handle_read-Inv (ReadRet.bytes (b ∷ bs)) s h = grind (arith, invoke-Inv os laws)
  handle_read-Inv (ReadRet.failed e) s h = ground (arith, _error-Inv e s h)

  pub sock_is_readable-Inv :
      (s : Sys os) → Inv os s.client → Inv os (Events.sock_is_readable os s).1.client
  unfolding Events.sock_is_readable
  sock_is_readable-Inv s h = handle_read-Inv _ _ (ground arith)

  pub sock_delayed_connect-Inv :
      (s : Sys os) → Inv os s.client → Inv os (Events.sock_delayed_connect os s).1.client
  unfolding Events.sock_delayed_connect
  sock_delayed_connect-Inv s h = ground (
    arith,
    connect-Inv os laws s.client.ip s.client.port s h,
    _error-Inv Events.err_dns_resolution_failed s h,
  )

  poll_timeouts-Inv : (s : Sys os) → Inv os s.client → Inv os (Events.poll_timeouts os s).1.client
  unfolding Events.poll_timeouts
  poll_timeouts-Inv s h =
      let (ack, s1) = Events.check_ack_timeout os s in
      let (rx, s2) = Events.check_rx_timeout os s1 in
      let acked = check_ack_timeout-Inv s h in
      let received = check_rx_timeout-Inv s1 acked in
      ground
        (arith, acked, _close-Inv os laws s2 received, invoke-Inv os laws Callback.poll s2 received)

  pub sock_poll-Inv : (s : Sys os) → Inv os s.client → Inv os (Events.sock_poll os s).1.client
  unfolding Events.sock_poll
  sock_poll-Inv s h =
      let locked = record s { client = record s.client { write_mutex = held } } in
      let cleaned = (Events.cleanup_write_queue os locked).1 in
      ground (arith, h, cleanup-Inv locked (ground arith), poll_timeouts-Inv cleaned)

  pub processing_done-Inv :
      (s : Sys os) → Inv os s.client → Inv os (Events.processing_done os s).1.client
  unfolding Events.processing_done
  processing_done-Inv s h =
      let done = record s { client = record s.client { state = disconnected } } in
      ground (arith, h, invoke-Inv os laws Callback.disconnect done)
