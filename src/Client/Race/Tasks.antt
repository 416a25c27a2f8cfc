-- ===== src/Client/Race/Tasks.antt =====
-- The functions of src/ClientBase.tpp that the manager's task calls take no space from the queue, if
-- no handler calls add() or write().
use async_tcpsock.Base.{false, true, pos, zero, suc, ℕ, ◌≤◌, arith, List, [], ◌∷◌, ℤ, Bool}
use async_tcpsock.Os.{Ret, ok, failed, Os, ReadRet}
use async_tcpsock.Buffer.{WriteQueueBuffer}
use async_tcpsock.Connection.{set_dns_finished, set_last_active}
use async_tcpsock.Client.State.{Sys, locked, disconnected}
use async_tcpsock.Client.Callbacks.{Callback}
use async_tcpsock.Client.Queue.{WriteStats}
use async_tcpsock.Client.Events
use async_tcpsock.Client.History.{Step, step, history}
use async_tcpsock.Client.Race.Calls.{
  Spared, NeverAdds, process-Spared, connect-Spared, _close-Spared, run-Spared, invoke-Spared,
}

-- A step of a history in which user code adds nothing.
abbrev pub StepNeverAdds : Step → Type 0
StepNeverAdds (Step.user p) = NeverAdds p
StepNeverAdds _ = Unit

abbrev pub AllNeverAdd : List Step → Type 0
AllNeverAdd [] = Unit
AllNeverAdd (st ∷ sts) = StepNeverAdds st × AllNeverAdd sts

module _ (os : Os) (n : ℕ) (fits : n ≤ os.tcp_snd_buf) where
  _error-Spared :
      (code : ℤ) (s : Sys os) → Spared n s.client → Spared n (Events._error os code s).1.client
  unfolding Events._error
  _error-Spared code s h =
      _close-Spared os n fits _ (invoke-Spared os n fits (Callback.error code) s h)

  notify-Spared :
      (stats : List WriteStats) (s : Sys os)
      → Spared n s.client
      → Spared n (Events.notify os stats s).1.client
  unfolding Events.notify
  notify-Spared [] s h = h
  notify-Spared (st ∷ rest) s h =
      notify-Spared rest _ (invoke-Spared os n fits (Callback.sent st.length st.delay) s h)

  cleanup-Spared :
      (s : Sys os) → Spared n s.client → Spared n (Events.cleanup_write_queue os s).1.client
  unfolding Events.cleanup_write_queue
  cleanup-Spared s h = grind (arith, _error-Spared, notify-Spared)

  check_front-Spared :
      (t : ℕ) (bufs : List WriteQueueBuffer) (s : Sys os)
      → Spared n s.client
      → Spared n (Events.check_front os t bufs s).1.client
  unfolding Events.check_front
  check_front-Spared t [] s h = ground arith
  check_front-Spared t (b ∷ bs) s h = grind (arith, invoke-Spared os n fits)

  check_ack_timeout-Spared :
      (s : Sys os) → Spared n s.client → Spared n (Events.check_ack_timeout os s).1.client
  unfolding Events.check_ack_timeout
  check_ack_timeout-Spared s h = grind (arith, check_front-Spared)

  check_rx_timeout-Spared :
      (s : Sys os) → Spared n s.client → Spared n (Events.check_rx_timeout os s).1.client
  unfolding Events.check_rx_timeout
  check_rx_timeout-Spared s h = ground arith

  write_available-Spared :
      (b : Bool) (s : Sys os)
      → Spared n s.client
      → Spared n (Events.write_available os b s).1.client
  unfolding Events.write_available
  write_available-Spared b s h = grind (arith, cleanup-Spared, process-Spared os n fits)

  finish_connect-Spared :
      (s : Sys os) → Spared n s.client → Spared n (Events.finish_connect os s).1.client
  unfolding Events.finish_connect
  finish_connect-Spared s h =
      write_available-Spared true _ (invoke-Spared os n fits Callback.connect _ (ground arith))

  after_so_error-Spared :
      (r : Ret) (s : Sys os) → Spared n s.client → Spared n (Events.after_so_error os r s).1.client
  unfolding Events.after_so_error
  after_so_error-Spared (failed e) s h = _error-Spared e s h
  after_so_error-Spared (ok zero) s h = finish_connect-Spared s h
  after_so_error-Spared (ok (suc k)) s h = _error-Spared (pos (suc k)) s h

  sock_is_writeable-Spared :
      (s : Sys os) → Spared n s.client → Spared n (Events.sock_is_writeable os s).1.client
  unfolding Events.sock_is_writeable
  sock_is_writeable-Spared s h =
      let (r, w) = os.so_error s.client.socket s.world in
      ground (
        arith,
        write_available-Spared false s h,
        after_so_error-Spared r (record s { world = w }) h,
      )

  handle_read-Spared :
      (r : ReadRet) (s : Sys os) → Spared n s.client → Spared n (Events.handle_read os r s).1.client
  unfolding Events.handle_read
  handle_read-Spared (ReadRet.bytes []) s h = _close-Spared os n fits s h
  handle_read-Spared (ReadRet.bytes (b ∷ bs)) s h = grind (arith, invoke-Spared os n fits)
  handle_read-Spared (ReadRet.failed e) s h = ground (arith, _error-Spared e s h)

  sock_delayed_connect-Spared :
      (s : Sys os) → Spared n s.client → Spared n (Events.sock_delayed_connect os s).1.client
  unfolding Events.sock_delayed_connect
  sock_delayed_connect-Spared s h = ground (
    arith,
    connect-Spared os n fits s.client.ip s.client.port s h,
    _error-Spared Events.err_dns_resolution_failed s h,
  )

  poll_timeouts-Spared :
      (s : Sys os) → Spared n s.client → Spared n (Events.poll_timeouts os s).1.client
  unfolding Events.poll_timeouts
  poll_timeouts-Spared s h =
      let (ack, s1) = Events.check_ack_timeout os s in
      let (rx, s2) = Events.check_rx_timeout os s1 in
      let acked = check_ack_timeout-Spared s h in
      let received = check_rx_timeout-Spared s1 acked in
      ground (
        arith,
        acked,
        _close-Spared os n fits s2 received,
        invoke-Spared os n fits Callback.poll s2 received,
      )

  sock_poll-Spared : (s : Sys os) → Spared n s.client → Spared n (Events.sock_poll os s).1.client
  unfolding Events.sock_poll
  sock_poll-Spared s h =
      let held = record s {
        client = record s.client { write_mutex = locked s.client.write_mutex };
      } in
      let cleaned = (Events.cleanup_write_queue os held).1 in
      ground (arith, h, cleanup-Spared held (ground arith), poll_timeouts-Spared cleaned)

  processing_done-Spared :
      (s : Sys os) → Spared n s.client → Spared n (Events.processing_done os s).1.client
  unfolding Events.processing_done
  processing_done-Spared s h =
      let done = record s { client = record s.client { state = disconnected } } in
      ground (arith, h, invoke-Spared os n fits Callback.disconnect done (ground arith))

  step-Spared :
      (st : Step) (s : Sys os)
      → StepNeverAdds st
      → Spared n s.client
      → Spared n (step os st s).client
  unfolding step Events.dns_found_callback set_last_active set_dns_finished Events.sock_is_readable
  step-Spared Step.writeable s q h = sock_is_writeable-Spared s h
  step-Spared Step.readable s q h = handle_read-Spared _ _ (ground arith)
  step-Spared Step.delayed_connect s q h = sock_delayed_connect-Spared s h
  step-Spared Step.poll s q h = sock_poll-Spared s h
  step-Spared Step.processing_done s q h = processing_done-Spared s h
  step-Spared (Step.dns_found found) s q h = ground arith
  step-Spared (Step.last_active t) s q h = ground arith
  step-Spared (Step.user p) s q h = run-Spared os n fits p s q h

  pub history-Spared :
      (sts : List Step) (s : Sys os)
      → AllNeverAdd sts
      → Spared n s.client
      → Spared n (history os sts s).client
  unfolding history
  history-Spared [] s q h = h
  history-Spared (st ∷ sts) s q h = history-Spared sts (step os st s) q.1 (step-Spared st s q.0 h)
