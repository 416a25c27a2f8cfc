-- ===== src/Client/Delivery/Tasks.antt =====
-- What the manager's task calls on a client of src/ClientBase.tpp reads nothing and hands nothing to
-- RECV, except where it reads.
use async_tcpsock.Base.{
  ◌≡◌, refl, sym, subst, inl, inr, ℕ, zero, suc, ℤ, pos, List, [], ◌∷◌, arith, true, false, Bool,
  ◌&&◌, not, is_empty, if◌then◌else◌, Bool-cases, Option-cases,
}
use async_tcpsock.Os.{Os, Ret, ok, failed, ReadRet}
use async_tcpsock.Buffer.{WriteQueueBuffer}
use async_tcpsock.Client.State.{Sys, invoked, connected, is_connected, locked}
use async_tcpsock.Client.Callbacks.{Callback}
use async_tcpsock.Client.Program.{invoke}
use async_tcpsock.Client.Queue.{WriteStats, process_write_queue, collect}
use async_tcpsock.Client.Api
use async_tcpsock.Client.Events
use async_tcpsock.Client.Delivery.{
  received_of, T, Quiet, Quiet-trans, process-Quiet, connect-Quiet, _close-Quiet, invoke_delivers,
}
use async_tcpsock.Client.Machine.Tasks.{check_ack_cases}

module _ (S : Type 0) (note : ReadRet → S → S) (os : Os) where
  -- A callback other than RECV.
  other_event :
      (event : Callback) (s : Sys (T S note os))
      → received_of (invoked event ∷ s.log) ≡ received_of s.log
      → Quiet S note os s (invoke (T S note os) event s).1
  other_event event s e =
      Quiet-trans S note os s (record s { log = invoked event ∷ s.log })
        (invoke (T S note os) event s).1 (refl, e) (invoke_delivers S note os event s)

  pub _error-Quiet :
      (code : ℤ) (s : Sys (T S note os)) → Quiet S note os s (Events._error (T S note os) code s).1
  unfolding Events._error
  _error-Quiet code s =
      let told = (invoke (T S note os) (Callback.error code) s).1 in
      Quiet-trans S note os s told (Api._close (T S note os) told).1
        (other_event (Callback.error code) s refl) (_close-Quiet S note os told)

  notify-Quiet :
      (stats : List WriteStats) (s : Sys (T S note os))
      → Quiet S note os s (Events.notify (T S note os) stats s).1
  unfolding Events.notify
  notify-Quiet [] s = (refl, refl)
  notify-Quiet (st ∷ rest) s =
      let told = (invoke (T S note os) (Callback.sent st.length st.delay) s).1 in
      Quiet-trans S note os s told (Events.notify (T S note os) rest told).1
        (other_event (Callback.sent st.length st.delay) s refl) (notify-Quiet rest told)

  cleanup-Quiet :
      (s : Sys (T S note os)) → Quiet S note os s (Events.cleanup_write_queue (T S note os) s).1
  unfolding Events.cleanup_write_queue
  cleanup-Quiet s =
      elim (Option-cases (collect s.client.write_queue s.client.rx_last_packet).failure) [
        | inl e ↦ rw e (notify-Quiet _ _)
        | inr (code, e) ↦ rw e (_error-Quiet code _)
      ]

  write_available-Quiet :
      (activity : Bool) (s : Sys (T S note os))
      → Quiet S note os s (Events.write_available (T S note os) activity s).1
  unfolding Events.write_available
  write_available-Quiet activity s =
      let held = record s {
        client = record s.client { write_mutex = locked s.client.write_mutex };
      } in
      let passed = (process_write_queue (T S note os) held).1 in
      elim (Bool-cases (is_connected s.client.state && not (is_empty s.client.write_queue))) [
        | inl e ↦ rw e (
            Quiet-trans S note os s passed (Events.cleanup_write_queue (T S note os) passed).1
              (process-Quiet S note os held) (cleanup-Quiet passed))
        | inr e ↦ rw e (refl, refl)
      ]

  finish_connect-Quiet :
      (s : Sys (T S note os)) → Quiet S note os s (Events.finish_connect (T S note os) s).1
  unfolding Events.finish_connect
  finish_connect-Quiet s =
      let (t, w) = (T S note os).now s.world in
      let entered = record s {
        client = record s.client {
          state = connected;
          rx_last_packet = t;
          ack_timeout_signaled = false;
        };
        world = w;
      } in
      let told = (invoke (T S note os) Callback.connect entered).1 in
      Quiet-trans S note os s told (Events.write_available (T S note os) true told).1
        (other_event Callback.connect entered refl) (write_available-Quiet true told)

  after_so_error-Quiet :
      (r : Ret) (s : Sys (T S note os))
      → Quiet S note os s (Events.after_so_error (T S note os) r s).1
  unfolding Events.after_so_error
  after_so_error-Quiet (failed e) s = _error-Quiet e s
  after_so_error-Quiet (ok zero) s = finish_connect-Quiet s
  after_so_error-Quiet (ok (suc k)) s = _error-Quiet (pos (suc k)) s

  pub sock_is_writeable-Quiet :
      (s : Sys (T S note os)) → Quiet S note os s (Events.sock_is_writeable (T S note os) s).1
  unfolding Events.sock_is_writeable
  sock_is_writeable-Quiet s = elim (Bool-cases (is_connected s.client.state)) [
    | inl e ↦ rw e (write_available-Quiet false s)
    | inr e ↦ rw e (
        after_so_error-Quiet ((T S note os).so_error s.client.socket s.world).0
          (record s { world = ((T S note os).so_error s.client.socket s.world).1 }))
  ]

  pub sock_delayed_connect-Quiet :
      (s : Sys (T S note os)) → Quiet S note os s (Events.sock_delayed_connect (T S note os) s).1
  unfolding Events.sock_delayed_connect
  sock_delayed_connect-Quiet s = elim (Bool-cases (os.ip_test s.client.ip)) [
    | inl e ↦ rw e (connect-Quiet S note os s.client.ip s.client.port s)
    | inr e ↦ rw e (_error-Quiet Events.err_dns_resolution_failed s)
  ]

  check_front-Quiet :
      (t : ℕ) (bufs : List WriteQueueBuffer) (s : Sys (T S note os))
      → Quiet S note os s (Events.check_front (T S note os) t bufs s).1
  unfolding Events.check_front
  check_front-Quiet t [] s = (refl, refl)
  check_front-Quiet t (first ∷ rest) s =
      elim (Bool-cases (Events.ack_overdue (T S note os) t (os.now s.world.0).0 first)) [
        | inl e ↦ rw e (other_event _ _ refl)
        | inr e ↦ rw e (refl, refl)
      ]

  check_ack_timeout-Quiet :
      (s : Sys (T S note os)) → Quiet S note os s (Events.check_ack_timeout (T S note os) s).1
  check_ack_timeout-Quiet s = elim (check_ack_cases (T S note os) s) [
    | inl e ↦ subst (λ (r : Bool × Sys (T S note os)). Quiet S note os s r.1) (sym e) (refl, refl)
    | inr (t, e) ↦
        subst (λ (r : Bool × Sys (T S note os)). Quiet S note os s r.1) (sym e)
          (check_front-Quiet t s.client.write_queue _)
  ]

  check_rx_timeout-Quiet :
      (s : Sys (T S note os)) → Quiet S note os s (Events.check_rx_timeout (T S note os) s).1
  unfolding Events.check_rx_timeout
  check_rx_timeout-Quiet s = ground arith

  after_timeouts-Quiet :
      (rx : Bool) (s : Sys (T S note os))
      → Quiet S note os s
          ((if rx then Api._close (T S note os) else invoke (T S note os) Callback.poll) s).1
  after_timeouts-Quiet true s = _close-Quiet S note os s
  after_timeouts-Quiet false s = other_event Callback.poll s refl

  poll_timeouts-Quiet :
      (s : Sys (T S note os)) → Quiet S note os s (Events.poll_timeouts (T S note os) s).1
  unfolding Events.poll_timeouts
  poll_timeouts-Quiet s =
      let (ack, s1) = Events.check_ack_timeout (T S note os) s in
      let (rx, s2) = Events.check_rx_timeout (T S note os) s1 in
      let first = check_ack_timeout-Quiet s in
      elim (Bool-cases (Events.check_ack_timeout (T S note os) s).0) [
        | inl e ↦ rw e first
        | inr e ↦
            (let last =
                ((if rx then Api._close (T S note os) else invoke (T S note os) Callback.poll)
                  s2).1 in
              rw e (
                Quiet-trans S note os s s1 last first (
                  Quiet-trans S note os s1 s2 last (check_rx_timeout-Quiet s1)
                    (after_timeouts-Quiet rx s2))))
      ]

  pub sock_poll-Quiet :
      (s : Sys (T S note os)) → Quiet S note os s (Events.sock_poll (T S note os) s).1
  unfolding Events.sock_poll
  sock_poll-Quiet s =
      let held = record s {
        client = record s.client { write_mutex = locked s.client.write_mutex };
      } in
      let cleaned = (Events.cleanup_write_queue (T S note os) held).1 in
      let first = cleanup-Quiet held in
      elim (Bool-cases (is_connected s.client.state)) [
        | inl e ↦
            (elim (Bool-cases
              (is_connected (Events.cleanup_write_queue (T S note os) held).1.client.state)) [
                | inl k ↦
                    rw (e, k)
                      (Quiet-trans S note os s cleaned
                        (Events.poll_timeouts (T S note os) cleaned).1 first
                        (poll_timeouts-Quiet cleaned))
                | inr k ↦ rw (e, k) first
              ])
        | inr e ↦ rw e (refl, refl)
      ]

  pub processing_done-Quiet :
      (s : Sys (T S note os)) → Quiet S note os s (Events.processing_done (T S note os) s).1
  unfolding Events.processing_done
  processing_done-Quiet s = elim (Bool-cases (Events.is_disconnecting s.client.state)) [
    | inl e ↦ rw e (other_event Callback.disconnect _ refl)
    | inr e ↦ rw e (refl, refl)
  ]
