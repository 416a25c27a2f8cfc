-- ===== src/Client/Machine/Tasks.antt =====
-- What the manager's task calls (src/ClientBase.tpp), and whole histories, as walks of the state
-- machine.
use async_tcpsock.Base.{
  ◌≡◌, ◌≢◌, refl, ap, sym, subst, ◌⊎◌, inl, inr, ℕ, zero, suc, ℤ, pos, List, [], ◌∷◌, arith, true,
  false, Bool-cases, Option-cases, Bool, ◌||◌, ◌==ℤ◌, ◌&&◌, not, is_empty, if◌then◌else◌,
}
use async_tcpsock.Os.{Os, Ret, ok, failed, ReadRet}
use async_tcpsock.Connection.{is_open, set_dns_finished, set_last_active}
use async_tcpsock.Buffer.{WriteQueueBuffer}
use async_tcpsock.Client.State.{
  Sys, ConnectionState, disconnected, disconnecting, connected, is_connected, locked,
}
use async_tcpsock.Client.Callbacks.{Callback}
use async_tcpsock.Client.Program.{invoke}
use async_tcpsock.Client.Queue.{WriteStats, process_write_queue, collect}
use async_tcpsock.Client.Api
use async_tcpsock.Client.Events
use async_tcpsock.Client.History.{Step, step, history}
use async_tcpsock.Client.Machine.{
  Walks, Walks-refl, Walks-same, Walks-move, Walks-trans, establish, finish, seen_of, place,
}
use async_tcpsock.Client.Machine.Calls.{
  connect-Walks, _close-Walks, run-Walks, due, invoke-due, invoke-Walks,
}

module _ (os : Os) where
  _error-Walks : (code : ℤ) (s : Sys os) → Walks os s (Events._error os code s).1
  unfolding Events._error
  _error-Walks code s =
      let told = (invoke os (Callback.error code) s).1 in
      Walks-trans os s told _ (invoke-Walks os (Callback.error code) s refl) (_close-Walks os told)

  notify-Walks : (stats : List WriteStats) (s : Sys os) → Walks os s (Events.notify os stats s).1
  unfolding Events.notify
  notify-Walks [] s = Walks-refl os s
  notify-Walks (st ∷ rest) s =
      let event = Callback.sent st.length st.delay in
      let told = (invoke os event s).1 in
      Walks-trans os s told _ (invoke-Walks os event s refl) (notify-Walks rest told)

  -- A part after changes that keep the state and the log.
  after-Walks : (s m r : Sys os) → place m ≡ place s → m.log ≡ s.log → Walks os m r → Walks os s r
  after-Walks s m r e l w = Walks-trans os s m r (Walks-same os s m e (ap seen_of l)) w

  cleanup-Walks : (s : Sys os) → Walks os s (Events.cleanup_write_queue os s).1
  unfolding Events.cleanup_write_queue
  cleanup-Walks s =
      elim (Option-cases (collect s.client.write_queue s.client.rx_last_packet).failure) [
        | inl e ↦ rw e (after-Walks s _ _ refl refl (notify-Walks _ _))
        | inr (code, e) ↦ rw e (after-Walks s _ _ refl refl (_error-Walks code _))
      ]

  write_available-Walks :
      (activity : Bool) (s : Sys os) → Walks os s (Events.write_available os activity s).1
  unfolding Events.write_available process_write_queue
  write_available-Walks activity s =
      elim (Bool-cases (is_connected s.client.state && not (is_empty s.client.write_queue))) [
        | inl e ↦ rw e (after-Walks s _ _ refl refl (cleanup-Walks _))
        | inr e ↦ rw e (Walks-same os s _ refl refl)
      ]

  finish_connect-Walks :
      (s : Sys os) → s.client.state ≢ connected → Walks os s (Events.finish_connect os s).1
  unfolding Events.finish_connect
  finish_connect-Walks s n =
      let (t, w) = os.now s.world in
      let entered = record s {
        client = record s.client {
          state = connected;
          rx_last_packet = t;
          ack_timeout_signaled = false;
        };
        world = w;
      } in
      let told = (invoke os Callback.connect entered).1 in
      Walks-trans os s (due os Callback.connect entered) _
        (Walks-move os s (due os Callback.connect entered)
          (establish s.client.state (is_open s.client.connection) n) refl refl refl)
        (Walks-trans os (due os Callback.connect entered) told _
          (invoke-due os Callback.connect entered) (write_available-Walks true told))

  after_so_error-Walks :
      (r : Ret) (s : Sys os)
      → s.client.state ≢ connected
      → Walks os s (Events.after_so_error os r s).1
  unfolding Events.after_so_error
  after_so_error-Walks (failed e) s n = _error-Walks e s
  after_so_error-Walks (ok zero) s n = finish_connect-Walks s n
  after_so_error-Walks (ok (suc k)) s n = _error-Walks (pos (suc k)) s

  sock_is_writeable-Walks : (s : Sys os) → Walks os s (Events.sock_is_writeable os s).1
  unfolding Events.sock_is_writeable
  sock_is_writeable-Walks s = elim (Bool-cases (is_connected s.client.state)) [
    | inl e ↦ rw e (write_available-Walks false s)
    | inr e ↦ rw e (
        after-Walks s _ _ refl refl (
          after_so_error-Walks (os.so_error s.client.socket s.world).0
            (record s { world = (os.so_error s.client.socket s.world).1 }) (λ c. ground arith)))
  ]

  handle_read-Walks : (r : ReadRet) (s : Sys os) → Walks os s (Events.handle_read os r s).1
  unfolding Events.handle_read
  handle_read-Walks (ReadRet.bytes []) s = _close-Walks os s
  handle_read-Walks (ReadRet.bytes (b ∷ bs)) s =
      after-Walks s _ _ refl refl (invoke-Walks os (Callback.recv (b ∷ bs)) _ refl)
  handle_read-Walks (ReadRet.failed e) s =
      elim (Bool-cases (e ==ℤ os.eagain || e ==ℤ os.ewouldblock)) [
        | inl c ↦ rw c (Walks-refl os s)
        | inr c ↦ rw c (_error-Walks e s)
      ]

  sock_is_readable-Walks : (s : Sys os) → Walks os s (Events.sock_is_readable os s).1
  unfolding Events.sock_is_readable
  sock_is_readable-Walks s = after-Walks s _ _ refl refl (handle_read-Walks _ _)

  sock_delayed_connect-Walks : (s : Sys os) → Walks os s (Events.sock_delayed_connect os s).1
  unfolding Events.sock_delayed_connect
  sock_delayed_connect-Walks s = elim (Bool-cases (os.ip_test s.client.ip)) [
    | inl e ↦ rw e (connect-Walks os s.client.ip s.client.port s)
    | inr e ↦ rw e (_error-Walks Events.err_dns_resolution_failed s)
  ]

  check_front-Walks :
      (t : ℕ) (bufs : List WriteQueueBuffer) (s : Sys os)
      → Walks os s (Events.check_front os t bufs s).1
  unfolding Events.check_front
  check_front-Walks t [] s = Walks-same os s _ refl refl
  check_front-Walks t (first ∷ rest) s =
      elim (Bool-cases (Events.ack_overdue os t (os.now s.world).0 first)) [
        | inl e ↦ rw e (after-Walks s _ _ refl refl (invoke-Walks os _ _ refl))
        | inr e ↦ rw e (Walks-same os s _ refl refl)
      ]

  pub check_ack_cases :
      (s : Sys os)
      → let r = Events.check_ack_timeout os s in
        let held = record s {
          client = record s.client { write_mutex = locked s.client.write_mutex };
        } in
        (r ≡ (false, s)) ⊎ ((t : ℕ) × (r ≡ Events.check_front os t s.client.write_queue held))
  unfolding Events.check_ack_timeout
  check_ack_cases s = elim (Option-cases s.client.ack_timeout) [
    | inl e ↦ inl (ground arith)
    | inr (t, e) ↦ (elim (Bool-cases s.client.ack_timeout_signaled) [
      | inl k ↦ inl (ground arith)
      | inr k ↦ inr (t, ground arith)
    ])
  ]

  check_ack_timeout-Walks : (s : Sys os) → Walks os s (Events.check_ack_timeout os s).1
  check_ack_timeout-Walks s = elim (check_ack_cases s) [
    | inl e ↦ subst (λ (r : Bool × Sys os). Walks os s r.1) (sym e) (Walks-refl os s)
    | inr (t, e) ↦
        subst (λ (r : Bool × Sys os). Walks os s r.1) (sym e)
          (after-Walks s _ _ refl refl (check_front-Walks t s.client.write_queue _))
  ]

  check_rx_timeout_same :
      (s : Sys os)
      → let r = (Events.check_rx_timeout os s).1 in
        (r.client.state ≡ s.client.state)
        × (r.client.connection ≡ s.client.connection)
        × (r.log ≡ s.log)
  unfolding Events.check_rx_timeout
  check_rx_timeout_same s = ground arith

  after_timeouts-Walks :
      (rx : Bool) (s : Sys os)
      → Walks os s ((if rx then Api._close os else invoke os Callback.poll) s).1
  after_timeouts-Walks true s = _close-Walks os s
  after_timeouts-Walks false s = invoke-Walks os Callback.poll s refl

  poll_timeouts-Walks : (s : Sys os) → Walks os s (Events.poll_timeouts os s).1
  unfolding Events.poll_timeouts
  poll_timeouts-Walks s =
      let (ack, s1) = Events.check_ack_timeout os s in
      let (rx, s2) = Events.check_rx_timeout os s1 in
      let same = check_rx_timeout_same s1 in
      let first = check_ack_timeout-Walks s in
      let second =
        after-Walks s1 s2 _ (λ i. (same.0 i, is_open (same.1 i))) same.2
          (after_timeouts-Walks rx s2) in
      elim (Bool-cases (Events.check_ack_timeout os s).0) [
        | inl e ↦ rw e first
        | inr e ↦ rw e (Walks-trans os s s1 _ first second)
      ]

  sock_poll-Walks : (s : Sys os) → Walks os s (Events.sock_poll os s).1
  unfolding Events.sock_poll
  sock_poll-Walks s =
      let held = record s {
        client = record s.client { write_mutex = locked s.client.write_mutex };
      } in
      let cleaned = (Events.cleanup_write_queue os held).1 in
      let first = after-Walks s held cleaned refl refl (cleanup-Walks held) in
      elim (Bool-cases (is_connected s.client.state)) [
        | inl e ↦
            (elim (Bool-cases (is_connected (Events.cleanup_write_queue os held).1.client.state)) [
              | inl k ↦ rw (e, k) (Walks-trans os s cleaned _ first (poll_timeouts-Walks cleaned))
              | inr k ↦ rw (e, k) first
            ])
        | inr e ↦ rw e (Walks-refl os s)
      ]

  finish_disconnect-Walks :
      (s : Sys os)
      → s.client.state ≡ disconnecting
      → Walks os s
          (invoke os Callback.disconnect
            (record s { client = record s.client { state = disconnected } })).1
  finish_disconnect-Walks s e =
      let ended = record s { client = record s.client { state = disconnected } } in
      let told = due os Callback.disconnect ended in
      Walks-trans os s told _
        (Walks-move os s told (finish (is_open s.client.connection))
          (λ i. (e i, is_open s.client.connection)) refl refl)
        (invoke-due os Callback.disconnect ended)

  disconnecting_of : (t : ConnectionState) → Events.is_disconnecting t ≡ true → t ≡ disconnecting
  disconnecting_of t h = ground arith

  processing_done-Walks : (s : Sys os) → Walks os s (Events.processing_done os s).1
  unfolding Events.processing_done
  processing_done-Walks s = elim (Bool-cases (Events.is_disconnecting s.client.state)) [
    | inl e ↦ rw e (finish_disconnect-Walks s (disconnecting_of s.client.state e))
    | inr e ↦ rw e (Walks-refl os s)
  ]

  step-Walks : (st : Step) (s : Sys os) → Walks os s (step os st s)
  unfolding step Events.dns_found_callback set_dns_finished set_last_active is_open
  step-Walks Step.writeable s = sock_is_writeable-Walks s
  step-Walks Step.readable s = sock_is_readable-Walks s
  step-Walks Step.delayed_connect s = sock_delayed_connect-Walks s
  step-Walks Step.poll s = sock_poll-Walks s
  step-Walks Step.processing_done s = processing_done-Walks s
  step-Walks (Step.dns_found found) s = Walks-same os s _ refl refl
  step-Walks (Step.last_active t) s = Walks-same os s _ refl refl
  step-Walks (Step.user p) s = run-Walks os p s

  -- Every sequence of calls of the manager's task, the DNS thread and user code, with any handlers
  -- and on any system, walks a state machine whose states are the state of the connection and
  -- whether there is a socket, and whose steps are these: CONNECT fires on entering CONNECTED from
  -- another state; DISCONNECT fires on leaving DISCONNECTING for DISCONNECTED; entering CONNECTING
  -- takes a client without a socket and gives it one; a client that leaves for DISCONNECTING loses
  -- its socket in a close of a descriptor; a connect may close its descriptor; and waiting for DNS
  -- begins with a question to lwIP. All of the CONNECTs, DISCONNECTs, closes and questions in the
  -- log come from these steps, in their order.
  pub history-Walks : (sts : List Step) (s : Sys os) → Walks os s (history os sts s)
  unfolding history
  history-Walks [] s = Walks-refl os s
  history-Walks (st ∷ sts) s =
      Walks-trans os s (step os st s) (history os sts (step os st s)) (step-Walks st s)
        (history-Walks sts (step os st s))
