-- ===== src/Client/Errors/Tasks.antt =====
-- Which codes ERROR reports for a client of src/ClientBase.tpp, through whole histories.
use async_tcpsock.Base.{
  ◌≡◌, refl, subst, sym, inl, inr, ℕ, zero, suc, ◌<◌, ℤ, pos, negsuc, List, [], ◌∷◌, arith, true,
  false, Bool, ◌||◌, ◌&&◌, not, ◌==ℤ◌, is_empty, if◌then◌else◌, Bool-cases, Option-cases,
}
use async_tcpsock.Os.{Os, Ret, ok, failed, ReadRet}
use async_tcpsock.Os.Laws.{IsErrno, Errnos}
use async_tcpsock.Buffer.{WriteQueueBuffer}
use async_tcpsock.Client.State.{Sys, is_connected, locked}
use async_tcpsock.Client.Callbacks.{Callback}
use async_tcpsock.Client.Program.{invoke}
use async_tcpsock.Client.Queue.{WriteStats, process_write_queue, collect}
use async_tcpsock.Client.Queue.Marks.{AllMarks-drop, collect_failure}
use async_tcpsock.Client.Api
use async_tcpsock.Client.Events
use async_tcpsock.Client.Errors.{Marked, process-Marked, connect-Marked, run-Marked, invoke-Marked}
use async_tcpsock.Client.Fires.{invoked_of, connect_fires, run_fires, invoke_fires}
use async_tcpsock.Client.Machine.Tasks.{check_ack_cases}
use async_tcpsock.Client.History.{Step, step, history}

-- An errno, or the -55 of a failed DNS request.
abbrev pub IsCode : ℤ → Type 0
IsCode (pos n) = 0 < n
IsCode (negsuc n) = n ≡ 54

abbrev pub CodeOf : Callback → Type 0
CodeOf (Callback.error code) = IsCode code
CodeOf _ = Unit {0}

abbrev pub AllCodes : List Callback → Type 0
AllCodes [] = Unit {0}
AllCodes (event ∷ events) = CodeOf event × AllCodes events

errno-IsCode : (e : ℤ) → IsErrno e → IsCode e
errno-IsCode (pos n) h = h
errno-IsCode (negsuc n) h = absurd h

module _ (os : Os) (errnos : Errnos os) where
  abbrev Errs : Sys os → Type 0
  Errs s = Marked os errnos s × AllCodes (invoked_of s.log)

  invoke-Errs : (event : Callback) (s : Sys os) → CodeOf event → Errs s → Errs (invoke os event s).1
  invoke-Errs event s c h =
      (invoke-Marked os errnos event s h.0, rw (invoke_fires os event s) (c, h.1))

  _close-Errs : (s : Sys os) → Errs s → Errs (Api._close os s).1
  unfolding Api._close
  _close-Errs s h = (tt, h.1)

  _error-Errs : (code : ℤ) (s : Sys os) → IsCode code → Errs s → Errs (Events._error os code s).1
  unfolding Events._error
  _error-Errs code s c h = _close-Errs _ (invoke-Errs (Callback.error code) s c h)

  connect-Errs : (ip port : ℕ) (s : Sys os) → Errs s → Errs (Api.connect os ip port s).1
  connect-Errs ip port s h =
      (connect-Marked os errnos ip port s h.0, rw (connect_fires os ip port s) h.1)

  notify-Errs : (stats : List WriteStats) (s : Sys os) → Errs s → Errs (Events.notify os stats s).1
  unfolding Events.notify
  notify-Errs [] s h = h
  notify-Errs (st ∷ rest) s h =
      notify-Errs rest _ (invoke-Errs (Callback.sent st.length st.delay) s tt h)

  cleanup-Errs : (s : Sys os) → Errs s → Errs (Events.cleanup_write_queue os s).1
  unfolding Events.cleanup_write_queue
  cleanup-Errs s h =
      let found = collect s.client.write_queue s.client.rx_last_packet in
      elim (Option-cases found.failure) [
        | inl e ↦ rw e (
            notify-Errs found.notify_queue _
              (AllMarks-drop found.to_remove s.client.write_queue h.0, h.1))
        | inr (code, e) ↦ rw e (
            _error-Errs code _
              (errno-IsCode code
                (collect_failure s.client.write_queue s.client.rx_last_packet code h.0 e))
              h)
      ]

  write_available-Errs :
      (activity : Bool) (s : Sys os) → Errs s → Errs (Events.write_available os activity s).1
  unfolding Events.write_available process_write_queue
  write_available-Errs activity s h =
      elim (Bool-cases (is_connected s.client.state && not (is_empty s.client.write_queue))) [
        | inl e ↦ rw e (cleanup-Errs _ (process-Marked os errnos s h.0, h.1))
        | inr e ↦ rw e h
      ]

  finish_connect-Errs : (s : Sys os) → Errs s → Errs (Events.finish_connect os s).1
  unfolding Events.finish_connect
  finish_connect-Errs s h = write_available-Errs true _ (invoke-Errs Callback.connect _ tt h)

  after_so_error-Errs :
      (r : Ret) (s : Sys os)
      → ((e : ℤ) → r ≡ failed e → IsErrno e)
      → Errs s
      → Errs (Events.after_so_error os r s).1
  unfolding Events.after_so_error
  after_so_error-Errs (failed e) s c h = _error-Errs e s (errno-IsCode e (c e refl)) h
  after_so_error-Errs (ok zero) s c h = finish_connect-Errs s h
  after_so_error-Errs (ok (suc k)) s c h = _error-Errs (pos (suc k)) s (omega arith) h

  sock_is_writeable-Errs : (s : Sys os) → Errs s → Errs (Events.sock_is_writeable os s).1
  unfolding Events.sock_is_writeable
  sock_is_writeable-Errs s h = elim (Bool-cases (is_connected s.client.state)) [
    | inl e ↦ rw e (write_available-Errs false s h)
    | inr e ↦ rw e (
        after_so_error-Errs (os.so_error s.client.socket s.world).0 _
          (errnos.asking s.client.socket s.world) h)
  ]

  handle_read-Errs :
      (r : ReadRet) (s : Sys os)
      → ((e : ℤ) → r ≡ ReadRet.failed e → IsErrno e)
      → Errs s
      → Errs (Events.handle_read os r s).1
  unfolding Events.handle_read
  handle_read-Errs (ReadRet.bytes []) s c h = _close-Errs s h
  handle_read-Errs (ReadRet.bytes (b ∷ bs)) s c h = invoke-Errs (Callback.recv (b ∷ bs)) _ tt h
  handle_read-Errs (ReadRet.failed e) s c h =
      elim (Bool-cases (e ==ℤ os.eagain || e ==ℤ os.ewouldblock)) [
        | inl k ↦ rw k h
        | inr k ↦ rw k (_error-Errs e s (errno-IsCode e (c e refl)) h)
      ]

  sock_is_readable-Errs : (s : Sys os) → Errs s → Errs (Events.sock_is_readable os s).1
  unfolding Events.sock_is_readable
  sock_is_readable-Errs s h =
      handle_read-Errs (os.read s.client.socket os.tcp_mss s.world).0 _
        (errnos.reading s.client.socket os.tcp_mss s.world) h

  sock_delayed_connect-Errs : (s : Sys os) → Errs s → Errs (Events.sock_delayed_connect os s).1
  unfolding Events.sock_delayed_connect
  sock_delayed_connect-Errs s h = elim (Bool-cases (os.ip_test s.client.ip)) [
    | inl e ↦ rw e (connect-Errs s.client.ip s.client.port s h)
    | inr e ↦ rw e (_error-Errs Events.err_dns_resolution_failed s refl h)
  ]

  check_front-Errs :
      (t : ℕ) (bufs : List WriteQueueBuffer) (s : Sys os)
      → Errs s
      → Errs (Events.check_front os t bufs s).1
  unfolding Events.check_front
  check_front-Errs t [] s h = h
  check_front-Errs t (first ∷ rest) s h =
      elim (Bool-cases (Events.ack_overdue os t (os.now s.world).0 first)) [
        | inl e ↦ rw e (invoke-Errs _ _ tt h)
        | inr e ↦ rw e h
      ]

  check_ack_timeout-Errs : (s : Sys os) → Errs s → Errs (Events.check_ack_timeout os s).1
  check_ack_timeout-Errs s h = elim (check_ack_cases os s) [
    | inl e ↦ subst (λ (r : Bool × Sys os). Errs r.1) (sym e) h
    | inr (t, e) ↦
        subst (λ (r : Bool × Sys os). Errs r.1) (sym e)
          (check_front-Errs t s.client.write_queue _ h)
  ]

  check_rx_timeout-Errs : (s : Sys os) → Errs s → Errs (Events.check_rx_timeout os s).1
  unfolding Events.check_rx_timeout
  check_rx_timeout-Errs s h = ground arith

  after_timeouts-Errs :
      (rx : Bool) (s : Sys os)
      → Errs s
      → Errs ((if rx then Api._close os else invoke os Callback.poll) s).1
  after_timeouts-Errs true s h = _close-Errs s h
  after_timeouts-Errs false s h = invoke-Errs Callback.poll s tt h

  poll_timeouts-Errs : (s : Sys os) → Errs s → Errs (Events.poll_timeouts os s).1
  unfolding Events.poll_timeouts
  poll_timeouts-Errs s h =
      let (ack, s1) = Events.check_ack_timeout os s in
      let (rx, s2) = Events.check_rx_timeout os s1 in
      let first = check_ack_timeout-Errs s h in
      elim (Bool-cases (Events.check_ack_timeout os s).0) [
        | inl e ↦ rw e first
        | inr e ↦ rw e (after_timeouts-Errs rx s2 (check_rx_timeout-Errs s1 first))
      ]

  sock_poll-Errs : (s : Sys os) → Errs s → Errs (Events.sock_poll os s).1
  unfolding Events.sock_poll
  sock_poll-Errs s h =
      let held = record s {
        client = record s.client { write_mutex = locked s.client.write_mutex };
      } in
      let cleaned = cleanup-Errs held h in
      elim (Bool-cases (is_connected s.client.state)) [
        | inl e ↦
            (elim (Bool-cases (is_connected (Events.cleanup_write_queue os held).1.client.state)) [
              | inl k ↦
                  rw (e, k) (poll_timeouts-Errs (Events.cleanup_write_queue os held).1 cleaned)
              | inr k ↦ rw (e, k) cleaned
            ])
        | inr e ↦ rw e h
      ]

  processing_done-Errs : (s : Sys os) → Errs s → Errs (Events.processing_done os s).1
  unfolding Events.processing_done
  processing_done-Errs s h = elim (Bool-cases (Events.is_disconnecting s.client.state)) [
    | inl e ↦ rw e (invoke-Errs Callback.disconnect _ tt h)
    | inr e ↦ rw e h
  ]

  step-Errs : (st : Step) (s : Sys os) → Errs s → Errs (step os st s)
  unfolding step Events.dns_found_callback
  step-Errs Step.writeable s h = sock_is_writeable-Errs s h
  step-Errs Step.readable s h = sock_is_readable-Errs s h
  step-Errs Step.delayed_connect s h = sock_delayed_connect-Errs s h
  step-Errs Step.poll s h = sock_poll-Errs s h
  step-Errs Step.processing_done s h = processing_done-Errs s h
  step-Errs (Step.dns_found found) s h = h
  step-Errs (Step.last_active t) s h = h
  step-Errs (Step.user p) s h = (run-Marked os errnos p s h.0, rw (run_fires os p s) h.1)

  history-Errs : (sts : List Step) (s : Sys os) → Errs s → Errs (history os sts s)
  unfolding history
  history-Errs [] s h = h
  history-Errs (st ∷ sts) s h = history-Errs sts (step os st s) (step-Errs st s h)

  pub new-AllCodes :
      (w : os.World) (sts : List Step) → AllCodes (invoked_of (history os sts (Api.new os w)).log)
  unfolding Api.new
  new-AllCodes w sts = (history-Errs sts (Api.new os w) (tt, tt)).1
