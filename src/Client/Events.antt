-- ===== src/Client/Events.antt =====
-- The functions of src/ClientBase.tpp that the manager's task calls.
pub mod Failing
pub mod Timeouts
use async_tcpsock.Base.{
  zero, suc, ℕ, ◌+◌, ◌-◌, Bool, true, false, not, ◌||◌, ◌&&◌, Option, none, some, List, [], ◌∷◌, ℤ,
  pos, negsuc, drop, leb, ltb, ◌==◌, ◌==ℤ◌, if◌then◌else◌, ◌>>=◌, ◌>>◌, return, is_empty,
}
use async_tcpsock.Os.{Ret, Os, ok, failed, bytes}
use async_tcpsock.Os
use async_tcpsock.Buffer.{WriteQueueBuffer, as_common_view}
use async_tcpsock.Connection.{set_dns_finished}
use async_tcpsock.Client.Callbacks.{Callback}
use async_tcpsock.Client.State.{
  disconnected, connected, disconnecting, ConnectionState, M, get, modify, call_os, lock, unlock,
  is_connected,
}
use async_tcpsock.Client.Queue.{process_write_queue, WriteStats, collect, milliseconds}
use async_tcpsock.Client.Api.{connect, _close, is_disconnected, is_ready}
use async_tcpsock.Client.Program.{invoke}

-- ERR_DNS_RESOLUTION_FAILED, -55
abbrev pub err_dns_resolution_failed : ℤ
err_dns_resolution_failed = negsuc 54

abbrev pub is_disconnecting : ConnectionState → Bool
is_disconnecting disconnecting = true
is_disconnecting _ = false

module _ (os : Os) where
  -- _error(int)
  unfoldable pub _error : ℤ → M os (Unit {0})
  _error code = do invoke os (Callback.error code); _close os

  -- The SENT callbacks that `_cleanupWriteQueue` has collected.
  unfoldable pub notify : List WriteStats → M os (Unit {0})
  notify [] = return tt
  notify (stats ∷ rest) = do invoke os (Callback.sent stats.length stats.delay); notify rest

  -- _cleanupWriteQueue(), which is called with the mutex locked and unlocks it.
  unfoldable pub cleanup_write_queue : M os (Unit {0})
  cleanup_write_queue = do
    found ← get os (λ c. collect c.write_queue c.rx_last_packet)
    modify os λ c. record c { rx_last_packet = found.rx_last }
    elim found.failure [
      | some code ↦ (do unlock os; _error code)
      | none ↦ (do
        modify os λ c. record c { write_queue = drop found.to_remove c.write_queue }
        unlock os
        notify found.notify_queue)
    ]

  -- `delay >= *_ack_timeout` with `delay = now - queuedAt`, and the buffer was never marked as
  -- written.
  abbrev pub ack_overdue : ℕ → ℕ → WriteQueueBuffer → Bool
  ack_overdue timeout now first = leb (first.queued_at + timeout) now && first.written_at == 0

  -- What `_checkAckTimeout` does once the mutex is locked.
  unfoldable pub check_front : ℕ → List WriteQueueBuffer → M os Bool
  check_front timeout [] = do unlock os; return false
  check_front timeout (first ∷ rest) = do
    now ← call_os os os.now
    if ack_overdue timeout now first
        then (do
          modify os λ c. record c { ack_timeout_signaled = true }
          unlock os
          invoke os (Callback.timeout (milliseconds (now - first.queued_at)))
          return true)
        else (do unlock os; return false)

  -- _checkAckTimeout()
  unfoldable pub check_ack_timeout : M os Bool
  check_ack_timeout = do
    signaled ← get os (λ c. c.ack_timeout_signaled)
    timeout ← get os (λ c. c.ack_timeout)
    elim timeout [
      | none ↦ return false
      | some t ↦
          if signaled
          then return false
          else (do lock os; queue ← get os (λ c. c.write_queue); check_front t queue)
    ]

  -- _checkRxTimeout()
  unfoldable pub check_rx_timeout : M os Bool
  check_rx_timeout = do
    timeout ← get os (λ c. c.rx_timeout)
    elim timeout [
      | none ↦ return false
      | some t ↦ (do
        now ← call_os os os.now
        last ← get os (λ c. c.rx_last_packet)
        if ltb now (last + t) then return false else (do
          socket ← get os (λ c. c.socket)
          selected ← call_os os (os.select_read socket)
          if is_ready selected
              then (do modify os λ c. record c { rx_last_packet = now }; return false)
              else return true))
    ]

  -- _pendingWrite()
  unfoldable pub pending_write : M os Bool
  pending_write = do
    state ← get os (λ c. c.state)
    if not (is_disconnected state) && not (is_connected state) then return true else (do
      mine ← call_os os os.try_lock
      empty ← get os (λ c. is_empty c.write_queue)
      return (if mine then not empty else true))

  -- The end of `_sockIsWriteable`: write what is queued.
  unfoldable pub write_available : Bool → M os Bool
  write_available activity = do
    lock os
    ready ← get os (λ c. is_connected c.state && not (is_empty c.write_queue))
    if ready
        then (do activity' ← process_write_queue os; cleanup_write_queue; return activity')
        else (do unlock os; return activity)

  -- The branch of `_sockIsWriteable` for a connection that is now established.
  unfoldable pub finish_connect : M os Bool
  finish_connect = do
    modify os λ c. record c { state = connected }
    now ← call_os os os.now
    modify os λ c. record c { rx_last_packet = now; ack_timeout_signaled = false }
    invoke os Callback.connect
    write_available true

  -- What `_sockIsWriteable` does once `getsockopt` has returned.
  unfoldable pub after_so_error : Ret → M os Bool
  after_so_error (failed e) = do _error e; return false
  after_so_error (ok zero) = finish_connect
  after_so_error (ok (suc n)) = do _error (pos (suc n)); return false

  -- _sockIsWriteable()
  unfoldable pub sock_is_writeable : M os Bool
  sock_is_writeable = do
    state ← get os (λ c. c.state)
    if is_connected state then write_available false else (do
      socket ← get os (λ c. c.socket)
      result ← call_os os (os.so_error socket)
      after_so_error result)

  -- What `_sockIsReadable` does once `lwip_read` has returned.
  unfoldable pub handle_read : Os.ReadRet → M os (Unit {0})
  handle_read (bytes []) = _close os
  handle_read (bytes (b ∷ bs)) = do
    now ← call_os os os.now
    modify os λ c. record c { rx_last_packet = now }
    invoke os (Callback.recv (b ∷ bs))
  handle_read (Os.ReadRet.failed e) =
      if e ==ℤ os.eagain || e ==ℤ os.ewouldblock then return tt else _error e

  -- _sockIsReadable()
  unfoldable pub sock_is_readable : M os (Unit {0})
  sock_is_readable = do
    socket ← get os (λ c. c.socket)
    result ← call_os os (os.read socket os.tcp_mss)
    handle_read result

  -- _sockDelayedConnect(); what `connect` returns is not looked at.
  unfoldable pub sock_delayed_connect : M os (Unit {0})
  sock_delayed_connect = do
    ip ← get os (λ c. c.ip)
    port ← get os (λ c. c.port)
    if os.ip_test ip
        then (do result ← connect os ip port; return tt)
        else _error err_dns_resolution_failed

  -- The end of `_sockPoll`, after the second test of `connected()`.
  unfoldable pub poll_timeouts : M os (Unit {0})
  poll_timeouts = do
    ack ← check_ack_timeout
    if ack
        then return tt
        else (do rx ← check_rx_timeout; if rx then _close os else invoke os Callback.poll)

  -- _sockPoll()
  unfoldable pub sock_poll : M os (Unit {0})
  sock_poll = do
    before ← get os (λ c. is_connected c.state)
    if not before then return tt else (do
      lock os
      cleanup_write_queue
      after ← get os (λ c. is_connected c.state)
      if not after then return tt else poll_timeouts)

  -- _processingDone()
  unfoldable pub processing_done : M os (Unit {0})
  processing_done = do
    state ← get os (λ c. c.state)
    if is_disconnecting state
        then (do modify os λ c. record c { state = disconnected }; invoke os Callback.disconnect)
        else return tt

  -- dnsFoundCallback(), which lwIP's thread calls: `none` is a null address.
  unfoldable pub dns_found_callback : Option ℕ → M os (Unit {0})
  dns_found_callback found = modify os λ c. record c {
    ip = elim found [ none ↦ os.ip_none | some ip ↦ ip ];
    connection = set_dns_finished true c.connection;
  }
