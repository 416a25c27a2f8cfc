-- ===== src/Client/Fires/Events.antt =====
-- The callbacks of each function of src/ClientBase.tpp that the manager's task calls.
use async_tcpsock.Base.{
  Bool, true, false, zero, sym, append_assoc, not, is_empty, ◌&&◌, ap, none, ◌∙◌, ◌||◌, ◌==ℤ◌, ℤ,
  some, if◌then◌else◌, ◌≡◌, refl, arith, List, [], ◌∷◌, ◌++◌,
}
use async_tcpsock.Os.{ok, Os, ReadRet}
use async_tcpsock.Client.State.{locked, connected, is_connected, Sys, disconnected}
use async_tcpsock.Client.Events
use async_tcpsock.Client.Program.{invoke}
use async_tcpsock.Client.Queue.{process_write_queue, WriteStats, Collected, collect}
use async_tcpsock.Client.Callbacks.{Callback}
use async_tcpsock.Client.Fires.{invoked_of, invoke_fires, _close_fires, connect_fires}

-- Callbacks in the order in which they fire, put on a log whose latest is in front.
abbrev pub push_all : List Callback → List Callback → List Callback
push_all [] log = log
push_all (event ∷ events) log = push_all events (event ∷ log)

-- The callbacks of a read: RECV with exactly what was read, or ERROR; none for a would-block, and
-- none for the end of the stream.
abbrev pub of_read : (os : Os) → ReadRet → List Callback
of_read os (ReadRet.bytes []) = []
of_read os (ReadRet.bytes (b ∷ bs)) = Callback.recv (b ∷ bs) ∷ []
of_read os (ReadRet.failed e) =
    if e ==ℤ os.eagain || e ==ℤ os.ewouldblock then [] else Callback.error e ∷ []

abbrev pub of_stats : List WriteStats → List Callback
of_stats [] = []
of_stats (stats ∷ rest) = Callback.sent stats.length stats.delay ∷ of_stats rest

abbrev pub of_collected : Collected → List Callback
of_collected found = elim found.failure [
  | some code ↦ Callback.error code ∷ []
  | none ↦ of_stats found.notify_queue
]

pub push_all-append : (events log : List Callback) → push_all events log ≡ push_all events [] ++ log
push_all-append [] log = refl
push_all-append (event ∷ events) log =
    push_all-append events (event ∷ log)
    ∙ sym (append_assoc (push_all events []) (event ∷ []) log)
    ∙ ap (λ (x : List Callback). x ++ log) (sym (push_all-append events (event ∷ [])))

module _ (os : Os) where
  process_log : (s : Sys os) → (process_write_queue os s).1.log ≡ s.log
  unfolding process_write_queue
  process_log s = refl

  pub _error_fires :
      (code : ℤ) (s : Sys os)
      → invoked_of (Events._error os code s).1.log ≡ Callback.error code ∷ invoked_of s.log
  unfolding Events._error
  _error_fires code s =
      _close_fires os (invoke os (Callback.error code) s).1
      ∙ invoke_fires os (Callback.error code) s

  pub notify_fires :
      (stats : List WriteStats) (s : Sys os)
      → invoked_of (Events.notify os stats s).1.log ≡ push_all (of_stats stats) (invoked_of s.log)
  unfolding Events.notify
  notify_fires [] s = refl
  notify_fires (st ∷ rest) s =
      notify_fires rest (invoke os (Callback.sent st.length st.delay) s).1
      ∙ ap (push_all (of_stats rest)) (invoke_fires os (Callback.sent st.length st.delay) s)

  -- Cleaning the queue fires SENT for the finished buffers at its front, in order, with length and
  -- delay; or ERROR alone, with the code of the first unfinished buffer, if that one has failed.
  -- Handlers add nothing to what fires.
  pub cleanup_fires :
      (s : Sys os)
      → invoked_of (Events.cleanup_write_queue os s).1.log
        ≡ push_all
            (of_collected (collect s.client.write_queue s.client.rx_last_packet))
            (invoked_of s.log)
  unfolding Events.cleanup_write_queue
  cleanup_fires s = grind (arith, _error_fires, notify_fires)

  handle_read_fires :
      (r : ReadRet) (s : Sys os)
      → invoked_of (Events.handle_read os r s).1.log ≡ of_read os r ++ invoked_of s.log
  unfolding Events.handle_read
  handle_read_fires (ReadRet.bytes []) s = _close_fires os s
  handle_read_fires (ReadRet.bytes (b ∷ bs)) s = invoke_fires os (Callback.recv (b ∷ bs)) _
  handle_read_fires (ReadRet.failed e) s = ground (arith, _error_fires e s)

  -- A read fires exactly: RECV with the bytes that were read; ERROR with the code of a failure;
  -- and nothing if the read would block or the peer has closed the stream.
  sock_is_readable_fires :
      (s : Sys os)
      → invoked_of (Events.sock_is_readable os s).1.log
        ≡ of_read os (os.read s.client.socket os.tcp_mss s.world).0 ++ invoked_of s.log
  unfolding Events.sock_is_readable
  sock_is_readable_fires s =
      let (r, w) = os.read s.client.socket os.tcp_mss s.world in
      handle_read_fires r (record s { world = w })

  sock_delayed_connect_fires :
      (s : Sys os)
      → invoked_of (Events.sock_delayed_connect os s).1.log ≡ (
          if os.ip_test s.client.ip
          then invoked_of s.log
          else Callback.error Events.err_dns_resolution_failed ∷ invoked_of s.log)
  unfolding Events.sock_delayed_connect
  sock_delayed_connect_fires s = ground (
    arith,
    connect_fires os s.client.ip s.client.port s,
    _error_fires Events.err_dns_resolution_failed s,
  )

  -- `_processingDone` fires DISCONNECT once for a client that is disconnecting and nothing for any
  -- other.
  pub processing_done_fires :
      (s : Sys os)
      → invoked_of (Events.processing_done os s).1.log ≡ (
          if Events.is_disconnecting s.client.state
          then Callback.disconnect ∷ invoked_of s.log
          else invoked_of s.log)
  unfolding Events.processing_done
  processing_done_fires s =
      let ended = record s { client = record s.client { state = disconnected } } in
      ground (arith, invoke_fires os Callback.disconnect ended)

  -- What `_sockIsWriteable` fires when it writes what is queued.
  abbrev queued_events : Sys os → List Callback
  queued_events s =
      let passed = (process_write_queue os s).1.client in
      if is_connected s.client.state && not (is_empty s.client.write_queue)
      then push_all (of_collected (collect passed.write_queue passed.rx_last_packet)) []
      else []

  write_available_fires :
      (activity : Bool) (s : Sys os)
      → invoked_of (Events.write_available os activity s).1.log
        ≡ queued_events
            (record s { client = record s.client { write_mutex = locked s.client.write_mutex } })
          ++ invoked_of s.log
  unfolding Events.write_available
  write_available_fires activity s =
      let held = record s {
        client = record s.client { write_mutex = locked s.client.write_mutex };
      } in
      let passed = (process_write_queue os held).1 in
      ground (
        arith,
        process_log held,
        cleanup_fires passed,
        push_all-append
            (of_collected (collect passed.client.write_queue passed.client.rx_last_packet))
            (invoked_of s.log),
      )

  finish_connect_fires :
      (s : Sys os)
      → (later : List Callback) × (invoked_of (Events.finish_connect os s).1.log
          ≡ later ++ (Callback.connect ∷ invoked_of s.log))
  unfolding Events.finish_connect
  finish_connect_fires s =
      let (t, w) = os.now s.world in
      let entered = record s {
        client = record s.client {
          state = connected;
          rx_last_packet = t;
          ack_timeout_signaled = false;
        };
        world = w;
      } in
      let told = (invoke os Callback.connect entered).1 in
      let held = record told {
        client = record told.client { write_mutex = locked told.client.write_mutex };
      } in
      (
        queued_events held,
        write_available_fires true told
            ∙ ap (λ (x : List Callback). queued_events held ++ x)
                (invoke_fires os Callback.connect entered),
      )

  finish_if_no_error :
      (s : Sys os)
      → is_connected s.client.state ≡ false
      → (os.so_error s.client.socket s.world).0 ≡ ok zero
      → (Events.sock_is_writeable os s).1
        ≡ (Events.finish_connect os
            (record s { world = (os.so_error s.client.socket s.world).1 })).1
  unfolding Events.sock_is_writeable Events.after_so_error
  finish_if_no_error s n e = ground arith

  -- If a client that is not connected finds its socket writable and without a pending error,
  -- CONNECT fires, and everything else that fires does so after it.
  pub sock_is_writeable_connects :
      (s : Sys os)
      → is_connected s.client.state ≡ false
      → (os.so_error s.client.socket s.world).0 ≡ ok zero
      → (later : List Callback) × (invoked_of (Events.sock_is_writeable os s).1.log
          ≡ later ++ (Callback.connect ∷ invoked_of s.log))
  sock_is_writeable_connects s n e =
      let (later, fires) =
        finish_connect_fires (record s { world = (os.so_error s.client.socket s.world).1 }) in
      (later, ap (λ (r : Sys os). invoked_of r.log) (finish_if_no_error s n e) ∙ fires)
