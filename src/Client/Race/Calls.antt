-- ===== src/Client/Race/Calls.antt =====
-- User code that does not call add() or write() takes no space from the queue of a client of
-- src/ClientBase.tpp.
use async_tcpsock.Base.{
  false, ◌≤◌, arith, ℕ, ◌+◌, ◌||◌, ltb, Bool, Option, none, some, List, [], ◌∷◌, ℤ,
}
use async_tcpsock.Os.{Os}
use async_tcpsock.Buffer.{WriteQueueBuffer, write}
use async_tcpsock.Client.State.{ClientBase, Sys}
use async_tcpsock.Client.Queue.{process_buffers, process_write_queue}
use async_tcpsock.Client.Api
use async_tcpsock.Client.Callbacks.{
  ApiCall, Program, done, call, ask, on, off, Callback, Handler, handler_of, set_handler,
  ClientCallbacks, ClientCallbackType,
}
use async_tcpsock.Client.Program.{perform, run, dispatch, invoke}

abbrev pub IsNoAdd : ApiCall → Type 0
IsNoAdd (ApiCall.add bytes flags) = ⊥
IsNoAdd (ApiCall.write bytes flags) = ⊥
IsNoAdd _ = Unit

-- A program that adds nothing, with the handlers that it sets.
abbrev pub NeverAdds : Program → Type 0
NeverAdds done = Unit
NeverAdds (call a k) = IsNoAdd a × ((r : ℤ) → NeverAdds (k r))
NeverAdds (ask k) = (n : ℕ) → NeverAdds (k n)
NeverAdds (on type handler p) = ((event : Callback) → NeverAdds (handler event)) × NeverAdds p
NeverAdds (off type p) = NeverAdds p

abbrev pub HandlerNeverAdds : Option Handler → Type 0
HandlerNeverAdds none = Unit
HandlerNeverAdds (some handler) = (event : Callback) → NeverAdds (handler event)

pub record HandlersNeverAdd (cs : ClientCallbacks) : Type 0 where
  pub connect : HandlerNeverAdds cs.connect_handler
  pub disconnect : HandlerNeverAdds cs.disconnect_handler
  pub poll : HandlerNeverAdds cs.poll_handler
  pub sent : HandlerNeverAdds cs.sent_handler
  pub recv : HandlerNeverAdds cs.recv_handler
  pub error : HandlerNeverAdds cs.error_handler
  pub timeout : HandlerNeverAdds cs.timeout_handler

handler_of-HandlerNeverAdds :
    (event : Callback) (cs : ClientCallbacks)
    → HandlersNeverAdd cs
    → HandlerNeverAdds (handler_of event cs)
handler_of-HandlerNeverAdds Callback.connect cs h = h.connect
handler_of-HandlerNeverAdds Callback.disconnect cs h = h.disconnect
handler_of-HandlerNeverAdds Callback.poll cs h = h.poll
handler_of-HandlerNeverAdds (Callback.sent len delay) cs h = h.sent
handler_of-HandlerNeverAdds (Callback.recv bytes) cs h = h.recv
handler_of-HandlerNeverAdds (Callback.error code) cs h = h.error
handler_of-HandlerNeverAdds (Callback.timeout delay) cs h = h.timeout

set_handler-HandlersNeverAdd :
    (type : ClientCallbackType) (cb : Option Handler) (cs : ClientCallbacks)
    → HandlerNeverAdds cb
    → HandlersNeverAdd cs
    → HandlersNeverAdd (set_handler type cb cs)
unfolding set_handler
set_handler-HandlersNeverAdd ClientCallbackType.connect cb cs a h = ground arith
set_handler-HandlersNeverAdd ClientCallbackType.disconnect cb cs a h = ground arith
set_handler-HandlersNeverAdd ClientCallbackType.poll cb cs a h = ground arith
set_handler-HandlersNeverAdd ClientCallbackType.sent cb cs a h = ground arith
set_handler-HandlersNeverAdd ClientCallbackType.recv cb cs a h = ground arith
set_handler-HandlersNeverAdd ClientCallbackType.error cb cs a h = ground arith
set_handler-HandlersNeverAdd ClientCallbackType.timeout cb cs a h = ground arith

-- A client with room for n bytes, whose handlers add nothing.
pub record Spared (n : ℕ) (c : ClientBase) : Type 0 where
  pub room : n ≤ c.write_space_remaining
  pub quiet : HandlersNeverAdd c.callbacks

module _ (os : Os) where
  process_buffers_frees :
      (socket : ℤ) (bufs : List WriteQueueBuffer) (space : ℕ) (activity : Bool) (w : os.World)
      → space ≤ (process_buffers os socket bufs space activity w).space
  unfolding process_buffers
  process_buffers_frees socket [] space activity w = omega arith
  process_buffers_frees socket (buf ∷ bufs) space activity w =
      let r = write os socket buf w in
      ground (
        arith,
        process_buffers_frees socket bufs space activity w,
        process_buffers_frees socket bufs (space + r.written_total)
            (activity || ltb 0 r.written_total) r.world,
      )

module _ (os : Os) (n : ℕ) (fits : n ≤ os.tcp_snd_buf) where
  pub process-Spared :
      (s : Sys os) → Spared n s.client → Spared n (process_write_queue os s).1.client
  unfolding process_write_queue
  process-Spared s h = ground (
    arith,
    process_buffers_frees os s.client.socket s.client.write_queue s.client.write_space_remaining
        false s.world,
  )

  pub connect-Spared :
      (ip port : ℕ) (s : Sys os) → Spared n s.client → Spared n (Api.connect os ip port s).1.client
  unfolding Api.connect
  connect-Spared ip port s h = ground arith

  connect_host-Spared :
      (host : List ℕ) (port : ℕ) (s : Sys os)
      → Spared n s.client
      → Spared n (Api.connect_host os host port s).1.client
  unfolding Api.connect_host
  connect_host-Spared host port s h = ground arith

  pub _close-Spared : (s : Sys os) → Spared n s.client → Spared n (Api._close os s).1.client
  unfolding Api._close
  _close-Spared s h = ground arith

  closing-Spared :
      (s : Sys os)
      → Spared n s.client
      → Spared n (Api.close os s).1.client × Spared n (Api.abort os s).1.client
  unfolding Api.close Api.abort
  closing-Spared s h = ground arith

  send-Spared : (s : Sys os) → Spared n s.client → Spared n (Api.send os s).1.client
  unfolding Api.send
  send-Spared s h = grind (arith, process-Spared)

  perform-Spared :
      (a : ApiCall) (s : Sys os)
      → IsNoAdd a
      → Spared n s.client
      → Spared n (perform os a s).1.client
  unfolding perform Api.set_no_delay Api.get_no_delay Api.set_ack_timeout Api.set_rx_timeout
  perform-Spared (ApiCall.connect_ip ip port) s a h = connect-Spared ip port s h
  perform-Spared (ApiCall.connect_host host port) s a h = connect_host-Spared host port s h
  perform-Spared ApiCall.close s a h = (closing-Spared s h).0
  perform-Spared ApiCall.abort s a h = (closing-Spared s h).1
  perform-Spared ApiCall.send s a h = send-Spared s h
  perform-Spared (ApiCall.add bytes flags) s a h = absurd a
  perform-Spared (ApiCall.write bytes flags) s a h = absurd a
  perform-Spared _ s a h = ground arith

  pub run-Spared :
      (p : Program) (s : Sys os) → NeverAdds p → Spared n s.client → Spared n (run os p s).1.client
  unfolding run
  run-Spared done s q h = h
  run-Spared (call a k) s q h =
      let (r, s') = perform os a s in run-Spared (k r) s' (q.1 r) (perform-Spared a s q.0 h)
  run-Spared (ask k) s q h =
      let (r, w) = os.choose s.world in run-Spared (k r) (record s { world = w }) (q r) h
  run-Spared (on type handler p) s q h = run-Spared p _ q.1 (record {
    room = h.room;
    quiet = set_handler-HandlersNeverAdd type (some handler) s.client.callbacks q.0 h.quiet;
  })
  run-Spared (off type p) s q h = run-Spared p _ q (record {
    room = h.room;
    quiet = set_handler-HandlersNeverAdd type none s.client.callbacks tt h.quiet;
  })

  dispatch-Spared :
      (handler : Option Handler) (event : Callback) (s : Sys os)
      → HandlerNeverAdds handler
      → Spared n s.client
      → Spared n (dispatch os handler event s).1.client
  unfolding dispatch
  dispatch-Spared none event s q h = h
  dispatch-Spared (some handler) event s q h = run-Spared (handler event) s (q event) h

  pub invoke-Spared :
      (event : Callback) (s : Sys os) → Spared n s.client → Spared n (invoke os event s).1.client
  unfolding invoke
  invoke-Spared event s h =
      dispatch-Spared (handler_of event s.client.callbacks) event _
        (handler_of-HandlerNeverAdds event s.client.callbacks h.quiet) h
