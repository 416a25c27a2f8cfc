-- ===== src/Client/Errors.antt =====
-- Which error codes a client of src/ClientBase.tpp keeps in its queue, whatever is called.
pub mod Tasks
use async_tcpsock.Base.{false, ◌≡◌, refl, ℕ, Option, none, some, List, [], ◌∷◌, arith, min, length}
use async_tcpsock.Os.{Os}
use async_tcpsock.Os.Laws.{Errnos}
use async_tcpsock.Flags.{ClientApiFlags}
use async_tcpsock.Client.State.{Sys}
use async_tcpsock.Client.Queue.{process_write_queue}
use async_tcpsock.Client.Queue.Marks.{AllMarks, AllMarks-append, process_buffers-AllMarks}
use async_tcpsock.Client.Api
use async_tcpsock.Client.Callbacks.{
  ApiCall, Program, done, call, ask, on, off, Callback, Handler, handler_of,
}
use async_tcpsock.Client.Program.{perform, run, dispatch, invoke}

module _ (os : Os) (errnos : Errnos os) where
  -- The queue of a client.
  abbrev pub Marked : Sys os → Type 0
  Marked s = AllMarks s.client.write_queue

  pub process-Marked : (s : Sys os) → Marked s → Marked (process_write_queue os s).1
  unfolding process_write_queue
  process-Marked s h =
      process_buffers-AllMarks os errnos s.client.socket s.client.write_queue
        s.client.write_space_remaining false s.world h

  pub connect-Marked : (ip port : ℕ) (s : Sys os) → Marked s → Marked (Api.connect os ip port s).1
  unfolding Api.connect
  connect-Marked ip port s h = ground arith

  connect_host-Marked :
      (host : List ℕ) (port : ℕ) (s : Sys os)
      → Marked s
      → Marked (Api.connect_host os host port s).1
  unfolding Api.connect_host
  connect_host-Marked host port s h = ground arith

  closing-Marked : (s : Sys os) → Marked s → Marked (Api.close os s).1 × Marked (Api.abort os s).1
  unfolding Api.close Api.abort
  closing-Marked s h = ground arith

  add-Marked :
      (bytes : Option (List ℕ)) (flags : ClientApiFlags) (s : Sys os)
      → Marked s
      → Marked (Api.add os bytes flags s).1
  unfolding Api.add
  add-Marked none flags s h = h
  add-Marked (some bytes) flags s h =
      let c = s.client in
      let buf =
        Api.new_buffer os bytes (min (Api.space c) (length bytes)) flags (os.now s.world).0 in
      ground (arith, AllMarks-append c.write_queue (buf ∷ []))

  send-Marked : (s : Sys os) → Marked s → Marked (Api.send os s).1
  unfolding Api.send
  send-Marked s h = grind (arith, process-Marked)

  write-Marked :
      (bytes : Option (List ℕ)) (flags : ClientApiFlags) (s : Sys os)
      → Marked s
      → Marked (Api.write os bytes flags s).1
  unfolding Api.write
  write-Marked bytes flags s h =
      let added = Api.add os bytes flags s in
      ground (arith, add-Marked bytes flags s h, send-Marked added.1)

  perform-Marked : (a : ApiCall) (s : Sys os) → Marked s → Marked (perform os a s).1
  unfolding perform Api.set_no_delay Api.get_no_delay Api.set_ack_timeout Api.set_rx_timeout
  perform-Marked (ApiCall.connect_ip ip port) s h = connect-Marked ip port s h
  perform-Marked (ApiCall.connect_host host port) s h = connect_host-Marked host port s h
  perform-Marked ApiCall.close s h = (closing-Marked s h).0
  perform-Marked ApiCall.abort s h = (closing-Marked s h).1
  perform-Marked ApiCall.send s h = send-Marked s h
  perform-Marked (ApiCall.add bytes flags) s h = add-Marked bytes flags s h
  perform-Marked (ApiCall.write bytes flags) s h = write-Marked bytes flags s h
  perform-Marked _ s h = ground arith

  pub run-Marked : (p : Program) (s : Sys os) → Marked s → Marked (run os p s).1
  unfolding run
  run-Marked done s h = h
  run-Marked (call a k) s h =
      run-Marked (k (perform os a s).0) (perform os a s).1 (perform-Marked a s h)
  run-Marked (ask k) s h =
      run-Marked (k (os.choose s.world).0) (record s { world = (os.choose s.world).1 }) h
  run-Marked (on type handler p) s h = run-Marked p _ h
  run-Marked (off type p) s h = run-Marked p _ h

  dispatch-Marked :
      (handler : Option Handler) (event : Callback) (s : Sys os)
      → Marked s
      → Marked (dispatch os handler event s).1
  unfolding dispatch
  dispatch-Marked none event s h = h
  dispatch-Marked (some handler) event s h = run-Marked (handler event) s h

  pub invoke-Marked : (event : Callback) (s : Sys os) → Marked s → Marked (invoke os event s).1
  unfolding invoke
  invoke-Marked event s h = dispatch-Marked (handler_of event s.client.callbacks) event _ h
