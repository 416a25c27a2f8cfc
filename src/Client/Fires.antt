-- ===== src/Client/Fires.antt =====
-- Which callbacks the functions of src/ClientBase.tpp fire. Public functions fire none, so user
-- code that runs in a callback cannot start another.
pub mod Events
pub mod Drained
use async_tcpsock.Base.{ap, ℕ, ◌≡◌, refl, arith, Option, none, some, List, [], ◌∷◌, ℤ, ◌∙◌}
use async_tcpsock.Os.{Os}
use async_tcpsock.Client.State.{Sys, Action, invoked, closed, asked}
use async_tcpsock.Client.Queue
use async_tcpsock.Client.Api
use async_tcpsock.Client.Callbacks.{
  ApiCall, Program, done, call, ask, on, off, Callback, Handler, handler_of,
}
use async_tcpsock.Client.Program.{perform, run, dispatch, invoke}
use async_tcpsock.Flags.{ClientApiFlags}

-- The callbacks of a log, the latest first.
abbrev pub invoked_of : List Action → List Callback
invoked_of [] = []
invoked_of (invoked event ∷ log) = event ∷ invoked_of log
invoked_of (closed socket ∷ log) = invoked_of log
invoked_of (asked ∷ log) = invoked_of log

module _ (os : Os) where
  pub connect_fires :
      (ip port : ℕ) (s : Sys os) → invoked_of (Api.connect os ip port s).1.log ≡ invoked_of s.log
  unfolding Api.connect
  connect_fires ip port s = ground arith

  connect_host_fires :
      (host : List ℕ) (port : ℕ) (s : Sys os)
      → invoked_of (Api.connect_host os host port s).1.log ≡ invoked_of s.log
  unfolding Api.connect_host
  connect_host_fires host port s = ground arith

  pub _close_fires : (s : Sys os) → invoked_of (Api._close os s).1.log ≡ invoked_of s.log
  unfolding Api._close
  _close_fires s = ground arith

  pub close_fires : (s : Sys os) → invoked_of (Api.close os s).1.log ≡ invoked_of s.log
  unfolding Api.close
  close_fires s = ground arith

  abort_fires : (s : Sys os) → invoked_of (Api.abort os s).1.log ≡ invoked_of s.log
  unfolding Api.abort
  abort_fires s = ground arith

  add_fires :
      (bytes : Option (List ℕ)) (flags : ClientApiFlags) (s : Sys os)
      → (Api.add os bytes flags s).1.log ≡ s.log
  unfolding Api.add
  add_fires none flags s = refl
  add_fires (some bytes) flags s = ground arith

  send_fires : (s : Sys os) → (Api.send os s).1.log ≡ s.log
  unfolding Api.send Queue.process_write_queue
  send_fires s = ground arith

  write_fires :
      (bytes : Option (List ℕ)) (flags : ClientApiFlags) (s : Sys os)
      → (Api.write os bytes flags s).1.log ≡ s.log
  unfolding Api.write
  write_fires bytes flags s =
      let added = Api.add os bytes flags s in
      ground (arith, add_fires bytes flags s, send_fires added.1)

  perform_fires : (a : ApiCall) (s : Sys os) → invoked_of (perform os a s).1.log ≡ invoked_of s.log
  unfolding perform Api.set_no_delay Api.get_no_delay Api.set_ack_timeout Api.set_rx_timeout
  perform_fires (ApiCall.connect_ip ip port) s = connect_fires ip port s
  perform_fires (ApiCall.connect_host host port) s = connect_host_fires host port s
  perform_fires ApiCall.close s = close_fires s
  perform_fires ApiCall.abort s = abort_fires s
  perform_fires ApiCall.send s = ap invoked_of (send_fires s)
  perform_fires (ApiCall.add bytes flags) s = ap invoked_of (add_fires bytes flags s)
  perform_fires (ApiCall.write bytes flags) s = ap invoked_of (write_fires bytes flags s)
  perform_fires _ s = ground arith

  -- User code fires no callback, whatever public functions of the client it calls, on whatever
  -- system; so a handler never starts another.
  pub run_fires : (p : Program) (s : Sys os) → invoked_of (run os p s).1.log ≡ invoked_of s.log
  unfolding run
  run_fires done s = refl
  run_fires (call a k) s = run_fires (k (perform os a s).0) (perform os a s).1 ∙ perform_fires a s
  run_fires (ask k) s =
      run_fires (k (os.choose s.world).0) (record s { world = (os.choose s.world).1 })
  run_fires (on type handler p) s = run_fires p _
  run_fires (off type p) s = run_fires p _

  dispatch_fires :
      (handler : Option Handler) (event : Callback) (s : Sys os)
      → invoked_of (dispatch os handler event s).1.log ≡ invoked_of s.log
  unfolding dispatch
  dispatch_fires none event s = refl
  dispatch_fires (some handler) event s = run_fires (handler event) s

  -- `invoke` fires its own callback once, and its handler fires nothing.
  pub invoke_fires :
      (event : Callback) (s : Sys os)
      → invoked_of (invoke os event s).1.log ≡ event ∷ invoked_of s.log
  unfolding invoke
  invoke_fires event s = dispatch_fires (handler_of event s.client.callbacks) event _
