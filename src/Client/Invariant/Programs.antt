-- ===== src/Client/Invariant/Programs.antt =====
-- User code keeps the invariant of the client in src/ClientBase.tpp, whatever it does.
use async_tcpsock.Base.{Bool, arith, Option, none, some}
use async_tcpsock.Os.{Os}
use async_tcpsock.Os.Laws.{Lawful}
use async_tcpsock.Client.State.{Sys}
use async_tcpsock.Client.Api
use async_tcpsock.Client.Callbacks.{
  ApiCall, Program, done, call, ask, on, off, Callback, Handler, handler_of,
}
use async_tcpsock.Client.Program.{perform, run, dispatch, invoke}
use async_tcpsock.Client.Invariant.{
  Inv, connect-Inv, connect_host-Inv, close-Inv, abort-Inv, add-Inv, write-Inv, send-Inv,
}

module _ (os : Os) (laws : Lawful os) where
  pub set_no_delay-Inv :
      (nodelay : Bool) (s : Sys os)
      → Inv os s.client
      → Inv os (Api.set_no_delay os nodelay s).1.client
  unfolding Api.set_no_delay
  set_no_delay-Inv nodelay s h = ground arith

  perform-Inv : (a : ApiCall) (s : Sys os) → Inv os s.client → Inv os (perform os a s).1.client
  unfolding perform Api.set_no_delay Api.get_no_delay Api.set_ack_timeout Api.set_rx_timeout
  perform-Inv (ApiCall.connect_ip ip port) s h = connect-Inv os laws ip port s h
  perform-Inv (ApiCall.connect_host host port) s h = connect_host-Inv os laws host port s h
  perform-Inv ApiCall.close s h = close-Inv os laws s h
  perform-Inv ApiCall.abort s h = abort-Inv os laws s h
  perform-Inv ApiCall.send s h = send-Inv os laws s h
  perform-Inv (ApiCall.add bytes flags) s h = add-Inv os laws bytes flags s h
  perform-Inv (ApiCall.write bytes flags) s h = write-Inv os laws bytes flags s h
  perform-Inv _ s h = ground arith

  pub run-Inv : (p : Program) (s : Sys os) → Inv os s.client → Inv os (run os p s).1.client
  unfolding run
  run-Inv done s h = h
  run-Inv (call a k) s h = run-Inv (k (perform os a s).0) (perform os a s).1 (perform-Inv a s h)
  run-Inv (ask k) s h =
      run-Inv (k (os.choose s.world).0) (record s { world = (os.choose s.world).1 }) h
  run-Inv (on type handler p) s h = run-Inv p _ (ground arith)
  run-Inv (off type p) s h = run-Inv p _ (ground arith)

  dispatch-Inv :
      (handler : Option Handler) (event : Callback) (s : Sys os)
      → Inv os s.client
      → Inv os (dispatch os handler event s).1.client
  unfolding dispatch
  dispatch-Inv none event s h = h
  dispatch-Inv (some handler) event s h = run-Inv (handler event) s h

  -- So does every callback.
  pub invoke-Inv :
      (event : Callback) (s : Sys os) → Inv os s.client → Inv os (invoke os event s).1.client
  unfolding invoke
  invoke-Inv event s h = dispatch-Inv (handler_of event s.client.callbacks) event _ h
