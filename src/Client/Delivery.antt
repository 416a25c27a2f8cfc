-- ===== src/Client/Delivery.antt =====
-- User code and the queue of a client (src/ClientBase.tpp) read nothing from the socket and hand
-- nothing to RECV.
pub mod Tasks
pub mod Reading
use async_tcpsock.Base.{
  false, ◌≡◌, refl, ◌∙◌, ap, ℕ, zero, suc, ◌+◌, ◌||◌, Bool, Option, none, some, List, [], ◌∷◌, ◌++◌,
  ℤ, arith, drop, ltb,
}
use async_tcpsock.Os.{Os, Ret, ok, failed, ReadRet}
use async_tcpsock.Os.Tapped.{beside}
use async_tcpsock.Flags.{ClientApiFlags}
use async_tcpsock.Buffer.{WriteQueueBuffer, after_write, write_round, write_loop, write, rounds}
use async_tcpsock.Client.State.{Sys, Action, invoked}
use async_tcpsock.Client.Queue.{process_buffers, process_write_queue}
use async_tcpsock.Client.Api
use async_tcpsock.Client.Callbacks.{
  ApiCall, Program, done, call, ask, on, off, Callback, Handler, handler_of,
}
use async_tcpsock.Client.Program.{perform, run, dispatch, invoke}

-- What RECV has been handed, in order; the latest of the log is in front.
abbrev pub received_of : List Action → List ℕ
received_of [] = []
received_of (invoked (Callback.recv bytes) ∷ log) = received_of log ++ bytes
received_of (a ∷ log) = received_of log

module _ (S : Type 0) (note : ReadRet → S → S) (os : Os) where
  abbrev pub T : Os
  T = beside S note os

  after_write_seen :
      (it : WriteQueueBuffer) (total : ℕ) (result : Ret) (w : T.World)
      → (after_write T it total result w).world.1 ≡ w.1
  unfolding after_write
  after_write_seen it total (ok n) w = ground arith
  after_write_seen it total (failed e) w = ground arith

  loop_seen :
      (fuel : ℕ) (socket : ℤ) (it : WriteQueueBuffer) (total : ℕ) (w : T.World)
      → (write_loop T fuel socket it total w).world.1 ≡ w.1
  unfolding write_loop write_round
  loop_seen zero socket it total w = refl
  loop_seen (suc fuel) socket it total w =
      let r = write_round T socket it total w in
      let d : List ℕ = drop it.amount_written it.bytes in
      let (result, w') = T.write socket d w in
      ground (
        arith,
        after_write_seen it total result w',
        loop_seen fuel socket r.it r.written_total r.world,
      )

  write_seen :
      (socket : ℤ) (buf : WriteQueueBuffer) (w : T.World) → (write T socket buf w).world.1 ≡ w.1
  unfolding write
  write_seen socket buf w = loop_seen (rounds buf) socket buf 0 w

  process_buffers_seen :
      (socket : ℤ) (bufs : List WriteQueueBuffer) (space : ℕ) (activity : Bool) (w : T.World)
      → (process_buffers T socket bufs space activity w).world.1 ≡ w.1
  unfolding process_buffers
  process_buffers_seen socket [] space activity w = refl
  process_buffers_seen socket (buf ∷ bufs) space activity w =
      let r = write T socket buf w in
      ground (
        arith,
        write_seen socket buf w,
        process_buffers_seen socket bufs space activity w,
        process_buffers_seen socket bufs (space + r.written_total)
            (activity || ltb 0 r.written_total) r.world,
      )

  -- Nothing is read, since `note` has not changed what lies beside the system, and nothing is handed
  -- out.
  abbrev pub Quiet : Sys T → Sys T → Type 0
  Quiet s r = (r.world.1 ≡ s.world.1) × (received_of r.log ≡ received_of s.log)

  pub process-Quiet : (s : Sys T) → Quiet s (process_write_queue T s).1
  unfolding process_write_queue
  process-Quiet s =
      let c = s.client in
      (process_buffers_seen c.socket c.write_queue c.write_space_remaining false s.world, refl)

  connect-Quiet : (ip port : ℕ) (s : Sys T) → Quiet s (Api.connect T ip port s).1
  unfolding Api.connect
  connect-Quiet ip port s = ground arith

  connect_host-Quiet :
      (host : List ℕ) (port : ℕ) (s : Sys T) → Quiet s (Api.connect_host T host port s).1
  unfolding Api.connect_host
  connect_host-Quiet host port s = ground arith

  pub _close-Quiet : (s : Sys T) → Quiet s (Api._close T s).1
  unfolding Api._close
  _close-Quiet s = (refl, refl)

  close-Quiet : (s : Sys T) → Quiet s (Api.close T s).1
  unfolding Api.close
  close-Quiet s = ground arith

  abort-Quiet : (s : Sys T) → Quiet s (Api.abort T s).1
  unfolding Api.abort
  abort-Quiet s = ground arith

  add-Quiet :
      (bytes : Option (List ℕ)) (flags : ClientApiFlags) (s : Sys T)
      → Quiet s (Api.add T bytes flags s).1
  unfolding Api.add
  add-Quiet none flags s = (refl, refl)
  add-Quiet (some bytes) flags s = ground arith

  send-Quiet : (s : Sys T) → Quiet s (Api.send T s).1
  unfolding Api.send
  send-Quiet s = grind (arith, process-Quiet)

  write-Quiet :
      (bytes : Option (List ℕ)) (flags : ClientApiFlags) (s : Sys T)
      → Quiet s (Api.write T bytes flags s).1
  unfolding Api.write
  write-Quiet bytes flags s =
      let added = Api.add T bytes flags s in
      ground (arith, add-Quiet bytes flags s, send-Quiet added.1)

  perform-Quiet : (a : ApiCall) (s : Sys T) → Quiet s (perform T a s).1
  unfolding perform Api.set_no_delay Api.get_no_delay Api.set_ack_timeout Api.set_rx_timeout
  perform-Quiet (ApiCall.connect_ip ip port) s = connect-Quiet ip port s
  perform-Quiet (ApiCall.connect_host host port) s = connect_host-Quiet host port s
  perform-Quiet ApiCall.close s = close-Quiet s
  perform-Quiet ApiCall.abort s = abort-Quiet s
  perform-Quiet ApiCall.send s = send-Quiet s
  perform-Quiet (ApiCall.add bytes flags) s = add-Quiet bytes flags s
  perform-Quiet (ApiCall.write bytes flags) s = write-Quiet bytes flags s
  perform-Quiet _ s = ground arith

  pub Quiet-trans : (s r q : Sys T) → Quiet s r → Quiet r q → Quiet s q
  Quiet-trans s r q a b = (b.0 ∙ a.0, b.1 ∙ a.1)

  pub run-Quiet : (p : Program) (s : Sys T) → Quiet s (run T p s).1
  unfolding run
  run-Quiet done s = (refl, refl)
  run-Quiet (call a k) s =
      let r = perform T a s in
      Quiet-trans s r.1 (run T (k r.0) r.1).1 (perform-Quiet a s) (run-Quiet (k r.0) r.1)
  run-Quiet (ask k) s =
      run-Quiet (k (T.choose s.world).0) (record s { world = (T.choose s.world).1 })
  run-Quiet (on type handler p) s = run-Quiet p _
  run-Quiet (off type p) s = run-Quiet p _

  dispatch-Quiet :
      (handler : Option Handler) (event : Callback) (s : Sys T)
      → Quiet s (dispatch T handler event s).1
  unfolding dispatch
  dispatch-Quiet none event s = (refl, refl)
  dispatch-Quiet (some handler) event s = run-Quiet (handler event) s

  -- A callback hands out what it carries, and its handler nothing.
  pub invoke_delivers :
      (event : Callback) (s : Sys T)
      → Quiet (record s { log = invoked event ∷ s.log }) (invoke T event s).1
  unfolding invoke
  invoke_delivers event s = dispatch-Quiet (handler_of event s.client.callbacks) event _
