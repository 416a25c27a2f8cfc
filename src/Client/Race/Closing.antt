-- ===== src/Client/Race/Closing.antt =====
-- close() of src/ClientBase.tpp in one thread while another is inside a function of the client.
use async_tcpsock.Base.{
  ◌⊎◌, false, ◌∙◌, ap, refl, ◌≡◌, ◌<◌, ℕ, List, [], ◌∷◌, some, true, length, min, minus_one, arith,
  take, append-nil,
}
use async_tcpsock.Os.{Os, ok}
use async_tcpsock.Connection.{is_open}
use async_tcpsock.Flags.{ClientApiFlags}
use async_tcpsock.Client.State.{Sys, is_connected, connected, connecting}
use async_tcpsock.Client.Callbacks.{done, ClientCallbacks, Callback}
use async_tcpsock.Client.Api
use async_tcpsock.Client.Api.Connecting.{connect_lem}
use async_tcpsock.Client.Events.{write_available, finish_connect, after_so_error, processing_done}
use async_tcpsock.Client.Fires.{invoked_of}
use async_tcpsock.Client.Fires.Events.{processing_done_fires}
use async_tcpsock.Client.Program.{invoke, dispatch, run}
use async_tcpsock.Client.Queue.Order.{pending_all}
use async_tcpsock.Client.Race.{add_begin, add_commit}

module _ (os : Os) where
  closed_lem :
      (s : Sys os)
      → is_open s.client.connection ≡ true
      → let r = (Api.close os s).1 in
        (r.client.socket ≡ minus_one)
        × (r.client.write_queue ≡ [])
        × (r.client.callbacks ≡ s.client.callbacks)
        × (invoked_of r.log ≡ invoked_of s.log)
  unfolding Api.close Api._close
  closed_lem s open' = ground arith

  connects_silently :
      (s : Sys os)
      → s.client.write_queue ≡ []
      → s.client.callbacks.connect_handler ≡ some (λ event. done)
      → let r = (finish_connect os s).1 in
        (r.client.state ≡ connected)
        × (r.client.socket ≡ s.client.socket)
        × (invoked_of r.log ≡ Callback.connect ∷ invoked_of s.log)
  unfolding finish_connect invoke dispatch run write_available
  connects_silently s queue quiet = rw (quiet, queue) (refl, refl, refl)

  -- If another thread closes a client that has a socket and a handler for CONNECT that does
  -- nothing, after the manager's task has found its connection established and before the task has
  -- noted it, then the client is connected without a socket, and CONNECT fires, but DISCONNECT
  -- does not when its processing is done.
  pub close_while_connecting :
      (s : Sys os)
      → is_open s.client.connection ≡ true
      → s.client.callbacks.connect_handler ≡ some (λ event. done)
      → let closed = (Api.close os s).1 in
        let r = (after_so_error os (ok 0) closed).1 in
        (r.client.state ≡ connected)
        × (r.client.socket ≡ minus_one)
        × (invoked_of (processing_done os r).1.log ≡ Callback.connect ∷ invoked_of s.log)
  unfolding after_so_error
  close_while_connecting s open' quiet =
      let closed = (Api.close os s).1 in
      let (socket, queue, same, log) = closed_lem s open' in
      let (state, socket', fires) =
        connects_silently closed queue
          (ap (λ (cs : ClientCallbacks). cs.connect_handler) same ∙ quiet) in
      ground (
        arith,
        state,
        socket',
        socket,
        fires,
        log,
        processing_done_fires os (after_so_error os (ok 0) closed).1,
      )

  -- If another thread closes a connected client with a socket between the moment when an add() of
  -- at least one byte has read the free space, which is not 0, and the moment when it locks the
  -- mutex, then the add succeeds, and its bytes are still all of the queue after the next
  -- connect(), which leaves the client connecting if it succeeds.
  pub add_survives_close :
      (d : List ℕ) (flags : ClientApiFlags) (ip port : ℕ) (s : Sys os)
      → is_connected s.client.state ≡ true
      → is_open s.client.connection ≡ true
      → 0 < length d
      → 0 < s.client.write_space_remaining
      → let (a, s1) = add_begin os (some d) flags s in
        let s2 = (Api.close os s1).1 in
        let (n, s3) = add_commit os a s2 in
        let (success, s4) = Api.connect os ip port s3 in
        (n ≡ min s.client.write_space_remaining (length d))
        × (pending_all s4.client.write_queue ≡ take n d)
        × ((success ≡ false) ⊎ (s4.client.state ≡ connecting))
  unfolding add_begin add_commit Api.close Api.new_buffer
  add_survives_close d flags ip port s c o h k =
      let s1 = (add_begin os (some d) flags s).1 in
      let s3 = (add_commit os (add_begin os (some d) flags s).0 (Api.close os s1).1).1 in
      ground (
        arith,
        connect_lem os ip port s3,
        append-nil (take (min s.client.write_space_remaining (length d)) d),
      )
