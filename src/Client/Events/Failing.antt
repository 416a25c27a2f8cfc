-- ===== src/Client/Events/Failing.antt =====
-- How src/ClientBase.tpp reports and ends a connection that fails.
use async_tcpsock.Base.{ℕ, ◌≡◌, refl, true, false, List, [], ◌∷◌, ◌++◌, ℤ, arith, minus_one}
use async_tcpsock.Os.{in_progress, Os, ok}
use async_tcpsock.Client.State.{
  asked, Sys, ClientBase, disconnecting, waiting_for_dns, is_connected,
}
use async_tcpsock.Client.Callbacks.{Callback}
use async_tcpsock.Client.Program.{invoke}
use async_tcpsock.Client.Api.Connecting.{connect_lem}
use async_tcpsock.Client.Api.{_close, connect, connect_host}
use async_tcpsock.Client.Fires.{connect_fires, invoked_of, invoke_fires, _close_fires}
use async_tcpsock.Client.Fires.Events.{
  sock_is_writeable_connects, _error_fires, processing_done_fires,
}
use async_tcpsock.Client.Events.{
  _error, processing_done, sock_delayed_connect, sock_is_writeable, err_dns_resolution_failed,
}

-- A client that has let go of its socket and its queue, and is to be told so.
pub record IsClosing (os : Os) (c : ClientBase) : Type 0 where
  pub ending : c.state ≡ disconnecting
  pub no_socket : c.socket ≡ minus_one
  pub no_queue : c.write_queue ≡ []
  pub all_space : c.write_space_remaining ≡ os.tcp_snd_buf

module _ (os : Os) where
  pub _close-IsClosing : (s : Sys os) → IsClosing os (_close os s).1.client
  unfolding _close
  _close-IsClosing s = ground arith

  -- After `_error` the client has no socket, an empty queue and all its space, and is
  -- disconnecting, whatever the error handler did with it; and if `_processingDone` comes next,
  -- exactly ERROR with the code and then DISCONNECT have fired.
  pub error_disconnects :
      (code : ℤ) (s : Sys os)
      → let failing = (_error os code s).1 in
        IsClosing os failing.client
        × (invoked_of (processing_done os failing).1.log
            ≡ Callback.disconnect ∷ Callback.error code ∷ invoked_of s.log)
  unfolding _error
  error_disconnects code s =
      let closing = _close-IsClosing (invoke os (Callback.error code) s).1 in
      let failing = (_close os (invoke os (Callback.error code) s).1).1 in
      (
        closing,
        ground (
          arith,
          processing_done_fires os failing,
          closing,
          _close_fires os (invoke os (Callback.error code) s).1,
          invoke_fires os (Callback.error code) s,
        ),
      )

  -- If the name has no address, the delayed connect closes the client and fires exactly ERROR with
  -- code -55.
  pub delayed_connect_unresolved :
      (s : Sys os)
      → os.ip_test s.client.ip ≡ false
      → let r = (sock_delayed_connect os s).1 in
        IsClosing os r.client
        × (invoked_of r.log ≡ Callback.error err_dns_resolution_failed ∷ invoked_of s.log)
  unfolding sock_delayed_connect
  delayed_connect_unresolved s u = ground (
    arith,
    error_disconnects err_dns_resolution_failed s,
    _error_fires os err_dns_resolution_failed s,
  )

  -- If the name has an address, the client waits for DNS, and `connect` fails, then the delayed
  -- connect leaves the client as it was, and neither it nor `_processingDone` after it fires a
  -- callback.
  delayed_connect_silent :
      (s : Sys os)
      → os.ip_test s.client.ip ≡ true
      → s.client.state ≡ waiting_for_dns
      → (connect os s.client.ip s.client.port s).0 ≡ false
      → let r = (sock_delayed_connect os s).1 in
        (r.client ≡ s.client) × (invoked_of (processing_done os r).1.log ≡ invoked_of s.log)
  unfolding sock_delayed_connect
  delayed_connect_silent s t waiting f = ground (
    arith,
    connect_lem os s.client.ip s.client.port s,
    connect_fires os s.client.ip s.client.port s,
    processing_done_fires os (connect os s.client.ip s.client.port s).1,
  )

  -- If a client that is connected is given a host name to resolve, it waits for DNS with its old
  -- socket; and if that socket is then found writable and without a pending error, CONNECT fires
  -- for it again.
  connect_host_again :
      (host : List ℕ) (port : ℕ) (s : Sys os)
      → is_connected s.client.state ≡ true
      → (os.gethostbyname host s.world).0 ≡ in_progress
      → ((w : os.World) → (os.so_error s.client.socket w).0 ≡ ok 0)
      → let waiting = (connect_host os host port s).1 in
        (waiting.client.state ≡ waiting_for_dns)
        × (waiting.client.socket ≡ s.client.socket)
        × ((connects : List Callback) × (invoked_of (sock_is_writeable os waiting).1.log
              ≡ connects ++ (Callback.connect ∷ invoked_of s.log)))
  unfolding connect_host
  connect_host_again host port s c d e =
      let w : os.World = (os.gethostbyname host s.world).1 in
      let waiting = record s {
        client = record s.client { state = waiting_for_dns; port = port };
        world = w;
        log = asked ∷ s.log;
      } in
      let step : (connect_host os host port s).1 ≡ waiting = ground arith in
      let (later, fires) = sock_is_writeable_connects os waiting refl (e w) in
      rw step (refl, refl, (later, fires))
