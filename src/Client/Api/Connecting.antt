-- ===== src/Client/Api/Connecting.antt =====
-- connect(), close() and abort() of src/ClientBase.tpp.
use async_tcpsock.Base.{ℕ, ◌≡◌, ◌⊎◌, true, false, [], ◌∷◌, pos, arith, Bool, if◌then◌else◌}
use async_tcpsock.Os.{Os, Ret, ok, failed}
use async_tcpsock.Connection.{is_open}
use async_tcpsock.Client.State.{Sys, connecting, disconnecting, closed}
use async_tcpsock.Client.Api.{connect, connect_failed, close, abort}

module _ (os : Os) where
  -- `connect` fails and leaves the client as it was; or the client was closed, and is now
  -- connecting to the address and port asked for, on an open socket, with the queue and the
  -- handlers untouched.
  pub connect_lem :
      (ip port : ℕ) (s : Sys os)
      → let r = connect os ip port s in
        ((r.0 ≡ false) × (r.1.client ≡ s.client))
        ⊎ ((r.0 ≡ true)
            × (is_open s.client.connection ≡ false)
            × (r.1.client.state ≡ connecting)
            × (r.1.client.ip ≡ ip)
            × (r.1.client.port ≡ port)
            × (is_open r.1.client.connection ≡ true)
            × (r.1.client.write_queue ≡ s.client.write_queue)
            × (r.1.client.callbacks ≡ s.client.callbacks))
  unfolding connect
  connect_lem ip port s = ground arith

  -- On a closed client, the descriptor that `connect` creates becomes the client's socket, or
  -- `connect` fails and has closed it once.
  pub connect_keeps_or_closes :
      (ip port fd : ℕ) (s : Sys os)
      → is_open s.client.connection ≡ false
      → (os.socket s.world).0 ≡ ok fd
      → let r = connect os ip port s in
        ((r.0 ≡ true) × (r.1.client.socket ≡ pos fd))
        ⊎ ((r.0 ≡ false)
            × (r.1.client.socket ≡ s.client.socket)
            × (r.1.log ≡ closed (pos fd) ∷ s.log))
  unfolding connect
  connect_keeps_or_closes ip port fd s o e = ground arith

  abbrev pub refused : Ret → Bool
  refused (ok n) = false
  refused (failed e) = true

  -- On a closed client for which socket() gives a descriptor, `connect` fails if the connection
  -- cannot begin, leaves the client as it was and closes the descriptor; or it succeeds, and the
  -- client is connecting with the descriptor as its socket, also if fcntl fails on it, and then
  -- the descriptor has been closed.
  pub connect_on_closed :
      (ip port fd : ℕ) (s : Sys os)
      → is_open s.client.connection ≡ false
      → (os.socket s.world).0 ≡ ok fd
      → let (begun, w) = os.connect (pos fd) ip port (os.socket s.world).1 in
        let (flags, w') = os.set_nonblocking (pos fd) w in
        let r = connect os ip port s in
        ((connect_failed os begun ≡ true)
          × (r.0 ≡ false)
          × (r.1.client ≡ s.client)
          × (r.1.world ≡ os.close (pos fd) w)
          × (r.1.log ≡ closed (pos fd) ∷ s.log))
        ⊎ ((connect_failed os begun ≡ false)
            × (r.0 ≡ true)
            × (r.1.client.state ≡ connecting)
            × (r.1.client.socket ≡ pos fd)
            × (r.1.world ≡ (if refused flags then os.close (pos fd) w' else w'))
            × (r.1.log ≡ (if refused flags then closed (pos fd) ∷ s.log else s.log)))
  unfolding connect
  connect_on_closed ip port fd s o created = ground arith

  -- After `close` the client has no socket; it had none and nothing has changed, or it is
  -- disconnecting, its queue is empty with all its space, and its socket was closed; and a second
  -- call changes nothing.
  close_lem :
      (s : Sys os)
      → let r = (close os s).1 in
        (is_open r.client.connection ≡ false)
        × ((is_open s.client.connection ≡ false) × (r ≡ s)
            ⊎ (r.client.state ≡ disconnecting)
              × (r.client.write_queue ≡ [])
              × (r.client.write_space_remaining ≡ os.tcp_snd_buf)
              × (r.log ≡ closed s.client.socket ∷ s.log))
        × (close os r ≡ (tt, r))
  unfolding close
  close_lem s = ground arith

  -- `abort` leaves the client as `close` does and closes the same descriptors, and returns
  -- ERR_ABRT whether or not there is a connection.
  abort-close :
      (s : Sys os)
      → ((abort os s).0 ≡ os.err_abrt)
        × ((abort os s).1.client ≡ (close os s).1.client)
        × ((abort os s).1.log ≡ (close os s).1.log)
  unfolding abort close
  abort-close s = ground arith
