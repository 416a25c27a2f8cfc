-- ===== src/Server/Laws.antt =====
-- What src/Server.cpp does with its descriptors and with the clients that it accepts.
use async_tcpsock.Base.{
  Option-cases, ℕ, ◌≡◌, refl, ◌⊎◌, inl, inr, Bool, false, Option, none, some, ℤ, ◌<◌, ◌∷◌, pos,
  arith,
}
use async_tcpsock.Os.{Os, Ret, ok, failed}
use async_tcpsock.Os.Laws.{Lawful}
use async_tcpsock.Connection.{is_open}
use async_tcpsock.Client.State.{Sys, connected}
use async_tcpsock.Client.Api.{from_socket, set_no_delay}
use async_tcpsock.Client.Program.{run}
use async_tcpsock.Client.Invariant.{Inv}
use async_tcpsock.Client.Invariant.Programs.{run-Inv, set_no_delay-Inv}
use async_tcpsock.Client.History.{from_socket-Inv}
use async_tcpsock.Client.Callbacks.{Program}
use async_tcpsock.Server.{Site, begin, end, sock_is_readable, after_accept, greet, Accepted}

module _ (os : Os) where
  -- On a closed server, the descriptor that `begin` creates becomes the server's socket, or the
  -- server stays as it was and the descriptor was closed once.
  begin_keeps_or_closes :
      (s : Site os) (fd : ℕ)
      → is_open s.server.connection ≡ false
      → (os.socket s.world).0 ≡ ok fd
      → let r = begin os s in
        (r.server.socket ≡ pos fd) ⊎ ((r.server ≡ s.server) × (r.closed ≡ pos fd ∷ s.closed))
  unfolding begin
  begin_keeps_or_closes s fd o e = ground arith

  -- If the server is closed and none of the calls of `begin` fails, the server has the new
  -- descriptor, nothing was closed, and a second call changes nothing.
  pub begin_listens :
      (s : Site os) (fd a b c : ℕ)
      → is_open s.server.connection ≡ false
      → (os.socket s.world).0 ≡ ok fd
      → ((w : os.World) → (os.bind (pos fd) s.server.addr s.server.port w).0 ≡ ok a)
      → ((w : os.World) → (os.listen (pos fd) 5 w).0 ≡ ok b)
      → ((w : os.World) → (os.set_nonblocking (pos fd) w).0 ≡ ok c)
      → let r = begin os s in (r.server.socket ≡ pos fd) × (r.closed ≡ s.closed) × (begin os r ≡ r)
  unfolding begin
  begin_listens s fd a b c o e bound listening free =
      let w1 : os.World = (os.socket s.world).1 in
      let w2 : os.World = (os.bind (pos fd) s.server.addr s.server.port w1).1 in
      let w3 : os.World = (os.listen (pos fd) 5 w2).1 in
      ground (arith, bound w1, listening w2, free w3)

  -- After `end` the server has no socket; a second call changes nothing; and it had none and
  -- nothing has changed, or its socket was closed once.
  pub end_lem :
      (s : Site os)
      → let r = end os s in
        (is_open r.server.connection ≡ false)
        × (end os r ≡ r)
        × ((is_open s.server.connection ≡ false) × (r ≡ s)
            ⊎ (r.closed ≡ s.server.socket ∷ s.closed))
  unfolding end
  end_lem s = ground arith

Ret-cases : (r : Ret) → ((e : ℤ) × (r ≡ failed e)) ⊎ ((n : ℕ) × (r ≡ ok n))
Ret-cases (failed e) = inl (e, refl)
Ret-cases (ok n) = inr (n, refl)

module _ (os : Os) (laws : Lawful os) where
  greet-Inv :
      (no_delay : Bool) (handler : Program) (s : Sys os)
      → Inv os s.client
      → Inv os (greet os no_delay handler s).client
  unfolding greet
  greet-Inv no_delay handler s h = run-Inv os laws handler _ (set_no_delay-Inv os laws no_delay s h)

  -- What accept() gives decides: a failure makes no client, and a descriptor makes one on it, on
  -- which the delay is set and then the handler runs, from whatever state it is in by then.
  abbrev pub AcceptOutcome : Program → Site os → Option (Accepted os) × Site os → Type 0
  AcceptOutcome handler s r =
      let accepted = (os.accept s.server.socket s.world).0 in
      (r.1.server ≡ s.server)
      × (r.1.closed ≡ s.closed)
      × (((e : ℤ) × (accepted ≡ failed e) × (r.0 ≡ none))
          ⊎ ((fd : ℕ) × (made : Accepted os) × (accepted ≡ ok fd)
              × (r.0 ≡ some made)
              × (made.client.client.socket ≡ pos fd)
              × (0 < fd → made.client.client.state ≡ connected)
              × Inv os made.client.client
              × ((s' : Sys os)
                  → made.greeting s' ≡ (run os handler (set_no_delay os s.server.no_delay s').1).1)
              × ((s' : Sys os) → Inv os s'.client → Inv os (made.greeting s').client)))

  from_socket_lem :
      (fd : ℕ) (w : os.World)
      → let s = from_socket os (pos fd) w in
        (s.client.socket ≡ pos fd) × (0 < fd → s.client.state ≡ connected)
  unfolding from_socket
  from_socket_lem fd w = ground arith

  after_accept-AcceptOutcome :
      (handler : Program) (s : Site os)
      → let (r, w) = os.accept s.server.socket s.world in
        AcceptOutcome handler s (after_accept os r handler w s)
  unfolding after_accept greet
  after_accept-AcceptOutcome handler s = elim (Ret-cases (os.accept s.server.socket s.world).0) [
    | inl (e, f) ↦ rw (f, after_accept) (refl, refl, inl (e, refl, refl))
    | inr (fd, f) ↦
        (let w : os.World = (os.accept s.server.socket s.world).1 in
          let client = from_socket os (pos fd) w in
          let made : Accepted os = record {
            client = client;
            greeting = greet os s.server.no_delay handler;
          } in
          let (socket, open') = from_socket_lem fd w in
          rw (f, after_accept)
            (
              refl,
              refl,
              inr (
                fd,
                made,
                refl,
                refl,
                socket,
                open',
                from_socket-Inv os laws (pos fd) w,
                (λ s'. refl),
                greet-Inv s.server.no_delay handler,
              ),
            ))
  ]

  with_handler :
      (handler : Program) (s : Site os)
      → s.server.accept_handler ≡ some handler
      → sock_is_readable os s
        ≡ after_accept os
            (os.accept s.server.socket s.world).0
            handler
            (os.accept s.server.socket s.world).1
            s
  unfolding sock_is_readable
  with_handler handler s e = ground arith

  no_handler : (s : Site os) → s.server.accept_handler ≡ none → sock_is_readable os s ≡ (none, s)
  unfolding sock_is_readable
  no_handler s e = ground arith

  -- If writes keep to their buffers and the descriptor -1 has no status: without a handler nothing
  -- is accepted and nothing changes; with one the server keeps its configuration and closes
  -- nothing, and if accept() fails there is no client, and if it gives a descriptor there is a new
  -- client, which has it as its socket, is connected if it is above 0, and satisfies the invariant
  -- of clients; what is then called on it is setNoDelay with the server's choice and after that
  -- the handler, which keeps the invariant, whatever the handler does.
  pub accept_lem :
      (s : Site os)
      → let r = sock_is_readable os s in
        ((s.server.accept_handler ≡ none) × (r ≡ (none, s)))
        ⊎ ((handler : Program) × (s.server.accept_handler ≡ some handler)
            × AcceptOutcome handler s r)
  accept_lem s = elim (Option-cases s.server.accept_handler) [
    | inl e ↦ inl (e, no_handler s e)
    | inr (handler, e) ↦
        inr (handler, e, rw (with_handler handler s e) (after_accept-AcceptOutcome handler s))
  ]
