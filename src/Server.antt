-- ===== src/Server.antt =====
-- src/Server.hpp and .cpp: a listening socket that makes a client of each connection.
pub mod Laws
use async_tcpsock.Base.{
  ◌++◌, ℕ, Bool, true, false, Option, none, some, List, [], ◌∷◌, ℤ, pos, minus_one, if◌then◌else◌,
}
use async_tcpsock.Os.{Os, Ret, ok, failed}
use async_tcpsock.Connection
use async_tcpsock.Connection.{SocketConnection, is_open, configure_socket}
use async_tcpsock.Client.State.{Sys}
use async_tcpsock.Client.Api
use async_tcpsock.Client.Callbacks.{Program}
use async_tcpsock.Client.Program.{run}

-- The handler for accepted clients is user code over the new client.
pub record Server : Type 0 where
  pub connection : SocketConnection
  pub open connection use *
  pub addr : ℕ
  pub port : ℕ
  pub no_delay : Bool
  pub accept_handler : Option Program

abbrev pub backlog : ℕ
backlog = 5

-- A server with the world, and the descriptors that it has closed, the latest first.
pub record Site (os : Os) : Type 0 where
  pub server : Server
  pub world : os.World
  pub closed : List ℤ

-- An accepted client as its constructor leaves it and registers it, and what is then called on it.
pub record Accepted (os : Os) : Type 0 where
  pub client : Sys os
  pub greeting : Sys os → Sys os

module _ (os : Os) where
  open os use {World}

  -- Server(IPAddress, uint16_t); the other constructor gives IP_ADDR_ANY.
  unfoldable pub new : ℕ → ℕ → World → Site os
  unfolding Connection.new
  new addr port w =
      let (conn, w') = Connection.new os w in
      let server : Server = record {
        connection = conn;
        addr = addr;
        port = port;
        no_delay = true;
        accept_handler = none;
      } in
      record { server = server; world = w'; closed = [] }

  -- An error after socket(): the descriptor is closed, and `begin` returns.
  abbrev pub give_up : ℤ → World → Site os → Site os
  give_up fd w s = record s { world = os.close fd w; closed = fd ∷ s.closed }

  -- The end of `begin`, with a descriptor that listens.
  unfoldable pub take_socket : ℤ → World → Site os → Site os
  unfolding configure_socket
  take_socket fd w s =
      let ((fds, conn), w') = configure_socket os fd s.server.connection w in
      record s {
        server = record s.server { connection = conn };
        world = w';
        closed = fds ++ s.closed;
      }

  unfoldable pub after_listen : ℤ → Ret → World → Site os → Site os
  unfolding take_socket
  after_listen fd (ok n) w s = take_socket fd w s
  after_listen fd (failed e) w s = give_up fd w s

  unfoldable pub after_bind : ℤ → Ret → World → Site os → Site os
  unfolding after_listen
  after_bind fd (ok n) w s = let (res, w') = os.listen fd backlog w in after_listen fd res w' s
  after_bind fd (failed e) w s = give_up fd w s

  unfoldable pub after_socket : Ret → World → Site os → Site os
  unfolding after_bind
  after_socket (ok n) w s =
      let (res, w') = os.bind (pos n) s.server.addr s.server.port w in after_bind (pos n) res w' s
  after_socket (failed e) w s = record s { world = w }

  unfoldable pub begin : Site os → Site os
  unfolding is_open after_socket
  begin s =
      let (created, w) = os.socket s.world in
      if is_open s.server.connection then s else after_socket created w s

  unfoldable pub end : Site os → Site os
  unfolding is_open
  end s =
      let socket = s.server.socket in
      if is_open s.server.connection
      then record {
        server = record s.server { connection = record s.server.connection { socket = minus_one } };
        world = os.close socket s.world;
        closed = socket ∷ s.closed;
      }
      else s

  unfoldable pub on_client : Option Program → Site os → Site os
  on_client cb s = record s { server = record s.server { accept_handler = cb } }

  unfoldable pub set_no_delay : Bool → Site os → Site os
  set_no_delay no_delay s = record s { server = record s.server { no_delay = no_delay } }

  -- ServerCallbacks::invoke of src/Callbacks.hpp, on a new client.
  abbrev pub invoke_accept : Option Program → Sys os → Sys os
  invoke_accept none s = s
  invoke_accept (some handler) s = (run os handler s).1

  -- `setNoDelay` and then the ACCEPT handler, on the new client.
  unfoldable pub greet : Bool → Program → Sys os → Sys os
  greet no_delay handler client =
      invoke_accept (some handler) (Api.set_no_delay os no_delay client).1

  unfoldable pub after_accept : Ret → Program → World → Site os → Option (Accepted os) × Site os
  unfolding greet
  after_accept (failed e) handler w s = (none, record s { world = w })
  after_accept (ok fd) handler w s =
      let client = Api.from_socket os (pos fd) w in
      (
        some (record { client = client; greeting = greet s.server.no_delay handler }),
        record s { world = client.world },
      )

  -- _sockIsReadable(): without a handler nothing is accepted. The client is the caller's to keep.
  unfoldable pub sock_is_readable : Site os → Option (Accepted os) × Site os
  unfolding after_accept
  sock_is_readable s = elim s.server.accept_handler [
    | none ↦ (none, s)
    | some handler ↦
        (let (accepted, w) = os.accept s.server.socket s.world in after_accept accepted handler w s)
  ]
