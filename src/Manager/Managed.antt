-- ===== src/Manager/Managed.antt =====
-- What the manager asks of the objects that it serves: the concepts ManagedConnection,
-- ManagedClient and ManagedServer of src/SocketConnection.hpp, and how Client and Server meet them.
use async_tcpsock.Base.{ℕ, ℤ, Bool, Option}
use async_tcpsock.Os.{Os}
use async_tcpsock.Connection
use async_tcpsock.Connection.{SocketConnection}
use async_tcpsock.Client.State.{Sys}
use async_tcpsock.Client.Events
use async_tcpsock.Server
use async_tcpsock.Server.{Site, Accepted}

pub record ManagedConnection (Impl : Type 0) : Type 0 where
  pub is_open : Impl → Bool
  pub get_socket : Impl → ℤ
  pub is_dns_finished : Impl → Bool
  pub set_dns_finished : Bool → Impl → Impl
  pub get_last_active : Impl → ℕ
  pub set_last_active : ℕ → Impl → Impl

pub record ManagedClient (Impl : Type 0) : Type 0 where
  pub connection : ManagedConnection Impl
  pub open connection use *
  -- Action to take on a writable socket, and on a readable one
  pub sock_is_writeable : Impl → Bool × Impl
  pub sock_is_readable : Impl → Impl
  -- Action to take when DNS-resolution is finished
  pub sock_delayed_connect : Impl → Impl
  -- Action to take for an idle socket when the polling timer runs out
  pub sock_poll : Impl → Impl
  -- Action to take when processing is done for this socket
  pub processing_done : Impl → Impl
  -- Test if there is data pending to be written
  pub pending_write : Impl → Bool × Impl

-- A server makes a new client, or none, when its socket is readable.
pub record ManagedServer (Impl Made : Type 0) : Type 0 where
  pub connection : ManagedConnection Impl
  pub open connection use *
  pub sock_is_readable : Impl → Option Made × Impl

-- A class with SocketConnection as its base.
abbrev derived :
    {Impl : Type 0}
    → (Impl → SocketConnection)
    → (SocketConnection → Impl → Impl)
    → ManagedConnection Impl
derived base with_base = record {
  is_open = λ s. Connection.is_open (base s);
  get_socket = λ s. Connection.get_socket (base s);
  is_dns_finished = λ s. Connection.is_dns_finished (base s);
  set_dns_finished = λ b s. with_base (Connection.set_dns_finished b (base s)) s;
  get_last_active = λ s. Connection.get_last_active (base s);
  set_last_active = λ t s. with_base (Connection.set_last_active t (base s)) s;
}

module _ (os : Os) where
  abbrev pub managed_client : ManagedClient (Sys os)
  managed_client = record {
    connection =
        derived (λ s. s.client.connection)
          (λ c s. record s { client = record s.client { connection = c } });
    sock_is_writeable = Events.sock_is_writeable os;
    sock_is_readable = λ s. (Events.sock_is_readable os s).1;
    sock_delayed_connect = λ s. (Events.sock_delayed_connect os s).1;
    sock_poll = λ s. (Events.sock_poll os s).1;
    processing_done = λ s. (Events.processing_done os s).1;
    pending_write = Events.pending_write os;
  }

  abbrev pub managed_server : ManagedServer (Site os) (Accepted os)
  managed_server = record {
    connection =
        derived (λ s. s.server.connection)
          (λ c s. record s { server = record s.server { connection = c } });
    sock_is_readable = Server.sock_is_readable os;
  }
