-- ===== src/Connection.antt =====
-- src/SocketConnection.hpp and .tpp: SocketConnection, the base of clients and servers.
use async_tcpsock.Base.{List, [], ◌∷◌, ℕ, Bool, false, not, ℤ, minus_one, ◌==ℤ◌}
use async_tcpsock.Os.{Os, Ret, ok, failed}

-- `socket` and `dns_finished` are atomics.
pub record SocketConnection : Type 0 where
  pub socket : ℤ
  pub dns_finished : Bool
  pub last_active : ℕ

unfoldable pub is_open : SocketConnection → Bool
is_open c = not (c.socket ==ℤ minus_one)

abbrev pub get_socket : SocketConnection → ℤ
get_socket c = c.socket

abbrev pub is_dns_finished : SocketConnection → Bool
is_dns_finished c = c.dns_finished

unfoldable pub set_dns_finished : Bool → SocketConnection → SocketConnection
set_dns_finished finished c = record c { dns_finished = finished }

abbrev pub get_last_active : SocketConnection → ℕ
get_last_active c = c.last_active

unfoldable pub set_last_active : ℕ → SocketConnection → SocketConnection
set_last_active when c = record c { last_active = when }

module _ (os : Os) where
  open os use {World}

  -- SocketConnection(): unconnected, active now.
  unfoldable pub new : World → SocketConnection × World
  new w =
      let (t, w') = os.now w in
      (record { socket = minus_one; dns_finished = false; last_active = t }, w')

  -- `SocketConnection(int)` is `SocketConnection()` and this. A failure of fcntl closes the socket,
  -- and the member is set to it all the same. The descriptors that a function closes come with
  -- its result.
  unfoldable pub close_refused : ℤ → Ret → World → List ℤ × World
  close_refused socket (ok n) w = ([], w)
  close_refused socket (failed e) w = (socket ∷ [], os.close socket w)

  unfoldable pub configure_socket :
      ℤ → SocketConnection → World → (List ℤ × SocketConnection) × World
  unfolding close_refused
  configure_socket socket c w =
      let (res, w') = os.set_nonblocking socket w in
      let (closed, w'') = close_refused socket res w' in
      ((closed, record c { socket = socket }), w'')
