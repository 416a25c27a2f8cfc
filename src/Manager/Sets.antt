-- ===== src/Manager/Sets.antt =====
-- The descriptor sets for `select`, and which clients each phase of the manager's task takes
-- (src/SocketConnection.tpp, updateConnectionStates).
use Prim.Native.Nat.{max}
use async_tcpsock.Base.{
  ℕ, ◌+◌, ◌*◌, Bool, false, ◌||◌, List, [], ◌∷◌, ℤ, pos, negsuc, minus_one, ◌==ℤ◌, leb,
  if◌then◌else◌,
}
use async_tcpsock.Configuration
use async_tcpsock.Os.{Os}
use async_tcpsock.Connection.{get_socket, is_dns_finished, get_last_active, set_last_active}
use async_tcpsock.Client.Events.{pending_write}
use async_tcpsock.Manager.Registry.{Entry, ServerEntry, Manager, has_free_socket}

-- `socket + 1`, as far as it is above 0.
abbrev pub bound_of : ℤ → ℕ
bound_of (pos fd) = fd + 1
bound_of (negsuc n) = 0

-- POLL_INTERVAL
abbrev pub poll_interval : ℕ
poll_interval = Configuration.poll_interval * 1_000_000

-- FD_ISSET; a descriptor that is not valid is in no set.
unfoldable pub fd_isset : ℤ → List ℤ → Bool
fd_isset fd [] = false
fd_isset fd (x ∷ xs) = let rest = fd_isset fd xs in x ==ℤ fd || rest

pub record Sets (os : Os) : Type 0 where
  pub max_sock : ℕ
  pub read_set : List ℤ
  pub write_set : List ℤ
  pub world : os.World

module _ (os : Os) where
  -- What one client adds: if it has a socket, that is read, and written if it has something to
  -- write.
  unfoldable pub client_set : Entry → Sets os → Sets os
  client_set e sets =
      let socket = get_socket e.client.connection in
      let (pending, s) =
        pending_write os (record { client = e.client; world = sets.world; log = e.log }) in
      if socket ==ℤ minus_one then sets else record {
        max_sock = max sets.max_sock (bound_of socket);
        read_set = socket ∷ sets.read_set;
        write_set = if pending then socket ∷ sets.write_set else sets.write_set;
        world = s.world;
      }

  unfoldable pub client_sets : List Entry → Sets os → Sets os
  client_sets [] sets = sets
  client_sets (e ∷ es) sets = client_sets es (client_set e sets)

  -- What one server adds: its socket is read if another connection can be had.
  unfoldable pub server_set : Bool → ServerEntry → Sets os → Sets os
  server_set free e sets =
      let socket = get_socket e.server.connection in
      if socket ==ℤ minus_one
      then sets
      else if free
      then record sets {
        max_sock = max sets.max_sock (bound_of socket);
        read_set = socket ∷ sets.read_set;
      }
      else sets

  unfoldable pub server_sets : Bool → List ServerEntry → Sets os → Sets os
  server_sets free [] sets = sets
  server_sets free (e ∷ es) sets = server_sets free es (server_set free e sets)

  unfoldable pub collect_sets : Manager os → Sets os
  unfolding client_sets server_sets has_free_socket
  collect_sets m = server_sets (has_free_socket os m) m.servers (
      client_sets m.clients
        (record { max_sock = 0; read_set = []; write_set = []; world = m.world }))

-- The clients whose socket `select` has marked, and those whose DNS request has been answered.
unfoldable pub marked : List ℤ → List Entry → List ℕ
marked set [] = []
marked set (e ∷ es) =
    let rest = marked set es in
    if fd_isset (get_socket e.client.connection) set then e.id ∷ rest else rest

unfoldable pub marked_servers : List ℤ → List ServerEntry → List ℕ
marked_servers set [] = []
marked_servers set (e ∷ es) =
    let rest = marked_servers set es in
    if fd_isset (get_socket e.server.connection) set then e.id ∷ rest else rest

unfoldable pub answered : List Entry → List ℕ
answered [] = []
answered (e ∷ es) =
    let rest = answered es in if is_dns_finished e.client.connection then e.id ∷ rest else rest

-- The clients that have not been active for an interval, which count as active now; with the
-- registry and the world after that.
pub record Polled (os : Os) : Type 0 where
  pub due : List ℕ
  pub clients : List Entry
  pub world : os.World

module _ (os : Os) where
  abbrev pub touched : ℕ → Entry → Entry
  touched now e = record e {
    client = record e.client { connection = set_last_active now e.client.connection };
  }

  unfoldable pub poll_due : List Entry → os.World → Polled os
  unfolding set_last_active
  poll_due [] w = record { due = []; clients = []; world = w }
  poll_due (e ∷ es) w =
      let (now, w') = os.now w in
      let rest = poll_due es w' in
      if leb (get_last_active e.client.connection + poll_interval) now
      then record rest { due = e.id ∷ rest.due; clients = touched now e ∷ rest.clients }
      else record rest { clients = e ∷ rest.clients }
