-- ===== src/Manager/System.antt =====
-- A whole program over the library: it makes and deletes clients and servers, calls their
-- functions, and the task of src/SocketConnection.tpp does its rounds, in any order.
pub mod Safe
pub mod Deleted
use async_tcpsock.Base.{ℕ, Bool, Option, none, some, List, [], ◌∷◌}
use async_tcpsock.Os.{Os}
use async_tcpsock.Client.State.{Sys}
use async_tcpsock.Client.Callbacks.{Program}
use async_tcpsock.Client.Program.{run}
use async_tcpsock.Server
use async_tcpsock.Server.{Site}
use async_tcpsock.Manager.Registry.{
  Entry, ServerEntry, Manager, find, find_server, put_server, call_on,
}
use async_tcpsock.Manager.Pass.{update}
use async_tcpsock.Manager.Lifecycle.{new_client, destroy_client, new_server, destroy_server}

-- A call of a public function of a server.
pub data ServerCall : Type 0 where
  begin end : ServerCall
  on_client : Option Program → ServerCall
  set_no_delay : Bool → ServerCall

-- A program uses only objects that it has not deleted. In a round other threads run code on
-- clients before each call of the task.
pub data SystemStep : Type 0 where
  make_client : SystemStep
  drop_client : ℕ → SystemStep
  make_server : ℕ → ℕ → SystemStep
  drop_server : ℕ → SystemStep
  use_client : ℕ → Program → SystemStep
  use_server : ℕ → ServerCall → SystemStep
  round : List (ℕ × Program) → SystemStep

module _ (os : Os) where
  unfoldable pub call_server_function : ServerCall → Site os → Site os
  call_server_function begin s = Server.begin os s
  call_server_function end s = Server.end os s
  call_server_function (on_client cb) s = Server.on_client os cb s
  call_server_function (set_no_delay no_delay) s = Server.set_no_delay os no_delay s

  unfoldable pub on_found : ℕ → Program → Option Entry → Manager os → Manager os
  unfolding call_on
  on_found id p none m = m
  on_found id p (some e) m = call_on os (λ s. (run os p s).1) id (some e) m

  unfoldable pub call_client : ℕ → Program → Manager os → Manager os
  unfolding on_found
  call_client id p m = on_found id p (find id m.clients) m

  -- Code of other threads.
  unfoldable pub others : List (ℕ × Program) → Manager os → Manager os
  others [] m = m
  others ((id, p) ∷ rest) m = others rest (call_client id p m)

  unfoldable pub drop_found : Option Entry → Manager os → Manager os
  unfolding destroy_client
  drop_found none m = m
  drop_found (some e) m = (destroy_client os e m).1

  unfoldable pub drop_found_server : Option ServerEntry → Manager os → Manager os
  unfolding destroy_server
  drop_found_server none m = m
  drop_found_server (some e) m = (destroy_server os e m).1

  unfoldable pub use_found_server : ServerCall → Option ServerEntry → Manager os → Manager os
  use_found_server c none m = m
  use_found_server c (some e) m =
      let site =
        call_server_function c (record { server = e.server; world = m.world; closed = e.closed }) in
      record m {
        servers =
            put_server (record { id = e.id; server = site.server; closed = site.closed }) m.servers;
        world = site.world;
      }

  unfoldable pub system_step : SystemStep → Manager os → Manager os
  system_step make_client m = (new_client os m).1
  system_step (drop_client id) m = drop_found (find id m.clients) m
  system_step (make_server addr port) m = (new_server os addr port m).1
  system_step (drop_server id) m = drop_found_server (find_server id m.servers) m
  system_step (use_client id p) m = call_client id p m
  system_step (use_server id c) m = use_found_server c (find_server id m.servers) m
  system_step (round calls) m = update os (others calls) m

  unfoldable pub system : List SystemStep → Manager os → Manager os
  system [] m = m
  system (st ∷ sts) m = system sts (system_step st m)
