-- ===== src/Manager/Lifecycle.antt =====
-- How clients and servers come and go: manage and unmanage of src/AsyncTCP.cpp, the constructors
-- and destructors of src/Client.cpp and src/Server.cpp, and SocketConnectionManager's constructor.
pub mod Deleting
use async_tcpsock.Base.{ℕ, ◌+◌, true, false, Option, none, some, []}
use async_tcpsock.Os.{Os}
use async_tcpsock.Client.State.{Sys}
use async_tcpsock.Client.Api
use async_tcpsock.Server
use async_tcpsock.Server.{Site}
use async_tcpsock.Manager.Registry.{
  Entry, ServerEntry, Manager, find, find_server, add_connection, add_server, remove_connection,
  remove_server,
}

module _ (os : Os) where
  -- SocketConnectionManager(), without the task.
  unfoldable pub new_manager : os.World → Manager os
  new_manager w = record { clients = []; servers = []; next_id = 0; world = w; faulted = false }

  unfoldable pub manage_client : Option Entry → Manager os → Manager os
  unfolding add_connection
  manage_client conn m = add_connection os conn m

  unfoldable pub manage_server : Option ServerEntry → Manager os → Manager os
  unfolding add_server
  manage_server conn m = add_server os conn m

  unfoldable pub unmanage_client : Option ℕ → Manager os → Manager os
  unfolding remove_connection
  unmanage_client conn m = remove_connection os conn m

  unfoldable pub unmanage_server : Option ℕ → Manager os → Manager os
  unfolding remove_server
  unmanage_server conn m = remove_server os conn m

  -- An object at a new address.
  abbrev pub allocate : Manager os → ℕ × Manager os
  allocate m = (m.next_id, record m { next_id = m.next_id + 1 })

  -- Client()
  unfoldable pub new_client : Manager os → ℕ × Manager os
  unfolding manage_client
  new_client m =
      let (id, m') = allocate m in
      let s = Api.new os m'.world in
      (
        id,
        manage_client (some (record { id = id; client = s.client; log = s.log }))
            (record m' { world = s.world }),
      )

  -- ~Client(), and with it ~ClientBase(): the registry forgets the client before it closes. The
  -- client's last state is given back.
  unfoldable pub destroy_client : Entry → Manager os → Sys os × Manager os
  unfolding unmanage_client
  destroy_client e m =
      let m' = unmanage_client (some e.id) m in
      let s = (Api.destroy os (record { client = e.client; world = m'.world; log = e.log })).1 in
      (s, record m' { world = s.world })

  -- `delete` on a pointer.
  unfoldable pub delete_client : ℕ → Manager os → Manager os
  unfolding destroy_client
  delete_client id m = elim (find id m.clients) [
    | none ↦ record m { faulted = true }
    | some e ↦ (destroy_client e m).1
  ]

  -- Server(IPAddress, uint16_t)
  unfoldable pub new_server : ℕ → ℕ → Manager os → ℕ × Manager os
  unfolding manage_server
  new_server addr port m =
      let (id, m') = allocate m in
      let site = Server.new os addr port m'.world in
      (
        id,
        manage_server (some (record { id = id; server = site.server; closed = site.closed }))
            (record m' { world = site.world }),
      )

  -- ~Server(): the registry forgets the server before it ends.
  unfoldable pub destroy_server : ServerEntry → Manager os → Site os × Manager os
  unfolding unmanage_server
  destroy_server e m =
      let m' = unmanage_server (some e.id) m in
      let site =
        Server.end os (record { server = e.server; world = m'.world; closed = e.closed }) in
      (site, record m' { world = site.world })

  unfoldable pub delete_server : ℕ → Manager os → Manager os
  unfolding destroy_server
  delete_server id m = elim (find_server id m.servers) [
    | none ↦ record m { faulted = true }
    | some e ↦ (destroy_server e m).1
  ]
