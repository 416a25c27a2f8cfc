-- ===== src/Manager/Registry.antt =====
-- The registry in src/SocketConnection.hpp: addConnection, removeConnection and their lookups.
use async_tcpsock.Base.{
  ℕ, ◌+◌, Bool, true, Option, none, some, List, [], ◌∷◌, ◌++◌, ℤ, ltb, ◌==◌, if◌then◌else◌, length,
}
use async_tcpsock.Os.{Os}
use async_tcpsock.Client.State.{ClientBase, Sys, Action}
use async_tcpsock.Server.{Server}

-- A registered client, with what has been seen of it.
pub record Entry : Type 0 where
  pub id : ℕ
  pub client : ClientBase
  pub log : List Action

pub record ServerEntry : Type 0 where
  pub id : ℕ
  pub server : Server
  pub closed : List ℤ

-- `next_id` is the address of the next object; `faulted` records that a function was called on an
-- object that is no longer there.
pub record Manager (os : Os) : Type 0 where
  pub clients : List Entry
  pub servers : List ServerEntry
  pub next_id : ℕ
  pub world : os.World
  pub faulted : Bool

unfoldable pub find : ℕ → List Entry → Option Entry
find id [] = none
find id (e ∷ es) = if e.id == id then some e else find id es

unfoldable pub find_server : ℕ → List ServerEntry → Option ServerEntry
find_server id [] = none
find_server id (e ∷ es) = if e.id == id then some e else find_server id es

-- Writing to the object with an address.
unfoldable pub put : Entry → List Entry → List Entry
put x [] = []
put x (e ∷ es) = if e.id == x.id then x ∷ es else e ∷ put x es

unfoldable pub put_server : ServerEntry → List ServerEntry → List ServerEntry
put_server x [] = []
put_server x (e ∷ es) = if e.id == x.id then x ∷ es else e ∷ put_server x es

-- std::erase
unfoldable pub erase : ℕ → List Entry → List Entry
erase id [] = []
erase id (e ∷ es) = if e.id == id then erase id es else e ∷ erase id es

unfoldable pub erase_server : ℕ → List ServerEntry → List ServerEntry
erase_server id [] = []
erase_server id (e ∷ es) = if e.id == id then erase_server id es else e ∷ erase_server id es

abbrev pub ids : List Entry → List ℕ
ids [] = []
ids (e ∷ es) = e.id ∷ ids es

module _ (os : Os) where
  -- addConnection and removeConnection; `none` is a null pointer.
  unfoldable pub add_connection : Option Entry → Manager os → Manager os
  add_connection none m = m
  add_connection (some e) m = record m { clients = m.clients ++ e ∷ [] }

  unfoldable pub add_server : Option ServerEntry → Manager os → Manager os
  add_server none m = m
  add_server (some e) m = record m { servers = m.servers ++ e ∷ [] }

  unfoldable pub remove_connection : Option ℕ → Manager os → Manager os
  remove_connection none m = m
  remove_connection (some id) m = record m { clients = erase id m.clients }

  unfoldable pub remove_server : Option ℕ → Manager os → Manager os
  remove_server none m = m
  remove_server (some id) m = record m { servers = erase_server id m.servers }

  unfoldable pub has_free_socket : Manager os → Bool
  has_free_socket m = elim os.max_sockets [
    | none ↦ true
    | some limit ↦ ltb (length m.clients + length m.servers) limit
  ]

  -- A call of a function on a client, through its pointer: on what stands at the address.
  unfoldable pub call_on : (Sys os → Sys os) → ℕ → Option Entry → Manager os → Manager os
  call_on op id none m = record m { faulted = true }
  call_on op id (some e) m =
      let s = op (record { client = e.client; world = m.world; log = e.log }) in
      record m {
        clients = put (record { id = id; client = s.client; log = s.log }) m.clients;
        world = s.world;
      }

  unfoldable pub visit : (Sys os → Sys os) → ℕ → Manager os → Manager os
  visit op id m = call_on op id (find id m.clients) m
