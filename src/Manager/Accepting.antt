-- ===== src/Manager/Accepting.antt =====
-- What the manager's task does on a server whose socket is readable (src/SocketConnection.tpp),
-- with the constructor of the new client (src/Client.cpp) and src/Server.cpp.
use async_tcpsock.Base.{
  ◌≡◌, refl, ℕ, ◌+◌, none, some, List, [], ◌∷◌, ◌++◌, ◌==◌, if◌then◌else◌, arith, pos,
}
use async_tcpsock.Os.{Os, ok}
use async_tcpsock.Connection.{set_last_active}
use async_tcpsock.Client.State.{Sys}
use async_tcpsock.Client.Callbacks.{Program}
use async_tcpsock.Client.Program.{run}
use async_tcpsock.Client.Api.{from_socket, set_no_delay}
use async_tcpsock.Server.{Accepted, sock_is_readable, after_accept, greet}
use async_tcpsock.Manager.Registry.{
  Entry, ServerEntry, Manager, ids, find, find_server, put, put_server, visit, call_on,
  add_connection,
}
use async_tcpsock.Manager.Pass.{visit_server, call_server, register, enlist}
use async_tcpsock.Manager.Numbered.{Numbered, Below-has_id}
use async_tcpsock.Manager.Lifecycle.Deleting.{find_append, find_unknown}

-- A new client that is registered and then changed.
find-put-append :
    (i : ℕ) (x y : Entry) (es : List Entry)
    → y.id ≡ x.id
    → find x.id es ≡ none
    → find i (put y (es ++ x ∷ [])) ≡ (if i == x.id then some y else find i es)
unfolding find put
find-put-append i x y [] e h = ground arith
find-put-append i x y (z ∷ es) e h = ground (arith, find-put-append i x y es e)

module _ (os : Os) where
  -- The entry of a client, and the clients that are found with one more.
  abbrev pub entry : ℕ → Sys os → Entry
  entry id s = record { id = id; client = s.client; log = s.log }

  register_lem :
      (i : ℕ) (made : Accepted os) (m : Manager os)
      → find m.next_id m.clients ≡ none
      → let s = made.greeting (record made.client { world = m.world }) in
        let r = register os (some made) m in
        (find i r.clients ≡ (if i == m.next_id then some (entry m.next_id s) else find i m.clients))
        × (r.next_id ≡ m.next_id + 1)
        × (r.world ≡ s.world)
        × (r.faulted ≡ m.faulted)
  unfolding register enlist add_connection visit call_on
  register_lem i made m new =
      let x = entry m.next_id made.client in
      let s = made.greeting (record made.client { world = m.world }) in
      rw (find_append x m.clients new, call_on)
        (find-put-append i x (entry m.next_id s) m.clients refl new, refl, refl, refl)

  -- The manager once the connection is accepted and the client made.
  abbrev served : ℕ → Manager os → ServerEntry → os.World → Sys os → Manager os
  served id m e w client = record m {
    servers =
        put_server
          (record {
            id = id;
            server = record e.server {
              connection = set_last_active (os.now m.world).0 e.server.connection;
            };
            closed = e.closed;
          })
          m.servers;
    world = client.world;
  }

  -- If no client is registered twice and accept() gives a registered server with a handler a
  -- descriptor, then what the manager's task does on that server puts one client into the
  -- registry, at a new address, and leaves the others as they were: the new client is the one that
  -- the constructor makes of the descriptor, after setNoDelay with the server's choice and then
  -- the handler have run on it, whatever the handler does; the world is what they leave; and no
  -- function is called on a client or server that is not registered.
  pub accept_registers :
      (i id fd : ℕ) (m : Manager os) (e : ServerEntry) (handler : Program)
      → Numbered os m
      → find_server id m.servers ≡ some e
      → e.server.accept_handler ≡ some handler
      → (os.accept e.server.socket (os.now m.world).1).0 ≡ ok fd
      → let w = (os.accept e.server.socket (os.now m.world).1).1 in
        let made = from_socket os (pos fd) w in
        let s = (run os handler (set_no_delay os e.server.no_delay made).1).1 in
        let r = visit_server os id m in
        (find i r.clients ≡ (if i == m.next_id then some (entry m.next_id s) else find i m.clients))
        × (r.next_id ≡ m.next_id + 1)
        × (r.world ≡ s.world)
        × (r.faulted ≡ m.faulted)
  unfolding visit_server call_server sock_is_readable after_accept greet set_last_active
  accept_registers i id fd m e handler h f a ok' =
      let w = (os.accept e.server.socket (os.now m.world).1).1 in
      let client = from_socket os (pos fd) w in
      let new = find_unknown m.next_id m.clients (Below-has_id m.next_id (ids m.clients) h.0) in
      let made : Accepted os = record {
        client = client;
        greeting = greet os e.server.no_delay handler;
      } in
      rw (f, call_server, a, ok', after_accept) (register_lem i made (served id m e w client) new)
