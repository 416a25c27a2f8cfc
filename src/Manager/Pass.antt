-- ===== src/Manager/Pass.antt =====
-- One round of updateConnectionStates (src/SocketConnection.tpp). `between` is what other tasks do
-- before each call on a client: the registry's mutex is not held then.
use async_tcpsock.Base.{ℕ, ◌+◌, true, false, Option, none, some, List, [], ◌∷◌, ℤ, if◌then◌else◌}
use async_tcpsock.Os.{Os, SelectRet}
use async_tcpsock.Connection.{set_last_active}
use async_tcpsock.Client.State.{Sys}
use async_tcpsock.Client.Api.{is_ready}
use async_tcpsock.Server.{Site, Accepted}
use async_tcpsock.Manager.Managed.{ManagedClient, ManagedServer, managed_client, managed_server}
use async_tcpsock.Manager.Registry.{
  ServerEntry, Manager, find_server, put_server, add_connection, visit, ids,
}
use async_tcpsock.Manager.Sets.{
  collect_sets, marked, marked_servers, answered, poll_due, poll_interval,
}

module _ (os : Os) where
  abbrev client : ManagedClient (Sys os)
  client = managed_client os

  abbrev server : ManagedServer (Site os) (Accepted os)
  server = managed_server os

  -- setLastActive() with the present time.
  unfoldable pub touch : Sys os → Sys os
  unfolding set_last_active
  touch s = let (t, w) = os.now s.world in client.set_last_active t (record s { world = w })

  -- What each phase calls on a client.
  unfoldable pub on_writeable : Sys os → Sys os
  on_writeable s =
      let (activity, s') = client.sock_is_writeable s in if activity then touch s' else s'

  unfoldable pub on_readable : Sys os → Sys os
  on_readable s = client.sock_is_readable (touch s)

  unfoldable pub on_answered : Sys os → Sys os
  on_answered s = client.sock_delayed_connect (client.set_dns_finished false s)

  unfoldable pub on_poll : Sys os → Sys os
  on_poll s = client.sock_poll s

  unfoldable pub on_done : Sys os → Sys os
  on_done s = client.processing_done s

  -- The client of an accepted connection, at a new address: its constructor registers it, and then
  -- the server calls it.
  unfoldable pub enlist : Sys os → Manager os → Manager os
  unfolding add_connection
  enlist s m =
      record (add_connection os (some (record { id = m.next_id; client = s.client; log = s.log }))
        m) { next_id = m.next_id + 1 }

  unfoldable pub register : Option (Accepted os) → Manager os → Manager os
  unfolding enlist
  register none m = m
  register (some made) m = visit os made.greeting m.next_id (enlist made.client m)

  unfoldable pub call_server : ℕ → Option ServerEntry → Manager os → Manager os
  call_server id none m = record m { faulted = true }
  call_server id (some e) m =
      let (t, w) = os.now m.world in
      let site : Site os = record { server = e.server; world = w; closed = e.closed } in
      let (accepted, site') = server.sock_is_readable (server.set_last_active t site) in
      register accepted (record m {
        servers =
            put_server (record { id = id; server = site'.server; closed = site'.closed }) m.servers;
        world = site'.world;
      })

  unfoldable pub visit_server : ℕ → Manager os → Manager os
  visit_server id m = call_server id (find_server id m.servers) m

module _ (os : Os) (between : Manager os → Manager os) where
  -- `for (client : clientsProcessing)`
  unfoldable pub visit_all : (Sys os → Sys os) → List ℕ → Manager os → Manager os
  visit_all op [] m = m
  visit_all op (id ∷ rest) m = visit_all op rest (visit os op id (between m))

  unfoldable pub visit_servers : List ℕ → Manager os → Manager os
  visit_servers [] m = m
  visit_servers (id ∷ rest) m = visit_servers rest (visit_server os id (between m))

  -- Each phase collects with the mutex held, and then calls.
  unfoldable pub write_phase : List ℤ → Manager os → Manager os
  write_phase set m = visit_all (on_writeable os) (marked set m.clients) m

  unfoldable pub read_phase : List ℤ → Manager os → Manager os
  read_phase set m = visit_all (on_readable os) (marked set m.clients) m

  unfoldable pub accept_phase : List ℤ → Manager os → Manager os
  accept_phase set m = visit_servers (marked_servers set m.servers) m

  unfoldable pub dns_phase : Manager os → Manager os
  dns_phase m = visit_all (on_answered os) (answered m.clients) m

  unfoldable pub poll_phase : Manager os → Manager os
  poll_phase m =
      let p = poll_due os m.clients m.world in
      visit_all (on_poll os) p.due (record m { clients = p.clients; world = p.world })

  unfoldable pub done_phase : Manager os → Manager os
  done_phase m = visit_all (on_done os) (ids m.clients) m

  unfoldable pub ready_phases : SelectRet → Manager os → Manager os
  ready_phases r m =
      if is_ready r.success
      then accept_phase r.readable (read_phase r.readable (write_phase r.writeable m))
      else m

  -- The body of `while (true)`. The wait is POLL_INTERVAL.
  unfoldable pub update : Manager os → Manager os
  update m =
      let sets = collect_sets os m in
      let (r, w) = os.select sets.max_sock sets.read_set sets.write_set poll_interval sets.world in
      done_phase (poll_phase (dns_phase (ready_phases r (record m { world = w }))))
