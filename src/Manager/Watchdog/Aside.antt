-- ===== src/Manager/Watchdog/Aside.antt =====
-- What a round of src/SocketConnection.tpp calls leaves alone what lies beside the system.
use async_tcpsock.Base.{
  Option-cases, inl, inr, ap, ◌≡◌, refl, ◌∙◌, ℕ, List, [], ◌∷◌, Bool, Option, none, some, ℤ, pos,
  arith,
}
use async_tcpsock.Os.{Os, Ret, ok, failed, ReadRet}
use async_tcpsock.Os.Tapped.{beside}
use async_tcpsock.Connection.{set_last_active, set_dns_finished}
use async_tcpsock.Connection
use async_tcpsock.Client.State.{Sys}
use async_tcpsock.Client.Api
use async_tcpsock.Client.Callbacks.{Callback, Program}
use async_tcpsock.Client.Events
use async_tcpsock.Client.Delivery.{_close-Quiet, run-Quiet, invoke_delivers}
use async_tcpsock.Client.Delivery.Tasks.{
  _error-Quiet, sock_is_writeable-Quiet, sock_delayed_connect-Quiet, sock_poll-Quiet,
  processing_done-Quiet,
}
use async_tcpsock.Server
use async_tcpsock.Server.{Site, Accepted}
use async_tcpsock.Manager.Registry.{
  Entry, ServerEntry, Manager, find, find_server, visit, call_on, add_connection,
}
use async_tcpsock.Manager.Sets.{
  client_set, client_sets, server_sets, server_set, collect_sets, Sets, poll_due,
}
use async_tcpsock.Manager.Pass.{
  touch, on_writeable, on_readable, on_answered, on_poll, on_done, visit_server, call_server,
  register, enlist,
}

module _ (S : Type 0) (os : Os) where
  abbrev note : ReadRet → S → S
  note r s = s

  abbrev W : Os
  W = beside S note os

  -- An operation of a client that leaves S alone.
  abbrev pub IsAside : (Sys W → Sys W) → Type 0
  IsAside op = (s : Sys W) → (op s).world.1 ≡ s.world.1

  pub on_writeable-IsAside : IsAside (on_writeable W)
  unfolding on_writeable touch set_last_active
  on_writeable-IsAside s = ground (arith, (sock_is_writeable-Quiet S note os s).0)

  handle_read-IsAside : (r : ReadRet) → IsAside (λ s. (Events.handle_read W r s).1)
  unfolding Events.handle_read
  handle_read-IsAside (ReadRet.bytes []) s = (_close-Quiet S note os s).0
  handle_read-IsAside (ReadRet.bytes (b ∷ bs)) s =
      (invoke_delivers S note os (Callback.recv (b ∷ bs)) _).0
  handle_read-IsAside (ReadRet.failed e) s = ground (arith, (_error-Quiet S note os e s).0)

  pub on_readable-IsAside : IsAside (on_readable W)
  unfolding on_readable touch set_last_active Events.sock_is_readable
  on_readable-IsAside s = handle_read-IsAside _ _

  pub on_answered-IsAside : IsAside (on_answered W)
  unfolding on_answered set_dns_finished
  on_answered-IsAside s = (sock_delayed_connect-Quiet S note os _).0

  pub on_poll-IsAside : IsAside (on_poll W)
  unfolding on_poll
  on_poll-IsAside s = (sock_poll-Quiet S note os s).0

  pub on_done-IsAside : IsAside (on_done W)
  unfolding on_done
  on_done-IsAside s = (processing_done-Quiet S note os s).0

  from_socket-aside : (fd : ℤ) (w : W.World) → (Api.from_socket W fd w).world.1 ≡ w.1
  unfolding Api.from_socket Api.new Api.adopt_socket Connection.new Connection.configure_socket
  from_socket-aside fd w = ground arith

  set_no_delay-IsAside : (b : Bool) → IsAside (λ s. (Api.set_no_delay W b s).1)
  unfolding Api.set_no_delay
  set_no_delay-IsAside b s = ground arith

  greet-IsAside : (b : Bool) (handler : Program) → IsAside (Server.greet W b handler)
  unfolding Server.greet
  greet-IsAside b handler s = (run-Quiet S note os handler _).0 ∙ set_no_delay-IsAside b s

  abbrev OptionAside : Option (Accepted W) → Type 0
  OptionAside none = Unit {0}
  OptionAside (some made) = IsAside made.greeting

  after_accept-aside :
      (r : Ret) (handler : Program) (w : W.World) (s : Site W)
      → let (made, s') = Server.after_accept W r handler w s in
        (s'.world.1 ≡ w.1) × OptionAside made
  unfolding Server.after_accept
  after_accept-aside (failed e) handler w s = (refl, tt)
  after_accept-aside (ok fd) handler w s =
      (from_socket-aside (pos fd) w, greet-IsAside s.server.no_delay handler)

  sock_is_readable-aside :
      (s : Site W)
      → let (made, s') = Server.sock_is_readable W s in (s'.world.1 ≡ s.world.1) × OptionAside made
  unfolding Server.sock_is_readable
  sock_is_readable-aside s = elim (Option-cases s.server.accept_handler) [
    | inl e ↦ rw e (refl, tt)
    | inr (handler, e) ↦ rw e (
        after_accept-aside (W.accept s.server.socket s.world).0 handler
          (W.accept s.server.socket s.world).1
          (record s { server = record s.server { accept_handler = some handler } }))
  ]

  visit-aside :
      (op : Sys W → Sys W) (id : ℕ) (m : Manager W)
      → IsAside op
      → (visit W op id m).world.1 ≡ m.world.1
  unfolding visit call_on
  visit-aside op id m h = elim (Option-cases (find id m.clients)) [
    | inl e ↦ rw (e, call_on) refl
    | inr (x, e) ↦ rw (e, call_on) (h (record { client = x.client; world = m.world; log = x.log }))
  ]

  register-aside :
      (o : Option (Accepted W)) (m : Manager W)
      → OptionAside o
      → (register W o m).world.1 ≡ m.world.1
  unfolding register enlist add_connection
  register-aside none m h = refl
  register-aside (some made) m h = visit-aside made.greeting m.next_id (enlist W made.client m) h

  call_server-aside :
      (id : ℕ) (o : Option ServerEntry) (m : Manager W) → (call_server W id o m).world.1 ≡ m.world.1
  unfolding call_server set_last_active
  call_server-aside id none m = refl
  call_server-aside id (some e) m =
      let (beside', made) = sock_is_readable-aside _ in register-aside _ _ made ∙ beside'

  pub visit_server-aside : (id : ℕ) (m : Manager W) → (visit_server W id m).world.1 ≡ m.world.1
  unfolding visit_server
  visit_server-aside id m = call_server-aside id (find_server id m.servers) m

  client_sets-aside :
      (es : List Entry) (sets : Sets W) → (client_sets W es sets).world.1 ≡ sets.world.1
  unfolding client_sets client_set Events.pending_write
  client_sets-aside [] sets = refl
  client_sets-aside (e ∷ es) sets = client_sets-aside es (client_set W e sets) ∙ ground arith

  server_sets-world :
      (free : Bool) (es : List ServerEntry) (sets : Sets W)
      → (server_sets W free es sets).world ≡ sets.world
  unfolding server_sets server_set
  server_sets-world free [] sets = refl
  server_sets-world free (e ∷ es) sets =
      server_sets-world free es (server_set W free e sets) ∙ ground arith

  pub collect_sets-aside : (m : Manager W) → (collect_sets W m).world.1 ≡ m.world.1
  unfolding collect_sets
  collect_sets-aside m =
      ap (λ (w : W.World). w.1) (server_sets-world _ m.servers _) ∙ client_sets-aside m.clients _

  pub poll_due-aside : (es : List Entry) (w : W.World) → (poll_due W es w).world.1 ≡ w.1
  unfolding poll_due
  poll_due-aside [] w = refl
  poll_due-aside (e ∷ es) w = ground (arith, poll_due-aside es (W.now w).1)
