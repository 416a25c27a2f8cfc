-- ===== src/Manager/Keeps.antt =====
-- A round of the manager's task keeps the invariant of every client (src/SocketConnection.tpp).
use async_tcpsock.Base.{
  Bool-cases, ℕ, ◌≡◌, refl, Option, none, some, List, [], ◌∷◌, ◌++◌, arith, inl, inr,
}
use async_tcpsock.Os.{Os, SelectRet}
use async_tcpsock.Os.Laws.{Lawful}
use async_tcpsock.Connection.{set_dns_finished}
use async_tcpsock.Client.State.{Sys}
use async_tcpsock.Client.Invariant.{Inv}
use async_tcpsock.Client.Invariant.Events.{
  sock_is_writeable-Inv, sock_is_readable-Inv, sock_delayed_connect-Inv, sock_poll-Inv,
  processing_done-Inv,
}
use async_tcpsock.Client.Api.{is_ready}
use async_tcpsock.Server
use async_tcpsock.Server.{Site, Accepted}
use async_tcpsock.Server.Laws.{accept_lem}
use async_tcpsock.Manager.Registry.{
  Entry, ServerEntry, Manager, find, put, visit, call_on, add_connection,
}
use async_tcpsock.Manager.Sets.{collect_sets, marked, marked_servers, poll_due, poll_interval}
use async_tcpsock.Manager.Pass.{
  touch, on_writeable, on_readable, on_answered, on_poll, on_done, register, enlist, visit_server,
  call_server, visit_all, visit_servers, write_phase, read_phase, accept_phase, dns_phase,
  poll_phase, done_phase, ready_phases, update,
}

abbrev pub AllInv : Os → List Entry → Type 0
AllInv os [] = Unit {0}
AllInv os (e ∷ es) = Inv os e.client × AllInv os es

module _ (os : Os) where
  pub find-Inv :
      (id : ℕ) (es : List Entry) (e : Entry) → AllInv os es → find id es ≡ some e → Inv os e.client
  unfolding find
  find-Inv id [] e h f = cc
  find-Inv id (x ∷ xs) e h f = ground (arith, find-Inv id xs e h.1)

  put-Inv : (x : Entry) (es : List Entry) → Inv os x.client → AllInv os es → AllInv os (put x es)
  unfolding put
  put-Inv x [] hx h = tt
  put-Inv x (e ∷ es) hx h = ground (arith, put-Inv x es hx h.1)

  pub append-Inv :
      (es : List Entry) (x : Entry) → AllInv os es → Inv os x.client → AllInv os (es ++ x ∷ [])
  append-Inv [] x h hx = (hx, tt)
  append-Inv (e ∷ es) x h hx = (h.0, append-Inv es x h.1 hx)

  poll_due-Inv :
      (es : List Entry) (w : os.World) → AllInv os es → AllInv os (poll_due os es w).clients
  unfolding poll_due
  poll_due-Inv [] w h = tt
  poll_due-Inv (e ∷ es) w h = ground (arith, poll_due-Inv es (os.now w).1 h.1)

  -- An operation that keeps the invariant of any client.
  abbrev pub Keeping : (Sys os → Sys os) → Type 0
  Keeping op = (s : Sys os) → Inv os s.client → Inv os (op s).client

  pub call_on-Inv :
      (op : Sys os → Sys os) (id : ℕ) (o : Option Entry) (m : Manager os)
      → Keeping op
      → ((e : Entry) → o ≡ some e → Inv os e.client)
      → AllInv os m.clients
      → AllInv os (call_on os op id o m).clients
  unfolding call_on
  call_on-Inv op id none m k f h = h
  call_on-Inv op id (some e) m k f h =
      put-Inv _ m.clients
        (k (record { client = e.client; world = m.world; log = e.log }) (f e refl)) h

  visit-Inv :
      (op : Sys os → Sys os) (id : ℕ) (m : Manager os)
      → Keeping op
      → AllInv os m.clients
      → AllInv os (visit os op id m).clients
  unfolding visit
  visit-Inv op id m k h =
      call_on-Inv op id (find id m.clients) m k (λ e f. find-Inv id m.clients e h f) h

module _ (os : Os) (laws : Lawful os) where
  on_writeable-Inv : Keeping os (on_writeable os)
  unfolding on_writeable touch
  on_writeable-Inv s h = ground (arith, sock_is_writeable-Inv os laws s h)

  on_readable-Inv : Keeping os (on_readable os)
  unfolding on_readable touch
  on_readable-Inv s h = sock_is_readable-Inv os laws _ (ground arith)

  on_answered-Inv : Keeping os (on_answered os)
  unfolding on_answered set_dns_finished
  on_answered-Inv s h = sock_delayed_connect-Inv os laws _ (ground arith)

  on_poll-Inv : Keeping os (on_poll os)
  unfolding on_poll
  on_poll-Inv s h = sock_poll-Inv os laws s h

  on_done-Inv : Keeping os (on_done os)
  unfolding on_done
  on_done-Inv s h = processing_done-Inv os laws s h

  abbrev OptionInv : Option (Accepted os) → Type 0
  OptionInv none = Unit {0}
  OptionInv (some made) = Inv os made.client.client × Keeping os made.greeting

  accepted-Inv : (s : Site os) → OptionInv (Server.sock_is_readable os s).0
  accepted-Inv s = elim (accept_lem os laws s) [
    | inl (e, r) ↦ rw r tt
    | inr (handler, e, (same, closed, inl (code, fails, none'))) ↦ rw none' tt
    | inr
          (
            handler,
            e,
            (same, closed, inr (fd, made, works, some', socket, on', inv, greets, keeps)),
          ) ↦
        rw some' (inv, keeps)
  ]

  register-Inv :
      (o : Option (Accepted os)) (m : Manager os)
      → OptionInv o
      → AllInv os m.clients
      → AllInv os (register os o m).clients
  unfolding register enlist add_connection
  register-Inv none m e h = h
  register-Inv (some made) m (made-Inv, keeps) h =
      visit-Inv os made.greeting m.next_id (enlist os made.client m) keeps
        (append-Inv os m.clients _ h made-Inv)

  call_server-Inv :
      (id : ℕ) (o : Option ServerEntry) (m : Manager os)
      → AllInv os m.clients
      → AllInv os (call_server os id o m).clients
  unfolding call_server
  call_server-Inv id none m h = h
  call_server-Inv id (some e) m h = register-Inv _ _ (accepted-Inv _) h

module _ (os : Os) (laws : Lawful os) (between : Manager os → Manager os)
    (kept : (m : Manager os) → AllInv os m.clients → AllInv os (between m).clients) where
  visit_all-Inv :
      (op : Sys os → Sys os) (todo : List ℕ) (m : Manager os)
      → Keeping os op
      → AllInv os m.clients
      → AllInv os (visit_all os between op todo m).clients
  unfolding visit_all
  visit_all-Inv op [] m k h = h
  visit_all-Inv op (id ∷ rest) m k h =
      visit_all-Inv op rest _ k (visit-Inv os op id (between m) k (kept m h))

  visit_servers-Inv :
      (todo : List ℕ) (m : Manager os)
      → AllInv os m.clients
      → AllInv os (visit_servers os between todo m).clients
  unfolding visit_servers visit_server
  visit_servers-Inv [] m h = h
  visit_servers-Inv (id ∷ rest) m h =
      visit_servers-Inv rest _ (call_server-Inv os laws id _ (between m) (kept m h))

  ready_phases-Inv :
      (r : SelectRet) (m : Manager os)
      → AllInv os m.clients
      → AllInv os (ready_phases os between r m).clients
  unfolding ready_phases write_phase read_phase accept_phase
  ready_phases-Inv r m h =
      let written =
        visit_all-Inv (on_writeable os) (marked r.writeable m.clients) m (on_writeable-Inv os laws)
          h in
      let m1 = visit_all os between (on_writeable os) (marked r.writeable m.clients) m in
      let was_read =
        visit_all-Inv (on_readable os) (marked r.readable m1.clients) m1 (on_readable-Inv os laws)
          written in
      let m2 = visit_all os between (on_readable os) (marked r.readable m1.clients) m1 in
      elim (Bool-cases (is_ready r.success)) [
        | inl e ↦ rw e (visit_servers-Inv (marked_servers r.readable m2.servers) m2 was_read)
        | inr e ↦ rw e h
      ]

  -- If writes keep to their buffers, the descriptor -1 has no status, and other tasks keep the
  -- invariant of the clients between the calls, then a round of the manager's task keeps it for
  -- every client, those newly accepted included, whatever `select` reports and whatever the
  -- handlers do.
  pub update-Inv : (m : Manager os) → AllInv os m.clients → AllInv os (update os between m).clients
  unfolding update dns_phase poll_phase done_phase
  update-Inv m h =
      let sets = collect_sets os m in
      let (r, w) = os.select sets.max_sock sets.read_set sets.write_set poll_interval sets.world in
      let ready = ready_phases-Inv r (record m { world = w }) h in
      let found = visit_all-Inv (on_answered os) _ _ (on_answered-Inv os laws) ready in
      let polled =
        visit_all-Inv (on_poll os) _ _ (on_poll-Inv os laws) (poll_due-Inv os _ _ found) in
      visit_all-Inv (on_done os) _ _ (on_done-Inv os laws) polled
