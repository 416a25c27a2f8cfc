-- ===== src/Manager/Told/Rounds.antt =====
-- A whole round (src/SocketConnection.tpp) with a client that has been closed.
use async_tcpsock.Base.{
  ◌≡◌, refl, ap, sym, subst, ◌∙◌, ◌+◌, leb, inl, inr, ℕ, Bool, false, Option, none, some, List, [],
  ◌∷◌, ◌==◌, ℤ, minus_one, arith, Bool-cases,
}
use async_tcpsock.Os.{Os, SelectRet}
use async_tcpsock.Connection.{is_dns_finished, get_last_active}
use async_tcpsock.Client.State.{Sys, disconnecting}
use async_tcpsock.Client.Callbacks.{Callback}
use async_tcpsock.Client.Api.{is_ready}
use async_tcpsock.Client.Events.{sock_poll}
use async_tcpsock.Client.Fires.{invoked_of}
use async_tcpsock.Server.{Accepted}
use async_tcpsock.Manager.Registry.{
  Entry, ServerEntry, Manager, find, find_server, visit, ids, add_connection,
}
use async_tcpsock.Manager.Sets.{
  collect_sets, fd_isset, marked, marked_servers, answered, poll_due, poll_interval, touched,
}
use async_tcpsock.Manager.Pass.{
  on_writeable, on_readable, on_answered, on_poll, register, enlist, call_server, visit_server,
  visit_all, visit_servers, write_phase, read_phase, accept_phase, dns_phase, poll_phase,
  ready_phases, update,
}
use async_tcpsock.Manager.Laws.{collect_sets-Bounded}
use async_tcpsock.Manager.Numbered.{Below, accept-Numbered, has_id, Numbered, Numbered-Kept}
use async_tcpsock.Manager.Phases.{visit_all-Kept, ready_phases-Kept}
use async_tcpsock.Manager.Told.Misses.{Bounded-absent, marked_misses, answered_misses, find-append}
use async_tcpsock.Manager.Told.{Fired, called, visit_self, call_other, done_phase_tells}

-- `select` reports only descriptors that it has been asked for.
abbrev pub Selects : Os → Type 0
Selects os =
    (n : ℕ) (reads writes : List ℤ) (timeout : ℕ) (w : os.World) (fd : ℤ)
    → let r = (os.select n reads writes timeout w).0 in
      (fd_isset fd reads ≡ false → fd_isset fd r.readable ≡ false)
      × (fd_isset fd writes ≡ false → fd_isset fd r.writeable ≡ false)

-- The next address is not that of a client.
Below-other :
    (n id : ℕ) (es : List Entry) (e : Entry)
    → Below n (ids es)
    → find id es ≡ some e
    → (n == id) ≡ false
unfolding find
Below-other n id [] e b f = cc
Below-other n id (x ∷ xs) e b f = ground (arith, Below-other n id xs e b.1)

module _ (os : Os) where
  -- The client is disconnecting, with this log.
  abbrev Leaving : ℕ → Entry → Manager os → Type 0
  Leaving id e m =
      (e' : Entry) × (find id m.clients ≡ some e')
      × (e'.client.state ≡ disconnecting)
      × (e'.log ≡ e.log)

  poll_due-Leaving :
      (id : ℕ) (es : List Entry) (w : os.World) (e : Entry)
      → find id es ≡ some e
      → (e' : Entry) × (find id (poll_due os es w).clients ≡ some e')
        × (e'.client.state ≡ e.client.state)
        × (e'.log ≡ e.log)
  unfolding poll_due find
  poll_due-Leaving id [] w e f = cc
  poll_due-Leaving id (x ∷ es) w e f =
      let (now, w') = os.now w in
      let due : Bool = leb (get_last_active x.client.connection + poll_interval) now in
      elim (Bool-cases (x.id == id)) [
        | inl hit ↦
            (let same : x ≡ e = ground arith in
              elim (Bool-cases due) [
                | inl d ↦
                    rw (d, hit)
                      (touched os now x, refl, ap (λ y. y.client.state) same, ap (λ y. y.log) same)
                | inr d ↦ rw (d, hit) (x, refl, ap (λ y. y.client.state) same, ap (λ y. y.log) same)
              ])
        | inr miss ↦
            (let rest = poll_due-Leaving id es w' e (ground arith) in
              elim (Bool-cases due) [ inl d ↦ rw (d, miss) rest | inr d ↦ rw (d, miss) rest ])
      ]

  register-found :
      (id : ℕ) (o : Option (Accepted os)) (m : Manager os) (e : Entry)
      → Numbered os m
      → find id m.clients ≡ some e
      → find id (register os o m).clients ≡ some e
  unfolding register enlist add_connection visit
  register-found id none m e h f = f
  register-found id (some made) m e h f =
      let m' = enlist os made.client m in
      call_other os made.greeting m.next_id id (find m.next_id m'.clients) m'
        (Below-other m.next_id id m.clients e h.0 f)
      ∙ find-append id m.clients _ e f

  call_server-found :
      (id server : ℕ) (o : Option ServerEntry) (m : Manager os) (e : Entry)
      → Numbered os m
      → find id m.clients ≡ some e
      → find id (call_server os server o m).clients ≡ some e
  unfolding call_server
  call_server-found id server none m e h f = f
  call_server-found id server (some x) m e h f = register-found id _ _ e h f

  -- Polling does nothing on a client that is not connected.
  on_poll_idle : (s : Sys os) → s.client.state ≡ disconnecting → on_poll os s ≡ s
  unfolding on_poll sock_poll
  on_poll_idle s d = ground arith

module _ (os : Os) (between : Manager os → Manager os) (id : ℕ)
    (untouched : (m : Manager os) → find id (between m).clients ≡ find id m.clients)
    (others : (m : Manager os) → Numbered os m → Numbered os (between m)) where
  all_other :
      (op : Sys os → Sys os) (todo : List ℕ) (m : Manager os)
      → has_id id todo ≡ false
      → find id (visit_all os between op todo m).clients ≡ find id m.clients
  unfolding visit_all visit
  all_other op [] m h = refl
  all_other op (j ∷ rest) m h =
      let b = between m in
      let miss : (j == id) ≡ false = ground arith in
      let later : has_id id rest ≡ false = ground arith in
      all_other op rest (visit os op j b) later
      ∙ call_other os op j id (find j b.clients) b miss
      ∙ untouched m

  servers_found :
      (todo : List ℕ) (m : Manager os) (e : Entry)
      → Numbered os m
      → find id m.clients ≡ some e
      → find id (visit_servers os between todo m).clients ≡ some e
  unfolding visit_servers visit_server
  servers_found [] m e h f = f
  servers_found (j ∷ rest) m e h f =
      let b = between m in
      servers_found rest (visit_server os j b) e
        (accept-Numbered os j (find_server j b.servers) b (others m h))
        (call_server-found os id j (find_server j b.servers) b e (others m h) (untouched m ∙ f))

  -- The phases on sockets pass over a client without one.
  ready_found :
      (r : SelectRet) (m : Manager os) (e : Entry)
      → Numbered os m
      → find id m.clients ≡ some e
      → fd_isset e.client.socket r.readable ≡ false
      → fd_isset e.client.socket r.writeable ≡ false
      → find id (ready_phases os between r m).clients ≡ some e
  unfolding ready_phases write_phase read_phase accept_phase
  ready_found r m e h f nr nw =
      let todo = marked r.writeable m.clients in
      let m1 = visit_all os between (on_writeable os) todo m in
      let f1 : find id m1.clients ≡ some e =
        all_other (on_writeable os) todo m (marked_misses id r.writeable m.clients e h.1 f nw)
        ∙ f in
      let h1 =
        visit_all-Kept os between (Numbered os) (Numbered-Kept os between others) (on_writeable os)
          todo m h in
      let todo1 = marked r.readable m1.clients in
      let m2 = visit_all os between (on_readable os) todo1 m1 in
      let f2 : find id m2.clients ≡ some e =
        all_other (on_readable os) todo1 m1 (marked_misses id r.readable m1.clients e h1.1 f1 nr)
        ∙ f1 in
      let h2 =
        visit_all-Kept os between (Numbered os) (Numbered-Kept os between others) (on_readable os)
          todo1 m1 h1 in
      elim (Bool-cases (is_ready r.success)) [
        | inl k ↦ rw k (servers_found (marked_servers r.readable m2.servers) m2 e h2 f2)
        | inr k ↦ rw k f
      ]

  poll_Leaving :
      (todo : List ℕ) (m : Manager os) (e : Entry)
      → Leaving os id e m
      → Leaving os id e (visit_all os between (on_poll os) todo m)
  unfolding visit_all visit
  poll_Leaving [] m e l = l
  poll_Leaving (j ∷ rest) m e (e', f, d, log) =
      let b = between m in
      let here = untouched m ∙ f in
      poll_Leaving rest (visit os (on_poll os) j b) e (elim (Bool-cases (j == id)) [
        | inl hit ↦
            (let same : j ≡ id = ground arith in
              let s : Sys os = record { client = e'.client; world = b.world; log = e'.log } in
              let idle = on_poll_idle os s d in
              let self : Leaving os id e (visit os (on_poll os) id b) = (
                called os (on_poll os) id e' b.world,
                visit_self os (on_poll os) id b e' here,
                ap (λ (r : Sys os). r.client.state) idle ∙ d,
                ap (λ (r : Sys os). r.log) idle ∙ log,
              ) in
              subst (λ (k : ℕ). Leaving os id e (visit os (on_poll os) k b)) (sym same) self)
        | inr miss ↦ (e', call_other os (on_poll os) j id (find j b.clients) b miss ∙ here, d, log)
      ])

  -- If a client has been closed before a round begins, so that it is disconnecting, without a
  -- socket and with no DNS answer at hand, no client is registered twice, `select` reports only
  -- descriptors that it is asked for, and other tasks leave the client's entry alone and register
  -- no client twice, then in that round DISCONNECT fires for it, next after what had fired,
  -- whatever else happens in the round.
  pub update_tells :
      (selects : Selects os) (m : Manager os) (e : Entry)
      → Numbered os m
      → find id m.clients ≡ some e
      → e.client.state ≡ disconnecting
      → e.client.socket ≡ minus_one
      → is_dns_finished e.client.connection ≡ false
      → Fired os id (Callback.disconnect ∷ invoked_of e.log) (update os between m)
  unfolding update dns_phase poll_phase
  update_tells selects m e h f d closed' no_answer =
      let sets = collect_sets os m in
      let bounded = collect_sets-Bounded os m in
      let (r, w) = os.select sets.max_sock sets.read_set sets.write_set poll_interval sets.world in
      let reports =
        selects sets.max_sock sets.read_set sets.write_set poll_interval sets.world minus_one in
      let m0 = record m { world = w } in
      let m1 = ready_phases os between r m0 in
      let f1 : find id m1.clients ≡ some e =
        ready_found r m0 e h f
          (rw closed' (reports.0 (Bounded-absent sets.max_sock sets.read_set bounded.0)))
          (rw closed' (reports.1 (Bounded-absent sets.max_sock sets.write_set bounded.1))) in
      let h1 =
        ready_phases-Kept os between (Numbered os) (Numbered-Kept os between others) r m0 h in
      let todo = answered m1.clients in
      let m2 = visit_all os between (on_answered os) todo m1 in
      let f2 : find id m2.clients ≡ some e =
        all_other (on_answered os) todo m1 (answered_misses id m1.clients e h1.1 f1 no_answer)
        ∙ f1 in
      let (e', f', state, log) = poll_due-Leaving os id m2.clients m2.world e f2 in
      let p = poll_due os m2.clients m2.world in
      let m3 = record m2 { clients = p.clients; world = p.world } in
      let (last, found, leaving, same) = poll_Leaving p.due m3 e (e', f', state ∙ d, log) in
      subst (λ l. Fired os id (Callback.disconnect ∷ invoked_of l) (update os between m)) same
        (done_phase_tells os between id untouched (visit_all os between (on_poll os) p.due m3) last
          found leaving)
