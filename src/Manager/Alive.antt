-- ===== src/Manager/Alive.antt =====
-- Whether a round of the manager's task (src/SocketConnection.tpp) calls functions only on objects
-- that are there.
use async_tcpsock.Manager.Present.{
  Has, HasServer, AllHas, AllHasServer, find-put, find_server-put, marked-AllHas, answered-AllHas,
  ids-AllHas, poll_due-AllHas, marked_servers-AllHas,
}
use async_tcpsock.Base.{
  sym, subst, ap, ℕ, ◌≡◌, refl, true, Option, none, some, List, [], ◌∷◌, arith, is_some, ◌∙◌,
  Option-cases, inl, inr,
}
use async_tcpsock.Os.{SelectRet, Os}
use async_tcpsock.Client.State.{Sys}
use async_tcpsock.Manager.Registry.{
  Entry, ServerEntry, Manager, find, find_server, visit, ids, call_on, add_connection,
}
use async_tcpsock.Server.{Accepted}
use async_tcpsock.Manager.Laws.{find-appended}
use async_tcpsock.Manager.Sets.{
  poll_interval, collect_sets, marked, marked_servers, answered, poll_due,
}
use async_tcpsock.Manager.Pass.{
  on_done, on_poll, on_readable, on_answered, on_writeable, accept_phase, poll_phase, read_phase,
  dns_phase, write_phase, done_phase, update, ready_phases, visit_servers, visit_server,
  call_server, register, enlist, visit_all,
}

-- What other tasks do removes no client and no server, and calls nothing on one that is gone.
pub record IsTame (os : Os) (between : Manager os → Manager os) : Type 0 where
  pub keeps : (m : Manager os) (id : ℕ) → Has id m.clients → Has id (between m).clients
  pub keeps_servers :
      (m : Manager os) (id : ℕ) → HasServer id m.servers → HasServer id (between m).servers
  pub quiet : (m : Manager os) → (between m).faulted ≡ m.faulted

module _ (os : Os) where
  pub call_on-alive :
      (op : Sys os → Sys os) (id : ℕ) (o : Option Entry) (m : Manager os)
      → is_some o ≡ true
      → (call_on os op id o m).faulted ≡ m.faulted
  unfolding call_on
  call_on-alive op id none m h = cc
  call_on-alive op id (some e) m h = refl

  pub call_on-Has :
      (op : Sys os → Sys os) (id : ℕ) (o : Option Entry) (m : Manager os) (i : ℕ)
      → is_some (find i (call_on os op id o m).clients) ≡ is_some (find i m.clients)
  unfolding call_on
  call_on-Has op id none m i = refl
  call_on-Has op id (some e) m i = find-put i _ m.clients

  pub AllHas-visit :
      (op : Sys os → Sys os) (id : ℕ) (m : Manager os) (todo : List ℕ)
      → AllHas todo m.clients
      → AllHas todo (visit os op id m).clients
  unfolding visit
  AllHas-visit op id m [] h = tt
  AllHas-visit op id m (i ∷ rest) h =
      (call_on-Has op id (find id m.clients) m i ∙ h.0, AllHas-visit op id m rest h.1)

module _ (os : Os) (between : Manager os → Manager os) (tame : IsTame os between) where
  pub AllHas-between :
      (m : Manager os) (todo : List ℕ) → AllHas todo m.clients → AllHas todo (between m).clients
  AllHas-between m [] h = tt
  AllHas-between m (i ∷ rest) h = (tame.keeps m i h.0, AllHas-between m rest h.1)

  pub visit_all-alive :
      (op : Sys os → Sys os) (todo : List ℕ) (m : Manager os)
      → AllHas todo m.clients
      → (visit_all os between op todo m).faulted ≡ m.faulted
  unfolding visit_all visit
  visit_all-alive op [] m h = refl
  visit_all-alive op (id ∷ rest) m h =
      let b = between m in
      visit_all-alive op rest (visit os op id b)
        (AllHas-visit os op id b rest (AllHas-between m rest h.1))
      ∙ call_on-alive os op id (find id b.clients) b (tame.keeps m id h.0)
      ∙ tame.quiet m

  visit-servers :
      (op : Sys os → Sys os) (id : ℕ) (m : Manager os) → (visit os op id m).servers ≡ m.servers
  unfolding visit call_on
  visit-servers op id m = elim (Option-cases (find id m.clients)) [
    | inl e ↦ rw (e, call_on) refl
    | inr (x, e) ↦ rw (e, call_on) refl
  ]

  register-servers :
      (o : Option (Accepted os)) (m : Manager os)
      → ((register os o m).servers ≡ m.servers) × ((register os o m).faulted ≡ m.faulted)
  unfolding register enlist add_connection visit
  register-servers none m = (refl, refl)
  register-servers (some made) m =
      let s = made.client in
      let x : Entry = record { id = m.next_id; client = s.client; log = s.log } in
      let m' = enlist os s m in
      (
        visit-servers made.greeting m.next_id m',
        call_on-alive os made.greeting m.next_id (find m.next_id m'.clients) m'
            (find-appended x m.clients),
      )

  call_server-alive :
      (id : ℕ) (o : Option ServerEntry) (m : Manager os)
      → is_some o ≡ true
      → (call_server os id o m).faulted ≡ m.faulted
  unfolding call_server
  call_server-alive id none m h = cc
  call_server-alive id (some e) m h = (register-servers _ _).1

  call_server-Has :
      (id : ℕ) (o : Option ServerEntry) (m : Manager os) (i : ℕ)
      → is_some (find_server i (call_server os id o m).servers) ≡ is_some (find_server i m.servers)
  unfolding call_server
  call_server-Has id none m i = refl
  call_server-Has id (some e) m i =
      ap (λ (es : List ServerEntry). is_some (find_server i es)) (register-servers _ _).0
      ∙ find_server-put i _ m.servers

  AllHasServer-step :
      (id : ℕ) (m : Manager os) (todo : List ℕ)
      → AllHasServer todo m.servers
      → AllHasServer todo (visit_server os id (between m)).servers
  unfolding visit_server
  AllHasServer-step id m [] h = tt
  AllHasServer-step id m (i ∷ rest) h =
      let b = between m in
      (
        call_server-Has id (find_server id b.servers) b i ∙ tame.keeps_servers m i h.0,
        AllHasServer-step id m rest h.1,
      )

  pub visit_servers-alive :
      (todo : List ℕ) (m : Manager os)
      → AllHasServer todo m.servers
      → (visit_servers os between todo m).faulted ≡ m.faulted
  unfolding visit_servers visit_server
  visit_servers-alive [] m h = refl
  visit_servers-alive (id ∷ rest) m h =
      let b = between m in
      visit_servers-alive rest (visit_server os id b) (AllHasServer-step id m rest h.1)
      ∙ call_server-alive id (find_server id b.servers) b (tame.keeps_servers m id h.0)
      ∙ tame.quiet m

  ready_phases-alive :
      (r : SelectRet) (m : Manager os) → (ready_phases os between r m).faulted ≡ m.faulted
  unfolding ready_phases write_phase read_phase accept_phase
  ready_phases-alive r m =
      let m1 = visit_all os between (on_writeable os) (marked r.writeable m.clients) m in
      let m2 = visit_all os between (on_readable os) (marked r.readable m1.clients) m1 in
      ground (
        arith,
        visit_all-alive (on_writeable os) (marked r.writeable m.clients) m
            (marked-AllHas r.writeable m.clients),
        visit_all-alive (on_readable os) (marked r.readable m1.clients) m1
            (marked-AllHas r.readable m1.clients),
        visit_servers-alive (marked_servers r.readable m2.servers) m2
            (marked_servers-AllHas r.readable m2.servers),
      )

  -- If other tasks remove no client and no server and call nothing on one that is gone, a round of
  -- the manager's task calls functions only on clients and servers that are there.
  pub update_alive : (m : Manager os) → (update os between m).faulted ≡ m.faulted
  unfolding update dns_phase poll_phase done_phase
  update_alive m =
      let sets = collect_sets os m in
      let (r, w) = os.select sets.max_sock sets.read_set sets.write_set poll_interval sets.world in
      let m0 = record m { world = w } in
      let m1 = ready_phases os between r m0 in
      let m2 = visit_all os between (on_answered os) (answered m1.clients) m1 in
      let p = poll_due os m2.clients m2.world in
      let m2' = record m2 { clients = p.clients; world = p.world } in
      let m3 = visit_all os between (on_poll os) p.due m2' in
      visit_all-alive (on_done os) (ids m3.clients) m3 (ids-AllHas m3.clients)
      ∙ visit_all-alive (on_poll os) p.due m2' (poll_due-AllHas os m2.clients m2.world)
      ∙ visit_all-alive (on_answered os) (answered m1.clients) m1 (answered-AllHas m1.clients)
      ∙ ready_phases-alive r m0

module _ (os : Os) (between : Manager os → Manager os) where
  faulted-visit :
      (op : Sys os → Sys os) (id : ℕ) (m : Manager os)
      → m.faulted ≡ true
      → (visit os op id m).faulted ≡ true
  unfolding visit call_on
  faulted-visit op id m h = go (find id m.clients)
    where
      go : (o : Option Entry) → (call_on os op id o m).faulted ≡ true
      go none = refl
      go (some e) = h

  faulted-visit_all :
      (sticky : (m : Manager os) → m.faulted ≡ true → (between m).faulted ≡ true)
      (op : Sys os → Sys os) (todo : List ℕ) (m : Manager os)
      → m.faulted ≡ true
      → (visit_all os between op todo m).faulted ≡ true
  unfolding visit_all
  faulted-visit_all sticky op [] m h = h
  faulted-visit_all sticky op (id ∷ rest) m h =
      faulted-visit_all sticky op rest (visit os op id (between m))
        (faulted-visit op id (between m) (sticky m h))

  pub visit_gone :
      (op : Sys os → Sys os) (id : ℕ) (m : Manager os)
      → find id m.clients ≡ none
      → (visit os op id m).faulted ≡ true
  unfolding visit call_on
  visit_gone op id m gone = rw (gone, call_on)

  gone_first :
      (sticky : (m : Manager os) → m.faulted ≡ true → (between m).faulted ≡ true)
      (op : Sys os → Sys os) (id : ℕ) (rest : List ℕ) (m : Manager os)
      → find id (between m).clients ≡ none
      → (visit_all os between op (id ∷ rest) m).faulted ≡ true
  unfolding visit_all
  gone_first sticky op id rest m gone =
      faulted-visit_all sticky op rest (visit os op id (between m))
        (visit_gone op id (between m) gone)

  -- If another task deletes the first client before its turn comes in the last phase, the phase
  -- calls a function on it all the same, as long as other tasks do not undo the fault.
  pub done_phase_dangling :
      (sticky : (m : Manager os) → m.faulted ≡ true → (between m).faulted ≡ true) (e : Entry)
      (es : List Entry) (m : Manager os)
      → m.clients ≡ e ∷ es
      → find e.id (between m).clients ≡ none
      → (done_phase os between m).faulted ≡ true
  unfolding done_phase
  done_phase_dangling sticky e es m first gone =
      subst (λ (l : List Entry). (visit_all os between (on_done os) (ids l) m).faulted ≡ true)
        (sym first) (gone_first sticky (on_done os) e.id (ids es) m gone)
