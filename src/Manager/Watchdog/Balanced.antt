-- ===== src/Manager/Watchdog/Balanced.antt =====
-- The task of src/SocketConnection.tpp waits and cleans up without the watchdog.
use async_tcpsock.Base.{
  refl, ap, if◌then◌else◌, Option-cases, subst, sym, ◌≡◌, ℕ, Bool, true, false, List, [], ◌∷◌,
  arith, inl, inr, Bool-cases,
}
use async_tcpsock.Os.{Os, SelectRet}
use async_tcpsock.Client.State.{Sys}
use async_tcpsock.Client.Api.{is_ready}
use async_tcpsock.Manager.Registry.{Manager, visit, call_on, find}
use async_tcpsock.Manager.Sets.{
  collect_sets, marked, marked_servers, answered, poll_due, poll_interval,
}
use async_tcpsock.Manager.Pass.{
  poll_phase, dns_phase, accept_phase, read_phase, write_phase, ready_phases, update, visit_servers,
  on_writeable, on_readable, on_answered, on_poll, on_done, visit_server, visit_all, done_phase,
}
use async_tcpsock.Manager.Watchdog.{
  Watchdog, Watched, enter_wdt, leave_wdt, guarded, guarded_server, guarded_servers, guarded_ready,
  guarded_update,
}
use async_tcpsock.Manager.Watchdog.Aside.{
  IsAside, on_writeable-IsAside, on_readable-IsAside, on_answered-IsAside, on_poll-IsAside,
  on_done-IsAside, visit_server-aside, collect_sets-aside, poll_due-aside,
}

-- A watchdog of ESP-IDF that has memory: a task that is not watched can be added, and a task that is
-- watched can be deleted.
pub record Watches {S : Type 0} (wdt : Watchdog S) (is_watched : S → Bool) : Type 0 where
  pub adds : (s : S) → is_watched s ≡ false → (wdt.add s).0 ≡ true
  pub added : (s : S) → is_watched s ≡ false → is_watched (wdt.add s).1 ≡ true
  pub deletes : (s : S) → is_watched s ≡ true → (wdt.delete s).0 ≡ true
  pub deleted : (s : S) → is_watched s ≡ true → is_watched (wdt.delete s).1 ≡ false

module _ (S : Type 0) (os : Os) (use_wdt : Bool) (wdt : Watchdog S) (is_watched : S → Bool)
    (watches : Watches wdt is_watched) where
  abbrev W : Os
  W = Watched S os

  -- Not watched, and with n errors logged.
  abbrev pub IsFree : ℕ → S × ℕ → Type 0
  IsFree n (s, errors) = (is_watched s ≡ false) × (errors ≡ n)

  left :
      (n : ℕ) (w w' : W.World)
      → IsFree n w.1
      → w'.1 ≡ (enter_wdt S os use_wdt wdt w).1
      → IsFree n (leave_wdt S os use_wdt wdt w').1
  unfolding enter_wdt leave_wdt
  left n (w, (s, errors)) (w', (s', errors')) h e =
      ground (
        arith,
        h,
        e,
        watches.adds s h.0,
        watches.added s h.0,
        watches.deletes s',
        watches.deleted s',
      )

  guarded-IsFree :
      (op : Sys W → Sys W) (n : ℕ) (s : Sys W)
      → IsAside (S × ℕ) os op
      → IsFree n s.world.1
      → IsFree n (guarded S os use_wdt wdt op s).world.1
  unfolding guarded
  guarded-IsFree op n s a h =
      let entered = record s { world = enter_wdt S os use_wdt wdt s.world } in
      left n s.world (op entered).world h (a entered)

  visit-IsFree :
      (op : Sys W → Sys W) (n id : ℕ) (m : Manager W)
      → ((s : Sys W) → IsFree n s.world.1 → IsFree n (op s).world.1)
      → IsFree n m.world.1
      → IsFree n (visit W op id m).world.1
  unfolding visit call_on
  visit-IsFree op n id m keeps h = elim (Option-cases (find id m.clients)) [
    | inl e ↦ rw (e, call_on) h
    | inr (x, e) ↦
        rw (e, call_on) (keeps (record { client = x.client; world = m.world; log = x.log }) h)
  ]

  module _ (between : Manager W → Manager W)
      (apart : (m : Manager W) → (between m).world.1 ≡ m.world.1) (n : ℕ) where
    others-IsFree : (m : Manager W) → IsFree n m.world.1 → IsFree n (between m).world.1
    others-IsFree m h = subst (IsFree n) (sym (apart m)) h

    visit_all-IsFree :
        (op : Sys W → Sys W) (todo : List ℕ) (m : Manager W)
        → ((s : Sys W) → IsFree n s.world.1 → IsFree n (op s).world.1)
        → IsFree n m.world.1
        → IsFree n (visit_all W between op todo m).world.1
    unfolding visit_all
    visit_all-IsFree op [] m keeps h = h
    visit_all-IsFree op (id ∷ rest) m keeps h =
        visit_all-IsFree op rest (visit W op id (between m)) keeps
          (visit-IsFree op n id (between m) keeps (others-IsFree m h))

    guarded_all-IsFree :
        (op : Sys W → Sys W) (todo : List ℕ) (m : Manager W)
        → IsAside (S × ℕ) os op
        → IsFree n m.world.1
        → IsFree n (visit_all W between (guarded S os use_wdt wdt op) todo m).world.1
    guarded_all-IsFree op todo m aside h =
        visit_all-IsFree (guarded S os use_wdt wdt op) todo m (λ s k. guarded-IsFree op n s aside k)
          h

    guarded_servers-IsFree :
        (todo : List ℕ) (m : Manager W)
        → IsFree n m.world.1
        → IsFree n (guarded_servers S os use_wdt wdt between todo m).world.1
    unfolding guarded_servers guarded_server
    guarded_servers-IsFree [] m h = h
    guarded_servers-IsFree (id ∷ rest) m h =
        let b = between m in
        let entered = record b { world = enter_wdt S os use_wdt wdt b.world } in
        guarded_servers-IsFree rest (guarded_server S os use_wdt wdt id b) (
          left n b.world (visit_server W id entered).world (others-IsFree m h)
            (visit_server-aside (S × ℕ) os id entered))

    guarded_ready-IsFree :
        (r : SelectRet) (m : Manager W)
        → IsFree n m.world.1
        → IsFree n (guarded_ready S os use_wdt wdt between r m).world.1
    unfolding guarded_ready
    guarded_ready-IsFree r m h =
        let write = guarded S os use_wdt wdt (on_writeable W) in
        let read = guarded S os use_wdt wdt (on_readable W) in
        let m1 = visit_all W between write (marked r.writeable m.clients) m in
        let m2 = visit_all W between read (marked r.readable m1.clients) m1 in
        let written =
          guarded_all-IsFree (on_writeable W) (marked r.writeable m.clients) m
            (on_writeable-IsAside (S × ℕ) os) h in
        let was_read =
          guarded_all-IsFree (on_readable W) (marked r.readable m1.clients) m1
            (on_readable-IsAside (S × ℕ) os) written in
        elim (Bool-cases (is_ready r.success)) [
          | inl e ↦ rw e (guarded_servers-IsFree (marked_servers r.readable m2.servers) m2 was_read)
          | inr e ↦ rw e h
        ]

    -- If the watchdog adds a task that is not watched and deletes one that is, and other tasks
    -- leave it and the log of its errors alone, then a round that the task begins unwatched finds
    -- it unwatched when it waits for sockets and leaves it unwatched, whatever handlers do with
    -- their clients, and logs no error of the watchdog; with CONFIG_ASYNC_TCP_USE_WDT or without.
    pub guarded_update-IsFree :
        (m : Manager W)
        → IsFree n m.world.1
        → IsFree n (collect_sets W m).world.1
          × IsFree n (guarded_update S os use_wdt wdt between m).world.1
    unfolding guarded_update done_phase
    guarded_update-IsFree m h =
        let sets = collect_sets W m in
        let (r, w) = W.select sets.max_sock sets.read_set sets.write_set poll_interval sets.world in
        let waits = subst (IsFree n) (sym (collect_sets-aside (S × ℕ) os m)) h in
        let ready = guarded_ready-IsFree r (record m { world = w }) waits in
        let m1 = guarded_ready S os use_wdt wdt between r (record m { world = w }) in
        let found =
          guarded_all-IsFree (on_answered W) (answered m1.clients) m1
            (on_answered-IsAside (S × ℕ) os) ready in
        let m2 =
          visit_all W between (guarded S os use_wdt wdt (on_answered W)) (answered m1.clients) m1 in
        let p = poll_due W m2.clients m2.world in
        let polled = subst (IsFree n) (sym (poll_due-aside (S × ℕ) os m2.clients m2.world)) found in
        let m2' = record m2 { clients = p.clients; world = p.world } in
        let due = guarded_all-IsFree (on_poll W) p.due m2' (on_poll-IsAside (S × ℕ) os) polled in
        (
          waits,
          visit_all-IsFree (on_done W) _ _
              (λ s k. subst (IsFree n) (sym (on_done-IsAside (S × ℕ) os s)) k) due,
        )

module _ (S : Type 0) (os : Os) (wdt : Watchdog S)
    (between : Manager (Watched S os) → Manager (Watched S os)) where
  servers_unguarded :
      (todo : List ℕ) (m : Manager (Watched S os))
      → guarded_servers S os false wdt between todo m ≡ visit_servers (Watched S os) between todo m
  unfolding guarded_servers guarded_server visit_servers enter_wdt leave_wdt
  servers_unguarded [] m = refl
  servers_unguarded (id ∷ rest) m = servers_unguarded rest _

  ready_unguarded :
      (r : SelectRet) (m : Manager (Watched S os))
      → guarded_ready S os false wdt between r m ≡ ready_phases (Watched S os) between r m
  unfolding guarded_ready guarded enter_wdt leave_wdt ready_phases write_phase read_phase
      accept_phase
  ready_unguarded r m =
      let m2 =
        read_phase (Watched S os) between r.readable
          (write_phase (Watched S os) between r.writeable m) in
      ap (λ (m3 : Manager (Watched S os)). if is_ready r.success then m3 else m)
        (servers_unguarded (marked_servers r.readable m2.servers) m2)

  -- Without CONFIG_ASYNC_TCP_USE_WDT a round is the one of Manager/Pass.
  guarded_update-update :
      (m : Manager (Watched S os))
      → guarded_update S os false wdt between m ≡ update (Watched S os) between m
  unfolding guarded_update guarded enter_wdt leave_wdt update dns_phase poll_phase
  guarded_update-update m =
      let sets = collect_sets (Watched S os) m in
      let (r, w) =
        (Watched S os).select sets.max_sock sets.read_set sets.write_set poll_interval sets.world in
      ap
        (λ (m1 : Manager (Watched S os)).
          done_phase (Watched S os) between
            (poll_phase (Watched S os) between (dns_phase (Watched S os) between m1)))
        (ready_unguarded r (record m { world = w }))
