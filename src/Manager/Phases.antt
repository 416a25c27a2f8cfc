-- ===== src/Manager/Phases.antt =====
-- What holds of the manager through a round of its task (src/SocketConnection.tpp): a property
-- that each call keeps.
use async_tcpsock.Base.{ℕ, List, [], ◌∷◌, inl, inr, Bool-cases}
use async_tcpsock.Os.{Os, SelectRet}
use async_tcpsock.Client.State.{Sys}
use async_tcpsock.Client.Api.{is_ready}
use async_tcpsock.Manager.Registry.{Manager, visit}
use async_tcpsock.Manager.Sets.{collect_sets, marked, poll_due, poll_interval}
use async_tcpsock.Manager.Pass.{
  on_writeable, on_readable, on_answered, on_poll, on_done, visit_server, visit_all, visit_servers,
  write_phase, read_phase, accept_phase, dns_phase, poll_phase, done_phase, ready_phases, update,
}

-- Every call of a round, and what other tasks do before it, keeps the property.
pub record Kept (os : Os) (between : Manager os → Manager os) (P : Manager os → Type 0)
    : Type 0 where
  pub by_others : (m : Manager os) → P m → P (between m)
  pub by_visit : (op : Sys os → Sys os) (id : ℕ) (m : Manager os) → P m → P (visit os op id m)
  pub by_accept : (id : ℕ) (m : Manager os) → P m → P (visit_server os id m)
  pub by_world : (w : os.World) (m : Manager os) → P m → P (record m { world = w })
  pub by_polling :
      (m : Manager os)
      → P m
      → let p = poll_due os m.clients m.world in
        P (record m { clients = p.clients; world = p.world })

module _ (os : Os) (between : Manager os → Manager os) (P : Manager os → Type 0)
    (kept : Kept os between P) where
  pub visit_all-Kept :
      (op : Sys os → Sys os) (todo : List ℕ) (m : Manager os)
      → P m
      → P (visit_all os between op todo m)
  unfolding visit_all
  visit_all-Kept op [] m h = h
  visit_all-Kept op (id ∷ rest) m h =
      visit_all-Kept op rest _ (kept.by_visit op id (between m) (kept.by_others m h))

  pub visit_servers-Kept :
      (todo : List ℕ) (m : Manager os) → P m → P (visit_servers os between todo m)
  unfolding visit_servers
  visit_servers-Kept [] m h = h
  visit_servers-Kept (id ∷ rest) m h =
      visit_servers-Kept rest _ (kept.by_accept id (between m) (kept.by_others m h))

  pub ready_phases-Kept : (r : SelectRet) (m : Manager os) → P m → P (ready_phases os between r m)
  unfolding ready_phases write_phase read_phase accept_phase
  ready_phases-Kept r m h =
      let written = visit_all-Kept (on_writeable os) (marked r.writeable m.clients) m h in
      let was_read = visit_all-Kept (on_readable os) _ _ written in
      elim (Bool-cases (is_ready r.success)) [
        | inl e ↦ rw e (visit_servers-Kept _ _ was_read)
        | inr e ↦ rw e h
      ]

  pub update-Kept : (m : Manager os) → P m → P (update os between m)
  unfolding update dns_phase poll_phase done_phase
  update-Kept m h =
      let sets = collect_sets os m in
      let (r, w) = os.select sets.max_sock sets.read_set sets.write_set poll_interval sets.world in
      let ready = ready_phases-Kept r (record m { world = w }) (kept.by_world w m h) in
      let found = visit_all-Kept (on_answered os) _ _ ready in
      let polled = visit_all-Kept (on_poll os) _ _ (kept.by_polling _ found) in
      visit_all-Kept (on_done os) _ _ polled
