-- ===== src/Manager/Watchdog.antt =====
-- The task watchdog in src/SocketConnection.tpp: enter_wdt and leave_wdt, and a round of
-- updateConnectionStates with them.
pub mod Aside
pub mod Balanced
use async_tcpsock.Base.{ℕ, ◌+◌, Bool, true, false, List, [], ◌∷◌, ℤ, if◌then◌else◌}
use async_tcpsock.Os.{Os, SelectRet}
use async_tcpsock.Os.Tapped.{beside}
use async_tcpsock.Client.State.{Sys}
use async_tcpsock.Client.Api.{is_ready}
use async_tcpsock.Manager.Registry.{Manager}
use async_tcpsock.Manager.Sets.{
  collect_sets, marked, marked_servers, answered, poll_due, poll_interval,
}
use async_tcpsock.Manager.Pass.{
  on_writeable, on_readable, on_answered, on_poll, on_done, visit_server, visit_all, done_phase,
}

-- The watchdog of ESP-IDF for the task: esp_task_wdt_add(NULL) and esp_task_wdt_delete(NULL), and
-- whether they return ESP_OK.
pub record Watchdog (S : Type 0) : Type 0 where
  pub add : S → Bool × S
  pub delete : S → Bool × S

-- Beside the system: the state of the watchdog, and how many errors have been logged.
abbrev pub Watched : Type 0 → Os → Os
Watched S os = beside (S × ℕ) (λ r s. s) os

abbrev pub count_failure : {S : Type 0} → Bool × S → ℕ → S × ℕ
count_failure (ok, s) errors = (s, if ok then errors else errors + 1)

-- `use_wdt` is CONFIG_ASYNC_TCP_USE_WDT.
module _ (S : Type 0) (os : Os) (use_wdt : Bool) (wdt : Watchdog S) where
  abbrev W : Os
  W = Watched S os

  unfoldable pub enter_wdt : W.World → W.World
  enter_wdt (w, (s, errors)) =
      if use_wdt then (w, count_failure (wdt.add s) errors) else (w, (s, errors))

  unfoldable pub leave_wdt : W.World → W.World
  leave_wdt (w, (s, errors)) =
      if use_wdt then (w, count_failure (wdt.delete s) errors) else (w, (s, errors))

  -- A call on a client between enter_wdt and leave_wdt.
  unfoldable pub guarded : (Sys W → Sys W) → Sys W → Sys W
  unfolding enter_wdt leave_wdt
  guarded op s =
      let r = op (record s { world = enter_wdt s.world }) in record r { world = leave_wdt r.world }

  -- The same for a call on a server.
  unfoldable pub guarded_server : ℕ → Manager W → Manager W
  unfolding enter_wdt leave_wdt
  guarded_server id m =
      let r = visit_server W id (record m { world = enter_wdt m.world }) in
      record r { world = leave_wdt r.world }

  module _ (between : Manager W → Manager W) where
    unfoldable pub guarded_servers : List ℕ → Manager W → Manager W
    guarded_servers [] m = m
    guarded_servers (id ∷ rest) m = guarded_servers rest (guarded_server id (between m))

    unfoldable pub guarded_ready : SelectRet → Manager W → Manager W
    unfolding guarded_servers
    guarded_ready r m =
        let m1 = visit_all W between (guarded (on_writeable W)) (marked r.writeable m.clients) m in
        let m2 = visit_all W between (guarded (on_readable W)) (marked r.readable m1.clients) m1 in
        let m3 = guarded_servers (marked_servers r.readable m2.servers) m2 in
        if is_ready r.success then m3 else m

    -- The body of `while (true)`: `_processingDone` is called outside of the watchdog.
    unfoldable pub guarded_update : Manager W → Manager W
    unfolding guarded_ready
    guarded_update m =
        let sets = collect_sets W m in
        let (r, w) = W.select sets.max_sock sets.read_set sets.write_set poll_interval sets.world in
        let m1 = guarded_ready r (record m { world = w }) in
        let m2 = visit_all W between (guarded (on_answered W)) (answered m1.clients) m1 in
        let p = poll_due W m2.clients m2.world in
        let polled = record m2 { clients = p.clients; world = p.world } in
        let m3 = visit_all W between (guarded (on_poll W)) p.due polled in done_phase W between m3
