-- ===== src/Samples/Tasks.antt =====
-- Servers and the manager at work on the sample network.
use async_tcpsock.Base.{arith, ◌⊎◌, none, some, [], ◌∷◌, ◌≡◌, true, false, refl, ℤ, pos}
use async_tcpsock.Samples.{quiet_os, net, quiet-Lawful}
use async_tcpsock.Samples.Clients.{client, half}
use async_tcpsock.Client.State.{connected}
use async_tcpsock.Client.Callbacks.{Program, call, done, ApiCall}
use async_tcpsock.Manager.Accepting.{entry, accept_registers}
use async_tcpsock.Manager.Pass.{visit_server}
use async_tcpsock.Client.Api
use async_tcpsock.Client.State.{Sys}
use async_tcpsock.Client.Program.{run}
use async_tcpsock.Manager.Registry.{find_server}
use async_tcpsock.Server
use async_tcpsock.Server.{Site}
use async_tcpsock.Server.Laws.{accept_lem, AcceptOutcome}
use async_tcpsock.Manager.Registry.{visit, Entry, Manager, find, erase}
use async_tcpsock.Client.Events.{_error}
use async_tcpsock.Manager.Deleting.{error_deleting, error_handler_may_not_delete}
use async_tcpsock.Manager.Pass.{done_phase}
use async_tcpsock.Manager.Alive.{done_phase_dangling}

-- A server on port 80, whose handler closes each client.
abbrev site : ℤ → Site quiet_os
site fd = record {
  server = record {
    connection = record { socket = fd; dns_finished = false; last_active = 700 };
    addr = 0;
    port = 80;
    no_delay = true;
    accept_handler = some (call ApiCall.close (λ r. done));
  };
  world = net 3;
  closed = [];
}

accept_lem_example :
    let r = Server.sock_is_readable quiet_os (site (pos 40)) in
    (((site (pos 40)).server.accept_handler ≡ none) × (r ≡ (none, site (pos 40))))
    ⊎ ((handler : Program) × ((site (pos 40)).server.accept_handler ≡ some handler)
        × AcceptOutcome quiet_os quiet-Lawful handler (site (pos 40)) r)
accept_lem_example = accept_lem quiet_os quiet-Lawful (site (pos 40))

-- A registry with one server and one client that has something to write.
abbrev pub one : Entry
one = record { id = 1; client = client connected (pos 54) (half ∷ []); log = [] }

abbrev pub manager : Manager quiet_os
manager = record {
  clients = one ∷ [];
  servers = record { id = 7; server = (site (pos 40)).server; closed = [] } ∷ [];
  next_id = 9;
  world = net 3;
  faulted = false;
}

abbrev pub nothing : Manager quiet_os → Manager quiet_os
nothing m = m

-- Another task that deletes the client.
abbrev delete_one : Manager quiet_os → Manager quiet_os
delete_one m = record m { clients = erase 1 m.clients }

done_phase_dangling_example : (done_phase quiet_os delete_one manager).faulted ≡ true
unfolding erase find
done_phase_dangling_example =
    done_phase_dangling quiet_os delete_one (λ m h. h) one [] manager refl refl

error_handler_may_not_delete_example :
    (error_deleting quiet_os (λ e. false) (pos 104) 1 manager
      ≡ visit quiet_os (λ s. (_error quiet_os (pos 104) s).1) 1 manager)
    × ((error_deleting quiet_os (λ e. true) (pos 104) 1 manager).faulted ≡ true)
error_handler_may_not_delete_example = error_handler_may_not_delete quiet_os (pos 104) 1 manager

-- The client that the server accepts, after the handler has closed it.
abbrev greeted : Sys quiet_os
greeted =
    let w = (quiet_os.accept (pos 40) (quiet_os.now (net 3)).1).1 in
    let made = Api.from_socket quiet_os (pos 55) w in
    let set = (Api.set_no_delay quiet_os true made).1 in
    (run quiet_os (call ApiCall.close (λ r. done)) set).1

accept_registers_example :
    let r = visit_server quiet_os 7 manager in
    (find 9 r.clients ≡ some (entry quiet_os 9 greeted))
    × (r.next_id ≡ 10)
    × (r.world ≡ greeted.world)
    × (r.faulted ≡ false)
unfolding find_server
accept_registers_example =
    accept_registers quiet_os 9 7 55 manager
      (record { id = 7; server = (site (pos 40)).server; closed = [] })
      (call ApiCall.close (λ r. done)) ((omega arith, tt), (refl, tt)) refl refl refl
