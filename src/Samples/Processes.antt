-- ===== src/Samples/Processes.antt =====
-- The manager's task and types.
use async_tcpsock.Base.{
  Bool, true, false, not, arith, ltb, ◌+◌, if◌then◌else◌, none, some, List, [], ◌∷◌, ◌≡◌, refl,
}
use async_tcpsock.Configuration.{use_wdt}
use async_tcpsock.Samples.{quiet_os, net}
use async_tcpsock.Samples.Tasks.{one}
use async_tcpsock.Manager.Registry.{Manager}
use async_tcpsock.Manager.Lifecycle.{new_client}
use async_tcpsock.Manager.Watchdog.{Watchdog, Watched, guarded_update}
use async_tcpsock.Manager.Watchdog.Balanced.{Watches, guarded_update-IsFree}
use async_tcpsock.Manager.Sets.{collect_sets}
use async_tcpsock.Os.{Os}
use async_tcpsock.Manager.Concepts.{
  client_variant, server_variant, client_class, server_class, managed_client, managed_server,
  managed_connection, is_variant_of_client_pointers, is_variant_of_server_pointers,
}
use async_tcpsock.Manager.Worker.{Rtos, absent, uses, Outcome, uses_one_manager}

-- A system that has memory for the task after a second.
abbrev rtos : Rtos quiet_os
rtos = record {
  create = λ t w. (
    if ltb w.clock 1_000_000_000 then none else some 7,
    record w { clock = w.clock + 1_000_000_000 },
  );
  delete = λ handle w. w;
}

-- The constructor of a client.
abbrev making : Manager quiet_os → Manager quiet_os
making m = (new_client quiet_os m).1

uses_one_manager_example :
    let fs : List (Manager quiet_os → Manager quiet_os) = making ∷ making ∷ making ∷ [] in
    Outcome quiet_os rtos fs (net 9) (uses quiet_os rtos fs (absent (net 9)))
uses_one_manager_example = uses_one_manager quiet_os rtos (making ∷ making ∷ making ∷ []) (net 9)

-- The variants, and the assertions of src/AsyncTCP.h.
client_variant_accepted : is_variant_of_client_pointers client_variant ≡ true
unfolding is_variant_of_client_pointers managed_client managed_connection client_class
client_variant_accepted = refl

server_variant_accepted : is_variant_of_server_pointers server_variant ≡ true
unfolding is_variant_of_server_pointers managed_server managed_connection server_class
server_variant_accepted = refl

asserted : (managed_client client_class ≡ true) × (managed_server server_class ≡ true)
unfolding managed_client managed_server managed_connection client_class server_class
asserted = (refl, refl)

-- A watchdog that knows whether the task is watched.
abbrev watchdog : Watchdog Bool
watchdog = record { add = λ s. (not s, true); delete = λ s. (s, false) }

watchdog-Watches : Watches watchdog (λ s. s)
watchdog-Watches = record {
  adds = λ s h. ground (arith, h);
  added = λ s h. refl;
  deletes = λ s h. h;
  deleted = λ s h. refl;
}

abbrev watched : Os
watched = Watched Bool quiet_os

-- A connected client has something to write.
abbrev writing : Manager watched
writing = record {
  clients = one ∷ [];
  servers = [];
  next_id = 2;
  world = (net 9, (false, 0));
  faulted = false;
}

guarded_update-IsFree_example :
    let waits = (collect_sets watched writing).world in
    let r = guarded_update Bool quiet_os use_wdt watchdog (λ m. m) writing in
    ((waits.1.0 ≡ false) × (waits.1.1 ≡ 0)) × ((r.world.1.0 ≡ false) × (r.world.1.1 ≡ 0))
guarded_update-IsFree_example =
    guarded_update-IsFree Bool quiet_os use_wdt watchdog (λ s. s) watchdog-Watches (λ m. m)
      (λ m. refl) 0 writing (refl, refl)
