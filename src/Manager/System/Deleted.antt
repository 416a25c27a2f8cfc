-- ===== src/Manager/System/Deleted.antt =====
-- A client that a program has deleted (src/Client.cpp, src/AsyncTCP.cpp) stays out of the registry
-- (src/SocketConnection.hpp), so that the task does not call it again.
use async_tcpsock.Base.{
  ◌≡◌, refl, ◌∙◌, ap, ℕ, ◌<◌, false, Option, none, some, List, [], ◌∷◌, arith, Option-cases, inl,
  inr,
}
use async_tcpsock.Os.{Os}
use async_tcpsock.Os.Laws.{Lawful}
use async_tcpsock.Client.State.{Sys}
use async_tcpsock.Client.Api
use async_tcpsock.Client.Callbacks.{Program}
use async_tcpsock.Client.Program.{run}
use async_tcpsock.Server.{Accepted}
use async_tcpsock.Manager.Registry.{
  Entry, ServerEntry, Manager, find, find_server, ids, visit, call_on, add_connection,
  remove_connection, add_server, remove_server,
}
use async_tcpsock.Manager.Pass.{register, enlist, call_server, visit_server}
use async_tcpsock.Manager.Phases.{Kept, update-Kept}
use async_tcpsock.Manager.Numbered.{
  has_id, find-id, ids-put, ids-poll_due, has_id-append, has_id-erase,
}
use async_tcpsock.Manager.Lifecycle.{
  new_manager, new_client, destroy_client, new_server, destroy_server, manage_client, manage_server,
  unmanage_client, unmanage_server,
}
use async_tcpsock.Manager.Lifecycle.Deleting.{find_unknown}
use async_tcpsock.Manager.System.{
  SystemStep, make_client, drop_client, make_server, drop_server, use_client, use_server, round,
  on_found, call_client, others, drop_found, drop_found_server, use_found_server, ServerCall,
  system_step, system,
}
use async_tcpsock.Manager.System.Safe.{Sound, system-Sound, step-Sound, new-Sound}

find-has_id : (id : ℕ) (es : List Entry) → find id es ≡ none → has_id id (ids es) ≡ false
unfolding find
find-has_id id [] h = refl
find-has_id id (e ∷ es) h = ground (arith, find-has_id id es)

module _ (os : Os) (id : ℕ) where
  -- The address was given to an object, and no client is registered there.
  abbrev Gone : Manager os → Type 0
  Gone m = (id < m.next_id) × (has_id id (ids m.clients) ≡ false)

  call_on-Gone :
      (op : Sys os → Sys os) (i : ℕ) (o : Option Entry) (m : Manager os)
      → Gone m
      → Gone (call_on os op i o m)
  unfolding call_on
  call_on-Gone op i none m g = g
  call_on-Gone op i (some e) m g = (g.0, ap (has_id id) (ids-put _ m.clients) ∙ g.1)

  visit-Gone : (op : Sys os → Sys os) (i : ℕ) (m : Manager os) → Gone m → Gone (visit os op i m)
  unfolding visit
  visit-Gone op i m g = call_on-Gone op i (find i m.clients) m g

  enlist-Gone : (s : Sys os) (m : Manager os) → Gone m → Gone (enlist os s m)
  unfolding enlist add_connection
  enlist-Gone s m g =
      let x : Entry = record { id = m.next_id; client = s.client; log = s.log } in
      ground (arith, g, has_id-append id m.clients x)

  register-Gone : (o : Option (Accepted os)) (m : Manager os) → Gone m → Gone (register os o m)
  unfolding register
  register-Gone none m g = g
  register-Gone (some made) m g =
      visit-Gone made.greeting m.next_id (enlist os made.client m) (enlist-Gone made.client m g)

  accept-Gone :
      (i : ℕ) (o : Option ServerEntry) (m : Manager os) → Gone m → Gone (call_server os i o m)
  unfolding call_server
  accept-Gone i none m g = g
  accept-Gone i (some e) m g = register-Gone _ _ g

  on_found-Gone :
      (i : ℕ) (p : Program) (o : Option Entry) (m : Manager os)
      → Gone m
      → Gone (on_found os i p o m)
  unfolding on_found
  on_found-Gone i p none m g = g
  on_found-Gone i p (some e) m g = call_on-Gone (λ s. (run os p s).1) i (some e) m g

  others-Gone : (calls : List (ℕ × Program)) (m : Manager os) → Gone m → Gone (others os calls m)
  unfolding others call_client
  others-Gone [] m g = g
  others-Gone ((i, p) ∷ rest) m g = others-Gone rest _ (on_found-Gone i p (find i m.clients) m g)

  Gone-Kept : (calls : List (ℕ × Program)) → Kept os (others os calls) Gone
  unfolding visit_server
  Gone-Kept calls = record {
    by_others = others-Gone calls;
    by_visit = visit-Gone;
    by_accept = λ i m g. accept-Gone i (find_server i m.servers) m g;
    by_world = λ w m g. g;
    by_polling = λ m g. (g.0, ap (has_id id) (ids-poll_due os m.clients m.world) ∙ g.1);
  }

  drop-Gone : (o : Option Entry) (m : Manager os) → Gone m → Gone (drop_found os o m)
  unfolding drop_found destroy_client unmanage_client remove_connection
  drop-Gone none m g = g
  drop-Gone (some e) m g = (g.0, ground (arith, g, has_id-erase id e.id m.clients))

  drop_server-Gone :
      (o : Option ServerEntry) (m : Manager os) → Gone m → Gone (drop_found_server os o m)
  unfolding drop_found_server destroy_server unmanage_server remove_server
  drop_server-Gone none m g = g
  drop_server-Gone (some e) m g = g

  use_server-Gone :
      (c : ServerCall) (o : Option ServerEntry) (m : Manager os)
      → Gone m
      → Gone (use_found_server os c o m)
  unfolding use_found_server
  use_server-Gone c none m g = g
  use_server-Gone c (some e) m g = g

  make-Gone : (m : Manager os) → Gone m → Gone (new_client os m).1
  unfolding new_client manage_client add_connection
  make-Gone m g = ground (
    arith,
    g,
    has_id-append id m.clients (record {
      id = m.next_id;
      client = (Api.new os m.world).client;
      log = (Api.new os m.world).log;
    }),
  )

  step-Gone : (st : SystemStep) (m : Manager os) → Gone m → Gone (system_step os st m)
  unfolding system_step call_client new_server manage_server add_server
  step-Gone make_client m g = make-Gone m g
  step-Gone (drop_client i) m g = drop-Gone (find i m.clients) m g
  step-Gone (make_server addr port) m g = (omega (arith, g.0), g.1)
  step-Gone (drop_server i) m g = drop_server-Gone (find_server i m.servers) m g
  step-Gone (use_client i p) m g = on_found-Gone i p (find i m.clients) m g
  step-Gone (use_server i c) m g = use_server-Gone c (find_server i m.servers) m g
  step-Gone (round calls) m g = update-Kept os (others os calls) Gone (Gone-Kept calls) m g

  system-Gone : (sts : List SystemStep) (m : Manager os) → Gone m → Gone (system os sts m)
  unfolding system
  system-Gone [] m g = g
  system-Gone (st ∷ sts) m g = system-Gone sts (system_step os st m) (step-Gone st m g)

  -- Deleting takes the client off.
  dropped-Gone : (m : Manager os) → id < m.next_id → Gone (system_step os (drop_client id) m)
  unfolding system_step drop_found destroy_client unmanage_client remove_connection
  dropped-Gone m b = elim (Option-cases (find id m.clients)) [
    | inl e ↦ rw (e, drop_found) (b, find-has_id id m.clients e)
    | inr (x, e) ↦
        (let same = find-id id m.clients x e in
          rw (e, drop_found) (b, ground (arith, same, has_id-erase id x.id m.clients)))
  ]

module _ (os : Os) (laws : Lawful os) where
  -- If writes accept at most what they are given and the descriptor -1 has no status, then in a
  -- program that makes and deletes clients and servers between the rounds of the task, uses those
  -- that are registered, and lets the task do rounds, in which other threads run code on the
  -- clients, in any order: a client that is deleted, at an address that was given to an object
  -- before, is registered no more, whatever the program does later; no function is ever called on
  -- a client or server that is not registered; no client is registered twice; and every client
  -- keeps its invariant: a free mutex, the space accounted for, and a socket if it is connected.
  pub deleted_stays_gone :
      (w : os.World) (before after : List SystemStep) (id : ℕ)
      → let m = system os before (new_manager os w) in
        id < m.next_id
        → let r = system os after (system_step os (drop_client id) m) in
          (find id r.clients ≡ none) × Sound os r
  deleted_stays_gone w before after id known =
      let m = system os before (new_manager os w) in
      let dropped = system_step os (drop_client id) m in
      let (_, out) = system-Gone os id after dropped (dropped-Gone os id m known) in
      let sound = step-Sound os laws (drop_client id) m (new-Sound os laws w before) in
      (
        find_unknown id (system os after dropped).clients out,
        system-Sound os laws after dropped sound,
      )
