-- ===== src/Manager/System/Safe.antt =====
-- A program that deletes its clients and servers between the rounds of the task
-- (src/SocketConnection.tpp) is safe.
use async_tcpsock.Base.{
  ◌≡◌, refl, ◌∙◌, ℕ, ◌+◌, false, Option, none, some, List, [], ◌∷◌, is_some, arith, Option-cases,
  inl, inr,
}
use async_tcpsock.Os.{Os}
use async_tcpsock.Os.Laws.{Lawful}
use async_tcpsock.Client.Callbacks.{Program}
use async_tcpsock.Client.Program.{run}
use async_tcpsock.Client.Api
use async_tcpsock.Client.Invariant.Programs.{run-Inv}
use async_tcpsock.Client.History.{new-Inv}
use async_tcpsock.Manager.Registry.{
  Entry, ServerEntry, Manager, find, find_server, erase, ids, call_on, add_connection,
  remove_connection, add_server, remove_server,
}
use async_tcpsock.Manager.Alive.{IsTame, update_alive, call_on-Has}
use async_tcpsock.Manager.Keeps.{AllInv, call_on-Inv, find-Inv, append-Inv, update-Inv}
use async_tcpsock.Manager.Numbered.{
  Numbered, Below-grow, Numbered-append, Numbered-erase, call_on-Numbered, update-Numbered,
}
use async_tcpsock.Manager.Lifecycle.{
  new_manager, new_client, destroy_client, new_server, destroy_server, manage_client, manage_server,
  unmanage_client, unmanage_server,
}
use async_tcpsock.Manager.System.{
  SystemStep, ServerCall, make_client, drop_client, make_server, drop_server, use_client,
  use_server, round, on_found, call_client, others, drop_found, drop_found_server, use_found_server,
  system_step, system,
}

-- No function was called on an object that was not registered; no client is registered twice; every client
-- keeps its invariant.
pub record Sound (os : Os) (m : Manager os) : Type 0 where
  pub alive : m.faulted ≡ false
  pub numbered : Numbered os m
  pub clients : AllInv os m.clients

module _ (os : Os) where
  -- Code of other threads is tame.
  call_client_tame :
      (id : ℕ) (p : Program) (o : Option Entry) (m : Manager os)
      → ((on_found os id p o m).faulted ≡ m.faulted)
        × ((on_found os id p o m).servers ≡ m.servers)
        × ((i : ℕ) → is_some (find i (on_found os id p o m).clients) ≡ is_some (find i m.clients))
  unfolding on_found call_on
  call_client_tame id p none m = (refl, refl, λ i. refl)
  call_client_tame id p (some e) m =
      (refl, refl, λ i. call_on-Has os (λ s. (run os p s).1) id (some e) m i)

  others_tame :
      (calls : List (ℕ × Program)) (m : Manager os)
      → ((others os calls m).faulted ≡ m.faulted)
        × ((others os calls m).servers ≡ m.servers)
        × ((i : ℕ) → is_some (find i (others os calls m).clients) ≡ is_some (find i m.clients))
  unfolding others call_client
  others_tame [] m = (refl, refl, λ i. refl)
  others_tame ((id, p) ∷ rest) m =
      let first = call_client_tame id p (find id m.clients) m in
      let later = others_tame rest (on_found os id p (find id m.clients) m) in
      (later.0 ∙ first.0, later.1 ∙ first.1, λ i. later.2 i ∙ first.2 i)

  others-IsTame : (calls : List (ℕ × Program)) → IsTame os (others os calls)
  others-IsTame calls = record {
    keeps = λ m id h. (others_tame calls m).2 id ∙ h;
    keeps_servers = λ m id h. rw ((others_tame calls m).1) h;
    quiet = λ m. (others_tame calls m).0;
  }

  on_found-Numbered :
      (id : ℕ) (p : Program) (o : Option Entry) (m : Manager os)
      → Numbered os m
      → Numbered os (on_found os id p o m)
  unfolding on_found
  on_found-Numbered id p none m h = h
  on_found-Numbered id p (some e) m h = call_on-Numbered os (λ s. (run os p s).1) id (some e) m h

  others-Numbered :
      (calls : List (ℕ × Program)) (m : Manager os)
      → Numbered os m
      → Numbered os (others os calls m)
  unfolding others call_client
  others-Numbered [] m h = h
  others-Numbered ((id, p) ∷ rest) m h =
      others-Numbered rest _ (on_found-Numbered id p (find id m.clients) m h)

  erase-Inv : (id : ℕ) (es : List Entry) → AllInv os es → AllInv os (erase id es)
  unfolding erase
  erase-Inv id [] h = tt
  erase-Inv id (e ∷ es) h = ground (arith, erase-Inv id es h.1)

module _ (os : Os) (laws : Lawful os) where
  on_found-Inv :
      (id : ℕ) (p : Program) (m : Manager os)
      → AllInv os m.clients
      → AllInv os (call_client os id p m).clients
  unfolding call_client on_found
  on_found-Inv id p m h = elim (Option-cases (find id m.clients)) [
    | inl e ↦ rw e h
    | inr (x, e) ↦ rw e (
        call_on-Inv os (λ s. (run os p s).1) id (some x) m (λ s i. run-Inv os laws p s i)
          (λ y f. find-Inv os id m.clients y h (e ∙ f)) h)
  ]

  others-Inv :
      (calls : List (ℕ × Program)) (m : Manager os)
      → AllInv os m.clients
      → AllInv os (others os calls m).clients
  unfolding others
  others-Inv [] m h = h
  others-Inv ((id, p) ∷ rest) m h = others-Inv rest _ (on_found-Inv id p m h)

  drop-Sound :
      (id : ℕ) (m : Manager os) → Sound os m → Sound os (drop_found os (find id m.clients) m)
  unfolding drop_found destroy_client unmanage_client remove_connection
  drop-Sound id m h = elim (Option-cases (find id m.clients)) [
    | inl e ↦ rw e h
    | inr (x, e) ↦ rw e (record {
      alive = h.alive;
      numbered = Numbered-erase os m (drop_found os (some x) m) x.id refl refl h.numbered;
      clients = erase-Inv os x.id m.clients h.clients;
    })
  ]

  drop_server-Sound :
      (o : Option ServerEntry) (m : Manager os) → Sound os m → Sound os (drop_found_server os o m)
  unfolding drop_found_server destroy_server unmanage_server remove_server
  drop_server-Sound none m h = h
  drop_server-Sound (some e) m h = record {
    alive = h.alive;
    numbered = h.numbered;
    clients = h.clients;
  }

  use_server-Sound :
      (c : ServerCall) (o : Option ServerEntry) (m : Manager os)
      → Sound os m
      → Sound os (use_found_server os c o m)
  unfolding use_found_server
  use_server-Sound c none m h = h
  use_server-Sound c (some e) m h = record {
    alive = h.alive;
    numbered = h.numbered;
    clients = h.clients;
  }

  make-Sound : (m : Manager os) → Sound os m → Sound os (new_client os m).1
  unfolding new_client manage_client add_connection
  make-Sound m h = record {
    alive = h.alive;
    numbered =
        Numbered-append os m
          (record {
            id = m.next_id;
            client = (Api.new os m.world).client;
            log = (Api.new os m.world).log;
          })
          (new_client os m).1 refl refl refl h.numbered;
    clients = append-Inv os m.clients _ h.clients (new-Inv os laws m.world);
  }

  -- The addresses of servers are taken from the same source.
  make_server-Sound :
      (addr port : ℕ) (m : Manager os) → Sound os m → Sound os (new_server os addr port m).1
  unfolding new_server manage_server add_server
  make_server-Sound addr port m h = record {
    alive = h.alive;
    numbered = (
      Below-grow m.next_id (m.next_id + 1) (ids m.clients) (omega arith) h.numbered.0,
      h.numbered.1,
    );
    clients = h.clients;
  }

  pub step-Sound : (st : SystemStep) (m : Manager os) → Sound os m → Sound os (system_step os st m)
  unfolding system_step call_client others
  step-Sound make_client m h = make-Sound m h
  step-Sound (drop_client id) m h = drop-Sound id m h
  step-Sound (make_server addr port) m h = make_server-Sound addr port m h
  step-Sound (drop_server id) m h = drop_server-Sound (find_server id m.servers) m h
  step-Sound (use_client id p) m h = record {
    alive = (others_tame os ((id, p) ∷ []) m).0 ∙ h.alive;
    numbered = others-Numbered os ((id, p) ∷ []) m h.numbered;
    clients = on_found-Inv id p m h.clients;
  }
  step-Sound (use_server id c) m h = use_server-Sound c (find_server id m.servers) m h
  step-Sound (round calls) m h = record {
    alive = update_alive os (others os calls) (others-IsTame os calls) m ∙ h.alive;
    numbered = update-Numbered os (others os calls) (others-Numbered os calls) m h.numbered;
    clients = update-Inv os laws (others os calls) (others-Inv calls) m h.clients;
  }

  pub system-Sound :
      (sts : List SystemStep) (m : Manager os) → Sound os m → Sound os (system os sts m)
  unfolding system
  system-Sound [] m h = h
  system-Sound (st ∷ sts) m h = system-Sound sts (system_step os st m) (step-Sound st m h)

  -- If writes accept at most what they are given and the descriptor -1 has no status, then a
  -- program that makes and deletes clients and servers between the rounds of the task, calls
  -- functions on those that are registered, and lets the task do rounds, in which other threads run
  -- code on the clients, in any order, never has a function called on one that is not registered;
  -- no client is registered twice; and every client keeps its invariant.
  pub new-Sound :
      (w : os.World) (sts : List SystemStep) → Sound os (system os sts (new_manager os w))
  unfolding new_manager
  new-Sound w sts =
      system-Sound sts (new_manager os w)
        (record { alive = refl; numbered = (tt, tt); clients = tt })
