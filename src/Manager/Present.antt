-- ===== src/Manager/Present.antt =====
-- Which clients and servers a registry has, and that each phase of the task
-- (src/SocketConnection.tpp) collects only those.
use async_tcpsock.Base.{ℕ, ◌≡◌, refl, true, List, [], ◌∷◌, ℤ, arith, is_some}
use async_tcpsock.Os.{Os}
use async_tcpsock.Manager.Registry.{Entry, ServerEntry, find, find_server, put, put_server, ids}
use async_tcpsock.Manager.Sets.{marked, marked_servers, answered, poll_due, touched}

abbrev pub Has : ℕ → List Entry → Type 0
Has id es = is_some (find id es) ≡ true

abbrev pub HasServer : ℕ → List ServerEntry → Type 0
HasServer id es = is_some (find_server id es) ≡ true

abbrev pub AllHas : List ℕ → List Entry → Type 0
AllHas [] es = Unit {0}
AllHas (id ∷ rest) es = Has id es × AllHas rest es

abbrev pub AllHasServer : List ℕ → List ServerEntry → Type 0
AllHasServer [] es = Unit {0}
AllHasServer (id ∷ rest) es = HasServer id es × AllHasServer rest es

pub find-put :
    (id : ℕ) (x : Entry) (es : List Entry) → is_some (find id (put x es)) ≡ is_some (find id es)
unfolding find put
find-put id x [] = refl
find-put id x (e ∷ es) = ground (arith, find-put id x es)

pub find_server-put :
    (id : ℕ) (x : ServerEntry) (es : List ServerEntry)
    → is_some (find_server id (put_server x es)) ≡ is_some (find_server id es)
unfolding find_server put_server
find_server-put id x [] = refl
find_server-put id x (e ∷ es) = ground (arith, find_server-put id x es)

Has-cons : (id : ℕ) (e : Entry) (es : List Entry) → Has id es → Has id (e ∷ es)
unfolding find
Has-cons id e es h = ground arith

AllHas-cons : (todo : List ℕ) (e : Entry) (es : List Entry) → AllHas todo es → AllHas todo (e ∷ es)
AllHas-cons [] e es h = tt
AllHas-cons (id ∷ rest) e es h = (Has-cons id e es h.0, AllHas-cons rest e es h.1)

Has-self : (e : Entry) (es : List Entry) → Has e.id (e ∷ es)
unfolding find
Has-self e es = ground arith

pub marked-AllHas : (set : List ℤ) (es : List Entry) → AllHas (marked set es) es
unfolding marked
marked-AllHas set [] = tt
marked-AllHas set (e ∷ es) =
    ground (arith, Has-self e es, AllHas-cons (marked set es) e es (marked-AllHas set es))

pub answered-AllHas : (es : List Entry) → AllHas (answered es) es
unfolding answered
answered-AllHas [] = tt
answered-AllHas (e ∷ es) =
    ground (arith, Has-self e es, AllHas-cons (answered es) e es (answered-AllHas es))

pub ids-AllHas : (es : List Entry) → AllHas (ids es) es
ids-AllHas [] = tt
ids-AllHas (e ∷ es) = (Has-self e es, AllHas-cons (ids es) e es (ids-AllHas es))

pub poll_due-AllHas :
    (os : Os) (es : List Entry) (w : os.World)
    → AllHas (poll_due os es w).due (poll_due os es w).clients
unfolding poll_due
poll_due-AllHas os [] w = tt
poll_due-AllHas os (e ∷ es) w =
    let (now, w') = os.now w in
    let rest = poll_due os es w' in
    let ih = poll_due-AllHas os es w' in
    ground (
      arith,
      Has-self (touched os now e) rest.clients,
      AllHas-cons rest.due e rest.clients ih,
      AllHas-cons rest.due (touched os now e) rest.clients ih,
    )

Server-cons :
    (todo : List ℕ) (e : ServerEntry) (es : List ServerEntry)
    → AllHasServer todo es
    → AllHasServer todo (e ∷ es)
unfolding find_server
Server-cons [] e es h = tt
Server-cons (id ∷ rest) e es h = (ground arith, Server-cons rest e es h.1)

Server-self : (e : ServerEntry) (es : List ServerEntry) → HasServer e.id (e ∷ es)
unfolding find_server
Server-self e es = ground arith

pub marked_servers-AllHas :
    (set : List ℤ) (es : List ServerEntry) → AllHasServer (marked_servers set es) es
unfolding marked_servers
marked_servers-AllHas set [] = tt
marked_servers-AllHas set (e ∷ es) = ground (
  arith,
  Server-self e es,
  Server-cons (marked_servers set es) e es (marked_servers-AllHas set es),
)
