-- ===== src/Manager/Laws.antt =====
-- The registry and the descriptor sets of src/SocketConnection.hpp and .tpp.
use Prim.Native.Nat.{max}
use async_tcpsock.Base.{
  inr, inl, Bool-cases, ℕ, ◌≤◌, ◌≡◌, Bool, true, false, none, some, List, [], ◌∷◌, ◌++◌, ℤ, is_some,
  minus_one, ◌==ℤ◌, if◌then◌else◌, arith, ◌==◌,
}
use async_tcpsock.Os.{Os}
use async_tcpsock.Connection.{is_open}
use async_tcpsock.Manager.Registry.{
  Entry, ServerEntry, Manager, find, erase, add_connection, remove_connection, has_free_socket,
}
use async_tcpsock.Manager.Sets.{
  Sets, client_set, server_set, client_sets, server_sets, collect_sets, bound_of, fd_isset,
}

pub find-erase :
    (id i : ℕ) (es : List Entry) → find i (erase id es) ≡ (if i == id then none else find i es)
unfolding find erase
find-erase id i [] = ground arith
find-erase id i (e ∷ es) = ground (arith, find-erase id i es)

-- A client that is registered is found.
pub find-appended : (x : Entry) (es : List Entry) → is_some (find x.id (es ++ x ∷ [])) ≡ true
unfolding find
find-appended x [] = ground arith
find-appended x (e ∷ es) = ground (arith, find-appended x es)

pub erase_absent :
    (x : Entry) (es : List Entry) → find x.id es ≡ none → erase x.id (es ++ x ∷ []) ≡ es
unfolding find erase
erase_absent x [] h = ground arith
erase_absent x (e ∷ es) h = ground (arith, erase_absent x es)

-- Registering a client that is not yet registered and unregistering it leaves the registry as it
-- was; and unregistering a client takes off that one and no other.
remove-add_connection :
    (os : Os) (x : Entry) (m : Manager os) (i : ℕ)
    → find x.id m.clients ≡ none
    → (remove_connection os (some x.id) (add_connection os (some x) m) ≡ m)
      × (find i (remove_connection os (some x.id) m).clients
          ≡ (if i == x.id then none else find i m.clients))
unfolding remove_connection add_connection
remove-add_connection os x m i h =
    ground (arith, erase_absent x m.clients h, find-erase x.id i m.clients)

-- Every descriptor of a set is below the bound that `select` is given, and is valid.
abbrev pub Bounded : ℕ → List ℤ → Type 0
Bounded n [] = Unit {0}
Bounded n (fd ∷ fds) = (bound_of fd ≤ n) × ((fd ==ℤ minus_one) ≡ false) × Bounded n fds

Bounded-mono : (m n : ℕ) (fds : List ℤ) → m ≤ n → Bounded m fds → Bounded n fds
Bounded-mono m n [] h b = tt
Bounded-mono m n (fd ∷ fds) h b = (omega arith, b.1, Bounded-mono m n fds h b.2)

abbrev AllBounded : (os : Os) → Sets os → Type 0
AllBounded os sets = Bounded sets.max_sock sets.read_set × Bounded sets.max_sock sets.write_set

module _ (os : Os) where
  client_set-Bounded :
      (e : Entry) (sets : Sets os) → AllBounded os sets → AllBounded os (client_set os e sets)
  unfolding client_set
  client_set-Bounded e sets b =
      let n = max sets.max_sock (bound_of e.client.socket) in
      ground (
        arith,
        b,
        Bounded-mono sets.max_sock n sets.read_set,
        Bounded-mono sets.max_sock n sets.write_set,
      )

  client_sets-Bounded :
      (es : List Entry) (sets : Sets os)
      → AllBounded os sets
      → AllBounded os (client_sets os es sets)
  unfolding client_sets
  client_sets-Bounded [] sets b = b
  client_sets-Bounded (e ∷ es) sets b =
      client_sets-Bounded es (client_set os e sets) (client_set-Bounded e sets b)

  server_set-Bounded :
      (free : Bool) (e : ServerEntry) (sets : Sets os)
      → AllBounded os sets
      → AllBounded os (server_set os free e sets)
  unfolding server_set
  server_set-Bounded free e sets b =
      let n = max sets.max_sock (bound_of e.server.socket) in
      ground (
        arith,
        b,
        Bounded-mono sets.max_sock n sets.read_set,
        Bounded-mono sets.max_sock n sets.write_set,
      )

  server_sets-Bounded :
      (free : Bool) (es : List ServerEntry) (sets : Sets os)
      → AllBounded os sets
      → AllBounded os (server_sets os free es sets)
  unfolding server_sets
  server_sets-Bounded free [] sets b = b
  server_sets-Bounded free (e ∷ es) sets b =
      server_sets-Bounded free es (server_set os free e sets) (server_set-Bounded free e sets b)

  client_sets-grow :
      (es : List Entry) (sets : Sets os) (fd : ℤ)
      → fd_isset fd sets.read_set ≡ true
      → fd_isset fd (client_sets os es sets).read_set ≡ true
  unfolding client_sets client_set fd_isset
  client_sets-grow [] sets fd h = h
  client_sets-grow (e ∷ es) sets fd h = client_sets-grow es (client_set os e sets) fd (ground arith)

  server_sets-grow :
      (free : Bool) (es : List ServerEntry) (sets : Sets os) (fd : ℤ)
      → fd_isset fd sets.read_set ≡ true
      → fd_isset fd (server_sets os free es sets).read_set ≡ true
  unfolding server_sets server_set fd_isset
  server_sets-grow free [] sets fd h = h
  server_sets-grow free (e ∷ es) sets fd h =
      server_sets-grow free es (server_set os free e sets) fd (ground arith)

  client_set_read :
      (e : Entry) (sets : Sets os)
      → is_open e.client.connection ≡ true
      → fd_isset e.client.socket (client_set os e sets).read_set ≡ true
  unfolding client_set is_open fd_isset
  client_set_read e sets o = ground arith

  client_read :
      (id : ℕ) (es : List Entry) (sets : Sets os) (e : Entry)
      → find id es ≡ some e
      → is_open e.client.connection ≡ true
      → fd_isset e.client.socket (client_sets os es sets).read_set ≡ true
  unfolding client_sets find
  client_read id [] sets e f o = cc
  client_read id (x ∷ es) sets e f o =
      let next = client_set os x sets in
      elim (Bool-cases (x.id == id)) [
        | inl hit ↦
            (let same : x ≡ e = ground arith in
              rw (← same)
                (client_sets-grow es next x.client.socket (client_set_read x sets (rw same o))))
        | inr miss ↦ client_read id es next e (ground arith) o
      ]

  pub collect_sets-Bounded : (m : Manager os) → AllBounded os (collect_sets os m)
  unfolding collect_sets
  collect_sets-Bounded m =
      let empty : Sets os = record {
        max_sock = 0;
        read_set = [];
        write_set = [];
        world = m.world;
      } in
      server_sets-Bounded (has_free_socket os m) m.servers (client_sets os m.clients empty)
        (client_sets-Bounded m.clients empty (tt, tt))

  -- The task waits on the socket of every registered client that has one, on valid descriptors
  -- alone, and gives `select` a bound above all of them.
  collect_sets_lem :
      (m : Manager os) (id : ℕ) (e : Entry)
      → find id m.clients ≡ some e
      → is_open e.client.connection ≡ true
      → let sets = collect_sets os m in
        (fd_isset e.client.socket sets.read_set ≡ true)
        × Bounded sets.max_sock sets.read_set
        × Bounded sets.max_sock sets.write_set
  unfolding collect_sets
  collect_sets_lem m id e f o =
      let empty : Sets os = record {
        max_sock = 0;
        read_set = [];
        write_set = [];
        world = m.world;
      } in
      let from_clients = client_sets os m.clients empty in
      let free = has_free_socket os m in
      let bounded = collect_sets-Bounded m in
      (
        server_sets-grow free m.servers from_clients e.client.socket
            (client_read id m.clients empty e f o),
        bounded.0,
        bounded.1,
      )
