-- ===== src/Client/Machine.antt =====
-- The connection states of src/ClientBase.hpp as a state machine whose steps fire CONNECT and
-- DISCONNECT, close descriptors and ask for names.
pub mod Calls
pub mod Tasks
pub mod Told
use async_tcpsock.Base.{
  append-nil, append_assoc, sym, subst, ◌≡◌, ◌≢◌, refl, ap, ◌∙◌, List, [], ◌∷◌, ◌++◌, arith, ℤ,
  Bool, true, false,
}
use async_tcpsock.Os.{Os}
use async_tcpsock.Client.State.{
  Action, invoked, closed, asked, Sys, ConnectionState, disconnected, waiting_for_dns, connecting,
  connected, disconnecting,
}
use async_tcpsock.Connection.{is_open}
use async_tcpsock.Client.Callbacks.{Callback}

-- A state of the machine: the state of the connection, and whether there is a socket.
abbrev pub Place : Type 0
Place = ConnectionState × Bool

-- What a step shows to the surroundings: CONNECT on entering CONNECTED, DISCONNECT on leaving
-- DISCONNECTING, the descriptors that are closed, and that the name of a host is asked for.
pub data Move : Place → Place → List Action → Type 0 where
  resolve : (s : ConnectionState) (o : Bool) → Move (s, o) (waiting_for_dns, o) (asked ∷ [])
  begin : (s : ConnectionState) → Move (s, false) (connecting, true) []
  begin_closed :
      (s : ConnectionState) (fd : ℤ) → Move (s, false) (connecting, true) (closed fd ∷ [])
  refuse : (s : ConnectionState) (fd : ℤ) → Move (s, false) (s, false) (closed fd ∷ [])
  establish :
      (s : ConnectionState) (o : Bool)
      → s ≢ connected
      → Move (s, o) (connected, o) (invoked Callback.connect ∷ [])
  leave :
      (s : ConnectionState) (o : Bool) (fd : ℤ)
      → Move (s, o) (disconnecting, false) (closed fd ∷ [])
  finish : (o : Bool) → Move (disconnecting, o) (disconnected, o) (invoked Callback.disconnect ∷ [])

-- Steps one after the other, with all that they show, the latest first.
pub data Walk (s : Place) : Place → List Action → Type 0 where
  stay : Walk s s []
  then_move :
      {t u : Place} {shown new : List Action}
      → Walk s t shown
      → Move t u new
      → Walk s u (new ++ shown)

pub Walk-trans :
    {s t u : Place} {shown new : List Action}
    → Walk s t shown
    → Walk t u new
    → Walk s u (new ++ shown)
Walk-trans {s = s} {u = u} {shown = shown} w stay = w
Walk-trans {s = s} {u = u} {shown = shown} w (then_move {shown = mid} {new = last} v m) =
    subst (Walk s u) (sym (append_assoc last mid shown)) (then_move (Walk-trans w v) m)

-- CONNECT and DISCONNECT in a log.
abbrev pub events_of : List Action → List Callback
events_of [] = []
events_of (invoked Callback.connect ∷ log) = Callback.connect ∷ events_of log
events_of (invoked Callback.disconnect ∷ log) = Callback.disconnect ∷ events_of log
events_of (a ∷ log) = events_of log

-- What steps show of a log.
abbrev pub seen_of : List Action → List Action
seen_of [] = []
seen_of (invoked Callback.connect ∷ log) = invoked Callback.connect ∷ seen_of log
seen_of (invoked Callback.disconnect ∷ log) = invoked Callback.disconnect ∷ seen_of log
seen_of (closed fd ∷ log) = closed fd ∷ seen_of log
seen_of (asked ∷ log) = asked ∷ seen_of log
seen_of (a ∷ log) = seen_of log

abbrev pub place : {os : Os} → Sys os → Place
place s = (s.client.state, is_open s.client.connection)

-- From one state of a client to another there is a walk that shows what has been added to the log.
pub record Walks (os : Os) (s r : Sys os) : Type 0 where
  pub shown : List Action
  pub walk : Walk (place s) (place r) shown
  pub logged : seen_of r.log ≡ shown ++ seen_of s.log

module _ (os : Os) where
  pub Walks-refl : (s : Sys os) → Walks os s s
  Walks-refl s = record { shown = []; walk = stay; logged = refl }

  pub Walks-trans : (s r q : Sys os) → Walks os s r → Walks os r q → Walks os s q
  Walks-trans s r q a b = record {
    shown = b.shown ++ a.shown;
    walk = Walk-trans a.walk b.walk;
    logged =
        b.logged
        ∙ ap (λ (l : List Action). b.shown ++ l) a.logged
        ∙ sym (append_assoc b.shown a.shown (seen_of s.log));
  }

  -- Neither the place nor what is shown has changed.
  pub Walks-same : (s r : Sys os) → place r ≡ place s → seen_of r.log ≡ seen_of s.log → Walks os s r
  Walks-same s r e l = record {
    shown = [];
    walk = subst (λ (t : Place). Walk (place s) t []) (sym e) stay;
    logged = l;
  }

  -- A single step, between given places.
  pub Walks-move :
      (s r : Sys os) {p q : Place} {new : List Action}
      → Move p q new
      → place s ≡ p
      → place r ≡ q
      → seen_of r.log ≡ new ++ seen_of s.log
      → Walks os s r
  Walks-move s r {p} {q} {new} m d e l = record {
    shown = new ++ [];
    walk =
        subst (λ (u : Place). Walk u (place r) (new ++ [])) (sym d)
          (subst (λ (u : Place). Walk p u (new ++ [])) (sym e) (then_move stay m));
    logged = l ∙ ap (λ (x : List Action). x ++ seen_of s.log) (sym (append-nil new));
  }

  -- An operation that keeps the state, the connection and what is shown.
  abbrev pub Keeps : Sys os → Sys os → Type 0
  Keeps s r =
      (r.client.state ≡ s.client.state)
      × (r.client.connection ≡ s.client.connection)
      × (seen_of r.log ≡ seen_of s.log)

  pub Walks-kept : (s r : Sys os) → Keeps s r → Walks os s r
  Walks-kept s r (state, connection, log) =
      Walks-same s r (λ i. (state i, is_open (connection i))) log
