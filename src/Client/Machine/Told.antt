-- ===== src/Client/Machine/Told.antt =====
-- What the user of a client of src/ClientBase.tpp knows of its state from CONNECT and DISCONNECT.
use async_tcpsock.Base.{
  ap, false, sym, ◌≡◌, refl, ◌⊎◌, inl, inr, ◌∙◌, ℕ, Option, none, some, List, [], ◌∷◌, append-nil,
  arith, true,
}
use async_tcpsock.Os.{Os}
use async_tcpsock.Client.State.{
  Action, invoked, closed, asked, Sys, ConnectionState, disconnected, connecting, is_connected,
}
use async_tcpsock.Client.Callbacks.{Callback}
use async_tcpsock.Client.Api
use async_tcpsock.Connection
use async_tcpsock.Connection.{is_open}
use async_tcpsock.Client.Api.Connecting.{connect_lem}
use async_tcpsock.Client.Events.{processing_done}
use async_tcpsock.Client.Fires.{invoked_of, connect_fires, close_fires}
use async_tcpsock.Client.Fires.Events.{processing_done_fires}
use async_tcpsock.Client.History.{Step, history}
use async_tcpsock.Client.Machine.{
  invoked, closed, Action, Walk, stay, then_move, resolve, begin, establish, leave, finish,
  begin_closed, refuse, Place, seen_of, events_of,
}
use async_tcpsock.Client.Machine.Tasks.{history-Walks}

abbrev pub first_of : List Callback → Option Callback
first_of [] = none
first_of (event ∷ events) = some event

-- A state and the last of CONNECT and DISCONNECT, if there was one.
abbrev pub Agrees : ConnectionState → Option Callback → Type 0
Agrees t last =
    (is_connected t ≡ true → last ≡ some Callback.connect)
    × (t ≡ disconnected → (last ≡ none) ⊎ (last ≡ some Callback.disconnect))

events_of-seen_of : (log : List Action) → events_of (seen_of log) ≡ events_of log
events_of-seen_of [] = refl
events_of-seen_of (closed fd ∷ log) = events_of-seen_of log
events_of-seen_of (asked ∷ log) = events_of-seen_of log
events_of-seen_of (invoked Callback.connect ∷ log) =
    ap (λ (l : List Callback). Callback.connect ∷ l) (events_of-seen_of log)
events_of-seen_of (invoked Callback.disconnect ∷ log) =
    ap (λ (l : List Callback). Callback.disconnect ∷ l) (events_of-seen_of log)
events_of-seen_of (invoked Callback.poll ∷ log) = events_of-seen_of log
events_of-seen_of (invoked (Callback.sent n t) ∷ log) = events_of-seen_of log
events_of-seen_of (invoked (Callback.recv bs) ∷ log) = events_of-seen_of log
events_of-seen_of (invoked (Callback.error e) ∷ log) = events_of-seen_of log
events_of-seen_of (invoked (Callback.timeout t) ∷ log) = events_of-seen_of log

Walk-Agrees :
    {t : Place} {shown : List Action}
    → Walk (disconnected, false) t shown
    → Agrees t.0 (first_of (events_of shown))
Walk-Agrees stay = (λ c. ground arith, λ d. inl refl)
Walk-Agrees (then_move w (resolve s o)) = (λ c. ground arith, λ d. ground arith)
Walk-Agrees (then_move w (begin s)) = (λ c. ground arith, λ d. ground arith)
Walk-Agrees (then_move w (begin_closed s fd)) = (λ c. ground arith, λ d. ground arith)
Walk-Agrees (then_move w (refuse s fd)) = Walk-Agrees w
Walk-Agrees (then_move w (establish s o n)) = (λ c. refl, λ d. ground arith)
Walk-Agrees (then_move w (leave s o fd)) = (λ c. ground arith, λ d. ground arith)
Walk-Agrees (then_move w (finish o)) = (λ c. ground arith, λ d. inr refl)

module _ (os : Os) where
  -- After any sequence of calls on a new client, the user can tell its state from the callbacks: a
  -- client is connected only if the last of CONNECT and DISCONNECT was CONNECT, and disconnected
  -- only if it was DISCONNECT or neither has fired.
  pub new-Agrees :
      (w : os.World) (sts : List Step)
      → let r = history os sts (Api.new os w) in Agrees r.client.state (first_of (events_of r.log))
  unfolding Api.new is_open Connection.new
  new-Agrees w sts =
      let walks = history-Walks os sts (Api.new os w) in
      let log = (history os sts (Api.new os w)).log in
      let e : events_of log ≡ events_of walks.shown =
        sym (events_of-seen_of log) ∙ ap events_of (walks.logged ∙ append-nil walks.shown) in
      rw e (Walk-Agrees walks.walk)

  -- If a client is closed and connected again before its processing is done, its processing then
  -- fires nothing and leaves it connecting: the DISCONNECT of the close is never fired.
  pub reconnect_silent :
      (ip port : ℕ) (s : Sys os)
      → let r = Api.connect os ip port (Api.close os s).1 in
        r.0 ≡ true
        → (invoked_of (processing_done os r.1).1.log ≡ invoked_of s.log)
          × ((processing_done os r.1).1.client.state ≡ connecting)
  unfolding processing_done
  reconnect_silent ip port s ok =
      let s1 = (Api.close os s).1 in
      ground (
        arith,
        ok,
        connect_lem os ip port s1,
        connect_fires os ip port s1,
        close_fires os s,
        processing_done_fires os (Api.connect os ip port s1).1,
      )
