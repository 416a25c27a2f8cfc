-- ===== src/Client/Machine/Calls.antt =====
-- The public functions of src/ClientBase.tpp, and handlers, as walks of the state machine.
use async_tcpsock.Base.{
  ◌≡◌, refl, ◌⊎◌, inl, inr, ℕ, Option, none, some, List, ◌∷◌, arith, true, false, Bool, ℤ, pos,
  minus_one, ◌∙◌,
}
use async_tcpsock.Os.{Os, Ret, ok, failed, DnsRet, resolved, in_progress, error}
use async_tcpsock.Flags.{ClientApiFlags}
use async_tcpsock.Connection.{is_open}
use async_tcpsock.Client.State.{Sys, connecting, disconnecting, invoked, closed}
use async_tcpsock.Client.Callbacks.{
  ApiCall, Program, done, call, ask, on, off, Callback, Handler, handler_of,
}
use async_tcpsock.Client.Program.{perform, run, dispatch, invoke}
use async_tcpsock.Client.Queue
use async_tcpsock.Client.Api
use async_tcpsock.Client.Machine.{
  Walks, Walks-refl, Walks-same, Walks-move, Walks-trans, resolve, begin, begin_closed, refuse,
  leave, seen_of, Keeps, Walks-kept,
}

-- The descriptor that socket() gave.
abbrev created : Ret → ℤ
created (ok fd) = pos fd
created (failed e) = minus_one

module _ (os : Os) where
  -- `connect` changes nothing that is shown, or has closed the new descriptor, or has begun.
  abbrev Begins : ℤ → Sys os → Sys os → Type 0
  Begins fd s r =
      ((r.client ≡ s.client) × (seen_of r.log ≡ seen_of s.log))
      ⊎ ((is_open s.client.connection ≡ false)
          × (((r.client ≡ s.client) × (seen_of r.log ≡ closed fd ∷ seen_of s.log))
              ⊎ ((r.client.state ≡ connecting)
                  × (is_open r.client.connection ≡ true)
                  × ((seen_of r.log ≡ seen_of s.log)
                      ⊎ (seen_of r.log ≡ closed fd ∷ seen_of s.log)))))

  connect-Begins :
      (ip port : ℕ) (s : Sys os)
      → Begins (created (os.socket s.world).0) s (Api.connect os ip port s).1
  unfolding Api.connect
  connect-Begins ip port s = ground arith

  Begins-Walks : (fd : ℤ) (s r : Sys os) → Begins fd s r → Walks os s r
  Begins-Walks fd s r (inl (same, log)) =
      Walks-same os s r (λ i. ((same i).state, is_open ((same i).connection))) log
  Begins-Walks fd s r (inr (shut, inl (same, log))) =
      Walks-move os s r (refuse s.client.state fd) (λ i. (s.client.state, shut i))
        (λ i. ((same i).state, ((λ j. is_open ((same j).connection)) ∙ shut) i)) log
  Begins-Walks fd s r (inr (shut, inr (state, opened, inl log))) =
      Walks-move os s r (begin s.client.state) (λ i. (s.client.state, shut i))
        (λ i. (state i, opened i)) log
  Begins-Walks fd s r (inr (shut, inr (state, opened, inr log))) =
      Walks-move os s r (begin_closed s.client.state fd) (λ i. (s.client.state, shut i))
        (λ i. (state i, opened i)) log

  pub connect-Walks : (ip port : ℕ) (s : Sys os) → Walks os s (Api.connect os ip port s).1
  connect-Walks ip port s =
      Begins-Walks (created (os.socket s.world).0) s _ (connect-Begins ip port s)

  answered-Walks :
      (answer : DnsRet) (port : ℕ) (s : Sys os) → Walks os s (Api.after_query os port answer s).1
  unfolding Api.after_query
  answered-Walks (resolved ip) port s = connect-Walks ip port s
  answered-Walks in_progress port s =
      Walks-move os s _ (resolve s.client.state (is_open s.client.connection)) refl refl refl
  answered-Walks (error e) port s = Walks-refl os s

  connect_host-Walks :
      (host : List ℕ) (port : ℕ) (s : Sys os) → Walks os s (Api.connect_host os host port s).1
  unfolding Api.connect_host
  connect_host-Walks host port s =
      let (answer, w) = os.gethostbyname host s.world in
      let asked' = record s { world = w } in
      Walks-trans os s asked' _ (Walks-same os s asked' refl refl)
        (answered-Walks answer port asked')

  _close_place :
      (s : Sys os)
      → let r = (Api._close os s).1 in
        (r.client.state ≡ disconnecting)
        × (is_open r.client.connection ≡ false)
        × (seen_of r.log ≡ closed s.client.socket ∷ seen_of s.log)
  unfolding Api._close is_open
  _close_place s = ground arith

  pub _close-Walks : (s : Sys os) → Walks os s (Api._close os s).1
  _close-Walks s =
      let (state, shut, log) = _close_place s in
      Walks-move os s (Api._close os s).1
        (leave s.client.state (is_open s.client.connection) s.client.socket) refl
        (λ i. (state i, shut i)) log

  -- A call that keeps all, or closes.
  abbrev Closes : Sys os → Sys os → Type 0
  Closes s r =
      Keeps os s r
      ⊎ ((r.client.state ≡ disconnecting)
          × (is_open r.client.connection ≡ false)
          × (seen_of r.log ≡ closed s.client.socket ∷ seen_of s.log))

  close-Closes : (s : Sys os) → Closes s (Api.close os s).1
  unfolding Api.close is_open
  close-Closes s = ground arith

  abort-Closes : (s : Sys os) → Closes s (Api.abort os s).1
  unfolding Api.abort is_open
  abort-Closes s = ground arith

  Closes-Walks : (s r : Sys os) → Closes s r → Walks os s r
  Closes-Walks s r (inl kept) = Walks-kept os s r kept
  Closes-Walks s r (inr (state, shut, log)) =
      Walks-move os s r (leave s.client.state (is_open s.client.connection) s.client.socket) refl
        (λ i. (state i, shut i)) log

  add-Keeps :
      (bytes : Option (List ℕ)) (flags : ClientApiFlags) (s : Sys os)
      → Keeps os s (Api.add os bytes flags s).1
  unfolding Api.add
  add-Keeps none flags s = (refl, refl, refl)
  add-Keeps (some bytes) flags s = ground arith

  send-Keeps : (s : Sys os) → Keeps os s (Api.send os s).1
  unfolding Api.send Queue.process_write_queue
  send-Keeps s = ground arith

  write-Keeps :
      (bytes : Option (List ℕ)) (flags : ClientApiFlags) (s : Sys os)
      → Keeps os s (Api.write os bytes flags s).1
  unfolding Api.write
  write-Keeps bytes flags s =
      let added = Api.add os bytes flags s in
      ground (arith, add-Keeps bytes flags s, send-Keeps added.1)

  option-Keeps :
      (b : Bool) (s : Sys os)
      → Keeps os s (Api.set_no_delay os b s).1 × Keeps os s (Api.get_no_delay os s).1
  unfolding Api.set_no_delay Api.get_no_delay
  option-Keeps b s = ground arith

  perform-Walks : (a : ApiCall) (s : Sys os) → Walks os s (perform os a s).1
  unfolding perform Api.set_ack_timeout Api.set_rx_timeout
  perform-Walks (ApiCall.connect_ip ip port) s = connect-Walks ip port s
  perform-Walks (ApiCall.connect_host host port) s = connect_host-Walks host port s
  perform-Walks ApiCall.close s = Closes-Walks s _ (close-Closes s)
  perform-Walks ApiCall.abort s = Closes-Walks s _ (abort-Closes s)
  perform-Walks ApiCall.send s = Walks-kept os s _ (send-Keeps s)
  perform-Walks (ApiCall.add bytes flags) s = Walks-kept os s _ (add-Keeps bytes flags s)
  perform-Walks (ApiCall.write bytes flags) s = Walks-kept os s _ (write-Keeps bytes flags s)
  perform-Walks (ApiCall.set_no_delay b) s = Walks-kept os s _ (option-Keeps b s).0
  perform-Walks ApiCall.get_no_delay s = Walks-kept os s _ (option-Keeps true s).1
  perform-Walks _ s = Walks-same os s _ refl refl

  -- User code walks, whatever it calls, and shows nothing itself.
  pub run-Walks : (p : Program) (s : Sys os) → Walks os s (run os p s).1
  unfolding run
  run-Walks done s = Walks-refl os s
  run-Walks (call a k) s =
      let r = perform os a s in
      Walks-trans os s r.1 (run os (k r.0) r.1).1 (perform-Walks a s) (run-Walks (k r.0) r.1)
  run-Walks (ask k) s =
      let (n, w) = os.choose s.world in
      let s' = record s { world = w } in
      Walks-trans os s s' (run os (k n) s').1 (Walks-same os s s' refl refl) (run-Walks (k n) s')
  run-Walks (on type handler p) s =
      Walks-trans os s _ _ (Walks-same os s _ refl refl) (run-Walks p _)
  run-Walks (off type p) s = Walks-trans os s _ _ (Walks-same os s _ refl refl) (run-Walks p _)

  dispatch-Walks :
      (handler : Option Handler) (event : Callback) (s : Sys os)
      → Walks os s (dispatch os handler event s).1
  unfolding dispatch
  dispatch-Walks none event s = Walks-refl os s
  dispatch-Walks (some handler) event s = run-Walks (handler event) s

  -- The client once a callback is due, before its handler runs.
  abbrev pub due : Callback → Sys os → Sys os
  due event s = record s { log = invoked event ∷ s.log }

  pub invoke-due : (event : Callback) (s : Sys os) → Walks os (due event s) (invoke os event s).1
  unfolding invoke
  invoke-due event s = dispatch-Walks (handler_of event s.client.callbacks) event (due event s)

  -- Every other callback than CONNECT and DISCONNECT.
  pub invoke-Walks :
      (event : Callback) (s : Sys os)
      → seen_of (invoked event ∷ s.log) ≡ seen_of s.log
      → Walks os s (invoke os event s).1
  invoke-Walks event s e =
      Walks-trans os s (due event s) _ (Walks-same os s (due event s) refl e) (invoke-due event s)
