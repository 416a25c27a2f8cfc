-- ===== src/Client/Delivery/Reading.antt =====
-- Everything that a client of src/ClientBase.tpp reads is handed to RECV, in order.
use async_tcpsock.Base.{
  ◌≡◌, refl, sym, ap, ◌∙◌, inl, inr, ℕ, List, [], ◌∷◌, ◌++◌, append-nil, ◌||◌, ◌==ℤ◌, Bool-cases,
}
use async_tcpsock.Os.{Os, ReadRet}
use async_tcpsock.Os.Tapped.{tapped, bytes_read}
use async_tcpsock.Client.State.{Sys}
use async_tcpsock.Client.Callbacks.{Callback}
use async_tcpsock.Client.Program.{run}
use async_tcpsock.Connection
use async_tcpsock.Client.Api
use async_tcpsock.Client.Events
use async_tcpsock.Client.Delivery.{received_of, Quiet, _close-Quiet, run-Quiet, invoke_delivers}
use async_tcpsock.Client.History.{Step, step, history}
use async_tcpsock.Client.Delivery.Tasks.{
  _error-Quiet, sock_is_writeable-Quiet, sock_delayed_connect-Quiet, sock_poll-Quiet,
  processing_done-Quiet,
}

module _ (os : Os) where
  -- Everything that was read has been handed out.
  abbrev pub Delivered : Sys (tapped os) → Type 0
  Delivered s = received_of s.log ≡ s.world.1

  Quiet-Delivered :
      (s r : Sys (tapped os)) → Quiet (List ℕ) bytes_read os s r → Delivered s → Delivered r
  Quiet-Delivered s r q d = q.1 ∙ d ∙ sym q.0

  -- A read whose result is handled at once.
  handle_read-Delivered :
      (r : ReadRet) (seen : List ℕ) (s : Sys (tapped os))
      → received_of s.log ≡ seen
      → s.world.1 ≡ bytes_read r seen
      → Delivered (Events.handle_read (tapped os) r s).1
  unfolding Events.handle_read
  handle_read-Delivered (ReadRet.bytes []) seen s d w =
      Quiet-Delivered s (Api._close (tapped os) s).1 (_close-Quiet (List ℕ) bytes_read os s)
        (d ∙ sym (append-nil seen) ∙ sym w)
  handle_read-Delivered (ReadRet.bytes (b ∷ bs)) seen s d w =
      let noted = record s {
        client = record s.client { rx_last_packet = ((tapped os).now s.world).0 };
        world = ((tapped os).now s.world).1;
      } in
      let event = Callback.recv (b ∷ bs) in
      let q = invoke_delivers (List ℕ) bytes_read os event noted in
      q.1 ∙ ap (λ (l : List ℕ). l ++ (b ∷ bs)) d ∙ sym w ∙ sym q.0
  handle_read-Delivered (ReadRet.failed e) seen s d w =
      elim (Bool-cases (e ==ℤ os.eagain || e ==ℤ os.ewouldblock)) [
        | inl k ↦ rw k (d ∙ sym w)
        | inr k ↦ rw k (
            Quiet-Delivered s (Events._error (tapped os) e s).1
              (_error-Quiet (List ℕ) bytes_read os e s) (d ∙ sym w))
      ]

  sock_is_readable-Delivered :
      (s : Sys (tapped os)) → Delivered s → Delivered (Events.sock_is_readable (tapped os) s).1
  unfolding Events.sock_is_readable
  sock_is_readable-Delivered s d =
      let (r, w) = (tapped os).read s.client.socket os.tcp_mss s.world in
      handle_read-Delivered r s.world.1 (record s { world = w }) d refl

  step-Delivered :
      (st : Step) (s : Sys (tapped os)) → Delivered s → Delivered (step (tapped os) st s)
  unfolding step Events.dns_found_callback
  step-Delivered Step.writeable s d =
      Quiet-Delivered s (Events.sock_is_writeable (tapped os) s).1
        (sock_is_writeable-Quiet (List ℕ) bytes_read os s) d
  step-Delivered Step.readable s d = sock_is_readable-Delivered s d
  step-Delivered Step.delayed_connect s d =
      Quiet-Delivered s (Events.sock_delayed_connect (tapped os) s).1
        (sock_delayed_connect-Quiet (List ℕ) bytes_read os s) d
  step-Delivered Step.poll s d =
      Quiet-Delivered s (Events.sock_poll (tapped os) s).1
        (sock_poll-Quiet (List ℕ) bytes_read os s) d
  step-Delivered Step.processing_done s d =
      Quiet-Delivered s (Events.processing_done (tapped os) s).1
        (processing_done-Quiet (List ℕ) bytes_read os s) d
  step-Delivered (Step.dns_found found) s d = d
  step-Delivered (Step.last_active t) s d = d
  step-Delivered (Step.user p) s d =
      Quiet-Delivered s (run (tapped os) p s).1 (run-Quiet (List ℕ) bytes_read os p s) d

  history-Delivered :
      (sts : List Step) (s : Sys (tapped os)) → Delivered s → Delivered (history (tapped os) sts s)
  unfolding history
  history-Delivered [] s d = d
  history-Delivered (st ∷ sts) s d =
      history-Delivered sts (step (tapped os) st s) (step-Delivered st s d)

  -- On any system, after any sequence of calls of the manager's task, the DNS thread and user code
  -- on a new client, with any handlers, what RECV was handed is all that was read from sockets for
  -- it, in order and once each.
  pub new-Delivered :
      (w : os.World) (sts : List Step)
      → let r = history (tapped os) sts (Api.new (tapped os) (w, [])) in
        received_of r.log ≡ r.world.1
  unfolding Api.new Connection.new
  new-Delivered w sts = history-Delivered sts (Api.new (tapped os) (w, [])) refl
