-- ===== src/Client/History.antt =====
-- Histories of one client of src/ClientBase.tpp: calls of the manager's task, of lwIP's DNS thread,
-- and of user code, in any order.
use async_tcpsock.Base.{ℕ, Option, List, [], ◌∷◌, ℤ, arith}
use async_tcpsock.Os.{Os}
use async_tcpsock.Os.Laws.{Lawful}
use async_tcpsock.Connection.{set_dns_finished, set_last_active}
use async_tcpsock.Client.State.{Sys}
use async_tcpsock.Client.Api
use async_tcpsock.Client.Callbacks.{Program}
use async_tcpsock.Client.Program.{run}
use async_tcpsock.Client.Events
use async_tcpsock.Client.Invariant.{Inv}
use async_tcpsock.Client.Invariant.Programs.{run-Inv}
use async_tcpsock.Client.Invariant.Events.{
  sock_is_writeable-Inv, sock_is_readable-Inv, sock_delayed_connect-Inv, sock_poll-Inv,
  processing_done-Inv,
}

pub data Step : Type 0 where
  writeable readable delayed_connect poll processing_done : Step
  dns_found : Option ℕ → Step
  last_active : ℕ → Step
  user : Program → Step

module _ (os : Os) where
  unfoldable pub step : Step → Sys os → Sys os
  step writeable s = (Events.sock_is_writeable os s).1
  step readable s = (Events.sock_is_readable os s).1
  step delayed_connect s = (Events.sock_delayed_connect os s).1
  step poll s = (Events.sock_poll os s).1
  step processing_done s = (Events.processing_done os s).1
  step (dns_found found) s = (Events.dns_found_callback os found s).1
  step (last_active t) s = record s {
    client = record s.client { connection = set_last_active t s.client.connection };
  }
  step (user p) s = (run os p s).1

  unfoldable pub history : List Step → Sys os → Sys os
  history [] s = s
  history (st ∷ sts) s = history sts (step st s)

module _ (os : Os) (laws : Lawful os) where
  pub new-Inv : (w : os.World) → Inv os (Api.new os w).client
  unfolding Api.new
  new-Inv w = ground arith

  pub from_socket-Inv : (socket : ℤ) (w : os.World) → Inv os (Api.from_socket os socket w).client
  unfolding Api.from_socket Api.new
  from_socket-Inv socket w = ground arith

  pub step-Inv : (st : Step) (s : Sys os) → Inv os s.client → Inv os (step os st s).client
  unfolding step Events.dns_found_callback set_last_active set_dns_finished
  step-Inv writeable s h = sock_is_writeable-Inv os laws s h
  step-Inv readable s h = sock_is_readable-Inv os laws s h
  step-Inv delayed_connect s h = sock_delayed_connect-Inv os laws s h
  step-Inv poll s h = sock_poll-Inv os laws s h
  step-Inv processing_done s h = processing_done-Inv os laws s h
  step-Inv (dns_found found) s h = ground arith
  step-Inv (last_active t) s h = ground arith
  step-Inv (user p) s h = run-Inv os laws p s h

  pub history-Inv :
      (sts : List Step) (s : Sys os) → Inv os s.client → Inv os (history os sts s).client
  unfolding history
  history-Inv [] s h = h
  history-Inv (st ∷ sts) s h = history-Inv sts (step os st s) (step-Inv st s h)

  -- If writes accept at most what they are given and the descriptor -1 has no status, then from a
  -- client's construction on, after any sequence of calls of the manager's task, the DNS thread
  -- and user code, with any handlers: the write mutex is free, and was never locked twice or
  -- unlocked in vain; the free space and what the queue owes to the socket make up TCP_SND_BUF;
  -- and a client that is connected has a socket.
  pub history-new : (w : os.World) (sts : List Step) → Inv os (history os sts (Api.new os w)).client
  history-new w sts = history-Inv sts (Api.new os w) (new-Inv w)

  -- If writes accept at most what they are given and the descriptor -1 has no status, then a
  -- client constructed from any descriptor keeps the same invariant over any sequence of calls: a
  -- free mutex, the space accounted for, and a socket if it is connected.
  pub history-from_socket :
      (socket : ℤ) (w : os.World) (sts : List Step)
      → Inv os (history os sts (Api.from_socket os socket w)).client
  history-from_socket socket w sts =
      history-Inv sts (Api.from_socket os socket w) (from_socket-Inv socket w)
