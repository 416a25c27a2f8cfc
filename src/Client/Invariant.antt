-- ===== src/Client/Invariant.antt =====
-- What holds of a client of src/ClientBase.tpp between two calls of its functions.
pub mod Programs
pub mod Events
use async_tcpsock.Base.{
  [], ◌∷◌, length, min, ℕ, ◌+◌, ◌≡◌, true, false, none, some, List, minus_one, ◌==ℤ◌, arith, Option,
  length-take,
}
use async_tcpsock.Os.{Os}
use async_tcpsock.Os.Laws.{Lawful}
use async_tcpsock.Flags.{ClientApiFlags}
use async_tcpsock.Client.State.{held, ClientBase, Mutex, free, is_connected, Sys}
use async_tcpsock.Client.Queue.{process_write_queue}
use async_tcpsock.Client.Queue.Accounting.{owed, owed-append, process_buffers_accounted}
use async_tcpsock.Client.Api

-- With the mutex in a given state: the free space and what the queue owes make up the send buffer,
-- and a connected client has a socket.
pub record Holds (os : Os) (m : Mutex) (c : ClientBase) : Type 0 where
  pub mutex : c.write_mutex ≡ m
  pub accounted : c.write_space_remaining + owed c.write_queue ≡ os.tcp_snd_buf
  pub live : is_connected c.state ≡ true → (c.socket ==ℤ minus_one) ≡ false

abbrev pub Inv : Os → ClientBase → Type 0
Inv os = Holds os free

module _ (os : Os) (laws : Lawful os) where
  pub process_write_queue-Holds :
      (m : Mutex) (s : Sys os)
      → Holds os m s.client
      → Holds os m (process_write_queue os s).1.client
  unfolding process_write_queue
  process_write_queue-Holds m s h = ground (
    arith,
    process_buffers_accounted os laws.writes s.client.socket s.client.write_queue
        s.client.write_space_remaining false s.world,
  )

  pub connect-Inv :
      (ip port : ℕ) (s : Sys os) → Inv os s.client → Inv os (Api.connect os ip port s).1.client
  unfolding Api.connect
  connect-Inv ip port s h = ground arith

  pub connect_host-Inv :
      (host : List ℕ) (port : ℕ) (s : Sys os)
      → Inv os s.client
      → Inv os (Api.connect_host os host port s).1.client
  unfolding Api.connect_host
  connect_host-Inv host port s h = ground arith

  pub _close-Inv : (s : Sys os) → Inv os s.client → Inv os (Api._close os s).1.client
  unfolding Api._close
  _close-Inv s h = ground arith

  pub close-Inv : (s : Sys os) → Inv os s.client → Inv os (Api.close os s).1.client
  unfolding Api.close
  close-Inv s h = ground arith

  pub abort-Inv : (s : Sys os) → Inv os s.client → Inv os (Api.abort os s).1.client
  unfolding Api.abort
  abort-Inv s h = ground arith

  pub add-Inv :
      (bytes : Option (List ℕ)) (flags : ClientApiFlags) (s : Sys os)
      → Inv os s.client
      → Inv os (Api.add os bytes flags s).1.client
  unfolding Api.add
  add-Inv none flags s h = h
  add-Inv (some bytes) flags s h =
      let c = s.client in
      let to_send : ℕ = min (Api.space c) (length bytes) in
      let buf = Api.new_buffer os bytes to_send flags (os.now s.world).0 in
      ground (arith, length-take to_send bytes, owed-append c.write_queue (buf ∷ []))

  pub send-Inv : (s : Sys os) → Inv os s.client → Inv os (Api.send os s).1.client
  unfolding Api.send
  send-Inv s h = grind (arith, process_write_queue-Holds held)

  pub write-Inv :
      (bytes : Option (List ℕ)) (flags : ClientApiFlags) (s : Sys os)
      → Inv os s.client
      → Inv os (Api.write os bytes flags s).1.client
  unfolding Api.write
  write-Inv bytes flags s h =
      let added = Api.add os bytes flags s in
      ground (arith, add-Inv bytes flags s h, send-Inv added.1)
