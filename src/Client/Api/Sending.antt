-- ===== src/Client/Api/Sending.antt =====
-- add(), send() and write() of src/ClientBase.tpp: what they accept, and in which order it is sent.
use async_tcpsock.Base.{
  append-nil, ℕ, ◌-◌, ◌≡◌, min, true, false, some, List, [], ◌∷◌, ◌++◌, length, take, arith,
  if◌then◌else◌,
}
use async_tcpsock.Os.{Os}
use async_tcpsock.Os.Laws.{WritesAtMost, Stream, Saturates}
use async_tcpsock.Flags.{ClientApiFlags, test, immediate}
use async_tcpsock.Client.State.{Sys, ClientBase, is_connected}
use async_tcpsock.Client.Queue.{process_write_queue}
use async_tcpsock.Client.Queue.Order.{pending_all, pending_all-append, process_buffers_fifo}
use async_tcpsock.Client.Api.{add, send, write, is_ready, new_buffer}

-- How many bytes `add` accepts: what fits, of a client that is connected.
abbrev pub acceptable : ClientBase → List ℕ → ℕ
acceptable c bytes = if is_connected c.state then min c.write_space_remaining (length bytes) else 0

module _ (os : Os) where
  -- Adding bytes returns how many are accepted, the most that fit if the client is connected and
  -- else 0; takes their space; puts exactly them behind what the queue already owes; and leaves
  -- the state and the connection as they were.
  pub add_lem :
      (bytes : List ℕ) (flags : ClientApiFlags) (s : Sys os)
      → let r = add os (some bytes) flags s in
        let n = acceptable s.client bytes in
        (r.0 ≡ n)
        × (r.1.client.write_space_remaining ≡ s.client.write_space_remaining - n)
        × (pending_all r.1.client.write_queue ≡ pending_all s.client.write_queue ++ take n bytes)
        × (r.1.client.state ≡ s.client.state)
        × (r.1.client.connection ≡ s.client.connection)
  unfolding add
  add_lem bytes flags s =
      let c = s.client in
      let n : ℕ = min c.write_space_remaining (length bytes) in
      let buf = new_buffer os bytes n flags (os.now s.world).0 in
      ground (
        arith,
        pending_all-append c.write_queue (buf ∷ []),
        append-nil (pending_all c.write_queue),
        append-nil (take n bytes),
      )

  -- If the socket is not ready, a write that is to be sent at once returns 0, and yet the queue
  -- keeps the bytes that were accepted.
  pub write_keeps_unsent :
      (bytes : List ℕ) (flags : ClientApiFlags) (s : Sys os)
      → test flags immediate ≡ true
      → ((w : os.World) → is_ready (os.select_write s.client.socket w).0 ≡ false)
      → let r = write os (some bytes) flags s in
        (r.0 ≡ 0)
        × (pending_all r.1.client.write_queue
            ≡ pending_all s.client.write_queue ++ take (acceptable s.client bytes) bytes)
  unfolding write send
  write_keeps_unsent bytes flags s i unready =
      let added = (add os (some bytes) flags s).1 in
      ground (arith, add_lem bytes flags s, unready added.world)

module _ (os : Os) (law : WritesAtMost os) (s : Sys os) (stream : Stream os s.client.socket)
    (sat : Saturates os s.client.socket) where
  open stream use {received}

  -- If writes keep to their buffers, the peer is sent what they accept, and the socket, once it
  -- refuses bytes, refuses them for the rest of the pass, then `send` moves bytes from the queue
  -- to the peer and keeps their order.
  pub send_stream :
      let r = (send os s).1 in
      received r.world ++ pending_all r.client.write_queue
      ≡ received s.world ++ pending_all s.client.write_queue
  unfolding send process_write_queue
  send_stream =
      let c = s.client in
      let w : os.World = (os.select_write c.socket s.world).1 in
      ground (
        arith,
        stream.received-select s.world,
        process_buffers_fifo os law c.socket stream sat c.write_queue c.write_space_remaining false
            w,
      )
