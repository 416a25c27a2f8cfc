-- ===== src/Client/Queue/Order.antt =====
-- The order in which _processWriteQueue (src/ClientBase.tpp) sends the bytes of the queue.
use async_tcpsock.Base.{
  drop, append-nil, take, drop-nil, drop_all, sym, ℕ, ◌+◌, ◌<◌, ◌≡◌, refl, inl, inr, Bool, true,
  false, List, [], ◌∷◌, ◌++◌, ℤ, arith, append_assoc, ltb, ◌||◌,
}
use async_tcpsock.Os.{Os}
use async_tcpsock.Os.Laws.{WritesAtMost, Stream, Saturates}
use async_tcpsock.Buffer.{WriteQueueBuffer, has_error, is_fully_written, write}
use async_tcpsock.Buffer.Loop.{remaining}
use async_tcpsock.Buffer.Outcome.{pending, write_stream, write_sends}
use async_tcpsock.Buffer.Saturated.{write_full, write_stops}
use async_tcpsock.Client.Queue.{process_buffers}

-- The bytes that a queue owes, in the order in which they were accepted.
abbrev pub pending_all : List WriteQueueBuffer → List ℕ
pending_all [] = []
pending_all (buf ∷ bufs) = pending buf ++ pending_all bufs

pub pending_all-append :
    (xs ys : List WriteQueueBuffer) → pending_all (xs ++ ys) ≡ pending_all xs ++ pending_all ys
pending_all-append [] ys = refl
pending_all-append (x ∷ xs) ys =
    rw (pending_all-append xs ys) (sym (append_assoc (pending x) (pending_all xs) (pending_all ys)))

unfinished : (buf : WriteQueueBuffer) → is_fully_written buf ≡ false → 0 < remaining buf
unfolding is_fully_written
unfinished buf h = ground arith

pub finished-pending : (buf : WriteQueueBuffer) → is_fully_written buf ≡ true → pending buf ≡ []
unfolding is_fully_written
finished-pending buf h = drop_all buf.amount_written buf.bytes (ground arith)

module _ (os : Os) (law : WritesAtMost os) (socket : ℤ) (stream : Stream os socket) where
  open stream use {received}

  module _ (sat : Saturates os socket) where
    open sat use {full}

    process_full :
        (bufs : List WriteQueueBuffer) (space : ℕ) (activity : Bool) (w : os.World)
        → full w ≡ true
        → let p = process_buffers os socket bufs space activity w in
          (received p.world ≡ received w) × (pending_all p.queue ≡ pending_all bufs)
    unfolding process_buffers
    process_full [] space activity w f = (refl, refl)
    process_full (buf ∷ bufs) space activity w f =
        let r = write os socket buf w in
        ground (
          arith,
          process_full bufs space activity w f,
          unfinished buf,
          write_full os socket stream sat buf w,
          process_full bufs (space + r.written_total) (activity || ltb 0 r.written_total) r.world,
        )

    write_then_rest :
        (buf : WriteQueueBuffer) (bufs : List WriteQueueBuffer) (space : ℕ) (activity : Bool)
        (w : os.World)
        → 0 < remaining buf
        → let r = write os socket buf w in
          let p = process_buffers os socket bufs space activity r.world in
          (received p.world ++ pending_all p.queue ≡ received r.world ++ pending_all bufs)
          → received p.world ++ (pending r.it ++ pending_all p.queue)
            ≡ received w ++ (pending buf ++ pending_all bufs)
    write_then_rest buf bufs space activity w h ih =
        let r = write os socket buf w in
        let p = process_buffers os socket bufs space activity r.world in
        let sent = write_stream os socket stream buf w in
        elim (write_stops os socket stream sat law buf w h) [
          | inl dropped ↦ ground (
            arith,
            ih,
            sent,
            drop-nil {A = ℕ} r.it.amount_written,
            append-nil (received r.world),
            append_assoc (received w) (pending buf) (pending_all bufs),
          )
          | inr f ↦ ground (
            arith,
            sent,
            process_full bufs space activity r.world f,
            append_assoc (received r.world) (pending r.it) (pending_all bufs),
            append_assoc (received w) (pending buf) (pending_all bufs),
          )
        ]

    -- If writes keep to their buffers, the peer is sent what they accept, and a socket that
    -- refuses bytes refuses them for the rest of the pass, then a pass over the queue keeps the
    -- order: what the peer was sent and what the queue owes make up the same bytes before and
    -- after it.
    pub process_buffers_fifo :
        (bufs : List WriteQueueBuffer) (space : ℕ) (activity : Bool) (w : os.World)
        → let p = process_buffers os socket bufs space activity w in
          received p.world ++ pending_all p.queue ≡ received w ++ pending_all bufs
    unfolding process_buffers
    process_buffers_fifo [] space activity w = refl
    process_buffers_fifo (buf ∷ bufs) space activity w =
        let r = write os socket buf w in
        let rest =
          process_buffers_fifo bufs (space + r.written_total) (activity || ltb 0 r.written_total)
            r.world in
        ground (
          arith,
          process_buffers_fifo bufs space activity w,
          finished-pending buf,
          write_then_rest buf bufs (space + r.written_total) (activity || ltb 0 r.written_total) w,
          unfinished buf,
          rest,
        )

  -- If writes keep to their buffers and the peer is sent what they accept, whether or not the
  -- socket has room again in the course of the pass, a pass over two buffers without errors and
  -- not finished writes the second after the first even if the first was taken in part: the peer
  -- is sent as much of the first as its write took, then as much of the second as its write took;
  -- both stay in the queue, and the first owes the rest.
  pub process_buffers_overtakes :
      (first second : WriteQueueBuffer) (space : ℕ) (activity : Bool) (w : os.World)
      → has_error first ≡ false
      → has_error second ≡ false
      → is_fully_written first ≡ false
      → is_fully_written second ≡ false
      → let r1 = write os socket first w in
        let r2 = write os socket second r1.world in
        let p = process_buffers os socket (first ∷ second ∷ []) space activity w in
        (received p.world
          ≡ (received w ++ take r1.written_total (pending first))
            ++ take r2.written_total (pending second))
        × (p.queue ≡ r1.it ∷ r2.it ∷ [])
        × (pending r1.it ≡ drop r1.written_total (pending first))
  unfolding process_buffers
  process_buffers_overtakes first second space activity w g1 g2 u1 u2 =
      let r1 = write os socket first w in
      let r2 = write os socket second r1.world in
      ground (
        arith,
        g1,
        g2,
        u1,
        u2,
        write_sends os socket stream first w,
        write_sends os socket stream second r1.world,
      )
