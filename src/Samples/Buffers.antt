-- ===== src/Samples/Buffers.antt =====
-- Buffers and queues at work on the sample network.
use async_tcpsock.Base.{ℕ, ◌+◌, List, [], ◌∷◌, ◌++◌, ◌≡◌, true, refl, pos, take, drop, arith, false}
use async_tcpsock.Samples.{
  quiet_os, bursty_os, net, quiet-WritesAtMost, quiet_stream, quiet-Saturates, bursty-WritesAtMost,
  bursty_stream,
}
use async_tcpsock.Buffer.{
  rounds, WriteQueueBuffer, owned, write, write_loop, has_error, is_fully_written,
}
use async_tcpsock.Buffer.Outcome.{Outcome, pending, write_ends, write_sends}
use async_tcpsock.Client.Queue.{process_buffers}
use async_tcpsock.Client.Queue.Order.{pending_all, process_buffers_fifo, process_buffers_overtakes}

abbrev letters : List ℕ → WriteQueueBuffer
letters bytes = record {
  alternative = owned;
  common = record { amount_written = 0; queued_at = 500; written_at = 0; error_code = pos 0 };
  bytes = bytes;
}

abbrev first : WriteQueueBuffer
first = letters (1 ∷ 2 ∷ 3 ∷ 4 ∷ 5 ∷ [])

abbrev second : WriteQueueBuffer
second = letters (6 ∷ 7 ∷ [])

abbrev sent_one : WriteQueueBuffer
sent_one = record first {
  common = record { amount_written = 5; queued_at = 500; written_at = 900; error_code = pos 0 };
  bytes = [];
}

write_ends_example :
    let r = write quiet_os (pos 54) first (net 3) in
    (r.left ≡ true)
    × (write_loop quiet_os (rounds first + 2) (pos 54) first 0 (net 3) ≡ r)
    × Outcome first r.it r.written_total
write_ends_example = write_ends quiet_os quiet-WritesAtMost (pos 54) first (net 3) 2 (omega arith)

write_sends_example :
    let r = write quiet_os (pos 54) first (net 3) in
    (r.world.peer ≡ [] ++ take r.written_total (pending first))
    × (pending r.it ≡ drop r.written_total (pending first))
write_sends_example = write_sends quiet_os (pos 54) (quiet_stream (pos 54)) first (net 3)

process_buffers_fifo_example :
    let p = process_buffers quiet_os (pos 54) (first ∷ second ∷ []) 10 false (net 3) in
    p.world.peer ++ pending_all p.queue ≡ [] ++ pending_all (first ∷ second ∷ [])
process_buffers_fifo_example =
    process_buffers_fifo quiet_os quiet-WritesAtMost (pos 54) (quiet_stream (pos 54))
      (quiet-Saturates (pos 54)) (first ∷ second ∷ []) 10 false (net 3)

-- The peer is sent 1 2 3 6 7, and 4 5 are still in the queue.
process_buffers_overtakes_example :
    let r1 = write bursty_os (pos 54) first (net 3) in
    let r2 = write bursty_os (pos 54) second r1.world in
    let p = process_buffers bursty_os (pos 54) (first ∷ second ∷ []) 10 false (net 3) in
    (p.world.peer
      ≡ ([] ++ take r1.written_total (pending first)) ++ take r2.written_total (pending second))
    × (p.queue ≡ r1.it ∷ r2.it ∷ [])
    × (pending r1.it ≡ drop r1.written_total (pending first))
unfolding has_error is_fully_written
process_buffers_overtakes_example =
    process_buffers_overtakes bursty_os bursty-WritesAtMost (pos 54) (bursty_stream (pos 54)) first
      second 10 false (net 3) refl refl refl refl
