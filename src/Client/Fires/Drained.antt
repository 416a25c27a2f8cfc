-- ===== src/Client/Fires/Drained.antt =====
-- What src/ClientBase.tpp tells of a queue that has been sent completely.
use async_tcpsock.Base.{
  if◌then◌else◌, ◌∙◌, refl, ◌≡◌, ℕ, zero, suc, ◌+◌, ◌≤◌, ◌||◌, Bool, false, none, List, [], ◌∷◌, ℤ,
  arith, ltb, drop,
}
use async_tcpsock.Os.{Os}
use async_tcpsock.Os.Laws.{WritesAtMost, Serves}
use async_tcpsock.Buffer.{
  WriteQueueBuffer, is_fully_written, after_write, write_round, write_loop, write, rounds,
}
use async_tcpsock.Buffer.Loop.{remaining}
use async_tcpsock.Buffer.Outcome.{write_counts}
use async_tcpsock.Client.State.{Sys}
use async_tcpsock.Client.Queue.{process_buffers, process_write_queue, collect, WriteStats}
use async_tcpsock.Client.Queue.Accounting.{owed}
use async_tcpsock.Client.Queue.Drain.{NoErrors, passes, passes_drain, pass_soft}
use async_tcpsock.Client.Events.{cleanup_write_queue}
use async_tcpsock.Client.Fires.{invoked_of}
use async_tcpsock.Client.Fires.Events.{push_all, of_stats, cleanup_fires}

-- The sizes with which buffers were queued: what is written of them and what is not.
abbrev pub sizes : List WriteQueueBuffer → List ℕ
sizes [] = []
sizes (buf ∷ bufs) = (buf.amount_written + remaining buf) ∷ sizes bufs

abbrev pub lengths : List WriteStats → List ℕ
lengths [] = []
lengths (stats ∷ rest) = stats.length ∷ lengths rest

module _ (os : Os) (law : WritesAtMost os) where
  loop_advances :
      (fuel : ℕ) (socket : ℤ) (it : WriteQueueBuffer) (total : ℕ) (w : os.World)
      → let r = write_loop os fuel socket it total w in
        r.it.amount_written + total ≡ it.amount_written + r.written_total
  unfolding write_loop write_round after_write
  loop_advances zero socket it total w = refl
  loop_advances (suc fuel) socket it total w =
      let r = write_round os socket it total w in
      ground (arith, loop_advances fuel socket r.it r.written_total r.world)

  write_keeps_size :
      (socket : ℤ) (buf : WriteQueueBuffer) (w : os.World)
      → let it = (write os socket buf w).it in
        it.amount_written + remaining it ≡ buf.amount_written + remaining buf
  unfolding write
  write_keeps_size socket buf w =
      omega (arith, loop_advances (rounds buf) socket buf 0 w, write_counts os law socket buf w)

  process_keeps_sizes :
      (socket : ℤ) (bufs : List WriteQueueBuffer) (space : ℕ) (activity : Bool) (w : os.World)
      → sizes (process_buffers os socket bufs space activity w).queue ≡ sizes bufs
  unfolding process_buffers
  process_keeps_sizes socket [] space activity w = refl
  process_keeps_sizes socket (buf ∷ bufs) space activity w =
      let r = write os socket buf w in
      ground (
        arith,
        write_keeps_size socket buf w,
        process_keeps_sizes socket bufs space activity w,
        process_keeps_sizes socket bufs (space + r.written_total)
            (activity || ltb 0 r.written_total) r.world,
      )

collect_all :
    (bufs : List WriteQueueBuffer) (rx_last : ℕ)
    → NoErrors bufs
    → owed bufs ≡ 0
    → let found = collect bufs rx_last in
      (found.failure ≡ none)
      × (drop found.to_remove bufs ≡ [])
      × (lengths found.notify_queue ≡ sizes bufs)
unfolding collect is_fully_written
collect_all [] rx_last h o = (refl, refl, refl)
collect_all (buf ∷ bufs) rx_last h o =
    let last : ℕ = if ltb rx_last buf.written_at then buf.written_at else rx_last in
    ground (arith, h.0, collect_all bufs last h.1 (omega (arith, o)))

module _ (os : Os) (meanwhile : os.World → os.World) (law : WritesAtMost os) where
  passes_keep :
      (n : ℕ) (s : Sys os)
      → Serves os s.client.socket meanwhile
      → NoErrors s.client.write_queue
      → let r = passes os meanwhile n s in
        NoErrors r.client.write_queue
        × (sizes r.client.write_queue ≡ sizes s.client.write_queue)
        × (r.log ≡ s.log)
  unfolding passes process_write_queue
  passes_keep zero s serves h = (h, refl, refl)
  passes_keep (suc n) s serves h =
      let c = s.client in
      let s' = (process_write_queue os (record s { world = meanwhile s.world })).1 in
      let soft =
        pass_soft os law c.socket meanwhile serves c.write_queue c.write_space_remaining false
          (meanwhile s.world) h in
      let same =
        process_keeps_sizes os law c.socket c.write_queue c.write_space_remaining false
          (meanwhile s.world) in
      let (soft', same', log) = passes_keep n s' serves soft in (soft', same' ∙ same, log)

  -- If writes accept at most what they are given, and at least one byte if they succeed, the
  -- socket has room again before each pass, and its only failure is EAGAIN, then as many passes
  -- over a queue without errors as it owes bytes send it completely, and cleaning it afterwards
  -- fires SENT once for each of its buffers, in order and with the size with which it was queued,
  -- and nothing else.
  pub drained_tells :
      (n : ℕ) (s : Sys os)
      → Serves os s.client.socket meanwhile
      → NoErrors s.client.write_queue
      → owed s.client.write_queue ≤ n
      → let drained = passes os meanwhile n s in
        (told : List WriteStats) × (invoked_of (cleanup_write_queue os drained).1.log
          ≡ push_all (of_stats told) (invoked_of s.log))
        × (lengths told ≡ sizes s.client.write_queue)
        × (owed drained.client.write_queue ≡ 0)
  drained_tells n s serves h o =
      let drained = passes os meanwhile n s in
      let c = drained.client in
      let (soft, same, log) = passes_keep n s serves h in
      let found = collect c.write_queue c.rx_last_packet in
      let drains = passes_drain os meanwhile law n s serves h o in
      let (failure, removed, told) = collect_all c.write_queue c.rx_last_packet soft drains in
      let fires = cleanup_fires os drained in
      (found.notify_queue, rw (fires, failure, log) refl, told ∙ same, drains)
