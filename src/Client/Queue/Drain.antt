-- ===== src/Client/Queue/Drain.antt =====
-- The write queue of src/ClientBase.tpp is sent out if the socket has room again and again.
use async_tcpsock.Base.{
  ◌≡◌, ℕ, zero, suc, ◌+◌, ◌≤◌, ◌<◌, List, [], ◌∷◌, ℤ, Bool, false, ◌||◌, ltb, arith,
}
use async_tcpsock.Os.{Os}
use async_tcpsock.Os.Laws.{WritesAtMost, Serves}
use async_tcpsock.Buffer.Progress.{write_soft, write_progress}
use async_tcpsock.Buffer.{WriteQueueBuffer, has_error, is_fully_written, write}
use async_tcpsock.Buffer.Outcome.{write_counts}
use async_tcpsock.Client.State.{Sys}
use async_tcpsock.Client.Queue.{process_buffers, process_write_queue}
use async_tcpsock.Client.Queue.Accounting.{owed}

abbrev pub NoErrors : List WriteQueueBuffer → Type 0
NoErrors [] = Unit {0}
NoErrors (buf ∷ bufs) = (has_error buf ≡ false) × NoErrors bufs

module _ (os : Os) (law : WritesAtMost os) (socket : ℤ) (meanwhile : os.World → os.World)
    (serves : Serves os socket meanwhile) where
  pub pass_soft :
      (bufs : List WriteQueueBuffer) (space : ℕ) (activity : Bool) (w : os.World)
      → NoErrors bufs
      → NoErrors (process_buffers os socket bufs space activity w).queue
  unfolding process_buffers
  pass_soft [] space activity w h = tt
  pass_soft (buf ∷ bufs) space activity w h =
      let r = write os socket buf w in
      ground (
        arith,
        write_soft os law socket meanwhile serves buf w,
        pass_soft bufs space activity w h.1,
        pass_soft bufs (space + r.written_total) (activity || ltb 0 r.written_total) r.world h.1,
      )

  pass_falls :
      (bufs : List WriteQueueBuffer) (space : ℕ) (activity : Bool) (w : os.World)
      → owed (process_buffers os socket bufs space activity w).queue ≤ owed bufs
  unfolding process_buffers
  pass_falls [] space activity w = omega arith
  pass_falls (buf ∷ bufs) space activity w =
      let r = write os socket buf w in
      ground (
        arith,
        write_counts os law socket buf w,
        pass_falls bufs space activity w,
        pass_falls bufs (space + r.written_total) (activity || ltb 0 r.written_total) r.world,
      )

  pass_progress :
      (bufs : List WriteQueueBuffer) (space : ℕ) (activity : Bool) (w : os.World)
      → NoErrors bufs
      → 0 < owed bufs
      → owed (process_buffers os socket bufs space activity (meanwhile w)).queue < owed bufs
  unfolding process_buffers is_fully_written
  pass_progress [] space activity w h o = omega arith
  pass_progress (buf ∷ bufs) space activity w h o =
      let r = write os socket buf (meanwhile w) in
      ground (
        arith,
        write_counts os law socket buf (meanwhile w),
        write_progress os law socket meanwhile serves buf w,
        pass_progress bufs space activity w h.1,
        pass_falls bufs (space + r.written_total) (activity || ltb 0 r.written_total) r.world,
      )

module _ (os : Os) (meanwhile : os.World → os.World) where
  -- The world goes on, and then the queue is processed; some times over.
  unfoldable pub passes : ℕ → Sys os → Sys os
  passes zero s = s
  passes (suc n) s = passes n (process_write_queue os (record s { world = meanwhile s.world })).1

  -- If writes accept at most what they are given, and at least one byte if they succeed, the
  -- socket has room again before each pass, and its only failure is EAGAIN, then a queue without
  -- errors that owes at most `n` bytes is sent completely within `n` passes.
  pub passes_drain :
      (law : WritesAtMost os) (n : ℕ) (s : Sys os)
      → Serves os s.client.socket meanwhile
      → NoErrors s.client.write_queue
      → owed s.client.write_queue ≤ n
      → owed (passes n s).client.write_queue ≡ 0
  unfolding passes process_write_queue
  passes_drain law zero s serves h o = omega arith
  passes_drain law (suc n) s serves h o =
      let c = s.client in
      let s' = (process_write_queue os (record s { world = meanwhile s.world })).1 in
      let falls =
        pass_falls os law c.socket meanwhile serves c.write_queue c.write_space_remaining false
          (meanwhile s.world) in
      let progress =
        pass_progress os law c.socket meanwhile serves c.write_queue c.write_space_remaining false
          s.world h in
      let soft =
        pass_soft os law c.socket meanwhile serves c.write_queue c.write_space_remaining false
          (meanwhile s.world) h in
      passes_drain law n s' serves soft (ground (arith, falls, progress))
