-- ===== src/Buffer/Progress.antt =====
-- What a write (src/WriteQueueBuffer.hpp) achieves on a socket that has room, and that fails softly.
use async_tcpsock.Base.{
  ◌≡◌, refl, ℕ, zero, suc, ◌≤◌, ◌<◌, List, ℤ, arith, length, drop, length-drop, ==ℤ_iff,
}
use async_tcpsock.Os.{Os, Ret, ok, failed}
use async_tcpsock.Os.Laws.{WritesAtMost, Serves}
use async_tcpsock.Buffer.{
  WriteQueueBuffer, has_error, after_write, write_round, write_loop, write, rounds,
}
use async_tcpsock.Buffer.Loop.{remaining}

module _ (os : Os) (law : WritesAtMost os) (socket : ℤ) (meanwhile : os.World → os.World)
    (serves : Serves os socket meanwhile) where
  after_write_soft :
      (it : WriteQueueBuffer) (total : ℕ) (result : Ret) (w : os.World)
      → ((e : ℤ) → result ≡ failed e → e ≡ os.eagain)
      → has_error (after_write os it total result w).it ≡ has_error it
  unfolding after_write has_error
  after_write_soft it total (ok n) w soft = ground arith
  after_write_soft it total (failed e) w soft = ground (arith, soft e refl, ==ℤ_iff e os.eagain)

  round_soft :
      (it : WriteQueueBuffer) (total : ℕ) (w : os.World)
      → has_error (write_round os socket it total w).it ≡ has_error it
  unfolding write_round
  round_soft it total w =
      let d : List ℕ = drop it.amount_written it.bytes in
      after_write_soft it total (os.write socket d w).0 (os.write socket d w).1 (serves.soft d w)

  loop_soft :
      (fuel : ℕ) (it : WriteQueueBuffer) (total : ℕ) (w : os.World)
      → has_error (write_loop os fuel socket it total w).it ≡ has_error it
  unfolding write_loop
  loop_soft zero it total w = refl
  loop_soft (suc fuel) it total w =
      let r = write_round os socket it total w in
      ground (arith, round_soft it total w, loop_soft fuel r.it r.written_total r.world)

  pub write_soft :
      (buf : WriteQueueBuffer) (w : os.World) → has_error (write os socket buf w).it ≡ has_error buf
  unfolding write
  write_soft buf w = loop_soft (rounds buf) buf 0 w

  loop_grows :
      (fuel : ℕ) (it : WriteQueueBuffer) (total : ℕ) (w : os.World)
      → total ≤ (write_loop os fuel socket it total w).written_total
  unfolding write_loop write_round after_write
  loop_grows zero it total w = omega arith
  loop_grows (suc fuel) it total w =
      let r = write_round os socket it total w in
      ground (arith, loop_grows fuel r.it r.written_total r.world)

  first_round_sends :
      (it : WriteQueueBuffer) (w : os.World)
      → 0 < remaining it
      → 0 < (write_round os socket it 0 (meanwhile w)).written_total
  unfolding write_round after_write
  first_round_sends it w h =
      let d : List ℕ = drop it.amount_written it.bytes in
      let long : length d ≡ remaining it = length-drop it.amount_written it.bytes in
      let (n, accepted) = serves.room d w (omega (arith, long)) in
      ground (arith, accepted, law socket d (meanwhile w), long)

  pub write_progress :
      (buf : WriteQueueBuffer) (w : os.World)
      → 0 < remaining buf
      → 0 < (write os socket buf (meanwhile w)).written_total
  unfolding write write_loop
  write_progress buf w h =
      let r = write_round os socket buf 0 (meanwhile w) in
      ground (
        arith,
        first_round_sends buf w h,
        loop_grows (length buf.bytes) r.it r.written_total r.world,
      )
