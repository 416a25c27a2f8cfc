-- ===== src/Buffer/Loop.antt =====
-- The write loop of src/WriteQueueBuffer.hpp: its bound, what it counts, and how it ends.
use async_tcpsock.Base.{
  ℕ, zero, suc, ◌+◌, ◌-◌, ◌≤◌, ◌<◌, ◌≡◌, refl, true, false, ℤ, length, drop, length-drop, arith,
}
use async_tcpsock.Os.{Os}
use async_tcpsock.Os.Laws.{WritesAtMost}
use async_tcpsock.Buffer.{WriteQueueBuffer, write_round, write_loop}

-- The bytes of a buffer that are still to be written.
abbrev pub remaining : WriteQueueBuffer → ℕ
remaining buf = length buf.bytes - buf.amount_written

module _ (os : Os) (law : WritesAtMost os) where
  pub round_counts :
      (socket : ℤ) (it : WriteQueueBuffer) (total : ℕ) (w : os.World)
      → let r = write_round os socket it total w in
        r.written_total + remaining r.it ≡ total + remaining it
  unfolding write_round
  round_counts socket it total w = ground (
    arith,
    law socket (drop it.amount_written it.bytes) w,
    length-drop it.amount_written it.bytes,
  )

  pub round_falls :
      (socket : ℤ) (it : WriteQueueBuffer) (total : ℕ) (w : os.World)
      → 0 < remaining it
      → (write_round os socket it total w).left ≡ false
      → (0 < remaining (write_round os socket it total w).it)
        × (remaining (write_round os socket it total w).it < remaining it)
  unfolding write_round
  round_falls socket it total w h e = ground (
    arith,
    law socket (drop it.amount_written it.bytes) w,
    length-drop it.amount_written it.bytes,
  )

  -- With a round for each byte that is left the loop ends by its own test.
  pub loop_ends :
      (fuel : ℕ) (socket : ℤ) (it : WriteQueueBuffer) (total : ℕ) (w : os.World)
      → 0 < remaining it
      → remaining it ≤ fuel
      → (write_loop os fuel socket it total w).left ≡ true
  unfolding write_loop
  loop_ends zero socket it total w h f = absurd (omega arith)
  loop_ends (suc fuel) socket it total w h f =
      let r = write_round os socket it total w in
      ground
        (arith, round_falls socket it total w h, loop_ends fuel socket r.it r.written_total r.world)

  pub loop_counts :
      (fuel : ℕ) (socket : ℤ) (it : WriteQueueBuffer) (total : ℕ) (w : os.World)
      → let r = write_loop os fuel socket it total w in
        r.written_total + remaining r.it ≡ total + remaining it
  unfolding write_loop
  loop_counts zero socket it total w = refl
  loop_counts (suc fuel) socket it total w =
      let r = write_round os socket it total w in
      ground (
        arith,
        round_counts socket it total w,
        loop_counts fuel socket r.it r.written_total r.world,
      )

-- A loop that has ended by its own test runs the same on more fuel.
pub loop_more_fuel :
    (os : Os) (fuel k : ℕ) (socket : ℤ) (it : WriteQueueBuffer) (total : ℕ) (w : os.World)
    → (write_loop os fuel socket it total w).left ≡ true
    → write_loop os (fuel + k) socket it total w ≡ write_loop os fuel socket it total w
unfolding write_loop
loop_more_fuel os zero k socket it total w h = cc
loop_more_fuel os (suc fuel) k socket it total w h =
    let e : suc fuel + k ≡ suc (fuel + k) = omega arith in
    let r = write_round os socket it total w in
    rw e (ground (arith, loop_more_fuel os fuel k socket r.it r.written_total r.world))
