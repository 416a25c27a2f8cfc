-- ===== src/Buffer/Saturated.antt =====
-- `write` (src/WriteQueueBuffer.hpp) on a socket that stays full once it is.
use async_tcpsock.Base.{append-nil, ℕ, zero, suc, ◌<◌, ◌≡◌, refl, ◌⊎◌, true, List, [], ℤ, arith}
use async_tcpsock.Os.{Os, Ret, ok, failed}
use async_tcpsock.Os.Laws.{WritesAtMost, Stream, Saturates, IsFailed, accepted}
use async_tcpsock.Buffer.{rounds, WriteQueueBuffer, after_write, write_round, write_loop, write}
use async_tcpsock.Buffer.Loop.{remaining, loop_ends}
use async_tcpsock.Buffer.Outcome.{pending}

accepted_none : (d : List ℕ) (r : Ret) → IsFailed r → accepted d r ≡ []
accepted_none d (ok n) h = absurd h
accepted_none d (failed e) h = refl

module _ (os : Os) (socket : ℤ) (stream : Stream os socket) (sat : Saturates os socket) where
  open stream use {received, received-write}
  open sat use {full, fails, becomes}

  after_write_full :
      (it : WriteQueueBuffer) (total : ℕ) (result : Ret) (w : os.World)
      → IsFailed result
      → full w ≡ true
      → let r = after_write os it total result w in
        (r.world ≡ w) × (pending r.it ≡ pending it) × (r.left ≡ true)
  unfolding after_write
  after_write_full it total (ok n) w h f = absurd h
  after_write_full it total (failed e) w h f = ground arith

  after_write_stops :
      (it : WriteQueueBuffer) (total : ℕ) (result : Ret) (w : os.World)
      → (IsFailed result → full w ≡ true)
      → let r = after_write os it total result w in
        r.left ≡ true → (r.it.bytes ≡ []) ⊎ (full r.world ≡ true)
  unfolding after_write
  after_write_stops it total (ok n) w h l = ground arith
  after_write_stops it total (failed e) w h l = let f : full w ≡ true = h tt in ground arith

  loop_full :
      (fuel : ℕ) (it : WriteQueueBuffer) (total : ℕ) (w : os.World)
      → 0 < fuel
      → full w ≡ true
      → let r = write_loop os fuel socket it total w in
        (received r.world ≡ received w) × (pending r.it ≡ pending it) × (full r.world ≡ true)
  unfolding write_loop write_round
  loop_full zero it total w h f = absurd (omega arith)
  loop_full (suc fuel) it total w h f =
      let d : List ℕ = pending it in
      let (bad, still) = fails d w f in
      let result : Ret = (os.write socket d w).0 in
      let w' : os.World = (os.write socket d w).1 in
      ground (
        arith,
        after_write_full it total result w' bad still,
        received-write d w,
        accepted_none d result bad,
        append-nil (received w),
        still,
      )

  round_stops :
      (it : WriteQueueBuffer) (total : ℕ) (w : os.World)
      → let r = write_round os socket it total w in
        r.left ≡ true → (r.it.bytes ≡ []) ⊎ (full r.world ≡ true)
  unfolding write_round
  round_stops it total w =
      let (result, w') = os.write socket (pending it) w in
      after_write_stops it total result w' (becomes (pending it) w)

  loop_stops :
      (fuel : ℕ) (it : WriteQueueBuffer) (total : ℕ) (w : os.World)
      → let r = write_loop os fuel socket it total w in
        r.left ≡ true → (r.it.bytes ≡ []) ⊎ (full r.world ≡ true)
  unfolding write_loop
  loop_stops zero it total w l = cc
  loop_stops (suc fuel) it total w l =
      let r = write_round os socket it total w in
      ground (arith, round_stops it total w, loop_stops fuel r.it r.written_total r.world)

  -- On a full socket a buffer keeps its bytes and the peer is sent none.
  pub write_full :
      (buf : WriteQueueBuffer) (w : os.World)
      → 0 < remaining buf
      → full w ≡ true
      → let r = write os socket buf w in
        (received r.world ≡ received w) × (pending r.it ≡ pending buf) × (full r.world ≡ true)
  unfolding write
  write_full buf w h f = loop_full (rounds buf) buf 0 w (omega arith) f

  -- A write that starts ends with the buffer's last byte or with a full socket.
  pub write_stops :
      (law : WritesAtMost os) (buf : WriteQueueBuffer) (w : os.World)
      → 0 < remaining buf
      → let r = write os socket buf w in (r.it.bytes ≡ []) ⊎ (full r.world ≡ true)
  unfolding write
  write_stops law buf w h =
      loop_stops (rounds buf) buf 0 w (loop_ends os law (rounds buf) socket buf 0 w h (omega arith))
