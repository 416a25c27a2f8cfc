-- ===== src/Buffer/Marks.antt =====
-- The error code that a write (src/WriteQueueBuffer.hpp) leaves in a buffer.
use async_tcpsock.Base.{◌≡◌, refl, ℕ, zero, suc, List, ℤ, pos, negsuc, arith, drop}
use async_tcpsock.Os.{Os, Ret, ok, failed}
use async_tcpsock.Os.Laws.{IsErrno, Errnos}
use async_tcpsock.Buffer.{WriteQueueBuffer, after_write, write_round, write_loop, write, rounds}

-- The code of a buffer is 0 or an errno.
abbrev pub IsMark : ℤ → Type 0
IsMark (pos n) = Unit {0}
IsMark (negsuc n) = ⊥

errno-IsMark : (e : ℤ) → IsErrno e → IsMark e
errno-IsMark (pos n) h = tt
errno-IsMark (negsuc n) h = h

module _ (os : Os) (errnos : Errnos os) where
  after_write-IsMark :
      (it : WriteQueueBuffer) (total : ℕ) (result : Ret) (w : os.World)
      → ((e : ℤ) → result ≡ failed e → IsErrno e)
      → IsMark it.error_code
      → IsMark (after_write os it total result w).it.error_code
  unfolding after_write
  after_write-IsMark it total (ok n) w h m = ground arith
  after_write-IsMark it total (failed e) w h m = ground (arith, errno-IsMark e (h e refl))

  round-IsMark :
      (socket : ℤ) (it : WriteQueueBuffer) (total : ℕ) (w : os.World)
      → IsMark it.error_code
      → IsMark (write_round os socket it total w).it.error_code
  unfolding write_round
  round-IsMark socket it total w m =
      let d : List ℕ = drop it.amount_written it.bytes in
      after_write-IsMark it total (os.write socket d w).0 (os.write socket d w).1
        (errnos.writing socket d w) m

  loop-IsMark :
      (fuel : ℕ) (socket : ℤ) (it : WriteQueueBuffer) (total : ℕ) (w : os.World)
      → IsMark it.error_code
      → IsMark (write_loop os fuel socket it total w).it.error_code
  unfolding write_loop
  loop-IsMark zero socket it total w m = m
  loop-IsMark (suc fuel) socket it total w m =
      let r = write_round os socket it total w in
      ground (
        arith,
        round-IsMark socket it total w m,
        loop-IsMark fuel socket r.it r.written_total r.world,
      )

  pub write-IsMark :
      (socket : ℤ) (buf : WriteQueueBuffer) (w : os.World)
      → IsMark buf.error_code
      → IsMark (write os socket buf w).it.error_code
  unfolding write
  write-IsMark socket buf w m = loop-IsMark (rounds buf) socket buf 0 w m
