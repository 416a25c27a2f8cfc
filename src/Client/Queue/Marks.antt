-- ===== src/Client/Queue/Marks.antt =====
-- The error codes in the write queue of src/ClientBase.tpp.
use async_tcpsock.Base.{
  ◌≡◌, refl, ℕ, zero, suc, ◌+◌, Bool, ◌||◌, some, List, [], ◌∷◌, ◌++◌, ℤ, pos, negsuc, arith, drop,
  ltb, ==ℤ_iff,
}
use async_tcpsock.Os.{Os}
use async_tcpsock.Os.Laws.{IsErrno, Errnos}
use async_tcpsock.Buffer.{WriteQueueBuffer, write, has_error}
use async_tcpsock.Buffer.Marks.{IsMark, write-IsMark}
use async_tcpsock.Client.Queue.{process_buffers, collect}

abbrev pub AllMarks : List WriteQueueBuffer → Type 0
AllMarks [] = Unit {0}
AllMarks (buf ∷ bufs) = IsMark buf.error_code × AllMarks bufs

pub AllMarks-append :
    (bufs more : List WriteQueueBuffer) → AllMarks bufs → AllMarks more → AllMarks (bufs ++ more)
AllMarks-append [] more h k = k
AllMarks-append (buf ∷ bufs) more h k = (h.0, AllMarks-append bufs more h.1 k)

pub AllMarks-drop : (n : ℕ) (bufs : List WriteQueueBuffer) → AllMarks bufs → AllMarks (drop n bufs)
AllMarks-drop zero bufs h = h
AllMarks-drop (suc n) [] h = tt
AllMarks-drop (suc n) (buf ∷ bufs) h = AllMarks-drop n bufs h.1

mark_of_failure : (code : ℤ) → IsMark code → (code ≡ pos 0 → ⊥) → IsErrno code
mark_of_failure (pos zero) m n = absurd (n refl)
mark_of_failure (pos (suc k)) m n = omega arith
mark_of_failure (negsuc k) m n = m

pub collect_failure :
    (bufs : List WriteQueueBuffer) (rx_last : ℕ) (code : ℤ)
    → AllMarks bufs
    → (collect bufs rx_last).failure ≡ some code
    → IsErrno code
unfolding collect has_error
collect_failure [] rx_last code h f = cc
collect_failure (buf ∷ bufs) rx_last code h f = ground (
  arith,
  ==ℤ_iff buf.error_code (pos 0),
  mark_of_failure buf.error_code h.0,
  collect_failure bufs buf.written_at code h.1,
  collect_failure bufs rx_last code h.1,
)

module _ (os : Os) (errnos : Errnos os) where
  pub process_buffers-AllMarks :
      (socket : ℤ) (bufs : List WriteQueueBuffer) (space : ℕ) (activity : Bool) (w : os.World)
      → AllMarks bufs
      → AllMarks (process_buffers os socket bufs space activity w).queue
  unfolding process_buffers
  process_buffers-AllMarks socket [] space activity w h = tt
  process_buffers-AllMarks socket (buf ∷ bufs) space activity w h =
      let r = write os socket buf w in
      ground (
        arith,
        write-IsMark os errnos socket buf w h.0,
        process_buffers-AllMarks socket bufs space activity w h.1,
        process_buffers-AllMarks socket bufs (space + r.written_total)
            (activity || ltb 0 r.written_total) r.world h.1,
      )
