-- ===== src/Client/Queue/Accounting.antt =====
-- The free space of the queue in src/ClientBase.tpp is what the queue does not owe to the socket.
use async_tcpsock.Base.{
  ℕ, ◌+◌, ◌≡◌, refl, Bool, ◌||◌, List, [], ◌∷◌, ◌++◌, ℤ, ltb, arith, drop, if◌then◌else◌,
}
use async_tcpsock.Os.{Os}
use async_tcpsock.Os.Laws.{WritesAtMost}
use async_tcpsock.Buffer.{WriteQueueBuffer, is_fully_written, write}
use async_tcpsock.Buffer.Loop.{remaining}
use async_tcpsock.Buffer.Outcome.{write_counts}
use async_tcpsock.Client.Queue.{process_buffers, collect}

-- The bytes that a queue still owes to its socket.
abbrev pub owed : List WriteQueueBuffer → ℕ
owed [] = 0
owed (buf ∷ bufs) = remaining buf + owed bufs

pub owed-append : (xs ys : List WriteQueueBuffer) → owed (xs ++ ys) ≡ owed xs + owed ys
owed-append [] ys = omega arith
owed-append (x ∷ xs) ys = omega (arith, owed-append xs ys)

-- A pass over the queue frees as much space as it writes.
pub process_buffers_accounted :
    (os : Os) (law : WritesAtMost os) (socket : ℤ) (bufs : List WriteQueueBuffer) (space : ℕ)
    (activity : Bool) (w : os.World)
    → let p = process_buffers os socket bufs space activity w in
      p.space + owed p.queue ≡ space + owed bufs
unfolding process_buffers
process_buffers_accounted os law socket [] space activity w = refl
process_buffers_accounted os law socket (buf ∷ bufs) space activity w =
    let r = write os socket buf w in
    ground (
      arith,
      write_counts os law socket buf w,
      process_buffers_accounted os law socket bufs space activity w,
      process_buffers_accounted os law socket bufs (space + r.written_total)
          (activity || ltb 0 r.written_total) r.world,
    )

-- What the cleaning of the queue removes owes nothing.
pub owed-drop-collect :
    (bufs : List WriteQueueBuffer) (rx_last : ℕ)
    → owed (drop (collect bufs rx_last).to_remove bufs) ≡ owed bufs
unfolding collect is_fully_written
owed-drop-collect [] rx_last = refl
owed-drop-collect (buf ∷ bufs) rx_last =
    ground (
      arith,
      owed-drop-collect bufs (if ltb rx_last buf.written_at then buf.written_at else rx_last),
    )
