-- ===== src/Client/Queue.antt =====
-- The write queue in src/ClientBase.tpp: _processWriteQueue, the collecting loop of
-- _cleanupWriteQueue, and _clearWriteQueue.
pub mod Accounting
pub mod Cleanup
pub mod Order
pub mod Drain
pub mod Marks
use async_tcpsock.Base.{
  ℕ, ◌+◌, ◌-◌, ◌/◌, ◌%◌, ◌^◌, suc, Bool, false, ◌||◌, Option, none, some, List, [], ◌∷◌, ℤ, ltb,
  if◌then◌else◌, ◌>>◌,
}
use async_tcpsock.Os.{Os}
use async_tcpsock.Buffer.{WriteQueueBuffer, has_error, is_fully_written, write}
use async_tcpsock.Client.State.{M, modify, lock, unlock}

-- `_processWriteQueue`'s loop: the queue, the free space, `activity` and the world after it.
pub record Pass (os : Os) : Type 0 where
  pub queue : List WriteQueueBuffer
  pub space : ℕ
  pub activity : Bool
  pub world : os.World

module _ (os : Os) where
  abbrev pub keep_front : WriteQueueBuffer → Pass os → Pass os
  keep_front buf p = record p { queue = buf ∷ p.queue }

  -- The loop over the buffers. `break` at one with an error, `continue` at a finished one.
  unfoldable pub process_buffers : ℤ → List WriteQueueBuffer → ℕ → Bool → os.World → Pass os
  process_buffers socket [] space activity w = record {
    queue = [];
    space = space;
    activity = activity;
    world = w;
  }
  process_buffers socket (buf ∷ bufs) space activity w =
      let skipped = process_buffers socket bufs space activity w in
      let r = write os socket buf w in
      let written =
        process_buffers socket bufs (space + r.written_total) (activity || ltb 0 r.written_total)
          r.world in
      if has_error buf
      then record { queue = buf ∷ bufs; space = space; activity = activity; world = w }
      else if is_fully_written buf
      then keep_front buf skipped
      else keep_front r.it written

  unfoldable pub process_write_queue : M os Bool
  process_write_queue s =
      let c = s.client in
      let p = process_buffers c.socket c.write_queue c.write_space_remaining false s.world in
      (
        p.activity,
        record s {
          client = record c { write_queue = p.queue; write_space_remaining = p.space };
          world = p.world;
        },
      )

  -- _clearWriteQueue()
  unfoldable pub clear_write_queue : M os (Unit {0})
  clear_write_queue = do
    lock os
    modify os λ c. record c { write_queue = []; write_space_remaining = os.tcp_snd_buf }
    unlock os

-- A duration as a count of milliseconds in a uint32_t.
abbrev pub milliseconds : ℕ → ℕ
milliseconds nanoseconds = nanoseconds / 1_000_000 % 2 ^ 32

-- `delay` is the count of its duration.
pub record WriteStats : Type 0 where
  pub length : ℕ
  pub delay : ℕ

-- What the loop over the front of the queue has found out: the error of a buffer, if it met one,
-- and else the notifications and the number of finished buffers.
pub record Collected : Type 0 where
  pub failure : Option ℤ
  pub rx_last : ℕ
  pub notify_queue : List WriteStats
  pub to_remove : ℕ

abbrev pub stats_of : WriteQueueBuffer → WriteStats
stats_of it = record {
  length = it.amount_written;
  delay = milliseconds (it.written_at - it.queued_at);
}

unfoldable pub collect : List WriteQueueBuffer → ℕ → Collected
collect [] rx_last = record { failure = none; rx_last = rx_last; notify_queue = []; to_remove = 0 }
collect (buf ∷ bufs) rx_last =
    let rest = collect bufs (if ltb rx_last buf.written_at then buf.written_at else rx_last) in
    if has_error buf
    then record {
      failure = some buf.error_code;
      rx_last = rx_last;
      notify_queue = [];
      to_remove = 0;
    }
    else if is_fully_written buf
    then record rest {
      notify_queue = stats_of buf ∷ rest.notify_queue;
      to_remove = suc rest.to_remove;
    }
    else record { failure = none; rx_last = rx_last; notify_queue = []; to_remove = 0 }
