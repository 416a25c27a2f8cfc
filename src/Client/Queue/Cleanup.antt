-- ===== src/Client/Queue/Cleanup.antt =====
-- Which buffers _cleanupWriteQueue (src/ClientBase.tpp) takes off the queue and reports.
use async_tcpsock.Base.{
  ◌&&◌, Option, not, ℕ, ◌≡◌, Bool, true, false, none, some, List, [], ◌∷◌, ltb, if◌then◌else◌, drop,
  ℤ,
}
use async_tcpsock.Os.{Os}
use async_tcpsock.Buffer.{WriteQueueBuffer, has_error, is_fully_written}
use async_tcpsock.Client.Queue.{collect, WriteStats, stats_of}
use async_tcpsock.Client.State.{Sys, unlocked}
use async_tcpsock.Client.Callbacks.{Callback}
use async_tcpsock.Client.Fires.{invoked_of}

-- A buffer that is written out and free of errors.
abbrev pub is_done : WriteQueueBuffer → Bool
is_done buf = not (has_error buf) && is_fully_written buf

abbrev pub AllDone : List WriteQueueBuffer → Type 0
AllDone [] = Unit
AllDone (buf ∷ bufs) = (is_done buf ≡ true) × AllDone bufs

-- The rest begins with a buffer that is not done, or is empty.
abbrev pub Stops : List WriteQueueBuffer → Type 0
Stops [] = Unit
Stops (buf ∷ bufs) = is_done buf ≡ false

abbrev pub map_stats : List WriteQueueBuffer → List WriteStats
map_stats [] = []
map_stats (buf ∷ bufs) = stats_of buf ∷ map_stats bufs

-- The latest `writtenAt` of some buffers and a start value.
abbrev pub latest : List WriteQueueBuffer → ℕ → ℕ
latest [] rx_last = rx_last
latest (buf ∷ bufs) rx_last =
    latest bufs (if ltb rx_last buf.written_at then buf.written_at else rx_last)

-- The error that stands at the front, if there is one.
abbrev pub front_error : List WriteQueueBuffer → Option ℤ
front_error [] = none
front_error (buf ∷ bufs) = if has_error buf then some buf.error_code else none

-- What the loop over a queue finds out, if the front is done and the rest stops it.
abbrev Splits : List WriteQueueBuffer → List WriteQueueBuffer → ℕ → List WriteQueueBuffer → Type 0
Splits front rest rx_last bufs =
    let found = collect bufs rx_last in
    (found.failure ≡ front_error rest)
    × (drop found.to_remove bufs ≡ rest)
    × (found.notify_queue ≡ map_stats front)
    × (found.rx_last ≡ latest front rx_last)

module _ (os : Os) where
  -- The client with the mutex free and the time of its last packet noted.
  abbrev pub noted : List WriteQueueBuffer → Sys os → Sys os
  noted front s = record s {
    client = record s.client {
      write_mutex = unlocked s.client.write_mutex;
      rx_last_packet = latest front s.client.rx_last_packet;
    };
  }

  abbrev pub without_front : List WriteQueueBuffer → Sys os → Sys os
  without_front rest s = record s { client = record s.client { write_queue = rest } }

  abbrev logged : Sys os → List Callback
  logged s = invoked_of s.log
