-- ===== src/Buffer.antt =====
-- src/WriteQueueBuffer.hpp: a buffer of the write queue, and the loop that writes it to a socket.
pub mod Loop
pub mod Outcome
pub mod Saturated
pub mod Progress
pub mod Marks
use async_tcpsock.Base.{
  ℕ, zero, suc, ◌+◌, Bool, true, false, ◌||◌, not, List, [], ℤ, pos, ◌==ℤ◌, leb, length, drop,
  if◌then◌else◌,
}
use async_tcpsock.Os.{Os, Ret, ok, failed}

-- The `std::variant`: both alternatives have the same fields, so the tag is one more field.
pub data Alternative : Type 0 where
  borrowed owned : Alternative

-- Times are nanoseconds of the steady clock; 0 is `time_point{}`.
pub record CommonWriteQueueBuffer : Type 0 where
  pub amount_written : ℕ
  pub queued_at : ℕ
  pub written_at : ℕ
  pub error_code : ℤ

pub record WriteQueueBuffer : Type 0 where
  pub alternative : Alternative
  pub common : CommonWriteQueueBuffer
  pub open common use *
  pub bytes : List ℕ

abbrev pub as_common_view : WriteQueueBuffer → CommonWriteQueueBuffer
as_common_view buf = buf.common

unfoldable pub has_error : WriteQueueBuffer → Bool
has_error buf = not (buf.error_code ==ℤ pos 0)

unfoldable pub is_fully_written : WriteQueueBuffer → Bool
is_fully_written buf = leb (length buf.bytes) buf.amount_written

-- How many rounds the loop is given.
abbrev pub rounds : WriteQueueBuffer → ℕ
rounds buf = suc (length buf.bytes)

module _ (os : Os) where
  open os use {World, eagain, ewouldblock}

  -- What one round of the loop leaves: the buffer, `writtenTotal`, and the world; and whether a
  -- `break` has left the loop.
  pub record Round : Type 0 where
    pub it : WriteQueueBuffer
    pub written_total : ℕ
    pub world : World
    pub left : Bool

  -- The round once `lwip_write` has returned.
  unfoldable pub after_write : WriteQueueBuffer → ℕ → Ret → World → Round
  unfolding is_fully_written
  after_write it total (ok n) w =
      let it' : WriteQueueBuffer = record it {
        common = record it.common { amount_written = it.amount_written + n };
      } in
      let (t, w') = os.now w in
      if is_fully_written it'
      then record {
        it = record it' { common = record it'.common { written_at = t }; bytes = [] };
        written_total = total + n;
        world = w';
        left = true;
      }
      else record { it = it'; written_total = total + n; world = w; left = false }
  after_write it total (failed e) w =
      if e ==ℤ eagain || e ==ℤ ewouldblock
      then record { it = it; written_total = total; world = w; left = true }
      else record {
        it = record it { common = record it.common { error_code = e } };
        written_total = total;
        world = w;
        left = true;
      }

  unfoldable pub write_round : ℤ → WriteQueueBuffer → ℕ → World → Round
  unfolding after_write
  write_round socket it total w =
      let (result, w') = os.write socket (drop it.amount_written it.bytes) w in
      after_write it total result w'

  -- The `do … while`. Its condition is the negation of the test at the end of the round, so a round
  -- that does not `break` goes on.
  unfoldable pub write_loop : ℕ → ℤ → WriteQueueBuffer → ℕ → World → Round
  write_loop zero socket it total w = record {
    it = it;
    written_total = total;
    world = w;
    left = false;
  }
  write_loop (suc fuel) socket it total w =
      let r = write_round socket it total w in
      elim r.left [ true ↦ r | false ↦ write_loop fuel socket r.it r.written_total r.world ]

  -- The loop always runs once, and a round that goes on has written a byte and left one.
  unfoldable pub write : ℤ → WriteQueueBuffer → World → Round
  unfolding write_loop
  write socket buf w = write_loop (rounds buf) socket buf 0 w
