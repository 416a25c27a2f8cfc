-- ===== src/Buffer/Outcome.antt =====
-- What one call of `write` (src/WriteQueueBuffer.hpp) leaves: a finished buffer, or one that waits
-- or has failed with its place kept; and the bytes that the peer is sent.
use async_tcpsock.Base.{
  inr, inl, Bool-cases, append-nil, take_add, sym, ap₂, take, ℕ, zero, suc, ◌+◌, ◌-◌, ◌≤◌, ◌<◌, ◌≡◌,
  refl, ◌⊎◌, true, false, List, [], ◌++◌, ℤ, drop, length-drop, arith, append_assoc, ◌∙◌, ap,
  drop_all, take-append-drop, drop-drop, drop-nil,
}
use async_tcpsock.Os.{Os, ok, failed, Ret}
use async_tcpsock.Os.Laws.{WritesAtMost, Stream, accepted}
use async_tcpsock.Buffer.{rounds, WriteQueueBuffer, after_write, write_round, write_loop, write}
use async_tcpsock.Buffer.Loop.{remaining, round_falls, loop_ends, loop_more_fuel, loop_counts}

-- All bytes went out: the data is dropped, and the call has counted what was left.
pub record IsFinished (before after : WriteQueueBuffer) (k : ℕ) : Type 0 where
  pub dropped : after.bytes ≡ []
  pub counted : k ≡ remaining before
  pub no_error : after.error_code ≡ before.error_code
  pub same_time : after.queued_at ≡ before.queued_at

-- The socket took `k` bytes and then no more: the rest waits at its place, or the error is noted.
pub record IsPaused (before after : WriteQueueBuffer) (k : ℕ) : Type 0 where
  pub same_bytes : after.bytes ≡ before.bytes
  pub advanced : after.amount_written ≡ before.amount_written + k
  pub partial : k < remaining before
  pub same_mark : after.written_at ≡ before.written_at
  pub same_time : after.queued_at ≡ before.queued_at

abbrev pub Outcome : WriteQueueBuffer → WriteQueueBuffer → ℕ → Type 0
Outcome before after k = IsFinished before after k ⊎ IsPaused before after k

module _ (os : Os) (law : WritesAtMost os) where
  round-Outcome :
      (socket : ℤ) (it : WriteQueueBuffer) (total : ℕ) (w : os.World)
      → 0 < remaining it
      → let r = write_round os socket it total w in
        (total ≤ r.written_total)
        × Outcome it r.it (r.written_total - total)
        × (r.left ≡ false → r.it.error_code ≡ it.error_code)
        × (r.left ≡ false → r.it.bytes ≡ it.bytes)
  unfolding write_round
  round-Outcome socket it total w h = ground (
    arith,
    law socket (drop it.amount_written it.bytes) w,
    length-drop it.amount_written it.bytes,
  )

  loop-Outcome :
      (fuel : ℕ) (socket : ℤ) (it : WriteQueueBuffer) (total : ℕ) (w : os.World)
      → 0 < remaining it
      → let r = write_loop os fuel socket it total w in
        (total ≤ r.written_total) × Outcome it r.it (r.written_total - total)
  unfolding write_loop
  loop-Outcome zero socket it total w h = ground arith
  loop-Outcome (suc fuel) socket it total w h =
      let r = write_round os socket it total w in
      ground (
        arith,
        round-Outcome socket it total w h,
        round_falls os law socket it total w h,
        loop-Outcome fuel socket r.it r.written_total r.world,
      )

  -- If writes accept at most what they are given, and at least one byte if they succeed, then
  -- writing an unfinished buffer ends by the loop's own test, with the same result on more fuel;
  -- and the buffer is finished and dropped, or it waits or has failed with its bytes and its place
  -- kept, short of its end.
  pub write_ends :
      (socket : ℤ) (buf : WriteQueueBuffer) (w : os.World) (k : ℕ)
      → 0 < remaining buf
      → let r = write os socket buf w in
        (r.left ≡ true)
        × (write_loop os (rounds buf + k) socket buf 0 w ≡ r)
        × Outcome buf r.it r.written_total
  unfolding write
  write_ends socket buf w k h =
      let ends = loop_ends os law (rounds buf) socket buf 0 w h (omega arith) in
      let outcome = loop-Outcome (rounds buf) socket buf 0 w h in
      (ends, loop_more_fuel os (rounds buf) k socket buf 0 w ends, ground (arith, outcome))

  pub write_counts :
      (socket : ℤ) (buf : WriteQueueBuffer) (w : os.World)
      → (write os socket buf w).written_total + remaining (write os socket buf w).it ≡ remaining buf
  unfolding write
  write_counts socket buf w = omega (arith, loop_counts os law (rounds buf) socket buf 0 w)

-- The bytes that a buffer still owes to its socket.
abbrev pub pending : WriteQueueBuffer → List ℕ
pending buf = drop buf.amount_written buf.bytes

taken_count : Ret → ℕ
taken_count (ok n) = n
taken_count (failed e) = 0

accepted_taken : (d : List ℕ) (r : Ret) → accepted d r ≡ take (taken_count r) d
unfolding taken_count
accepted_taken d (ok n) = refl
accepted_taken d (failed e) = refl

module _ (os : Os) (socket : ℤ) (stream : Stream os socket) where
  open stream use {received, received-write, received-now}

  -- Between two moments the peer is sent the next `k` bytes of a buffer, which then owes the others.
  pub record Sends (w w' : os.World) (buf buf' : WriteQueueBuffer) (k : ℕ) : Type 0 where
    pub sent : received w' ≡ received w ++ take k (pending buf)
    pub left : pending buf' ≡ drop k (pending buf)

  Sends-trans :
      {w w1 w2 : os.World} {b b1 b2 : WriteQueueBuffer} (m n : ℕ)
      → Sends w w1 b b1 m
      → Sends w1 w2 b1 b2 n
      → Sends w w2 b b2 (m + n)
  Sends-trans {w} {w1} {w2} {b} {b1} {b2} m n p q = record {
    sent =
        q.sent
        ∙ ap₂ (λ (x y : List ℕ). x ++ take n y) p.sent p.left
        ∙ append_assoc (received w) (take m (pending b)) (take n (drop m (pending b)))
        ∙ ap (λ (x : List ℕ). received w ++ x) (sym (take_add m n (pending b)));
    left = q.left ∙ ap (λ (x : List ℕ). drop n x) p.left ∙ drop-drop m n (pending b);
  }

  after_write_sends :
      (it : WriteQueueBuffer) (total : ℕ) (result : Ret) (w : os.World)
      → let r = after_write os it total result w in
        (r.written_total ≡ total + taken_count result)
        × (received r.world ≡ received w)
        × (pending r.it ≡ drop (taken_count result) (pending it))
  unfolding after_write taken_count
  after_write_sends it total (ok n) w = ground (
    arith,
    received-now w,
    drop-drop it.amount_written n it.bytes,
    drop_all (it.amount_written + n) it.bytes,
    drop-nil {A = ℕ} (it.amount_written + n),
  )
  after_write_sends it total (failed e) w = ground arith

  round-Sends :
      (it : WriteQueueBuffer) (total : ℕ) (w : os.World)
      → let r = write_round os socket it total w in
        (k : ℕ) × (r.written_total ≡ total + k) × Sends w r.world it r.it k
  unfolding write_round
  round-Sends it total w =
      let d : List ℕ = pending it in
      let result : Ret = (os.write socket d w).0 in
      let w' : os.World = (os.write socket d w).1 in
      let after = after_write_sends it total result w' in
      (
        taken_count result,
        after.0,
        record {
          sent =
              after.1
              ∙ received-write d w
              ∙ ap (λ (x : List ℕ). received w ++ x) (accepted_taken d result);
          left = after.2;
        },
      )

  loop-Sends :
      (fuel : ℕ) (it : WriteQueueBuffer) (total : ℕ) (w : os.World)
      → let r = write_loop os fuel socket it total w in
        (k : ℕ) × (r.written_total ≡ total + k) × Sends w r.world it r.it k
  unfolding write_loop
  loop-Sends zero it total w =
      (0, omega arith, record { sent = sym (append-nil (received w)); left = refl })
  loop-Sends (suc fuel) it total w =
      let r = write_round os socket it total w in
      let (k, counted, sends) = round-Sends it total w in
      let (k', counted', sends') = loop-Sends fuel r.it r.written_total r.world in
      elim (Bool-cases r.left) [
        | inl e ↦ rw (e, write_loop) (k, counted, sends)
        | inr e ↦
            rw (e, write_loop)
              (k + k', omega (arith, counted, counted'), Sends-trans k k' sends sends')
      ]

  -- If the peer is sent what writes accept, then writing a buffer sends it the next bytes of the
  -- buffer, as many as the call returns, in order and once each, and the buffer owes the others.
  pub write_sends :
      (buf : WriteQueueBuffer) (w : os.World)
      → let r = write os socket buf w in
        (received r.world ≡ received w ++ take r.written_total (pending buf))
        × (pending r.it ≡ drop r.written_total (pending buf))
  unfolding write
  write_sends buf w =
      let (k, counted, sends) = loop-Sends (rounds buf) buf 0 w in
      let e : (write_loop os (rounds buf) socket buf 0 w).written_total ≡ k =
        omega (arith, counted) in
      rw e (sends.sent, sends.left)

  pub write_stream :
      (buf : WriteQueueBuffer) (w : os.World)
      → let r = write os socket buf w in
        received r.world ++ pending r.it ≡ received w ++ pending buf
  write_stream buf w =
      let r = write os socket buf w in
      let (sent, left) = write_sends buf w in
      ap₂ (λ (x y : List ℕ). x ++ y) sent left
      ∙ append_assoc (received w) (take r.written_total (pending buf))
          (drop r.written_total (pending buf))
      ∙ ap (λ (x : List ℕ). received w ++ x) (take-append-drop r.written_total (pending buf))
