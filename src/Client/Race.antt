-- ===== src/Client/Race.antt =====
-- add() of src/ClientBase.tpp in two threads at once: what it does before it locks the mutex, and
-- with the mutex locked. The free space is a size_t of 32 bits.
pub mod Calls
pub mod Tasks
pub mod Single
pub mod Closing
use async_tcpsock.Base.{
  take, refl, none, some, true, ◌||◌, if◌then◌else◌, ◌==◌, false, length, min, arith, [], not, ◌%◌,
  ◌≡◌, ◌≤◌, ◌∷◌, ◌&&◌, ◌-◌, ◌++◌, ◌^◌, ◌<◌, return, List, ◌+◌, Option, ℕ, ◌>>=◌, ◌>>◌, append-nil,
}
use async_tcpsock.Os.{Os}
use async_tcpsock.Buffer.{WriteQueueBuffer}
use async_tcpsock.Flags.{ClientApiFlags}
use async_tcpsock.Client.State.{M, Sys, get, modify, call_os, lock, unlock, is_connected}
use async_tcpsock.Client.Queue.Order.{pending_all, pending_all-append}
use async_tcpsock.Client.Api

-- An `add` that has not yet locked: it has its result, or a buffer to queue with its size.
pub data Adding : Type 0 where
  returned : ℕ → Adding
  ready : WriteQueueBuffer → ℕ → Adding

-- `_writeSpaceRemaining -= toSend`
abbrev pub less : ℕ → ℕ → ℕ
less space to_send = (space + (2 ^ 32 - to_send)) % 2 ^ 32

module _ (os : Os) where
  unfoldable pub add_begin : Option (List ℕ) → ClientApiFlags → M os Adding
  unfolding Api.new_buffer
  add_begin none flags = return (returned 0)
  add_begin (some bytes) flags = do
    usable ← get os (λ c. is_connected c.state && not (length bytes == 0))
    remaining_space ← get os Api.space
    if not usable || remaining_space == 0 then return (returned 0) else (do
      let to_send = min remaining_space (length bytes)
      now ← call_os os os.now
      return (ready (Api.new_buffer os bytes to_send flags now) to_send))

  unfoldable pub add_commit : Adding → M os ℕ
  add_commit (returned n) = return n
  add_commit (ready buf to_send) = do
    lock os
    modify os λ c. record c {
      write_queue = c.write_queue ++ buf ∷ [];
      write_space_remaining = less c.write_space_remaining to_send;
      ack_timeout_signaled = false;
    }
    unlock os
    return to_send

  unfoldable pub add_alone : Option (List ℕ) → ClientApiFlags → M os ℕ
  add_alone bytes flags s = let (a, s') = add_begin bytes flags s in add_commit a s'

  take_all : (d : List ℕ) → take (length d) d ≡ d
  take_all [] = refl
  take_all (x ∷ xs) = rw (take_all xs)

  less_lem : (a b : ℕ) → a < 2 ^ 32 → b ≤ a → less a b ≡ a - b
  less_lem a b h k = omega arith

  -- As long as the free space is that of a size_t of 32 bits, `add` with its locked part told
  -- apart from what comes before is, when nothing comes in between, `add`: its subtraction never
  -- wraps around.
  add_alone-add :
      (bytes : Option (List ℕ)) (flags : ClientApiFlags) (s : Sys os)
      → s.client.write_space_remaining < 2 ^ 32
      → add_alone bytes flags s ≡ Api.add os bytes flags s
  unfolding add_alone add_begin add_commit Api.add
  add_alone-add none flags s h = refl
  add_alone-add (some bytes) flags s h =
      let c = s.client in
      let n : ℕ = min c.write_space_remaining (length bytes) in
      ground (arith, less_lem c.write_space_remaining n)

  -- Two threads that both begin before either commits.
  pub record Both : Type 0 where
    pub first : ℕ
    pub second : ℕ
    pub after : Sys os

  unfoldable pub add_both : List ℕ → List ℕ → ClientApiFlags → Sys os → Both
  add_both d1 d2 flags s =
      let (a1, s1) = add_begin (some d1) flags s in
      let (a2, s2) = add_begin (some d2) flags s1 in
      let (n1, s3) = add_commit a1 s2 in
      let (n2, s4) = add_commit a2 s3 in record { first = n1; second = n2; after = s4 }

  begins :
      (d : List ℕ) (flags : ClientApiFlags) (s : Sys os)
      → is_connected s.client.state ≡ true
      → 0 < length d
      → length d ≤ s.client.write_space_remaining
      → let (now, w) = os.now s.world in
        add_begin (some d) flags s
        ≡ (ready (Api.new_buffer os d (length d) flags now) (length d), record s { world = w })
  unfolding add_begin
  begins d flags s c h k =
      let e : min s.client.write_space_remaining (length d) ≡ length d = omega arith in
      ground (arith, e)

  less_wraps :
      (space a b : ℕ)
      → space < 2 ^ 32
      → a ≤ space
      → b ≤ space
      → space < a + b
      → less (less space a) b + (a + b) ≡ space + 2 ^ 32
  less_wraps space a b h k l m = omega arith

  -- If two threads add bytes to a connected client, each as many as fit and both together more
  -- than fit, and both have read the free space before either locks the mutex, then both succeed,
  -- the queue gets both, and the free space wraps around.
  pub add_both_wraps :
      (d1 d2 : List ℕ) (flags : ClientApiFlags) (s : Sys os)
      → is_connected s.client.state ≡ true
      → s.client.write_space_remaining < 2 ^ 32
      → length d1 ≤ s.client.write_space_remaining
      → length d2 ≤ s.client.write_space_remaining
      → s.client.write_space_remaining < length d1 + length d2
      → let r = add_both d1 d2 flags s in
        (r.first ≡ length d1)
        × (r.second ≡ length d2)
        × (pending_all r.after.client.write_queue ≡ (pending_all s.client.write_queue ++ d1) ++ d2)
        × (r.after.client.write_space_remaining + (length d1 + length d2)
            ≡ s.client.write_space_remaining + 2 ^ 32)
  unfolding add_both add_commit Api.new_buffer
  add_both_wraps d1 d2 flags s c h k l m =
      let s1 = record s { world = (os.now s.world).1 } in
      let b1 = Api.new_buffer os d1 (length d1) flags (os.now s.world).0 in
      let b2 = Api.new_buffer os d2 (length d2) flags (os.now s1.world).0 in
      let queue = s.client.write_queue in
      ground (
        arith,
        begins d1 flags s c,
        begins d2 flags s1 c,
        pending_all-append queue (b1 ∷ []),
        pending_all-append (queue ++ b1 ∷ []) (b2 ∷ []),
        less_wraps s.client.write_space_remaining (length d1) (length d2) h k l m,
        append-nil d1,
        append-nil d2,
        take_all d1,
        take_all d2,
      )
