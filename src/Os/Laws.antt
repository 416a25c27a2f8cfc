-- ===== src/Os/Laws.antt =====
-- What the theorems assume of the external calls: documented behaviour of lwIP's sockets and of
-- the clock, as named hypotheses.
use async_tcpsock.Base.{
  negsuc, pos, true, Bool, ℕ, ◌≤◌, ◌<◌, ◌≡◌, List, [], ◌++◌, ℤ, length, take, minus_one,
}
use async_tcpsock.Os.{ReadRet, Os, Ret, ok, failed}

-- A write of `k` bytes accepts at most `k`, and at least one if it succeeds and `k` is not 0.
abbrev pub Accepts : ℕ → Ret → Type 0
Accepts k (ok n) = (n ≤ k) × (0 < k → 0 < n)
Accepts k (failed e) = Unit {0}

-- The bytes of `d` that a write with this result has taken over.
abbrev pub accepted : List ℕ → Ret → List ℕ
accepted d (ok n) = take n d
accepted d (failed e) = []

abbrev pub WritesAtMost : Os → Type 0
WritesAtMost os =
    (socket : ℤ) (d : List ℕ) (w : os.World) → Accepts (length d) (os.write socket d w).0

-- What the peer of one socket is sent: a write appends what it accepts, the clock and
-- `select` nothing.
pub record Stream (os : Os) (socket : ℤ) : Type 0 where
  pub received : os.World → List ℕ
  pub received-write :
      (d : List ℕ) (w : os.World)
      → received (os.write socket d w).1 ≡ received w ++ accepted d (os.write socket d w).0
  pub received-now : (w : os.World) → received (os.now w).1 ≡ received w
  pub received-select : (w : os.World) → received (os.select_write socket w).1 ≡ received w

abbrev pub IsFailed : Ret → Type 0
IsFailed (ok n) = ⊥
IsFailed (failed e) = Unit {0}

-- A write keeps to its buffer, and asking the descriptor -1 for its status fails (EBADF).
pub record Lawful (os : Os) : Type 0 where
  pub writes : WritesAtMost os
  pub bad_descriptor : (w : os.World) → IsFailed (os.so_error minus_one w).0

-- A socket that has refused bytes refuses them for the rest of a pass over the queue.
pub record Saturates (os : Os) (socket : ℤ) : Type 0 where
  pub full : os.World → Bool
  pub fails :
      (d : List ℕ) (w : os.World)
      → full w ≡ true
      → IsFailed (os.write socket d w).0 × (full (os.write socket d w).1 ≡ true)
  pub becomes :
      (d : List ℕ) (w : os.World)
      → IsFailed (os.write socket d w).0
      → full (os.write socket d w).1 ≡ true

-- After `meanwhile` the socket accepts the next write, and it only ever fails with EAGAIN.
pub record Serves (os : Os) (socket : ℤ) (meanwhile : os.World → os.World) : Type 0 where
  pub room :
      (d : List ℕ) (w : os.World)
      → 0 < length d
      → (n : ℕ) × ((os.write socket d (meanwhile w)).0 ≡ ok n)
  pub soft :
      (d : List ℕ) (w : os.World) (e : ℤ) → (os.write socket d w).0 ≡ failed e → e ≡ os.eagain

-- An errno is a positive number.
abbrev pub IsErrno : ℤ → Type 0
IsErrno (pos n) = 0 < n
IsErrno (negsuc n) = ⊥

-- What `errno` is after a call that has failed.
pub record Errnos (os : Os) : Type 0 where
  pub writing :
      (socket : ℤ) (d : List ℕ) (w : os.World) (e : ℤ)
      → (os.write socket d w).0 ≡ failed e
      → IsErrno e
  pub reading :
      (socket : ℤ) (n : ℕ) (w : os.World) (e : ℤ)
      → (os.read socket n w).0 ≡ ReadRet.failed e
      → IsErrno e
  pub asking : (socket : ℤ) (w : os.World) (e : ℤ) → (os.so_error socket w).0 ≡ failed e → IsErrno e
