-- ===== src/Samples.antt =====
-- A concrete network for the tests: it meets the hypotheses of the theorems.
mod Buffers
mod Clients
mod Failures
mod Tasks
mod Sessions
mod Rounds
mod Sketches
mod Processes
mod Races
use async_tcpsock.Base.{
  drop, ◌*◌, append-nil, ℕ, ◌+◌, ◌-◌, ◌≡◌, refl, min, Bool, true, false, not, Option, none, some,
  List, [], ◌∷◌, ◌++◌, ℤ, pos, negsuc, minus_one, ◌==◌, ◌==ℤ◌, if◌then◌else◌, length, take, arith,
  length-take,
}
use async_tcpsock.Os.{Os, Ret, ok, failed, ReadRet, DnsRet, SelectRet}
use async_tcpsock.Os.Laws.{WritesAtMost, Stream, Saturates, Lawful, Accepts, accepted, IsFailed}

-- A clock, how many bytes the socket still takes, what it takes after that, what the peer has been
-- sent, and what it has sent.
pub record Net : Type 0 where
  pub clock : ℕ
  pub room : ℕ
  pub refill : ℕ
  pub peer : List ℕ
  pub inbox : List ℕ

abbrev pub take_bytes : List ℕ → Net → Ret × Net
take_bytes d w = if w.room == 0 then (failed (pos 11), w) else (
  ok (min w.room (length d)),
  record w { room = w.room - length d; peer = w.peer ++ take (min w.room (length d)) d },
)

-- Bytes as one number, the most significant first.
abbrev number_from : ℕ → List ℕ → ℕ
number_from n [] = n
number_from n (b ∷ bs) = number_from (n * 256 + b) bs

abbrev number : List ℕ → ℕ
number = number_from 0

abbrev pub quiet_os : Os
quiet_os = record {
  World = Net;
  tcp_snd_buf = 5744;
  tcp_mss = 1436;
  eagain = pos 11;
  ewouldblock = pos 11;
  einprogress = pos 119;
  epipe = pos 32;
  eio = pos 5;
  err_abrt = negsuc 12;
  now = λ w. (w.clock, record w { clock = w.clock + 1_000_000_000 });
  socket = λ w. (ok 54, w);
  connect = λ s ip port w. (failed (pos 119), w);
  close = λ s w. w;
  set_nonblocking = λ s w. (ok 0, w);
  set_linger = λ s w. w;
  set_no_delay = λ s b w. (ok 0, w);
  get_no_delay = λ s w. (ok 1, w);
  so_error = λ s w. (if s ==ℤ minus_one then failed (pos 9) else ok 0, w);
  select_write = λ s w. (ok (if w.room == 0 then 0 else 1), w);
  select_read = λ s w. (ok 0, w);
  select = λ n r ws t w. (record { success = ok 1; readable = r; writeable = ws }, w);
  bind = λ s ip port w. (ok 0, w);
  listen = λ s n w. (ok 0, w);
  accept = λ s w. (ok 55, w);
  max_sockets = some 10;
  read = λ s n w. (ReadRet.bytes (take n w.inbox), record w { inbox = [] });
  write = λ s d w. take_bytes d w;
  gethostbyname = λ host w. (DnsRet.in_progress, w);
  ip_none = 0;
  ip_test = λ ip. not (ip == 0);
  try_lock = λ w. (true, w);
  choose = λ w. (w.clock, w);
  sizeof_storage = 28;
  sizeof_in = 16;
  sizeof_in6 = 28;
  get_peer_name =
      λ s n w. (record { memory = 16 ∷ 2 ∷ 0 ∷ 80 ∷ 10 ∷ 0 ∷ 0 ∷ 1 ∷ []; size = 16 }, w);
  get_sock_name = λ s n w. (record { memory = 16 ∷ 2 ∷ 4 ∷ 0 ∷ 10 ∷ 0 ∷ 0 ∷ 2 ∷ []; size = 16 }, w);
  address_in = λ m. number (drop 4 m);
  port_in = λ m. number (take 2 (drop 2 m));
  address_in6 = λ m. number (drop 8 m);
  port_in6 = λ m. number (take 2 (drop 2 m));
}

-- A socket that has room again as soon as it has refused bytes once.
abbrev pub take_burst : List ℕ → Net → Ret × Net
take_burst d w =
    if w.room == 0
    then (failed (pos 11), record w { room = w.refill; refill = 0 })
    else take_bytes d w

abbrev pub bursty_os : Os
bursty_os = record quiet_os { write = λ s d w. take_burst d w }

abbrev pub net : ℕ → Net
net room = record { clock = 1_000; room = room; refill = 4; peer = []; inbox = 7 ∷ 8 ∷ [] }

pub quiet-WritesAtMost : WritesAtMost quiet_os
quiet-WritesAtMost s d w = ground arith

pub quiet-Lawful : Lawful quiet_os
quiet-Lawful = record { writes = quiet-WritesAtMost; bad_descriptor = λ w. tt }

pub received-write :
    (s : ℤ) (d : List ℕ) (w : Net)
    → (quiet_os.write s d w).1.peer ≡ w.peer ++ accepted d (quiet_os.write s d w).0
received-write s d w = ground (arith, append-nil w.peer)

abbrev pub quiet_stream : (s : ℤ) → Stream quiet_os s
quiet_stream s = record {
  received = λ w. w.peer;
  received-write = received-write s;
  received-now = λ w. refl;
  received-select = λ w. refl;
}

is_full : Net → Bool
is_full w = w.room == 0

fails :
    (s : ℤ) (d : List ℕ) (w : Net)
    → is_full w ≡ true
    → IsFailed (quiet_os.write s d w).0 × (is_full (quiet_os.write s d w).1 ≡ true)
unfolding is_full
fails s d w h = ground arith

becomes :
    (s : ℤ) (d : List ℕ) (w : Net)
    → IsFailed (quiet_os.write s d w).0
    → is_full (quiet_os.write s d w).1 ≡ true
unfolding is_full
becomes s d w h = ground arith

pub quiet-Saturates : (s : ℤ) → Saturates quiet_os s
quiet-Saturates s = record { full = is_full; fails = fails s; becomes = becomes s }

pub bursty-WritesAtMost : WritesAtMost bursty_os
bursty-WritesAtMost s d w = ground arith

pub burst-write :
    (s : ℤ) (d : List ℕ) (w : Net)
    → (bursty_os.write s d w).1.peer ≡ w.peer ++ accepted d (bursty_os.write s d w).0
burst-write s d w = ground (arith, append-nil w.peer)

abbrev pub bursty_stream : (s : ℤ) → Stream bursty_os s
bursty_stream s = record {
  received = λ w. w.peer;
  received-write = burst-write s;
  received-now = λ w. refl;
  received-select = λ w. refl;
}
