-- ===== src/Os/Tapped.antt =====
-- The calls of a system beside something that only its reads touch.
use async_tcpsock.Base.{ℕ, List, ◌++◌}
use async_tcpsock.Os.{Os, ReadRet}

abbrev pub bytes_read : ReadRet → List ℕ → List ℕ
bytes_read (ReadRet.bytes bs) seen = seen ++ bs
bytes_read (ReadRet.failed e) seen = seen

-- A call that is not a read.
abbrev aside : {W A S : Type 0} → (W → A × W) → W × S → A × (W × S)
aside f (w, seen) = let (a, w') = f w in (a, (w', seen))

-- The system itself, which goes on as before; the second part of its world is changed by `note` at
-- each read.
abbrev pub beside : (S : Type 0) → (ReadRet → S → S) → Os → Os
beside S note os = record os {
  World = os.World × S;
  now = aside os.now;
  socket = aside os.socket;
  connect = λ s ip port. aside (os.connect s ip port);
  close = λ s w. (os.close s w.0, w.1);
  set_nonblocking = λ s. aside (os.set_nonblocking s);
  set_linger = λ s w. (os.set_linger s w.0, w.1);
  set_no_delay = λ s b. aside (os.set_no_delay s b);
  get_no_delay = λ s. aside (os.get_no_delay s);
  so_error = λ s. aside (os.so_error s);
  select_write = λ s. aside (os.select_write s);
  select_read = λ s. aside (os.select_read s);
  select = λ n rs ws t. aside (os.select n rs ws t);
  bind = λ s ip port. aside (os.bind s ip port);
  listen = λ s n. aside (os.listen s n);
  accept = λ s. aside (os.accept s);
  read = λ s n w. let (r, w') = os.read s n w.0 in (r, (w', note r w.1));
  write = λ s d. aside (os.write s d);
  gethostbyname = λ host. aside (os.gethostbyname host);
  try_lock = aside os.try_lock;
  choose = aside os.choose;
  get_peer_name = λ s n. aside (os.get_peer_name s n);
  get_sock_name = λ s n. aside (os.get_sock_name s n);
}

-- The second part is all that was read.
abbrev pub tapped : Os → Os
tapped os = beside (List ℕ) bytes_read os
