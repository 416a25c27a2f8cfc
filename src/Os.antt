-- ===== src/Os.antt =====
-- What the library calls and does not implement: BSD sockets of lwIP, the DNS client, the clock,
-- Arduino's IPAddress, and the choices of the code that uses the library. Each is a parameter.
pub mod Laws
pub mod Tapped
use async_tcpsock.Base.{ℕ, ℤ, Bool, List, Option}

-- What a call that may fail returns: a value that is not negative, or a negative one with `errno`.
pub data Ret : Type 0 where
  ok : ℕ → Ret
  failed : ℤ → Ret

-- What `lwip_read` returns: the bytes that it put into the buffer, or a failure.
pub data ReadRet : Type 0 where
  bytes : List ℕ → ReadRet
  failed : ℤ → ReadRet

-- What `dns_gethostbyname` returns: ERR_OK with the address, ERR_INPROGRESS, or another error.
pub data DnsRet : Type 0 where
  resolved : ℕ → DnsRet
  in_progress : DnsRet
  error : ℤ → DnsRet

-- What `getpeername` and `getsockname` leave: the memory of the address, which they do not touch
-- if they fail, and the size that they report.
pub record SockName : Type 0 where
  pub memory : List ℕ
  pub size : ℕ

-- What `select` leaves: its result, and the descriptors that are ready.
pub record SelectRet : Type 0 where
  pub success : Ret
  pub readable : List ℤ
  pub writeable : List ℤ

pub record Os : Type 1 where
  pub World : Type 0
  pub tcp_snd_buf : ℕ
  pub tcp_mss : ℕ
  pub eagain : ℤ
  pub ewouldblock : ℤ
  pub einprogress : ℤ
  pub epipe : ℤ
  pub eio : ℤ
  pub err_abrt : ℤ
  -- steady_clock::now(), in nanoseconds since its epoch
  pub now : World → ℕ × World
  -- socket(AF_INET, SOCK_STREAM, 0)
  pub socket : World → Ret × World
  pub connect : ℤ → ℕ → ℕ → World → Ret × World
  pub close : ℤ → World → World
  -- fcntl(s, F_SETFL, fcntl(s, F_GETFL, 0) | O_NONBLOCK)
  pub set_nonblocking : ℤ → World → Ret × World
  -- setsockopt(SO_LINGER) with l_onoff = 1 and l_linger = 0
  pub set_linger : ℤ → World → World
  -- setsockopt(TCP_NODELAY) and getsockopt(TCP_NODELAY)
  pub set_no_delay : ℤ → Bool → World → Ret × World
  pub get_no_delay : ℤ → World → Ret × World
  -- getsockopt(SO_ERROR): `ok 0` is success with no pending error
  pub so_error : ℤ → World → Ret × World
  -- select() on one descriptor with no wait
  pub select_write : ℤ → World → Ret × World
  pub select_read : ℤ → World → Ret × World
  -- select() of the manager's task: the number that bounds the descriptors, those to be read and
  -- those to be written, and how long to wait
  pub select : ℕ → List ℤ → List ℤ → ℕ → World → SelectRet × World
  -- bind(), listen() and accept() of a server
  pub bind : ℤ → ℕ → ℕ → World → Ret × World
  pub listen : ℤ → ℕ → World → Ret × World
  pub accept : ℤ → World → Ret × World
  -- CONFIG_LWIP_MAX_SOCKETS, if it is defined
  pub max_sockets : Option ℕ
  pub read : ℤ → ℕ → World → ReadRet × World
  pub write : ℤ → List ℕ → World → Ret × World
  pub gethostbyname : List ℕ → World → DnsRet × World
  -- IPAddress() and its conversion to bool
  pub ip_none : ℕ
  pub ip_test : ℕ → Bool
  -- whether `try_lock` succeeds on a mutex that this thread does not hold
  pub try_lock : World → Bool × World
  -- what the program that uses the library decides by its own data
  pub choose : World → ℕ × World
  -- The sizes of sockaddr_storage, sockaddr_in and sockaddr_in6
  pub sizeof_storage : ℕ
  pub sizeof_in : ℕ
  pub sizeof_in6 : ℕ
  -- getpeername() and getsockname() with memory of some size, all of it 0
  pub get_peer_name : ℤ → ℕ → World → SockName × World
  pub get_sock_name : ℤ → ℕ → World → SockName × World
  -- the address and the port that memory holds, copied to a sockaddr_in or a sockaddr_in6; a port
  -- in host order
  pub address_in : List ℕ → ℕ
  pub port_in : List ℕ → ℕ
  pub address_in6 : List ℕ → ℕ
  pub port_in6 : List ℕ → ℕ
