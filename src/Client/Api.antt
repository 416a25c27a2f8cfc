-- ===== src/Client/Api.antt =====
-- The public functions of src/ClientBase.tpp. None of them fires a callback.
pub mod Sending
pub mod Connecting
pub mod Transfers
use async_tcpsock.Base.{
  ℕ, ◌+◌, ◌-◌, ◌*◌, min, Bool, true, false, not, ◌||◌, ◌&&◌, Option, none, some, List, [], ◌∷◌,
  ◌++◌, ℤ, pos, negsuc, minus_one, is_positive, ltb, ◌==◌, ◌==ℤ◌, if◌then◌else◌, ◌>>=◌, ◌>>◌,
  return, length, is_empty, take,
}
use async_tcpsock.Configuration.{max_ack_time}
use async_tcpsock.Os.{DnsRet, Os, Ret, ok, failed, resolved, in_progress, error}
use async_tcpsock.Buffer.{WriteQueueBuffer, owned, borrowed}
use async_tcpsock.Flags.{ClientApiFlags, copy, immediate, test}
use async_tcpsock.Connection
use async_tcpsock.Connection.{SocketConnection, is_open, configure_socket}
use async_tcpsock.Client.Callbacks.{no_callbacks}
use async_tcpsock.Client.State.{
  ClientBase, ConnectionState, disconnected, waiting_for_dns, connecting, connected, disconnecting,
  Sys, M, get, modify, call_os, exec, emit, when, lock, unlock, is_connected, Action, closed, asked,
  free,
}
use async_tcpsock.Client.Queue.{process_write_queue, clear_write_queue}

abbrev pub is_disconnected : ConnectionState → Bool
is_disconnected disconnected = true
is_disconnected _ = false

-- The pure queries.
unfoldable pub freeable : ClientBase → Bool
unfolding is_open
freeable c = if not (is_open c.connection) then true else is_disconnected c.state

abbrev pub space : ClientBase → ℕ
space c = if is_connected c.state then c.write_space_remaining else 0

abbrev pub can_send : ClientBase → Bool
can_send c = ltb 0 (space c)

-- std::strlen: the bytes before the first 0 of the memory at a pointer.
pub strlen : List ℕ → ℕ
strlen [] = 0
strlen (b ∷ bs) = let n = strlen bs in if b == 0 then 0 else 1 + n

-- `select(...) > 0`
abbrev pub is_ready : Ret → Bool
is_ready (ok n) = ltb 0 n
is_ready (failed e) = false

-- `static_cast<bool>(nodelay)`, which stays 0 if getsockopt fails.
abbrev pub option_value : Ret → Bool
option_value (ok n) = not (n == 0)
option_value (failed e) = false

-- The default member initializers.
unfoldable pub unconnected : Os → SocketConnection → ClientBase
unconnected os conn = record {
  connection = conn;
  state = disconnected;
  write_mutex = free;
  write_space_remaining = os.tcp_snd_buf;
  write_queue = [];
  ip = os.ip_none;
  port = 0;
  ack_timeout = some (max_ack_time * 1_000_000);
  rx_timeout = none;
  rx_last_packet = 0;
  ack_timeout_signaled = false;
  callbacks = no_callbacks;
}

abbrev note_closed : List ℤ → List Action → List Action
note_closed [] log = log
note_closed (fd ∷ fds) log = note_closed fds (closed fd ∷ log)

module _ (os : Os) where
  -- SocketConnection::_configureSocket on the client. What it closes is seen.
  unfoldable pub adopt_socket : ℤ → M os (Unit {0})
  unfolding configure_socket
  adopt_socket fd s =
      let ((fds, conn), w) = configure_socket os fd s.client.connection s.world in
      (
        tt,
        record s {
          client = record s.client { connection = conn };
          world = w;
          log = note_closed fds s.log;
        },
      )

  -- `result < 0 && errno != EINPROGRESS`
  unfoldable pub connect_failed : Ret → Bool
  connect_failed (ok n) = false
  connect_failed (failed e) = not (e ==ℤ os.einprogress)

  -- connect(IPAddress, uint16_t)
  unfoldable pub connect : ℕ → ℕ → M os Bool
  unfolding is_open adopt_socket connect_failed
  connect ip port = do
    is_open' ← get os (λ c. is_open c.connection)
    if is_open' then return false else (do
      created ← call_os os os.socket
      elim created [
        | failed e ↦ return false
        | ok fd ↦ (do
          result ← call_os os (os.connect (pos fd) ip port)
          if connect_failed result
              then (do exec os (os.close (pos fd)); emit os (closed (pos fd)); return false)
              else (do
                modify os λ c. record c { ip = ip; port = port; state = connecting }
                adopt_socket (pos fd)
                return true))
      ])

  -- connect(const char*, uint16_t)
  unfoldable pub after_query : ℕ → DnsRet → M os Bool
  unfolding connect
  after_query port (resolved ip) = connect ip port
  after_query port in_progress = do
    emit os asked
    modify os λ c. record c { state = waiting_for_dns; port = port }
    return true
  after_query port (error e) = return false

  unfoldable pub connect_host : List ℕ → ℕ → M os Bool
  unfolding after_query
  connect_host host port = do answer ← call_os os (os.gethostbyname host); after_query port answer

  -- _close(): `::close(_socket.exchange(-1))`, whether or not there is a socket.
  unfoldable pub _close : M os (Unit {0})
  unfolding clear_write_queue
  _close = do
    modify os λ c. record c { state = disconnecting }
    socket ← get os (λ c. c.socket)
    modify os λ c. record c { connection = record c.connection { socket = minus_one } }
    exec os (os.close socket)
    emit os (closed socket)
    clear_write_queue os

  unfoldable pub close : M os (Unit {0})
  unfolding is_open _close
  close = do open' ← get os (λ c. is_open c.connection); when os open' _close

  unfoldable pub abort : M os ℤ
  unfolding is_open _close
  abort = do
    open' ← get os (λ c. is_open c.connection)
    socket ← get os (λ c. c.socket)
    when os open' (do exec os (os.set_linger socket); _close)
    return os.err_abrt

  -- The buffer that `add` queues: `data` and `toSend`, copied or referred to.
  unfoldable pub new_buffer : List ℕ → ℕ → ClientApiFlags → ℕ → WriteQueueBuffer
  unfolding test
  new_buffer bytes to_send flags now = record {
    alternative = if test flags copy then owned else borrowed;
    common = record { amount_written = 0; queued_at = now; written_at = 0; error_code = pos 0 };
    bytes = take to_send bytes;
  }

  -- add(const uint8_t*, size_t, ClientApiFlags), of the `size` bytes at `data`; the overload for a
  -- span is the same call. The guard `remainingSpace == 0` follows that of `connected()`.
  unfoldable pub add : Option (List ℕ) → ClientApiFlags → M os ℕ
  unfolding new_buffer
  add none flags = return 0
  add (some bytes) flags = do
    usable ← get os (λ c. is_connected c.state && not (length bytes == 0))
    remaining_space ← get os space
    if not usable || remaining_space == 0 then return 0 else (do
      let to_send = min remaining_space (length bytes)
      now ← call_os os os.now
      lock os
      modify os λ c. record c {
        write_queue = c.write_queue ++ new_buffer bytes to_send flags now ∷ [];
        write_space_remaining = c.write_space_remaining - to_send;
        ack_timeout_signaled = false;
      }
      unlock os
      return to_send)

  -- send()
  unfoldable pub send : M os Bool
  send = do
    usable ← get os (λ c. is_connected c.state)
    if not usable then return false else (do
      socket ← get os (λ c. c.socket)
      ready ← call_os os (os.select_write socket)
      if not (is_ready ready) then return false else (do
        lock os
        empty ← get os (λ c. is_empty c.write_queue)
        if empty
            then (do unlock os; return false)
            else (do activity ← process_write_queue os; unlock os; return activity)))

  -- write(const uint8_t*, size_t, ClientApiFlags)
  unfoldable pub write : Option (List ℕ) → ClientApiFlags → M os ℕ
  write bytes flags = do
    to_send ← add bytes flags
    if to_send == 0
        then return 0
        else if test flags immediate
        then (do success ← send; return (if success then to_send else 0))
        else return to_send

  -- The bytes that the overloads for `const char*` stand for: `size` of them, or a C string.
  abbrev pub c_bytes : Option (List ℕ) → ℕ → Option (List ℕ)
  c_bytes none size = none
  c_bytes (some memory) size = some (take (if size == 0 then strlen memory else size) memory)

  unfoldable pub add_str : Option (List ℕ) → ℕ → ClientApiFlags → M os ℕ
  add_str str size flags = add (c_bytes str size) flags

  unfoldable pub write_str : Option (List ℕ) → ℕ → ClientApiFlags → M os ℕ
  write_str str size flags = write (c_bytes str size) flags

  unfoldable pub set_no_delay : Bool → M os (Unit {0})
  unfolding is_open
  set_no_delay nodelay = do
    open' ← get os (λ c. is_open c.connection)
    socket ← get os (λ c. c.socket)
    when os open' (do res ← call_os os (os.set_no_delay socket nodelay); return tt)

  unfoldable pub get_no_delay : M os Bool
  unfolding is_open
  get_no_delay = do
    open' ← get os (λ c. is_open c.connection)
    socket ← get os (λ c. c.socket)
    if not open'
        then return false
        else (do res ← call_os os (os.get_no_delay socket); return (option_value res))

  unfoldable pub set_ack_timeout : Option ℕ → M os (Unit {0})
  set_ack_timeout timeout = modify os λ c. record c { ack_timeout = timeout }

  unfoldable pub set_rx_timeout : Option ℕ → M os (Unit {0})
  set_rx_timeout timeout = modify os λ c. record c { rx_timeout = timeout }

  -- ClientBase(), ClientBase(int), and the destructor.
  unfoldable pub new : os.World → Sys os
  unfolding unconnected
  new w =
      let (conn, w') = Connection.new os w in
      record { client = unconnected os conn; world = w'; log = [] }

  unfoldable pub from_socket : ℤ → os.World → Sys os
  unfolding adopt_socket
  from_socket socket w =
      let (_, s) = adopt_socket socket (new w) in
      let (t, w') = os.now s.world in
      if is_positive s.client.socket
      then record s {
        client = record s.client { state = connected; rx_last_packet = t };
        world = w';
      }
      else s

  unfoldable pub destroy : M os (Unit {0})
  unfolding close
  destroy = close

-- The compatibility overloads of the timeout setters: milliseconds of any integral type.
abbrev pub of_milliseconds : ℤ → Option ℕ
of_milliseconds milliseconds = elim milliseconds [
  | pos n ↦ if n == 0 then none else some (n * 1_000_000)
  | negsuc n ↦ none
]
