-- ===== src/Ssl.antt =====
-- src/SslClient.hpp and .cpp with ASYNC_TCP_SSL_ENABLED: a client whose bytes go through a TLS
-- session. The members that its functions name and no class declares are fields here.
pub mod Loop
use async_tcpsock.Base.{
  length, ℕ, zero, suc, Bool, true, false, not, ◌&&◌, ◌||◌, Option, none, some, List, [], ℤ, pos,
  minus_one, ◌==ℤ◌, ◌==◌, if◌then◌else◌, is_empty,
}
use async_tcpsock.Os.{Os, Ret, ok, failed, ReadRet}
use async_tcpsock.Client.State.{Sys}
use async_tcpsock.Client.Api
use async_tcpsock.Client.Address.{remote_ip}
use async_tcpsock.Tls.State.{
  Mbed, Context, Credentials, Session, is_negative, can_retry, is_eof, insecure_credentials,
  psk_credentials, certificates,
}
use async_tcpsock.Tls.State
use async_tcpsock.Tls.Start.{Flow, next, returns, start_ssl_client}
use async_tcpsock.Tls.Handshake
use async_tcpsock.Tls.Handshake.{run_ssl_handshake}

-- A text with its length is its bytes; `none` is a null pointer. `faulted` records that a function
-- was called on a session that is not there.
pub record SslClient (os : Os) (mbed : Mbed) : Type 0 where
  pub base : Sys os
  pub hostname : List ℕ
  pub root_ca : Option (List ℕ)
  pub cli_cert : Option (List ℕ)
  pub cli_key : Option (List ℕ)
  pub psk_ident : Option (List ℕ)
  pub psk : Option (List ℕ)
  pub secure : Bool
  pub handshake_done : Bool
  pub conn_state : ℕ
  pub sslctx : Option Context
  pub tls_world : mbed.World
  pub faulted : Bool

module _ (os : Os) (mbed : Mbed) where
  -- A function of the base class.
  abbrev pub on_base :
      {A : Type 0} → (Sys os → A × Sys os) → SslClient os mbed → A × SslClient os mbed
  on_base f s = let (a, base) = f s.base in (a, record s { base = base })

  unfoldable pub connect : ℕ → ℕ → SslClient os mbed → Bool × SslClient os mbed
  connect ip port s = on_base (Api.connect os ip port) s

  unfoldable pub connect_host : List ℕ → ℕ → SslClient os mbed → Bool × SslClient os mbed
  connect_host host port s = on_base (Api.connect_host os host port) (record s { hostname = host })

  unfoldable pub set_root_ca : Option (List ℕ) → SslClient os mbed → SslClient os mbed
  set_root_ca rootca s = record s { root_ca = rootca }

  unfoldable pub set_client_cert : Option (List ℕ) → SslClient os mbed → SslClient os mbed
  set_client_cert cert s = record s { cli_cert = cert }

  unfoldable pub set_client_key : Option (List ℕ) → SslClient os mbed → SslClient os mbed
  set_client_key key s = record s { cli_key = key }

  unfoldable pub set_psk : Option (List ℕ) → Option (List ℕ) → SslClient os mbed → SslClient os mbed
  set_psk ident psk s = record s { psk_ident = ident; psk = psk }

  -- `delete _sslctx`, if it is there.
  unfoldable pub delete_session : Option Context → SslClient os mbed → SslClient os mbed
  delete_session none s = s
  delete_session (some c) s = record s {
    sslctx = none;
    tls_world = (State.destroy mbed (record { context = c; world = s.tls_world })).world;
  }

  -- _close()
  unfoldable pub _close : SslClient os mbed → SslClient os mbed
  unfolding delete_session
  _close s = delete_session s.sslctx (record s { base = (Api._close os s.base).1 })

  -- What a round of the handshake loop does with the result of runSSLHandshake; and whether a
  -- `break` leaves the loop.
  unfoldable pub after_round : ℤ → SslClient os mbed → Bool × SslClient os mbed
  after_round res s =
      if res ==ℤ pos 0
      then (false, record s { handshake_done = true })
      else if can_retry mbed res
      then (true, s)
      else (true, _close s)

  -- `_sslctx->runSSLHandshake()`
  unfoldable pub call_handshake : Option Context → SslClient os mbed → ℤ × SslClient os mbed
  call_handshake none s = (pos 0, record s { faulted = true })
  call_handshake (some c) s =
      let (res, t) = run_ssl_handshake mbed (record { context = c; world = s.tls_world }) in
      (res, record s { sslctx = some t.context; tls_world = t.world })

  -- `while (!_handshake_done)`, with `res`; the Boolean says that the loop has ended.
  unfoldable pub handshake_loop : ℕ → ℤ → SslClient os mbed → Bool × (ℤ × SslClient os mbed)
  handshake_loop zero res s = (s.handshake_done, (res, s))
  handshake_loop (suc fuel) res s =
      let (res', s1) = call_handshake s.sslctx s in
      let (left, s2) = after_round res' s1 in
      let rest = handshake_loop fuel res' s2 in
      if s.handshake_done then (true, (res, s)) else if left then (true, (res', s2)) else rest

  -- _runSSLHandshakeLoop(): a second round is never begun.
  unfoldable pub run_ssl_handshake_loop : SslClient os mbed → ℤ × SslClient os mbed
  run_ssl_handshake_loop s = (handshake_loop 1 (pos 0) s).1

  -- What becomes of a result `r` of the session, with `errno` as it was.
  abbrev pub read_result : ℤ → ℤ → ℤ × ℤ
  read_result r errno =
      if can_retry mbed r
      then (minus_one, os.eagain)
      else if is_eof mbed r
      then (pos 0, errno)
      else (r, if is_negative r && errno ==ℤ pos 0 then os.eio else errno)

  abbrev pub of_read_ret : ReadRet → ℤ → ℤ × ℤ
  of_read_ret (ReadRet.bytes bs) errno = (pos (length bs), errno)
  of_read_ret (ReadRet.failed e) errno = (minus_one, e)

  -- The host to verify: the name, or the text of the address.
  unfoldable pub host_or_ip : (ℕ → List ℕ) → SslClient os mbed → List ℕ × os.World
  host_or_ip to_string s =
      let (ip, w) = remote_ip os s.base.client s.base.world in
      (if is_empty s.hostname then to_string ip else s.hostname, w)

  -- Which credentials a new session is started with.
  unfoldable pub credentials : SslClient os mbed → Credentials
  credentials s = elim s.root_ca [
    | some ca ↦ certificates (some ca) s.cli_cert s.cli_key
    | none ↦ elim s.psk_ident [
      | some ident ↦ psk_credentials (some ident) s.psk
      | none ↦ insecure_credentials
    ]
  ]

  abbrev pub code_of : Flow → ℤ
  code_of next = pos 0
  code_of (returns code) = code

  -- `new AsyncTCP_TLS_Context()` and its start; a failure closes the client.
  unfoldable pub open_session : (ℕ → List ℕ) → SslClient os mbed → ℤ × SslClient os mbed
  unfolding _close
  open_session to_string s =
      let (host, w) = host_or_ip to_string s in
      let (flow, t) =
        start_ssl_client mbed s.base.client.socket host (credentials s)
          (record { context = State.new; world = s.tls_world }) in
      let opened = record s {
        base = record s.base { world = w };
        sslctx = some t.context;
        tls_world = t.world;
      } in
      (code_of flow, if code_of flow ==ℤ pos 0 then opened else _close opened)

  unfoldable pub ensure_session :
      Option Context → (ℕ → List ℕ) → SslClient os mbed → ℤ × SslClient os mbed
  ensure_session none to_string s = open_session to_string s
  ensure_session (some c) to_string s = (pos 0, s)

  -- `_sslctx != NULL && res == 0`
  unfoldable pub continue_handshake : Option Context → ℤ → SslClient os mbed → ℤ × SslClient os mbed
  continue_handshake none res s = (res, s)
  continue_handshake (some c) res s = if res ==ℤ pos 0 then run_ssl_handshake_loop s else (res, s)

  -- _sockIsWriteable()
  unfoldable pub sock_is_writeable : (ℕ → List ℕ) → SslClient os mbed → Bool × SslClient os mbed
  sock_is_writeable to_string s =
      let (res, s1) = ensure_session s.sslctx to_string s in
      let (res', s2) = continue_handshake s1.sslctx res s1 in
      if (s.conn_state == 2 || s.conn_state == 3) && s.secure
      then (if not s2.handshake_done then can_retry mbed res' else false, s2)
      else (false, s)

  -- _sockIsReadable(), with what it leaves in `r` and `errno`, which nothing reads.
  -- `max_payload_size` is MAX_PAYLOAD_SIZE.
  unfoldable pub read_through :
      Option Context → ℕ → ℤ → SslClient os mbed → (ℤ × ℤ) × SslClient os mbed
  read_through none max_payload_size errno s =
      let (r, w) = os.read s.base.client.socket max_payload_size s.base.world in
      (of_read_ret r errno, record s { base = record s.base { world = w } })
  read_through (some c) max_payload_size errno s =
      let (_, s1) = run_ssl_handshake_loop s in
      let (r, t) =
        Handshake.read mbed max_payload_size (record { context = c; world = s.tls_world }) in
      if not s.handshake_done
      then ((pos 0, errno), s1)
      else (read_result r.0 errno, record s { sslctx = some t.context; tls_world = t.world })

  unfoldable pub sock_is_readable : ℕ → ℤ → SslClient os mbed → (ℤ × ℤ) × SslClient os mbed
  sock_is_readable max_payload_size errno s = read_through s.sslctx max_payload_size errno s
