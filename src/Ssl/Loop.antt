-- ===== src/Ssl/Loop.antt =====
-- The handshake of src/SslClient.cpp: _runSSLHandshakeLoop and its use in _sockIsWriteable.
use async_tcpsock.Base.{
  refl, inr, inl, ◌==ℤ◌, List, Bool-cases, ℕ, zero, suc, ◌≡◌, ◌⊎◌, true, false, none, some, ℤ, pos,
  ==ℤ_iff, is_some, arith,
}
use async_tcpsock.Os.{Os}
use async_tcpsock.Client.Fires.{invoked_of, _close_fires}
use async_tcpsock.Client.Events.Failing.{IsClosing, _close-IsClosing}
use async_tcpsock.Tls.State.{Mbed, Context, can_retry}
use async_tcpsock.Tls.Handshake.{run_ssl_handshake, note_start}
use async_tcpsock.Tls.State.{is_negative}
use async_tcpsock.Tls.Trust.{unverified_succeeds}
use async_tcpsock.Tls.State
use async_tcpsock.Tls.Start.{start_ssl_client}
use async_tcpsock.Ssl.{
  continue_handshake, ensure_session, sock_is_writeable, open_session, host_or_ip, credentials,
  code_of, SslClient, _close, after_round, call_handshake, handshake_loop, run_ssl_handshake_loop,
}

module _ (os : Os) (mbed : Mbed) where
  loop_done :
      (fuel : ℕ) (res : ℤ) (s : SslClient os mbed)
      → s.handshake_done ≡ true
      → handshake_loop os mbed fuel res s ≡ (true, (res, s))
  unfolding handshake_loop
  loop_done zero res s d = ground arith
  loop_done (suc fuel) res s d = ground arith

  -- The handshake loop is left in its first round, or not entered: with more rounds allowed it
  -- does the same.
  handshake_loop_ends :
      (k : ℕ) (res : ℤ) (s : SslClient os mbed)
      → ((handshake_loop os mbed 1 res s).0 ≡ true)
        × (handshake_loop os mbed (suc k) res s ≡ handshake_loop os mbed 1 res s)
  unfolding handshake_loop after_round
  handshake_loop_ends k res s =
      let (res', s1) = call_handshake os mbed s.sslctx s in
      let (left, s2) = after_round os mbed res' s1 in
      ground (arith, loop_done k res' s2, loop_done zero res' s2)

  -- The three ways in which a part of the handshake leaves the client: it is done, it is to be
  -- continued, or it has failed, and the client is closed and the session deleted.
  abbrev pub IsFailed : SslClient os mbed → Type 0
  IsFailed r = (r.sslctx ≡ none) × IsClosing os r.base.client × (r.handshake_done ≡ false)

  abbrev pub Handled : SslClient os mbed → SslClient os mbed → ℤ → Type 0
  Handled s r res =
      ((res ≡ pos 0) × (r.handshake_done ≡ true) × (r.base ≡ s.base))
      ⊎ ((can_retry mbed res ≡ true)
          × (r.handshake_done ≡ false)
          × (r.base ≡ s.base)
          × (is_some r.sslctx ≡ true))
      ⊎ IsFailed r

  -- With a session and an unfinished handshake, the loop's result is that of `runSSLHandshake`;
  -- the handshake is done, or can be continued, or has failed and the client is closed and the
  -- session deleted; and no callback fires.
  pub loop_lem :
      (s : SslClient os mbed) (c : Context)
      → s.sslctx ≡ some c
      → s.handshake_done ≡ false
      → let r = run_ssl_handshake_loop os mbed s in
        (r.0 ≡ (run_ssl_handshake mbed (record { context = c; world = s.tls_world })).0)
        × Handled s r.1 r.0
        × (invoked_of r.1.base.log ≡ invoked_of s.base.log)
  unfolding run_ssl_handshake_loop handshake_loop after_round call_handshake _close
  loop_lem s c e d = ground (
    arith,
    ==ℤ_iff (run_ssl_handshake mbed (record { context = c; world = s.tls_world })).0 (pos 0),
    _close-IsClosing os s.base,
    _close_fires os s.base,
  )

  -- A peer that is not verified has its handshake completed, if mbedTLS returns 0 from it.
  unverified_completes :
      (s : SslClient os mbed) (c : Context) (flags : ℕ)
      → s.sslctx ≡ some c
      → s.handshake_done ≡ false
      → is_negative c.socket ≡ false
      → c.have_client_cert ≡ false
      → let (ret, w) =
          mbed.handshake (note_start mbed (record { context = c; world = s.tls_world })).world in
        ret ≡ pos 0
        → mbed.verify_result w ≡ suc flags
        → (run_ssl_handshake_loop os mbed s).1.handshake_done ≡ true
  unfolding run_ssl_handshake_loop handshake_loop after_round call_handshake
  unverified_completes s c flags e d n h r v =
      ground (
        arith,
        unverified_succeeds mbed (record { context = c; world = s.tls_world }) flags n h r v,
      )

  closed-IsFailed : (s : SslClient os mbed) → s.handshake_done ≡ false → IsFailed (_close os mbed s)
  unfolding _close
  closed-IsFailed s d = ground (arith, d, _close-IsClosing os s.base)

  -- A session is opened, or the client is closed; it is not asked for more yet.
  opened :
      (to_string : ℕ → List ℕ) (s : SslClient os mbed)
      → s.handshake_done ≡ false
      → let r = open_session os mbed to_string s in
        (((r.0 ≡ pos 0) × (r.1.handshake_done ≡ false) × ((c : Context) × (r.1.sslctx ≡ some c)))
          ⊎ IsFailed r.1)
        × (invoked_of r.1.base.log ≡ invoked_of s.base.log)
  unfolding open_session
  opened to_string s d =
      let (host, w) = host_or_ip os mbed to_string s in
      let (flow, t) =
        start_ssl_client mbed s.base.client.socket host (credentials os mbed s)
          (record { context = State.new; world = s.tls_world }) in
      let opened' = record s {
        base = record s.base { world = w };
        sslctx = some t.context;
        tls_world = t.world;
      } in
      elim (Bool-cases (code_of os mbed flow ==ℤ pos 0)) [
        | inl z ↦ rw z (
          inl (ground (arith, z, ==ℤ_iff (code_of os mbed flow) (pos 0)), d, (t.context, refl)),
          refl,
        )
        | inr n ↦ rw n (inr (closed-IsFailed opened' d), _close_fires os opened'.base)
      ]

  -- When the socket of a client that wants TLS becomes writeable and there is no session yet, one
  -- is opened with the client's credentials and its handshake begun, and then: the handshake is
  -- done and the connection goes on; or it is unfinished, and the client waits with its session;
  -- or something has failed, and the client is closed and has no session. No callback fires.
  pub sock_is_writeable_lem :
      (to_string : ℕ → List ℕ) (s : SslClient os mbed)
      → s.conn_state ≡ 2
      → s.secure ≡ true
      → s.handshake_done ≡ false
      → s.sslctx ≡ none
      → let r = sock_is_writeable os mbed to_string s in
        (((r.0 ≡ false) × (r.1.handshake_done ≡ true))
          ⊎ ((r.0 ≡ true) × (r.1.handshake_done ≡ false) × (is_some r.1.sslctx ≡ true))
          ⊎ IsFailed r.1)
        × (invoked_of r.1.base.log ≡ invoked_of s.base.log)
  unfolding sock_is_writeable ensure_session continue_handshake
  sock_is_writeable_lem to_string s two secure d none' =
      let r = open_session os mbed to_string s in
      let (cases, log) = opened to_string s d in
      elim cases [
        | inl (zero', d', (c, e)) ↦
            (let rest = loop_lem r.1 c e d' in
              ground (arith, log, zero', d', e, two, secure, none', rest))
        | inr failed' ↦ ground (arith, log, failed', two, secure, none')
      ]
