-- ===== src/Tls/Handshake.antt =====
-- src/AsyncTCP_TLS_Context.cpp: runSSLHandshake, write and read.
use async_tcpsock.Base.{
  ℕ, ◌+◌, ◌-◌, ◌%◌, ◌^◌, not, ◌&&◌, List, ℤ, pos, minus_one, ◌==ℤ◌, ◌==◌, ltb, if◌then◌else◌,
}
use async_tcpsock.Tls.State.{Mbed, Session, is_negative, delete_handshake_certs}

module _ (mbed : Mbed) where
  -- What runSSLHandshake does with a result that is not 0.
  unfoldable pub unfinished : ℤ → Session mbed → ℤ × Session mbed
  unfinished ret s =
      let (now, w) = mbed.millis s.world in
      let elapsed = (now + (2 ^ 32 - s.context.handshake_start_time)) % 2 ^ 32 in
      if not (ret ==ℤ mbed.want_read) && not (ret ==ℤ mbed.want_write)
      then (ret, s)
      else if ltb s.context.handshake_timeout elapsed
      then (minus_one, record s { world = w })
      else (ret, record s { world = w })

  -- And with the result 0: `ret` becomes the record expansion if the client has a certificate.
  unfoldable pub completed : Session mbed → ℤ × Session mbed
  completed s =
      let c = s.context in
      let ret : ℤ =
        if c.have_client_cert && c.have_client_key then mbed.record_expansion s.world else pos 0 in
      (
        if mbed.verify_result s.world == 0 then pos 0 else ret,
        record s { context = delete_handshake_certs c },
      )

  -- `if (handshake_start_time == 0) handshake_start_time = millis();`
  unfoldable pub note_start : Session mbed → Session mbed
  note_start s =
      let (t, w) = mbed.millis s.world in
      if s.context.handshake_start_time == 0
      then record { context = record s.context { handshake_start_time = t }; world = w }
      else s

  -- runSSLHandshake
  unfoldable pub run_ssl_handshake : Session mbed → ℤ × Session mbed
  run_ssl_handshake s =
      let started = note_start s in
      let (ret, w) = mbed.handshake started.world in
      let tried = record started { world = w } in
      if is_negative s.context.socket
      then (minus_one, s)
      else if ret ==ℤ pos 0
      then completed tried
      else unfinished ret tried

  -- write() and read(), whose handling of errors is logging.
  unfoldable pub write : List ℕ → Session mbed → ℤ × Session mbed
  write bytes s =
      let (ret, w) = mbed.ssl_write bytes s.world in
      if is_negative s.context.socket then (minus_one, s) else (ret, record s { world = w })

  unfoldable pub read : ℕ → Session mbed → (ℤ × List ℕ) × Session mbed
  read len s = let (ret, w) = mbed.ssl_read len s.world in (ret, record s { world = w })
