-- ===== src/Tls/Release.antt =====
-- The certificates and keys that a session (src/AsyncTCP_TLS_Context.cpp) loads, and frees.
use async_tcpsock.Base.{
  ℕ, ◌≡◌, inl, inr, refl, Bool, true, false, Option, none, some, List, ℤ, pos, ◌≢◌, arith,
}
use async_tcpsock.Tls.State.{destroy, Mbed, Context, Credentials, Session, is_negative}
use async_tcpsock.Tls.Start.{
  Flow, next, returns, set_options, configure, load_ca, conf_decoded, load_psk, authenticate,
  load_certificate, load_key, identify, name_host, set_up, adopt, attach, load, seq,
  start_ssl_client,
}
use async_tcpsock.Tls.Handshake.{run_ssl_handshake, completed, note_start}
use async_tcpsock.Tls.Tidy.{
  Tidy, Freed, Ends, deleted-Freed, Freed-Ends, Keeps, resume-Ends, next-Tidy, seq-Keeps, seq-Light,
  freeing-Ends,
}

module _ (mbed : Mbed) where
  set_options-Freed :
      (sck : ℤ) (s : Session mbed) → Freed s.context → Freed (set_options mbed sck s).1.context
  unfolding set_options
  set_options-Freed sck s h = ground arith

  configure-Freed : (s : Session mbed) → Freed s.context → Freed (configure mbed s).1.context
  unfolding configure
  configure-Freed s h = ground arith

  conf_decoded-Freed :
      (key : Option (List ℕ)) (ident : List ℕ) (s : Session mbed)
      → Freed s.context
      → Freed (conf_decoded mbed key ident s).1.context
  unfolding conf_decoded
  conf_decoded-Freed none ident s h = h
  conf_decoded-Freed (some psk) ident s h = h

  load_psk-Freed :
      (ident key : Option (List ℕ)) (s : Session mbed)
      → Freed s.context
      → Freed (load_psk mbed ident key s).1.context
  unfolding load_psk
  load_psk-Freed none key s h = h
  load_psk-Freed (some ident) none s h = h
  load_psk-Freed (some ident) (some key) s h = conf_decoded-Freed _ ident s h

  load_ca-Ends :
      (ca : List ℕ) (s : Session mbed)
      → Tidy s.context
      → Ends (load_ca mbed ca s).0 (load_ca mbed ca s).1.context
  unfolding load_ca
  load_ca-Ends ca s h = freeing-Ends mbed _ _ _ (record { ca = refl; cert = h.cert; key = h.key })

  authenticate-Ends :
      (creds : Credentials) (s : Session mbed)
      → Freed s.context
      → Ends (authenticate mbed creds s).0 (authenticate mbed creds s).1.context
  unfolding authenticate
  authenticate-Ends creds s h = go creds.insecure creds.root_ca
    where
      go :
          (insecure : Bool) (ca : Option (List ℕ))
          → let c = record creds { insecure = insecure; root_ca = ca } in
            Ends (authenticate mbed c s).0 (authenticate mbed c s).1.context
      go true ca = record { ca = h.tidy.ca; cert = h.tidy.cert; key = h.tidy.key }
      go false none = Freed-Ends _ _ (load_psk-Freed creds.psk_ident creds.ps_key s h)
      go false (some ca) = load_ca-Ends ca s h.tidy

  load_certificate-Keeps : (cert : List ℕ) → Keeps mbed (load_certificate mbed cert)
  unfolding load_certificate
  load_certificate-Keeps cert s h =
      freeing-Ends mbed _ _ _ (record { ca = h.ca; cert = refl; key = h.key })

  load_key-Keeps : (key : List ℕ) → Keeps mbed (load_key mbed key)
  unfolding load_key
  load_key-Keeps key s h = freeing-Ends mbed _ _ _ (record { ca = h.ca; cert = h.cert; key = refl })

  identify-Keeps :
      (insecure : Bool) (cert key : Option (List ℕ)) → Keeps mbed (identify mbed insecure cert key)
  unfolding identify
  identify-Keeps true cert key s h = h
  identify-Keeps false none key s h = h
  identify-Keeps false (some cert) none s h = h
  identify-Keeps false (some cert) (some key) s h =
      seq-Keeps mbed (load_certificate mbed cert) (load_key mbed key) (load_certificate-Keeps cert)
        (load_key-Keeps key) s h

  name_host-Keeps : (host : List ℕ) → Keeps mbed (name_host mbed host)
  unfolding name_host
  name_host-Keeps host s h = freeing-Ends mbed _ _ _ h

  set_up-Keeps : Keeps mbed (set_up mbed)
  unfolding set_up
  set_up-Keeps s h = freeing-Ends mbed _ _ _ h

  adopt-Keeps : (sck : ℤ) → Keeps mbed (adopt mbed sck)
  unfolding adopt
  adopt-Keeps sck s h = inl (refl, record { ca = h.ca; cert = h.cert; key = h.key })

  attach-Keeps : (sck : ℤ) (host : List ℕ) → Keeps mbed (attach mbed sck host)
  unfolding attach
  attach-Keeps sck host =
      seq-Keeps mbed (name_host mbed host) (seq mbed (set_up mbed) (adopt mbed sck))
        (name_host-Keeps host)
        (seq-Keeps mbed (set_up mbed) (adopt mbed sck) set_up-Keeps (adopt-Keeps sck))

  load-Ends :
      (sck : ℤ) (host : List ℕ) (creds : Credentials) (s : Session mbed)
      → Freed s.context
      → Ends (load mbed sck host creds s).0 (load mbed sck host creds s).1.context
  unfolding load
  load-Ends sck host creds s h =
      let p = authenticate mbed creds in
      let identify' = identify mbed creds.insecure creds.cli_cert creds.cli_key in
      let q = seq mbed identify' (attach mbed sck host) in
      resume-Ends mbed (p s).0 q (p s).1 (authenticate-Ends creds s h) (λ e.
        seq-Keeps mbed identify' (attach mbed sck host)
          (identify-Keeps creds.insecure creds.cli_cert creds.cli_key) (attach-Keeps sck host)
          (p s).1 (next-Tidy mbed (p s).0 (p s).1.context (authenticate-Ends creds s h) e))

  Ends-Tidy : (flow : Flow) (c : Context) → Ends flow c → Tidy c
  Ends-Tidy next c h = h
  Ends-Tidy (returns code) c (inl (z, t)) = t
  Ends-Tidy (returns code) c (inr f) = f.tidy

  start-Ends :
      (sck : ℤ) (host : List ℕ) (creds : Credentials) (s : Session mbed)
      → Freed s.context
      → Ends
          (start_ssl_client mbed sck host creds s).0
          (start_ssl_client mbed sck host creds s).1.context
  unfolding start_ssl_client
  start-Ends sck host creds s h =
      let whole =
        seq-Light mbed (set_options mbed sck) (seq mbed (configure mbed) (load mbed sck host creds))
          (set_options-Freed sck)
          (seq-Light mbed (configure mbed) (load mbed sck host creds) configure-Freed
            (load-Ends sck host creds))
          s h in
      ground (arith, whole)

  Ends-Freed :
      (flow : Flow) (c : Context) (code : ℤ)
      → Ends flow c
      → flow ≡ returns code
      → code ≢ pos 0
      → Freed c
  Ends-Freed next c code h e n = cc
  Ends-Freed (returns x) c code (inr f) e n = f
  Ends-Freed (returns x) c code (inl (z, t)) e n = ground arith

  -- If no certificate and no key is held before, then when a start returns, the flags tell which
  -- are held; none is if it returns a code other than 0; and once the session is destroyed, none
  -- is in any case.
  start_frees :
      (sck : ℤ) (host : List ℕ) (creds : Credentials) (s : Session mbed) (code : ℤ)
      → Freed s.context
      → let r = start_ssl_client mbed sck host creds s in
        r.0 ≡ returns code
        → Tidy r.1.context × (code ≢ pos 0 → Freed r.1.context) × Freed (destroy mbed r.1).context
  unfolding destroy
  start_frees sck host creds s code h e =
      let r = start_ssl_client mbed sck host creds s in
      let ends = start-Ends sck host creds s h in
      (
        Ends-Tidy r.0 r.1.context ends,
        Ends-Freed r.0 r.1.context code ends e,
        deleted-Freed r.1.context (Ends-Tidy r.0 r.1.context ends),
      )

  note_start-Tidy : (s : Session mbed) → Tidy s.context → Tidy (note_start mbed s).context
  unfolding note_start
  note_start-Tidy s h = ground arith

  run_completes :
      (s : Session mbed)
      → is_negative s.context.socket ≡ false
      → let started = note_start mbed s in
        let (ret, w) = mbed.handshake started.world in
        ret ≡ pos 0 → run_ssl_handshake mbed s ≡ completed mbed (record started { world = w })
  unfolding run_ssl_handshake
  run_completes s n e = rw (n, e)

  -- With a socket and the flags right, a handshake that returns 0 leaves no certificate and no key
  -- behind, whether or not the peer is verified.
  pub handshake_frees :
      (s : Session mbed)
      → Tidy s.context
      → is_negative s.context.socket ≡ false
      → (mbed.handshake (note_start mbed s).world).0 ≡ pos 0
      → Freed (run_ssl_handshake mbed s).1.context
  unfolding completed
  handshake_frees s h n e =
      rw (run_completes s n e) (deleted-Freed (note_start mbed s).context (note_start-Tidy s h))
