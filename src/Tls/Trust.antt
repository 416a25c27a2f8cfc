-- ===== src/Tls/Trust.antt =====
-- Whom a TLS session (src/AsyncTCP_TLS_Context.cpp) trusts when it starts, and what it makes of a
-- peer that is not verified.
use async_tcpsock.Base.{
  suc, sym, ap, inl, ◌∙◌, Option-cases, ℕ, ◌≡◌, ◌≢◌, ◌⊎◌, inr, refl, Bool, true, false, Option,
  none, some, List, ℤ, pos, arith,
}
use async_tcpsock.Tls.Handshake.{note_start, completed, run_ssl_handshake}
use async_tcpsock.Tls.State.{
  is_negative, delete_handshake_certs, Mbed, Context, AuthMode, Credentials, Session,
}
use async_tcpsock.Tls.Start.{
  adopt, set_up, name_host, start_ssl_client, load, attach, identify, load_key, load_certificate,
  seq, authenticate, Flow, next, returns, Part, resume, set_options, configure, freeing, load_ca,
  conf_decoded, load_psk,
}
use async_tcpsock.Tls.Psk.{decode_psk}

abbrev NonZero : Flow → Type 0
NonZero next = Unit {0}
NonZero (returns code) = code ≢ pos 0

-- The server has to show a certificate, or to have the pre-shared key, which could be decoded.
abbrev pub Trusts : Mbed → Credentials → Context → Type 0
Trusts mbed creds c =
    (c.authmode ≡ AuthMode.verify_required)
    ⊎ ((key psk : List ℕ) × (creds.ps_key ≡ some key)
        × (decode_psk mbed.psk_max_len key ≡ some psk))

module _ (mbed : Mbed) where
  -- A sequence that returns 0 does so by its last part.
  resume_zero :
      (flow : Flow) (q : Part mbed) (s : Session mbed)
      → NonZero flow
      → (resume mbed flow q s).0 ≡ returns (pos 0)
      → (flow ≡ next) × (resume mbed flow q s ≡ q s)
  unfolding resume
  resume_zero next q s n e = (refl, refl)
  resume_zero (returns code) q s n e = absurd (n (ground arith))

  freeing-NonZero :
      (bad : Bool) (code : ℤ) (s : Session mbed)
      → (bad ≡ true → code ≢ pos 0)
      → NonZero (freeing mbed bad code s).0
  unfolding freeing
  freeing-NonZero true code s h = h refl
  freeing-NonZero false code s h = tt

  set_options-NonZero : (sck : ℤ) (s : Session mbed) → NonZero (set_options mbed sck s).0
  unfolding set_options
  set_options-NonZero sck s = ground arith

  configure-NonZero : (s : Session mbed) → NonZero (configure mbed s).0
  unfolding configure
  configure-NonZero s = ground arith

  conf_decoded_lem :
      (decoded : Option (List ℕ)) (ident : List ℕ) (s : Session mbed)
      → NonZero (conf_decoded mbed decoded ident s).0
        × ((conf_decoded mbed decoded ident s).0 ≡ next → (psk : List ℕ) × (decoded ≡ some psk))
  unfolding conf_decoded
  conf_decoded_lem none ident s = (ground arith, λ e. cc)
  conf_decoded_lem (some psk) ident s = (ground arith, λ e. (psk, refl))

  load_psk_lem :
      (creds : Credentials) (ident key : Option (List ℕ)) (s : Session mbed)
      → creds.ps_key ≡ key
      → NonZero (load_psk mbed ident key s).0
        × ((load_psk mbed ident key s).0 ≡ next
            → Trusts mbed creds (load_psk mbed ident key s).1.context)
  unfolding load_psk
  load_psk_lem creds none key s e = (ground arith, λ n. cc)
  load_psk_lem creds (some ident) none s e = (ground arith, λ n. cc)
  load_psk_lem creds (some ident) (some key) s e =
      let l = conf_decoded_lem (decode_psk mbed.psk_max_len key) ident s in
      (l.0, λ n. let (psk, d) = l.1 n in inr (key, psk, e, d))

  load_ca_lem :
      (creds : Credentials) (ca : List ℕ) (s : Session mbed)
      → NonZero (load_ca mbed ca s).0
        × ((load_ca mbed ca s).0 ≡ next → Trusts mbed creds (load_ca mbed ca s).1.context)
  unfolding load_ca freeing
  load_ca_lem creds ca s = ground arith

  authenticate_lem :
      (creds : Credentials) (s : Session mbed)
      → creds.insecure ≡ false
      → NonZero (authenticate mbed creds s).0
        × ((authenticate mbed creds s).0 ≡ next
            → Trusts mbed creds (authenticate mbed creds s).1.context)
  unfolding authenticate
  authenticate_lem creds s secure = elim (Option-cases creds.root_ca) [
    | inl e ↦ rw (secure, e) (load_psk_lem creds creds.psk_ident creds.ps_key s refl)
    | inr (ca, e) ↦ rw (secure, e) (load_ca_lem creds ca s)
  ]

  -- A part that leaves the mode of authentication alone.
  abbrev SameMode : Part mbed → Type 0
  SameMode p = (s : Session mbed) → (p s).1.context.authmode ≡ s.context.authmode

  resume-mode :
      (flow : Flow) (q : Part mbed) (s : Session mbed)
      → SameMode q
      → (resume mbed flow q s).1.context.authmode ≡ s.context.authmode
  unfolding resume
  resume-mode next q s h = h s
  resume-mode (returns code) q s h = refl

  seq-SameMode : (p q : Part mbed) → SameMode p → SameMode q → SameMode (seq mbed p q)
  seq-SameMode p q hp hq s = resume-mode (p s).0 q (p s).1 hq ∙ hp s

  load_certificate-SameMode : (cert : List ℕ) → SameMode (load_certificate mbed cert)
  unfolding load_certificate freeing delete_handshake_certs
  load_certificate-SameMode cert s = ground arith

  load_key-SameMode : (key : List ℕ) → SameMode (load_key mbed key)
  unfolding load_key freeing delete_handshake_certs
  load_key-SameMode key s = ground arith

  identify-SameMode :
      (insecure : Bool) (cert key : Option (List ℕ)) → SameMode (identify mbed insecure cert key)
  unfolding identify
  identify-SameMode true cert key s = refl
  identify-SameMode false none key s = refl
  identify-SameMode false (some cert) none s = refl
  identify-SameMode false (some cert) (some key) s =
      seq-SameMode (load_certificate mbed cert) (load_key mbed key) (load_certificate-SameMode cert)
        (load_key-SameMode key) s

  attach-SameMode : (sck : ℤ) (host : List ℕ) → SameMode (attach mbed sck host)
  unfolding attach name_host set_up adopt freeing delete_handshake_certs
  attach-SameMode sck host =
      seq-SameMode (name_host mbed host) (seq mbed (set_up mbed) (adopt mbed sck))
        (λ s. ground arith)
        (seq-SameMode (set_up mbed) (adopt mbed sck) (λ s. ground arith) (λ s. refl))

  load_lem :
      (sck : ℤ) (host : List ℕ) (creds : Credentials) (s : Session mbed)
      → creds.insecure ≡ false
      → (load mbed sck host creds s).0 ≡ returns (pos 0)
      → Trusts mbed creds (load mbed sck host creds s).1.context
  unfolding load
  load_lem sck host creds s secure e =
      let p = authenticate mbed creds in
      let identify' = identify mbed creds.insecure creds.cli_cert creds.cli_key in
      let q = seq mbed identify' (attach mbed sck host) in
      let a = authenticate_lem creds s secure in
      let z = resume_zero (p s).0 q (p s).1 a.0 e in
      let same =
        seq-SameMode identify' (attach mbed sck host)
          (identify-SameMode creds.insecure creds.cli_cert creds.cli_key) (attach-SameMode sck host)
          (p s).1 in
      elim (a.1 z.0) [
        | inl m ↦ inl (ap (λ (r : Flow × Session mbed). r.1.context.authmode) z.1 ∙ same ∙ m)
        | inr psk ↦ inr psk
      ]

  start_rest :
      (sck : ℤ) (host : List ℕ) (creds : Credentials) (s : Session mbed)
      → (start_ssl_client mbed sck host creds s).0 ≡ returns (pos 0)
      → (s' : Session mbed) × ((load mbed sck host creds s').0 ≡ returns (pos 0))
        × (start_ssl_client mbed sck host creds s ≡ load mbed sck host creds s')
  unfolding start_ssl_client
  start_rest sck host creds s e =
      let p1 = set_options mbed sck in
      let p2 = configure mbed in
      let q = load mbed sck host creds in
      let whole = resume mbed (p1 s).0 (seq mbed p2 q) (p1 s).1 in
      let passed : start_ssl_client mbed sck host creds s ≡ whole = ground arith in
      let z1 =
        resume_zero (p1 s).0 (seq mbed p2 q) (p1 s).1 (set_options-NonZero sck s)
          (ap (λ (r : Flow × Session mbed). r.0) (sym passed) ∙ e) in
      let s2 = (p1 s).1 in
      let z2 =
        resume_zero (p2 s2).0 q (p2 s2).1 (configure-NonZero s2)
          (ap (λ (r : Flow × Session mbed). r.0) (sym (passed ∙ z1.1)) ∙ e) in
      let same : start_ssl_client mbed sck host creds s ≡ q (p2 s2).1 = passed ∙ z1.1 ∙ z2.1 in
      ((p2 s2).1, ap (λ (r : Flow × Session mbed). r.0) (sym same) ∙ e, same)

  -- If a session is not started as insecure and its start returns 0, then the server is to be
  -- verified by a certificate, or a pre-shared key was given and could be decoded.
  pub start_authenticates :
      (sck : ℤ) (host : List ℕ) (creds : Credentials) (s : Session mbed)
      → creds.insecure ≡ false
      → let r = start_ssl_client mbed sck host creds s in
        r.0 ≡ returns (pos 0) → Trusts mbed creds r.1.context
  start_authenticates sck host creds s secure e =
      let (s', ends, same) = start_rest sck host creds s e in
      rw same (load_lem sck host creds s' secure ends)

  -- With a socket and no certificate of its own, if the handshake returns 0 and the verification
  -- of the peer reports any flag, `runSSLHandshake` returns 0, as after success.
  pub unverified_succeeds :
      (s : Session mbed) (flags : ℕ)
      → is_negative s.context.socket ≡ false
      → s.context.have_client_cert ≡ false
      → let (ret, w) = mbed.handshake (note_start mbed s).world in
        ret ≡ pos 0 → mbed.verify_result w ≡ suc flags → (run_ssl_handshake mbed s).0 ≡ pos 0
  unfolding run_ssl_handshake completed note_start
  unverified_succeeds s flags n c e v = ground arith
