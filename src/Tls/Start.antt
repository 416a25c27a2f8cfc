-- ===== src/Tls/Start.antt =====
-- src/AsyncTCP_TLS_Context.cpp: _startSSLClient, as parts of which each may return.
use async_tcpsock.Base.{
  ℕ, Bool, true, false, not, ◌&&◌, Option, none, some, List, ℤ, pos, minus_one, ◌==ℤ◌,
  if◌then◌else◌,
}
use async_tcpsock.Tls.Psk.{decode_psk}
use async_tcpsock.Tls.State.{
  Mbed, AuthMode, Credentials, Session, is_negative, delete_handshake_certs,
}

abbrev is_null : Option (List ℕ) → Bool
is_null none = true
is_null (some x) = false

-- Whether a function goes on after one of its parts, or returns a code.
pub data Flow : Type 0 where
  next : Flow
  returns : ℤ → Flow

module _ (mbed : Mbed) where
  abbrev pub Part : Type 0
  Part = Session mbed → Flow × Session mbed

  unfoldable pub resume : Flow → Part → Part
  resume next part s = part s
  resume (returns code) part s = (returns code, s)

  -- Two parts, the second of which runs unless the first returns.
  abbrev pub seq : Part → Part → Part
  seq p q s = let (flow, s') = p s in resume flow q s'

  -- A call whose result makes the function return: a negative one, or one that is not 0.
  abbrev if_bad : Bool → ℤ → Flow
  if_bad bad code = if bad then returns code else next

  unfoldable pub set_options : ℤ → Part
  unfolding resume
  set_options sck =
      seq
        (λ s.
          let (r, w) = mbed.set_no_delay sck s.world in
          (if_bad (is_negative r) minus_one, record s { world = w }))
        (λ s.
          let (r, w) = mbed.set_keep_alive sck s.world in
          (if_bad (is_negative r) minus_one, record s { world = w }))

  unfoldable pub configure : Part
  unfolding resume
  configure =
      seq
        (λ s. let (r, w) = mbed.seed s.world in (if_bad (is_negative r) r, record s { world = w }))
        (λ s.
          let (r, w) = mbed.config_defaults s.world in
          (if_bad (not (r ==ℤ pos 0)) r, record s { world = w }))

  -- A part that fails once certificates may be loaded frees them first.
  unfoldable pub freeing : Bool → ℤ → Part
  freeing true code s = (returns code, record s { context = delete_handshake_certs s.context })
  freeing false code s = (next, s)

  unfoldable pub load_ca : List ℕ → Part
  unfolding freeing
  load_ca root_ca s =
      let (r, w) = mbed.parse_certificate root_ca s.world in
      freeing (is_negative r) r (record {
        context = record s.context {
          authmode = AuthMode.verify_required;
          have_ca_cert = true;
          ca_cert_live = true;
        };
        world = w;
      })

  unfoldable pub conf_decoded : Option (List ℕ) → List ℕ → Part
  conf_decoded none ident s = (returns minus_one, s)
  conf_decoded (some psk) ident s =
      let (r, w) = mbed.conf_psk psk ident s.world in
      (if_bad (not (r ==ℤ pos 0)) r, record s { world = w })

  unfoldable pub load_psk : Option (List ℕ) → Option (List ℕ) → Part
  load_psk (some ident) (some key) s = conf_decoded (decode_psk mbed.psk_max_len key) ident s
  load_psk _ _ s = (returns minus_one, s)

  unfoldable pub authenticate : Credentials → Part
  authenticate creds s =
      if creds.insecure
      then (next, record s { context = record s.context { authmode = AuthMode.verify_none } })
      else elim creds.root_ca [
        | some ca ↦ load_ca ca s
        | none ↦ load_psk creds.psk_ident creds.ps_key s
      ]

  unfoldable pub load_certificate : List ℕ → Part
  unfolding freeing
  load_certificate cert s =
      let (r, w) = mbed.parse_certificate cert s.world in
      freeing (is_negative r) r (record {
        context = record s.context { have_client_cert = true; client_cert_live = true };
        world = w;
      })

  unfoldable pub load_key : List ℕ → Part
  unfolding freeing
  load_key key s =
      let (r, w) = mbed.parse_key key s.world in
      freeing (not (r ==ℤ pos 0)) r (record {
        context = record s.context { have_client_key = true; client_key_live = true };
        world = w;
      })

  unfoldable pub identify : Bool → Option (List ℕ) → Option (List ℕ) → Part
  unfolding resume
  identify false (some cert) (some key) s = seq (load_certificate cert) (load_key key) s
  identify _ _ _ s = (next, s)

  unfoldable pub name_host : List ℕ → Part
  unfolding freeing
  name_host host s =
      let (r, w) = mbed.set_hostname host s.world in
      freeing (not (r ==ℤ pos 0)) r (record s { world = w })

  unfoldable pub set_up : Part
  unfolding freeing
  set_up s =
      let (r, w) = mbed.setup s.world in freeing (not (r ==ℤ pos 0)) r (record s { world = w })

  unfoldable pub adopt : ℤ → Part
  adopt sck s = (
    returns (pos 0),
    record s { context = record s.context { socket = sck; handshake_start_time = 0 } },
  )

  unfoldable pub attach : ℤ → List ℕ → Part
  unfolding resume
  attach sck host = seq (name_host host) (seq set_up (adopt sck))

  -- What follows the configuration.
  unfoldable pub load : ℤ → List ℕ → Credentials → Part
  unfolding resume
  load sck host creds =
      seq (authenticate creds)
        (seq (identify creds.insecure creds.cli_cert creds.cli_key) (attach sck host))

  -- `rootCABuff == NULL && pskIdent == NULL && psKey == NULL && !insecure`
  abbrev lacks_all : Credentials → Bool
  lacks_all creds =
      is_null creds.root_ca && is_null creds.psk_ident && is_null creds.ps_key && not creds.insecure

  -- _startSSLClient
  unfoldable pub start_ssl_client : ℤ → List ℕ → Credentials → Part
  unfolding resume
  start_ssl_client sck host creds s =
      if lacks_all creds
      then (returns minus_one, s)
      else seq (set_options sck) (seq configure (load sck host creds)) s
