-- ===== src/Tls/State.antt =====
-- The state of src/AsyncTCP_TLS_Context.h, what it is given, and what it calls.
use async_tcpsock.Base.{
  ◌||◌, ◌==ℤ◌, ℕ, Bool, true, false, not, ◌&&◌, Option, none, List, ℤ, pos, negsuc, minus_one,
}

abbrev pub is_negative : ℤ → Bool
is_negative (pos n) = false
is_negative (negsuc n) = true

-- What is called of mbedTLS, lwIP and Arduino. Results are as in C: 0 or more for success, or 0
-- alone, by the function.
pub record Mbed : Type 1 where
  pub World : Type 0
  pub want_read : ℤ
  pub want_write : ℤ
  pub conn_eof : ℤ
  pub peer_close_notify : ℤ
  pub psk_max_len : ℕ
  -- setsockopt() of TCP_NODELAY and of SO_KEEPALIVE
  pub set_no_delay : ℤ → World → ℤ × World
  pub set_keep_alive : ℤ → World → ℤ × World
  pub seed : World → ℤ × World
  pub config_defaults : World → ℤ × World
  pub parse_certificate : List ℕ → World → ℤ × World
  pub parse_key : List ℕ → World → ℤ × World
  -- mbedtls_ssl_conf_psk(): the key, and who has it
  pub conf_psk : List ℕ → List ℕ → World → ℤ × World
  pub set_hostname : List ℕ → World → ℤ × World
  pub setup : World → ℤ × World
  pub handshake : World → ℤ × World
  pub record_expansion : World → ℤ
  -- the flags of mbedtls_ssl_get_verify_result()
  pub verify_result : World → ℕ
  pub ssl_write : List ℕ → World → ℤ × World
  -- mbedtls_ssl_read() into a buffer of some length: its result, and what it has put there
  pub ssl_read : ℕ → World → (ℤ × List ℕ) × World
  -- mbedtls_ssl_free and the three calls after it
  pub release : World → World
  -- millis(), an unsigned long of 32 bits
  pub millis : World → ℕ × World

pub data AuthMode : Type 0 where
  unset verify_none verify_required : AuthMode

-- The members, and whether the structures of the certificates and the key hold memory.
pub record Context : Type 0 where
  pub socket : ℤ
  pub have_ca_cert : Bool
  pub have_client_cert : Bool
  pub have_client_key : Bool
  pub handshake_timeout : ℕ
  pub handshake_start_time : ℕ
  pub authmode : AuthMode
  pub ca_cert_live : Bool
  pub client_cert_live : Bool
  pub client_key_live : Bool

-- The arguments of _startSSLClient; `none` is a null pointer.
pub record Credentials : Type 0 where
  pub root_ca : Option (List ℕ)
  pub cli_cert : Option (List ℕ)
  pub cli_key : Option (List ℕ)
  pub psk_ident : Option (List ℕ)
  pub ps_key : Option (List ℕ)
  pub insecure : Bool

-- What startSSLClientInsecure and the overloads of startSSLClient pass on. The texts of the third
-- are passed with the 0 at their end.
abbrev pub insecure_credentials : Credentials
insecure_credentials = record {
  root_ca = none;
  cli_cert = none;
  cli_key = none;
  psk_ident = none;
  ps_key = none;
  insecure = true;
}

abbrev pub psk_credentials : Option (List ℕ) → Option (List ℕ) → Credentials
psk_credentials psk_ident ps_key = record insecure_credentials {
  psk_ident = psk_ident;
  ps_key = ps_key;
  insecure = false;
}

abbrev pub certificates : Option (List ℕ) → Option (List ℕ) → Option (List ℕ) → Credentials
certificates root_ca cli_cert cli_key = record insecure_credentials {
  root_ca = root_ca;
  cli_cert = cli_cert;
  cli_key = cli_key;
  insecure = false;
}

-- AsyncTCP_TLS_Context()
abbrev pub new : Context
new = record {
  socket = minus_one;
  have_ca_cert = false;
  have_client_cert = false;
  have_client_key = false;
  handshake_timeout = 120_000;
  handshake_start_time = 0;
  authmode = AuthMode.unset;
  ca_cert_live = false;
  client_cert_live = false;
  client_key_live = false;
}

-- _deleteHandshakeCerts()
unfoldable pub delete_handshake_certs : Context → Context
delete_handshake_certs c = record c {
  ca_cert_live = c.ca_cert_live && not c.have_ca_cert;
  client_cert_live = c.client_cert_live && not c.have_client_cert;
  client_key_live = c.client_key_live && not c.have_client_key;
  have_ca_cert = false;
  have_client_cert = false;
  have_client_key = false;
}

module _ (mbed : Mbed) where
  open mbed use {World}

  pub record Session : Type 0 where
    pub context : Context
    pub world : World

  -- ASYNCTCP_TLS_CAN_RETRY and ASYNCTCP_TLS_EOF
  abbrev pub can_retry : ℤ → Bool
  can_retry r = r ==ℤ mbed.want_read || r ==ℤ mbed.want_write

  abbrev pub is_eof : ℤ → Bool
  is_eof r = r ==ℤ mbed.conn_eof || r ==ℤ mbed.peer_close_notify

  -- ~AsyncTCP_TLS_Context()
  unfoldable pub destroy : Session → Session
  unfolding delete_handshake_certs
  destroy s = record { context = delete_handshake_certs s.context; world = mbed.release s.world }
