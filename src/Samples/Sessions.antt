-- ===== src/Samples/Sessions.antt =====
-- TLS sessions at work on a sample of mbedTLS, whose certificates are not empty and whose world is
-- a clock.
use async_tcpsock.Base.{
  false, true, ℕ, ◌+◌, ◌≡◌, refl, some, List, [], ◌∷◌, length, ℤ, pos, negsuc, arith,
}
use async_tcpsock.Tls.State.{Mbed, Session, new, psk_credentials}
use async_tcpsock.Tls.Start.{
  start_ssl_client, resume, set_options, configure, load, authenticate, identify, attach, load_psk,
  conf_decoded, name_host, set_up, adopt, freeing,
}
use async_tcpsock.Tls.Handshake.{run_ssl_handshake}
use async_tcpsock.Tls.Psk.{
  Written, encode, decode_psk, decode_psk-encode, hex_digit, put_byte, decode_pairs,
}
use async_tcpsock.Tls.Trust.{unverified_succeeds, Trusts, start_authenticates}

abbrev parsed : List ℕ → ℤ
parsed [] = negsuc 0
parsed (b ∷ bs) = pos 0

-- A session whose handshake succeeds at once, with a peer that is not verified.
abbrev pub plain_mbed : Mbed
plain_mbed = record {
  World = ℕ;
  want_read = negsuc 26879;
  want_write = negsuc 26751;
  conn_eof = negsuc 29311;
  peer_close_notify = negsuc 30847;
  psk_max_len = 32;
  set_no_delay = λ s w. (pos 0, w);
  set_keep_alive = λ s w. (pos 0, w);
  seed = λ w. (pos 0, w);
  config_defaults = λ w. (pos 0, w);
  parse_certificate = λ c w. (parsed c, w);
  parse_key = λ k w. (parsed k, w);
  conf_psk = λ k i w. (pos 0, w);
  set_hostname = λ h w. (pos 0, w);
  setup = λ w. (pos 0, w);
  handshake = λ w. (pos 0, w);
  record_expansion = λ w. pos 29;
  verify_result = λ w. 8;
  ssl_write = λ d w. (pos (length d), w);
  ssl_read = λ n w. ((pos 0, []), w);
  release = λ w. w;
  millis = λ w. (w, w + 1);
}

abbrev pub fresh : Session plain_mbed
fresh = record { context = new; world = 100 }

-- The key "A50f".
abbrev written_key : List Written
written_key =
    record { byte = 165; upper_high = true; upper_low = false }
    ∷ record { byte = 15; upper_high = false; upper_low = false }
    ∷ []

abbrev a_key : List ℕ
a_key = encode written_key

decode_psk-encode_example : decode_psk 32 a_key ≡ some (165 ∷ 15 ∷ [])
decode_psk-encode_example =
    decode_psk-encode 32 written_key (omega arith, (omega arith, tt)) (omega arith)

start_authenticates_example :
    Trusts plain_mbed
      (psk_credentials (some (7 ∷ [])) (some a_key))
      (start_ssl_client plain_mbed
        (pos 54)
        (104 ∷ [])
        (psk_credentials (some (7 ∷ [])) (some a_key))
        fresh).1.context
unfolding start_ssl_client set_options configure load authenticate load_psk conf_decoded decode_psk
    decode_pairs put_byte hex_digit identify attach name_host set_up adopt freeing resume
start_authenticates_example =
    start_authenticates plain_mbed (pos 54) (104 ∷ [])
      (psk_credentials (some (7 ∷ [])) (some a_key)) fresh refl refl

unverified_succeeds_example :
    (run_ssl_handshake plain_mbed (record fresh { context = record new { socket = pos 54 } })).0
    ≡ pos 0
unverified_succeeds_example =
    unverified_succeeds plain_mbed (record fresh { context = record new { socket = pos 54 } }) 7
      refl refl refl refl
