-- ===== src/Tls/Tidy.antt =====
-- What the parts of _startSSLClient (src/AsyncTCP_TLS_Context.cpp) leave behind.
use async_tcpsock.Base.{◌≡◌, ◌⊎◌, inr, refl, Bool, true, false, ℤ, pos, arith}
use async_tcpsock.Tls.State.{Mbed, Context, Session, delete_handshake_certs}
use async_tcpsock.Tls.Start.{Flow, next, returns, Part, resume, freeing, seq}

-- The flags tell which structures hold memory.
pub record Tidy (c : Context) : Type 0 where
  pub ca : c.have_ca_cert ≡ c.ca_cert_live
  pub cert : c.have_client_cert ≡ c.client_cert_live
  pub key : c.have_client_key ≡ c.client_key_live

-- None does.
pub record Freed (c : Context) : Type 0 where
  pub tidy : Tidy c
  pub no_ca : c.ca_cert_live ≡ false
  pub no_cert : c.client_cert_live ≡ false
  pub no_key : c.client_key_live ≡ false

-- What a part leaves: it goes on or returns 0 with the flags right, or it returns with all freed.
abbrev pub Ends : Flow → Context → Type 0
Ends next c = Tidy c
Ends (returns code) c = ((code ≡ pos 0) × Tidy c) ⊎ Freed c

pub deleted-Freed : (c : Context) → Tidy c → Freed (delete_handshake_certs c)
unfolding delete_handshake_certs
deleted-Freed c h = ground arith

pub Freed-Ends : (flow : Flow) (c : Context) → Freed c → Ends flow c
Freed-Ends next c h = h.tidy
Freed-Ends (returns code) c h = inr h

module _ (mbed : Mbed) where
  -- A part that starts with the flags right ends as it should.
  abbrev pub Keeps : Part mbed → Type 0
  Keeps part = (s : Session mbed) → Tidy s.context → Ends (part s).0 (part s).1.context

  -- A part that loads nothing.
  abbrev pub Light : Part mbed → Type 0
  Light part = (s : Session mbed) → Freed s.context → Freed (part s).1.context

  pub resume-Ends :
      (flow : Flow) (part : Part mbed) (s : Session mbed)
      → Ends flow s.context
      → (flow ≡ next → Ends (part s).0 (part s).1.context)
      → Ends (resume mbed flow part s).0 (resume mbed flow part s).1.context
  unfolding resume
  resume-Ends next part s h k = k refl
  resume-Ends (returns code) part s h k = h

  pub next-Tidy : (flow : Flow) (c : Context) → Ends flow c → flow ≡ next → Tidy c
  next-Tidy next c h e = h
  next-Tidy (returns code) c h e = cc

  pub seq-Keeps : (p q : Part mbed) → Keeps p → Keeps q → Keeps (seq mbed p q)
  seq-Keeps p q kp kq s h =
      resume-Ends (p s).0 q (p s).1 (kp s h)
        (λ e. kq (p s).1 (next-Tidy (p s).0 (p s).1.context (kp s h) e))

  pub seq-Light :
      (p q : Part mbed)
      → Light p
      → ((s : Session mbed) → Freed s.context → Ends (q s).0 (q s).1.context)
      → (s : Session mbed) → Freed s.context
      → Ends (seq mbed p q s).0 (seq mbed p q s).1.context
  seq-Light p q kp kq s h =
      resume-Ends (p s).0 q (p s).1 (Freed-Ends (p s).0 (p s).1.context (kp s h))
        (λ e. kq (p s).1 (kp s h))

  pub freeing-Ends :
      (bad : Bool) (code : ℤ) (s : Session mbed)
      → Tidy s.context
      → Ends (freeing mbed bad code s).0 (freeing mbed bad code s).1.context
  unfolding freeing
  freeing-Ends true code s h = inr (deleted-Freed s.context h)
  freeing-Ends false code s h = h
