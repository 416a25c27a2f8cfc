-- ===== src/Tls.antt =====
-- src/AsyncTCP_TLS_Context.h and .cpp: a TLS session on a socket, by mbedTLS.
pub mod Psk
pub mod State
pub mod Start
pub mod Handshake
pub mod Tidy
pub mod Release
pub mod Trust
