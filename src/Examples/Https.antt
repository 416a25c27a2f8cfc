-- ===== src/Examples/Https.antt =====
-- examples/raw_async_https_request/raw_async_https_request.ino. Its client is an SslClient here:
-- the AsyncClient that it declares has no setRootCa.
use async_tcpsock.Base.{true, ℕ, Bool, some, List, [], ◌∷◌, ◌++◌, take}
use async_tcpsock.Os.{Os}
use async_tcpsock.Client.Callbacks.{Program, Callback}
use async_tcpsock.Client.Program.{run}
use async_tcpsock.Tls.State.{Mbed}
use async_tcpsock.Ssl.{SslClient, set_root_ca}
use async_tcpsock.Examples.{bytes_of, add_lines, set_callbacks}
use async_tcpsock.Examples.Loop.{Board, Timers}
use async_tcpsock.Examples.Loop

abbrev pub hostname : List ℕ
hostname = bytes_of "www.eff.org"

abbrev pub concat : List (List ℕ) → List ℕ
concat [] = []
concat (line ∷ rest) = line ++ concat rest

abbrev pub root_ca_certificate : List ℕ
root_ca_certificate = concat (
    bytes_of "-----BEGIN CERTIFICATE-----\n"
    ∷ bytes_of "MIIFYDCCBEigAwIBAgIQQAF3ITfU6UK47naqPGQKtzANBgkqhkiG9w0BAQsFADA/\n"
    ∷ bytes_of "MSQwIgYDVQQKExtEaWdpdGFsIFNpZ25hdHVyZSBUcnVzdCBDby4xFzAVBgNVBAMT\n"
    ∷ bytes_of "DkRTVCBSb290IENBIFgzMB4XDTIxMDEyMDE5MTQwM1oXDTI0MDkzMDE4MTQwM1ow\n"
    ∷ bytes_of "TzELMAkGA1UEBhMCVVMxKTAnBgNVBAoTIEludGVybmV0IFNlY3VyaXR5IFJlc2Vh\n"
    ∷ bytes_of "cmNoIEdyb3VwMRUwEwYDVQQDEwxJU1JHIFJvb3QgWDEwggIiMA0GCSqGSIb3DQEB\n"
    ∷ bytes_of "AQUAA4ICDwAwggIKAoICAQCt6CRz9BQ385ueK1coHIe+3LffOJCMbjzmV6B493XC\n"
    ∷ bytes_of "ov71am72AE8o295ohmxEk7axY/0UEmu/H9LqMZshftEzPLpI9d1537O4/xLxIZpL\n"
    ∷ bytes_of "wYqGcWlKZmZsj348cL+tKSIG8+TA5oCu4kuPt5l+lAOf00eXfJlII1PoOK5PCm+D\n"
    ∷ bytes_of "LtFJV4yAdLbaL9A4jXsDcCEbdfIwPPqPrt3aY6vrFk/CjhFLfs8L6P+1dy70sntK\n"
    ∷ bytes_of "4EwSJQxwjQMpoOFTJOwT2e4ZvxCzSow/iaNhUd6shweU9GNx7C7ib1uYgeGJXDR5\n"
    ∷ bytes_of "bHbvO5BieebbpJovJsXQEOEO3tkQjhb7t/eo98flAgeYjzYIlefiN5YNNnWe+w5y\n"
    ∷ bytes_of "sR2bvAP5SQXYgd0FtCrWQemsAXaVCg/Y39W9Eh81LygXbNKYwagJZHduRze6zqxZ\n"
    ∷ bytes_of "Xmidf3LWicUGQSk+WT7dJvUkyRGnWqNMQB9GoZm1pzpRboY7nn1ypxIFeFntPlF4\n"
    ∷ bytes_of "FQsDj43QLwWyPntKHEtzBRL8xurgUBN8Q5N0s8p0544fAQjQMNRbcTa0B7rBMDBc\n"
    ∷ bytes_of "SLeCO5imfWCKoqMpgsy6vYMEG6KDA0Gh1gXxG8K28Kh8hjtGqEgqiNx2mna/H2ql\n"
    ∷ bytes_of "PRmP6zjzZN7IKw0KKP/32+IVQtQi0Cdd4Xn+GOdwiK1O5tmLOsbdJ1Fu/7xk9TND\n"
    ∷ bytes_of "TwIDAQABo4IBRjCCAUIwDwYDVR0TAQH/BAUwAwEB/zAOBgNVHQ8BAf8EBAMCAQYw\n"
    ∷ bytes_of "SwYIKwYBBQUHAQEEPzA9MDsGCCsGAQUFBzAChi9odHRwOi8vYXBwcy5pZGVudHJ1\n"
    ∷ bytes_of "c3QuY29tL3Jvb3RzL2RzdHJvb3RjYXgzLnA3YzAfBgNVHSMEGDAWgBTEp7Gkeyxx\n"
    ∷ bytes_of "+tvhS5B1/8QVYIWJEDBUBgNVHSAETTBLMAgGBmeBDAECATA/BgsrBgEEAYLfEwEB\n"
    ∷ bytes_of "ATAwMC4GCCsGAQUFBwIBFiJodHRwOi8vY3BzLnJvb3QteDEubGV0c2VuY3J5cHQu\n"
    ∷ bytes_of "b3JnMDwGA1UdHwQ1MDMwMaAvoC2GK2h0dHA6Ly9jcmwuaWRlbnRydXN0LmNvbS9E\n"
    ∷ bytes_of "U1RST09UQ0FYM0NSTC5jcmwwHQYDVR0OBBYEFHm0WeZ7tuXkAXOACIjIGlj26Ztu\n"
    ∷ bytes_of "MA0GCSqGSIb3DQEBCwUAA4IBAQAKcwBslm7/DlLQrt2M51oGrS+o44+/yQoDFVDC\n"
    ∷ bytes_of "5WxCu2+b9LRPwkSICHXM6webFGJueN7sJ7o5XPWioW5WlHAQU7G75K/QosMrAdSW\n"
    ∷ bytes_of "9MUgNTP52GE24HGNtLi1qoJFlcDyqSMo59ahy2cI2qBDLKobkx/J3vWraV0T9VuG\n"
    ∷ bytes_of "WCLKTVXkcGdtwlfFRjlBz4pYg1htmf5X6DYO8A4jqv2Il9DjXA6USbW1FzXSLr9O\n"
    ∷ bytes_of "he8Y4IWS6wY7bCkjCWDcRQJMEhg76fsO3txE+FiYruq9RUWhiF1myv4Q6W+CyBFC\n"
    ∷ bytes_of "Dfvp7OOGAN6dEOM4+qR9sdjoSYKEBpsr6GtPAQw4dy753ec5\n"
    ∷ bytes_of "-----END CERTIFICATE-----\n"
    ∷ [])

-- The lines of the request. `snprintf` keeps to the buffer of 128 bytes, its last one 0.
abbrev pub lines : List (List ℕ)
lines =
    bytes_of "GET / HTTP/1.1\r\n"
    ∷ take 127 (bytes_of "Host: " ++ hostname ++ bytes_of "\r\n")
    ∷ bytes_of "Connection: close\r\n\r\n"
    ∷ []

unfoldable pub on_connect : Callback → Program
unfolding add_lines
on_connect event = add_lines lines

module _ {os : Os} {mbed : Mbed} where
  -- setup(), from the callbacks on: the certificate goes with the 0 at its end.
  unfoldable pub setup : SslClient os mbed → SslClient os mbed
  unfolding set_callbacks on_connect run set_root_ca
  setup s =
      set_root_ca os mbed (some (root_ca_certificate ++ 0 ∷ []))
        (record s { base = (run os (set_callbacks on_connect) s.base).1 })

  -- loop(). `connect` is the connect() with a third argument, which no client has.
  unfoldable pub loop :
      (List ℕ → ℕ → Bool → SslClient os mbed → Bool × SslClient os mbed)
      → Board (SslClient os mbed)
      → Timers (SslClient os mbed)
      → Timers (SslClient os mbed)
  unfolding Loop.loop
  loop connect board s = Loop.loop board (connect hostname 443 true) s
