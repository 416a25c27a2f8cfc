-- ===== src/Examples/Http.antt =====
-- examples/raw_async_http_request/raw_async_http_request.ino.
use async_tcpsock.Base.{ℕ, List, [], ◌∷◌}
use async_tcpsock.Os.{Os}
use async_tcpsock.Client.State.{Sys}
use async_tcpsock.Client.Callbacks.{Program, Callback}
use async_tcpsock.Client.Api.{connect_host}
use async_tcpsock.Examples.{bytes_of, add_lines, set_callbacks}
use async_tcpsock.Examples.Loop.{Board, Timers}
use async_tcpsock.Examples.Loop

-- The lines of the request.
abbrev pub lines : List (List ℕ)
lines =
    bytes_of "GET /api/timezone/Europe/London.txt HTTP/1.1\r\n"
    ∷ bytes_of "Host: worldtimeapi.org\r\n"
    ∷ bytes_of "Connection: close\r\n\r\n"
    ∷ []

unfoldable pub on_connect : Callback → Program
unfolding add_lines
on_connect event = add_lines lines

unfoldable pub setup : Program
unfolding set_callbacks
setup = set_callbacks on_connect

abbrev pub hostname : List ℕ
hostname = bytes_of "worldtimeapi.org"

-- loop(). `board` has state(), which the client lacks.
unfoldable pub loop : {os : Os} → Board (Sys os) → Timers (Sys os) → Timers (Sys os)
unfolding Loop.loop
loop {os} board s = Loop.loop board (connect_host os hostname 80) s
