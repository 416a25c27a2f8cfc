-- ===== src/Samples/Sketches.antt =====
-- The sketches on the sample network.
use async_tcpsock.Base.{◌⊎◌, ◌<◌, ℕ, ◌≡◌}
use async_tcpsock.Samples.{quiet_os}
use async_tcpsock.Samples.Clients.{offline}
use async_tcpsock.Client.State.{Sys}
use async_tcpsock.Client.Api.{connect_host}
use async_tcpsock.Examples.Http.{hostname}
use async_tcpsock.Examples.Loop.{
  Board, Timers, Spaced, since, calls, noting_loop, begin_notes, forget, loop, attempts-Spaced,
}

-- A board on which 30 seconds have passed.
abbrev board : Board (Sys quiet_os)
board = record { millis = λ s. (30000, s); delay = λ ms s. s; state = λ s. 0 }

abbrev sketch : Timers (Sys quiet_os)
sketch = record { t_dot = 0; t_req = 0; client = offline }

attempts-Spaced_example :
    let connect = connect_host quiet_os hostname 80 in
    let r = calls (noting_loop board connect) 3 (begin_notes board connect sketch) in
    let once = loop board connect sketch in
    let state : ℕ = 0 in
    (forget board connect r ≡ calls (loop board connect) 3 sketch)
    × Spaced r.client.connects
    × ((since 30000 0 < 20000)
        ⊎ (0 < state)
        ⊎ ((once.t_req ≡ 30000) × (once.client ≡ (connect offline).1)))
attempts-Spaced_example = attempts-Spaced board (connect_host quiet_os hostname 80) 3 sketch
