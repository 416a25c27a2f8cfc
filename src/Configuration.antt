-- ===== src/Configuration.antt =====
-- src/Configuration.hpp: the defaults, in the code's units. The payload size and the time for a TLS
-- handshake are arguments of the definitions that use them.
use async_tcpsock.Base.{ℕ, ℤ, Bool, true, minus_one}

abbrev pub running_core : ℤ
running_core = minus_one

abbrev pub use_wdt : Bool
use_wdt = true

abbrev pub stack : ℕ
stack = 16384

abbrev pub task_priority : ℕ
task_priority = 18

-- Milliseconds.
abbrev pub poll_interval : ℕ
poll_interval = 125

abbrev pub max_ack_time : ℕ
max_ack_time = 5000
