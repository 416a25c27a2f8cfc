-- ===== src/Samples/Failures.antt =====
-- Connections that begin, end, fail and time out on variants of the sample network.
use async_tcpsock.Client.Api
use async_tcpsock.Base.{◌⊎◌, false, some, [], ◌∷◌, ◌≡◌, true, refl, pos}
use async_tcpsock.Os.{Os, ok, failed}
use async_tcpsock.Samples.{quiet_os, net}
use async_tcpsock.Samples.Clients.{in_state, online, offline}
use async_tcpsock.Flags.{immediate, of_flag, test}
use async_tcpsock.Connection.{is_open}
use async_tcpsock.Client.State.{connecting, Sys, closed}
use async_tcpsock.Client.Callbacks.{Callback}
use async_tcpsock.Client.Events
use async_tcpsock.Client.Queue.Order.{pending_all}
use async_tcpsock.Client.Api.Sending.{write_keeps_unsent}
use async_tcpsock.Client.Api.Connecting.{connect_on_closed}
use async_tcpsock.Client.Fires.{invoked_of}
use async_tcpsock.Client.Events.Failing.{IsClosing, error_disconnects}

-- A descriptor whose fcntl fails, and no descriptor at all.
abbrev refusing_os : Os
refusing_os = record quiet_os {
  connect = λ s ip port w. (ok 0, w);
  set_nonblocking = λ s w. (failed (pos 9), w);
}

abbrev busy_os : Os
busy_os = record quiet_os { select_write = λ s w. (ok 0, w) }

abbrev busy : Sys busy_os
busy = in_state busy_os (net 1) online.client

abbrev refused : Sys refusing_os
refused = in_state refusing_os (net 1) offline.client

write_keeps_unsent_example :
    let r = Api.write busy_os (some (5 ∷ 6 ∷ [])) (of_flag immediate) busy in
    (r.0 ≡ 0) × (pending_all r.1.client.write_queue ≡ 3 ∷ 4 ∷ 5 ∷ 6 ∷ [])
unfolding test
write_keeps_unsent_example =
    write_keeps_unsent busy_os (5 ∷ 6 ∷ []) (of_flag immediate) busy refl (λ w. refl)

connect_on_closed_example :
    let r = Api.connect refusing_os 3 80 refused in
    ((false ≡ true)
      × (r.0 ≡ false)
      × (r.1.client ≡ refused.client)
      × (r.1.world ≡ refusing_os.close (pos 54) refused.world)
      × (r.1.log ≡ closed (pos 54) ∷ []))
    ⊎ ((false ≡ false)
        × (r.0 ≡ true)
        × (r.1.client.state ≡ connecting)
        × (r.1.client.socket ≡ pos 54)
        × (r.1.world ≡ refusing_os.close (pos 54) refused.world)
        × (r.1.log ≡ closed (pos 54) ∷ []))
unfolding is_open Api.connect_failed
connect_on_closed_example = connect_on_closed refusing_os 3 80 54 refused refl refl

error_disconnects_example :
    let failing = (Events._error quiet_os (pos 104) online).1 in
    IsClosing quiet_os failing.client
    × (invoked_of (Events.processing_done quiet_os failing).1.log
        ≡ Callback.disconnect ∷ Callback.error (pos 104) ∷ [])
error_disconnects_example = error_disconnects quiet_os (pos 104) online
