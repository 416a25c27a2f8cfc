-- ===== src/Client/Program.antt =====
-- User code at work on a client, and ClientCallbacks::invoke of src/Callbacks.hpp.
use async_tcpsock.Base.{Option, Bool, none, some, ℤ, pos, if◌then◌else◌, ◌>>=◌, ◌>>◌, return}
use async_tcpsock.Os.{Os}
use async_tcpsock.Client.State.{M, get, call_os, emit, is_connected, invoked}
use async_tcpsock.Client.Callbacks.{
  ApiCall, Program, done, call, ask, on, off, Callback, Handler, handler_of, set_handler,
}
use async_tcpsock.Client.Api

-- Results as integers.
abbrev pub of_bool : Bool → ℤ
of_bool b = if b then pos 1 else pos 0

module _ (os : Os) where
  unfoldable pub perform : ApiCall → M os ℤ
  perform (ApiCall.connect_ip ip port) = do r ← Api.connect os ip port; return (of_bool r)
  perform (ApiCall.connect_host host port) = do
    r ← Api.connect_host os host port
    return (of_bool r)
  perform ApiCall.close = do Api.close os; return (pos 0)
  perform ApiCall.abort = Api.abort os
  perform ApiCall.send = do r ← Api.send os; return (of_bool r)
  perform ApiCall.freeable = get os (λ c. of_bool (Api.freeable c))
  perform ApiCall.connected = get os (λ c. of_bool (is_connected c.state))
  perform ApiCall.can_send = get os (λ c. of_bool (Api.can_send c))
  perform ApiCall.space = get os (λ c. pos (Api.space c))
  perform (ApiCall.add bytes flags) = do n ← Api.add os bytes flags; return (pos n)
  perform (ApiCall.write bytes flags) = do n ← Api.write os bytes flags; return (pos n)
  perform (ApiCall.set_no_delay nodelay) = do Api.set_no_delay os nodelay; return (pos 0)
  perform ApiCall.get_no_delay = do r ← Api.get_no_delay os; return (of_bool r)
  perform (ApiCall.set_ack_timeout t) = do Api.set_ack_timeout os t; return (pos 0)
  perform (ApiCall.set_rx_timeout t) = do Api.set_rx_timeout os t; return (pos 0)

  unfoldable pub run : Program → M os (Unit {0})
  run done s = (tt, s)
  run (call a k) s = let (r, s') = perform a s in run (k r) s'
  run (ask k) s = let (n, s') = call_os os os.choose s in run (k n) s'
  run (on type handler p) s = run p (record s {
    client = record s.client { callbacks = set_handler type (some handler) s.client.callbacks };
  })
  run (off type p) s = run p (record s {
    client = record s.client { callbacks = set_handler type none s.client.callbacks };
  })

  -- `if (!handler) return;` and `std::invoke`.
  unfoldable pub dispatch : Option Handler → Callback → M os (Unit {0})
  dispatch none event s = (tt, s)
  dispatch (some handler) event s = run (handler event) s

  -- `callbacks.client` is the client itself and never null. Without a handler `invoke` returns at
  -- once; that it was called for this callback is still noted in the log.
  unfoldable pub invoke : Callback → M os (Unit {0})
  invoke event = do
    handler ← get os (λ c. handler_of event c.callbacks)
    emit os (invoked event)
    dispatch handler event
