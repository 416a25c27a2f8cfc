-- ===== src/Client/Callbacks.antt =====
-- src/Callbacks.hpp: ClientCallbacks, with the code of the user as a program over the client's
-- public functions. A handler gets the event with its arguments; its `arg` is part of it.
use async_tcpsock.Base.{ℕ, Bool, Option, none, List, ℤ}
use async_tcpsock.Flags.{ClientApiFlags}

pub data ClientCallbackType : Type 0 where
  connect disconnect poll sent recv error timeout : ClientCallbackType

-- A callback's type with the arguments that `invoke` forwards. A delay is a uint32_t.
pub data Callback : Type 0 where
  connect disconnect poll : Callback
  sent : ℕ → ℕ → Callback
  recv : List ℕ → Callback
  error : ℤ → Callback
  timeout : ℕ → Callback

-- A call of a public function of the client. `none` stands for a null pointer.
pub data ApiCall : Type 0 where
  connect_ip : ℕ → ℕ → ApiCall
  connect_host : List ℕ → ℕ → ApiCall
  close abort send : ApiCall
  freeable connected can_send space : ApiCall
  add write : Option (List ℕ) → ClientApiFlags → ApiCall
  set_no_delay : Bool → ApiCall
  get_no_delay : ApiCall
  set_ack_timeout set_rx_timeout : Option ℕ → ApiCall

-- User code: it calls the client and sees the result as an integer, decides by data of its own
-- (`ask`), and sets handlers.
pub data Program : Type 0 where
  done : Program
  call : ApiCall → (ℤ → Program) → Program
  ask : (ℕ → Program) → Program
  on : ClientCallbackType → (Callback → Program) → Program → Program
  off : ClientCallbackType → Program → Program

abbrev pub Handler : Type 0
Handler = Callback → Program

-- An empty `std::function` is `none`.
pub record ClientCallbacks : Type 0 where
  pub connect_handler : Option Handler
  pub disconnect_handler : Option Handler
  pub poll_handler : Option Handler
  pub sent_handler : Option Handler
  pub recv_handler : Option Handler
  pub error_handler : Option Handler
  pub timeout_handler : Option Handler

abbrev pub no_callbacks : ClientCallbacks
no_callbacks = record {
  connect_handler = none;
  disconnect_handler = none;
  poll_handler = none;
  sent_handler = none;
  recv_handler = none;
  error_handler = none;
  timeout_handler = none;
}

-- The handler that `invoke` selects by its template parameter.
abbrev pub handler_of : Callback → ClientCallbacks → Option Handler
handler_of connect cs = cs.connect_handler
handler_of disconnect cs = cs.disconnect_handler
handler_of poll cs = cs.poll_handler
handler_of (sent len delay) cs = cs.sent_handler
handler_of (recv bytes) cs = cs.recv_handler
handler_of (error code) cs = cs.error_handler
handler_of (timeout delay) cs = cs.timeout_handler

-- Client::onConnect and the other six setters (src/Client.cpp).
unfoldable pub set_handler : ClientCallbackType → Option Handler → ClientCallbacks → ClientCallbacks
set_handler connect cb cs = record cs { connect_handler = cb }
set_handler disconnect cb cs = record cs { disconnect_handler = cb }
set_handler poll cb cs = record cs { poll_handler = cb }
set_handler sent cb cs = record cs { sent_handler = cb }
set_handler recv cb cs = record cs { recv_handler = cb }
set_handler error cb cs = record cs { error_handler = cb }
set_handler timeout cb cs = record cs { timeout_handler = cb }
