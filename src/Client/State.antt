-- ===== src/Client/State.antt =====
-- The state of src/ClientBase.hpp, its pure queries, and the steps of which its functions consist.
use async_tcpsock.Base.{ℕ, Bool, true, false, Option, List, ◌∷◌, ℤ}
use async_tcpsock.Os.{Os}
use async_tcpsock.Buffer.{WriteQueueBuffer}
use async_tcpsock.Connection.{SocketConnection}
use async_tcpsock.Client.Callbacks.{ClientCallbacks, Callback}

pub data ConnectionState : Type 0 where
  disconnected waiting_for_dns connecting connected disconnecting : ConnectionState

-- `_writeMutex` as its only thread sees it: locking what is held, or unlocking what is free, is
-- undefined for a std::mutex, and shows as `dead`.
pub data Mutex : Type 0 where
  free held dead : Mutex

abbrev pub locked : Mutex → Mutex
locked free = held
locked _ = dead

abbrev pub unlocked : Mutex → Mutex
unlocked held = free
unlocked _ = dead

-- Durations are nanoseconds and not negative. (A negative timeout would act as 0, since the clock
-- does not run backwards.)
pub record ClientBase : Type 0 where
  pub connection : SocketConnection
  pub open connection use *
  pub state : ConnectionState
  pub write_mutex : Mutex
  pub write_space_remaining : ℕ
  pub write_queue : List WriteQueueBuffer
  pub ip : ℕ
  pub port : ℕ
  pub ack_timeout : Option ℕ
  pub rx_timeout : Option ℕ
  pub rx_last_packet : ℕ
  pub ack_timeout_signaled : Bool
  pub callbacks : ClientCallbacks

abbrev pub is_connected : ConnectionState → Bool
is_connected connected = true
is_connected _ = false

-- What is noted of a client: the callbacks that `invoke` is called for, with a handler or without;
-- sockets that are closed; and names that lwIP is asked for and has no answer for yet.
pub data Action : Type 0 where
  invoked : Callback → Action
  closed : ℤ → Action
  asked : Action

-- A client, the world, and what has been seen of the client, the latest first. The log is read by
-- no function of the program.
pub record Sys (os : Os) : Type 0 where
  pub client : ClientBase
  pub world : os.World
  pub log : List Action

module _ (os : Os) where
  abbrev pub M : Type 0 → Type 0
  M A = Sys os → A × Sys os

  abbrev pub get : {A : Type 0} → (ClientBase → A) → M A
  get f s = (f s.client, s)

  abbrev pub modify : (ClientBase → ClientBase) → M (Unit {0})
  modify f s = (tt, record s { client = f s.client })

  abbrev pub call_os : {A : Type 0} → (os.World → A × os.World) → M A
  call_os f s = let (a, w) = f s.world in (a, record s { world = w })

  abbrev pub exec : (os.World → os.World) → M (Unit {0})
  exec f s = (tt, record s { world = f s.world })

  abbrev pub emit : Action → M (Unit {0})
  emit a s = (tt, record s { log = a ∷ s.log })

  abbrev pub when : Bool → M (Unit {0}) → M (Unit {0})
  when true m s = m s
  when false m s = (tt, s)

  abbrev pub lock : M (Unit {0})
  lock = modify λ c. record c { write_mutex = locked c.write_mutex }

  abbrev pub unlock : M (Unit {0})
  unlock = modify λ c. record c { write_mutex = unlocked c.write_mutex }
