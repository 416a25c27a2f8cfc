-- ===== src/Lib.antt =====
-- AsyncTCPSock: asynchronous TCP clients and servers for Espressif devices, over the BSD sockets of
-- lwIP. User code calls the public functions of clients and servers and sets handlers. One task of
-- the program waits on all sockets with `select` and calls the clients, which write their queues,
-- read, notice timeouts and call the handlers.
--
-- The parts, in the order in which they build on each other:
--   Os          what the code calls and does not contain: sockets, DNS client, clock, IPAddress,
--               and the decisions of user code. Each is a field of the record `Os` over a state of
--               the world; Os/Laws names the documented behaviour that theorems rely on, and
--               Os/Tapped is any such system beside something else, such as a record of what was
--               read.
--   Buffer      src/WriteQueueBuffer.hpp: buffers of the write queue and the loop that writes one
--               (`WriteQueueBufferUtil::write` is `write`, its rounds are `write_round`).
--   Flags       ClientApiFlags in src/ClientBase.hpp.
--   Connection  SocketConnection in src/SocketConnection.hpp and .tpp.
--   Client      src/ClientBase.hpp and .tpp, with src/Callbacks.hpp and the setters of
--               src/Client.cpp. `ClientBase` in Client/State is the object. Client/Queue has the
--               write queue, Client/Api the public functions, Client/Events those that the task
--               calls, and Client/Callbacks and Client/Program the handlers. A function of the
--               class keeps its name in snake case (`_cleanupWriteQueue` is `cleanup_write_queue`).
--               Client/Invariant, Client/Fires and Client/History are about all of them;
--               Client/Machine has the state machine that histories walk, Client/Errors the error
--               codes in them, Client/Delivery what they read, and Client/Queue/Drain repeated
--               passes over a queue.
--               Client/Address has the address queries of src/Client.cpp, Client/ErrorText
--               `errorToString` of src/Client.hpp, and Client/Race what threads do to each other
--               inside a client: two that add, one that adds beside all others, and close().
--   Server      src/Server.hpp and .cpp.
--   Manager     SocketConnectionManager in src/SocketConnection.hpp and .tpp: Manager/Registry is
--               the registry, Manager/Managed what it asks of its objects (the concepts),
--               Manager/Sets what the task collects, and Manager/Pass one round of
--               `updateConnectionStates`. Manager/Lifecycle has manage
--               and unmanage of src/AsyncTCP.cpp with the constructors and destructors that call
--               them, and Manager/System whole programs that make, use and delete clients and
--               servers. Manager/Worker is instance() with the task, Manager/Concepts the concepts
--               as tests of types, Manager/Resolving a connection by name, Manager/Accepting
--               the clients that servers accept, Manager/Deleting a handler for ERROR that deletes its
--               client, and Manager/Watchdog a round with the watchdog.
--   Configuration  src/Configuration.hpp.
--   Tls         src/AsyncTCP_TLS_Context.h and .cpp: Tls/Start is `_startSSLClient` with Tls/Psk for
--               its pre-shared key, and Tls/Handshake is `runSSLHandshake`. The record `Mbed` has the
--               calls of mbedTLS.
--   Ssl         src/SslClient.hpp and .cpp with TLS enabled, over Client/Api and Tls. The file does
--               not compile, since it names members that no class declares; they are fields of
--               `SslClient`. Nothing of the results below is about it.
--   Examples    examples/raw_async_http_request (Examples/Http) and examples/raw_async_https_request
--               (Examples/Https): their requests and callbacks, and loop() (Examples/Loop).
--   Samples     a concrete network on which the theorems are applied.
--
-- State: an operation of a client takes and gives back a `Sys`, which is the client, the world, and
-- a log of the callbacks that are invoked, the descriptors that are closed, and the names that lwIP
-- is asked for. A callback fires when the code calls `invoke` for it: its handler runs then, if there
-- is one, and else `invoke` returns at once. No operation reads the log. A handler is a `Program`, a tree of calls of public functions whose choices depend on their
-- results and on data of its own; it sees its event as an argument.
--
-- Numbers: descriptors, error codes and results are ℤ, sizes and times ℕ. Times are nanoseconds of
-- a clock that does not run backwards, so differences of times are exact. Milliseconds are cut to 32
-- bits as in the code. The free space is a size_t: its subtraction in `add` stops at 0, and
-- Client/Race has it with its wrap-around.
--
-- Fuel: the write loop has one round more than the buffer has bytes. A round that goes on has
-- written at least a byte and left at least one, so the loop ends before that. The loop of the TLS
-- handshake has one round: every round ends it.
--
-- Tasks: the write mutex is followed as its holder sees it, so that locking twice is visible;
-- `try_lock` may fail as if another task held it. In a round, other tasks run between the calls on
-- clients as an arbitrary function `between`. Two tasks at once inside functions of one client are
-- modelled where their order matters: in `add`, before and after it locks, and in
-- `_sockIsWriteable` around `getsockopt` (Client/Race).
--
-- Objects: a client or a server is known to the manager by a number, its address. Constructors and
-- destructors register and unregister, so the model takes an object as gone when it is not
-- registered; it does not follow memory by itself.
--
-- Not modelled: logging, failing allocations, a caller that changes data it has lent, handlers that
-- delete their client, but for ERROR, SslClient::_processWriteQueue, and what the examples print and
-- do to join the WiFi. What the examples call and no client has (state(), connect() with three
-- arguments) is a parameter. Manager/System deletes clients and servers between rounds only; what a
-- deletion within a round does is in Manager/Alive and Manager/Deleting.
pub mod Base
pub mod Os
pub mod Buffer
pub mod Flags
pub mod Connection
pub mod Client
pub mod Server
pub mod Configuration
pub mod Manager
pub mod Tls
pub mod Ssl
pub mod Examples
mod Samples
