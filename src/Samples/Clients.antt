-- ===== src/Samples/Clients.antt =====
-- Clients at work on the sample network.
use async_tcpsock.Client.Api
use async_tcpsock.Base.{
  ◌^◌, arith, ◌+◌, some, List, [], ◌∷◌, ◌++◌, ◌≡◌, false, refl, ℤ, pos, minus_one,
}
use async_tcpsock.Os.{Os}
use async_tcpsock.Samples.{
  quiet_os, net, quiet-Lawful, quiet-WritesAtMost, quiet_stream, quiet-Saturates,
}
use async_tcpsock.Buffer.{WriteQueueBuffer, owned}
use async_tcpsock.Flags.{copy, immediate, of_flag}
use async_tcpsock.Client.State.{ConnectionState, ClientBase, Sys, free, disconnected, connected}
use async_tcpsock.Client.Callbacks.{
  no_callbacks, Program, on, call, done, ClientCallbackType, ApiCall,
}
use async_tcpsock.Client.Queue.Order.{pending_all}
use async_tcpsock.Client.Race.{add_both, add_both_wraps}
use async_tcpsock.Client.Invariant.{Inv}
use async_tcpsock.Client.History.{Step, history, history-new}
use async_tcpsock.Client.Api.Transfers.{
  Transfer, adding, writing, sending, transfers, taken_all, transfers_stream,
}

abbrev pub client : ConnectionState → ℤ → List WriteQueueBuffer → ClientBase
client state fd queue = record {
  connection = record { socket = fd; dns_finished = false; last_active = 700 };
  state = state;
  write_mutex = free;
  write_space_remaining = 5742;
  write_queue = queue;
  ip = 3;
  port = 80;
  ack_timeout = some 10;
  rx_timeout = some 20;
  rx_last_packet = 400;
  ack_timeout_signaled = false;
  callbacks = no_callbacks;
}

abbrev pub in_state : (os : Os) → os.World → ClientBase → Sys os
in_state os w c = record { client = c; world = w; log = [] }

-- Two bytes wait, of four; the socket takes one more.
abbrev pub half : WriteQueueBuffer
half = record {
  alternative = owned;
  common = record { amount_written = 2; queued_at = 500; written_at = 0; error_code = pos 0 };
  bytes = 1 ∷ 2 ∷ 3 ∷ 4 ∷ [];
}

abbrev pub online : Sys quiet_os
online = in_state quiet_os (net 1) (client connected (pos 54) (half ∷ []))

abbrev pub offline : Sys quiet_os
offline = in_state quiet_os (net 1) (client disconnected minus_one [])

-- A handler that answers what it has received, and a program that sets it and connects.
abbrev answering : Program
answering =
    on ClientCallbackType.recv
      (λ event. call (ApiCall.write (some (65 ∷ 66 ∷ [])) (of_flag immediate)) (λ r. done))
      (call (ApiCall.connect_ip 3 80) (λ r. done))

abbrev pub a_history : List Step
a_history =
    Step.user answering
    ∷ Step.writeable
    ∷ Step.readable
    ∷ Step.writeable
    ∷ Step.poll
    ∷ Step.processing_done
    ∷ []

history-new_example : Inv quiet_os (history quiet_os a_history (Api.new quiet_os (net 9))).client
history-new_example = history-new quiet_os quiet-Lawful (net 9) a_history

abbrev calls : List Transfer
calls = adding (5 ∷ 6 ∷ []) (of_flag copy) ∷ writing (9 ∷ []) (of_flag immediate) ∷ sending ∷ []

transfers_stream_example :
    let r = transfers quiet_os calls online in
    (r.client.socket ≡ pos 54)
    × (r.world.peer ++ pending_all r.client.write_queue
        ≡ ([] ++ pending_all online.client.write_queue) ++ taken_all quiet_os calls online)
transfers_stream_example =
    transfers_stream quiet_os quiet-WritesAtMost (pos 54) (quiet_stream (pos 54))
      (quiet-Saturates (pos 54)) calls online refl

-- A client with room for three bytes.
abbrev nearly_full : Sys quiet_os
nearly_full = record online { client = record online.client { write_space_remaining = 3 } }

add_both_wraps_example :
    let r = add_both quiet_os (5 ∷ 6 ∷ []) (7 ∷ 8 ∷ []) (of_flag copy) nearly_full in
    (r.first ≡ 2)
    × (r.second ≡ 2)
    × (pending_all r.after.client.write_queue ≡ 3 ∷ 4 ∷ 5 ∷ 6 ∷ 7 ∷ 8 ∷ [])
    × (r.after.client.write_space_remaining + 4 ≡ 3 + 2 ^ 32)
add_both_wraps_example =
    add_both_wraps quiet_os (5 ∷ 6 ∷ []) (7 ∷ 8 ∷ []) (of_flag copy) nearly_full refl (omega arith)
      (omega arith) (omega arith) (omega arith)

-- A buffer that has been written out stands before one that waits.
abbrev written : WriteQueueBuffer
written = record half {
  common = record { amount_written = 4; queued_at = 500; written_at = 900; error_code = pos 0 };
}

abbrev cleaned : Sys quiet_os
cleaned = in_state quiet_os (net 1) (client connected (pos 54) (written ∷ half ∷ []))
