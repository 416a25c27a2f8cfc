-- ===== src/Samples/Races.antt =====
-- Threads that meet inside a client, on the sample network.
use async_tcpsock.Client.Program.{run}
use async_tcpsock.Base.{◌≡◌, ◌⊎◌, refl, some, false, List, [], ◌∷◌, minus_one, arith, pos}
use async_tcpsock.Os.{ok}
use async_tcpsock.Samples.{quiet-WritesAtMost, quiet_os, quiet-Lawful, net}
use async_tcpsock.Samples.Clients.{client, in_state, online}
use async_tcpsock.Samples.Rounds.{one_more, quiet-Serves}
use async_tcpsock.Flags.{copy, of_flag}
use async_tcpsock.Buffer.{has_error}
use async_tcpsock.Connection.{is_open}
use async_tcpsock.Client.State.{Sys, connected, connecting}
use async_tcpsock.Client.Callbacks.{
  set_handler, ClientCallbackType, on, Callback, done, call, ApiCall,
}
use async_tcpsock.Client.Api
use async_tcpsock.Client.Events.{after_so_error, processing_done, cleanup_write_queue}
use async_tcpsock.Client.Fires.{invoked_of}
use async_tcpsock.Client.Fires.Events.{push_all, of_stats}
use async_tcpsock.Client.Fires.Drained.{sizes, lengths, drained_tells}
use async_tcpsock.Client.History.{Step, history}
use async_tcpsock.Client.Queue.{WriteStats}
use async_tcpsock.Client.Queue.Accounting.{owed}
use async_tcpsock.Client.Queue.Drain.{passes}
use async_tcpsock.Client.Queue.Order.{pending_all}
use async_tcpsock.Client.Race.{add_begin, add_commit}
use async_tcpsock.Client.Race.Single.{Queued, add_alone_safe}
use async_tcpsock.Client.Race.Closing.{close_while_connecting, add_survives_close}

abbrev entering : Sys quiet_os
entering =
    (run quiet_os (on ClientCallbackType.connect (λ event. done) done)
      (in_state quiet_os (net 9) (client connecting (pos 54) []))).1

close_while_connecting_example :
    let closed = (Api.close quiet_os entering).1 in
    let r = (after_so_error quiet_os (ok 0) closed).1 in
    (r.client.state ≡ connected)
    × (r.client.socket ≡ minus_one)
    × (invoked_of (processing_done quiet_os r).1.log ≡ Callback.connect ∷ [])
unfolding is_open run set_handler
close_while_connecting_example = close_while_connecting quiet_os entering refl refl

add_survives_close_example :
    let (a, s1) = add_begin quiet_os (some (7 ∷ 8 ∷ [])) (of_flag copy) online in
    let s2 = (Api.close quiet_os s1).1 in
    let (n, s3) = add_commit quiet_os a s2 in
    let (success, s4) = Api.connect quiet_os 3 80 s3 in
    (n ≡ 2)
    × (pending_all s4.client.write_queue ≡ 7 ∷ 8 ∷ [])
    × ((success ≡ false) ⊎ (s4.client.state ≡ connecting))
unfolding is_open add_begin add_commit
add_survives_close_example =
    add_survives_close quiet_os (7 ∷ 8 ∷ []) (of_flag copy) 3 80 online refl refl (omega arith)
      (omega arith)

-- While one thread adds, the task polls and sends, and another thread closes and connects.
abbrev busy : List Step
busy =
    Step.poll
    ∷ Step.writeable
    ∷ Step.user (call ApiCall.close (λ r. call (ApiCall.connect_ip 3 80) (λ r'. done)))
    ∷ []

add_alone_safe_example :
    let (a, s1) = add_begin quiet_os (some (7 ∷ 8 ∷ [])) (of_flag copy) online in
    let s2 = history quiet_os busy s1 in
    Queued quiet_os (7 ∷ 8 ∷ []) online s2 (add_commit quiet_os a s2)
add_alone_safe_example =
    add_alone_safe quiet_os quiet-Lawful (7 ∷ 8 ∷ []) (of_flag copy) busy online (omega arith)
      (ground arith) (ground arith) (ground arith)

drained_tells_example :
    let drained = passes quiet_os one_more 3 online in
    (told : List WriteStats) × (invoked_of (cleanup_write_queue quiet_os drained).1.log
      ≡ push_all (of_stats told) [])
    × (lengths told ≡ sizes online.client.write_queue)
    × (owed drained.client.write_queue ≡ 0)
unfolding has_error
drained_tells_example =
    drained_tells quiet_os one_more quiet-WritesAtMost 3 online quiet-Serves (refl, tt)
      (omega arith)
