-- ===== src/Samples/Rounds.antt =====
-- Whole histories, rounds and passes on the sample network.
use async_tcpsock.Base.{
  List, minus_one, false, ◌+◌, length, negsuc, none, ◌≡◌, refl, [], ◌∷◌, pos, arith,
}
use async_tcpsock.Os.Laws.{Serves}
use async_tcpsock.Samples.{Net, quiet_os, net}
use async_tcpsock.Samples.Clients.{client, online, a_history}
use async_tcpsock.Samples.Tasks.{manager, one, nothing}
use async_tcpsock.Client.State.{connecting, disconnecting}
use async_tcpsock.Client.Callbacks.{Callback}
use async_tcpsock.Client.Api
use async_tcpsock.Client.Events.{processing_done}
use async_tcpsock.Client.Fires.{invoked_of}
use async_tcpsock.Client.History.{history}
use async_tcpsock.Client.Machine.{Walks, events_of}
use async_tcpsock.Client.Machine.Tasks.{history-Walks}
use async_tcpsock.Client.Machine.Told.{first_of, Agrees, new-Agrees, reconnect_silent}
use async_tcpsock.Manager.Registry.{find, Entry}
use async_tcpsock.Manager.Pass.{update}
use async_tcpsock.Os.Laws.{Errnos}
use async_tcpsock.Os.{Os, failed, ReadRet}
use async_tcpsock.Connection.{is_open}
use async_tcpsock.Client.State.{closed}
use async_tcpsock.Client.ErrorText.{LwipErrors, lwip_cases, AllErr, AllTexts, reported_texts}
use async_tcpsock.Manager.Lifecycle.{destroy_client}
use async_tcpsock.Manager.Lifecycle.Deleting.{destroy_client_lem}
use async_tcpsock.Base.{List}
use async_tcpsock.Samples.{quiet-Lawful}
use async_tcpsock.Client.Callbacks.{ApiCall, call, done}
use async_tcpsock.Manager.System.{
  SystemStep, ServerCall, system, system_step, call_client, on_found, use_found_server,
}
use async_tcpsock.Manager.System.Safe.{Sound}
use async_tcpsock.Manager.System.Deleted.{deleted_stays_gone}
use async_tcpsock.Manager.Lifecycle.{
  new_manager, new_client, new_server, manage_client, manage_server,
}
use async_tcpsock.Manager.Registry.{find_server, call_on, put, add_connection, add_server}
use async_tcpsock.Examples.Http.{setup}
use async_tcpsock.Os.Tapped.{tapped}
use async_tcpsock.Client.Delivery.{received_of}
use async_tcpsock.Client.Delivery.Reading.{new-Delivered}
use async_tcpsock.Manager.Told.Rounds.{Selects, update_tells}
use async_tcpsock.Manager.Told.{Fired}

history-Walks_example : Walks quiet_os online (history quiet_os a_history online)
history-Walks_example = history-Walks quiet_os a_history online

new-Agrees_example :
    let r = history quiet_os a_history (Api.new quiet_os (net 9)) in
    Agrees r.client.state (first_of (events_of r.log))
new-Agrees_example = new-Agrees quiet_os (net 9) a_history

reconnect_silent_example :
    let r = Api.connect quiet_os 3 80 (Api.close quiet_os online).1 in
    (invoked_of (processing_done quiet_os r.1).1.log ≡ [])
    × ((processing_done quiet_os r.1).1.client.state ≡ connecting)
unfolding Api.connect Api.close
reconnect_silent_example = reconnect_silent quiet_os 3 80 online refl

-- The peer takes a byte now and then.
abbrev pub one_more : Net → Net
one_more w = record w { room = 1 }

pub quiet-Serves : Serves quiet_os (pos 54) one_more
quiet-Serves = record { room = λ d w h. (1, ground arith); soft = λ d w e h. ground arith }

abbrev leaving : Entry
leaving = record one { client = client disconnecting minus_one [] }

destroy_client_lem_example :
    let (s, m') = destroy_client quiet_os one manager in
    (find 1 m'.clients ≡ none)
    × (length m'.clients + 1 ≡ 1)
    × (is_open s.client.connection ≡ false)
    × (s.log ≡ closed (pos 54) ∷ [])
    × (invoked_of s.log ≡ [])
unfolding find is_open
destroy_client_lem_example =
    destroy_client_lem quiet_os manager one 1 ((omega arith, tt), (refl, tt)) refl

-- The values of lwIP.
abbrev lwip_errors : LwipErrors
lwip_errors = record {
  err_ok = pos 0;
  err_mem = negsuc 0;
  err_buf = negsuc 1;
  err_timeout = negsuc 2;
  err_rte = negsuc 3;
  err_inprogress = negsuc 4;
  err_val = negsuc 5;
  err_wouldblock = negsuc 6;
  err_use = negsuc 7;
  err_already = negsuc 8;
  err_conn = negsuc 10;
  err_if = negsuc 11;
  err_abrt = negsuc 12;
  err_rst = negsuc 13;
  err_clsd = negsuc 14;
  err_arg = negsuc 15;
}

lwip-AllErr : AllErr (lwip_cases lwip_errors)
unfolding lwip_cases
lwip-AllErr = ground arith

-- Every socket refuses and fails.
abbrev broken_os : Os
broken_os = record quiet_os {
  so_error = λ s w. (failed (pos 104), w);
  read = λ s n w. (ReadRet.failed (pos 104), w);
}

broken-Errnos : Errnos broken_os
broken-Errnos = record {
  writing = λ s d w e h. ground (arith, h);
  reading = λ s n w e h. ground (arith, h);
  asking = λ s w e h. ground (arith, h);
}

reported_texts_example :
    AllTexts lwip_errors (invoked_of (history broken_os a_history (Api.new broken_os (net 9))).log)
reported_texts_example =
    reported_texts lwip_errors lwip-AllErr broken_os broken-Errnos (net 9) a_history

quiet-Selects : Selects quiet_os
quiet-Selects n reads writes timeout w fd = (λ h. h, λ h. h)

update_tells_example :
    Fired quiet_os 1
      (Callback.disconnect ∷ [])
      (update quiet_os nothing (record manager { clients = leaving ∷ [] }))
unfolding find
update_tells_example =
    update_tells quiet_os nothing 1 (λ m. refl) (λ m h. h) quiet-Selects
      (record manager { clients = leaving ∷ [] }) leaving ((omega arith, tt), (refl, tt)) refl refl
      refl refl

new-Delivered_example :
    let r = history (tapped quiet_os) a_history (Api.new (tapped quiet_os) (net 9, [])) in
    received_of r.log ≡ r.world.1
new-Delivered_example = new-Delivered quiet_os (net 9) a_history

-- A program makes a server and a client and uses them, deletes the client, and goes on.
abbrev before : List SystemStep
before =
    SystemStep.make_server 0 80
    ∷ SystemStep.use_server 0 ServerCall.begin
    ∷ SystemStep.make_client
    ∷ SystemStep.use_client 1 setup
    ∷ SystemStep.use_client 1 (call (ApiCall.connect_ip 3 80) (λ r. done))
    ∷ []

abbrev after : List SystemStep
after = SystemStep.round ((1, call ApiCall.send (λ r. done)) ∷ []) ∷ SystemStep.make_client ∷ []

deleted_stays_gone_example :
    let m = system quiet_os before (new_manager quiet_os (net 200)) in
    let r = system quiet_os after (system_step quiet_os (SystemStep.drop_client 1) m) in
    (find 1 r.clients ≡ none) × Sound quiet_os r
unfolding system system_step new_manager new_server new_client call_client on_found use_found_server
    manage_client manage_server add_connection add_server find find_server call_on put
deleted_stays_gone_example =
    deleted_stays_gone quiet_os quiet-Lawful (net 200) before after 1 (omega arith)
