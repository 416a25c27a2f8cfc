-- ===== src/Examples/Request.antt =====
-- What the callback for CONNECT of the sketches under examples/ sends.
use async_tcpsock.Base.{
  suc, ◌≡◌, refl, ap, ap₂, ◌∙◌, ℕ, zero, suc, ◌+◌, ◌≤◌, true, some, List, [], ◌∷◌, ◌++◌, ℤ, length,
  take, arith,
}
use async_tcpsock.Os.{Os}
use async_tcpsock.Os.Laws.{WritesAtMost, Stream, Saturates}
use async_tcpsock.Flags.{copy, of_flag}
use async_tcpsock.Client.State.{Sys, invoked, is_connected}
use async_tcpsock.Client.Callbacks.{Program, Callback, set_handler}
use async_tcpsock.Client.Program.{run, perform, invoke, dispatch}
use async_tcpsock.Client.Queue.Order.{pending_all}
use async_tcpsock.Client.Api
use async_tcpsock.Client.Api.Sending.{add_lem, acceptable}
use async_tcpsock.Client.Api.Transfers.{
  Transfer, adding, sending, transfer, transfers, taken_all, transfers_stream,
}
use async_tcpsock.Examples.{add_lines, set_callbacks}

-- The request as one text.
abbrev pub joined : List (List ℕ) → List ℕ
joined [] = []
joined (line ∷ rest) = line ++ joined rest

abbrev pub total : List (List ℕ) → ℕ
total [] = 0
total (line ∷ rest) = length line + total rest

-- The calls of the callback.
abbrev calls_of : List (List ℕ) → List Transfer
calls_of [] = sending ∷ []
calls_of (line ∷ rest) = adding line (of_flag copy) ∷ calls_of rest

take_whole : (n : ℕ) (bytes : List ℕ) → length bytes ≤ n → take n bytes ≡ bytes
take_whole zero [] h = refl
take_whole (suc n) [] h = refl
take_whole zero (b ∷ bs) h = absurd (omega (arith, h))
take_whole (suc n) (b ∷ bs) h = ap (λ (l : List ℕ). b ∷ l) (take_whole n bs (omega (arith, h)))

module _ (os : Os) where
  run-transfers :
      (chunks : List (List ℕ)) (s : Sys os)
      → (run os (add_lines chunks) s).1 ≡ transfers os (calls_of chunks) s
  unfolding run add_lines perform transfers transfer
  run-transfers [] s = refl
  run-transfers (line ∷ rest) s = run-transfers rest (Api.add os (some line) (of_flag copy) s).1

  all_taken :
      (chunks : List (List ℕ)) (s : Sys os)
      → is_connected s.client.state ≡ true
      → total chunks ≤ s.client.write_space_remaining
      → taken_all os (calls_of chunks) s ≡ joined chunks
  unfolding taken_all transfer
  all_taken [] s c room = refl
  all_taken (line ∷ rest) s c room =
      let r = (Api.add os (some line) (of_flag copy) s).1 in
      let (n, space, owes, state, conn) = add_lem os line (of_flag copy) s in
      let whole : take (acceptable s.client line) line ≡ line =
        take_whole (acceptable s.client line) line (ground (arith, c, room)) in
      ap₂ (λ (x y : List ℕ). x ++ y) whole
        (all_taken rest r (ap is_connected state ∙ c) (ground (arith, c, room, space)))

module _ (os : Os) (law : WritesAtMost os) (socket : ℤ) (stream : Stream os socket)
    (sat : Saturates os socket) where
  open stream use {received}

  -- If writes keep to their buffers, the peer is sent what they accept, and a socket that refuses
  -- bytes refuses them for the rest of a pass, then on a connected client with room for some
  -- lines, with the callbacks of the sketches and these lines to add, CONNECT makes what the peer
  -- was sent and what the queue owes grow by exactly the lines, in order.
  request_carried :
      (lines : List (List ℕ)) (s : Sys os)
      → s.client.socket ≡ socket
      → is_connected s.client.state ≡ true
      → total lines ≤ s.client.write_space_remaining
      → let setup : Program = set_callbacks (λ event. add_lines lines) in
        let r = (invoke os Callback.connect (run os setup s).1).1 in
        received r.world ++ pending_all r.client.write_queue
        ≡ (received s.world ++ pending_all s.client.write_queue) ++ joined lines
  unfolding invoke dispatch run set_callbacks set_handler
  request_carried lines s e c room =
      let s1 = (run os (set_callbacks (λ event. add_lines lines)) s).1 in
      let s2 = record s1 { log = invoked Callback.connect ∷ s1.log } in
      rw (run-transfers os lines s2) (
        (transfers_stream os law socket stream sat (calls_of lines) s2 e).1
        ∙ ap (λ (l : List ℕ). (received s.world ++ pending_all s.client.write_queue) ++ l)
            (all_taken os lines s2 c room))
