-- ===== src/Client/Api/Transfers.antt =====
-- Bytes on their way from add(), send() and write() of src/ClientBase.tpp to the peer.
use async_tcpsock.Base.{
  ℕ, ◌≡◌, sym, ap, subst, ◌∙◌, ◌⊎◌, inl, inr, Bool-cases, some, List, [], ◌∷◌, ◌++◌, append_assoc,
  append-nil, ℤ, take, arith, ◌==◌,
}
use async_tcpsock.Os.{Os}
use async_tcpsock.Os.Laws.{WritesAtMost, Stream, Saturates}
use async_tcpsock.Flags.{ClientApiFlags, test, immediate}
use async_tcpsock.Client.State.{Sys}
use async_tcpsock.Client.Queue.Order.{pending_all}
use async_tcpsock.Client.Queue.{process_write_queue}
use async_tcpsock.Client.Api
use async_tcpsock.Client.Api.Sending.{acceptable, add_lem, send_stream}

pub data Transfer : Type 0 where
  adding writing : List ℕ → ClientApiFlags → Transfer
  sending : Transfer

-- The bytes that a call accepts.
abbrev pub taken : {os : Os} → Transfer → Sys os → List ℕ
taken (adding bytes flags) s = take (acceptable s.client bytes) bytes
taken (writing bytes flags) s = take (acceptable s.client bytes) bytes
taken sending s = []

module _ (os : Os) where
  unfoldable pub transfer : Transfer → Sys os → Sys os
  transfer (adding bytes flags) s = (Api.add os (some bytes) flags s).1
  transfer (writing bytes flags) s = (Api.write os (some bytes) flags s).1
  transfer sending s = (Api.send os s).1

  unfoldable pub transfers : List Transfer → Sys os → Sys os
  transfers [] s = s
  transfers (t ∷ ts) s = transfers ts (transfer t s)

  -- All bytes that a list of calls accepts, in order.
  unfoldable pub taken_all : List Transfer → Sys os → List ℕ
  taken_all [] s = []
  taken_all (t ∷ ts) s = taken t s ++ taken_all ts (transfer t s)

  write_cases :
      (bytes : List ℕ) (flags : ClientApiFlags) (s : Sys os)
      → let added = (Api.add os (some bytes) flags s).1 in
        ((Api.write os (some bytes) flags s).1 ≡ added)
        ⊎ ((Api.write os (some bytes) flags s).1 ≡ (Api.send os added).1)
  unfolding Api.write
  write_cases bytes flags s = elim (Bool-cases ((Api.add os (some bytes) flags s).0 == 0)) [
    | inl z ↦ inl (ground arith)
    | inr n ↦ (elim (Bool-cases (test flags immediate)) [
      | inl i ↦ inr (ground arith)
      | inr d ↦ inl (ground arith)
    ])
  ]

  send_socket : (s : Sys os) → (Api.send os s).1.client.connection ≡ s.client.connection
  unfolding Api.send process_write_queue
  send_socket s = ground arith

module _ (os : Os) (law : WritesAtMost os) (socket : ℤ) (stream : Stream os socket)
    (sat : Saturates os socket) where
  open stream use {received}

  -- What the peer was sent and what it is still owed.
  abbrev sent_or_owed : Sys os → List ℕ
  sent_or_owed s = received s.world ++ pending_all s.client.write_queue

  -- A call adds to that exactly what it takes, and keeps the socket.
  Carries : Sys os → List ℕ → Sys os → Type 0
  Carries s bytes r = (r.client.socket ≡ socket) × (sent_or_owed r ≡ sent_or_owed s ++ bytes)

  send-Carries : (s : Sys os) → s.client.socket ≡ socket → Carries s [] (Api.send os s).1
  unfolding Carries
  send-Carries s e = (
    ap (λ c. c.socket) (send_socket os s) ∙ e,
    subst
          (λ (k : ℤ).
            (st : Stream os k)
            → Saturates os k
            → st.received (Api.send os s).1.world
                ++ pending_all (Api.send os s).1.client.write_queue
              ≡ st.received s.world ++ pending_all s.client.write_queue)
          e (send_stream os law s) stream sat
        ∙ sym (append-nil (sent_or_owed s)),
  )

  add-received :
      (bytes : List ℕ) (flags : ClientApiFlags) (s : Sys os)
      → received (Api.add os (some bytes) flags s).1.world ≡ received s.world
  unfolding Api.add
  add-received bytes flags s = ground (arith, stream.received-now s.world)

  add-Carries :
      (bytes : List ℕ) (flags : ClientApiFlags) (s : Sys os)
      → s.client.socket ≡ socket
      → Carries s (take (acceptable s.client bytes) bytes) (Api.add os (some bytes) flags s).1
  unfolding Carries
  add-Carries bytes flags s e =
      let r = (Api.add os (some bytes) flags s).1 in
      let (n, space, owes, state, conn) = add_lem os bytes flags s in
      let new : List ℕ = take (acceptable s.client bytes) bytes in
      (
        ap (λ c. c.socket) conn ∙ e,
        ap (λ (x : List ℕ). x ++ pending_all r.client.write_queue) (add-received bytes flags s)
            ∙ ap (λ (x : List ℕ). received s.world ++ x) owes
            ∙ sym (append_assoc (received s.world) (pending_all s.client.write_queue) new),
      )

  carried_socket : (s r : Sys os) (bytes : List ℕ) → Carries s bytes r → r.client.socket ≡ socket
  unfolding Carries
  carried_socket s r bytes h = h.0

  Carries-trans :
      (s r q : Sys os) (xs ys : List ℕ) → Carries s xs r → Carries r ys q → Carries s (xs ++ ys) q
  unfolding Carries
  Carries-trans s r q xs ys h k =
      (k.0, k.1 ∙ ap (λ (l : List ℕ). l ++ ys) h.1 ∙ append_assoc (sent_or_owed s) xs ys)

  transfer-Carries :
      (t : Transfer) (s : Sys os)
      → s.client.socket ≡ socket
      → Carries s (taken t s) (transfer os t s)
  unfolding transfer
  transfer-Carries (adding bytes flags) s e = add-Carries bytes flags s e
  transfer-Carries sending s e = send-Carries s e
  transfer-Carries (writing bytes flags) s e =
      let added = (Api.add os (some bytes) flags s).1 in
      let new : List ℕ = take (acceptable s.client bytes) bytes in
      let h = add-Carries bytes flags s e in
      let k =
        Carries-trans s added (Api.send os added).1 new [] h
          (send-Carries added (carried_socket s added new h)) in
      elim (write_cases os bytes flags s) [
        | inl a ↦ rw a h
        | inr b ↦
            rw b (subst (λ (l : List ℕ). Carries s l (Api.send os added).1) (append-nil new) k)
      ]

  -- If writes keep to their buffers, the peer is sent what they accept, and a socket that refuses
  -- bytes refuses them for the rest of a pass, then over any sequence of `add`, `write` and `send`
  -- on a client with that socket, what the peer was sent and what the queue owes grow by exactly
  -- the bytes that the calls accept, in order; and the client keeps the socket.
  pub transfers_stream :
      (ts : List Transfer) (s : Sys os)
      → s.client.socket ≡ socket
      → let r = transfers os ts s in
        (r.client.socket ≡ socket)
        × (received r.world ++ pending_all r.client.write_queue
            ≡ (received s.world ++ pending_all s.client.write_queue) ++ taken_all os ts s)
  unfolding transfers taken_all Carries
  transfers_stream [] s e = (e, sym (append-nil (sent_or_owed s)))
  transfers_stream (t ∷ ts) s e =
      let h = transfer-Carries t s e in
      Carries-trans s (transfer os t s) (transfers os ts (transfer os t s)) (taken t s)
        (taken_all os ts (transfer os t s)) h (transfers_stream ts (transfer os t s) h.0)
