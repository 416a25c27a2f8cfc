-- ===== src/Client/Race/Single.antt =====
-- add() of src/ClientBase.tpp while the manager's task and other threads use the client: what it
-- reads before it locks the mutex still serves afterwards, if nobody else adds.
use async_tcpsock.Base.{
  refl, sym, subst, ◌∙◌, inr, inl, ◌≡◌, ◌⊎◌, ◌<◌, ◌≤◌, ◌^◌, ◌+◌, ◌++◌, ℕ, List, [], ◌∷◌, some,
  length, min, take, arith, length-take, append-nil,
}
use async_tcpsock.Os.{Os}
use async_tcpsock.Os.Laws.{Lawful}
use async_tcpsock.Flags.{ClientApiFlags}
use async_tcpsock.Client.State.{Sys}
use async_tcpsock.Client.Api
use async_tcpsock.Client.Invariant.{Inv}
use async_tcpsock.Client.History.{Step, history, history-Inv}
use async_tcpsock.Client.Race.Calls.{HandlersNeverAdd, Spared}
use async_tcpsock.Client.Race.Tasks.{AllNeverAdd, history-Spared}
use async_tcpsock.Client.Queue.Accounting.{owed-append}
use async_tcpsock.Client.Queue.Order.{pending_all, pending_all-append}
use async_tcpsock.Client.Race.{Adding, returned, ready, add_begin, add_commit}

module _ (os : Os) where
  abbrev IsReady : List ℕ → ClientApiFlags → Sys os → Adding → Type 0
  IsReady d flags s a =
      (n now : ℕ) × (a ≡ ready (Api.new_buffer os d n flags now) n)
      × (n ≡ min s.client.write_space_remaining (length d))

  -- Before it locks, `add` changes nothing of the client.
  begun :
      (d : List ℕ) (flags : ClientApiFlags) (s : Sys os)
      → let (a, s1) = add_begin os (some d) flags s in
        (s1.client ≡ s.client) × ((a ≡ returned 0) ⊎ IsReady d flags s a)
  unfolding add_begin
  begun d flags s = ground arith

  committed :
      (d : List ℕ) (n now : ℕ) (flags : ClientApiFlags) (s : Sys os)
      → Inv os s.client
      → os.tcp_snd_buf < 2 ^ 32
      → n ≤ s.client.write_space_remaining
      → n ≤ length d
      → let (r, s') = add_commit os (ready (Api.new_buffer os d n flags now) n) s in
        Inv os s'.client
        × (r ≡ n)
        × (s'.client.write_space_remaining + n ≡ s.client.write_space_remaining)
        × (pending_all s'.client.write_queue ≡ pending_all s.client.write_queue ++ take n d)
  unfolding add_commit Api.new_buffer
  committed d n now flags s h small room k =
      let buf = Api.new_buffer os d n flags now in
      ground (
        arith,
        length-take n d,
        owed-append s.client.write_queue (buf ∷ []),
        pending_all-append s.client.write_queue (buf ∷ []),
        append-nil (take n d),
      )

  -- What the rest of `add` does after the client has gone on: nothing, or it queues the bytes that
  -- it chose before.
  abbrev pub Queued : List ℕ → Sys os → Sys os → ℕ × Sys os → Type 0
  Queued d s s2 (n, s3) =
      Inv os s3.client
      × (((n ≡ 0) × (s3 ≡ s2))
          ⊎ ((n ≡ min s.client.write_space_remaining (length d))
              × (s3.client.write_space_remaining + n ≡ s2.client.write_space_remaining)
              × (pending_all s3.client.write_queue
                  ≡ pending_all s2.client.write_queue ++ take n d)))

  nothing : (s : Sys os) → add_commit os (returned 0) s ≡ (0, s)
  unfolding add_commit
  nothing s = refl

  queued :
      (d : List ℕ) (flags : ClientApiFlags) (s s2 : Sys os) (a : Adding)
      → Inv os s2.client
      → os.tcp_snd_buf < 2 ^ 32
      → (min s.client.write_space_remaining (length d) ≤ s2.client.write_space_remaining)
      → (a ≡ returned 0) ⊎ IsReady d flags s a
      → Queued d s s2 (add_commit os a s2)
  queued d flags s s2 a h small room (inl e) = rw (e, nothing s2) (h, inl (refl, refl))
  queued d flags s s2 a h small room (inr (n, now, e, m)) =
      let k : n ≤ s2.client.write_space_remaining = omega (arith, m, room) in
      let (inv, r, space, bytes) = committed d n now flags s2 h small k (omega (arith, m)) in
      rw e (inv, inr (r ∙ m, rw r space, rw r bytes))

  -- If writes accept at most what they are given, the descriptor -1 has no status, and TCP_SND_BUF
  -- is below 2^32, then an add() that has read the free space, and locks the mutex only after any
  -- sequence of calls of the manager's task, the DNS thread and other user code that adds nothing,
  -- neither itself nor in handlers, keeps the client's invariant: it adds nothing, or it queues
  -- the bytes that it chose and subtracts their number from the free space without wrapping
  -- around.
  pub add_alone_safe :
      (laws : Lawful os) (d : List ℕ) (flags : ClientApiFlags) (sts : List Step) (s : Sys os)
      → os.tcp_snd_buf < 2 ^ 32
      → Inv os s.client
      → HandlersNeverAdd s.client.callbacks
      → AllNeverAdd sts
      → let (a, s1) = add_begin os (some d) flags s in
        let s2 = history os sts s1 in Queued d s s2 (add_commit os a s2)
  add_alone_safe laws d flags sts s small h quiet never =
      let (a, s1) = add_begin os (some d) flags s in
      let n : ℕ = min s.client.write_space_remaining (length d) in
      let (same, kind) = begun d flags s in
      let h1 : Inv os s1.client = subst (Inv os) (sym same) h in
      let fits : n ≤ os.tcp_snd_buf = ground (arith, h) in
      let spared : Spared n s1.client =
        subst (Spared n) (sym same) (record { room = omega arith; quiet = quiet }) in
      queued d flags s (history os sts s1) a (history-Inv os laws sts s1 h1) small
        (history-Spared os n fits sts s1 never spared).room kind
