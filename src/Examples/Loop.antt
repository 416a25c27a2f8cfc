-- ===== src/Examples/Loop.antt =====
-- loop() of the sketches under examples/: the two differ in the client and the host.
use async_tcpsock.Base.{
  Bool-cases, inl, inr, ap, subst, sym, refl, ◌∙◌, ◌<◌, zero, suc, ◌≡◌, ◌⊎◌, arith, ℕ, ◌+◌, ◌-◌,
  ◌%◌, ◌≤◌, Bool, leb, ◌==◌, ◌&&◌, if◌then◌else◌, List, [], ◌∷◌,
}

-- What the board provides to a sketch with a client S: millis(), delay(), and the client's state(),
-- which no client has.
pub record Board (S : Type 0) : Type 0 where
  pub millis : S → ℕ × S
  pub delay : ℕ → S → S
  pub state : S → ℕ

-- The variables of a sketch.
pub record Timers (S : Type 0) : Type 0 where
  pub t_dot : ℕ
  pub t_req : ℕ
  pub client : S

-- A difference of two uint32_t.
abbrev pub since : ℕ → ℕ → ℕ
since t t' = (t + 4294967296 - t') % 4294967296

-- The latest in front, each time is 20 s or more after the one before.
abbrev pub Spaced : List ℕ → Type 0
Spaced [] = Unit
Spaced (t ∷ []) = Unit
Spaced (t ∷ t' ∷ ts) = (20000 ≤ since t t') × Spaced (t' ∷ ts)

-- A client beside a note of what is done with it: what millis() gave last, and what it had given
-- when the client was connected, the latest in front.
pub record Noted (S : Type 0) : Type 0 where
  pub client : S
  pub clock : ℕ
  pub connects : List ℕ

module _ {S : Type 0} (board : Board S) (connect : S → Bool × S) where
  unfoldable pub loop : Timers S → Timers S
  loop s =
      let (t, client) = board.millis s.client in
      let t_dot : ℕ = if leb 200 (since t s.t_dot) then t else s.t_dot in
      if leb 20000 (since t s.t_req) && board.state client == 0
      then record { t_dot = t_dot; t_req = t; client = board.delay 50 (connect client).1 }
      else record { t_dot = t_dot; t_req = s.t_req; client = board.delay 50 client }

  -- A call of loop() does not touch the client; or 20 s have passed since the last attempt, the
  -- client's state is 0, and it is connected.
  loop_lem :
      (s : Timers S)
      → let (t, client) = board.millis s.client in
        let r = loop s in
        ((r.t_req ≡ s.t_req) × (r.client ≡ board.delay 50 client))
        ⊎ ((r.t_req ≡ t)
            × (20000 ≤ since t s.t_req)
            × (board.state client ≡ 0)
            × (r.client ≡ board.delay 50 (connect client).1))
  unfolding loop
  loop_lem s = ground arith

  -- The board and connect() with notes of the readings of the clock, and each call of connect().
  abbrev noting_board : Board (Noted S)
  noting_board = record {
    millis = λ n.
        let (t, client) = board.millis n.client in (t, record n { client = client; clock = t });
    delay = λ ms n. record n { client = board.delay ms n.client };
    state = λ n. board.state n.client;
  }

  abbrev noting_connect : Noted S → Bool × Noted S
  noting_connect n =
      let (b, client) = connect n.client in
      (b, record n { client = client; connects = n.clock ∷ n.connects })

  abbrev pub begin_notes : Timers S → Timers (Noted S)
  begin_notes s = record {
    t_dot = s.t_dot;
    t_req = s.t_req;
    client = record { client = s.client; clock = 0; connects = s.t_req ∷ [] };
  }

  abbrev pub forget : Timers (Noted S) → Timers S
  forget s = record { t_dot = s.t_dot; t_req = s.t_req; client = s.client.client }

abbrev pub calls : {A : Type 0} → (A → A) → ℕ → A → A
calls f zero s = s
calls f (suc n) s = calls f n (f s)

module _ {S : Type 0} (board : Board S) (connect : S → Bool × S) where
  abbrev pub noting_loop : Timers (Noted S) → Timers (Noted S)
  noting_loop = loop (noting_board board connect) (noting_connect board connect)

  -- The note of the connects is true, and begins with the time that the sketch keeps.
  abbrev Honest : Timers (Noted S) → Type 0
  Honest s = (rest : List ℕ) × (s.client.connects ≡ s.t_req ∷ rest) × Spaced (s.t_req ∷ rest)

  noting_loop-Honest : (s : Timers (Noted S)) → Honest s → Honest (noting_loop s)
  noting_loop-Honest s (rest, notes, spaced) =
      let t = (board.millis s.client.client).0 in
      elim (loop_lem (noting_board board connect) (noting_connect board connect) s) [
        | inl (req, client) ↦ (
          rest,
          ap (λ (n : Noted S). n.connects) client ∙ notes ∙ ap (λ (q : ℕ). q ∷ rest) (sym req),
          subst (λ (q : ℕ). Spaced (q ∷ rest)) (sym req) spaced,
        )
        | inr (req, late, idle, client) ↦ (
          s.t_req ∷ rest,
          ap (λ (n : Noted S). n.connects) client
              ∙ ap (λ (l : List ℕ). t ∷ l) notes
              ∙ ap (λ (q : ℕ). q ∷ s.t_req ∷ rest) (sym req),
          subst (λ (q : ℕ). Spaced (q ∷ s.t_req ∷ rest)) (sym req) (late, spaced),
        )
      ]

  forget-noting_loop :
      (s : Timers (Noted S))
      → forget board connect (noting_loop s) ≡ loop board connect (forget board connect s)
  unfolding loop
  forget-noting_loop s =
      let (t, client) = board.millis s.client.client in
      elim (Bool-cases (leb 20000 (since t s.t_req) && board.state client == 0)) [
        | inl due ↦ rw (due, loop) refl
        | inr early ↦ rw (early, loop) refl
      ]

  calls-Honest : (n : ℕ) (s : Timers (Noted S)) → Honest s → Honest (calls noting_loop n s)
  calls-Honest zero s h = h
  calls-Honest (suc n) s h = calls-Honest n (noting_loop s) (noting_loop-Honest s h)

  forget-calls :
      (n : ℕ) (s : Timers (Noted S))
      → forget board connect (calls noting_loop n s)
        ≡ calls (loop board connect) n (forget board connect s)
  forget-calls zero s = refl
  forget-calls (suc n) s =
      forget-calls n (noting_loop s) ∙ ap (calls (loop board connect) n) (forget-noting_loop s)

  -- However often loop() of a sketch is called, its calls of connect() are at least 20 seconds
  -- apart, and the first is at least 20 seconds after the time that the sketch began with, by the
  -- readings of millis() modulo 2^32, as a note of each call beside the client shows, which
  -- changes nothing of what the sketch does; and a call of loop() that comes 20 seconds or more
  -- after the last attempt and finds the client in state 0 connects it and notes the time.
  pub attempts-Spaced :
      (n : ℕ) (s : Timers S)
      → let r = calls noting_loop n (begin_notes board connect s) in
        (forget board connect r ≡ calls (loop board connect) n s)
        × Spaced r.client.connects
        × (let (t, client) = board.millis s.client in
            (since t s.t_req < 20000)
            ⊎ (0 < board.state client)
            ⊎ (((loop board connect s).t_req ≡ t)
                × ((loop board connect s).client ≡ board.delay 50 (connect client).1)))
  unfolding loop
  attempts-Spaced n s =
      let start = begin_notes board connect s in
      let (rest, notes, spaced) = calls-Honest n start ([], refl, tt) in
      (forget-calls n start, subst Spaced (sym notes) spaced, ground arith)
