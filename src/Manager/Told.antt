-- ===== src/Manager/Told.antt =====
-- The last phase of a round (src/SocketConnection.tpp) reaches every client that is disconnecting.
pub mod Misses
pub mod Rounds
use async_tcpsock.Base.{
  ◌≡◌, refl, ap, sym, subst, ◌⊎◌, inl, inr, ◌∙◌, ℕ, Option, none, some, List, [], ◌∷◌, ◌++◌,
  append_assoc, arith, true, false, Bool-cases, ◌==◌, is_some,
}
use async_tcpsock.Os.{Os}
use async_tcpsock.Client.State.{Sys, disconnecting}
use async_tcpsock.Client.Callbacks.{Callback}
use async_tcpsock.Client.Events.{is_disconnecting}
use async_tcpsock.Client.Fires.{invoked_of}
use async_tcpsock.Client.Fires.Events.{processing_done_fires}
use async_tcpsock.Manager.Registry.{Entry, Manager, find, put, visit, call_on, ids}
use async_tcpsock.Manager.Pass.{on_done, visit_all, done_phase}

abbrev In : ℕ → List ℕ → Type 0
In id [] = ⊥
In id (x ∷ xs) = ((x == id) ≡ true) ⊎ In id xs

ids-In : (id : ℕ) (es : List Entry) (e : Entry) → find id es ≡ some e → In id (ids es)
unfolding find
ids-In id [] e h = cc
ids-In id (x ∷ es) e h = elim (Bool-cases (x.id == id)) [
  | inl hit ↦ inl hit
  | inr miss ↦ inr (ids-In id es e (ground arith))
]

find-put_self :
    (id : ℕ) (x : Entry) (es : List Entry)
    → x.id ≡ id
    → is_some (find id es) ≡ true
    → find id (put x es) ≡ some x
unfolding find put
find-put_self id x [] e h = cc
find-put_self id x (y ∷ es) e h = ground (arith, find-put_self id x es e)

find-put_other :
    (id : ℕ) (x : Entry) (es : List Entry) → (x.id == id) ≡ false → find id (put x es) ≡ find id es
unfolding find put
find-put_other id x [] n = refl
find-put_other id x (y ∷ es) n = ground (arith, find-put_other id x es n)

module _ (os : Os) where
  -- A client after a function has been called on it.
  abbrev pub called : (Sys os → Sys os) → ℕ → Entry → os.World → Entry
  called op id e w =
      let s = op (record { client = e.client; world = w; log = e.log }) in
      record { id = id; client = s.client; log = s.log }

  pub visit_self :
      (op : Sys os → Sys os) (id : ℕ) (m : Manager os) (e : Entry)
      → find id m.clients ≡ some e
      → find id (visit os op id m).clients ≡ some (called op id e m.world)
  unfolding visit call_on
  visit_self op id m e h =
      rw h (find-put_self id (called op id e m.world) m.clients refl (ap is_some h))

  pub call_other :
      (op : Sys os → Sys os) (j id : ℕ) (o : Option Entry) (m : Manager os)
      → (j == id) ≡ false
      → find id (call_on os op j o m).clients ≡ find id m.clients
  unfolding call_on
  call_other op j id none m n = refl
  call_other op j id (some e) m n = find-put_other id (called op j e m.world) m.clients n

  -- The client with this id has fired at least these callbacks, the latest in front.
  abbrev pub Fired : ℕ → List Callback → Manager os → Type 0
  Fired id callbacks m =
      (e : Entry) × (later : List Callback) × (find id m.clients ≡ some e)
      × (invoked_of e.log ≡ later ++ callbacks)

  done_grows :
      (s : Sys os)
      → (new : List Callback) × (invoked_of (on_done os s).log ≡ new ++ invoked_of s.log)
        × (s.client.state ≡ disconnecting → new ≡ Callback.disconnect ∷ [])
  unfolding on_done
  done_grows s = elim (Bool-cases (is_disconnecting s.client.state)) [
    | inl e ↦ (Callback.disconnect ∷ [], ground (arith, processing_done_fires os s), λ d. refl)
    | inr e ↦ ([], ground (arith, processing_done_fires os s), λ d. ground arith)
  ]

  visit_done-Fired :
      (j id : ℕ) (callbacks : List Callback) (m : Manager os)
      → Fired id callbacks m
      → Fired id callbacks (visit os (on_done os) j m)
  unfolding visit
  visit_done-Fired j id callbacks m (e, later, found, log) = elim (Bool-cases (j == id)) [
    | inl hit ↦
        (let same : j ≡ id = ground arith in
          let s : Sys os = record { client = e.client; world = m.world; log = e.log } in
          let (new, grown, told) = done_grows s in
          let self : Fired id callbacks (visit os (on_done os) id m) = (
            called (on_done os) id e m.world,
            new ++ later,
            visit_self (on_done os) id m e found,
            grown
                ∙ ap (λ (l : List Callback). new ++ l) log
                ∙ sym (append_assoc new later callbacks),
          ) in
          subst (λ (k : ℕ). Fired id callbacks (visit os (on_done os) k m)) (sym same) self)
    | inr miss ↦ (e, later, call_other (on_done os) j id (find j m.clients) m miss ∙ found, log)
  ]

module _ (os : Os) (between : Manager os → Manager os) (id : ℕ)
    (untouched : (m : Manager os) → find id (between m).clients ≡ find id m.clients) where
  all-Fired :
      (todo : List ℕ) (callbacks : List Callback) (m : Manager os)
      → Fired os id callbacks m
      → Fired os id callbacks (visit_all os between (on_done os) todo m)
  unfolding visit_all
  all-Fired [] callbacks m h = h
  all-Fired (j ∷ rest) callbacks m (e, later, found, log) =
      all-Fired rest callbacks (visit os (on_done os) j (between m))
        (visit_done-Fired os j id callbacks (between m) (e, later, untouched m ∙ found, log))

  reached :
      (todo : List ℕ) (m : Manager os) (e : Entry)
      → In id todo
      → find id m.clients ≡ some e
      → e.client.state ≡ disconnecting
      → Fired os id
          (Callback.disconnect ∷ invoked_of e.log)
          (visit_all os between (on_done os) todo m)
  unfolding visit_all visit
  reached [] m e i found d = absurd i
  reached (j ∷ rest) m e i found d =
      let b = between m in
      let here = untouched m ∙ found in
      elim (Bool-cases (j == id)) [
        | inl hit ↦
            (let same : j ≡ id = ground arith in
              let s : Sys os = record { client = e.client; world = b.world; log = e.log } in
              let (new, grown, told) = done_grows os s in
              let callbacks = Callback.disconnect ∷ invoked_of e.log in
              let self : Fired os id callbacks (visit os (on_done os) id b) = (
                called os (on_done os) id e b.world,
                [],
                visit_self os (on_done os) id b e here,
                grown ∙ ap (λ (l : List Callback). l ++ invoked_of e.log) (told d),
              ) in
              all-Fired rest callbacks (visit os (on_done os) j b) (
                subst (λ (k : ℕ). Fired os id callbacks (visit os (on_done os) k b)) (sym same)
                  self))
        | inr miss ↦
            (let later : In id rest = ground arith in
              reached rest (visit os (on_done os) j b) e later
                (call_other os (on_done os) j id (find j b.clients) b miss ∙ here) d)
      ]

  -- If a registered client is disconnecting when the last phase of a round begins, and other tasks
  -- leave its entry alone, then DISCONNECT fires for it in that phase, next after what had fired.
  pub done_phase_tells :
      (m : Manager os) (e : Entry)
      → find id m.clients ≡ some e
      → e.client.state ≡ disconnecting
      → Fired os id (Callback.disconnect ∷ invoked_of e.log) (done_phase os between m)
  unfolding done_phase
  done_phase_tells m e found d = reached (ids m.clients) m e (ids-In id m.clients e found) found d
