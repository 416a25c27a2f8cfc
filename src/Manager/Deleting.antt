-- ===== src/Manager/Deleting.antt =====
-- Handlers that delete their own client, with the calls of src/SocketConnection.tpp and
-- src/ClientBase.tpp that fire them.
use async_tcpsock.Base.{
  true, ap, refl, ◌≡◌, ℕ, Bool, false, none, some, List, [], ◌∷◌, ℤ, if◌then◌else◌, arith,
  Option-cases, inl, inr,
}
use async_tcpsock.Os.{Os}
use async_tcpsock.Client.Events.{_error}
use async_tcpsock.Manager.Alive.{visit_gone}
use async_tcpsock.Client.State.{Sys}
use async_tcpsock.Client.Api.{_close}
use async_tcpsock.Client.Callbacks.{Callback}
use async_tcpsock.Client.Program.{invoke}
use async_tcpsock.Manager.Registry.{call_on, put, Entry, Manager, find, visit, remove_connection}
use async_tcpsock.Manager.Laws.{find-erase}
use async_tcpsock.Manager.Numbered.{find-id}
use async_tcpsock.Manager.Lifecycle.{destroy_client, unmanage_client}

find-put_same :
    (x e : Entry) (es : List Entry) → find x.id es ≡ some e → find x.id (put x es) ≡ some x
unfolding find put
find-put_same x e [] h = cc
find-put_same x e (y ∷ es) h = ground (arith, find-put_same x e es)

put-put : (x y : Entry) (es : List Entry) → y.id ≡ x.id → put y (put x es) ≡ put y es
unfolding put
put-put x y [] h = refl
put-put x y (z ∷ es) h = ground (arith, h, put-put x y es h)

module _ (os : Os) where
  -- What a handler may do with its client: it deletes it, or not.
  unfoldable pub delete_if : (Entry → Bool) → ℕ → Manager os → Manager os
  unfolding destroy_client
  delete_if wants id m = elim (find id m.clients) [
    | none ↦ m
    | some e ↦ if wants e then (destroy_client os e m).1 else m
  ]

  -- `_error`, with a handler for ERROR that deletes the client if `wants` says so.
  unfoldable pub error_deleting : (Entry → Bool) → ℤ → ℕ → Manager os → Manager os
  unfolding delete_if
  error_deleting wants code id m =
      visit os (λ s. (_close os s).1) id
        (delete_if wants id (visit os (λ s. (invoke os (Callback.error code) s).1) id m))

  -- Two calls in a row on a client are one call of both.
  visit-visit :
      (f g : Sys os → Sys os) (id : ℕ) (m : Manager os)
      → visit os g id (visit os f id m) ≡ visit os (λ s. g (f s)) id m
  unfolding visit call_on
  visit-visit f g id m = elim (Option-cases (find id m.clients)) [
    | inl e ↦ rw (e, call_on) (rw (e, call_on) refl)
    | inr (x, e) ↦
        (let s = f (record { client = x.client; world = m.world; log = x.log }) in
          let first : Entry = record { id = id; client = s.client; log = s.log } in
          let second : Entry = record { id = id; client = (g s).client; log = (g s).log } in
          rw (e, call_on)
            (rw (find-put_same first x m.clients e, call_on)
              (ap (λ (es : List Entry). record m { clients = es; world = (g s).world })
                (put-put first second m.clients refl))))
  ]

  gone : (id : ℕ) (m : Manager os) → find id (delete_if (λ e. true) id m).clients ≡ none
  unfolding delete_if destroy_client unmanage_client remove_connection
  gone id m = elim (Option-cases (find id m.clients)) [
    | inl e ↦ rw (e, delete_if) e
    | inr (x, e) ↦
        (let same = find-id id m.clients x e in
          rw (e, delete_if) (ground (arith, same, find-erase x.id id m.clients)))
  ]

  keeps : (id : ℕ) (m : Manager os) → delete_if (λ e. false) id m ≡ m
  unfolding delete_if
  keeps id m = elim (Option-cases (find id m.clients)) [
    | inl e ↦ rw (e, delete_if) refl
    | inr (x, e) ↦ rw (e, delete_if) refl
  ]

  -- Calling the handler for ERROR and then closing is what _error() does on a client; and if the
  -- handler deletes the client in between, a function is called on a client that is gone.
  pub error_handler_may_not_delete :
      (code : ℤ) (id : ℕ) (m : Manager os)
      → (error_deleting (λ e. false) code id m ≡ visit os (λ s. (_error os code s).1) id m)
        × ((error_deleting (λ e. true) code id m).faulted ≡ true)
  unfolding error_deleting _error
  error_handler_may_not_delete code id m =
      let told = visit os (λ s. (invoke os (Callback.error code) s).1) id m in
      (
        rw (keeps id told)
            (visit-visit (λ s. (invoke os (Callback.error code) s).1) (λ s. (_close os s).1) id m),
        visit_gone os (λ m'. m') (λ s. (_close os s).1) id (delete_if (λ e. true) id told)
            (gone id told),
      )
