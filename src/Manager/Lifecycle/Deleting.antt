-- ===== src/Manager/Lifecycle/Deleting.antt =====
-- What `delete` on a client does (src/Client.cpp, src/ClientBase.tpp, src/AsyncTCP.cpp).
use async_tcpsock.Base.{
  ◌≡◌, refl, ℕ, ◌+◌, none, some, List, [], ◌∷◌, ◌++◌, if◌then◌else◌, ◌==◌, arith, length, false,
}
use async_tcpsock.Os.{Os}
use async_tcpsock.Connection.{is_open}
use async_tcpsock.Client.State.{closed}
use async_tcpsock.Client.Api
use async_tcpsock.Client.Fires.{invoked_of}
use async_tcpsock.Manager.Registry.{Entry, Manager, ids, find, add_connection, remove_connection}
use async_tcpsock.Manager.Laws.{find-erase, erase_absent}
use async_tcpsock.Manager.Numbered.{Numbered, has_id, Below-has_id, length-erase}
use async_tcpsock.Manager.Lifecycle.{
  destroy_client, new_client, delete_client, unmanage_client, manage_client,
}

pub find_append :
    (x : Entry) (es : List Entry) → find x.id es ≡ none → find x.id (es ++ x ∷ []) ≡ some x
unfolding find
find_append x [] h = ground arith
find_append x (e ∷ es) h = ground (arith, find_append x es)

pub find_unknown : (id : ℕ) (es : List Entry) → has_id id (ids es) ≡ false → find id es ≡ none
unfolding find
find_unknown id [] h = refl
find_unknown id (e ∷ es) h = ground (arith, find_unknown id es)

module _ (os : Os) where
  -- Deleting a registered client, where no client is registered twice, takes that one out of the
  -- registry and no other; leaves it without a socket, which is closed once if there was one; and
  -- fires no callback.
  pub destroy_client_lem :
      (m : Manager os) (e : Entry) (i : ℕ)
      → Numbered os m
      → find e.id m.clients ≡ some e
      → let (s, m') = destroy_client os e m in
        (find i m'.clients ≡ (if i == e.id then none else find i m.clients))
        × (length m'.clients + 1 ≡ length m.clients)
        × (is_open s.client.connection ≡ false)
        × (s.log ≡ (if is_open e.client.connection then closed e.client.socket ∷ e.log else e.log))
        × (invoked_of s.log ≡ invoked_of e.log)
  unfolding destroy_client unmanage_client remove_connection Api.destroy Api.close Api._close
      is_open
  destroy_client_lem m e i h f =
      ground (arith, find-erase e.id i m.clients, length-erase e.id m.clients e h.1 f)

  -- Making a client and deleting it leaves the registered clients as they were, and calls nothing
  -- on an object that is gone.
  new-delete_client :
      (m : Manager os)
      → Numbered os m
      → let (id, m') = new_client os m in
        let r = delete_client os id m' in (r.clients ≡ m.clients) × (r.faulted ≡ m.faulted)
  unfolding new_client manage_client delete_client destroy_client unmanage_client add_connection
      remove_connection find
  new-delete_client m h =
      let s = Api.new os m.world in
      let e : Entry = record { id = m.next_id; client = s.client; log = s.log } in
      let unknown = find_unknown m.next_id m.clients (Below-has_id m.next_id (ids m.clients) h.0) in
      rw (find_append e m.clients unknown, erase_absent e m.clients unknown) (refl, refl)
