-- ===== src/Manager/Numbered.antt =====
-- Each client is registered at one place of the registry (src/SocketConnection.hpp), through
-- constructors, destructors and rounds.
use async_tcpsock.Base.{
  ℕ, ◌+◌, ◌<◌, ◌≤◌, ◌≡◌, refl, Bool, false, not, ◌&&◌, ◌||◌, Option, none, some, List, [], ◌∷◌,
  ◌++◌, ◌==◌, arith, length,
}
use async_tcpsock.Os.{Os}
use async_tcpsock.Client.State.{Sys}
use async_tcpsock.Server.{Accepted}
use async_tcpsock.Manager.Registry.{
  add_connection, Entry, ServerEntry, Manager, find, find_server, put, erase, ids, visit, call_on,
}
use async_tcpsock.Manager.Sets.{poll_due}
use async_tcpsock.Manager.Pass.{register, enlist, call_server, visit_server, update}
use async_tcpsock.Manager.Phases.{Kept, update-Kept}

abbrev pub has_id : ℕ → List ℕ → Bool
has_id id [] = false
has_id id (i ∷ is) = i == id || has_id id is

-- The ids are different, and below a bound.
abbrev pub Below : ℕ → List ℕ → Type 0
Below n [] = Unit {0}
Below n (i ∷ is) = (i < n) × Below n is

abbrev pub Distinct : List ℕ → Type 0
Distinct [] = Unit {0}
Distinct (i ∷ is) = (has_id i is ≡ false) × Distinct is

pub Below-grow : (m n : ℕ) (is : List ℕ) → m ≤ n → Below m is → Below n is
Below-grow m n [] h b = tt
Below-grow m n (i ∷ is) h b = (omega arith, Below-grow m n is h b.1)

pub Below-has_id : (n : ℕ) (is : List ℕ) → Below n is → has_id n is ≡ false
Below-has_id n [] b = refl
Below-has_id n (i ∷ is) b = ground (arith, Below-has_id n is b.1)

Below-append :
    (es : List Entry) (x : Entry) → Below x.id (ids es) → Below (x.id + 1) (ids (es ++ x ∷ []))
Below-append [] x b = (omega arith, tt)
Below-append (e ∷ es) x b = (omega arith, Below-append es x b.1)

pub has_id-append :
    (i : ℕ) (es : List Entry) (x : Entry)
    → has_id i (ids (es ++ x ∷ [])) ≡ (has_id i (ids es) || x.id == i)
has_id-append i [] x = ground arith
has_id-append i (e ∷ es) x = ground (arith, has_id-append i es x)

Distinct-append :
    (es : List Entry) (x : Entry)
    → Below x.id (ids es)
    → Distinct (ids es)
    → Distinct (ids (es ++ x ∷ []))
Distinct-append [] x b d = (refl, tt)
Distinct-append (e ∷ es) x b d =
    (ground (arith, has_id-append e.id es x), Distinct-append es x b.1 d.1)

pub ids-put : (x : Entry) (es : List Entry) → ids (put x es) ≡ ids es
unfolding put
ids-put x [] = refl
ids-put x (e ∷ es) = ground (arith, ids-put x es)

pub ids-poll_due :
    (os : Os) (es : List Entry) (w : os.World) → ids (poll_due os es w).clients ≡ ids es
unfolding poll_due
ids-poll_due os [] w = refl
ids-poll_due os (e ∷ es) w = ground (arith, ids-poll_due os es (os.now w).1)

Below-erase : (n id : ℕ) (es : List Entry) → Below n (ids es) → Below n (ids (erase id es))
unfolding erase
Below-erase n id [] b = tt
Below-erase n id (e ∷ es) b = ground (arith, Below-erase n id es b.1)

pub has_id-erase :
    (i id : ℕ) (es : List Entry)
    → has_id i (ids (erase id es)) ≡ (not (i == id) && has_id i (ids es))
unfolding erase
has_id-erase i id [] = ground arith
has_id-erase i id (e ∷ es) = ground (arith, has_id-erase i id es)

Distinct-erase : (id : ℕ) (es : List Entry) → Distinct (ids es) → Distinct (ids (erase id es))
unfolding erase
Distinct-erase id [] d = tt
Distinct-erase id (e ∷ es) d = ground (arith, has_id-erase e.id id es, Distinct-erase id es d.1)

-- A registered client is erased at one place.
erase_none : (id : ℕ) (es : List Entry) → has_id id (ids es) ≡ false → erase id es ≡ es
unfolding erase
erase_none id [] h = refl
erase_none id (e ∷ es) h = ground (arith, erase_none id es)

pub length-erase :
    (id : ℕ) (es : List Entry) (e : Entry)
    → Distinct (ids es)
    → find id es ≡ some e
    → length (erase id es) + 1 ≡ length es
unfolding erase find
length-erase id [] e d f = cc
length-erase id (x ∷ xs) e d f = ground (arith, erase_none id xs, length-erase id xs e d.1)

pub find-id : (id : ℕ) (es : List Entry) (e : Entry) → find id es ≡ some e → e.id ≡ id
unfolding find
find-id id [] e f = cc
find-id id (x ∷ xs) e f = ground (arith, find-id id xs e)

module _ (os : Os) where
  -- No client is registered twice, and the next address is new.
  abbrev pub Numbered : Manager os → Type 0
  Numbered m = Below m.next_id (ids m.clients) × Distinct (ids m.clients)

  pub Numbered-same :
      (m r : Manager os)
      → r.next_id ≡ m.next_id
      → ids r.clients ≡ ids m.clients
      → Numbered m
      → Numbered r
  Numbered-same m r n i h = rw (n, i) h

  pub Numbered-append :
      (m : Manager os) (x : Entry) (r : Manager os)
      → x.id ≡ m.next_id
      → r.next_id ≡ m.next_id + 1
      → r.clients ≡ m.clients ++ x ∷ []
      → Numbered m
      → Numbered r
  Numbered-append m x r e n c h =
      let b : Below x.id (ids m.clients) = rw e h.0 in
      rw (n, c, ← e) (Below-append m.clients x b, Distinct-append m.clients x b h.1)

  pub Numbered-erase :
      (m r : Manager os) (id : ℕ)
      → r.next_id ≡ m.next_id
      → r.clients ≡ erase id m.clients
      → Numbered m
      → Numbered r
  Numbered-erase m r id n c h =
      rw (n, c) (Below-erase m.next_id id m.clients h.0, Distinct-erase id m.clients h.1)

  pub call_on-Numbered :
      (op : Sys os → Sys os) (id : ℕ) (o : Option Entry) (m : Manager os)
      → Numbered m
      → Numbered (call_on os op id o m)
  unfolding call_on
  call_on-Numbered op id none m h = h
  call_on-Numbered op id (some e) m h =
      Numbered-same m (call_on os op id (some e) m) refl (ids-put _ m.clients) h

  pub visit-Numbered :
      (op : Sys os → Sys os) (id : ℕ) (m : Manager os) → Numbered m → Numbered (visit os op id m)
  unfolding visit
  visit-Numbered op id m h = call_on-Numbered op id (find id m.clients) m h

  register-Numbered :
      (o : Option (Accepted os)) (m : Manager os) → Numbered m → Numbered (register os o m)
  unfolding register enlist add_connection
  register-Numbered none m h = h
  register-Numbered (some made) m h =
      let s = made.client in
      visit-Numbered made.greeting m.next_id (enlist os s m) (
        Numbered-append m (record { id = m.next_id; client = s.client; log = s.log })
          (enlist os s m) refl refl refl h)

  pub accept-Numbered :
      (id : ℕ) (o : Option ServerEntry) (m : Manager os)
      → Numbered m
      → Numbered (call_server os id o m)
  unfolding call_server
  accept-Numbered id none m h = h
  accept-Numbered id (some e) m h = register-Numbered _ _ h

  pub Numbered-Kept :
      (between : Manager os → Manager os)
      → ((m : Manager os) → Numbered m → Numbered (between m))
      → Kept os between Numbered
  unfolding visit_server
  Numbered-Kept between others = record {
    by_others = others;
    by_visit = visit-Numbered;
    by_accept = λ id m h. accept-Numbered id (find_server id m.servers) m h;
    by_world = λ w m h. h;
    by_polling = λ m h. rw (ids-poll_due os m.clients m.world) h;
  }

  -- If other tasks register no client twice, neither does a round of the manager's task.
  pub update-Numbered :
      (between : Manager os → Manager os)
      → ((m : Manager os) → Numbered m → Numbered (between m))
      → (m : Manager os) → Numbered m
      → Numbered (update os between m)
  update-Numbered between others m h =
      update-Kept os between Numbered (Numbered-Kept between others) m h
