-- ===== src/Manager/Told/Misses.antt =====
-- A client without a socket or a DNS answer is in none of the lists that a round of the task
-- (src/SocketConnection.tpp) makes.
use async_tcpsock.Base.{◌≡◌, refl, ℕ, false, some, List, [], ◌∷◌, ◌++◌, ℤ, minus_one, arith}
use async_tcpsock.Connection.{is_dns_finished}
use async_tcpsock.Manager.Registry.{Entry, find, ids}
use async_tcpsock.Manager.Sets.{fd_isset, marked, answered}
use async_tcpsock.Manager.Laws.{Bounded}
use async_tcpsock.Manager.Numbered.{has_id, Distinct}

pub Bounded-absent : (n : ℕ) (fds : List ℤ) → Bounded n fds → fd_isset minus_one fds ≡ false
unfolding fd_isset
Bounded-absent n [] b = refl
Bounded-absent n (fd ∷ fds) b = ground (arith, Bounded-absent n fds b.2)

has_id-marked :
    (id : ℕ) (set : List ℤ) (es : List Entry)
    → has_id id (ids es) ≡ false
    → has_id id (marked set es) ≡ false
unfolding marked
has_id-marked id set [] h = refl
has_id-marked id set (x ∷ es) h = ground (arith, has_id-marked id set es)

pub marked_misses :
    (id : ℕ) (set : List ℤ) (es : List Entry) (e : Entry)
    → Distinct (ids es)
    → find id es ≡ some e
    → fd_isset e.client.socket set ≡ false
    → has_id id (marked set es) ≡ false
unfolding marked find
marked_misses id set [] e d f n = refl
marked_misses id set (x ∷ es) e d f n =
    ground (arith, has_id-marked id set es, marked_misses id set es e d.1)

has_id-answered :
    (id : ℕ) (es : List Entry) → has_id id (ids es) ≡ false → has_id id (answered es) ≡ false
unfolding answered
has_id-answered id [] h = refl
has_id-answered id (x ∷ es) h = ground (arith, has_id-answered id es)

pub answered_misses :
    (id : ℕ) (es : List Entry) (e : Entry)
    → Distinct (ids es)
    → find id es ≡ some e
    → is_dns_finished e.client.connection ≡ false
    → has_id id (answered es) ≡ false
unfolding answered find
answered_misses id [] e d f n = refl
answered_misses id (x ∷ es) e d f n =
    ground (arith, has_id-answered id es, answered_misses id es e d.1)

pub find-append :
    (id : ℕ) (es more : List Entry) (e : Entry)
    → find id es ≡ some e
    → find id (es ++ more) ≡ some e
unfolding find
find-append id [] more e f = cc
find-append id (x ∷ es) more e f = ground (arith, find-append id es more e)
