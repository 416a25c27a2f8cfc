-- ===== src/Flags/Laws.antt =====
-- The flags of src/ClientBase.hpp behave as a set.
use async_tcpsock.Base.{
  passes_at, passes, ℕ, ◌<◌, ◌≡◌, refl, Bool, true, false, ◌&&◌, ◌||◌, not, arith,
}
use async_tcpsock.Flags.{ClientApiFlag, copy, immediate, ClientApiFlags, set, unset, test}

abbrev is_same : ClientApiFlag → ClientApiFlag → Bool
is_same copy copy = true
is_same immediate immediate = true
is_same _ _ = false

abbrev eqb : Bool → Bool → Bool
eqb true b = b
eqb false b = not b

eqb_sound : (a b : Bool) → eqb a b ≡ true → a ≡ b
eqb_sound true b h = ground arith
eqb_sound false b h = ground arith

check_set : ClientApiFlag → ClientApiFlag → ℕ → Bool
check_set f g x =
    let flags : ClientApiFlags = record { bits = x } in
    eqb (test (set flags f) g) (is_same f g || test flags g)
    && eqb (test (unset flags f) g) (not (is_same f g) && test flags g)

set_table : (f g : ClientApiFlag) → passes (check_set f g) 256 ≡ true
unfolding passes check_set set unset test
set_table copy copy = refl
set_table copy immediate = refl
set_table immediate copy = refl
set_table immediate immediate = refl

-- For every value of the byte, after `set` exactly that flag and those set before test as set, and
-- after `unset` exactly those set before except that flag.
test-set :
    (flags : ClientApiFlags) (f g : ClientApiFlag)
    → flags.bits < 256
    → (test (set flags f) g ≡ (is_same f g || test flags g))
      × (test (unset flags f) g ≡ (not (is_same f g) && test flags g))
unfolding check_set
test-set flags f g h =
    let p = passes_at (check_set f g) 256 flags.bits h (set_table f g) in
    ground (
      arith,
      p,
      eqb_sound (test (set flags f) g) (is_same f g || test flags g),
      eqb_sound (test (unset flags f) g) (not (is_same f g) && test flags g),
    )
