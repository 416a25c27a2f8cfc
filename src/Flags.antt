-- ===== src/Flags.antt =====
-- src/ClientBase.hpp: ClientApiFlag and ClientApiFlags, a set of flags in a byte.
pub mod Laws
use Prim.Native.Nat.{bit_and, bit_or}
use async_tcpsock.Base.{ℕ, ◌-◌, Bool, not, ◌==◌}

pub data ClientApiFlag : Type 0 where
  copy immediate : ClientApiFlag

abbrev pub to_underlying : ClientApiFlag → ℕ
to_underlying copy = 0b0000_0001
to_underlying immediate = 0b0000_0010

-- `bits` is a uint8_t.
pub record ClientApiFlags : Type 0 where
  pub bits : ℕ

abbrev pub of_flag : ClientApiFlag → ClientApiFlags
of_flag value = record { bits = to_underlying value }

unfoldable pub set : ClientApiFlags → ClientApiFlag → ClientApiFlags
set flags flag = record { bits = bit_or flags.bits (to_underlying flag) }

-- `~` inverts an `int`; what is assigned to the byte is its low eight bits.
unfoldable pub unset : ClientApiFlags → ClientApiFlag → ClientApiFlags
unset flags flag = record { bits = bit_and flags.bits (255 - to_underlying flag) }

unfoldable pub test : ClientApiFlags → ClientApiFlag → Bool
test flags flag = not (bit_and flags.bits (to_underlying flag) == 0)

-- operator|
unfoldable pub join : ClientApiFlags → ClientApiFlag → ClientApiFlags
unfolding set
join lhs rhs = set lhs rhs
