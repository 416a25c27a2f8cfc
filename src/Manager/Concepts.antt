-- ===== src/Manager/Concepts.antt =====
-- The concepts of src/SocketConnection.hpp as tests of C++ types: which types a manager can be
-- instantiated with, and which of its overloads a pointer selects.
use async_tcpsock.Base.{Bool, true, false, not, ◌&&◌, Option, none, some, List, [], ◌∷◌}

-- The expressions that the concepts name.
pub data Expression : Type 0 where
  is_open get_socket is_dns_finished set_dns_finished : Expression
  get_last_active set_last_active_at set_last_active : Expression
  sock_is_writeable sock_is_readable sock_delayed_connect : Expression
  sock_poll processing_done pending_write : Expression

pub data ResultType : Type 0 where
  bool int void time_point : ResultType

-- A class, by its static member IS_SERVER and the types of the expressions on an object of it;
-- `none` where there is no such member. A type that is no class has neither.
pub record Class : Type 0 where
  pub is_server : Option Bool
  pub type_of : Expression → Option ResultType

-- An element of a variant, and what may stand in place of a variant.
pub data Element : Type 0 where
  pointer_to value_of : Class → Element

pub data CppType : Type 0 where
  variant : List Element → CppType
  other : Element → CppType

abbrev same : ResultType → ResultType → Bool
same bool bool = true
same int int = true
same void void = true
same time_point time_point = true
same _ _ = false

-- `{ expression } -> std::same_as<type>`
abbrev pub answers : Class → Expression → ResultType → Bool
answers c expression type = elim (c.type_of expression) [ none ↦ false | some t ↦ same t type ]

unfoldable pub managed_connection : Class → Bool
managed_connection c =
    answers c is_open bool
    && answers c get_socket int
    && answers c is_dns_finished bool
    && answers c set_dns_finished void
    && answers c get_last_active time_point
    && answers c set_last_active_at void
    && answers c set_last_active void

unfoldable pub managed_client : Class → Bool
managed_client c =
    managed_connection c
    && (elim c.is_server [ none ↦ false | some server ↦ not server ])
    && answers c sock_is_writeable bool
    && answers c sock_is_readable void
    && answers c sock_delayed_connect void
    && answers c sock_poll void
    && answers c processing_done void
    && answers c pending_write bool

unfoldable pub managed_server : Class → Bool
managed_server c =
    managed_connection c
    && (elim c.is_server [ none ↦ false | some server ↦ server ])
    && answers c sock_is_readable void

-- std::is_pointer and std::remove_pointer_t
abbrev pub is_pointer : Element → Bool
is_pointer (pointer_to c) = true
is_pointer (value_of c) = false

abbrev pub remove_pointer : Element → Class
remove_pointer (pointer_to c) = c
remove_pointer (value_of c) = c

-- A conjunction over the elements: true of none.
abbrev pub every : {A : Type 0} → (A → Bool) → List A → Bool
every ok [] = true
every ok (x ∷ xs) = let rest = every ok xs in ok x && rest

unfoldable pub is_variant_of_client_pointers : CppType → Bool
unfolding managed_client
is_variant_of_client_pointers (variant elements) =
    every is_pointer elements && every (λ e. managed_client (remove_pointer e)) elements
is_variant_of_client_pointers (other t) = false

unfoldable pub is_variant_of_server_pointers : CppType → Bool
unfolding managed_server
is_variant_of_server_pointers (variant elements) =
    every is_pointer elements && every (λ e. managed_server (remove_pointer e)) elements
is_variant_of_server_pointers (other t) = false

-- What SocketConnection declares.
abbrev pub connection_members : Expression → Option ResultType
connection_members is_open = some bool
connection_members get_socket = some int
connection_members is_dns_finished = some bool
connection_members set_dns_finished = some void
connection_members get_last_active = some time_point
connection_members set_last_active_at = some void
connection_members set_last_active = some void
connection_members _ = none

-- Client, with the members of ClientBase, and Server.
unfoldable pub client_class : Class
client_class = record {
  is_server = some false;
  type_of = λ expression. elim expression [
    | sock_is_writeable ↦ some bool
    | sock_is_readable ↦ some void
    | sock_delayed_connect ↦ some void
    | sock_poll ↦ some void
    | processing_done ↦ some void
    | pending_write ↦ some bool
    | e ↦ connection_members e
  ];
}

unfoldable pub server_class : Class
server_class = record {
  is_server = some true;
  type_of =
      λ expression. elim expression [ sock_is_readable ↦ some void | e ↦ connection_members e ];
}

-- The variants of AsyncSocketConnectionManager (src/AsyncTCP.h).
abbrev pub client_variant : CppType
client_variant = variant (pointer_to client_class ∷ [])

abbrev pub server_variant : CppType
server_variant = variant (pointer_to server_class ∷ [])

-- A class that stands on the side of another and declares what it declares, at the same types.
abbrev pub expressions : List Expression
expressions =
    is_open ∷ get_socket ∷ is_dns_finished ∷ set_dns_finished ∷ get_last_active ∷ set_last_active_at
    ∷ set_last_active ∷ sock_is_writeable ∷ sock_is_readable ∷ sock_delayed_connect ∷ sock_poll
    ∷ processing_done ∷ pending_write ∷ []

abbrev declares : Class → Option ResultType → Expression → Bool
declares c none expression = true
declares c (some type) expression = answers c expression type

abbrev same_side : Option Bool → Option Bool → Bool
same_side (some true) (some true) = true
same_side (some false) (some false) = true
same_side _ _ = false

abbrev pub declares_as : Class → Class → Bool
declares_as model c =
    same_side model.is_server c.is_server && every (λ e. declares c (model.type_of e) e) expressions
