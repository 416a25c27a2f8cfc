-- ===== src/Examples.antt =====
-- What the sketches under examples/ have in common. What they print is left out.
pub mod Http
pub mod Https
pub mod Loop
pub mod Request
use Prim.Native.Char.{code}
use Prim.Native.String.{String}
use async_tcpsock.Base.{ℕ, some, List, [], ◌∷◌, ◌++◌}
use async_tcpsock.Flags.{copy, of_flag}
use async_tcpsock.Client.Callbacks.{Program, done, call, on, ApiCall, Callback, ClientCallbackType}

-- The bytes of an ASCII text.
abbrev pub bytes_of : String → List ℕ
bytes_of String.[] = []
bytes_of (String.◌∷◌ c s) = code c ∷ bytes_of s

-- `client->add(buffer, strlen(buffer), ASYNC_WRITE_FLAG_COPY)` for each line, and `send()`.
unfoldable pub add_lines : List (List ℕ) → Program
add_lines [] = call ApiCall.send (λ sent. done)
add_lines (line ∷ rest) = call (ApiCall.add (some line) (of_flag copy)) (λ queued. add_lines rest)

-- A callback that only prints.
abbrev pub print : Callback → Program
print event = done

-- The callbacks that setup() sets, with that of CONNECT.
unfoldable pub set_callbacks : (Callback → Program) → Program
set_callbacks on_connect = on ClientCallbackType.connect on_connect (
    on ClientCallbackType.recv print (
      on ClientCallbackType.sent print
        (on ClientCallbackType.disconnect print (on ClientCallbackType.error print done))))
