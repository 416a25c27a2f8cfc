-- ===== src/Client/ErrorText.antt =====
-- errorToString of src/Client.hpp, on the codes that onError reports.
use Prim.Native.Nat.{◌%◌}
use Prim.Native.String.{String}
use async_tcpsock.Base.{
  ◌≡◌, refl, ℕ, ◌-◌, ◌<◌, List, [], ◌∷◌, ◌++◌, ==ℤ_iff, ℤ, pos, negsuc, ◌==ℤ◌, ltb, if◌then◌else◌,
  arith,
}
use async_tcpsock.Os.{Os}
use async_tcpsock.Os.Laws.{Errnos}
use async_tcpsock.Client.Api
use async_tcpsock.Client.Callbacks.{Callback}
use async_tcpsock.Client.Fires.{invoked_of}
use async_tcpsock.Client.History.{Step, history}
use async_tcpsock.Client.Errors.Tasks.{IsCode, AllCodes, new-AllCodes}

-- The constants of lwIP's err_t.
pub record LwipErrors : Type 0 where
  pub err_ok : ℤ
  pub err_mem : ℤ
  pub err_buf : ℤ
  pub err_timeout : ℤ
  pub err_rte : ℤ
  pub err_inprogress : ℤ
  pub err_val : ℤ
  pub err_wouldblock : ℤ
  pub err_use : ℤ
  pub err_already : ℤ
  pub err_conn : ℤ
  pub err_if : ℤ
  pub err_abrt : ℤ
  pub err_rst : ℤ
  pub err_clsd : ℤ
  pub err_arg : ℤ

-- The cases of the switch.
unfoldable pub lwip_cases : LwipErrors → List (ℤ × String)
lwip_cases e =
    (e.err_ok, "OK")
    ∷ (e.err_mem, "Out of memory error")
    ∷ (e.err_buf, "Buffer error")
    ∷ (e.err_timeout, "Timeout")
    ∷ (e.err_rte, "Routing problem")
    ∷ (e.err_inprogress, "Operation in progress")
    ∷ (e.err_val, "Illegal value")
    ∷ (e.err_wouldblock, "Operation would block")
    ∷ (e.err_use, "Address in use")
    ∷ (e.err_already, "Already connected")
    ∷ (e.err_conn, "Not connected")
    ∷ (e.err_if, "Low-level netif error")
    ∷ (e.err_abrt, "Connection aborted")
    ∷ (e.err_rst, "Connection reset")
    ∷ (e.err_clsd, "Connection closed")
    ∷ (e.err_arg, "Illegal argument")
    ∷ []

unfoldable pub cases : LwipErrors → List (ℤ × String)
cases e = lwip_cases e ++ (negsuc 54, "DNS failed") ∷ []

unfoldable pub switch : ℤ → List (ℤ × String) → String
switch error [] = "UNKNOWN"
switch error ((code, text) ∷ rest) = if error ==ℤ code then text else switch error rest

-- The conversion of an int to int8_t: the lowest byte as a signed number.
unfoldable pub signed : ℕ → ℤ
signed byte = if ltb byte 128 then pos byte else negsuc (255 - byte)

unfoldable pub to_int8 : ℤ → ℤ
unfolding signed
to_int8 (pos n) = signed (n % 256)
to_int8 (negsuc n) = signed (255 - n % 256)

-- errorToString(int8_t), of an `int` argument.
unfoldable pub error_to_string : LwipErrors → ℤ → String
error_to_string e error = switch (to_int8 error) (cases e)

-- lwIP's codes are from -16 to 0.
abbrev pub IsErr : ℤ → Type 0
IsErr (pos n) = n ≡ 0
IsErr (negsuc n) = n < 16

abbrev pub AllErr : List (ℤ × String) → Type 0
AllErr [] = Unit {0}
AllErr ((code, text) ∷ rest) = IsErr code × AllErr rest

switch_skips :
    (error : ℤ) (table rest : List (ℤ × String))
    → AllErr table
    → ¬ IsErr error
    → switch error (table ++ rest) ≡ switch error rest
unfolding switch
switch_skips error [] rest a n = refl
switch_skips error ((code, text) ∷ table) rest a n =
    ground (arith, ==ℤ_iff error code, switch_skips error table rest a.1 n)

-- The text of a reported code, if an int8_t can hold it.
abbrev pub IsPlainText : LwipErrors → ℤ → Type 0
IsPlainText e (pos n) = n < 128 → error_to_string e (pos n) ≡ "UNKNOWN"
IsPlainText e (negsuc n) = error_to_string e (negsuc n) ≡ "DNS failed"

abbrev pub TextOf : LwipErrors → Callback → Type 0
TextOf e (Callback.error code) = IsPlainText e code
TextOf e _ = Unit {0}

abbrev pub AllTexts : LwipErrors → List Callback → Type 0
AllTexts e [] = Unit {0}
AllTexts e (event ∷ events) = TextOf e event × AllTexts e events

module _ (e : LwipErrors) (lwip : AllErr (lwip_cases e)) where
  plain_text : (code : ℤ) → IsCode code → IsPlainText e code
  unfolding error_to_string cases to_int8 signed switch
  plain_text (pos n) c = λ (small : n < 128).
      let last : List (ℤ × String) = (negsuc 54, "DNS failed") ∷ [] in
      let same : n % 256 ≡ n = omega (arith, small) in
      rw same (ground (arith, c, switch_skips (pos n) (lwip_cases e) last lwip))
  plain_text (negsuc n) c =
      let last : List (ℤ × String) = (negsuc 54, "DNS failed") ∷ [] in
      rw c (switch_skips (negsuc 54) (lwip_cases e) last lwip (λ (h : 54 < 16). omega (arith, h)))

  all_texts : (events : List Callback) → AllCodes events → AllTexts e events
  all_texts [] h = tt
  all_texts (Callback.error code ∷ events) h = (plain_text code h.0, all_texts events h.1)
  all_texts (Callback.connect ∷ events) h = (tt, all_texts events h.1)
  all_texts (Callback.disconnect ∷ events) h = (tt, all_texts events h.1)
  all_texts (Callback.poll ∷ events) h = (tt, all_texts events h.1)
  all_texts (Callback.sent n t ∷ events) h = (tt, all_texts events h.1)
  all_texts (Callback.recv bs ∷ events) h = (tt, all_texts events h.1)
  all_texts (Callback.timeout t ∷ events) h = (tt, all_texts events h.1)

  -- If the codes of lwIP are from -16 to 0 and an errno is positive, then whatever is called on a
  -- new client, errorToString has "DNS failed" for the ERROR of a failed DNS request, and
  -- "UNKNOWN" for every other code below 128 that ERROR reports.
  pub reported_texts :
      (os : Os)
      → Errnos os
      → (w : os.World) (sts : List Step)
      → AllTexts e (invoked_of (history os sts (Api.new os w)).log)
  reported_texts os errnos w sts = all_texts _ (new-AllCodes os errnos w sts)
