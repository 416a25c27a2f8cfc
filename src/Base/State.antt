-- ===== src/Base/State.antt =====
-- Stateful code: a computation takes a state and returns its result with the new state.

infixl 5 ◌>>=◌ ◌>>◌
abbrev pub ◌>>=◌ : {S A B : Type 0} → (S → A × S) → (A → S → B × S) → S → B × S
◌>>=◌ m f s = let (a, s') = m s in f a s'

abbrev pub ◌>>◌ : {S B : Type 0} → (S → Unit {0} × S) → (S → B × S) → S → B × S
◌>>◌ m k s = k (m s).1

abbrev pub return : {S A : Type 0} → A → S → A × S
return a s = (a, s)
