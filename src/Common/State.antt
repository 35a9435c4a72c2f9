-- ===== src/Common/State.antt =====
-- Steps that read and change a state, chained by the bind of a `do` block.
abbrev pub State : Type 0 → Type 0 → Type 0
State S A = S → A × S

module _ {S : Type 0} where
  abbrev pub pure : {A : Type 0} → A → State S A
  pure a s = (a, s)

  infixl 5 ◌>>=◌ ◌>>◌
  abbrev pub ◌>>=◌ : {A B : Type 0} → State S A → (A → State S B) → State S B
  (m >>= k) s = k (m s).0 (m s).1

  abbrev pub ◌>>◌ : {A B : Type 0} → State S A → State S B → State S B
  (m >> k) s = k (m s).1
