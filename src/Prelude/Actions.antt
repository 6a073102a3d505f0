-- ===== src/Prelude/Actions.antt =====
-- Code with effects: an action takes the world and gives its result and the world that it leaves.

abbrev pub Action : Type 0 → Type 0 → Type 0
Action W A = W → A × W

abbrev pub return : {W A : Type 0} → A → Action W A
return a w = (a, w)

infixl 5 ◌>>=◌ ◌>>◌
abbrev pub ◌>>=◌ : {W A B : Type 0} → Action W A → (A → Action W B) → Action W B
◌>>=◌ m f w = f (m w).0 (m w).1

abbrev pub ◌>>◌ : {W A B : Type 0} → Action W A → Action W B → Action W B
m >> n = m >>= λ _. n
