-- ===== src/Webserver/Exec.antt =====
-- Python code that may raise: the state comes back beside the exception too.
pub data Result (A : Type 0) : Type 0 where
  ok : A → Result A
  raised : Result A

abbrev pub E : Type 0 → Type 0 → Type 0
E W A = W → Result A × W

abbrev pub pure : {W A : Type 0} → A → E W A
pure a w = (ok a, w)

abbrev pub continue : {W A B : Type 0} → Result A → (A → E W B) → E W B
continue (ok a) f w = f a w
continue raised f w = (raised, w)

infixl 5 ◌>>=◌ ◌>>◌
unfoldable pub ◌>>=◌ : {W A B : Type 0} → E W A → (A → E W B) → E W B
◌>>=◌ m f w = let (r, w') = m w in continue r f w'

abbrev pub ◌>>◌ : {W A B : Type 0} → E W A → E W B → E W B
m >> k = m >>= λ _. k
