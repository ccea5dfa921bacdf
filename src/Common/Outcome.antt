-- ===== src/Common/Outcome.antt =====
-- Programs over a world that they read and change. `none` is undefined behaviour of the C program:
-- a null or uninitialised pointer that is read, a buffer that is overrun, a signed overflow.
use mathlib.Core.Option.{Option, none, some}
use mathlib.Core.Path.{◌≡◌, ap}

abbrev pub M {κ} : Type κ → Type κ → Type κ
M W A = W → Option (A × W)

abbrev pub pure {κ} : {W A : Type κ} → A → M W A
pure a w = some (a, w)

abbrev pub undefined {κ} : {W A : Type κ} → M W A
undefined w = none

infixl 5 ◌>>=◌ ◌>>◌
abbrev pub ◌>>=◌ {κ} : {W A B : Type κ} → M W A → (A → M W B) → M W B
◌>>=◌ m f w = elim (m w) [ none ↦ none | some (a, w') ↦ f a w' ]

abbrev pub ◌>>◌ {κ} : {W A B : Type κ} → M W A → M W B → M W B
m >> k = m >>= λ _. k

-- A program that returns goes on with what follows it.
pub bind-some {κ} :
    {W A B : Type κ} (m : M W A) (f : A → M W B) (w w' : W) (a : A)
    → m w ≡ some (a, w')
    → (m >>= f) w ≡ f a w'
bind-some m f w w' a h = ap (λ o. elim o [ none ↦ none | some (b, v) ↦ f b v ]) h
