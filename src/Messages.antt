-- ===== src/Messages.antt =====
-- The text messages of the controller (RaspberryPi/Window_Controller/main_controller.cpp, lines 890 to
-- 977): splitting and joining C strings.
pub mod Tokens
pub mod Words
use smart_window.Common.{
  ℕ, zero, suc, ◌+◌, ◌*◌, Bool, true, false, ◌==◌, if◌then◌else◌, Option, none, some, Bytes, codes,
  List, [], ◌∷◌, ◌++◌, length,
}
use smart_window.Common.Int.{ℤ, pos, negsuc}

infixl 5 ◌>>=◌
abbrev ◌>>=◌ {ℓ κ} : {A : Type ℓ} {B : Type κ} → Option A → (A → Option B) → Option B
none >>= f = none
some a >>= f = f a

-- A `char *`; `none` is the null pointer.
abbrev pub Pointer : Type 0
Pointer = Option Bytes

-- strtok with one delimiter: the delimiters before the word are skipped, and the one behind it is
-- taken away.
pub skip : ℕ → Bytes → Bytes
skip d [] = []
skip d (c ∷ s) = elim (c == d) [ true ↦ skip d s | false ↦ c ∷ s ]

pub word : ℕ → Bytes → Bytes × Bytes
word d [] = ([], [])
word d (c ∷ s) = let (w, rest) = word d s in if c == d then ([], s) else (c ∷ w, rest)

word_of : ℕ → Bytes → Option (Bytes × Bytes)
unfolding word
word_of d [] = none
word_of d (c ∷ s) = some (word d (c ∷ s))

unfoldable pub strtok : ℕ → Bytes → Option (Bytes × Bytes)
unfolding skip word_of
strtok d s = word_of d (skip d s)

-- What `splitString` returns, and the array that it leaves behind: none of it if the array is null.
pub record Split : Type 0 where
  pub count : ℤ
  pub parts : Option (List Bytes)

-- `alloc` tells of each number of bytes whether `realloc` and `malloc` give them. Pointers have
-- four bytes on the target. Outer `none` is undefined behaviour.
module _ (alloc : ℕ → Bool) where
  -- The loop, with the words found so far; it is given more fuel than the text has bytes.
  unfoldable pub split_loop : ℕ → ℕ → Bytes → List Bytes → Option Split
  split_loop zero d s words = none
  split_loop (suc fuel) d s words = elim (strtok d s) [
    | none ↦
        -- The final `realloc` is not checked before the null entry is written.
        if alloc (4 * (length words + 1))
        then some (record { count = pos (length words); parts = some words })
        else none
    | some (w, rest) ↦
        if alloc (4 * (length words + 1))
        then split_loop fuel d rest (words ++ w ∷ [])
        else some (record { count = negsuc 0; parts = none })
  ]

  unfoldable pub split_string : Bytes → ℕ → Option Split
  split_string s d = split_loop (suc (length s)) d s []

  unfoldable pub concat : Pointer → Pointer → Option Pointer
  concat (some s1) (some s2) =
      some (if alloc (length s1 + length s2 + 1) then some (s1 ++ s2) else none)
  concat _ _ = none

  unfoldable pub table_name : Pointer → Pointer → Option Pointer
  table_name sensor suffix = do sensor' ← concat sensor (some (codes "_")); concat sensor' suffix

  unfoldable pub put_command : Pointer → Pointer → Pointer → Option Pointer
  put_command sensor position value = do
    cmd_sep ← concat (some (codes "PUT")) (some (codes "_"))
    table ← table_name sensor position
    pre_value ← concat cmd_sep table
    sepval ← concat (some (codes "/")) value
    concat pre_value sepval
