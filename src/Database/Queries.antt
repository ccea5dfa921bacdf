-- ===== src/Database/Queries.antt =====
-- The query texts (RaspberryPi/Window_Controller/write_read.cpp, lines 55 to 58, 78 to 84 and 270 to
-- 293), and the conversion of a value to `int`.
use smart_window.Common.{
  ℕ, ◌+◌, ◌-◌, ◌*◌, Bool, true, false, ◌&&◌, ◌||◌, ltb, leb, ◌==◌, if◌then◌else◌, Option, none,
  some, Bytes, codes, [], ◌∷◌, ◌++◌, length,
}
use smart_window.Common.Int.{ℤ, pos, to_int, sub_ℕ}

-- BUF
abbrev pub buf_size : ℕ
buf_size = 255

infixl 5 ◌>>=◌
abbrev ◌>>=◌ {ℓ κ} : {A : Type ℓ} {B : Type κ} → Option A → (A → Option B) → Option B
none >>= f = none
some a >>= f = f a

-- strcat on a buffer of BUF bytes: `none` if the text and its terminator do not fit.
unfoldable pub strcat : Bytes → Bytes → Option Bytes
strcat buf s = if ltb (length (buf ++ s)) buf_size then some (buf ++ s) else none

unfoldable pub max_id_query : Bytes → Option Bytes
max_id_query table = strcat (codes "SELECT MAX(id) AS id FROM ") table

unfoldable pub value_query : Bytes → Bytes → Option Bytes
value_query table max_id = do
  buf ← strcat (codes "SELECT Wert FROM ") table
  buf' ← strcat buf (codes " WHERE ID=")
  strcat buf' max_id

unfoldable pub insert_query : Bytes → Bytes → Option Bytes
insert_query table value = do
  buf₁ ← strcat (codes "INSERT INTO ") table
  buf₂ ← strcat buf₁ (codes " (")
  buf₃ ← strcat buf₂ (codes "Zeitstempel")
  buf₄ ← strcat buf₃ (codes ", ")
  buf₅ ← strcat buf₄ (codes "Wert")
  buf₆ ← strcat buf₅ (codes ") VALUES (")
  buf₇ ← strcat buf₆ (codes "NOW()")
  buf₈ ← strcat buf₇ (codes ", ")
  buf₉ ← strcat buf₈ value
  strcat buf₉ (codes ");")

-- atoi: white space, a sign, digits; `none` if the number does not fit.
is_space : ℕ → Bool
is_space c = c == b' ' || (leb 9 c && leb c 13)

is_digit : ℕ → Bool
is_digit c = leb b'0' c && leb c b'9'

digits : Bytes → ℕ → ℕ
unfolding is_digit
digits [] n = n
digits (c ∷ s) n = elim (is_digit c) [ true ↦ digits s (n * 10 + (c - b'0')) | false ↦ n ]

signed : Bytes → ℤ
unfolding digits
signed [] = pos 0
signed (c ∷ s) =
    if c == b'-'
    then sub_ℕ 0 (digits s 0)
    else if c == b'+'
    then pos (digits s 0)
    else pos (digits (c ∷ s) 0)

trim : Bytes → Bytes
unfolding is_space
trim [] = []
trim (c ∷ s) = elim (is_space c) [ true ↦ trim s | false ↦ c ∷ s ]

unfoldable pub atoi : Bytes → Option ℤ
unfolding signed trim to_int
atoi s = to_int (signed (trim s))
