-- ===== src/Database/Server.antt =====
-- What the code relies on of the MySQL client library and the server behind it.
pub mod Reading
pub mod RoundTrip
use smart_window.Common.{
  ℕ, zero, suc, ◌+◌, ◌≤◌, ◌<◌, ◌≡◌, ◌≢◌, Bool, true, false, Option, none, some, Bytes, List, [],
  ◌∷◌, length,
}
use smart_window.Messages.{Pointer}
use smart_window.Database.Queries.{max_id_query, value_query, insert_query}
use smart_window.Database.Access.{MySql}

-- The last call was without an error.
abbrev pub IsFine : {W : Type 0} → MySql W → W → Type 0
IsFine lib w = lib.mysql_errno w ≡ some (0, w)

-- A client that can connect: `sessions` counts the sessions that are open, `column` gives what is
-- stored, as the values of a table, the latest first. After a call that succeeds no error is reported; of what
-- is reported after one that fails nothing is said.
pub record Connects {W : Type 0} (lib : MySql W) (sessions : W → ℕ) {C : Type 0} (column : W → C)
    : Type 0 where
  pub inits :
      (w : W)
      → (w' : W) × (lib.mysql_init w ≡ some (tt, w'))
        × IsFine lib w'
        × (sessions w' ≡ sessions w)
        × (column w' ≡ column w)
  pub connects :
      (w : W)
      → (w' : W) × (lib.mysql_real_connect w ≡ some (true, w'))
        × IsFine lib w'
        × (sessions w' ≡ suc (sessions w))
        × (column w' ≡ column w)
  pub closes :
      (w : W) (n : ℕ)
      → sessions w ≡ suc n
      → (w' : W) × (lib.mysql_close w ≡ some (tt, w')) × (sessions w' ≡ n) × (column w' ≡ column w)

-- The cell with the highest id: a null pointer if the table has no row.
abbrev pub max_cell : (ℕ → Bytes) → List Bytes → Pointer
max_cell id_text [] = none
max_cell id_text (v ∷ vs) = some (id_text (length (v ∷ vs)))

-- The database has the table, whose rows are numbered from one; `id_text` prints an id, and `rows` are
-- the values of the table among all that is kept.
pub record HasTable {W : Type 0} (lib : MySql W) (sessions : W → ℕ) {C : Type 0} (column : W → C)
    (rows : C → List Bytes) (id_text : ℕ → Bytes) (db table : Bytes) : Type 0 where
  pub selects :
      (w : W)
      → (w' : W) × (lib.mysql_select_db db w ≡ some (0, w'))
        × (sessions w' ≡ sessions w)
        × (column w' ≡ column w)
  pub finds_id :
      (w : W) (text : Bytes)
      → max_id_query table ≡ some text
      → (w' : W) × (w'' : W) × (lib.mysql_real_query text w ≡ some (tt, w'))
        × (lib.mysql_store_result w'
            ≡ some (some ((max_cell id_text (rows (column w)) ∷ []) ∷ []), w''))
        × IsFine lib w''
        × (sessions w'' ≡ sessions w)
        × (column w'' ≡ column w)
  pub finds_value :
      (w : W) (text v : Bytes) (vs : List Bytes)
      → rows (column w) ≡ v ∷ vs
      → value_query table (id_text (length (v ∷ vs))) ≡ some text
      → (w' : W) × (w'' : W) × (lib.mysql_real_query text w ≡ some (tt, w'))
        × (lib.mysql_store_result w' ≡ some (some ((some v ∷ []) ∷ []), w''))
        × IsFine lib w''
        × (sessions w'' ≡ sessions w)
        × (column w'' ≡ column w)

-- The table takes the value, and then shows it as `shown`.
pub record Takes {W : Type 0} (lib : MySql W) (sessions : W → ℕ) (column : W → List Bytes)
    (table value shown : Bytes) : Type 0 where
  pub inserts :
      (w : W) (text : Bytes)
      → insert_query table value ≡ some text
      → (w' : W) × (lib.mysql_real_query text w ≡ some (tt, w'))
        × IsFine lib w'
        × (sessions w' ≡ sessions w)
        × (column w' ≡ shown ∷ column w)
