-- ===== src/Database/Access.antt =====
-- Reading and writing (RaspberryPi/Window_Controller/write_read.cpp, lines 29 to 341). Messages that are
-- printed are left out.
use smart_window.Common.{
  ℕ, Bool, true, false, not, ◌&&◌, ◌==◌, if◌then◌else◌, Option, none, some, Bytes, List, [], ◌∷◌,
}
use smart_window.Common.Int.{ℤ, pos}
use smart_window.Common.Outcome.{M, pure, undefined, ◌>>=◌, ◌>>◌}
use smart_window.Messages.{Pointer}
use smart_window.Database.Queries.{max_id_query, value_query, insert_query, atoi}

-- A result: its rows, and the cells of each.
abbrev pub Rows : Type 0
Rows = List (List Pointer)

-- The client library on one handle; `W` is all that it reads and changes, the server's tables included.
-- `mysql_real_connect` tells whether it connected, `mysql_store_result` gives no rows on an error.
pub record MySql (W : Type 0) : Type 0 where
  pub mysql_init : M W (Unit {0})
  pub mysql_real_connect : M W Bool
  pub mysql_errno : M W ℕ
  pub mysql_select_db : Bytes → M W ℕ
  pub mysql_real_query : Bytes → M W (Unit {0})
  pub mysql_store_result : M W (Option Rows)
  pub mysql_close : M W (Unit {0})

-- `double` with the conversions that the code uses.
pub record Floats : Type 1 where
  pub Double : Type 0
  pub zero_double : Double
  pub atof : Bytes → Double
  pub is_nonzero : Double → Bool

-- The two loops over the rows and cells of a result: the last cell, or none, where the variable keeps
-- no value.
unfoldable pub last_of : List Pointer → Option Pointer → Option Pointer
last_of [] kept = kept
last_of (cell ∷ cells) kept = last_of cells (some cell)

unfoldable pub last_cell : Rows → Option Pointer → Option Pointer
unfolding last_of
last_cell [] kept = kept
last_cell (row ∷ rows) kept = last_cell rows (last_of row kept)

-- A value that has to be there: otherwise the program reads a null or an uninitialised pointer.
abbrev pub need : {W A : Type 0} → Option A → M W A
need none = undefined
need (some a) = pure a

module _ {W : Type 0} (lib : MySql W) where
  open lib use {
    mysql_init, mysql_real_connect, mysql_errno, mysql_select_db, mysql_real_query,
    mysql_store_result, mysql_close,
  }

  unfoldable pub check_error : M W Bool
  check_error = do code ← mysql_errno; pure (not (code == 0))

  -- A connection that fails is reported and then used all the same.
  unfoldable pub connect : M W (Unit {0})
  connect = do mysql_init; error ← check_error; connected ← mysql_real_connect; pure tt

  unfoldable pub close_session : M W (Unit {0})
  close_session = mysql_close

  -- A query, and the last cell of its result; nothing if an error is seen and `checked`.
  unfoldable pub ask : Bool → Bytes → M W (Option Pointer)
  unfolding last_cell
  ask checked text = do
    mysql_real_query text
    result ← mysql_store_result
    error ← check_error
    if error && checked
        then pure none
        else (do rows ← need result; cell ← need (last_cell rows none); pure (some cell))

  -- What the three reading functions share: the value of the row with the highest id, or nothing if an
  -- error is seen. Such a return leaves the session open. `double` tells whether the error of connecting
  -- is looked at, and that of the second query is not.
  unfoldable pub find_latest : Bool → Bytes → Bytes → M W (Option Bytes)
  unfolding ask
  find_latest double db table = do
    connect
    error ← check_error
    if error && double then pure none else (do
      selected ← mysql_select_db db
      if not (selected == 0) then pure none else (do
        first ← need (max_id_query table)
        found ← ask true first
        elim found [
          | none ↦ pure none
          | some cell ↦ do
            max_id ← need cell
            second ← need (value_query table max_id)
            found' ← ask (not double) second
            elim found' [
              | none ↦ pure none
              | some cell' ↦ do close_session; value ← need cell'; pure (some value)
            ]
        ]))

  -- The value and `*succeeded`.
  unfoldable pub get_latest_value_int : Bytes → Bytes → M W (ℤ × Bool)
  get_latest_value_int db table = do
    found ← find_latest false db table
    elim found [
      | none ↦ pure (pos 0, false)
      | some value ↦ do v ← need (atoi value); pure (v, true)
    ]

  unfoldable pub write_in_db : Bytes → Bytes → Bytes → M W Bool
  write_in_db db table value = do
    connect
    error ← check_error
    selected ← mysql_select_db db
    if not (selected == 0) then pure false else (do
      text ← need (insert_query table value)
      mysql_real_query text
      error' ← check_error
      close_session
      pure (not error'))

  module _ (floats : Floats) where
    open floats use {Double, zero_double, atof, is_nonzero}

    unfoldable pub get_latest_value_bool : Bytes → Bytes → M W (Bool × Bool)
    get_latest_value_bool db table = do
      found ← find_latest false db table
      elim found [ none ↦ pure (false, false) | some value ↦ pure (is_nonzero (atof value), true) ]

    unfoldable pub get_latest_value_double : Bytes → Bytes → M W (Double × Bool)
    get_latest_value_double db table = do
      found ← find_latest true db table
      elim found [ none ↦ pure (zero_double, false) | some value ↦ pure (atof value, true) ]
