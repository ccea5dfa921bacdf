-- ===== src/Webserver.antt =====
-- The web server (Webserver/Webserver.py): its queries and the words of its pages. Every uncaught exception
-- makes Flask answer with an error; what the cursor has executed before stays executed.
pub mod Exec
pub mod Pages
pub mod Requests
pub mod Modes
pub mod Values
use smart_window.Common.{ℕ, Bool, if◌then◌else◌, Option, none, some, Bytes, codes, ◌++◌}
use smart_window.Webserver.Exec.{E, Result, ok, raised, pure, ◌>>=◌, ◌>>◌}

-- MySQLdb: the cursor and the connection. `fetchone` gives the first cell of a row, if there is one. A cell is
-- tested as a truth value, and compared with a number.
pub record Db (W : Type 0) : Type 1 where
  pub Cell : Type 0
  pub execute : Bytes → E W (Unit {0})
  pub fetchone : E W (Option Cell)
  pub commit : E W (Unit {0})
  pub truthy : Cell → Bool
  pub equals : Cell → ℕ → Bool

-- The texts of the queries.
abbrev pub select_text : Bytes → Bytes
select_text table =
    codes "SELECT Wert FROM "
    ++ (table ++ (codes " WHERE ID=(SELECT Max(ID) FROM " ++ (table ++ codes ")")))

-- Ins and Val
abbrev pub insert_text : Bytes → Bytes → Bytes
insert_text table value =
    codes "INSERT INTO "
    ++ (table ++ (codes "(Zeitstempel, Wert) VALUES (current_timestamp, " ++ (value ++ codes ")")))

-- `fetchone()[0]` and the use of a variable that was not set raise.
abbrev pub or_raise : {W A : Type 0} → Option A → E W A
or_raise none w = (raised, w)
or_raise (some a) w = (ok a, w)

module _ {W : Type 0} (db : Db W) where
  unfoldable pub latest : Bytes → E W db.Cell
  latest table = do db.execute (select_text table); row ← db.fetchone; or_raise row

  unfoldable pub insert : Bytes → Bytes → E W (Unit {0})
  insert table value = db.execute (insert_text table value)

  -- The word and the colour of an alarm state.
  unfoldable pub alarm_words : db.Cell → Option (Bytes × Bytes)
  alarm_words state =
      if db.equals state 2
      then some (codes "Alarm", codes "B22222")
      else if db.equals state 1
      then some (codes "Warning", codes "CD6839")
      else if db.equals state 0
      then some (codes "OK", codes "7CFC00")
      else none

  unfoldable pub priority_words : db.Cell → Option Bytes
  priority_words prio =
      if db.equals prio 3
      then some (codes "Air Quality, Temperature and Humidity")
      else if db.equals prio 2
      then some (codes "Air Quality")
      else if db.equals prio 1
      then some (codes "Temperature")
      else if db.equals prio 0
      then some (codes "Humidity")
      else none

  -- Which of the four priorities is selected on the page of the settings, from the first to the last.
  unfoldable pub selections : db.Cell → Option (Bytes × Bytes × Bytes × Bytes)
  selections prio =
      if db.equals prio 0
      then some (codes "selected", codes " ", codes " ", codes " ")
      else if db.equals prio 1
      then some (codes " ", codes "selected", codes " ", codes " ")
      else if db.equals prio 2
      then some (codes " ", codes " ", codes "selected", codes " ")
      else if db.equals prio 3
      then some (codes " ", codes " ", codes " ", codes "selected")
      else none
