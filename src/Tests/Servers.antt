-- ===== src/Tests/Servers.antt =====
-- Reading and writing (RaspberryPi/Window_Controller/write_read.cpp) on a server with one table.
use smart_window.Common.{
  ℕ, zero, suc, ◌+◌, ◌≡◌, refl, sym, ap, ◌∙◌, true, false, str_eq, if◌then◌else◌, Option, none,
  some, some_injective, Bytes, codes, List, [], ◌∷◌, ◌++◌, length, arith,
}
use smart_window.Common.Int.{pos, to_int}
use smart_window.Messages.{Pointer}
use smart_window.Database.Queries.{max_id_query, value_query, insert_query, strcat, atoi}
use smart_window.Database.Access.{
  MySql, Rows, write_in_db, get_latest_value_int, get_latest_value_bool, get_latest_value_double,
}
use smart_window.Database.Server.{Connects, HasTable, Takes, max_cell}
use smart_window.Database.Server.Reading.{reads_empty}
use smart_window.Database.Server.RoundTrip.{write_then_read, unselected_leaks}
use smart_window.Tests.Queries.{numbers}

record World : Type 0 where
  open_now : ℕ
  rows : List Bytes
  result : Option Rows
  error : ℕ

-- The ids below ten.
abbrev id_text : ℕ → Bytes
id_text n = (b'0' + n) ∷ []

abbrev temp : Bytes
temp = codes "Temp_IN"

one_less : ℕ → ℕ
one_less zero = zero
one_less (suc n) = n

abbrev head_cell : List Bytes → Pointer
head_cell [] = none
head_cell (v ∷ vs) = some v

-- The server knows the two queries of a read, and any other writes 22.
answer : Bytes → World → World
answer text w =
    if str_eq text (codes "SELECT MAX(id) AS id FROM Temp_IN")
    then record w { result = some ((max_cell id_text w.rows ∷ []) ∷ []); error = 0 }
    else if str_eq text (codes "INSERT INTO Temp_IN (Zeitstempel, Wert) VALUES (NOW(), 22);")
    then record w { rows = codes "22" ∷ w.rows; result = none; error = 0 }
    else record w { result = some ((head_cell w.rows ∷ []) ∷ []); error = 0 }

abbrev server : MySql World
server = record {
  mysql_init = λ w. some (tt, record w { error = 0 });
  mysql_real_connect = λ w. some (true, record w { open_now = suc w.open_now; error = 0 });
  mysql_errno = λ w. some (w.error, w);
  mysql_select_db = λ db w. some (0, record w { error = 0 });
  mysql_real_query = λ text w. some (tt, answer text w);
  mysql_store_result = λ w. some (w.result, w);
  mysql_close = λ w. some (tt, record w { open_now = one_less w.open_now });
}

abbrev sessions : World → ℕ
sessions w = w.open_now

abbrev column : World → List Bytes
column w = w.rows

server-Connects : Connects server sessions column
unfolding one_less
server-Connects = record {
  inits = λ w. (_, refl, refl, refl, refl);
  connects = λ w. (_, refl, refl, refl, refl);
  closes = λ w n e. (_, refl, ground arith, refl);
}

max_text : max_id_query temp ≡ some (codes "SELECT MAX(id) AS id FROM Temp_IN")
unfolding max_id_query strcat
max_text = refl

value_text :
    (n : ℕ)
    → value_query temp (id_text n) ≡ some (codes "SELECT Wert FROM Temp_IN WHERE ID=" ++ id_text n)
unfolding value_query strcat
value_text n = refl

write_text :
    insert_query temp (codes "22")
    ≡ some (codes "INSERT INTO Temp_IN (Zeitstempel, Wert) VALUES (NOW(), 22);")
unfolding insert_query strcat
write_text = refl

answer_id :
    (w : World) (text : Bytes)
    → max_id_query temp ≡ some text
    → answer text w ≡ record w { result = some ((max_cell id_text w.rows ∷ []) ∷ []); error = 0 }
unfolding answer
answer_id w text e = rw (← (some_injective (sym max_text ∙ e))) refl

answer_value :
    (w : World) (text v : Bytes) (vs : List Bytes)
    → w.rows ≡ v ∷ vs
    → value_query temp (id_text (length (v ∷ vs))) ≡ some text
    → answer text w ≡ record w { result = some ((some v ∷ []) ∷ []); error = 0 }
unfolding answer
answer_value w text v vs e q =
    rw (← (some_injective (sym (value_text (length (v ∷ vs))) ∙ q)))
      (ap (λ x. record w { result = some ((head_cell x ∷ []) ∷ []); error = 0 }) e)

answer_write :
    (w : World) (text : Bytes)
    → insert_query temp (codes "22") ≡ some text
    → answer text w ≡ record w { rows = codes "22" ∷ w.rows; result = none; error = 0 }
unfolding answer
answer_write w text e = rw (← (some_injective (sym write_text ∙ e))) refl

server-HasTable : HasTable server sessions column (λ x. x) id_text (codes "SmartWindow") temp
server-HasTable = record {
  selects = λ w. (_, refl, refl, refl);
  finds_id =
      λ w text e. (_, _, ap (λ x. some (tt, x)) (answer_id w text e), refl, refl, refl, refl);
  finds_value = λ w text v vs e q.
      (_, _, ap (λ x. some (tt, x)) (answer_value w text v vs e q), refl, refl, refl, refl);
}

server-Takes : Takes server sessions column temp (codes "22") (codes "22")
server-Takes = record {
  inserts = λ w text e. (_, ap (λ x. some (tt, x)) (answer_write w text e), refl, refl, refl);
}

atoi_22 : atoi (codes "22") ≡ some (pos 22)
unfolding atoi to_int
atoi_22 = refl

abbrev empty : World
empty = record { open_now = 0; rows = []; result = none; error = 0 }

write_then_read_example :
    (w₁ : World) × (w₂ : World) × (write_in_db server (codes "SmartWindow") temp (codes "22") empty
      ≡ some (true, w₁))
    × (get_latest_value_int server (codes "SmartWindow") temp w₁ ≡ some ((pos 22, true), w₂))
    × (sessions w₂ ≡ sessions empty)
write_then_read_example =
    write_then_read server sessions column server-Connects id_text (codes "SmartWindow") temp
      (codes "22") (codes "22") empty (pos 22) server-HasTable server-Takes (omega arith)
      (omega arith) (omega arith) atoi_22

reads_empty_example :
    (get_latest_value_int server (codes "SmartWindow") temp empty ≡ none)
    × (get_latest_value_bool server numbers (codes "SmartWindow") temp empty ≡ none)
    × (get_latest_value_double server numbers (codes "SmartWindow") temp empty ≡ none)
reads_empty_example =
    reads_empty server sessions column server-Connects (λ x. x) id_text (codes "SmartWindow") temp
      server-HasTable (omega arith) numbers empty refl

-- The server without the database: a selection fails, and then the error is that the database is not known.
abbrev absent : MySql World
absent = record server { mysql_select_db = λ db w. some (1, record w { error = 1049 }) }

absent-Connects : Connects absent sessions column
unfolding one_less
absent-Connects = record {
  inits = λ w. (_, refl, refl, refl, refl);
  connects = λ w. (_, refl, refl, refl, refl);
  closes = λ w n e. (_, refl, ground arith, refl);
}

unselected_leaks_example :
    (w' : World) × (get_latest_value_int absent (codes "SmartWindow") temp empty
      ≡ some ((pos 0, false), w'))
    × (sessions w' ≡ suc (sessions empty))
unselected_leaks_example =
    unselected_leaks absent sessions column absent-Connects (codes "SmartWindow") temp empty
      (λ u. (0, _, refl, refl))
