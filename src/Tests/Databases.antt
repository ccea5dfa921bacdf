-- ===== src/Tests/Databases.antt =====
-- A round of `decisionLoop` (RaspberryPi/Window_Controller/main_controller.cpp) on a server with all tables.
use smart_window.Common.{
  ℕ, zero, suc, ◌+◌, ◌<◌, ◌≡◌, refl, sym, ap, ◌∙◌, true, false, not, str_eq, is_in, ltb, ◌==◌,
  if◌then◌else◌, Option, none, some, some_injective, Bytes, codes, List, [], ◌∷◌, ◌++◌,
  append_assoc, length, arith,
}
use smart_window.Common.Int.{pos, to_int}
use smart_window.Common.Outcome.{pure, ◌>>◌}
use smart_window.Messages.{Pointer}
use smart_window.Controller.Readings.{Readings}
use smart_window.Controller.Reads.{tables}
use smart_window.Controller.Reads.Latest.{IsLatest, HasIt}
use smart_window.Controller.Reads.Showing.{Shows}
use smart_window.Controller.Reads.Deciding.{db_bool, db_int, decision_round-Shows}
use smart_window.Controller.Round.{Controller, Effect, start, round, perform, decision_round}
use smart_window.Controller.Round.Loop.{AreSound}
use smart_window.Database.Queries.{max_id_query, value_query, atoi}
use smart_window.Database.Access.{MySql, Rows, Floats}
use smart_window.Database.Server.{Connects, max_cell}
use smart_window.Database.Server.Reading.{max_id_query-fits, value_query-fits}
use smart_window.Tests.Cursor.{number_from, strip, up_to}
use smart_window.Tests.Rows.{lacks, passes, up_to-append}

pub record World : Type 0 where
  pub open_now : ℕ
  pub stored : Bytes → List Bytes
  pub result : Option Rows

-- The ids below ten.
abbrev pub id_text : ℕ → Bytes
id_text n = (b'0' + n) ∷ []

abbrev one_less : ℕ → ℕ
one_less zero = zero
one_less (suc n) = n

abbrev head_cell : List Bytes → Pointer
head_cell [] = none
head_cell (v ∷ vs) = some v

abbrev cell_of : World → Pointer → World
cell_of w p = record w { result = some ((p ∷ []) ∷ []) }

-- The two queries of a read.
abbrev answer : Option Bytes → Option Bytes → World → World
answer (some table) _ w = cell_of w (max_cell id_text (w.stored table))
answer none (some text) w = cell_of w (head_cell (w.stored (up_to b' ' text)))
answer none none w = w

abbrev server : MySql World
server = record {
  mysql_init = pure tt;
  mysql_real_connect = λ w. some (true, record w { open_now = suc w.open_now });
  mysql_errno = pure 0;
  mysql_select_db = λ db. pure 0;
  mysql_real_query = λ text w. some (
    tt,
    answer (strip (codes "SELECT MAX(id) AS id FROM ") text)
        (strip (codes "SELECT Wert FROM ") text) w,
  );
  mysql_store_result = λ w. some (w.result, w);
  mysql_close = λ w. some (tt, record w { open_now = one_less w.open_now });
}

abbrev sessions : World → ℕ
sessions w = w.open_now

abbrev pub content : World → Bytes → List Bytes
content w = w.stored

server-Connects : Connects server sessions content
server-Connects = record {
  inits = λ w. (w, refl, refl, refl, refl);
  connects = λ w. (_, refl, refl, refl, refl);
  closes = λ w n e. (_, refl, ap one_less e, refl);
}

abbrev ask_id : Bytes → World → World
ask_id text w =
    answer (strip (codes "SELECT MAX(id) AS id FROM ") text)
      (strip (codes "SELECT Wert FROM ") text) w

answers_id :
    (table text : Bytes) (w : World)
    → length table < 200
    → max_id_query table ≡ some text
    → ask_id text w ≡ cell_of w (max_cell id_text (w.stored table))
answers_id table text w short q =
    ap (λ t. ask_id t w) (some_injective (sym q ∙ max_id_query-fits table short))

answers_value :
    (table text : Bytes) (n : ℕ) (w : World)
    → lacks b' ' table ≡ true
    → length table < 200
    → value_query table (id_text n) ≡ some text
    → ask_id text w ≡ cell_of w (head_cell (w.stored table))
answers_value table text n w plain short q =
    ap (λ t. ask_id t w)
      (some_injective (sym q ∙ value_query-fits table (id_text n) short (omega arith)))
    ∙ ap (λ t. cell_of w (head_cell (w.stored t)))
        (ap (up_to b' ') (append_assoc table (codes " WHERE ID=") (id_text n))
          ∙ up_to-append b' ' table (codes "WHERE ID=" ++ id_text n) plain)

abbrev pub doubles : Floats
doubles = record {
  Double = ℕ;
  zero_double = 0;
  atof = number_from 0;
  is_nonzero = λ n. not (n == 0);
}

short-length : (t : Bytes) → ltb (length t) 200 ≡ true → length t < 200
short-length t h = ground arith

abbrev HasTables : Bytes → Type 0
HasTables table = HasIt server sessions content id_text table

has_table : (table : Bytes) → is_in table tables ≡ true → HasTables table
has_table table i =
    let plain = passes (lacks b' ') table tables refl i in
    let short = short-length table (passes (λ t. ltb (length t) 200) table tables refl i) in
    (
      record {
        selects = λ w. (w, refl, refl, refl);
        finds_id = λ w text q. (
          _,
          _,
          ap (λ x. some (tt, x)) (answers_id table text w short q),
          refl,
          refl,
          refl,
          refl,
        );
        finds_value = λ w text v vs e q. (
          _,
          _,
          ap (λ x. some (tt, x))
              (answers_value table text _ w plain short q ∙ ap (λ x. cell_of w (head_cell x)) e),
          refl,
          refl,
          refl,
          refl,
        );
      },
      short,
    )

-- The values of the tables, in the order of the reads.
abbrev pub value_of : List Bytes → List Bytes → Bytes → Bytes
value_of (t ∷ ts) (v ∷ vs) table = if str_eq table t then v else value_of ts vs table
value_of _ _ table = []

abbrev pub values : List Bytes
values =
    codes "0"
    ∷ codes "0"
    ∷ codes "1"
    ∷ codes "0"
    ∷ codes "1013"
    ∷ codes "1013"
    ∷ codes "1100"
    ∷ codes "40"
    ∷ codes "10"
    ∷ codes "30"
    ∷ codes "70"
    ∷ codes "50"
    ∷ codes "30"
    ∷ codes "65"
    ∷ codes "28"
    ∷ codes "4"
    ∷ codes "20"
    ∷ codes "26"
    ∷ codes "30"
    ∷ codes "40"
    ∷ codes "60"
    ∷ codes "3"
    ∷ []

abbrev pub full_tables : World
full_tables = record { open_now = 0; stored = λ t. value_of tables values t ∷ []; result = none }

abbrev pub shown : Readings
shown = record {
  auto_mode = false;
  man_close = false;
  man_open = true;
  win_open = false;
  air_p_in = pos 1013;
  air_p_out = pos 1013;
  air_p_max = pos 1100;
  air_q_in = pos 40;
  air_q_out = pos 10;
  air_q_max = pos 30;
  humid_in = pos 70;
  humid_out = pos 50;
  humid_min = pos 30;
  humid_max = pos 65;
  temp_in = pos 28;
  temp_out = pos 4;
  temp_min = pos 20;
  temp_max = pos 26;
  vol_in = pos 30;
  vol_out = pos 40;
  vol_max = pos 60;
  priority = pos 3;
}

pub only : (v : Bytes) → IsLatest id_text (v ∷ []) v
only v = record { earlier = []; rows_are = refl; id_fits = omega arith }

pub full_tables-Shows : Shows id_text doubles (content full_tables) shown
unfolding atoi to_int
full_tables-Shows = record {
  auto_mode = (codes "0", only (codes "0"), refl);
  man_close = (codes "0", only (codes "0"), refl);
  man_open = (codes "1", only (codes "1"), refl);
  win_open = (codes "0", only (codes "0"), refl);
  air_p_in = (codes "1013", only (codes "1013"), refl);
  air_p_out = (codes "1013", only (codes "1013"), refl);
  air_p_max = (codes "1100", only (codes "1100"), refl);
  air_q_in = (codes "40", only (codes "40"), refl);
  air_q_out = (codes "10", only (codes "10"), refl);
  air_q_max = (codes "30", only (codes "30"), refl);
  humid_in = (codes "70", only (codes "70"), refl);
  humid_out = (codes "50", only (codes "50"), refl);
  humid_min = (codes "30", only (codes "30"), refl);
  humid_max = (codes "65", only (codes "65"), refl);
  temp_in = (codes "28", only (codes "28"), refl);
  temp_out = (codes "4", only (codes "4"), refl);
  temp_min = (codes "20", only (codes "20"), refl);
  temp_max = (codes "26", only (codes "26"), refl);
  vol_in = (codes "30", only (codes "30"), refl);
  vol_out = (codes "40", only (codes "40"), refl);
  vol_max = (codes "60", only (codes "60"), refl);
  priority = (codes "3", only (codes "3"), refl);
}

pub shown-AreSound : AreSound shown
shown-AreSound = record { moderate = omega arith; humid = omega arith; temp = omega arith }

decision_round-Shows_example :
    (c' : Controller) × (es : List Effect) × (w' : World) × (round shown start ≡ some (c', es))
    × (decision_round
          (db_bool server doubles)
          (db_int server doubles)
          (λ row. pure tt)
          (λ text. pure tt)
          (λ n. pure tt)
          start
          full_tables
        ≡ (perform
                (db_bool server doubles)
                (db_int server doubles)
                (λ row. pure tt)
                (λ text. pure tt)
                (λ n. pure tt)
                es
              >> pure c')
            w')
    × (sessions w' ≡ sessions full_tables)
    × (content w' ≡ content full_tables)
decision_round-Shows_example =
    decision_round-Shows server doubles (λ row. pure tt) (λ text. pure tt) (λ n. pure tt) sessions
      content server-Connects id_text full_tables start shown has_table full_tables-Shows
      shown-AreSound
