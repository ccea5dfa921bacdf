-- ===== src/Tests/Queries.antt =====
-- The database access of the controller (RaspberryPi/Window_Controller/write_read.cpp).
use smart_window.Common.{
  ℕ, ◌≡◌, ◌+◌, refl, true, false, ltb, if◌then◌else◌, none, some, codes, length,
}
use smart_window.Common.Int.{pos}
use smart_window.Common.Outcome.{pure}
use smart_window.Database.Queries.{insert_query}
use smart_window.Database.Fits.{insert_text, insert_query_fits}
use smart_window.Database.Access.{
  MySql, Floats, check_error, connect, find_latest, get_latest_value_int, get_latest_value_bool,
}

-- A server without the database. The world counts the sessions that are open.
abbrev pub no_database : MySql ℕ
no_database = record {
  mysql_init = pure tt;
  mysql_real_connect = λ n. some (true, n + 1);
  mysql_errno = pure 0;
  mysql_select_db = λ db. pure 1;
  mysql_real_query = λ text. pure tt;
  mysql_store_result = pure none;
  mysql_close = λ n. some (tt, 0);
}

-- Numbers in place of floats.
abbrev pub numbers : Floats
numbers = record { Double = ℕ; zero_double = 0; atof = λ s. length s; is_nonzero = λ n. ltb 0 n }

-- The read fails, and leaves a session open.
read_int :
    get_latest_value_int no_database (codes "sw") (codes "Temp_IN") 0 ≡ some ((pos 0, false), 1)
unfolding get_latest_value_int find_latest connect check_error
read_int = refl

read_bool :
    get_latest_value_bool no_database numbers (codes "sw") (codes "Win_Open") 0
    ≡ some ((false, false), 1)
unfolding get_latest_value_bool find_latest connect check_error
read_bool = refl

insert_query_fits_example : insert_query (codes "Temp_IN") (codes "22.5") ≡ (
    if ltb (length (codes "Temp_IN") + length (codes "22.5")) 205
    then some (insert_text (codes "Temp_IN") (codes "22.5"))
    else none)
insert_query_fits_example = insert_query_fits (codes "Temp_IN") (codes "22.5")
