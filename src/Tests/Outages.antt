-- ===== src/Tests/Outages.antt =====
-- The decision thread on a server that has no database of its name.
use smart_window.Common.{
  ℕ, ◌≡◌, refl, true, false, none, some, Bytes, codes, List, [], ◌∷◌, ◌++◌, suc, arith,
}
use smart_window.Common.Outcome.{M, pure}
use smart_window.Controller.Reads.{unreported}
use smart_window.Controller.Machine.{initial}
use smart_window.Controller.Machine.Phase.{humidity, temperature, air_quality, all}
use smart_window.Controller.Round.{Controller, Effect, writes, sends, sleeps, start, decision_loop}
use smart_window.Controller.Round.Reached.{Reached}
use smart_window.Database.Access.{
  MySql, connect, check_error, find_latest, get_latest_value_bool, get_latest_value_int,
}
use smart_window.System.Outage.{IsNotOpening, Keeps, Runs, outage_rounds}
use smart_window.Tests.Queries.{numbers}

-- The number of sessions, and what has been done.
record World : Type 0 where
  sessions : ℕ
  done : List Effect

abbrev no_database : MySql World
no_database = record {
  mysql_init = pure tt;
  mysql_real_connect = λ w. some (true, record w { sessions = suc w.sessions });
  mysql_errno = pure 0;
  mysql_select_db = λ db. pure 1;
  mysql_real_query = λ text. pure tt;
  mysql_store_result = pure none;
  mysql_close = λ w. some (tt, record w { sessions = 0 });
}

-- A read that fails opens one more session.
abbrev one_more : Bytes → World → World
one_more table w = record w { sessions = suc w.sessions }

find_fails :
    (table : Bytes) (w : World)
    → find_latest no_database false (codes "SmartWindow") table w ≡ some (none, one_more table w)
unfolding find_latest connect check_error
find_fails table w = refl

abbrev note : Effect → M World (Unit {0})
note e w = some (tt, record w { done = w.done ++ e ∷ [] })

noting-Runs :
    Runs no_database numbers one_more find_fails
      (λ row. note (writes row))
      (λ text. note (sends text))
      (λ n. note (sleeps n))
      (λ w. w.done)
noting-Runs = record {
  read_keeps = λ table w. refl;
  write_returns = λ row w. (record w { done = w.done ++ writes row ∷ [] }, refl, refl);
  send_returns = λ text w. (record w { done = w.done ++ sends text ∷ [] }, refl, refl);
  sleep_returns = λ n w. (record w { done = w.done ++ sleeps n ∷ [] }, refl, refl);
}

start-IsNotOpening : IsNotOpening start
unfolding start initial
start-IsNotOpening humidity e = ground arith
start-IsNotOpening temperature e = ground arith
start-IsNotOpening air_quality e = ground arith
start-IsNotOpening all e = ground arith

outage_rounds_example :
    (c' : Controller) × (es : List Effect) × (w' : World) × (decision_loop
        (λ table.
          unreported (get_latest_value_bool no_database numbers (codes "SmartWindow") table))
        (λ table. unreported (get_latest_value_int no_database (codes "SmartWindow") table))
        (λ row. note (writes row))
        (λ text. note (sends text))
        (λ n. note (sleeps n))
        3
        start
        (record { sessions = 0; done = [] })
      ≡ some (c', w'))
    × (w'.done ≡ [] ++ es)
    × Keeps start c' es
outage_rounds_example =
    outage_rounds no_database numbers one_more find_fails (λ row. note (writes row))
      (λ text. note (sends text)) (λ n. note (sleeps n)) (λ w. w.done) 3 start
      (record { sessions = 0; done = [] }) noting-Runs Reached.first start-IsNotOpening
