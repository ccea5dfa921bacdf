-- ===== src/Controller/Reads/Deciding.antt =====
-- A round of `decisionLoop` on a database in which each table has a row (RaspberryPi/Window_Controller/main_controller.cpp,
-- lines 369 to 790, and write_read.cpp).
use smart_window.Common.{is_in, true, arith, ℕ, ◌≡◌, ◌∙◌, Bool, some, Bytes, codes, List}
use smart_window.Common.Int.{ℤ}
use smart_window.Common.Outcome.{M, pure, ◌>>◌, bind-some}
use smart_window.Controller.Readings.{Readings, read_readings}
use smart_window.Controller.Alarms.{Row}
use smart_window.Controller.Reads.{unreported, read_database, tables}
use smart_window.Controller.Reads.Latest.{HasIt}
use smart_window.Controller.Reads.Showing.{Shows, read_database-Shows}
use smart_window.Controller.Round.{Controller, Effect, round, perform, decision_round}
use smart_window.Controller.Round.Loop.{AreSound, round_total}
use smart_window.Database.Access.{MySql, Floats, get_latest_value_bool, get_latest_value_int}
use smart_window.Database.Server.{Connects}

-- The reads of the round.
module _ {W : Type 0} (lib : MySql W) (floats : Floats) where
  abbrev pub db_bool : Bytes → M W Bool
  db_bool table = unreported (get_latest_value_bool lib floats (codes "SmartWindow") table)

  abbrev pub db_int : Bytes → M W ℤ
  db_int table = unreported (get_latest_value_int lib (codes "SmartWindow") table)

module _ {W : Type 0} (lib : MySql W) (floats : Floats) (write : Row → M W (Unit {0}))
    (send : Bytes → M W (Unit {0})) (sleep : ℕ → M W (Unit {0})) where
  reads_then :
      (c c' : Controller) (r : Readings) (es : List Effect) (w w' : W)
      → read_readings (db_bool lib floats) (db_int lib floats) w ≡ some (r, w')
      → round r c ≡ some (c', es)
      → decision_round (db_bool lib floats) (db_int lib floats) write send sleep c w
        ≡ (perform (db_bool lib floats) (db_int lib floats) write send sleep es >> pure c') w'
  unfolding decision_round
  reads_then c c' r es w w' reads h =
      bind-some (read_readings (db_bool lib floats) (db_int lib floats)) _ w w' r reads
      ∙ ground arith

  module _ (sessions : W → ℕ) (content : W → Bytes → List Bytes)
      (works : Connects lib sessions content) (id_text : ℕ → Bytes) where
    -- Where the client library and the server work, and each of the 22 tables has a latest row,
    -- whose id has at most twenty digits and whose value can be read, with readings that cannot
    -- overflow: a round reads the latest value of each table, leaves the database as it was and no
    -- more sessions open, and goes on with the effects and the state of the abstract round on these
    -- readings.
    pub decision_round-Shows :
        (w : W) (c : Controller) (r : Readings)
        → ((table : Bytes) → is_in table tables ≡ true → HasIt lib sessions content id_text table)
        → Shows id_text floats (content w) r
        → AreSound r
        → (c' : Controller) × (es : List Effect) × (w' : W) × (round r c ≡ some (c', es))
          × (decision_round (db_bool lib floats) (db_int lib floats) write send sleep c w
              ≡ (perform (db_bool lib floats) (db_int lib floats) write send sleep es >> pure c')
                  w')
          × (sessions w' ≡ sessions w)
          × (content w' ≡ content w)
    unfolding read_database
    decision_round-Shows w c r has shows sound =
        let (c', es, e) = round_total r c sound in
        let (w', reads, s, k) =
          read_database-Shows lib floats sessions content works id_text w r has shows in
        (c', es, w', e, reads_then c c' r es w w' reads e, s, k)
