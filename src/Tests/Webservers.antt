-- ===== src/Tests/Webservers.antt =====
-- The web server (Webserver/Webserver.py).
use smart_window.Common.{
  ◌≡◌, ◌≢◌, refl, ◌||◌, true, false, Option, none, some, some_injective, Bytes, codes, List, [],
  ◌∷◌, str_eq, arith, if◌then◌else◌,
}
use mathlib.Core.Path.{subst}
use smart_window.Controller.Machine.Phase.{encode, at, all, waiting, opening}
use smart_window.Controller.Round.Reached.{first, after}
use smart_window.Node.Main.{start_measurement}
use smart_window.Webserver.{latest, insert}
use smart_window.Webserver.Exec.{◌>>=◌, ok, raised}
use smart_window.Webserver.{alarm_words, priority_words}
use smart_window.Webserver.Pages.{main_page, current_values, describe}
use smart_window.Controller.Alarms.{state_rows}
use smart_window.Webserver.Requests.{
  press_auto, press_manu, home_page, press_window, Limits, Request, respond, limits, home,
}
use smart_window.Webserver.Modes.{
  Control, auto_modus, man_open, man_close, name, get, IsNumber, answers,
}
use smart_window.Webserver.Modes.Safety.{AreConsistent}
use smart_window.Webserver.Modes.Sequences.{answers-AreConsistent}
use smart_window.System.Leftover.{leftover}
use smart_window.Webserver.Values.Words.{showable, Ends}
use smart_window.Webserver.Values.Shown.{current, IsPageOf, main_page-Ends}
use smart_window.Webserver.Values.Settings.{
  SentAs, by_form, AreTaken, AreSet, IsPriority, settings_of,
}
use smart_window.Webserver.Values.Submitting.{respond-AreSet}
use smart_window.System.{System, beginning, texts, Step, Steps}
use smart_window.System.Button.{button_opens}
use smart_window.System.Sharing.{Agree}
use smart_window.Controller.Reads.Latest.{Says}
use smart_window.Tests.Databases.{
  id_text, doubles, content, full_tables, shown, only, full_tables-Shows, shown-AreSound,
}
use smart_window.System.Quarrel.{opens, quarrel}
use smart_window.Tests.Alarms.{room}
use smart_window.Tests.Cursor.{World, example_db, example_views, example_db-Serves, set}
use smart_window.Tests.Rows.{example_db-Rows}
use smart_window.Tests.Nodes.{always, gives, printing, fresh, fresh-Prints}
use smart_window.Tests.Rounds.{
  room_shut, resting_effects, begun, shut, shuts, starts_again, starts_later, room_both, room_open,
  opening_effects,
}
use smart_window.Tests.Systems.{truth, room-AreSound, room_open-AreSound}

-- All tables hold zero.
abbrev fresh_world : World
fresh_world = record {
  seen = λ t. 0;
  known = λ t. 0;
  dirty = λ t. false;
  full = λ t. false;
  row = none;
}

abbrev pause : World → World
pause w = record w { full = λ t. false }

-- The fields of the form of the settings.
abbrev form : Bytes → Option Bytes
form field =
    if str_eq field (codes "MinTemp")
    then some (codes "19")
    else if str_eq field (codes "MaxTemp")
    then some (codes "25")
    else if str_eq field (codes "MinHum")
    then some (codes "35")
    else if str_eq field (codes "MaxHum")
    then some (codes "60")
    else if str_eq field (codes "MaxCO2")
    then some (codes "2")
    else if str_eq field (codes "MaxWind")
    then some (codes "30")
    else if str_eq field (codes "MaxNoise")
    then some (codes "55")
    else if str_eq field (codes "Priority")
    then some (codes "1")
    else none

abbrev of_form : Limits
of_form = record {
  min_temp = codes "19";
  max_temp = codes "25";
  min_hum = codes "35";
  max_hum = codes "60";
  max_qual = codes "2";
  max_wind = codes "30";
  max_sound = codes "55";
  prio = codes "1";
}

form-SentAs : SentAs form of_form
form-SentAs = record {
  min_temp = refl;
  max_temp = refl;
  min_hum = refl;
  max_hum = refl;
  max_qual = refl;
  max_wind = refl;
  max_sound = refl;
  prio = refl;
}

form-AreTaken : AreTaken example_db-Rows.takes of_form
form-AreTaken = record {
  min_temp = refl;
  max_temp = refl;
  min_hum = refl;
  max_hum = refl;
  max_qual = refl;
  max_wind = refl;
  max_sound = refl;
  prio = refl;
  limit_change = refl;
}

temperature-IsPriority : IsPriority (example_db false) 1 1
temperature-IsPriority = record { known = omega arith; equal = λ k. refl }

respond-AreSet_example :
    ((respond (example_db false) (Request.submit form) fresh_world).0
      ≡ ok (limits (settings_of example_db-Rows.cell of_form 1)))
    × AreSet example_db-Rows.cell
        (example_db-Rows.committed (respond (example_db false) (Request.submit form) fresh_world).1)
        of_form
respond-AreSet_example =
    respond-AreSet (example_db false) example_db-Rows (Request.submit form) of_form 1 fresh_world
      (by_form form of_form form-SentAs) form-AreTaken temperature-IsPriority (λ t. refl)

-- Every table holds one: automatic mode, an open window, and warnings.
abbrev ones : World
ones = record fresh_world { known = λ t. 1 }

main_page-Ends_example :
    Ends
      (showable (example_db false) (current (example_db false) example_db-Rows ones))
      (λ p.
        (h : _) × (p ≡ home h)
        × IsPageOf (example_db false) (current (example_db false) example_db-Rows ones) h)
      (respond (example_db false) Request.main ones).0
main_page-Ends_example = main_page-Ends (example_db false) example_db-Rows ones

ones-showable : showable (example_db false) (current (example_db false) example_db-Rows ones) ≡ true
ones-showable = refl

three-IsNumber : (value : Bytes) → some (codes "3") ≡ some value → IsNumber value
three-IsNumber value e = subst IsNumber (some_injective e) (search (arith) depth 20)

abbrev requests : List Request
requests =
    Request.manu
    ∷ Request.open_it
    ∷ Request.submit (λ field. some (codes "3"))
    ∷ Request.close_it
    ∷ Request.auto
    ∷ Request.open_it
    ∷ []

answers-AreConsistent_example :
    AreConsistent (example_views (answers (example_db true) pause requests fresh_world))
answers-AreConsistent_example =
    answers-AreConsistent (example_db true) example_views example_db-Serves pause (λ w k. refl)
      (λ w. refl) requests fresh_world (tt, (tt, ((λ field. three-IsNumber), (tt, (tt, (tt, tt))))))
      (record {
        seen = record { exclusive = refl; idle = refl };
        committed = record { exclusive = refl; idle = refl };
      })

-- OPEN was pressed in this second.
abbrev just_opened : World
just_opened = record fresh_world {
  seen = set (codes "ManOpen") 1 (λ t. 0);
  known = set (codes "ManOpen") 1 (λ t. 0);
  full = λ t. str_eq t (codes "ManOpen") || str_eq t (codes "ManClose");
}

-- Some time after AUTOMATIC.
abbrev later : World
later = pause (respond (example_db true) Request.auto just_opened).1

room-Agree : Agree room (example_views (respond (example_db true) Request.manu later).1).committed
unfolding respond press_auto press_manu home_page main_page current_values describe latest insert
    ◌>>=◌ alarm_words priority_words
room-Agree = record { auto = refl; open_asked = refl; close_asked = refl }

leftover_example :
    ((respond (example_db true) Request.auto just_opened).0 ≡ raised)
    × (begun.flags ≡ encode (at all opening))
unfolding insert
leftover_example =
    leftover (example_db true) example_views example_db-Serves just_opened later room shut begun
      opening_effects all refl refl refl refl refl room-Agree refl (after _ _ first shuts)
      starts_later refl

-- CLOSE was pressed, and its second row is of this second.
abbrev just_closed : World
just_closed = record fresh_world {
  seen = set (codes "ManClose") 1 (λ t. 0);
  known = set (codes "ManClose") 1 (λ t. 0);
  full = λ t. str_eq t (codes "ManClose");
}

both-Agree :
    Agree room_both
      (example_views
        (respond
          (example_db true)
          Request.main
          (respond (example_db true) Request.open_it just_closed).1).1).committed
unfolding respond press_window home_page main_page current_values describe latest insert ◌>>=◌
    alarm_words priority_words
both-Agree = record { auto = refl; open_asked = refl; close_asked = refl }

quarrel_example : begun.flags ≡ encode (at all opening)
unfolding latest insert ◌>>=◌
quarrel_example =
    quarrel (example_db true) example_views example_db-Serves just_closed room_both shut begun
      opening_effects all waiting opening false refl refl refl refl both-Agree refl refl opens
      (after _ _ first shuts) starts_again refl

-- The controller waits after the first round.
abbrev waits : System
waits = record (beginning start_measurement false) { controller = shut }

waits_holds :
    (k : Control)
    → Says id_text
        (content full_tables (name k))
        (λ v b. doubles.is_nonzero (doubles.atof v) ≡ b)
        (get k (example_views (respond (example_db true) Request.open_it fresh_world).1).committed)
unfolding respond press_window home_page main_page current_values describe latest insert ◌>>=◌
    alarm_words priority_words
waits_holds auto_modus = (codes "0", only (codes "0"), refl)
waits_holds man_open = (codes "1", only (codes "1"), refl)
waits_holds man_close = (codes "0", only (codes "0"), refl)

waits_step : Step truth always printing 70 (beginning start_measurement false) waits
unfolding beginning texts state_rows
waits_step = Step.decides room_shut shut (resting_effects room_shut) refl shuts refl

button_opens_example :
    (s' : System) × Steps truth always printing 70 waits s'
    × (s'.win_open ≡ true)
    × (s'.node.main.open_next ≡ false)
    × (s'.controller.flags ≢ encode (at all opening))
unfolding beginning
button_opens_example =
    button_opens truth always printing 70 gives refl refl (omega arith) (example_db true)
      example_views example_db-Serves fresh_world start_measurement false waits all shown room
      room_open fresh id_text doubles (content full_tables) (λ k. refl) refl
      (Steps.more waits_step Steps.done) refl refl (record { holds = waits_holds })
      full_tables-Shows shown-AreSound refl room-AreSound refl room_open-AreSound refl fresh-Prints
