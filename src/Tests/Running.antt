-- ===== src/Tests/Running.antt =====
-- The decision thread in a world that keeps a list of what was done.
use smart_window.Common.{
  ◌≡◌, refl, Bool, if◌then◌else◌, some, Bytes, codes, str_eq, List, [], ◌∷◌, ◌++◌, arith,
}
use smart_window.Common.Int.{ℤ, pos, negsuc}
use smart_window.Common.Outcome.{M, pure}
use smart_window.Controller.Readings.{read_readings}
use smart_window.Controller.Machine.Phase.{Phase, starting, encode}
use smart_window.Controller.Round.{Controller, Effect, writes, sends, sleeps, start, decision_loop}
use smart_window.Controller.Round.Commands.{Request}
use smart_window.Controller.Round.Loop.{Run, AreSound, Works}
use smart_window.System.{texts}
use smart_window.System.Running.{Asked, all_texts, decision_loop_runs}
use smart_window.Tests.Alarms.{room, room-AreModerate}

-- The tables of the numbers of a round, for the room.
abbrev numbers : List (Bytes × ℤ)
numbers =
    (codes "AirPressure_IN", pos 1013)
    ∷ (codes "AirPressure_OUT", pos 1013)
    ∷ (codes "AirPressure_MAX", pos 1100)
    ∷ (codes "AirQuality_IN", pos 40)
    ∷ (codes "AirQuality_OUT", pos 10)
    ∷ (codes "AirQuality_MAX", pos 30)
    ∷ (codes "Humidity_IN", pos 70)
    ∷ (codes "Humidity_OUT", pos 50)
    ∷ (codes "Humidity_MIN", pos 30)
    ∷ (codes "Humidity_MAX", pos 65)
    ∷ (codes "Temp_IN", pos 28)
    ∷ (codes "Temp_OUT", negsuc 4)
    ∷ (codes "Temp_MIN", pos 20)
    ∷ (codes "Temp_MAX", pos 26)
    ∷ (codes "Volume_IN", pos 30)
    ∷ (codes "Volume_OUT", pos 40)
    ∷ (codes "Volume_MAX", pos 60)
    ∷ (codes "Priority", pos 3)
    ∷ []

number_in : List (Bytes × ℤ) → Bytes → ℤ
number_in [] table = pos 0
number_in ((name, z) ∷ rest) table = if str_eq table name then z else number_in rest table

abbrev truth_in : Bytes → M (List Effect) Bool
truth_in table = pure (str_eq table (codes "ManOpen"))

abbrev int_in : Bytes → M (List Effect) ℤ
int_in table = pure (number_in numbers table)

-- An effect is noted at the end of the list.
abbrev note : Effect → M (List Effect) (Unit {0})
note e done = some (tt, done ++ e ∷ [])

reads_room : (w : List Effect) → read_readings truth_in int_in w ≡ some (room, w)
unfolding read_readings number_in
reads_room w = refl

room-AreSound : AreSound room
room-AreSound = record { moderate = room-AreModerate; humid = omega arith; temp = omega arith }

noting-Works :
    Works truth_in int_in
      (λ row. note (writes row))
      (λ text. note (sends text))
      (λ n. note (sleeps n))
      (λ r. r ≡ room)
      (λ w. w)
noting-Works = record {
  reads = λ w. (room, w, reads_room w, room-AreSound, refl, refl);
  write_returns = λ row w. (w ++ writes row ∷ [], refl, refl);
  send_returns = λ text w. (w ++ sends text ∷ [], refl, refl);
  sleep_returns = λ n w. (w ++ sleeps n ∷ [], refl, refl);
}

-- Three rounds of the loop.
decision_loop_runs_example :
    (c : Controller) × (es : List Effect) × (w' : List Effect) × (qs : List Request) × (ph : Phase)
    × (decision_loop truth_in int_in
          (λ row. note (writes row))
          (λ text. note (sends text))
          (λ n. note (sleeps n))
          3
          start
          []
        ≡ some (c, w'))
    × (w' ≡ [] ++ es)
    × Run (λ r. r ≡ room) 3 start es c
    × Asked 3 starting qs ph
    × (texts es ≡ all_texts qs)
    × (c.flags ≡ encode ph)
decision_loop_runs_example =
    decision_loop_runs truth_in int_in (λ row. note (writes row)) (λ text. note (sends text))
      (λ n. note (sleeps n)) (λ r. r ≡ room) (λ w. w) noting-Works 3 []
