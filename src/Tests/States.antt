-- ===== src/Tests/States.antt =====
-- The alarms and their states after rounds (RaspberryPi/Window_Controller/main_controller.cpp, lines 423 to 530).
use smart_window.Common.{
  ◌≡◌, ◌⊎◌, ◌↔◌, inl, inr, refl, ap, ◌∙◌, Bool, true, false, not, ◌&&◌, ◌||◌, if◌then◌else◌, Option,
  some, Bytes, codes, str_eq, str_eq_refl, is_in, List, [], ◌∷◌, arith,
}
use smart_window.Common.Int.{pos}
use smart_window.Common.Outcome.{pure}
use smart_window.Controller.Alarms.{Row}
use smart_window.Controller.Round.{perform}
use smart_window.Controller.Round.History.{
  Since, TempRises, TempFalls, HumidRises, HumidFalls, NoiseRises, NoiseFalls, Recorded, at_start,
  then_round, Recorded-AreJustified,
}
use smart_window.Controller.Round.Storing.{states, Stores, AreStored, first_three}
use smart_window.Controller.Round.Storing.Rounds.{round-AreStored}
use smart_window.Tests.Alarms.{room}
use smart_window.Tests.Rounds.{
  room_shut, resting_effects, begun, shut, shuts, starts_later, opening_effects,
}

two_rounds : Recorded (room ∷ room_shut ∷ []) begun
two_rounds =
    then_round room opening_effects
      (then_round room_shut (resting_effects room_shut) at_start shuts) starts_later

Recorded-AreJustified_example :
    ((begun.alarms.temp_alarm ≡ true) ↔ Since TempRises TempFalls (room ∷ room_shut ∷ []))
    × ((begun.alarms.humid_alarm ≡ true) ↔ Since HumidRises HumidFalls (room ∷ room_shut ∷ []))
    × ((begun.alarms.vol_alarm ≡ true) ↔ Since NoiseRises NoiseFalls (room ∷ room_shut ∷ []))
Recorded-AreJustified_example = Recorded-AreJustified (room ∷ room_shut ∷ []) begun two_rounds (
  record { humid = omega arith; temp = omega arith },
  (record { humid = omega arith; temp = omega arith }, tt),
)

-- The tables of the alarm states, and those that have a row of this second.
record World : Type 0 where
  stored : Bytes → List Bytes
  full : Bytes → Bool

abbrev held : World → Bytes → List Bytes
held w = w.stored

abbrev free : World → Bytes → Bool
free w t = is_in t states && not (w.full t)

abbrev put : Bool → Row → World → World
put true row w = record {
  stored = λ t. if str_eq t row.table then row.value ∷ w.stored t else w.stored t;
  full = λ t. str_eq t row.table || w.full t;
}
put false row w = w

abbrev write : Row → World → Option (Unit {0} × World)
write row w = some (tt, put (free w row.table) row w)

put_cases :
    (b : Bool) (row : Row) (w : World)
    → ((b ≡ true) × (held (put b row w) row.table ≡ row.value ∷ held w row.table))
      ⊎ ((b ≡ false) × (held (put b row w) row.table ≡ held w row.table))
put_cases true row w = inl (
  refl,
  ap (λ b. if b then row.value ∷ w.stored row.table else w.stored row.table)
      (str_eq_refl row.table),
)
put_cases false row w = inr (refl, refl)

put_others :
    (b : Bool) (row : Row) (w : World) (t : Bytes)
    → str_eq t row.table ≡ false
    → (held (put b row w) t ≡ held w t) × (free w t ≡ true → free (put b row w) t ≡ true)
put_others true row w t n = (
  ap (λ b. if b then row.value ∷ w.stored t else w.stored t) n,
  λ f. ap (λ b. is_in t states && not (b || w.full t)) n ∙ f,
)
put_others false row w t n = (refl, λ f. f)

put-Stores : Stores write (λ text. pure tt) (λ n. pure tt) held free
put-Stores = record {
  writes_row = λ row w. (
    _,
    refl,
    put_cases (free w row.table) row w,
    λ t i n. put_others (free w row.table) row w t n,
  );
  sends_text = λ text w. (w, refl, λ t i. refl);
  sleeps_for = λ n w. (w, refl, λ t i. refl);
}

abbrev no_rows : World
no_rows = record { stored = λ t. []; full = λ t. false }

round-AreStored_example :
    (w' : World) × (perform
        (λ t. pure true)
        (λ t. pure (pos 0))
        write
        (λ text. pure tt)
        (λ n. pure tt)
        opening_effects
        no_rows
      ≡ some (tt, w'))
    × AreStored
        (λ b.
          (m : World) × (perform
              (λ t. pure true)
              (λ t. pure (pos 0))
              write
              (λ text. pure tt)
              (λ n. pure tt)
              (first_three opening_effects)
              no_rows
            ≡ some (tt, m))
          × (free m (codes "Humidity_AlarmState") ≡ b))
        (held no_rows)
        (held w')
        room
        begun.alarms
round-AreStored_example =
    round-AreStored (λ t. pure true) (λ t. pure (pos 0)) write (λ text. pure tt) (λ n. pure tt) held
      free put-Stores room shut begun opening_effects no_rows starts_later refl refl refl
