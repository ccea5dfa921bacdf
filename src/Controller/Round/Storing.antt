-- ===== src/Controller/Round/Storing.antt =====
-- What the tables of the alarm states hold after a round (RaspberryPi/Window_Controller/main_controller.cpp,
-- lines 474 to 530 and 975 to 1015).
pub mod Rows
pub mod Performing
pub mod Rounds
use smart_window.Common.{
  ℕ, ◌≡◌, ◌⊎◌, Bool, true, false, some, Bytes, codes, str_eq, is_in, List, [], ◌∷◌,
}
use smart_window.Common.Int.{ℤ, ◌≤ℤ◌, ◌<ℤ◌}
use smart_window.Common.Outcome.{M}
use smart_window.Controller.Readings.{Readings}
use smart_window.Controller.Alarms.{Alarms, Row}
use smart_window.Controller.Round.{Effect}

-- The tables of the alarm states, by the names that the database gives them.
abbrev pub states : List Bytes
states =
    codes "Temp_AlarmState"
    ∷ codes "Humidity_AlarmState"
    ∷ codes "Volume_AlarmState"
    ∷ codes "Air_Quality_AlarmState"
    ∷ codes "Wind_AlarmState"
    ∷ []

-- What the code relies on of the database, while no other program writes the alarm states. `held` gives the
-- values of a table, the last first. A table is `free` if the database has it and it has no row of this second,
-- since its time stamps are unique: then it takes a row, otherwise the row is refused. Writing to one
-- table leaves the others, and these stay free.
pub record Stores {W : Type 0} (write : Row → M W (Unit {0})) (send : Bytes → M W (Unit {0}))
    (sleep : ℕ → M W (Unit {0})) (held : W → Bytes → List Bytes) (free : W → Bytes → Bool)
    : Type 0 where
  pub writes_row :
      (row : Row) (w : W)
      → (w' : W) × (write row w ≡ some (tt, w'))
        × (((free w row.table ≡ true) × (held w' row.table ≡ row.value ∷ held w row.table))
            ⊎ ((free w row.table ≡ false) × (held w' row.table ≡ held w row.table)))
        × ((t : Bytes)
            → is_in t states ≡ true
            → str_eq t row.table ≡ false
            → (held w' t ≡ held w t) × (free w t ≡ true → free w' t ≡ true))
  pub sends_text :
      (text : Bytes) (w : W)
      → (w' : W) × (send text w ≡ some (tt, w'))
        × ((t : Bytes) → is_in t states ≡ true → held w' t ≡ held w t)
  pub sleeps_for :
      (n : ℕ) (w : W)
      → (w' : W) × (sleep n w ≡ some (tt, w'))
        × ((t : Bytes) → is_in t states ≡ true → held w' t ≡ held w t)

abbrev pub InRange : ℤ → ℤ → ℤ → Type 0
InRange inside min max = (min ≤ℤ inside) × (inside ≤ℤ max)

abbrev pub OutOfRange : ℤ → ℤ → ℤ → Type 0
OutOfRange inside min max = (inside <ℤ min) ⊎ (max <ℤ inside)

-- In order, or a warning.
abbrev pub IsComfort : ℤ → ℤ → ℤ → Bytes → Type 0
IsComfort inside min max v =
    (InRange inside min max × (v ≡ codes "0")) ⊎ (OutOfRange inside min max × (v ≡ codes "1"))

-- The values of the table before a round and after it, with the alarms after it. The table of the temperature
-- takes the alarm, or how the inner temperature is.
abbrev pub TempStored : Readings → Alarms → List Bytes → List Bytes → Type 0
TempStored r a before after =
    ((a.temp_alarm ≡ true) × (after ≡ codes "2" ∷ before))
    ⊎ ((a.temp_alarm ≡ false)
        × (v : Bytes) × IsComfort r.temp_in r.temp_min r.temp_max v
        × (after ≡ v ∷ before))

-- That of the humidity takes nothing while the alarm is off. While it is on it takes the alarm, and then how
-- the inner humidity is, if `Again true`: the table is free again for a second row; otherwise this row is
-- refused.
abbrev pub HumidityStored : Readings → Alarms → (Bool → Type 0) → List Bytes → List Bytes → Type 0
HumidityStored r a Again before after =
    ((a.humid_alarm ≡ false) × (after ≡ before))
    ⊎ ((a.humid_alarm ≡ true)
        × ((Again false × (after ≡ codes "2" ∷ before))
            ⊎ (Again true
                × (v : Bytes) × IsComfort r.humid_in r.humid_min r.humid_max v
                × (after ≡ v ∷ codes "2" ∷ before))))

abbrev pub NoiseStored : Alarms → List Bytes → List Bytes → Type 0
NoiseStored a before after =
    ((a.vol_alarm ≡ true) × (after ≡ codes "2" ∷ before))
    ⊎ ((a.vol_alarm ≡ false) × (after ≡ codes "0" ∷ before))

-- What all the tables hold after a round; those of air quality and wind are left as they were.
pub record AreStored (Again : Bool → Type 0) (before after : Bytes → List Bytes) (r : Readings)
    (a : Alarms) : Type 0 where
  pub temp : TempStored r a (before (codes "Temp_AlarmState")) (after (codes "Temp_AlarmState"))
  pub humidity :
      HumidityStored r a Again
        (before (codes "Humidity_AlarmState"))
        (after (codes "Humidity_AlarmState"))
  pub noise : NoiseStored a (before (codes "Volume_AlarmState")) (after (codes "Volume_AlarmState"))
  pub air_quality : after (codes "Air_Quality_AlarmState") ≡ before (codes "Air_Quality_AlarmState")
  pub wind : after (codes "Wind_AlarmState") ≡ before (codes "Wind_AlarmState")

-- The rows of a round up to the first one of the humidity, while its alarm is on.
abbrev pub first_three : List Effect → List Effect
first_three (e ∷ e' ∷ e'' ∷ es) = e ∷ e' ∷ e'' ∷ []
first_three es = es
