-- ===== src/Controller/Round/Storing/Rows.antt =====
-- The rows of the alarm states (RaspberryPi/Window_Controller/main_controller.cpp, lines 474 to 530 and 975 to
-- 1015).
use smart_window.Common.{
  ◌≡◌, inl, inr, refl, ap, ◌∙◌, Bool, true, false, ◌&&◌, Bool-cases, Bytes, codes, List, [], ◌∷◌,
  ◌++◌, map, All, All-append, if◌then◌else◌, arith,
}
use smart_window.Common.Int.{ℤ, leb_ℤ}
use smart_window.Controller.Readings.{Readings}
use smart_window.Controller.Alarms.{
  Alarms, Row, air_q_rows, temp_rows, humid_rows, vol_rows, write_air_q_state,
  write_temperature_state, write_humidity_state, write_volume_state,
}
use smart_window.Controller.Machine.{Flags, asks_open, asks_close}
use smart_window.Controller.Round.{Effect, writes, sends, sleeps, commands}
use smart_window.Controller.Round.Storing.{IsComfort, TempStored, HumidityStored, NoiseStored}

abbrev pub named : Bytes → Bytes → Row
named t v = record { table = t; value = v }

pub range-IsComfort :
    (inside min max : ℤ) (b : Bool)
    → (leb_ℤ min inside && leb_ℤ inside max) ≡ b
    → IsComfort inside min max (if b then codes "0" else codes "1")
range-IsComfort inside min max true e = inl (ground arith, refl)
range-IsComfort inside min max false e = inr (ground arith, refl)

pub temp_row :
    (r : Readings) (a : Alarms) (alarm b : Bool)
    → a.temp_alarm ≡ alarm
    → (leb_ℤ r.temp_min r.temp_in && leb_ℤ r.temp_in r.temp_max) ≡ b
    → temp_rows r a
      ≡ named
          (codes "Temp_AlarmState")
          (if alarm then codes "2" else (if b then codes "0" else codes "1"))
        ∷ []
unfolding temp_rows write_temperature_state
temp_row r a true b e e' = ground arith
temp_row r a false true e e' = ground arith
temp_row r a false false e e' = ground arith

pub humid_on :
    (r : Readings) (a : Alarms) (b : Bool)
    → a.humid_alarm ≡ true
    → (leb_ℤ r.humid_min r.humid_in && leb_ℤ r.humid_in r.humid_max) ≡ b
    → humid_rows r a
      ≡ named (codes "Humidity_AlarmState") (codes "2")
        ∷ named (codes "Humidity_AlarmState") (if b then codes "0" else codes "1")
        ∷ []
unfolding humid_rows write_humidity_state
humid_on r a true e e' = ground arith
humid_on r a false e e' = ground arith

pub humid_off : (r : Readings) (a : Alarms) → a.humid_alarm ≡ false → humid_rows r a ≡ []
unfolding humid_rows
humid_off r a e = ground arith

pub noise_row :
    (a : Alarms)
    → vol_rows a
      ≡ named (codes "Volume_AlarmState") (if a.vol_alarm then codes "2" else codes "0") ∷ []
unfolding vol_rows write_volume_state
noise_row a = refl

pub air_row :
    (a : Alarms)
    → air_q_rows a
      ≡ named (codes "AirQuality_AlarmState") (if a.air_q_alarm then codes "2" else codes "0") ∷ []
unfolding air_q_rows write_air_q_state
air_row a = refl

-- Nothing is written.
abbrev pub IsQuiet : Effect → Type 0
IsQuiet (writes row) = ⊥
IsQuiet (sends text) = Unit
IsQuiet (sleeps n) = Unit

asked-IsQuiet :
    (b : Bool) (text : Bytes) → All IsQuiet (if b then sends text ∷ sleeps 5 ∷ [] else [])
asked-IsQuiet true text = (tt, (tt, tt))
asked-IsQuiet false text = tt

pub commands-IsQuiet : (f : Flags) → All IsQuiet (commands f ++ sleeps 5 ∷ [])
unfolding commands
commands-IsQuiet f =
    All-append IsQuiet _ (sleeps 5 ∷ [])
      (All-append IsQuiet _ _ (asked-IsQuiet (asks_open f) (codes "PUT_Win/Open"))
        (asked-IsQuiet (asks_close f) (codes "PUT_Win/Close")))
      (tt, tt)

-- The state of the temperature, by its row.
pub temp_stored :
    (r : Readings) (a : Alarms) (before after : List Bytes) (b : Bool)
    → (leb_ℤ r.temp_min r.temp_in && leb_ℤ r.temp_in r.temp_max) ≡ b
    → after ≡ (if a.temp_alarm then codes "2" else (if b then codes "0" else codes "1")) ∷ before
    → TempStored r a before after
temp_stored r a before after b e h =
    let v = if b then codes "0" else codes "1" in
    elim (Bool-cases a.temp_alarm) [
      | inl on ↦ inl (on, h ∙ ap (λ x. (if x then codes "2" else v) ∷ before) on)
      | inr off ↦ inr (
        off,
        v,
        range-IsComfort r.temp_in r.temp_min r.temp_max b e,
        h ∙ ap (λ x. (if x then codes "2" else v) ∷ before) off,
      )
    ]

pub noise_stored :
    (a : Alarms) (before after : List Bytes)
    → after ≡ (if a.vol_alarm then codes "2" else codes "0") ∷ before
    → NoiseStored a before after
noise_stored a before after h = elim (Bool-cases a.vol_alarm) [
  | inl on ↦ inl (on, h ∙ ap (λ x. (if x then codes "2" else codes "0") ∷ before) on)
  | inr off ↦ inr (off, h ∙ ap (λ x. (if x then codes "2" else codes "0") ∷ before) off)
]

last_row :
    (rows : List Row) (z : Row) (es : List Effect)
    → map writes (rows ++ z ∷ []) ++ es ≡ map writes rows ++ writes z ∷ es
last_row [] z es = refl
last_row (row ∷ rows) z es = ap (λ x. writes row ∷ x) (last_row rows z es)

-- The effects of a round, row by row.
pub effects_in_order :
    (airs temps humids vols : List Row) (x y z : Row) (es : List Effect)
    → airs ≡ x ∷ []
    → temps ≡ y ∷ []
    → vols ≡ z ∷ []
    → map writes (airs ++ (temps ++ (humids ++ vols))) ++ es
      ≡ writes x ∷ writes y ∷ (map writes humids ++ writes z ∷ es)
effects_in_order airs temps humids vols x y z es e e' e'' =
    rw (e, e', e'') (ap (λ l. writes x ∷ writes y ∷ l) (last_row humids z es))

pub HumidityStored-map :
    {Again Again' : Bool → Type 0} (r : Readings) (a : Alarms) (before after : List Bytes)
    → (a.humid_alarm ≡ true → (b : Bool) → Again b → Again' b)
    → HumidityStored r a Again before after
    → HumidityStored r a Again' before after
HumidityStored-map r a before after f h = elim h [
  | inl off ↦ inl off
  | inr (on, rows) ↦ inr (
    on,
    elim rows [
      | inl (again, e) ↦ inl (f on false again, e)
      | inr (again, v, c, e) ↦ inr (f on true again, v, c, e)
    ],
  )
]

-- The first of the rows of the humidity.
abbrev pub humidity_alarm : List Effect
humidity_alarm = writes (named (codes "Humidity_AlarmState") (codes "2")) ∷ []
