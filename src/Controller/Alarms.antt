-- ===== src/Controller/Alarms.antt =====
-- The alarms of `decisionLoop` (RaspberryPi/Window_Controller/main_controller.cpp, lines 401, 409
-- and 423 to 530): the thresholds, the alarm flags, and the states that are written to the database.
pub mod Bounds
pub mod Defects
use smart_window.Common.{
  Bool, true, false, not, ◌&&◌, ◌||◌, if◌then◌else◌, Option, none, some, Bytes, codes, List, [],
  ◌∷◌, ◌++◌, ◌≡◌, refl, arith,
}
use smart_window.Common.Int.{ℤ, pos, ◌+ℤ◌, ◌-ℤ◌, half_ℤ, ltb_ℤ, leb_ℤ, to_int}
use smart_window.Controller.Readings.{Readings, table}

infixl 5 ◌>>=◌
abbrev ◌>>=◌ {ℓ κ} : {A : Type ℓ} {B : Type κ} → Option A → (A → Option B) → Option B
none >>= f = none
some a >>= f = f a

-- ((max - min) / 2) + min in `int`; `humid_average` and `temp_average` hold it as a double, exactly.
unfoldable pub average : ℤ → ℤ → Option ℤ
unfolding to_int ◌-ℤ◌ ◌+ℤ◌ half_ℤ
average max min = do width ← to_int (max -ℤ min); to_int (half_ℤ width +ℤ min)

-- The values that a round computes from its readings.
pub record Derived : Type 0 where
  pub humid_average : ℤ
  pub temp_average : ℤ
  pub air_q_mean : ℤ  -- (airQ_in + airQ_in) / 2
  pub air_q_reset : ℤ  -- airQ_max - 2
  pub vol_reset : ℤ  -- vol_max - 2

-- `none` is a signed overflow in one of them.
unfoldable pub derive : Readings → Option Derived
derive r = do
  humid_average ← average r.humid_max r.humid_min
  temp_average ← average r.temp_max r.temp_min
  air_q_sum ← to_int (r.air_q_in +ℤ r.air_q_in)
  air_q_reset ← to_int (r.air_q_max -ℤ pos 2)
  vol_reset ← to_int (r.vol_max -ℤ pos 2)
  some (record {
    humid_average = humid_average;
    temp_average = temp_average;
    air_q_mean = half_ℤ air_q_sum;
    air_q_reset = air_q_reset;
    vol_reset = vol_reset;
  })

pub record Alarms : Type 0 where
  pub air_q_alarm : Bool
  pub temp_alarm : Bool
  pub humid_alarm : Bool
  pub vol_alarm : Bool
  pub wind_alarm : Bool

-- All alarms start as `false`.
unfoldable pub no_alarms : Alarms
no_alarms = record {
  air_q_alarm = false;
  temp_alarm = false;
  humid_alarm = false;
  vol_alarm = false;
  wind_alarm = false;
}

-- Two tests in a row, the second on what the first left.
unfoldable pub update_air_q : Readings → Derived → Bool → Bool
update_air_q r d alarm =
    let raised = if ltb_ℤ r.air_q_max d.air_q_mean then true else alarm in
    if leb_ℤ d.air_q_reset d.air_q_mean then false else raised

-- The rule that temperature and humidity share; `average` is the middle of `min` and `max`.
unfoldable pub update_range : ℤ → ℤ → ℤ → ℤ → ℤ → Bool → Bool
update_range inside outside min max average alarm =
    let comfort = leb_ℤ inside max && leb_ℤ min inside in
    if (ltb_ℤ inside min && ltb_ℤ inside outside) || (ltb_ℤ max inside && ltb_ℤ outside inside)
    then true
    else if ((ltb_ℤ outside average && ltb_ℤ inside average)
          || (ltb_ℤ average outside && ltb_ℤ average inside))
        && comfort
    then false
    else alarm

unfoldable pub update_temp : Readings → Derived → Bool → Bool
unfolding update_range
update_temp r d = update_range r.temp_in r.temp_out r.temp_min r.temp_max d.temp_average

unfoldable pub update_humid : Readings → Derived → Bool → Bool
unfolding update_range
update_humid r d = update_range r.humid_in r.humid_out r.humid_min r.humid_max d.humid_average

unfoldable pub update_vol : Readings → Derived → Bool → Bool
update_vol r d alarm =
    let raised = if ltb_ℤ r.vol_max r.vol_out then true else alarm in
    if leb_ℤ r.vol_out d.vol_reset then false else raised

-- The wind alarm is reset in every round.
unfoldable pub update_alarms : Readings → Derived → Alarms → Alarms
unfolding update_air_q update_temp update_humid update_vol
update_alarms r d a = record {
  air_q_alarm = update_air_q r d a.air_q_alarm;
  temp_alarm = update_temp r d a.temp_alarm;
  humid_alarm = update_humid r d a.humid_alarm;
  vol_alarm = update_vol r d a.vol_alarm;
  wind_alarm = false;
}

-- A row that is written: the table and the value.
pub record Row : Type 0 where
  pub table : Bytes
  pub value : Bytes

-- The statuses as the writers are called with them.
abbrev pub sts_ok : Bytes
sts_ok = codes "0"

abbrev pub sts_warning : Bytes
sts_warning = codes "1"

abbrev pub sts_alarm : Bytes
sts_alarm = codes "2"

unfoldable pub write_air_q_state : Bytes → Row
write_air_q_state state = record {
  table = table (codes "AirQuality") (codes "AlarmState");
  value = state;
}

unfoldable pub write_humidity_state : Bytes → Row
write_humidity_state state = record {
  table = table (codes "Humidity") (codes "AlarmState");
  value = state;
}

unfoldable pub write_temperature_state : Bytes → Row
write_temperature_state state = record {
  table = table (codes "Temp") (codes "AlarmState");
  value = state;
}

unfoldable pub write_volume_state : Bytes → Row
write_volume_state state = record {
  table = table (codes "Volume") (codes "AlarmState");
  value = state;
}

unfoldable pub air_q_rows : Alarms → List Row
unfolding write_air_q_state
air_q_rows a = write_air_q_state (if a.air_q_alarm then sts_alarm else sts_ok) ∷ []

unfoldable pub temp_rows : Readings → Alarms → List Row
unfolding write_temperature_state
temp_rows r a =
    if a.temp_alarm
    then write_temperature_state sts_alarm ∷ []
    else if leb_ℤ r.temp_min r.temp_in && leb_ℤ r.temp_in r.temp_max
    then write_temperature_state sts_ok ∷ []
    else write_temperature_state sts_warning ∷ []

-- The second write stands inside the test of the alarm.
unfoldable pub humid_rows : Readings → Alarms → List Row
unfolding write_humidity_state
humid_rows r a =
    if a.humid_alarm
    then write_humidity_state sts_alarm
      ∷ (if leb_ℤ r.humid_min r.humid_in && leb_ℤ r.humid_in r.humid_max
          then write_humidity_state sts_ok
          else write_humidity_state sts_warning)
      ∷ []
    else []

unfoldable pub vol_rows : Alarms → List Row
unfolding write_volume_state
vol_rows a = write_volume_state (if a.vol_alarm then sts_alarm else sts_ok) ∷ []

-- What a round writes, in order.
unfoldable pub state_rows : Readings → Alarms → List Row
unfolding air_q_rows temp_rows humid_rows vol_rows
state_rows r a = air_q_rows a ++ (temp_rows r a ++ (humid_rows r a ++ vol_rows a))
