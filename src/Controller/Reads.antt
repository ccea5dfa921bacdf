-- ===== src/Controller/Reads.antt =====
-- The reads of `decisionLoop` from the database (RaspberryPi/Window_Controller/main_controller.cpp, lines
-- 371 to 420), and a round in which they fail.
pub mod Latest
pub mod Showing
pub mod Deciding
use smart_window.Common.{
  ◌≡◌, ◌∙◌, refl, Bool, false, none, some, Bytes, codes, List, [], ◌∷◌, arith,
}
use smart_window.Common.Int.{ℤ, pos, to_int, half_ℤ, ◌+ℤ◌, ◌-ℤ◌}
use smart_window.Common.Outcome.{M, pure, ◌>>=◌}
use smart_window.Controller.Readings.{Readings, read_readings}
use smart_window.Controller.Alarms.{
  derive, average, update_alarms, update_range, update_temp, update_humid, update_vol,
}
use smart_window.Controller.Round.{Controller, Effect, round}
use smart_window.Database.Access.{
  MySql, Floats, find_latest, get_latest_value_bool, get_latest_value_int,
}

-- What is reported in `read_success` is not looked at.
unfoldable pub unreported : {W A : Type 0} → M W (A × Bool) → M W A
unreported m = do (a, succeeded) ← m; pure a

unfoldable pub read_database : {W : Type 0} → MySql W → Floats → M W Readings
unfolding read_readings
read_database lib floats =
    read_readings
      (λ table. unreported (get_latest_value_bool lib floats (codes "SmartWindow") table))
      (λ table. unreported (get_latest_value_int lib (codes "SmartWindow") table))

-- Manual mode with no request, the window closed, and each number zero.
abbrev pub nothing_read : Readings
nothing_read = record {
  auto_mode = false;
  man_close = false;
  man_open = false;
  win_open = false;
  air_p_in = pos 0;
  air_p_out = pos 0;
  air_p_max = pos 0;
  air_q_in = pos 0;
  air_q_out = pos 0;
  air_q_max = pos 0;
  humid_in = pos 0;
  humid_out = pos 0;
  humid_min = pos 0;
  humid_max = pos 0;
  temp_in = pos 0;
  temp_out = pos 0;
  temp_min = pos 0;
  temp_max = pos 0;
  vol_in = pos 0;
  vol_out = pos 0;
  vol_max = pos 0;
  priority = pos 0;
}

-- The tables that a round reads, in order.
abbrev pub tables : List Bytes
tables =
    codes "AutoModus"
    ∷ codes "ManClose"
    ∷ codes "ManOpen"
    ∷ codes "Win_Open"
    ∷ codes "AirPressure_IN"
    ∷ codes "AirPressure_OUT"
    ∷ codes "AirPressure_MAX"
    ∷ codes "AirQuality_IN"
    ∷ codes "AirQuality_OUT"
    ∷ codes "AirQuality_MAX"
    ∷ codes "Humidity_IN"
    ∷ codes "Humidity_OUT"
    ∷ codes "Humidity_MIN"
    ∷ codes "Humidity_MAX"
    ∷ codes "Temp_IN"
    ∷ codes "Temp_OUT"
    ∷ codes "Temp_MIN"
    ∷ codes "Temp_MAX"
    ∷ codes "Volume_IN"
    ∷ codes "Volume_OUT"
    ∷ codes "Volume_MAX"
    ∷ codes "Priority"
    ∷ []

module _ {W : Type 0} (after : Bytes → W → W) where
  -- The world after the reads of the given tables.
  pub after_all : List Bytes → W → W
  after_all [] w = w
  after_all (t ∷ ts) w = after_all ts (after t w)

  pub after_all-keeps :
      {A : Type 0} (trace : W → A)
      → ((table : Bytes) (w : W) → trace (after table w) ≡ trace w)
      → (ts : List Bytes) (w : W) → trace (after_all ts w) ≡ trace w
  unfolding after_all
  after_all-keeps trace h [] w = refl
  after_all-keeps trace h (t ∷ ts) w = after_all-keeps trace h ts (after t w) ∙ h t w

  read_readings-zero :
      (get_bool : Bytes → M W Bool) (get_int : Bytes → M W ℤ) (w : W)
      → ((table : Bytes) (w : W) → get_bool table w ≡ some (false, after table w))
      → ((table : Bytes) (w : W) → get_int table w ≡ some (pos 0, after table w))
      → read_readings get_bool get_int w ≡ some (nothing_read, after_all tables w)
  unfolding read_readings after_all
  read_readings-zero get_bool get_int w hb hi =
      λ i. read_readings (λ t x. hb t x i) (λ t x. hi t x i) w

pub nothing_kept :
    (c : Controller)
    → (c' : Controller) × (es : List Effect) × (round nothing_read c ≡ some (c', es))
      × (c'.alarms.temp_alarm ≡ c.alarms.temp_alarm)
      × (c'.alarms.humid_alarm ≡ c.alarms.humid_alarm)
      × (c'.alarms.vol_alarm ≡ c.alarms.vol_alarm)
unfolding round derive average to_int half_ℤ ◌+ℤ◌ ◌-ℤ◌ update_alarms update_range update_temp
    update_humid update_vol
nothing_kept c = (_, _, refl, refl, refl, refl)

module _ {W : Type 0} (lib : MySql W) (floats : Floats) (after : Bytes → W → W)
    (fails : (table : Bytes) (w : W)
      → find_latest lib false (codes "SmartWindow") table w ≡ some (none, after table w)) where
  bool_fails :
      (table : Bytes) (w : W)
      → unreported (get_latest_value_bool lib floats (codes "SmartWindow") table) w
        ≡ some (false, after table w)
  unfolding unreported get_latest_value_bool
  bool_fails table w = ground (arith, fails table w)

  int_fails :
      (table : Bytes) (w : W)
      → unreported (get_latest_value_int lib (codes "SmartWindow") table) w
        ≡ some (pos 0, after table w)
  unfolding unreported get_latest_value_int
  int_fails table w = ground (arith, fails table w)

  pub read_database-fails :
      (w : W) → read_database lib floats w ≡ some (nothing_read, after_all after tables w)
  unfolding read_database
  read_database-fails w = read_readings-zero after _ _ w bool_fails int_fails

  -- Where each read fails without a fault, a round takes every truth value for false and every number
  -- for zero; a round with these values succeeds, and keeps the alarms of the temperature, the humidity
  -- and the noise as they were.
  outage_round :
      (w : W) (c : Controller)
      → (read_database lib floats w ≡ some (nothing_read, after_all after tables w))
        × (c' : Controller) × (es : List Effect) × (round nothing_read c ≡ some (c', es))
        × (c'.alarms.temp_alarm ≡ c.alarms.temp_alarm)
        × (c'.alarms.humid_alarm ≡ c.alarms.humid_alarm)
        × (c'.alarms.vol_alarm ≡ c.alarms.vol_alarm)
  outage_round w c =
      let (c', es, e, t, h, v) = nothing_kept c in (read_database-fails w, c', es, e, t, h, v)
