-- ===== src/Controller/Readings.antt =====
-- What one round of `decisionLoop` reads from the database
-- (RaspberryPi/Window_Controller/main_controller.cpp, lines 371 to 420), in the order of the reads.
use smart_window.Common.{Bool, Bytes, codes, ◌++◌}
use smart_window.Common.Int.{ℤ}
use smart_window.Common.Outcome.{M, pure, ◌>>=◌}

pub record Readings : Type 0 where
  pub auto_mode : Bool
  pub man_close : Bool
  pub man_open : Bool
  pub win_open : Bool
  pub air_p_in : ℤ
  pub air_p_out : ℤ
  pub air_p_max : ℤ
  pub air_q_in : ℤ
  pub air_q_out : ℤ
  pub air_q_max : ℤ
  pub humid_in : ℤ
  pub humid_out : ℤ
  pub humid_min : ℤ
  pub humid_max : ℤ
  pub temp_in : ℤ
  pub temp_out : ℤ
  pub temp_min : ℤ
  pub temp_max : ℤ
  pub vol_in : ℤ
  pub vol_out : ℤ
  pub vol_max : ℤ
  pub priority : ℤ

-- TABLE_NAME(sensor, suffix)
abbrev pub table : Bytes → Bytes → Bytes
table sensor suffix = sensor ++ (codes "_" ++ suffix)

-- `get_bool` and `get_int` are `get_latest_value_bool` and `get_latest_value_int` of the given table;
-- what they report of their success is not looked at.
module _ {W : Type 0} (get_bool : Bytes → M W Bool) (get_int : Bytes → M W ℤ) where
  unfoldable pub read_readings : M W Readings
  read_readings = do
    auto_mode ← get_bool (codes "AutoModus")
    man_close ← get_bool (codes "ManClose")
    man_open ← get_bool (codes "ManOpen")
    win_open ← get_bool (codes "Win_Open")
    air_p_in ← get_int (table (codes "AirPressure") (codes "IN"))
    air_p_out ← get_int (table (codes "AirPressure") (codes "OUT"))
    air_p_max ← get_int (table (codes "AirPressure") (codes "MAX"))
    air_q_in ← get_int (table (codes "AirQuality") (codes "IN"))
    air_q_out ← get_int (table (codes "AirQuality") (codes "OUT"))
    air_q_max ← get_int (table (codes "AirQuality") (codes "MAX"))
    humid_in ← get_int (table (codes "Humidity") (codes "IN"))
    humid_out ← get_int (table (codes "Humidity") (codes "OUT"))
    humid_min ← get_int (table (codes "Humidity") (codes "MIN"))
    humid_max ← get_int (table (codes "Humidity") (codes "MAX"))
    temp_in ← get_int (table (codes "Temp") (codes "IN"))
    temp_out ← get_int (table (codes "Temp") (codes "OUT"))
    temp_min ← get_int (table (codes "Temp") (codes "MIN"))
    temp_max ← get_int (table (codes "Temp") (codes "MAX"))
    vol_in ← get_int (table (codes "Volume") (codes "IN"))
    vol_out ← get_int (table (codes "Volume") (codes "OUT"))
    vol_max ← get_int (table (codes "Volume") (codes "MAX"))
    priority ← get_int (codes "Priority")
    pure (record {
      auto_mode = auto_mode;
      man_close = man_close;
      man_open = man_open;
      win_open = win_open;
      air_p_in = air_p_in;
      air_p_out = air_p_out;
      air_p_max = air_p_max;
      air_q_in = air_q_in;
      air_q_out = air_q_out;
      air_q_max = air_q_max;
      humid_in = humid_in;
      humid_out = humid_out;
      humid_min = humid_min;
      humid_max = humid_max;
      temp_in = temp_in;
      temp_out = temp_out;
      temp_min = temp_min;
      temp_max = temp_max;
      vol_in = vol_in;
      vol_out = vol_out;
      vol_max = vol_max;
      priority = priority;
    })
