-- ===== src/Webserver/Pages.antt =====
-- The two pages with values from the database (Webserver/Webserver.py, lines 43 to 155 and 208 to 253).
use smart_window.Common.{Bool, if◌then◌else◌, Bytes, codes}
use smart_window.Webserver.{Db, latest, or_raise, alarm_words, priority_words, selections}
use smart_window.Webserver.Exec.{E, pure, ◌>>=◌, ◌>>◌}

-- What the main page reads of the tables.
pub record Current (Cell : Type 0) : Type 0 where
  pub in_pres : Cell
  pub out_pres : Cell
  pub in_qual : Cell
  pub out_qual : Cell
  pub win_open : Cell
  pub auto_modus : Cell
  pub in_hum : Cell
  pub out_hum : Cell
  pub in_temp : Cell
  pub out_temp : Cell
  pub in_sound : Cell
  pub out_sound : Cell
  pub prio : Cell
  pub air_quality_alarm : Cell
  pub temp_alarm : Cell
  pub humidity_alarm : Cell
  pub noise_alarm : Cell
  pub wind_alarm : Cell

-- What is known of an alarm on the page.
pub record Shown : Type 0 where
  pub state : Bytes
  pub color : Bytes

abbrev pub shown : Bytes × Bytes → Shown
shown (state, color) = record { state = state; color = color }

-- The arguments of Home.html.
pub record Home (Cell : Type 0) : Type 0 where
  pub modus : Bytes
  pub state_window : Bytes
  pub man_open : Bytes
  pub man_close : Bytes
  pub manu : Bytes
  pub auto : Bytes
  pub out_temp : Cell
  pub in_temp : Cell
  pub out_hum : Cell
  pub in_hum : Cell
  pub in_qual : Cell
  pub out_qual : Cell
  pub in_pres : Cell
  pub out_pres : Cell
  pub in_sound : Cell
  pub out_sound : Cell
  pub priority : Bytes
  pub air_quality : Shown
  pub temp : Shown
  pub humidity : Shown
  pub noise : Shown
  pub wind : Shown

-- The arguments of Settings.html.
pub record Settings (Cell : Type 0) : Type 0 where
  pub min_temp : Cell
  pub max_temp : Cell
  pub min_hum : Cell
  pub max_hum : Cell
  pub max_qual : Cell
  pub max_wind : Cell
  pub max_sound : Cell
  pub prio0 : Bytes
  pub prio1 : Bytes
  pub prio2 : Bytes
  pub prio3 : Bytes

-- "disabled" for a button that cannot be pressed.
abbrev pub disabled_if : Bool → Bytes
disabled_if b = if b then codes "disabled" else codes " "

module _ {W : Type 0} (db : Db W) where
  unfoldable pub current_values : E W (Current db.Cell)
  current_values = do
    in_pres ← latest db (codes "AirPressure_IN")
    out_pres ← latest db (codes "AirPressure_OUT")
    in_qual ← latest db (codes "AirQuality_IN")
    out_qual ← latest db (codes "AirQuality_OUT")
    win_open ← latest db (codes "Win_Open")
    auto_modus ← latest db (codes "AutoModus")
    in_hum ← latest db (codes "Humidity_IN")
    out_hum ← latest db (codes "Humidity_OUT")
    in_temp ← latest db (codes "Temp_IN")
    out_temp ← latest db (codes "Temp_OUT")
    in_sound ← latest db (codes "Volume_IN")
    out_sound ← latest db (codes "Volume_OUT")
    prio ← latest db (codes "Priority")
    air_quality_alarm ← latest db (codes "Air_Quality_AlarmState")
    temp_alarm ← latest db (codes "Temp_AlarmState")
    humidity_alarm ← latest db (codes "Humidity_AlarmState")
    noise_alarm ← latest db (codes "Volume_AlarmState")
    wind_alarm ← latest db (codes "Wind_AlarmState")
    pure (record {
      in_pres = in_pres;
      out_pres = out_pres;
      in_qual = in_qual;
      out_qual = out_qual;
      win_open = win_open;
      auto_modus = auto_modus;
      in_hum = in_hum;
      out_hum = out_hum;
      in_temp = in_temp;
      out_temp = out_temp;
      in_sound = in_sound;
      out_sound = out_sound;
      prio = prio;
      air_quality_alarm = air_quality_alarm;
      temp_alarm = temp_alarm;
      humidity_alarm = humidity_alarm;
      noise_alarm = noise_alarm;
      wind_alarm = wind_alarm;
    })

  -- The buttons of the window are disabled in automatic mode, and the one that the window has done.
  unfoldable pub describe : Current db.Cell → E W (Home db.Cell)
  describe c = do
    priority ← or_raise (priority_words db c.prio)
    air_quality ← or_raise (alarm_words db c.air_quality_alarm)
    temp ← or_raise (alarm_words db c.temp_alarm)
    humidity ← or_raise (alarm_words db c.humidity_alarm)
    noise ← or_raise (alarm_words db c.noise_alarm)
    wind ← or_raise (alarm_words db c.wind_alarm)
    pure (record {
      modus = if db.truthy c.auto_modus then codes "automatic" else codes "manual";
      state_window = if db.truthy c.win_open then codes "opened" else codes "closed";
      man_open =
          if db.truthy c.auto_modus then codes "disabled" else disabled_if (db.truthy c.win_open);
      man_close =
          if db.truthy c.auto_modus
          then codes "disabled"
          else (if db.truthy c.win_open then codes " " else codes "disabled");
      manu = if db.truthy c.auto_modus then codes " " else codes "disabled";
      auto = disabled_if (db.truthy c.auto_modus);
      out_temp = c.out_temp;
      in_temp = c.in_temp;
      out_hum = c.out_hum;
      in_hum = c.in_hum;
      in_qual = c.in_qual;
      out_qual = c.out_qual;
      in_pres = c.in_pres;
      out_pres = c.out_pres;
      in_sound = c.in_sound;
      out_sound = c.out_sound;
      priority = priority;
      air_quality = shown air_quality;
      temp = shown temp;
      humidity = shown humidity;
      noise = shown noise;
      wind = shown wind;
    })

  -- The commit is for what the other programs have written since.
  unfoldable pub main_page : E W (Home db.Cell)
  unfolding current_values describe
  main_page = do db.commit; c ← current_values; describe c

  unfoldable pub limits_text : E W (Settings db.Cell)
  limits_text = do
    max_wind ← latest db (codes "Wind_MAX")
    max_qual ← latest db (codes "AirQuality_MAX")
    max_hum ← latest db (codes "Humidity_MAX")
    min_hum ← latest db (codes "Humidity_MIN")
    max_temp ← latest db (codes "Temp_MAX")
    min_temp ← latest db (codes "Temp_MIN")
    max_sound ← latest db (codes "Volume_MAX")
    prio ← latest db (codes "Priority")
    (prio0, prio1, prio2, prio3) ← or_raise (selections db prio)
    pure (record {
      min_temp = min_temp;
      max_temp = max_temp;
      min_hum = min_hum;
      max_hum = max_hum;
      max_qual = max_qual;
      max_wind = max_wind;
      max_sound = max_sound;
      prio0 = prio0;
      prio1 = prio1;
      prio2 = prio2;
      prio3 = prio3;
    })
