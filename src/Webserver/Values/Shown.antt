-- ===== src/Webserver/Values/Shown.antt =====
-- What the pages show of the tables.
use mathlib.Core.Path.{subst}
use smart_window.Common.{
  ◌≡◌, refl, ◌∙◌, Bool, true, false, not, ◌&&◌, if◌then◌else◌, Bytes, codes, str_eq,
}
use smart_window.Webserver.{Db}
use smart_window.Webserver.Exec.{ok}
use smart_window.Webserver.Pages.{Home, disabled_if, Current, main_page, current_values, describe}
use smart_window.Webserver.Requests.{home, home_page, respond}
use smart_window.Webserver.Requests as Request
use smart_window.Webserver.Values.{Rows}
use smart_window.Webserver.Modes.Keeping.{bind-ok}
use smart_window.Webserver.Values.Words.{
  showable, ShowsState, ShowsPriority, Ends, Ends-or_raise, Ends-last, Ends-map, has_alarm_words,
  has_priority_words, alarm_words-ShowsState, priority_words-ShowsPriority,
}
use smart_window.Webserver.Values.Reading.{At, reads}

-- A button can be pressed.
abbrev pub enabled : Bytes → Bool
enabled button = str_eq button (codes " ")

-- The page shows the values of the tables, the mode, the state of the window, the priority and the five
-- alarms in words, and the buttons that do something: in automatic mode the one for manual mode, in manual
-- mode the one for automatic mode and the one that moves the window.
pub record IsPageOf {W : Type 0} (db : Db W) (v : Bytes → db.Cell) (h : Home db.Cell) : Type 0 where
  pub out_temp : h.out_temp ≡ v (codes "Temp_OUT")
  pub in_temp : h.in_temp ≡ v (codes "Temp_IN")
  pub out_hum : h.out_hum ≡ v (codes "Humidity_OUT")
  pub in_hum : h.in_hum ≡ v (codes "Humidity_IN")
  pub in_qual : h.in_qual ≡ v (codes "AirQuality_IN")
  pub out_qual : h.out_qual ≡ v (codes "AirQuality_OUT")
  pub in_pres : h.in_pres ≡ v (codes "AirPressure_IN")
  pub out_pres : h.out_pres ≡ v (codes "AirPressure_OUT")
  pub in_sound : h.in_sound ≡ v (codes "Volume_IN")
  pub out_sound : h.out_sound ≡ v (codes "Volume_OUT")
  pub modus :
      h.modus ≡ (if db.truthy (v (codes "AutoModus")) then codes "automatic" else codes "manual")
  pub state_window :
      h.state_window ≡ (if db.truthy (v (codes "Win_Open")) then codes "opened" else codes "closed")
  pub priority : ShowsPriority (db.equals (v (codes "Priority"))) h.priority
  pub air_quality :
      ShowsState
        (db.equals (v (codes "Air_Quality_AlarmState")))
        h.air_quality.state
        h.air_quality.color
  pub temp : ShowsState (db.equals (v (codes "Temp_AlarmState"))) h.temp.state h.temp.color
  pub humidity :
      ShowsState (db.equals (v (codes "Humidity_AlarmState"))) h.humidity.state h.humidity.color
  pub noise : ShowsState (db.equals (v (codes "Volume_AlarmState"))) h.noise.state h.noise.color
  pub wind : ShowsState (db.equals (v (codes "Wind_AlarmState"))) h.wind.state h.wind.color
  pub manu : enabled h.manu ≡ db.truthy (v (codes "AutoModus"))
  pub auto : enabled h.auto ≡ not (db.truthy (v (codes "AutoModus")))
  pub man_open :
      enabled h.man_open
      ≡ (not (db.truthy (v (codes "AutoModus"))) && not (db.truthy (v (codes "Win_Open"))))
  pub man_close :
      enabled h.man_close
      ≡ (not (db.truthy (v (codes "AutoModus"))) && db.truthy (v (codes "Win_Open")))

enabled_manu : (a : Bool) → enabled (if a then codes " " else codes "disabled") ≡ a
enabled_manu true = refl
enabled_manu false = refl

enabled_auto : (a : Bool) → enabled (disabled_if a) ≡ not a
enabled_auto true = refl
enabled_auto false = refl

enabled_open :
    (a o : Bool) → enabled (if a then codes "disabled" else disabled_if o) ≡ (not a && not o)
enabled_open true o = refl
enabled_open false o = enabled_auto o

enabled_close :
    (a o : Bool)
    → enabled (if a then codes "disabled" else (if o then codes " " else codes "disabled"))
      ≡ (not a && o)
enabled_close true o = refl
enabled_close false o = enabled_manu o

abbrev values_of : {C : Type 0} → (Bytes → C) → Current C
values_of v = record {
  in_pres = v (codes "AirPressure_IN");
  out_pres = v (codes "AirPressure_OUT");
  in_qual = v (codes "AirQuality_IN");
  out_qual = v (codes "AirQuality_OUT");
  win_open = v (codes "Win_Open");
  auto_modus = v (codes "AutoModus");
  in_hum = v (codes "Humidity_IN");
  out_hum = v (codes "Humidity_OUT");
  in_temp = v (codes "Temp_IN");
  out_temp = v (codes "Temp_OUT");
  in_sound = v (codes "Volume_IN");
  out_sound = v (codes "Volume_OUT");
  prio = v (codes "Priority");
  air_quality_alarm = v (codes "Air_Quality_AlarmState");
  temp_alarm = v (codes "Temp_AlarmState");
  humidity_alarm = v (codes "Humidity_AlarmState");
  noise_alarm = v (codes "Volume_AlarmState");
  wind_alarm = v (codes "Wind_AlarmState");
}

describe-Ends :
    {W : Type 0} (db : Db W) (v : Bytes → db.Cell) (w : W)
    → Ends (showable db v) (IsPageOf db v) (describe db (values_of v) w).0
unfolding describe
describe-Ends db v w =
    Ends-or_raise (IsPageOf db v) _ _ _ _ w (has_priority_words db (v (codes "Priority"))) λ p0 e0.
      Ends-or_raise (IsPageOf db v) _ _ _ _ w
        (has_alarm_words db (v (codes "Air_Quality_AlarmState")))
        λ p1 e1.
          Ends-or_raise (IsPageOf db v) _ _ _ _ w (has_alarm_words db (v (codes "Temp_AlarmState")))
            λ p2 e2.
              Ends-or_raise (IsPageOf db v) _ _ _ _ w
                (has_alarm_words db (v (codes "Humidity_AlarmState")))
                λ p3 e3.
                  Ends-or_raise (IsPageOf db v) _ _ _ _ w
                    (has_alarm_words db (v (codes "Volume_AlarmState")))
                    λ p4 e4.
                      Ends-last (IsPageOf db v) _ _ _ w
                        (has_alarm_words db (v (codes "Wind_AlarmState")))
                        λ p5 e5. record {
                          out_temp = refl;
                          in_temp = refl;
                          out_hum = refl;
                          in_hum = refl;
                          in_qual = refl;
                          out_qual = refl;
                          in_pres = refl;
                          out_pres = refl;
                          in_sound = refl;
                          out_sound = refl;
                          modus = refl;
                          state_window = refl;
                          priority = priority_words-ShowsPriority db (v (codes "Priority")) p0 e0;
                          air_quality =
                              alarm_words-ShowsState db (v (codes "Air_Quality_AlarmState")) p1 e1;
                          temp = alarm_words-ShowsState db (v (codes "Temp_AlarmState")) p2 e2;
                          humidity =
                              alarm_words-ShowsState db (v (codes "Humidity_AlarmState")) p3 e3;
                          noise = alarm_words-ShowsState db (v (codes "Volume_AlarmState")) p4 e4;
                          wind = alarm_words-ShowsState db (v (codes "Wind_AlarmState")) p5 e5;
                          manu = enabled_manu (db.truthy (v (codes "AutoModus")));
                          auto = enabled_auto (db.truthy (v (codes "AutoModus")));
                          man_open =
                              enabled_open (db.truthy (v (codes "AutoModus")))
                                (db.truthy (v (codes "Win_Open")));
                          man_close =
                              enabled_close (db.truthy (v (codes "AutoModus")))
                                (db.truthy (v (codes "Win_Open")));
                        }

module _ {W : Type 0} (db : Db W) (rows : Rows db) (v k : Bytes → db.Cell) where
  current_values-ok :
      (w : W) → At db rows v k w → (w' : W) × (current_values db w ≡ (ok (values_of v), w'))
  unfolding current_values
  current_values-ok w at =
      let read = reads db rows v k (λ r. (w' : W) × (r ≡ (ok (values_of v), w'))) in
      read (codes "AirPressure_IN") _ w refl at λ w1 a1.
        read (codes "AirPressure_OUT") _ w1 refl a1 λ w2 a2.
          read (codes "AirQuality_IN") _ w2 refl a2 λ w3 a3.
            read (codes "AirQuality_OUT") _ w3 refl a3 λ w4 a4.
              read (codes "Win_Open") _ w4 refl a4 λ w5 a5.
                read (codes "AutoModus") _ w5 refl a5 λ w6 a6.
                  read (codes "Humidity_IN") _ w6 refl a6 λ w7 a7.
                    read (codes "Humidity_OUT") _ w7 refl a7 λ w8 a8.
                      read (codes "Temp_IN") _ w8 refl a8 λ w9 a9.
                        read (codes "Temp_OUT") _ w9 refl a9 λ w10 a10.
                          read (codes "Volume_IN") _ w10 refl a10 λ w11 a11.
                            read (codes "Volume_OUT") _ w11 refl a11 λ w12 a12.
                              read (codes "Priority") _ w12 refl a12 λ w13 a13.
                                read (codes "Air_Quality_AlarmState") _ w13 refl a13 λ w14 a14.
                                  read (codes "Temp_AlarmState") _ w14 refl a14 λ w15 a15.
                                    read (codes "Humidity_AlarmState") _ w15 refl a15 λ w16 a16.
                                      read (codes "Volume_AlarmState") _ w16 refl a16 λ w17 a17.
                                        read (codes "Wind_AlarmState") _ w17 refl a17
                                          λ w18 a18. (w18, refl)

module _ {W : Type 0} (db : Db W) (rows : Rows db) where
  -- What all programs have written, the web server what it has not committed yet too.
  abbrev pub current : W → Bytes → db.Cell
  current w table = if rows.dirty w table then rows.seen w table else rows.committed w table

  -- Where the database works and no other program writes meanwhile, the main page is given exactly
  -- when there are words for the priority and for the states of the five alarms, and raises
  -- otherwise. The page shows the current values of the tables, the mode as automatic or manual, the
  -- window as opened or closed, the priority and the alarms in the words and colours for their
  -- numbers, and of its buttons those can be pressed that do something.
  pub main_page-Ends :
      (w : W)
      → Ends
          (showable db (current w))
          (λ p. (h : _) × (p ≡ home h) × IsPageOf db (current w) h)
          (respond db Request.main w).0
  unfolding respond home_page main_page
  main_page-Ends w =
      let (w1, e, s, c) = rows.commits w in
      let v = rows.seen w1 in
      let (w2, r) = current_values-ok db rows v (rows.committed w1) w1 (refl, refl) in
      let is_current : v ≡ current w = λ i t. s t i in
      subst
        (λ x.
          Ends (showable db x) (λ p. (h : _) × (p ≡ home h) × IsPageOf db x h) (home_page db w).0)
        is_current
        (Ends-map (showable db v) (IsPageOf db v) home (describe db (values_of v) w2) (main_page db)
          w (bind-ok _ _ w w1 tt e ∙ bind-ok _ _ w1 w2 (values_of v) r) (describe-Ends db v w2))
