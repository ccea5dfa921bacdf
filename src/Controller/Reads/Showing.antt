-- ===== src/Controller/Reads/Showing.antt =====
-- The reads of a round from a database in which each table has a row (RaspberryPi/Window_Controller/main_controller.cpp,
-- lines 371 to 420, and write_read.cpp).
use smart_window.Common.{is_in, ℕ, ◌≡◌, refl, true, Option, some, Bytes, codes, List}
use smart_window.Controller.Readings.{Readings, read_readings}
use smart_window.Controller.Reads.{read_database, tables}
use smart_window.Database.Queries.{atoi}
use smart_window.Database.Access.{MySql, Floats}
use smart_window.Database.Server.{Connects}
use smart_window.Controller.Reads.Latest.{Says, HasIt, bool_read, int_read}

-- The readings are the latest values of the tables.
pub record Shows (id_text : ℕ → Bytes) (floats : Floats) (content : Bytes → List Bytes)
    (r : Readings) : Type 0 where
  pub auto_mode :
      Says id_text
        (content (codes "AutoModus"))
        (λ v b. floats.is_nonzero (floats.atof v) ≡ b)
        r.auto_mode
  pub man_close :
      Says id_text
        (content (codes "ManClose"))
        (λ v b. floats.is_nonzero (floats.atof v) ≡ b)
        r.man_close
  pub man_open :
      Says id_text
        (content (codes "ManOpen"))
        (λ v b. floats.is_nonzero (floats.atof v) ≡ b)
        r.man_open
  pub win_open :
      Says id_text
        (content (codes "Win_Open"))
        (λ v b. floats.is_nonzero (floats.atof v) ≡ b)
        r.win_open
  pub air_p_in : Says id_text (content (codes "AirPressure_IN")) (λ v n. atoi v ≡ some n) r.air_p_in
  pub air_p_out :
      Says id_text (content (codes "AirPressure_OUT")) (λ v n. atoi v ≡ some n) r.air_p_out
  pub air_p_max :
      Says id_text (content (codes "AirPressure_MAX")) (λ v n. atoi v ≡ some n) r.air_p_max
  pub air_q_in : Says id_text (content (codes "AirQuality_IN")) (λ v n. atoi v ≡ some n) r.air_q_in
  pub air_q_out :
      Says id_text (content (codes "AirQuality_OUT")) (λ v n. atoi v ≡ some n) r.air_q_out
  pub air_q_max :
      Says id_text (content (codes "AirQuality_MAX")) (λ v n. atoi v ≡ some n) r.air_q_max
  pub humid_in : Says id_text (content (codes "Humidity_IN")) (λ v n. atoi v ≡ some n) r.humid_in
  pub humid_out : Says id_text (content (codes "Humidity_OUT")) (λ v n. atoi v ≡ some n) r.humid_out
  pub humid_min : Says id_text (content (codes "Humidity_MIN")) (λ v n. atoi v ≡ some n) r.humid_min
  pub humid_max : Says id_text (content (codes "Humidity_MAX")) (λ v n. atoi v ≡ some n) r.humid_max
  pub temp_in : Says id_text (content (codes "Temp_IN")) (λ v n. atoi v ≡ some n) r.temp_in
  pub temp_out : Says id_text (content (codes "Temp_OUT")) (λ v n. atoi v ≡ some n) r.temp_out
  pub temp_min : Says id_text (content (codes "Temp_MIN")) (λ v n. atoi v ≡ some n) r.temp_min
  pub temp_max : Says id_text (content (codes "Temp_MAX")) (λ v n. atoi v ≡ some n) r.temp_max
  pub vol_in : Says id_text (content (codes "Volume_IN")) (λ v n. atoi v ≡ some n) r.vol_in
  pub vol_out : Says id_text (content (codes "Volume_OUT")) (λ v n. atoi v ≡ some n) r.vol_out
  pub vol_max : Says id_text (content (codes "Volume_MAX")) (λ v n. atoi v ≡ some n) r.vol_max
  pub priority : Says id_text (content (codes "Priority")) (λ v n. atoi v ≡ some n) r.priority

module _ {W : Type 0} (lib : MySql W) (floats : Floats) (sessions : W → ℕ)
    (content : W → Bytes → List Bytes) (works : Connects lib sessions content)
    (id_text : ℕ → Bytes) where
  pub read_database-Shows :
      (w : W) (r : Readings)
      → ((table : Bytes) → is_in table tables ≡ true → HasIt lib sessions content id_text table)
      → Shows id_text floats (content w) r
      → (w' : W) × (read_database lib floats w ≡ some (r, w'))
        × (sessions w' ≡ sessions w)
        × (content w' ≡ content w)
  unfolding read_database read_readings
  read_database-Shows w r has shows =
      let P : Option (Readings × W) → Type 0 = λ o.
        (w' : W) × (o ≡ some (r, w')) × (sessions w' ≡ sessions w) × (content w' ≡ content w) in
      let b = bool_read lib floats sessions content works id_text (content w) (sessions w) P in
      let i = int_read lib floats sessions content works id_text (content w) (sessions w) P in
      b (codes "AutoModus") _ _ w (has (codes "AutoModus") refl) shows.auto_mode (refl, refl)
        λ w1 a1.
          b (codes "ManClose") _ _ w1 (has (codes "ManClose") refl) shows.man_close a1 λ w2 a2.
            b (codes "ManOpen") _ _ w2 (has (codes "ManOpen") refl) shows.man_open a2 λ w3 a3.
              b (codes "Win_Open") _ _ w3 (has (codes "Win_Open") refl) shows.win_open a3 λ w4 a4.
                i (codes "AirPressure_IN") _ _ w4 (has (codes "AirPressure_IN") refl) shows.air_p_in
                  a4
                  λ w5 a5.
                    i (codes "AirPressure_OUT") _ _ w5 (has (codes "AirPressure_OUT") refl)
                      shows.air_p_out a5
                      λ w6 a6.
                        i (codes "AirPressure_MAX") _ _ w6 (has (codes "AirPressure_MAX") refl)
                          shows.air_p_max a6
                          λ w7 a7.
                            i (codes "AirQuality_IN") _ _ w7 (has (codes "AirQuality_IN") refl)
                              shows.air_q_in a7
                              λ w8 a8.
                                i (codes "AirQuality_OUT") _ _ w8
                                  (has (codes "AirQuality_OUT") refl) shows.air_q_out a8
                                  λ w9 a9.
                                    i (codes "AirQuality_MAX") _ _ w9
                                      (has (codes "AirQuality_MAX") refl) shows.air_q_max a9
                                      λ w10 a10.
                                        i (codes "Humidity_IN") _ _ w10
                                          (has (codes "Humidity_IN") refl) shows.humid_in a10
                                          λ w11 a11.
                                            i (codes "Humidity_OUT") _ _ w11
                                              (has (codes "Humidity_OUT") refl) shows.humid_out a11
                                              λ w12 a12.
                                                i (codes "Humidity_MIN") _ _ w12
                                                  (has (codes "Humidity_MIN") refl) shows.humid_min
                                                  a12
                                                  λ w13 a13.
                                                    i (codes "Humidity_MAX") _ _ w13
                                                      (has (codes "Humidity_MAX") refl)
                                                      shows.humid_max a13
                                                      λ w14 a14.
                                                        i (codes "Temp_IN") _ _ w14
                                                          (has (codes "Temp_IN") refl) shows.temp_in
                                                          a14
                                                          λ w15 a15.
                                                            i (codes "Temp_OUT") _ _ w15
                                                            (has (codes "Temp_OUT") refl)
                                                            shows.temp_out a15
                                                            λ w16 a16.
                                                            i (codes "Temp_MIN") _ _ w16
                                                            (has (codes "Temp_MIN") refl)
                                                            shows.temp_min a16
                                                            λ w17 a17.
                                                            i (codes "Temp_MAX") _ _ w17
                                                            (has (codes "Temp_MAX") refl)
                                                            shows.temp_max a17
                                                            λ w18 a18.
                                                            i (codes "Volume_IN") _ _ w18
                                                            (has (codes "Volume_IN") refl)
                                                            shows.vol_in a18
                                                            λ w19 a19.
                                                            i (codes "Volume_OUT") _ _ w19
                                                            (has (codes "Volume_OUT") refl)
                                                            shows.vol_out a19
                                                            λ w20 a20.
                                                            i (codes "Volume_MAX") _ _ w20
                                                            (has (codes "Volume_MAX") refl)
                                                            shows.vol_max a20
                                                            λ w21 a21.
                                                            i (codes "Priority") _ _ w21
                                                            (has (codes "Priority") refl)
                                                            shows.priority a21
                                                            λ w22 a22. (w22, refl, a22.1, a22.0)
