-- ===== src/Controller/Round/Storing/Rounds.antt =====
-- The rows of the alarm states, performed (RaspberryPi/Window_Controller/main_controller.cpp, lines 474 to 530).
use mathlib.Core.Path.{subst}
use smart_window.Common.{
  ℕ, ◌≡◌, refl, sym, ap, ◌∙◌, Bool, true, ◌&&◌, some, Bytes, codes, List, [], ◌∷◌, ◌++◌, map, All,
  if◌then◌else◌,
}
use smart_window.Common.Int.{ℤ, leb_ℤ}
use smart_window.Common.Outcome.{M}
use smart_window.Controller.Readings.{Readings}
use smart_window.Controller.Alarms.{
  Alarms, Row, state_rows, air_q_rows, temp_rows, humid_rows, vol_rows,
}
use smart_window.Controller.Round.{Controller, Effect, writes, sleeps, commands, round, perform}
use smart_window.Controller.Round.Reached.{round-Parts}
use smart_window.Controller.Round.Storing.{Stores, AreStored, HumidityStored, first_three}
use smart_window.Controller.Round.Storing.Rows.{
  named, temp_row, humid_on, noise_row, air_row, IsQuiet, commands-IsQuiet, temp_stored,
  noise_stored, effects_in_order, HumidityStored-map, humidity_alarm,
}
use smart_window.Controller.Round.Storing.Performing.{
  both_leave, all_leave, row_first, noise_last, humidity_then, Reaches,
}

module _ {W : Type 0} (get_bool : Bytes → M W Bool) (get_int : Bytes → M W ℤ)
    (write : Row → M W (Unit {0})) (send : Bytes → M W (Unit {0})) (sleep : ℕ → M W (Unit {0}))
    (held : W → Bytes → List Bytes) (free : W → Bytes → Bool)
    (stores : Stores write send sleep held free) where
  -- Whether the table of the humidity is free after the first three effects.
  abbrev Again : List Effect → W → Bool → Type 0
  Again es w b =
      Reaches get_bool get_int write send sleep held free stores (first_three es) w
        (λ m. free m (codes "Humidity_AlarmState") ≡ b)

  abbrev ThenAgain : W → Bool → Type 0
  ThenAgain w b =
      Reaches get_bool get_int write send sleep held free stores humidity_alarm w
        (λ m. free m (codes "Humidity_AlarmState") ≡ b)

  alarm-Again :
      (r : Readings) (a : Alarms) (l es : List Effect) (x y : Row) (w w₁ w₂ : W)
      → l ≡ writes x ∷ writes y ∷ (map writes (humid_rows r a) ++ es)
      → ((es' : List Effect)
          → perform get_bool get_int write send sleep (writes x ∷ es') w
            ≡ perform get_bool get_int write send sleep es' w₁)
      → ((es' : List Effect)
          → perform get_bool get_int write send sleep (writes y ∷ es') w₁
            ≡ perform get_bool get_int write send sleep es' w₂)
      → a.humid_alarm ≡ true
      → (b : Bool) → ThenAgain w₂ b
      → Again l w b
  alarm-Again r a l es x y w w₁ w₂ order e₁ e₂ on b (m, e, f) = (
    m,
    ap (λ es'. perform get_bool get_int write send sleep (first_three es') w)
          (order
            ∙ ap (λ rows. writes x ∷ writes y ∷ (map writes rows ++ es)) (humid_on r a _ on refl))
        ∙ e₁ (writes y ∷ humidity_alarm)
        ∙ e₂ humidity_alarm
        ∙ e,
    f,
  )

  rows_stored :
      (r : Readings) (a : Alarms) (es : List Effect) (w : W)
      → All IsQuiet es
      → free w (codes "Temp_AlarmState") ≡ true
      → free w (codes "Humidity_AlarmState") ≡ true
      → free w (codes "Volume_AlarmState") ≡ true
      → (w' : W) × (perform get_bool get_int write send sleep (map writes (state_rows r a) ++ es) w
          ≡ some (tt, w'))
        × AreStored (Again (map writes (state_rows r a) ++ es) w) (held w) (held w') r a
  unfolding state_rows
  rows_stored r a es w q ft fh fv =
      let b = leb_ℤ r.temp_min r.temp_in && leb_ℤ r.temp_in r.temp_max in
      let air = if a.air_q_alarm then codes "2" else codes "0" in
      let temp = if a.temp_alarm then codes "2" else (if b then codes "0" else codes "1") in
      let noise = if a.vol_alarm then codes "2" else codes "0" in
      let after_humidity = writes (named (codes "Volume_AlarmState") noise) ∷ es in
      let after_temp = map writes (humid_rows r a) ++ after_humidity in
      let (w₁, e₁, _, _, k₁) =
        row_first get_bool get_int write send sleep held free stores (codes "AirQuality_AlarmState")
          air w in
      let (w₂, e₂, _, t₂, k₂) =
        row_first get_bool get_int write send sleep held free stores (codes "Temp_AlarmState") temp
          w₁ in
      let l₂ =
        both_leave get_bool get_int write send sleep held free stores
          (codes "AirQuality_AlarmState") (codes "Temp_AlarmState") w w₁ w₂ k₁ k₂ in
      let humidity = codes "Humidity_AlarmState" in
      let (w₃, e₃, h₃, k₃) =
        humidity_then get_bool get_int write send sleep held free stores r a after_humidity w₂
          ((l₂ humidity refl refl refl).1 fh) in
      let l₃ =
        all_leave get_bool get_int write send sleep held free stores (codes "AirQuality_AlarmState")
          (codes "Temp_AlarmState") humidity w w₁ w₂ w₃ k₁ k₂ k₃ in
      let (w₄, e₄, v₄, k₄) =
        noise_last get_bool get_int write send sleep held free stores noise es w₃ q
          ((l₃ (codes "Volume_AlarmState") refl refl refl refl).1 fv) in
      let order =
        effects_in_order (air_q_rows a) (temp_rows r a) (humid_rows r a) (vol_rows a)
          (named (codes "AirQuality_AlarmState") air) (named (codes "Temp_AlarmState") temp)
          (named (codes "Volume_AlarmState") noise) es (air_row a)
          (temp_row r a a.temp_alarm b refl refl) (noise_row a) in
      (
        w₄,
        ap (λ l. perform get_bool get_int write send sleep l w) order
            ∙ e₁ (writes (named (codes "Temp_AlarmState") temp) ∷ after_temp)
            ∙ e₂ after_temp
            ∙ e₃
            ∙ e₄,
        record {
          temp = temp_stored r a _ _ b refl (
              k₄ (codes "Temp_AlarmState") refl refl
              ∙ (k₃ (codes "Temp_AlarmState") refl refl).0
              ∙ t₂ ((k₁ (codes "Temp_AlarmState") refl refl).1 ft)
              ∙ ap (λ vs. temp ∷ vs) (k₁ (codes "Temp_AlarmState") refl refl).0);
          humidity =
              HumidityStored-map r a (held w humidity) (held w₄ humidity)
                (alarm-Again r a (map writes (state_rows r a) ++ es) after_humidity _ _ w w₁ w₂
                  order e₁ e₂)
                (subst (λ x. HumidityStored r a (ThenAgain w₂) x (held w₄ humidity))
                  (l₂ humidity refl refl refl).0
                  (subst (HumidityStored r a (ThenAgain w₂) (held w₂ humidity))
                    (sym (k₄ humidity refl refl)) h₃));
          noise =
              noise_stored a _ _
                (v₄ ∙ ap (λ vs. noise ∷ vs) (l₃ (codes "Volume_AlarmState") refl refl refl refl).0);
          air_quality =
              k₄ (codes "Air_Quality_AlarmState") refl refl
              ∙ (l₃ (codes "Air_Quality_AlarmState") refl refl refl refl).0;
          wind =
              k₄ (codes "Wind_AlarmState") refl refl
              ∙ (l₃ (codes "Wind_AlarmState") refl refl refl refl).0;
        },
      )

  -- Where the database takes one row per second of a table it has, and no other program writes the alarm
  -- states: after a round that starts with free tables, the table of the temperature holds one more value,
  -- 2 while the alarm is on and otherwise 0 in range and 1 out of it; that of the noise one more, 2 or
  -- 0; that of the humidity is left while the alarm is off; while it is on, it holds one more value, 2, and
  -- after it 0 in range or 1 out of it exactly if it is free again after the first three rows of the
  -- round. The tables Air_Quality_AlarmState and Wind_AlarmState, which the main page shows, are left.
  pub round-AreStored :
      (r : Readings) (c c' : Controller) (es : List Effect) (w : W)
      → round r c ≡ some (c', es)
      → free w (codes "Temp_AlarmState") ≡ true
      → free w (codes "Humidity_AlarmState") ≡ true
      → free w (codes "Volume_AlarmState") ≡ true
      → (w' : W) × (perform get_bool get_int write send sleep es w ≡ some (tt, w'))
        × AreStored
            (λ b.
              (m : W) × (perform get_bool get_int write send sleep (first_three es) w
                ≡ some (tt, m))
              × (free m (codes "Humidity_AlarmState") ≡ b))
            (held w)
            (held w')
            r
            c'.alarms
  round-AreStored r c c' es w h ft fh fv =
      let p = round-Parts r c c' es h in
      let (w', e, stored) =
        rows_stored r c'.alarms (commands c'.flags ++ sleeps 5 ∷ []) w (commands-IsQuiet c'.flags)
          ft fh fv in
      (
        w',
        ap (λ l. perform get_bool get_int write send sleep l w) p.effects ∙ e,
        subst (λ l. AreStored (Again l w) (held w) (held w') r c'.alarms) (sym p.effects) stored,
      )
