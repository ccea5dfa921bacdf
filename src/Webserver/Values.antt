-- ===== src/Webserver/Values.antt =====
-- The latest values of the tables as the web server sees and writes them (Webserver/Webserver.py).
pub mod Words
pub mod Reading
pub mod Shown
pub mod Settings
pub mod Writing
pub mod Submitting
use smart_window.Common.{
  is_in, ◌≡◌, ◌⊎◌, Bool, true, false, ◌||◌, if◌then◌else◌, Option, none, some, Bytes, codes, List,
  [], ◌∷◌, str_eq, ℕ,
}
use smart_window.Webserver.{Db, select_text, insert_text}
use smart_window.Webserver.Exec.{ok}

-- The tables that the pages show.
abbrev pub tables : List Bytes
tables =
    codes "AirPressure_IN"
    ∷ codes "AirPressure_OUT"
    ∷ codes "AirQuality_IN"
    ∷ codes "AirQuality_OUT"
    ∷ codes "Win_Open"
    ∷ codes "AutoModus"
    ∷ codes "Humidity_IN"
    ∷ codes "Humidity_OUT"
    ∷ codes "Temp_IN"
    ∷ codes "Temp_OUT"
    ∷ codes "Volume_IN"
    ∷ codes "Volume_OUT"
    ∷ codes "Priority"
    ∷ codes "Air_Quality_AlarmState"
    ∷ codes "Temp_AlarmState"
    ∷ codes "Humidity_AlarmState"
    ∷ codes "Volume_AlarmState"
    ∷ codes "Wind_AlarmState"
    ∷ codes "Wind_MAX"
    ∷ codes "AirQuality_MAX"
    ∷ codes "Humidity_MAX"
    ∷ codes "Humidity_MIN"
    ∷ codes "Temp_MAX"
    ∷ codes "Temp_MIN"
    ∷ codes "Volume_MAX"
    ∷ []

-- What the code relies on of the connection and of the database behind it, while no other program writes. Each table has a
-- row. What the connection sees stays the same until it commits, but for its own rows, and it has then what all
-- programs have committed. A table takes some values, and refuses a second row in one second (`full`).
pub record Rows {W : Type 0} (db : Db W) : Type 0 where
  pub cell : Bytes → db.Cell
  pub takes : Bytes → Bytes → Bool
  pub seen : W → Bytes → db.Cell
  pub committed : W → Bytes → db.Cell
  pub dirty : W → Bytes → Bool
  pub full : W → Bytes → Bool
  pub selects :
      (table : Bytes) (w : W)
      → is_in table tables ≡ true
      → (w' : W) × (w'' : W) × (db.execute (select_text table) w ≡ (ok tt, w'))
        × (db.fetchone w' ≡ (ok (some (seen w table)), w''))
        × (seen w'' ≡ seen w)
        × (committed w'' ≡ committed w)
  pub inserts :
      (table value : Bytes) (w : W)
      → takes table value ≡ true
      → full w table ≡ false
      → (w' : W) × (db.execute (insert_text table value) w ≡ (ok tt, w'))
        × ((t : Bytes) → seen w' t ≡ (if str_eq t table then cell value else seen w t))
        × ((t : Bytes) → dirty w' t ≡ (if str_eq t table then true else dirty w t))
        × ((t : Bytes) → str_eq t table ≡ false → full w t ≡ false → full w' t ≡ false)
  pub commits :
      (w : W)
      → (w' : W) × (db.commit w ≡ (ok tt, w'))
        × ((t : Bytes) → seen w' t ≡ (if dirty w t then seen w t else committed w t))
        × ((t : Bytes) → committed w' t ≡ seen w' t)
