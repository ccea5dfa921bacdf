-- ===== src/Webserver/Modes.antt =====
-- The tables of the buttons (Webserver/Webserver.py, lines 157 to 200) as the web server sees them, and as it has
-- committed them.
pub mod Keeping
pub mod Safety
pub mod Sequences
pub mod Known
pub mod Refusals
use smart_window.Common.{
  ◌≡◌, ◌⊎◌, Bool, true, false, ◌&&◌, ◌||◌, if◌then◌else◌, Option, none, some, Bytes, codes, List,
  [], ◌∷◌, All, ℕ, ◌≤◌,
}
use smart_window.Webserver.{Db, select_text, insert_text}
use smart_window.Webserver.Exec.{Result, ok, raised}
use smart_window.Webserver.Requests.{Request, submit, respond}

-- The tables of the buttons, and whether the latest value of each is true.
pub data Control : Type 0 where
  auto_modus man_open man_close : Control

abbrev pub name : Control → Bytes
name auto_modus = codes "AutoModus"
name man_open = codes "ManOpen"
name man_close = codes "ManClose"

pub record Controls : Type 0 where
  pub auto : Bool
  pub open_asked : Bool
  pub close_asked : Bool

abbrev pub get : Control → Controls → Bool
get auto_modus c = c.auto
get man_open c = c.open_asked
get man_close c = c.close_asked

abbrev pub put : Control → Bool → Controls → Controls
put auto_modus b c = record c { auto = b }
put man_open b c = record c { open_asked = b }
put man_close b c = record c { close_asked = b }

-- `seen` is with what the connection has written itself; the other programs read `committed`.
pub record Views : Type 0 where
  pub seen : Controls
  pub committed : Controls

abbrev pub digit : Bool → Bytes
digit b = if b then codes "1" else codes "0"

-- A text of digits.
abbrev pub IsNumber : Bytes → Type 0
IsNumber = All (λ c. (b'0' ≤ c) × (c ≤ b'9'))

-- The tables that are written with values of a form.
abbrev pub limit_tables : List Bytes
limit_tables =
    codes "Temp_MIN"
    ∷ codes "Temp_MAX"
    ∷ codes "Humidity_MIN"
    ∷ codes "Humidity_MAX"
    ∷ codes "AirQuality_MAX"
    ∷ codes "Wind_MAX"
    ∷ codes "Volume_MAX"
    ∷ codes "Priority"
    ∷ codes "LimitChange"
    ∷ []

abbrev pub same : Control → Control → Bool
same auto_modus auto_modus = true
same man_open man_open = true
same man_close man_close = true
same _ _ = false

-- What the code relies on of the connection and of the database behind it. Only the web server writes these
-- tables. A query for a value changes nothing, whether it succeeds or not, and neither does a number
-- that is written to another table. Each table of a button has a row, and to commit makes known what was written.
-- The time of a row is a whole second and a key of its table: a table that has a row of the current second is `full`
-- and refuses another one. Nothing but a row of its own fills a table.
pub record Serves {W : Type 0} (db : Db W) (views : W → Views) : Type 0 where
  pub full : Control → W → Bool
  pub select_keeps : (table : Bytes) (w : W) → views (db.execute (select_text table) w).1 ≡ views w
  pub fetch_keeps : (w : W) → views (db.fetchone w).1 ≡ views w
  pub limit_keeps :
      All
        (λ table.
          (value : Bytes) (w : W)
          → IsNumber value
          → views (db.execute (insert_text table value) w).1 ≡ views w)
        limit_tables
  pub selects :
      (k : Control) (w : W)
      → (c : db.Cell) × (w' : W) × (w'' : W) × (db.execute (select_text (name k)) w ≡ (ok tt, w'))
        × (db.fetchone w' ≡ (ok (some c), w''))
        × (db.truthy c ≡ get k (views w).seen)
        × ((k' : Control) → full k' w ≡ false → full k' w'' ≡ false)
  pub inserts :
      (k : Control) (b : Bool) (w : W)
      → full k w ≡ false
      → (w' : W) × (db.execute (insert_text (name k) (digit b)) w ≡ (ok tt, w'))
        × (views w' ≡ record (views w) { seen = put k b (views w).seen })
        × ((k' : Control) → same k k' ≡ false → full k' w ≡ false → full k' w' ≡ false)
  pub refuses :
      (k : Control) (b : Bool) (w : W)
      → full k w ≡ true
      → (w' : W) × (db.execute (insert_text (name k) (digit b)) w ≡ (raised, w'))
        × (views w' ≡ views w)
  pub commits :
      (w : W)
      → (w' : W) × (db.commit w ≡ (ok tt, w'))
        × (views w' ≡ record { seen = (views w).seen; committed = (views w).seen })

-- Opening and closing are not asked for at once, and neither in automatic mode.
pub record IsConsistent (c : Controls) : Type 0 where
  pub exclusive : (c.open_asked && c.close_asked) ≡ false
  pub idle : (c.auto && (c.open_asked || c.close_asked)) ≡ false

-- Only numbers are submitted.
abbrev pub IsPlain : Request → Type 0
IsPlain (submit form) = (field value : Bytes) → form field ≡ some value → IsNumber value
IsPlain _ = Unit {0}

-- The requests are answered one after the other, with a pause before each.
unfoldable pub answers : {W : Type 0} → Db W → (W → W) → List Request → W → W
unfolding respond
answers db pause [] w = w
answers db pause (r ∷ rs) w = answers db pause rs (respond db r (pause w)).1
