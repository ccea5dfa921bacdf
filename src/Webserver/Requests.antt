-- ===== src/Webserver/Requests.antt =====
-- What the web server answers to each request (Webserver/Webserver.py): the buttons, the limits, and the pages
-- that are only rendered.
use smart_window.Common.{Option, if◌then◌else◌, Bytes, codes}
use smart_window.Webserver.{Db, latest, insert, or_raise}
use smart_window.Webserver.Exec.{E, pure, ◌>>=◌, ◌>>◌}
use smart_window.Webserver.Pages.{Home, Settings, main_page, limits_text}

-- The values of the form, as they are sent.
pub record Limits : Type 0 where
  pub min_temp : Bytes
  pub max_temp : Bytes
  pub min_hum : Bytes
  pub max_hum : Bytes
  pub max_qual : Bytes
  pub max_wind : Bytes
  pub max_sound : Bytes
  pub prio : Bytes

-- The values of the button to reset.
abbrev pub defaults : Limits
defaults = record {
  min_temp = codes "20";
  max_temp = codes "26";
  min_hum = codes "30";
  max_hum = codes "65";
  max_qual = codes "1";
  max_wind = codes "21";
  max_sound = codes "60";
  prio = codes "3";
}

-- The routes; a form gives the value of a field, if it has the field.
pub data Request : Type 0 where
  start titel links main auto manu open_it close_it settings settings_text reset : Request
  description description_text : Request
  submit : (Bytes → Option Bytes) → Request

-- A template without values, or one of the pages.
pub data Page (Cell : Type 0) : Type 0 where
  template : Bytes → Page Cell
  home : Home Cell → Page Cell
  limits : Settings Cell → Page Cell

module _ {W : Type 0} (db : Db W) where
  unfoldable pub home_page : E W (Page db.Cell)
  unfolding main_page
  home_page = do h ← main_page db; pure (home h)

  unfoldable pub limits_page : E W (Page db.Cell)
  unfolding limits_text
  limits_page = do s ← limits_text db; pure (limits s)

  unfoldable pub press_auto : E W (Page db.Cell)
  unfolding home_page insert
  press_auto = do
    insert db (codes "AutoModus") (codes "1")
    insert db (codes "ManOpen") (codes "0")
    insert db (codes "ManClose") (codes "0")
    db.commit
    home_page

  unfoldable pub press_manu : E W (Page db.Cell)
  unfolding home_page insert
  press_manu = do insert db (codes "AutoModus") (codes "0"); db.commit; home_page

  -- The two buttons of the window differ in the values that they write.
  unfoldable pub press_window : Bytes → Bytes → E W (Page db.Cell)
  unfolding home_page insert latest
  press_window man_open man_close = do
    modus ← latest db (codes "AutoModus")
    (if db.truthy modus then pure tt else (do
      insert db (codes "ManOpen") man_open
      insert db (codes "ManClose") man_close
      db.commit))
    home_page

  unfoldable pub write_limits : Limits → E W (Page db.Cell)
  unfolding limits_page insert
  write_limits l = do
    insert db (codes "Temp_MIN") l.min_temp
    insert db (codes "Temp_MAX") l.max_temp
    insert db (codes "Humidity_MIN") l.min_hum
    insert db (codes "Humidity_MAX") l.max_hum
    insert db (codes "AirQuality_MAX") l.max_qual
    insert db (codes "Wind_MAX") l.max_wind
    insert db (codes "Volume_MAX") l.max_sound
    insert db (codes "Priority") l.prio
    insert db (codes "LimitChange") (codes "1")
    db.commit
    limits_page

  -- A field that the form lacks raises, before anything is written.
  unfoldable pub press_submit : (Bytes → Option Bytes) → E W (Page db.Cell)
  unfolding write_limits
  press_submit form = do
    min_temp ← or_raise (form (codes "MinTemp"))
    max_temp ← or_raise (form (codes "MaxTemp"))
    min_hum ← or_raise (form (codes "MinHum"))
    max_hum ← or_raise (form (codes "MaxHum"))
    max_qual ← or_raise (form (codes "MaxCO2"))
    max_wind ← or_raise (form (codes "MaxWind"))
    max_sound ← or_raise (form (codes "MaxNoise"))
    prio ← or_raise (form (codes "Priority"))
    write_limits (record {
      min_temp = min_temp;
      max_temp = max_temp;
      min_hum = min_hum;
      max_hum = max_hum;
      max_qual = max_qual;
      max_wind = max_wind;
      max_sound = max_sound;
      prio = prio;
    })

  unfoldable pub respond : Request → E W (Page db.Cell)
  unfolding home_page limits_page press_auto press_manu press_window press_submit write_limits
  respond start = pure (template (codes "Home-Construction.html"))
  respond titel = pure (template (codes "Header.html"))
  respond links = pure (template (codes "Links.html"))
  respond main = home_page
  respond auto = press_auto
  respond manu = press_manu
  respond open_it = press_window (codes "1") (codes "0")
  respond close_it = press_window (codes "0") (codes "1")
  respond settings = pure (template (codes "Settings-Construction.html"))
  respond settings_text = limits_page
  respond (submit form) = press_submit form
  respond reset = write_limits defaults
  respond description = pure (template (codes "Description-Construction.html"))
  respond description_text = pure (template (codes "Description.html"))
