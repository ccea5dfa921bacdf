-- ===== src/Webserver/Values/Settings.antt =====
-- The settings, and the page that shows them (Webserver/Webserver.py, lines 207 to 261).
use smart_window.Common.{
  ℕ, ◌<◌, ◌==◌, ◌≡◌, refl, ap, ◌∙◌, Bool, true, if◌then◌else◌, Option, some, Bytes, codes, arith,
}
use smart_window.Webserver.{Db, or_raise, selections}
use smart_window.Webserver.Exec.{ok}
use smart_window.Webserver.Pages.{Settings, limits_text}
use smart_window.Webserver.Requests.{Request, Limits, defaults, limits, limits_page}
use smart_window.Webserver.Values.{Rows}
use smart_window.Webserver.Values.Reading.{At, reads}
use smart_window.Webserver.Modes.Keeping.{bind-ok}

-- The fields that a form has.
pub record SentAs (form : Bytes → Option Bytes) (l : Limits) : Type 0 where
  pub min_temp : form (codes "MinTemp") ≡ some l.min_temp
  pub max_temp : form (codes "MaxTemp") ≡ some l.max_temp
  pub min_hum : form (codes "MinHum") ≡ some l.min_hum
  pub max_hum : form (codes "MaxHum") ≡ some l.max_hum
  pub max_qual : form (codes "MaxCO2") ≡ some l.max_qual
  pub max_wind : form (codes "MaxWind") ≡ some l.max_wind
  pub max_sound : form (codes "MaxNoise") ≡ some l.max_sound
  pub prio : form (codes "Priority") ≡ some l.prio

-- The request sets the limits: SUBMIT to those of its form, RESET to the defaults.
pub data Sets : Request → Limits → Type 0 where
  by_form :
      (form : Bytes → Option Bytes) (l : Limits) → SentAs form l → Sets (Request.submit form) l
  by_reset : Sets Request.reset defaults

-- The tables take the values.
pub record AreTaken (takes : Bytes → Bytes → Bool) (l : Limits) : Type 0 where
  pub min_temp : takes (codes "Temp_MIN") l.min_temp ≡ true
  pub max_temp : takes (codes "Temp_MAX") l.max_temp ≡ true
  pub min_hum : takes (codes "Humidity_MIN") l.min_hum ≡ true
  pub max_hum : takes (codes "Humidity_MAX") l.max_hum ≡ true
  pub max_qual : takes (codes "AirQuality_MAX") l.max_qual ≡ true
  pub max_wind : takes (codes "Wind_MAX") l.max_wind ≡ true
  pub max_sound : takes (codes "Volume_MAX") l.max_sound ≡ true
  pub prio : takes (codes "Priority") l.prio ≡ true
  pub limit_change : takes (codes "LimitChange") (codes "1") ≡ true

-- The settings that `values` holds.
pub record AreSet {C : Type 0} (cell : Bytes → C) (values : Bytes → C) (l : Limits) : Type 0 where
  pub min_temp : values (codes "Temp_MIN") ≡ cell l.min_temp
  pub max_temp : values (codes "Temp_MAX") ≡ cell l.max_temp
  pub min_hum : values (codes "Humidity_MIN") ≡ cell l.min_hum
  pub max_hum : values (codes "Humidity_MAX") ≡ cell l.max_hum
  pub max_qual : values (codes "AirQuality_MAX") ≡ cell l.max_qual
  pub max_wind : values (codes "Wind_MAX") ≡ cell l.max_wind
  pub max_sound : values (codes "Volume_MAX") ≡ cell l.max_sound
  pub prio : values (codes "Priority") ≡ cell l.prio
  pub limit_change : values (codes "LimitChange") ≡ cell (codes "1")

-- The options of the page for the priority: the one with the number of the priority is selected, and no other.
abbrev pub option : ℕ → ℕ → Bytes
option n k = if n == k then codes "selected" else codes " "

-- The cell is the number of one of the four priorities.
pub record IsPriority {W : Type 0} (db : Db W) (c : db.Cell) (n : ℕ) : Type 0 where
  pub known : n < 4
  pub equal : (k : ℕ) → db.equals c k ≡ (n == k)

-- The page that shows the limits, with priority `n` selected.
abbrev pub settings_of : {C : Type 0} → (Bytes → C) → Limits → ℕ → Settings C
settings_of cell l n = record {
  min_temp = cell l.min_temp;
  max_temp = cell l.max_temp;
  min_hum = cell l.min_hum;
  max_hum = cell l.max_hum;
  max_qual = cell l.max_qual;
  max_wind = cell l.max_wind;
  max_sound = cell l.max_sound;
  prio0 = option n 0;
  prio1 = option n 1;
  prio2 = option n 2;
  prio3 = option n 3;
}

abbrev shown_of : {C : Type 0} → (Bytes → C) → ℕ → Settings C
shown_of v n = record {
  min_temp = v (codes "Temp_MIN");
  max_temp = v (codes "Temp_MAX");
  min_hum = v (codes "Humidity_MIN");
  max_hum = v (codes "Humidity_MAX");
  max_qual = v (codes "AirQuality_MAX");
  max_wind = v (codes "Wind_MAX");
  max_sound = v (codes "Volume_MAX");
  prio0 = option n 0;
  prio1 = option n 1;
  prio2 = option n 2;
  prio3 = option n 3;
}

shown_of-AreSet :
    {C : Type 0} (cell v : Bytes → C) (l : Limits) (n : ℕ)
    → AreSet cell v l
    → shown_of v n ≡ settings_of cell l n
shown_of-AreSet cell v l n set i = record {
  min_temp = set.min_temp i;
  max_temp = set.max_temp i;
  min_hum = set.min_hum i;
  max_hum = set.max_hum i;
  max_qual = set.max_qual i;
  max_wind = set.max_wind i;
  max_sound = set.max_sound i;
  prio0 = option n 0;
  prio1 = option n 1;
  prio2 = option n 2;
  prio3 = option n 3;
}

options_by :
    {W : Type 0} (db : Db W) (c : db.Cell) (n : ℕ)
    → n < 4
    → db.equals c 0 ≡ (n == 0)
    → db.equals c 1 ≡ (n == 1)
    → db.equals c 2 ≡ (n == 2)
    → db.equals c 3 ≡ (n == 3)
    → selections db c ≡ some (option n 0, option n 1, option n 2, option n 3)
unfolding selections
options_by db c n small e0 e1 e2 e3 = ground arith

selections-IsPriority :
    {W : Type 0} (db : Db W) (c : db.Cell) (n : ℕ)
    → IsPriority db c n
    → selections db c ≡ some (option n 0, option n 1, option n 2, option n 3)
selections-IsPriority db c n h =
    options_by db c n h.known (h.equal 0) (h.equal 1) (h.equal 2) (h.equal 3)

module _ {W : Type 0} (db : Db W) (rows : Rows db) where
  -- The settings page of what the connection sees.
  limits_text-ok :
      (v k : Bytes → db.Cell) (n : ℕ) (w : W)
      → selections db (v (codes "Priority")) ≡ some (option n 0, option n 1, option n 2, option n 3)
      → At db rows v k w
      → (w' : W) × (limits_text db w ≡ (ok (shown_of v n), w')) × (rows.committed w' ≡ k)
  unfolding limits_text
  limits_text-ok v k n w sel at =
      let read =
        reads db rows v k
          (λ r. (w' : W) × (r ≡ (ok (shown_of v n), w')) × (rows.committed w' ≡ k)) in
      read (codes "Wind_MAX") _ w refl at λ w1 a1.
        read (codes "AirQuality_MAX") _ w1 refl a1 λ w2 a2.
          read (codes "Humidity_MAX") _ w2 refl a2 λ w3 a3.
            read (codes "Humidity_MIN") _ w3 refl a3 λ w4 a4.
              read (codes "Temp_MAX") _ w4 refl a4 λ w5 a5.
                read (codes "Temp_MIN") _ w5 refl a5 λ w6 a6.
                  read (codes "Volume_MAX") _ w6 refl a6 λ w7 a7.
                    read (codes "Priority") _ w7 refl a7 λ w8 a8. (
                      w8,
                      bind-ok (or_raise (selections db (v (codes "Priority")))) _ w8 w8 _
                          (ap (λ o. or_raise o w8) sel),
                      a8.1,
                    )

  pub limits_page-ok :
      (k : Bytes → db.Cell) (l : Limits) (n : ℕ) (w : W)
      → AreSet rows.cell (rows.seen w) l
      → IsPriority db (rows.cell l.prio) n
      → rows.committed w ≡ k
      → (w' : W) × (limits_page db w ≡ (ok (limits (settings_of rows.cell l n)), w'))
        × (rows.committed w' ≡ k)
  unfolding limits_page
  limits_page-ok k l n w set known c =
      let (w', e, c') =
        limits_text-ok (rows.seen w) k n w
          (ap (selections db) set.prio ∙ selections-IsPriority db (rows.cell l.prio) n known)
          (refl, c) in
      (
        w',
        bind-ok (limits_text db) _ w w' _ e
            ∙ ap (λ s. (ok (limits s), w')) (shown_of-AreSet rows.cell (rows.seen w) l n set),
        c',
      )
