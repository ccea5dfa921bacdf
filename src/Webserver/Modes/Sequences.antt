-- ===== src/Webserver/Modes/Sequences.antt =====
-- What the settings and the sequences of requests do to the tables of the buttons.
use mathlib.Core.Path.{subst}
use smart_window.Common.{◌≡◌, sym, true, false, Option, Bytes, codes, List, [], ◌∷◌, All, arith}
use smart_window.Webserver.{Db, insert, insert_text}
use smart_window.Webserver.Exec.{E, ◌>>=◌}
use smart_window.Webserver.Requests.{
  Request, defaults, press_submit, write_limits, respond, Limits, defaults,
}
use smart_window.Webserver.Modes.{Views, Serves, answers, IsPlain, IsNumber}
use smart_window.Webserver.Modes.Keeping.{Keeps-field, Keeps, Keeps-bind}
use smart_window.Webserver.Modes.Safety.{
  AreConsistent, commit_Keeps, home_page-Keeps, limits_page-Keeps, press_auto-Keeps,
  press_manu-Keeps, press_window-Keeps, Fresh,
}

record AreNumbers (l : Limits) : Type 0 where
  min_temp : IsNumber l.min_temp
  max_temp : IsNumber l.max_temp
  min_hum : IsNumber l.min_hum
  max_hum : IsNumber l.max_hum
  max_qual : IsNumber l.max_qual
  max_wind : IsNumber l.max_wind
  max_sound : IsNumber l.max_sound
  prio : IsNumber l.prio

one_IsNumber : IsNumber (codes "1")
one_IsNumber = search (arith) depth 20

defaults-AreNumbers : AreNumbers defaults
defaults-AreNumbers = record {
  min_temp = search (arith) depth 20;
  max_temp = search (arith) depth 20;
  min_hum = search (arith) depth 20;
  max_hum = search (arith) depth 20;
  max_qual = search (arith) depth 20;
  max_wind = search (arith) depth 20;
  max_sound = search (arith) depth 20;
  prio = search (arith) depth 20;
}

module _ {W : Type 0} (db : Db W) (views : W → Views) (works : Serves db views) where
  abbrev Inv : W → Type 0
  Inv w = AreConsistent (views w)

  -- A number that is written to another table, and the calls that follow.
  after_limit :
      {A : Type 0} (table value : Bytes) (m : E W A)
      → ((v : Bytes) (w : W) → IsNumber v → views (db.execute (insert_text table v) w).1 ≡ views w)
      → IsNumber value
      → Keeps Inv m
      → Keeps Inv (insert db table value >>= λ _. m)
  unfolding insert
  after_limit table value m k number km =
      Keeps-bind _ _ (record { at = λ w h. subst AreConsistent (sym (k value w number)) h }) λ _. km

  write_limits-Keeps : (l : Limits) → AreNumbers l → Keeps Inv (write_limits db l)
  unfolding write_limits
  write_limits-Keeps l h =
      let (k1, (k2, (k3, (k4, (k5, (k6, (k7, (k8, (k9, _))))))))) = works.limit_keeps in
      after_limit (codes "Temp_MIN") l.min_temp _ k1 h.min_temp (
        after_limit (codes "Temp_MAX") l.max_temp _ k2 h.max_temp (
          after_limit (codes "Humidity_MIN") l.min_hum _ k3 h.min_hum (
            after_limit (codes "Humidity_MAX") l.max_hum _ k4 h.max_hum (
              after_limit (codes "AirQuality_MAX") l.max_qual _ k5 h.max_qual (
                after_limit (codes "Wind_MAX") l.max_wind _ k6 h.max_wind (
                  after_limit (codes "Volume_MAX") l.max_sound _ k7 h.max_sound (
                    after_limit (codes "Priority") l.prio _ k8 h.prio (
                      after_limit (codes "LimitChange") (codes "1") _ k9 one_IsNumber (
                        Keeps-bind _ _ (commit_Keeps db views works)
                          λ _. (limits_page-Keeps db views works))))))))))

  press_submit-Keeps :
      (form : Bytes → Option Bytes)
      → IsPlain (Request.submit form)
      → Keeps Inv (press_submit db form)
  unfolding press_submit
  press_submit-Keeps form plain = Keeps-field _ _ λ v1 e1. Keeps-field _ _ λ v2 e2.
      Keeps-field _ _ λ v3 e3. Keeps-field _ _ λ v4 e4. Keeps-field _ _ λ v5 e5.
        Keeps-field _ _ λ v6 e6. Keeps-field _ _ λ v7 e7. Keeps-field _ _ λ v8 e8.
          write_limits-Keeps _ (record {
            min_temp = plain _ v1 e1;
            max_temp = plain _ v2 e2;
            min_hum = plain _ v3 e3;
            max_hum = plain _ v4 e4;
            max_qual = plain _ v5 e5;
            max_wind = plain _ v6 e6;
            max_sound = plain _ v7 e7;
            prio = plain _ v8 e8;
          })

  pub respond-AreConsistent :
      (r : Request) (w : W)
      → IsPlain r
      → Fresh db views works w
      → AreConsistent (views w)
      → AreConsistent (views (respond db r w).1)
  unfolding respond
  respond-AreConsistent Request.start w plain fresh h = h
  respond-AreConsistent Request.titel w plain fresh h = h
  respond-AreConsistent Request.links w plain fresh h = h
  respond-AreConsistent Request.main w plain fresh h = (home_page-Keeps db views works).at w h
  respond-AreConsistent Request.auto w plain fresh h = press_auto-Keeps db views works w fresh h
  respond-AreConsistent Request.manu w plain fresh h = press_manu-Keeps db views works w fresh h
  respond-AreConsistent Request.open_it w plain fresh h =
      press_window-Keeps db views works true w fresh h
  respond-AreConsistent Request.close_it w plain fresh h =
      press_window-Keeps db views works false w fresh h
  respond-AreConsistent Request.settings w plain fresh h = h
  respond-AreConsistent Request.settings_text w plain fresh h =
      (limits_page-Keeps db views works).at w h
  respond-AreConsistent (Request.submit form) w plain fresh h =
      (press_submit-Keeps form plain).at w h
  respond-AreConsistent Request.reset w plain fresh h =
      (write_limits-Keeps defaults defaults-AreNumbers).at w h
  respond-AreConsistent Request.description w plain fresh h = h
  respond-AreConsistent Request.description_text w plain fresh h = h

  module _ (pause : W → W) (later : (w : W) → Fresh db views works (pause w))
      (nothing : (w : W) → views (pause w) ≡ views w) where
    -- Where the database serves the web server, the forms hold only digits, the requests come one
    -- after the other, and the rows before a request are of an earlier second: opening and closing
    -- are not asked for at once, and neither in automatic mode, neither in what the web server sees
    -- nor in what it has committed, if so before the first request.
    pub answers-AreConsistent :
        (rs : List Request) (w : W)
        → All IsPlain rs
        → AreConsistent (views w)
        → AreConsistent (views (answers db pause rs w))
    unfolding answers
    answers-AreConsistent [] w plain h = h
    answers-AreConsistent (r ∷ rs) w (p, ps) h =
        answers-AreConsistent rs _ ps
          (respond-AreConsistent r (pause w) p (later w) (subst AreConsistent (sym (nothing w)) h))
