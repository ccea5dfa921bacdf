-- ===== src/Webserver/Values/Submitting.antt =====
-- The settings that are submitted, and the page that answers (Webserver/Webserver.py, lines 207 to 298).
use mathlib.Core.Path.{subst}
use smart_window.Common.{ℕ, ◌≡◌, refl, sym, ap, ◌∙◌, false, Option, some, Bytes, codes, []}
use smart_window.Webserver.{Db, or_raise}
use smart_window.Webserver.Exec.{E, Result, ok, ◌>>=◌}
use smart_window.Webserver.Requests.{
  Request, Page, Limits, limits, write_limits, press_submit, respond,
}
use smart_window.Webserver.Values.{Rows}
use smart_window.Webserver.Modes.Keeping.{bind-ok}
use smart_window.Webserver.Values.Settings.{
  SentAs, Sets, by_form, by_reset, AreTaken, AreSet, IsPriority, settings_of, limits_page-ok,
}
use smart_window.Webserver.Values.Writing.{start, commit_Writing, writes}

module _ {W : Type 0} (db : Db W) (rows : Rows db) where
  write_limits-ok :
      (l : Limits) (n : ℕ) (w : W)
      → AreTaken rows.takes l
      → IsPriority db (rows.cell l.prio) n
      → ((t : Bytes) → rows.full w t ≡ false)
      → (w' : W) × (write_limits db l w ≡ (ok (limits (settings_of rows.cell l n)), w'))
        × AreSet rows.cell (rows.committed w') l
  unfolding write_limits
  write_limits-ok l n w t sel fresh =
      let write = writes db rows λ r.
        (w' : W) × (r ≡ (ok (limits (settings_of rows.cell l n)), w'))
        × AreSet rows.cell (rows.committed w') l in
      write _ [] (codes "Temp_MIN") l.min_temp _ w t.min_temp refl (start db rows w fresh) λ w1 h1.
        write _ _ (codes "Temp_MAX") l.max_temp _ w1 t.max_temp refl h1 λ w2 h2.
          write _ _ (codes "Humidity_MIN") l.min_hum _ w2 t.min_hum refl h2 λ w3 h3.
            write _ _ (codes "Humidity_MAX") l.max_hum _ w3 t.max_hum refl h3 λ w4 h4.
              write _ _ (codes "AirQuality_MAX") l.max_qual _ w4 t.max_qual refl h4 λ w5 h5.
                write _ _ (codes "Wind_MAX") l.max_wind _ w5 t.max_wind refl h5 λ w6 h6.
                  write _ _ (codes "Volume_MAX") l.max_sound _ w6 t.max_sound refl h6 λ w7 h7.
                    write _ _ (codes "Priority") l.prio _ w7 t.prio refl h7 λ w8 h8.
                      write _ _ (codes "LimitChange") (codes "1") _ w8 t.limit_change refl h8
                        λ w9 h9.
                          let (w', e, sees, known) = commit_Writing db rows _ _ w9 h9 in
                          let set : AreSet rows.cell (rows.seen w') l = record {
                            min_temp = sees (codes "Temp_MIN") refl;
                            max_temp = sees (codes "Temp_MAX") refl;
                            min_hum = sees (codes "Humidity_MIN") refl;
                            max_hum = sees (codes "Humidity_MAX") refl;
                            max_qual = sees (codes "AirQuality_MAX") refl;
                            max_wind = sees (codes "Wind_MAX") refl;
                            max_sound = sees (codes "Volume_MAX") refl;
                            prio = sees (codes "Priority") refl;
                            limit_change = sees (codes "LimitChange") refl;
                          } in
                          let (w'', p, k) = limits_page-ok db rows _ l n w' set sel refl in
                          (
                            w'',
                            bind-ok _ _ w9 w' tt e ∙ p,
                            subst (λ x. AreSet rows.cell x l) ((λ i t. sym (known t) i) ∙ sym k)
                                set,
                          )

  field :
      {A B : Type 0} (f : A → E W B) {o : Option A} {a : A}
      → o ≡ some a
      → (w : W) → (or_raise o >>= f) w ≡ f a w
  field f {o} {a} e w = bind-ok (or_raise o) f w w a (ap (λ x. or_raise x w) e)

  answered :
      {l : Limits} (n : ℕ) {p : Result (Page db.Cell) × W} {w' : W}
      → p ≡ (ok (limits (settings_of rows.cell l n)), w')
      → AreSet rows.cell (rows.committed w') l
      → (p.0 ≡ ok (limits (settings_of rows.cell l n))) × AreSet rows.cell (rows.committed p.1) l
  answered {l} n e set = (
    ap (λ x. x.0) e,
    subst (λ (x : Result _ × W). AreSet rows.cell (rows.committed x.1) l) (sym e) set,
  )

  -- The form's fields are read, and then the limits written.
  press_submit-ok :
      (form : Bytes → Option Bytes) (l : Limits) (w : W)
      → SentAs form l
      → press_submit db form w ≡ write_limits db l w
  unfolding press_submit
  press_submit-ok form l w h =
      field _ h.min_temp w
      ∙ (field _ h.max_temp w
          ∙ (field _ h.min_hum w
              ∙ (field _ h.max_hum w
                  ∙ (field _ h.max_qual w
                      ∙ (field _ h.max_wind w ∙ (field _ h.max_sound w ∙ field _ h.prio w))))))

  -- Where the database works and no other program writes meanwhile: SUBMIT with a form that has the
  -- eight fields, and RESET with the defaults, when the tables take the values and none has a row
  -- of this second, and the priority is a number from 0 to 3, are answered by the page that shows
  -- the values, with the option of this number selected and no other, and the values are committed,
  -- with the mark that the limits have changed.
  pub respond-AreSet :
      (r : Request) (l : Limits) (n : ℕ) (w : W)
      → Sets r l
      → AreTaken rows.takes l
      → IsPriority db (rows.cell l.prio) n
      → ((t : Bytes) → rows.full w t ≡ false)
      → ((respond db r w).0 ≡ ok (limits (settings_of rows.cell l n)))
        × AreSet rows.cell (rows.committed (respond db r w).1) l
  unfolding respond
  respond-AreSet r l n w (by_form form _ h) t sel fresh =
      let (w', e, set) = write_limits-ok l n w t sel fresh in
      answered n (press_submit-ok form l w h ∙ e) set
  respond-AreSet r l n w by_reset t sel fresh =
      let (w', e, set) = write_limits-ok l n w t sel fresh in answered n e set
