-- ===== src/Webserver/Modes/Refusals.antt =====
-- What is left, when the database refuses the second of the rows that a button writes (Webserver/Webserver.py,
-- lines 157 to 197).
use mathlib.Core.Path.{subst}
use smart_window.Common.{◌≡◌, refl, sym, ap, ◌∙◌, Bool, true, false, codes}
use smart_window.Webserver.{Db, latest, insert, insert_text}
use smart_window.Webserver.Exec.{E, Result, raised, continue, ◌>>=◌}
use smart_window.Webserver.Requests.{Page, Request, home_page, press_auto, press_window, respond}
use smart_window.Webserver.Modes.{
  Control, auto_modus, man_open, man_close, Controls, name, digit, put, Views, Serves,
}
use smart_window.Webserver.Modes.Keeping.{bind-ok, bind-raised}
use smart_window.Webserver.Modes.Safety.{read_control, asking, press_window-ok}
use smart_window.Webserver.Modes.Known.{home_page-Known}

module _ {W : Type 0} (db : Db W) (views : W → Views) (works : Serves db views) where
  -- A row that the database refuses ends the request.
  stops :
      {A : Type 0} (k : Control) (b : Bool) (w : W) (c : Controls) (m : E W A)
      → works.full k w ≡ true
      → (views w).seen ≡ c
      → let r = (insert db (name k) (digit b) >>= λ _. m) w in
        (r.0 ≡ raised) × ((views r.1).seen ≡ c)
  unfolding insert ◌>>=◌
  stops k b w c m is_full e =
      let (w', i, v) = works.refuses k b w is_full in
      subst
        (λ (p : Result _ × W).
          let r = continue p.0 (λ _. m) p.1 in (r.0 ≡ raised) × ((views r.1).seen ≡ c))
        (sym i) (refl, ap (λ x. x.seen) v ∙ e)

  -- A row that is taken, and then one that the database refuses.
  stops_second :
      {A : Type 0} (k k' : Control) (b b' : Bool) (w : W) (m : E W A)
      → works.full k w ≡ false
      → works.full k' (insert db (name k) (digit b) w).1 ≡ true
      → let r =
          (insert db (name k) (digit b) >>= λ _. insert db (name k') (digit b') >>= λ _. m) w in
        (r.0 ≡ raised) × ((views r.1).seen ≡ put k b (views w).seen)
  unfolding insert
  stops_second k k' b b' w m free is_full =
      let (w', i, v, _) = works.inserts k b w free in
      subst (λ (r : Result _ × W). (r.0 ≡ raised) × ((views r.1).seen ≡ put k b (views w).seen))
        (sym (bind-ok (db.execute (insert_text (name k) (digit b))) _ w w' tt i))
        (stops k' b' w' _ m (sym (ap (λ (p : Result _ × W). works.full k' p.1) i) ∙ is_full)
          (ap (λ x. x.seen) v))

  pub press_auto_stops :
      (w : W)
      → works.full auto_modus w ≡ false
      → works.full man_open (insert db (codes "AutoModus") (codes "1") w).1 ≡ true
      → ((press_auto db w).0 ≡ raised)
        × ((views (press_auto db w).1).seen ≡ put auto_modus true (views w).seen)
  unfolding press_auto
  press_auto_stops w free is_full = stops_second auto_modus man_open true false w _ free is_full

  -- AUTOMATIC is pressed, a row is taken for the mode and none for opening, as when OPEN was pressed in the same
  -- second; opening was asked for. The request raises, and with the next page automatic mode is made known, while
  -- opening is still asked for.
  pub press_auto_refused :
      (w : W)
      → works.full auto_modus w ≡ false
      → works.full man_open (insert db (codes "AutoModus") (codes "1") w).1 ≡ true
      → (views w).seen.open_asked ≡ true
      → let r = respond db Request.auto w in
        let after = (views (respond db Request.main r.1).1).committed in
        (r.0 ≡ raised) × (after.auto ≡ true) × (after.open_asked ≡ true)
  unfolding respond press_auto
  press_auto_refused w free is_full asked =
      let (r, s) = stops_second auto_modus man_open true false w _ free is_full in
      let (_, k) = home_page-Known db views works _ _ s in
      (r, ap (λ x. x.auto) k, ap (λ x. x.open_asked) k ∙ asked)

  -- OPEN is pressed in manual mode when closing was asked for, a row is taken for opening and none for closing, as
  -- when a second begins between the two rows of CLOSE. The request raises, and with the next page both
  -- are asked for.
  pub press_open_refused :
      (w : W)
      → (views w).seen.auto ≡ false
      → (views w).seen.close_asked ≡ true
      → let read = (latest db (codes "AutoModus") w).1 in
        works.full man_open read ≡ false
        → works.full man_close (insert db (codes "ManOpen") (codes "1") read).1 ≡ true
        → let r = respond db Request.open_it w in
          let after = (views (respond db Request.main r.1).1).committed in
          (r.0 ≡ raised)
          × (after.auto ≡ false)
          × (after.open_asked ≡ true)
          × (after.close_asked ≡ true)
  unfolding respond
  press_open_refused w manual asked free is_full =
      let (c, w', e, t, v, _) = read_control db views works auto_modus w in
      let at = ap (λ (p : Result _ × W). p.1) e in
      let (stopped, s) =
        stops_second man_open man_close true false w' db.commit
          (ap (works.full man_open) (sym at) ∙ free)
          (ap (λ x. works.full man_close (insert db (codes "ManOpen") (codes "1") x).1) (sym at)
            ∙ is_full) in
      let ends =
        press_window-ok db views works true w w' c false e (t ∙ manual)
        ∙ bind-raised (asking db views works true) (λ _. home_page db) w' stopped in
      let (_, k) =
        home_page-Known db views works (put man_open true (views w).seen)
          (press_window db (codes "1") (codes "0") w).1
          (ap (λ (p : Result _ × W). (views p.1).seen) ends
            ∙ (s ∙ ap (λ x. put man_open true x.seen) v)) in
      (
        ap (λ (p : Result (Page db.Cell) × W). p.0) ends,
        ap (λ x. x.auto) k ∙ manual,
        ap (λ x. x.open_asked) k,
        ap (λ x. x.close_asked) k ∙ asked,
      )
