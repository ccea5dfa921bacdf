-- ===== src/System/Leftover.antt =====
-- What is left of a request to open after AUTOMATIC was refused (Webserver/Webserver.py, lines 157 to 173).
use smart_window.Common.{◌≡◌, ap, ◌∙◌, true, false, some, codes, List}
use smart_window.Controller.Readings.{Readings}
use smart_window.Controller.Machine.Phase.{Priority, at, waiting, opening, encode}
use smart_window.Controller.Round.{Controller, Effect, round}
use smart_window.Controller.Round.Reached.{Reached}
use smart_window.System.Sharing.{Agree}
use smart_window.System.Button.{round_goes, next-opening}
use smart_window.Webserver.{Db, insert}
use smart_window.Webserver.Exec.{raised}
use smart_window.Webserver.Requests.{respond}
use smart_window.Webserver.Requests as Request
use smart_window.Webserver.Modes.{Views, Serves, auto_modus, man_open, put}
use smart_window.Webserver.Modes.Known.{press_manu-Known}
use smart_window.Webserver.Modes.Refusals.{press_auto_stops}

module _ {W : Type 0} (db : Db W) (views : W → Views) (works : Serves db views) where
  -- Where the database serves the web server: AUTOMATIC is pressed, a row is taken for the mode and none for opening, as
  -- when OPEN was pressed in the same second, and MANUAL is pressed later, when a row is taken for the mode. The first
  -- request raises, and a round that reads what the second has made known, with a closed window, goes from the waiting
  -- stage of any priority to opening the window, though nobody has pressed OPEN again.
  pub leftover :
      (w later : W) (r : Readings) (c c' : Controller) (es : List Effect) (p : Priority)
      → works.full auto_modus w ≡ false
      → works.full man_open (insert db (codes "AutoModus") (codes "1") w).1 ≡ true
      → (views w).seen.open_asked ≡ true
      → views later ≡ views (respond db Request.auto w).1
      → works.full auto_modus later ≡ false
      → Agree r (views (respond db Request.manu later).1).committed
      → r.win_open ≡ false
      → Reached c
      → round r c ≡ some (c', es)
      → c.flags ≡ encode (at p waiting)
      → ((respond db Request.auto w).0 ≡ raised) × (c'.flags ≡ encode (at p opening))
  unfolding respond
  leftover w later r c c' es p free is_full asked same free' agree shut reached h e =
      let (stopped, seen_is) = press_auto_stops db views works w free is_full in
      let known =
        press_manu-Known db views works later free'
        ∙ ap (put auto_modus false) (ap (λ x. x.seen) same ∙ seen_is) in
      (
        stopped,
        round_goes r c c' es (at p waiting) (at p opening) reached h e λ a.
            next-opening r p a (agree.auto ∙ ap (λ x. x.auto) known)
              (agree.open_asked ∙ (ap (λ x. x.open_asked) known ∙ asked)) shut,
      )
