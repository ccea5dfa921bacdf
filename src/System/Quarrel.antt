-- ===== src/System/Quarrel.antt =====
-- The window when the tables of the web server's buttons ask for opening and for closing at once.
use smart_window.Common.{◌≡◌, ◌∙◌, Bool, true, false, some, codes, List, arith}
use smart_window.Common.Int.{pos}
use smart_window.Controller.Readings.{Readings}
use smart_window.Controller.Alarms.{Alarms}
use smart_window.Controller.Machine.{
  humidity_tests, temperature_tests, air_quality_tests, all_tests,
}
use smart_window.Controller.Machine.Phase.{
  Priority, humidity, temperature, air_quality, all, Stage, at, waiting, opening, closing, encode,
  next, tests,
}
use smart_window.Controller.Round.{Controller, Effect, round}
use smart_window.Controller.Round.Reached.{Reached}
use smart_window.Controller.Round.Outcomes.{tests-win_open}
use smart_window.Controller.Round.Settling.{number}
use smart_window.System.Sharing.{Agree}
use smart_window.System.Button.{round_goes, next-opening}
use smart_window.Webserver.{Db, latest, insert}
use smart_window.Webserver.Requests.{Request, respond}
use smart_window.Webserver.Modes.{Views, Serves, man_open, man_close}
use smart_window.Webserver.Modes.Refusals.{press_open_refused}

-- The stages that follow one another, with the reports of the window.
pub data Turn : Stage → Bool → Stage → Type 0 where
  opens : Turn waiting false opening
  closes : Turn opening true closing
  ends : Turn closing false waiting

closes_manual :
    (r : Readings) (a : Alarms) (p : Priority)
    → r.auto_mode ≡ false
    → r.man_close ≡ true
    → a.wind_alarm ≡ false
    → (tests p r a).closes ≡ true
unfolding tests humidity_tests temperature_tests air_quality_tests all_tests
closes_manual r a humidity m o w = ground arith
closes_manual r a temperature m o w = ground arith
closes_manual r a air_quality m o w = ground arith
closes_manual r a all m o w = ground arith

chosen_number :
    (r : Readings) (a : Alarms) (p : Priority)
    → r.priority ≡ pos (number p)
    → (tests p r a).chosen ≡ true
unfolding tests humidity_tests temperature_tests air_quality_tests all_tests
chosen_number r a humidity e = rw e
chosen_number r a temperature e = rw e
chosen_number r a air_quality e = rw e
chosen_number r a all e = rw e

-- Both are asked for in manual mode.
record AskBoth (r : Readings) (p : Priority) : Type 0 where
  manual : r.auto_mode ≡ false
  open_asked : r.man_open ≡ true
  close_asked : r.man_close ≡ true
  priority : r.priority ≡ pos (number p)

next-turn :
    (r : Readings) (p : Priority) (st st' : Stage) (b : Bool) (a : Alarms)
    → AskBoth r p
    → Turn st b st'
    → r.win_open ≡ b
    → a.wind_alarm ≡ false
    → next r a (at p st) ≡ at p st'
unfolding next
next-turn r p st st' b a h opens shut off = next-opening r p a h.manual h.open_asked shut off
next-turn r p st st' b a h closes is_open off =
    let shuts = closes_manual r a p h.manual h.close_asked off in
    let reported = tests-win_open r a p ∙ is_open in simp (shuts, reported)
next-turn r p st st' b a h ends shut off =
    let reported = tests-win_open r a p ∙ shut in
    let chosen = chosen_number r a p h.priority in simp (chosen, reported)

module _ {W : Type 0} (db : Db W) (views : W → Views) (works : Serves db views) where
  -- Where the database serves the web server, OPEN is pressed in manual mode when closing was asked
  -- for, a row is taken for opening and none for closing, as when a second begins between the two
  -- rows of CLOSE, and then a page is asked for. A round from a reachable state that reads what is
  -- then made known, and the number of the priority, opens a closed window from the waiting stage,
  -- closes it as soon as it is reported open, and waits again as soon as it is reported closed.
  pub quarrel :
      (w : W) (r : Readings) (c c' : Controller) (es : List Effect) (p : Priority) (st st' : Stage)
      (b : Bool)
      → (views w).seen.auto ≡ false
      → (views w).seen.close_asked ≡ true
      → let read = (latest db (codes "AutoModus") w).1 in
        works.full man_open read ≡ false
        → works.full man_close (insert db (codes "ManOpen") (codes "1") read).1 ≡ true
        → Agree r (views (respond db Request.main (respond db Request.open_it w).1).1).committed
        → r.priority ≡ pos (number p)
        → r.win_open ≡ b
        → Turn st b st'
        → Reached c
        → round r c ≡ some (c', es)
        → c.flags ≡ encode (at p st)
        → c'.flags ≡ encode (at p st')
  quarrel w r c c' es p st st' b manual asked free is_full agree prio reported turn reached h e =
      let (_, now_manual, open_asked, close_asked) =
        press_open_refused db views works w manual asked free is_full in
      let both : AskBoth r p = record {
        manual = agree.auto ∙ now_manual;
        open_asked = agree.open_asked ∙ open_asked;
        close_asked = agree.close_asked ∙ close_asked;
        priority = prio;
      } in
      round_goes r c c' es (at p st) (at p st') reached h e
        λ a. next-turn r p st st' b a both turn reported
