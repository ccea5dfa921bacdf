-- ===== src/System/Button.antt =====
-- The button OPEN of the web server's page (Webserver/Webserver.py), and what the controller and the node do then.
use smart_window.Common.{
  ℕ, ◌≤◌, ◌≡◌, ◌≢◌, refl, sym, ap, ◌∙◌, Bool, true, false, some, Bytes, codes, List, ◌++◌, arith,
}
use smart_window.Controller.Readings.{Readings}
use smart_window.Controller.Alarms.{Alarms}
use smart_window.Controller.Machine.{
  humidity_tests, temperature_tests, air_quality_tests, all_tests,
}
use smart_window.Controller.Machine.Phase.{
  Phase, Priority, humidity, temperature, air_quality, all, at, waiting, opening, encode,
  encode-injective, next, tests,
}
use smart_window.Controller.Round.{Controller, Effect, round}
use smart_window.Controller.Round.Reached.{Reached, Reached-Inv}
use smart_window.Controller.Round.Loop.{AreSound, round_total}
use smart_window.Controller.Round.Commands.{round_refines}
use smart_window.Controller.Round.Outcomes.{tests-win_open}
use smart_window.Node.Main.{Command}
use smart_window.Node.Link.{Measured, Printing}
use smart_window.Node.Link.Measuring.{Prints}
use smart_window.System.{System, beginning, texts, Step, Steps}
use smart_window.System.Invariant.{beginning-Inv}
use smart_window.System.Safety.{steps-Inv}
use smart_window.System.Opening.{opening_completes}
use smart_window.Controller.Reads.Showing.{Shows}
use smart_window.Database.Access.{Floats}
use smart_window.System.Sharing.{IsShared, Shows-Agree}
use smart_window.Webserver.{Db}
use smart_window.Webserver.Requests.{Request, respond}
use smart_window.Webserver.Modes.{Views, Serves}
use smart_window.Webserver.Modes.Safety.{Fresh}
use smart_window.Webserver.Modes.Known.{press_window-Known}

pub opens_manual :
    (r : Readings) (a : Alarms) (p : Priority)
    → r.auto_mode ≡ false
    → r.man_open ≡ true
    → a.wind_alarm ≡ false
    → (tests p r a).opens ≡ true
unfolding tests humidity_tests temperature_tests air_quality_tests all_tests
opens_manual r a humidity m o w = ground arith
opens_manual r a temperature m o w = ground arith
opens_manual r a air_quality m o w = ground arith
opens_manual r a all m o w = ground arith

-- A round that goes from `ph` to `ph'`.
pub round_goes :
    (r : Readings) (c c' : Controller) (es : List Effect) (ph ph' : Phase)
    → Reached c
    → round r c ≡ some (c', es)
    → c.flags ≡ encode ph
    → ((a : Alarms) → a.wind_alarm ≡ false → next r a ph ≡ ph')
    → c'.flags ≡ encode ph'
round_goes r c c' es ph ph' w h e goes =
    let (x, b, e', _) = round_refines r c c' es w h in
    let v = Reached-Inv (Reached.after r es w h) in
    e'
    ∙ ap encode (ap (next r c'.alarms) (encode-injective (sym b ∙ e)) ∙ goes c'.alarms v.wind_off)

pub next-opening :
    (r : Readings) (p : Priority) (a : Alarms)
    → r.auto_mode ≡ false
    → r.man_open ≡ true
    → r.win_open ≡ false
    → a.wind_alarm ≡ false
    → next r a (at p waiting) ≡ at p opening
unfolding next
next-opening r p a manual asked shut off =
    let opens = opens_manual r a p manual asked off in
    let closed = tests-win_open r a p ∙ shut in simp (opens, closed)

module _ (truth : Bytes → Bool) (alloc : ℕ → Bool) (printing : Printing) (fuel : ℕ) where
  then_step :
      {s s' s'' : System}
      → Steps truth alloc printing fuel s s'
      → Step truth alloc printing fuel s' s''
      → Steps truth alloc printing fuel s s''
  then_step Steps.done step = Steps.more step Steps.done
  then_step (Steps.more first steps) step = Steps.more first (then_step steps step)

module _ (truth : Bytes → Bool) (alloc : ℕ → Bool) (printing : Printing) (fuel : ℕ)
    (gives : (n : ℕ) → alloc n ≡ true) (one : truth (codes "1") ≡ true)
    (zero_is : truth (codes "0") ≡ false) (enough : 70 ≤ fuel) {W : Type 0} (db : Db W)
    (views : W → Views) (works : Serves db views) where
  -- Where the database serves the web server, OPEN is pressed in manual mode, when no table of a
  -- button has a row of this second. Where the controller has memory and takes 1 for true and 0 for
  -- false: from every state that the system can reach in which the controller waits and the table
  -- says that the window is closed, there are steps after which the node has opened the window, the
  -- table says so, and the controller has gone on. The steps have three rounds, with readings that
  -- cannot overflow: the first reads the latest values of tables that hold what the buttons have
  -- made known, and a closed window, the second a closed and the third an open one; the printed
  -- values fit.
  pub button_opens :
      (w : W) (any : Command) (b : Bool) (s : System) (p : Priority) (r r' r'' : Readings)
      (fresh : Measured) (id_text : ℕ → Bytes) (floats : Floats) (content : Bytes → List Bytes)
      → Fresh db views works w
      → (views w).seen.auto ≡ false
      → Steps truth alloc printing fuel (beginning any b) s
      → s.controller.flags ≡ encode (at p waiting)
      → s.win_open ≡ false
      → IsShared id_text floats content (views (respond db Request.open_it w).1).committed
      → Shows id_text floats content r
      → AreSound r
      → r.win_open ≡ false
      → AreSound r'
      → r'.win_open ≡ false
      → AreSound r''
      → r''.win_open ≡ true
      → Prints printing fresh
      → (s' : System) × Steps truth alloc printing fuel s s'
        × (s'.win_open ≡ true)
        × (s'.node.main.open_next ≡ false)
        × (s'.controller.flags ≢ encode (at p opening))
  unfolding respond
  button_opens w any b s p r r' r'' fresh id_text floats content free manual steps e shut shared
        shows ok shut_r ok' shut' ok'' open_now prints =
      let known = press_window-Known db views works true w free manual in
      let agree = Shows-Agree id_text floats content r _ shows shared in
      let v =
        steps-Inv truth alloc printing fuel gives one zero_is enough b (beginning-Inv alloc any b)
          steps in
      let (c1, es, h) = round_total r s.controller ok in
      let begins = round_goes r s.controller c1 es (at p waiting) (at p opening) v.reached h e λ a.
        next-opening r p a (agree.auto ∙ (ap (λ c. c.auto) known ∙ manual))
          (agree.open_asked ∙ ap (λ c. c.open_asked) known) shut_r in
      let s1 = record s { controller = c1; to_node = texts es ++ s.to_node } in
      let step : Step truth alloc printing fuel s s1 =
        Step.decides r c1 es (shut_r ∙ sym shut) h refl in
      let (s', others, told, moved, gone) =
        opening_completes truth alloc printing fuel gives one zero_is enough any b s1 p r' r'' fresh
          (then_step truth alloc printing fuel steps step) begins shut ok' shut' ok'' open_now
          prints in
      (s', Steps.more step others, told, moved, gone)
