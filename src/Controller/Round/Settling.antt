-- ===== src/Controller/Round/Settling.antt =====
-- How soon a change of the priority is taken up.
use smart_window.Common.{
  ℕ, ◌≡◌, ◌≢◌, ◌⊎◌, ◌∙◌, sym, ap, refl, true, false, List, arith, inl, inr, some, ◌==◌,
  if◌then◌else◌,
}
use smart_window.Common.Int.{pos}
use smart_window.Controller.Readings.{Readings}
use smart_window.Controller.Alarms.{Alarms}
use smart_window.Controller.Machine.{
  Tests, humidity_tests, temperature_tests, air_quality_tests, all_tests,
}
use smart_window.Controller.Machine.Phase.{
  Phase, starting, idle, at, encode, next, Priority, humidity, temperature, air_quality, all, Stage,
  waiting, opening, opened, closing, tests, from, from_idle, encode-injective,
}
use smart_window.Controller.Round.{Controller, Effect, round}
use smart_window.Controller.Round.Reached.{Reached, Reached-Inv}
use smart_window.Controller.Round.Commands.{round_refines}

-- The number of a priority in the database.
abbrev pub number : Priority → ℕ
number humidity = 0
number temperature = 1
number air_quality = 2
number all = 3

-- Closing is requested in manual mode, and the window is reported closed.
pub record IsShut (r : Readings) (p : Priority) : Type 0 where
  pub manual : r.auto_mode ≡ false
  pub no_open : r.man_open ≡ false
  pub close : r.man_close ≡ true
  pub closed : r.win_open ≡ false
  pub priority : r.priority ≡ pos (number p)

record ShutTests (p q : Priority) (t : Tests) : Type 0 where
  chosen : t.chosen ≡ (number p == number q)
  opens : t.opens ≡ false
  closes : t.closes ≡ true
  closed : t.win_open ≡ false

tests_shut :
    (r : Readings) (a : Alarms) (p q : Priority)
    → IsShut r p
    → a.wind_alarm ≡ false
    → ShutTests p q (tests q r a)
unfolding tests humidity_tests temperature_tests air_quality_tests all_tests
tests_shut r a p humidity h w = ground arith
tests_shut r a p temperature h w = ground arith
tests_shut r a p air_quality h w = ground arith
tests_shut r a p all h w = ground arith

from_shut :
    (p q : Priority) (st : Stage) (t : Tests)
    → st ≢ opening
    → ShutTests p q t
    → from st q t ≡ (if number p == number q then at q waiting else starting)
from_shut p q waiting t n h = ground arith
from_shut p q opening t n h = ground arith
from_shut p q opened t n h = ground arith
from_shut p q closing t n h = ground arith

from_idle_shut :
    (r : Readings) (a : Alarms) (p : Priority)
    → IsShut r p
    → a.wind_alarm ≡ false
    → from_idle r a ≡ at p waiting
from_idle_shut r a humidity h w =
    let t0 = tests_shut r a humidity humidity h w in simp (t0.chosen, t0.opens)
from_idle_shut r a temperature h w =
    let t0 = tests_shut r a temperature humidity h w in
    let t1 = tests_shut r a temperature temperature h w in simp (t0.chosen, t1.chosen, t1.opens)
from_idle_shut r a air_quality h w =
    let t0 = tests_shut r a air_quality humidity h w in
    let t1 = tests_shut r a air_quality temperature h w in
    let t2 = tests_shut r a air_quality air_quality h w in
    simp (t0.chosen, t1.chosen, t2.chosen, t2.opens)
from_idle_shut r a all h w =
    let t0 = tests_shut r a all humidity h w in
    let t1 = tests_shut r a all temperature h w in
    let t2 = tests_shut r a all air_quality h w in
    let t3 = tests_shut r a all all h w in
    simp (t0.chosen, t1.chosen, t2.chosen, t3.chosen, t3.opens)

settled :
    (p q : Priority)
    → let end = if number p == number q then at q waiting else starting in
      (end ≡ at p waiting) ⊎ (end ≡ starting)
settled humidity humidity = inl refl
settled temperature temperature = inl refl
settled air_quality air_quality = inl refl
settled all all = inl refl
settled humidity q = inr refl
settled temperature q = inr refl
settled air_quality q = inr refl
settled all q = inr refl

settled_self :
    (p : Priority) → (if number p == number p then at p waiting else starting) ≡ at p waiting
settled_self humidity = refl
settled_self temperature = refl
settled_self air_quality = refl
settled_self all = refl

next-starting : (r : Readings) (a : Alarms) → r.win_open ≡ false → next r a starting ≡ from_idle r a
unfolding next
next-starting r a e = ap (λ b. if b then starting else from_idle r a) e

next_shut :
    (r : Readings) (a : Alarms) (p : Priority) (ph : Phase)
    → IsShut r p
    → a.wind_alarm ≡ false
    → ((q : Priority) → ph ≢ at q opening)
    → (next r a ph ≡ at p waiting) ⊎ (next r a ph ≡ starting)
unfolding next
next_shut r a p starting h w n = inl (next-starting r a h.closed ∙ from_idle_shut r a p h w)
next_shut r a p idle h w n = inl (from_idle_shut r a p h w)
next_shut r a p (at q st) h w n =
    rw (from_shut p q st (tests q r a) (λ e. n q (ap (at q) e)) (tests_shut r a p q h w))
      (settled p q)

next_shut_again :
    (r : Readings) (a : Alarms) (p : Priority) (ph : Phase)
    → IsShut r p
    → a.wind_alarm ≡ false
    → (ph ≡ at p waiting) ⊎ (ph ≡ starting)
    → next r a ph ≡ at p waiting
unfolding next
next_shut_again r a p ph h w (inl e) =
    rw (e, from_shut p p waiting (tests p r a) (λ k. ground arith) (tests_shut r a p p h w))
      (settled_self p)
next_shut_again r a p ph h w (inr e) =
    ap (next r a) e ∙ next-starting r a h.closed ∙ from_idle_shut r a p h w

-- Unless the window is being opened, two rounds in manual mode that read a request to close, none
-- to open, a closed window and the number of the same priority take the machine from any reachable
-- state to the waiting stage of that priority.
pub settles :
    (r r' : Readings) (c c' c'' : Controller) (es es' : List Effect) (p : Priority)
    → Reached c
    → round r c ≡ some (c', es)
    → round r' c' ≡ some (c'', es')
    → IsShut r p
    → IsShut r' p
    → ((q : Priority) → c.flags ≢ encode (at q opening))
    → c''.flags ≡ encode (at p waiting)
settles r r' c c' c'' es es' p w h h' shut shut' n =
    let (ph, b, e, _) = round_refines r c c' es w h in
    let w' = Reached.after r es w h in
    let (ph', b', e', _) = round_refines r' c' c'' es' w' h' in
    let v = Reached-Inv w' in
    let v' = Reached-Inv (Reached.after r' es' w' h') in
    let first = next_shut r c'.alarms p ph shut v.wind_off (λ q same. n q (b ∙ ap encode same)) in
    let now : ph' ≡ next r c'.alarms ph = encode-injective (sym b' ∙ e) in
    e' ∙ ap encode (next_shut_again r' c''.alarms p ph' shut' v'.wind_off (rw now first))
