-- ===== src/Controller/Round/Outcomes.antt =====
-- Where a round can leave the machine, and why.
use smart_window.Common.{
  ◌≡◌, ◌≢◌, ◌⊎◌, ◌∙◌, sym, ap, refl, Bool, true, false, ◌||◌, some, List, arith, inl, inr,
}
use smart_window.Controller.Readings.{Readings}
use smart_window.Controller.Alarms.{Alarms}
use smart_window.Controller.Machine.{
  Tests, humidity_tests, temperature_tests, air_quality_tests, all_tests, asks_open, asks_close,
}
use smart_window.Controller.Machine.Phase.{
  Phase, at, encode, next, Priority, humidity, temperature, air_quality, all, Stage, waiting,
  opening, opened, closing, tests, from, next_ends, encode-injective,
}
use smart_window.Controller.Round.{Controller, Effect, round}
use smart_window.Controller.Round.Reached.{Reached, Reached-Inv}
use smart_window.Controller.Round.Commands.{round_refines}

-- A stage ends in `opened` only if the closing condition fails.
from_opened_inv :
    (p q : Priority) (st : Stage) (t : Tests)
    → from st p t ≡ at q opened
    → (p ≡ q) × (t.closes ≡ false)
from_opened_inv p q waiting t h = ground arith
from_opened_inv p q opening t h = ground arith
from_opened_inv p q opened t h = ground arith
from_opened_inv p q closing t h = ground arith

next-opened_inv :
    (r : Readings) (a : Alarms) (ph : Phase) (q : Priority)
    → next r a ph ≡ at q opened
    → (tests q r a).closes ≡ false
next-opened_inv r a ph q =
    next_ends (λ end. end ≡ at q opened → (tests q r a).closes ≡ false) r a ph (λ e. ground arith)
      (λ e. ground arith)
      λ p st _ e. let (same, shut) = from_opened_inv p q st (tests p r a) e in rw (← same) shut

-- With neither the wind nor the air quality alarm on, the closing condition fails only for the
-- priority of all three, in manual mode, with no request to close.
closes_false :
    (r : Readings) (a : Alarms) (q : Priority)
    → a.air_q_alarm ≡ false
    → a.wind_alarm ≡ false
    → (tests q r a).closes ≡ false
    → (q ≡ all) × (r.auto_mode ≡ false) × (r.man_close ≡ false)
unfolding tests humidity_tests temperature_tests air_quality_tests all_tests
closes_false r a humidity q w h = ground arith
closes_false r a temperature q w h = ground arith
closes_false r a air_quality q w h = ground arith
closes_false r a all q w h = ground arith

-- A round from a reachable state ends in an opened stage only for the priority of all three, in
-- manual mode, with no request to close.
pub rests_opened :
    (r : Readings) (c c' : Controller) (es : List Effect) (p : Priority)
    → Reached c
    → round r c ≡ some (c', es)
    → c'.flags ≡ encode (at p opened)
    → (p ≡ all) × (r.auto_mode ≡ false) × (r.man_close ≡ false)
rests_opened r c c' es p w h e =
    let (ph, _, e', _) = round_refines r c c' es w h in
    let v = Reached-Inv (Reached.after r es w h) in
    closes_false r c'.alarms p v.air_q_off v.wind_off
      (next-opened_inv r c'.alarms ph p (encode-injective (sym e' ∙ e)))

-- A stage ends in `opening` while the window is closed, from `opening` or by the opening condition.
pub from_opening_inv :
    (p q : Priority) (st : Stage) (t : Tests)
    → from st p t ≡ at q opening
    → (p ≡ q) × (t.win_open ≡ false) × ((st ≡ opening) ⊎ (t.opens ≡ true))
from_opening_inv p q waiting t h = ground arith
from_opening_inv p q opening t h = ground arith
from_opening_inv p q opened t h = ground arith
from_opening_inv p q closing t h = ground arith

began :
    (p q : Priority) (st : Stage) (ph : Phase) (o : Bool)
    → ph ≢ at q opening
    → p ≡ q
    → (ph ≡ at p st) ⊎ (st ≡ waiting)
    → (st ≡ opening) ⊎ (o ≡ true)
    → o ≡ true
began p q st ph o n e s (inr h) = h
began p q st ph o n e (inl s) (inl h) = absurd (n (cc))
began p q st ph o n e (inr s) (inl h) = cc

next-opening_inv :
    (r : Readings) (a : Alarms) (ph : Phase) (q : Priority)
    → ph ≢ at q opening
    → next r a ph ≡ at q opening
    → ((tests q r a).opens ≡ true) × ((tests q r a).win_open ≡ false)
next-opening_inv r a ph q n =
    next_ends
      (λ end. end ≡ at q opening → ((tests q r a).opens ≡ true) × ((tests q r a).win_open ≡ false))
      r a ph (λ e. ground arith) (λ e. ground arith)
      λ p st s e.
        let (same, shut, why) = from_opening_inv p q st (tests p r a) e in
        let opens = began p q st ph (tests p r a).opens n same s why in
        (
          ap (λ x. (tests x r a).opens) (sym same) ∙ opens,
          ap (λ x. (tests x r a).win_open) (sym same) ∙ shut,
        )

-- The alarms that can open the window under a priority; that of the air quality never does.
pub asked : Priority → Alarms → Bool
asked humidity a = a.humid_alarm
asked temperature a = a.temp_alarm
asked air_quality a = false
asked all a = a.temp_alarm || a.humid_alarm

opens_true :
    (r : Readings) (a : Alarms) (q : Priority)
    → a.air_q_alarm ≡ false
    → (tests q r a).opens ≡ true
    → ((r.auto_mode ≡ false) × (r.man_open ≡ true))
      ⊎ ((r.auto_mode ≡ true) × (asked q a ≡ true) × (a.vol_alarm ≡ false))
unfolding tests humidity_tests temperature_tests air_quality_tests all_tests asked
opens_true r a humidity q h = ground arith
opens_true r a temperature q h = ground arith
opens_true r a air_quality q h = ground arith
opens_true r a all q h = ground arith

pub tests-win_open :
    (r : Readings) (a : Alarms) (q : Priority) → (tests q r a).win_open ≡ r.win_open
unfolding tests humidity_tests temperature_tests air_quality_tests all_tests
tests-win_open r a humidity = refl
tests-win_open r a temperature = refl
tests-win_open r a air_quality = refl
tests-win_open r a all = refl

-- When a round from a reachable state begins to open the window, the window is reported closed, and
-- either the mode is manual and opening is requested, or it is automatic, an alarm of the priority is
-- on and the noise alarm is off. Under the priority of the air quality only the first can be.
pub opens_for_a_reason :
    (r : Readings) (c c' : Controller) (es : List Effect) (p : Priority)
    → Reached c
    → round r c ≡ some (c', es)
    → c.flags ≢ encode (at p opening)
    → c'.flags ≡ encode (at p opening)
    → (r.win_open ≡ false)
      × (((r.auto_mode ≡ false) × (r.man_open ≡ true))
          ⊎ ((r.auto_mode ≡ true) × (asked p c'.alarms ≡ true) × (c'.alarms.vol_alarm ≡ false)))
opens_for_a_reason r c c' es p w h n e =
    let (ph, b, e', _) = round_refines r c c' es w h in
    let v = Reached-Inv (Reached.after r es w h) in
    let (opens, shut) =
      next-opening_inv r c'.alarms ph p (λ same. n (b ∙ ap encode same))
        (encode-injective (sym e' ∙ e)) in
    (sym (tests-win_open r c'.alarms p) ∙ shut, opens_true r c'.alarms p v.air_q_off opens)

pub next_stays_opening :
    (r : Readings) (a : Alarms) (p : Priority)
    → r.win_open ≡ false
    → next r a (at p opening) ≡ at p opening
unfolding next
next_stays_opening r a p h = rw (tests-win_open r a p, h)

asks-opening :
    (p : Priority)
    → (asks_open (encode (at p opening)) ≡ true) × (asks_close (encode (at p opening)) ≡ false)
unfolding asks_open asks_close
asks-opening humidity = (refl, refl)
asks-opening temperature = (refl, refl)
asks-opening air_quality = (refl, refl)
asks-opening all = (refl, refl)

-- A round from a reachable state in which the window is being opened, and which finds it reported
-- closed, keeps the state and asks for the window to be opened and not for it to be closed,
-- whatever else it reads.
pub keeps_opening :
    (r : Readings) (c c' : Controller) (es : List Effect) (p : Priority)
    → Reached c
    → round r c ≡ some (c', es)
    → c.flags ≡ encode (at p opening)
    → r.win_open ≡ false
    → (c'.flags ≡ c.flags) × (asks_open c'.flags ≡ true) × (asks_close c'.flags ≡ false)
keeps_opening r c c' es p w h e shut =
    let (ph, b, e', _) = round_refines r c c' es w h in
    let same : c'.flags ≡ encode (at p opening) =
      e'
      ∙ ap (λ x. encode (next r c'.alarms x)) (encode-injective (sym b ∙ e))
      ∙ ap encode (next_stays_opening r c'.alarms p shut) in
    (same ∙ sym e, ap asks_open same ∙ (asks-opening p).0, ap asks_close same ∙ (asks-opening p).1)
