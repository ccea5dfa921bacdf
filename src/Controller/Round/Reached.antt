-- ===== src/Controller/Round/Reached.antt =====
-- The values that the variables of `decisionLoop` can take.
use smart_window.Common.{
  ◌≡◌, ◌∙◌, ap, refl, false, some, List, ◌++◌, ◌∷◌, [], map, arith, Option-cases, inl, inr,
}
use smart_window.Controller.Readings.{Readings}
use smart_window.Controller.Alarms.{Derived, derive, update_alarms, state_rows}
use smart_window.Controller.Alarms.Defects.{update_air_q_off}
use smart_window.Controller.Machine.{advance}
use smart_window.Controller.Machine.Phase.{Phase, starting, encode, next}
use smart_window.Controller.Machine.Refinement.{advance-encode}
use smart_window.Controller.Round.{Controller, Effect, writes, sleeps, start, commands, round}

pub data Reached : Controller → Type 0 where
  first : Reached start
  after :
      {c c' : Controller} (r : Readings) (es : List Effect)
      → Reached c
      → round r c ≡ some (c', es)
      → Reached c'

-- The parts of a round that succeeds.
pub record Parts (r : Readings) (c c' : Controller) (es : List Effect) : Type 0 where
  pub derived : Derived
  pub derives : derive r ≡ some derived
  pub alarms : c'.alarms ≡ update_alarms r derived c.alarms
  pub flags : c'.flags ≡ advance r c'.alarms c.flags
  pub effects : es ≡ map writes (state_rows r c'.alarms) ++ (commands c'.flags ++ sleeps 5 ∷ [])

pub round-Parts :
    (r : Readings) (c c' : Controller) (es : List Effect)
    → round r c ≡ some (c', es)
    → Parts r c c' es
unfolding round
round-Parts r c c' es h = elim (Option-cases (derive r)) [
  | inl e ↦ ground arith
  | inr (d, e) ↦ record {
    derived = d;
    derives = e;
    alarms = ground arith;
    flags = ground arith;
    effects = ground arith;
  }
]

-- The invariant between two rounds.
pub record Inv (c : Controller) : Type 0 where
  pub phase : Phase
  pub encoded : c.flags ≡ encode phase
  pub air_q_off : c.alarms.air_q_alarm ≡ false
  pub wind_off : c.alarms.wind_alarm ≡ false

start-Inv : Inv start
unfolding start
start-Inv = record { phase = starting; encoded = refl; air_q_off = refl; wind_off = refl }

round-Inv :
    (r : Readings) (c c' : Controller) (es : List Effect)
    → Inv c
    → round r c ≡ some (c', es)
    → Inv c'
unfolding update_alarms
round-Inv r c c' es v h =
    let p = round-Parts r c c' es h in
    record {
      phase = next r c'.alarms v.phase;
      encoded = p.flags ∙ ap (advance r c'.alarms) v.encoded ∙ advance-encode r c'.alarms v.phase;
      air_q_off =
          ap (λ a. a.air_q_alarm) p.alarms
          ∙ update_air_q_off r p.derived c.alarms.air_q_alarm p.derives v.air_q_off;
      wind_off = ap (λ a. a.wind_alarm) p.alarms;
    }

-- In every reachable state the flags stand for one phase, and neither the air quality alarm nor the wind
-- alarm is on.
pub Reached-Inv : {c : Controller} → Reached c → Inv c
Reached-Inv first = start-Inv
Reached-Inv (after {c} {c'} r es w h) = round-Inv r c c' es (Reached-Inv w) h
