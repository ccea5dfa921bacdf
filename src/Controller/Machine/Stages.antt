-- ===== src/Controller/Machine/Stages.antt =====
-- What the transitions of one priority do to the flags that stand for a phase.
use smart_window.Common.{◌≡◌, refl, Bool, true, false, if◌then◌else◌}
use smart_window.Controller.Machine.{Flags, Tests, Slice, clear, transitions}
use smart_window.Controller.Machine.Phase.{
  pick, Priority, humidity, temperature, air_quality, all, Stage, waiting, opening, opened, closing,
  Phase, starting, idle, at, flag, encode, from_waiting, from, from_ends,
}

-- The transitions of one priority on the flags, for any tests.
unfoldable pub slice : Priority → Flags → Slice
slice humidity f = record { init = f.init; state0 = f.state0; group = f.state1 }
slice temperature f = record { init = f.init; state0 = f.state0; group = f.state2 }
slice air_quality f = record { init = f.init; state0 = f.state0; group = f.state3 }
slice all f = record { init = f.init; state0 = f.state0; group = f.state4 }

unfoldable pub put : Priority → Slice → Flags → Flags
put humidity s f = record f { init = s.init; state0 = s.state0; state1 = s.group }
put temperature s f = record f { init = s.init; state0 = s.state0; state2 = s.group }
put air_quality s f = record f { init = s.init; state0 = s.state0; state3 = s.group }
put all s f = record f { init = s.init; state0 = s.state0; state4 = s.group }

unfoldable pub apply : Priority → Tests → Flags → Flags
unfolding slice put
apply p t f = put p (transitions t (slice p f)) f

-- The same on the phases.
unfoldable pub pass : Priority → Tests → Phase → Phase
pass p t starting = starting
pass p t idle = if t.chosen then from_waiting p t else idle
pass humidity t (at humidity st) = from st humidity t
pass temperature t (at temperature st) = from st temperature t
pass air_quality t (at air_quality st) = from st air_quality t
pass all t (at all st) = from st all t
pass _ t ph = ph

abbrev tests_of : Bool → Bool → Bool → Bool → Tests
tests_of c o k w = record { chosen = c; opens = o; closes = k; win_open = w }

-- What a priority leaves of its own flags when it ends in a phase.
abbrev left : Phase → Slice
left starting = record { init = true; state0 = false; group = clear }
left idle = record { init = false; state0 = true; group = clear }
left (at p st) = record { init = false; state0 = false; group = flag st }

module _ (p : Priority) where
  waiting_lem :
      (c o k w : Bool)
      → transitions (tests_of c o k w) (left (at p waiting))
        ≡ left (from_waiting p (tests_of c o k w))
  unfolding transitions
  waiting_lem true false k w = refl
  waiting_lem false false k w = refl
  waiting_lem c true k false = refl
  waiting_lem c true true true = refl
  waiting_lem true true false true = refl
  waiting_lem false true false true = refl

  opening_lem :
      (c o k w : Bool)
      → transitions (tests_of c o k w) (left (at p opening))
        ≡ left (from opening p (tests_of c o k w))
  unfolding transitions
  opening_lem c o k false = refl
  opening_lem c o true true = refl
  opening_lem true o false true = refl
  opening_lem false o false true = refl

  opened_lem :
      (c o k w : Bool)
      → transitions (tests_of c o k w) (left (at p opened))
        ≡ left (from opened p (tests_of c o k w))
  unfolding transitions
  opened_lem true o false w = refl
  opened_lem false o false w = refl
  opened_lem c o true true = refl
  opened_lem true o true false = refl
  opened_lem false o true false = refl

  closing_lem :
      (c o k w : Bool)
      → transitions (tests_of c o k w) (left (at p closing))
        ≡ left (from closing p (tests_of c o k w))
  unfolding transitions
  closing_lem c o k true = refl
  closing_lem true o k false = refl
  closing_lem false o k false = refl

  idle_lem :
      (c o k w : Bool)
      → transitions (tests_of c o k w) (left idle)
        ≡ left (if c then from_waiting p (tests_of c o k w) else idle)
  unfolding transitions
  idle_lem false o k w = refl
  idle_lem true false k w = refl
  idle_lem true true k false = refl
  idle_lem true true true true = refl
  idle_lem true true false true = refl

-- Flags that are not set stay so, and `init` is left alone.
off_lem :
    (t : Tests) (b : Bool)
    → transitions t (record { init = b; state0 = false; group = clear })
      ≡ record { init = b; state0 = false; group = clear }
unfolding transitions
off_lem t b = refl

stage_lem :
    (p : Priority) (st : Stage) (t : Tests) → transitions t (left (at p st)) ≡ left (from st p t)
stage_lem p waiting t = waiting_lem p t.chosen t.opens t.closes t.win_open
stage_lem p opening t = opening_lem p t.chosen t.opens t.closes t.win_open
stage_lem p opened t = opened_lem p t.chosen t.opens t.closes t.win_open
stage_lem p closing t = closing_lem p t.chosen t.opens t.closes t.win_open

-- Putting the flags of an end phase back gives that phase, from a stage of the priority and from
-- `idle`.
module _ (p : Priority) where
  abbrev Puts : Phase → Phase → Type 0
  Puts before ph = put p (left ph) (encode before) ≡ encode ph

put_at : (p : Priority) (st st' : Stage) → Puts p (at p st) (at p st')
unfolding put
put_at humidity st st' = refl
put_at temperature st st' = refl
put_at air_quality st st' = refl
put_at all st st' = refl

put_starting : (p : Priority) (st : Stage) → Puts p (at p st) starting
unfolding put
put_starting humidity st = refl
put_starting temperature st = refl
put_starting air_quality st = refl
put_starting all st = refl

put_idle :
    (p : Priority)
    → Puts p idle idle × Puts p idle starting × ((st : Stage) → Puts p idle (at p st))
unfolding put
put_idle humidity = (refl, refl, λ st. refl)
put_idle temperature = (refl, refl, λ st. refl)
put_idle air_quality = (refl, refl, λ st. refl)
put_idle all = (refl, refl, λ st. refl)

from_own :
    (p : Priority) (st : Stage) (t : Tests)
    → put p (transitions t (left (at p st))) (encode (at p st)) ≡ encode (from st p t)
from_own p st t =
    rw (stage_lem p st t) (from_ends (Puts p (at p st)) p st t (put_starting p st) (put_at p st))

chosen_own :
    (p : Priority) (t : Tests)
    → put p (transitions t (left idle)) (encode idle)
      ≡ encode (if t.chosen then from_waiting p t else idle)
chosen_own p t =
    let (i, s, st) = put_idle p in
    rw (idle_lem p t.chosen t.opens t.closes t.win_open) (
      pick (Puts p idle) t.chosen (from_waiting p t) idle (from_ends (Puts p idle) p waiting t s st)
        i)

pub apply-encode :
    (p : Priority) (t : Tests) (ph : Phase) → apply p t (encode ph) ≡ encode (pass p t ph)
unfolding apply pass
apply-encode humidity t (at humidity st) = from_own humidity st t
apply-encode temperature t (at temperature st) = from_own temperature st t
apply-encode air_quality t (at air_quality st) = from_own air_quality st t
apply-encode all t (at all st) = from_own all st t
apply-encode humidity t idle = chosen_own humidity t
apply-encode temperature t idle = chosen_own temperature t
apply-encode air_quality t idle = chosen_own air_quality t
apply-encode all t idle = chosen_own all t
apply-encode humidity t starting = rw (off_lem t true)
apply-encode temperature t starting = rw (off_lem t true)
apply-encode air_quality t starting = rw (off_lem t true)
apply-encode all t starting = rw (off_lem t true)
apply-encode humidity t ph = rw (off_lem t false)
apply-encode temperature t ph = rw (off_lem t false)
apply-encode air_quality t ph = rw (off_lem t false)
apply-encode all t ph = rw (off_lem t false)
