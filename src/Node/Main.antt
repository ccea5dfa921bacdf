-- ===== src/Node/Main.antt =====
-- The main thread of the node (microController/phytec/main.c, lines 129 to 138 and 314 to 415).
pub mod Driving
pub mod Requests
use smart_window.Common.{
  ℕ, zero, suc, ◌*◌, ◌+◌, ◌/◌, Bool, true, false, if◌then◌else◌, Option, none, some, List, [], ◌∷◌,
}
use smart_window.Node.Servo.{
  Move, close_window, open_window, step_lower_bound, step_upper_bound, default_step,
}

-- eCommunicationCommand
pub data Command : Type 0 where
  start_measurement finish_measurement : Command
  start_open_window start_close_window finish_open_window finish_close_window : Command

-- The variables of `main`. `open_next` is `b_openWindow`: the window is to be opened next.
pub record Main : Type 0 where
  pub pos : ℕ
  pub open_next : Bool
  pub driving : Bool
  pub command : Command

-- Before the first message; the command is not yet set, so it can be any.
unfoldable pub start : Command → Main
start any = record {
  pos = (step_lower_bound + step_upper_bound) / 2;
  open_next = true;
  driving = false;
  command = any;
}

-- What one round of the loop does besides: the message that it sends to the communication thread, the
-- position that it sets, and whether it takes a measurement.
pub record Output : Type 0 where
  pub reply : Option Command
  pub set : Option ℕ
  pub measures : Bool

abbrev quiet : Output
quiet = record { reply = none; set = none; measures = false }

-- The end of a request, with its message.
abbrev finish : Command → Main → Main
finish c m = record m { command = c; driving = false }

open_step : Main → Move → Main × Output
open_step m move =
    if move.arrived
    then (
      finish finish_open_window (record m { pos = move.pos; open_next = false }),
      record quiet { reply = some finish_open_window; set = some move.set },
    )
    else (record m { pos = move.pos; driving = true }, record quiet { set = some move.set })

close_step : Main → Move → Main × Output
close_step m move =
    if move.arrived
    then (
      finish finish_close_window (record m { pos = move.pos; open_next = true }),
      record quiet { reply = some finish_close_window; set = some move.set },
    )
    else (record m { pos = move.pos; driving = true }, record quiet { set = some move.set })

-- The `switch`, on the command that was received or that is being driven.
dispatch : Command → Main → Main × Output
unfolding open_step close_step
dispatch start_measurement m = (
  record m { command = finish_measurement },
  record quiet { reply = some finish_measurement; measures = true },
)
dispatch start_open_window m =
    if m.open_next
    then open_step m (open_window m.pos default_step)
    else (finish finish_open_window m, record quiet { reply = some finish_open_window })
dispatch start_close_window m =
    if m.open_next
    then (finish finish_close_window m, record quiet { reply = some finish_close_window })
    else close_step m (close_window m.pos (default_step * 2))
dispatch _ m = (m, quiet)

unfoldable pub round : Main → Main × Output
unfolding dispatch open_window close_window
round m = dispatch m.command m

-- The rounds from a message that the main thread has received on: it waits for the next message as
-- soon as it drives no window. `sets` are the positions that the servo was set to.
pub data Outcome : Type 0 where
  replied : Main → Command → List ℕ → Outcome
  waiting : Main → Outcome
  exhausted : Outcome

abbrev cons_set : Option ℕ → Outcome → Outcome
cons_set none o = o
cons_set (some v) (replied m c sets) = replied m c (v ∷ sets)
cons_set (some v) o = o

unfoldable pub one_set : Option ℕ → List ℕ
one_set none = []
one_set (some v) = v ∷ []

-- What a round comes to, given the outcome of the rounds after it.
next : Main × Output → Outcome → Outcome
unfolding one_set
next (m, o) rest = elim o.reply [
  | some c ↦ replied m c (one_set o.set)
  | none ↦ if m.driving then cons_set o.set rest else waiting m
]

unfoldable pub run : ℕ → Main → Outcome
unfolding next
run zero m = exhausted
run (suc fuel) m = let rest = run fuel (round m).0 in next (round m) rest

-- `msg_receive` and the rounds up to the answer.
unfoldable pub receive : ℕ → Command → Main → Outcome
unfolding run
receive fuel c m = run fuel (record m { command = c })
