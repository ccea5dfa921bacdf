-- ===== src/Controller/Round.antt =====
-- One round of `decisionLoop` (RaspberryPi/Window_Controller/main_controller.cpp, lines 315 to 793):
-- what it does to the variables that live across rounds, and its effects in order.
pub mod Reached
pub mod Commands
pub mod Outcomes
pub mod Settling
pub mod Loop
pub mod History
pub mod Storing
use smart_window.Common.{
  ℕ, zero, suc, Bool, true, false, if◌then◌else◌, Option, none, some, Bytes, codes, List, [], ◌∷◌,
  ◌++◌, map,
}
use smart_window.Common.Int.{ℤ}
use smart_window.Common.Outcome.{M, pure, ◌>>=◌, ◌>>◌}
use smart_window.Controller.Readings.{Readings, read_readings}
use smart_window.Controller.Alarms.{Alarms, Row, no_alarms, derive, update_alarms, state_rows}
use smart_window.Controller.Machine.{Flags, initial, advance, asks_open, asks_close}

pub record Controller : Type 0 where
  pub alarms : Alarms
  pub flags : Flags

unfoldable pub start : Controller
unfolding no_alarms initial
start = record { alarms = no_alarms; flags = initial }

-- `sends` goes to the multicast address.
pub data Effect : Type 0 where
  writes : Row → Effect
  sends : Bytes → Effect
  sleeps : ℕ → Effect

-- The assignments.
unfoldable pub commands : Flags → List Effect
unfolding asks_open asks_close
commands f =
    (if asks_open f then sends (codes "PUT_Win/Open") ∷ sleeps 5 ∷ [] else [])
    ++ (if asks_close f then sends (codes "PUT_Win/Close") ∷ sleeps 5 ∷ [] else [])

-- `none` is a signed overflow.
unfoldable pub round : Readings → Controller → Option (Controller × List Effect)
round r c = elim (derive r) [
  | none ↦ none
  | some d ↦
      let a = update_alarms r d c.alarms in
      let f = advance r a c.flags in
      some (
        record { alarms = a; flags = f },
        map writes (state_rows r a) ++ (commands f ++ sleeps 5 ∷ []),
      )
]

-- The round in the world: `get_bool`, `get_int` and `write` are the functions of write_read.cpp on the
-- thread's handle and on handles of their own, `send` is `sw_send` to the multicast address.
module _ {W : Type 0} (get_bool : Bytes → M W Bool) (get_int : Bytes → M W ℤ)
    (write : Row → M W (Unit {0})) (send : Bytes → M W (Unit {0}))
    (sleep : ℕ → M W (Unit {0})) where
  unfoldable pub perform : List Effect → M W (Unit {0})
  perform [] = pure tt
  perform (writes row ∷ es) = write row >> perform es
  perform (sends text ∷ es) = send text >> perform es
  perform (sleeps n ∷ es) = sleep n >> perform es

  unfoldable pub decision_round : Controller → M W Controller
  unfolding round perform read_readings
  decision_round c = do
    r ← read_readings get_bool get_int
    (c', effects) ← λ w. elim (round r c) [ none ↦ none | some result ↦ some (result, w) ]
    perform effects
    pure c'

  -- The loop, for a number of rounds.
  unfoldable pub decision_loop : ℕ → Controller → M W Controller
  unfolding decision_round
  decision_loop zero c = pure c
  decision_loop (suc n) c = decision_round c >>= decision_loop n
