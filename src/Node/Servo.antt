-- ===== src/Node/Servo.antt =====
-- The servo of the window (microController/phytec/main.c, lines 57 to 66 and 417 to 437).
use smart_window.Common.{ℕ, ◌+◌, ◌-◌, ◌%◌, ◌^◌, Bool, leb}

abbrev pub step_lower_bound : ℕ
step_lower_bound = 1800

abbrev pub step_upper_bound : ℕ
step_upper_bound = 2500

abbrev pub default_step : ℕ
default_step = 10

-- The position of the servo is the bit pattern of an `int`, below 2 ^ 32: it is passed on and compared
-- as an unsigned number.
abbrev int_mod : ℕ
int_mod = 2 ^ 32

-- A move: the position that the servo is set to, the position after it, and whether it has arrived.
pub record Move : Type 0 where
  pub set : ℕ
  pub pos : ℕ
  pub arrived : Bool

unfoldable pub close_window : ℕ → ℕ → Move
close_window pos step =
    let pos' = (pos + step) % int_mod in
    record { set = pos; pos = pos'; arrived = leb step_upper_bound pos' }

unfoldable pub open_window : ℕ → ℕ → Move
open_window pos step =
    let pos' = (pos + int_mod - step) % int_mod in
    record { set = pos; pos = pos'; arrived = leb pos' step_lower_bound }
