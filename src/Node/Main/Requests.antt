-- ===== src/Node/Main/Requests.antt =====
-- Every request of the communication thread is answered.
use smart_window.Common.{
  ℕ, zero, suc, ◌+◌, ◌-◌, ◌/◌, ◌*◌, ◌≤◌, ◌<◌, ◌≡◌, refl, ap, ◌∙◌, ◌⊎◌, inl, inr, Bool, true, false,
  none, List, [], All, arith, length,
}
use smart_window.Node.Main.{
  Command, start_measurement, finish_measurement, start_open_window, start_close_window,
  finish_open_window, finish_close_window, Main, start, Outcome, replied, waiting, round, run,
  receive, one_set,
}
use smart_window.Node.Main.Driving.{
  InRange, opened, closed, opens, closes, steps_down, steps_up, steps_down-InRange,
  steps_up-InRange, length-steps_down, length-steps_up, run-answer, round_already_open,
  round_already_closed,
}

-- Between two requests: the window has not been moved yet, or it was closed or opened last.
abbrev pub IsAtRest : Main → Type 0
IsAtRest m =
    (m.driving ≡ false)
    × (((m.open_next ≡ true) × ((m.pos ≡ 2150) ⊎ (m.pos ≡ 2500)))
        ⊎ ((m.open_next ≡ false) × (m.pos ≡ 1800)))

pub start-IsAtRest : (any : Command) → IsAtRest (start any)
unfolding start
start-IsAtRest any = (refl, inl (refl, inl refl))

-- The answer to a request, with the positions that the servo was set to.
pub record Answer (o : Outcome) (c : Command) (next : Bool) (most : ℕ) : Type 0 where
  pub after : Main
  pub sets : List ℕ
  pub replies : o ≡ replied after c sets
  pub rests : IsAtRest after
  pub moved : after.open_next ≡ next
  pub in_range : All InRange sets
  pub bounded : length sets ≤ most

-- The state in which the main thread takes up a request.
abbrev taking : Main → Bool → Command → Main
taking m b c = record { pos = m.pos; open_next = b; driving = m.driving; command = c }

receive-run :
    (fuel : ℕ) (c : Command) (m : Main) (b : Bool)
    → m.open_next ≡ b
    → receive fuel c m ≡ run fuel (taking m b c)
unfolding receive
receive-run fuel c m b e = ap (λ x. run fuel (taking m x c)) e

opens_from :
    (k fuel : ℕ) (m : Main)
    → k < 70
    → 70 ≤ fuel
    → m.pos ≡ 1800 + 10 * suc k
    → m.open_next ≡ true
    → Answer (receive fuel start_open_window m) finish_open_window false 70
opens_from k fuel m small h p o = record {
  after = opened;
  sets = steps_down m.pos (suc k);
  replies =
      receive-run fuel start_open_window m true o
      ∙ opens k fuel m.pos m.driving (omega arith) p (omega arith);
  rests = (refl, inr (refl, refl));
  moved = refl;
  in_range = steps_down-InRange (suc k) m.pos (omega arith) (omega arith);
  bounded = omega (arith, length-steps_down (suc k) m.pos);
}

-- With the window at rest, a request to open it is answered within seventy rounds; the servo is only
-- set within its limits, and the window is at rest, opened.
pub open_request :
    (fuel : ℕ) (m : Main)
    → 70 ≤ fuel
    → IsAtRest m
    → Answer (receive fuel start_open_window m) finish_open_window false 70
open_request fuel m h (d, inl (o, inl p)) = opens_from 34 fuel m (omega arith) h (omega arith) o
open_request fuel m h (d, inl (o, inr p)) = opens_from 69 fuel m (omega arith) h (omega arith) o
open_request zero m h (d, inr (o, p)) = absurd (omega arith)
open_request (suc fuel) m h (d, inr (o, p)) = record {
  after = record { pos = m.pos; open_next = false; driving = false; command = finish_open_window };
  sets = [];
  replies =
      receive-run (suc fuel) start_open_window m false o
      ∙ run-answer fuel _ _ _ none _ (round_already_open m.pos m.driving)
      ∙ unfold one_set in refl;
  rests = (refl, inr (refl, p));
  moved = refl;
  in_range = tt;
  bounded = omega arith;
}

-- With the window at rest, a request to close it is answered within thirty-five rounds; the servo is
-- only set within its limits, and the window is at rest, to be opened next.
pub close_request :
    (fuel : ℕ) (m : Main)
    → 35 ≤ fuel
    → IsAtRest m
    → Answer (receive fuel start_close_window m) finish_close_window true 35
close_request zero m h r = absurd (omega arith)
close_request (suc fuel) m h (d, inl (o, p)) = record {
  after = record { pos = m.pos; open_next = true; driving = false; command = finish_close_window };
  sets = [];
  replies =
      receive-run (suc fuel) start_close_window m true o
      ∙ run-answer fuel _ _ _ none _ (round_already_closed m.pos m.driving)
      ∙ unfold one_set in refl;
  rests = (refl, inl (refl, p));
  moved = refl;
  in_range = tt;
  bounded = omega arith;
}
close_request (suc fuel) m h (d, inr (o, p)) = record {
  after = closed;
  sets = steps_up m.pos 35;
  replies =
      receive-run (suc fuel) start_close_window m false o
      ∙ closes 34 (suc fuel) m.pos m.driving (omega arith) (omega arith) (omega arith);
  rests = (refl, inl (refl, inr refl));
  moved = refl;
  in_range = steps_up-InRange 35 m.pos (omega arith) (omega arith);
  bounded = omega (arith, length-steps_up 35 m.pos);
}

-- With the window at rest, a request to open it is answered within seventy rounds and one to close it
-- within thirty-five; the servo is only set to positions from 1800 to 2500, which are the step bounds and the
-- limits of servo_init at once, so that nothing is clamped; and the window is at rest, opened or to
-- be opened next.
pub window_requests :
    (fuel : ℕ) (m : Main)
    → 70 ≤ fuel
    → IsAtRest m
    → Answer (receive fuel start_open_window m) finish_open_window false 70
      × Answer (receive fuel start_close_window m) finish_close_window true 35
window_requests fuel m h r = (open_request fuel m h r, close_request fuel m (omega arith) r)

-- The positions that the servo is set to, for each place where a window at rest can be: a window that
-- has not been moved yet is opened in 35 steps of ten from the middle, a closed one in 70 from the upper
-- bound, and an open one is closed in 35 steps of twenty from the lower bound.
pub positions :
    (fuel : ℕ) (m : Main)
    → 70 ≤ fuel
    → IsAtRest m
    → ((m.open_next ≡ true)
        × (receive fuel start_open_window m
            ≡ replied opened finish_open_window (steps_down m.pos ((m.pos - 1800) / 10))))
      ⊎ ((m.open_next ≡ false)
          × (receive fuel start_close_window m
              ≡ replied closed finish_close_window (steps_up 1800 35)))
positions fuel m h (d, inl (o, inl p)) = inl (
  o,
  receive-run fuel start_open_window m true o
      ∙ opens 34 fuel m.pos m.driving (omega arith) (omega arith) (omega arith)
      ∙ ap (λ n. replied opened finish_open_window (steps_down m.pos n)) (omega arith),
)
positions fuel m h (d, inl (o, inr p)) = inl (
  o,
  receive-run fuel start_open_window m true o
      ∙ opens 69 fuel m.pos m.driving (omega arith) (omega arith) (omega arith)
      ∙ ap (λ n. replied opened finish_open_window (steps_down m.pos n)) (omega arith),
)
positions fuel m h (d, inr (o, p)) = inr (
  o,
  receive-run fuel start_close_window m false o
      ∙ closes 34 fuel m.pos m.driving (omega arith) (omega arith) (omega arith)
      ∙ ap (λ n. replied closed finish_close_window (steps_up n 35)) p,
)

-- A request to measure is answered in one round, and leaves the window as it is.
pub measurement_request :
    (fuel : ℕ) (m : Main)
    → receive (suc fuel) start_measurement m
      ≡ replied (record m { command = finish_measurement }) finish_measurement []
unfolding receive run round
measurement_request fuel m = refl

-- A command that is no request leaves the main thread waiting, and no answer is sent.
pub finished_waits :
    (fuel : ℕ) (m : Main) (c : Command)
    → m.driving ≡ false
    → (c ≡ finish_measurement) ⊎ (c ≡ finish_open_window) ⊎ (c ≡ finish_close_window)
    → receive (suc fuel) c m ≡ waiting (record m { command = c })
unfolding receive run round
finished_waits fuel m c d h = ground arith
