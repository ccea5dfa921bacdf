-- ===== src/Tests/Nodes.antt =====
-- A sensor node (microController/phytec/main.c) and what the controller stores for it.
use smart_window.Common.{
  ℕ, suc, ◌-◌, ◌/◌, ◌⊎◌, ◌≡◌, refl, inl, inr, Bool, true, false, some, codes, arith,
}
use smart_window.Common.Int.{pos}
use smart_window.Receiver.{c_string}
use smart_window.Node.Main.{
  start_measurement, finish_measurement, start_open_window, start_close_window, finish_open_window,
  finish_close_window, start, receive, replied,
}
use smart_window.Node.Main.Requests.{IsAtRest, start-IsAtRest, Answer, window_requests, positions}
use smart_window.Node.Link.{
  outside, Measured, Printing, Node, deadlock, undefined, pp_buf_size, serve,
}
use smart_window.Node.Link.Sending.{IsSensor}
use smart_window.Node.Main.Driving as Driving
use smart_window.Node.Main.Driving.{steps_down, steps_up}
use smart_window.Node.Link.Faults.{serve_faults}
use smart_window.Node.Link.Measuring.{FitsValue, Prints, Measurement, serve_measurement}
use smart_window.Node.Link.Serving.{IsUnknown, serve_unknown}

abbrev pub always : ℕ → Bool
always n = true

pub gives : (n : ℕ) → always n ≡ true
gives n = refl

-- A node at work, with its window opened.
abbrev opened_node : Node
opened_node = record {
  main = record { pos = 1800; open_next = false; driving = false; command = finish_open_window };
  command = finish_open_window;
}

opened_node-IsAtRest : IsAtRest opened_node.main
opened_node-IsAtRest = (refl, inr (refl, refl))

-- A printing that gives the same text for all numbers.
abbrev pub printing : Printing
printing = record {
  tenths = λ n. codes "22.500000";
  hundredths = λ n. codes "45.120000";
  as_int = λ n. codes "101325";
}

abbrev pub fresh : Measured
fresh = record {
  temperature = pos 225;
  pressure = 101325;
  volume = pos 4512;
  humidity = pos 4512;
  air_quality = pos 4512;
}

temperature-FitsValue : FitsValue (codes "22.500000")
temperature-FitsValue = (((λ e. ground arith), omega arith), omega arith)

percent-FitsValue : FitsValue (codes "45.120000")
percent-FitsValue = (((λ e. ground arith), omega arith), omega arith)

pressure-FitsValue : FitsValue (codes "101325")
pressure-FitsValue = (((λ e. ground arith), omega arith), omega arith)

pub fresh-Prints : Prints printing fresh
fresh-Prints = record {
  temperature = temperature-FitsValue;
  pressure = pressure-FitsValue;
  volume = percent-FitsValue;
  humidity = percent-FitsValue;
  air_quality = percent-FitsValue;
}

temp-IsSensor : IsSensor (codes "Temp")
temp-IsSensor = (((λ e. ground arith), omega arith), omega arith, omega arith)

window_requests_example :
    Answer (receive 70 start_open_window opened_node.main) finish_open_window false 70
    × Answer (receive 70 start_close_window opened_node.main) finish_close_window true 35
window_requests_example = window_requests 70 opened_node.main (omega arith) opened_node-IsAtRest

open_c_string : c_string pp_buf_size (codes "PUT_Win/Open") ≡ some (codes "PUT_Win/Open")
unfolding c_string
open_c_string = refl

open-IsUnknown : IsUnknown outside (codes "PUT_Win/Open")
open-IsUnknown e = ground arith

-- The node outside, when it has been asked for data once.
abbrev asked_node : Node
asked_node = record {
  main = record { pos = 2150; open_next = true; driving = false; command = finish_measurement };
  command = finish_measurement;
}

serve_unknown_example :
    serve outside printing (suc 69) (codes "PUT_Win/Open") fresh asked_node ≡ deadlock
serve_unknown_example =
    serve_unknown outside printing 69 fresh asked_node (codes "PUT_Win/Open") (codes "PUT_Win/Open")
      open_c_string open-IsUnknown (inl refl) refl

serve_measurement_example :
    Measurement always outside printing fresh asked_node.main
      (serve outside printing (suc 0) (codes "GET_All") fresh asked_node)
serve_measurement_example =
    serve_measurement outside printing 0 fresh asked_node always gives fresh-Prints

positions_example :
    ((true ≡ true)
      × (receive 70 start_open_window (start start_measurement)
          ≡ replied Driving.opened finish_open_window (
              steps_down
                (start start_measurement).pos
                (((start start_measurement).pos - 1800) / 10))))
    ⊎ ((true ≡ false)
        × (receive 70 start_close_window (start start_measurement)
            ≡ replied Driving.closed finish_close_window (steps_up 1800 35)))
unfolding start
positions_example =
    positions 70 (start start_measurement) (omega arith) (start-IsAtRest start_measurement)

-- Ten degrees below zero.
abbrev cold : Printing
cold = record printing { tenths = λ n. codes "-10.000000" }

serve_faults_example : serve outside cold (suc 69) (codes "GET_All") fresh asked_node ≡ undefined
serve_faults_example =
    serve_faults outside cold 69 (codes "GET_All") fresh asked_node (inr (refl, inl (omega arith)))
