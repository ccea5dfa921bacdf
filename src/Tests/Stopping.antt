-- ===== src/Tests/Stopping.antt =====
-- The node outside, asked for data and then sent a command for the window.
use mathlib.Core.List.{Memᴰ}
use smart_window.Common.{◌≡◌, refl, false, codes, [], ◌∷◌, arith}
use smart_window.Node.Main.{start, start_measurement, finish_measurement}
use smart_window.Node.Link.{outside, Node, deadlock, serve}
use smart_window.Node.Link.Measuring.{Measurement, serve_measurement}
use smart_window.Node.Link.Session.{power_up}
use smart_window.System.{System, beginning, Step, Steps}
use smart_window.System.Stopping.{outside_stops}
use smart_window.Tests.Nodes.{always, gives, printing, fresh, fresh-Prints}
use smart_window.Tests.Systems.{truth}

-- The controller has asked for data.
abbrev polled : System
polled = record (beginning start_measurement false) { to_node = codes "GET_All" ∷ [] }

polled_step : Step truth always printing 70 (beginning start_measurement false) polled
unfolding beginning
polled_step = Step.asks refl

abbrev measured : Node
measured = record {
  main = record (start start_measurement) { command = finish_measurement };
  command = finish_measurement;
}

polled_answer :
    Measurement always outside printing fresh
      (start start_measurement)
      (serve outside printing 70 (codes "GET_All") fresh polled.outer)
unfolding beginning power_up
polled_answer =
    serve_measurement outside printing 69 fresh (power_up start_measurement) always gives
      fresh-Prints

outside_stops_example :
    (serve outside printing 70 (codes "PUT_Win/Open") fresh measured ≡ deadlock)
    × (serve outside printing 70 (codes "PUT_Win/Close") fresh measured ≡ deadlock)
outside_stops_example =
    outside_stops truth always printing 70 start_measurement false polled (codes "GET_All") fresh
      fresh _ measured gives refl refl (omega arith) (Steps.more polled_step Steps.done)
      (Memᴰ.head refl) fresh-Prints polled_answer.served
