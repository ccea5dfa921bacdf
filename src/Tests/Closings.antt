-- ===== src/Tests/Closings.antt =====
-- The system while the controller closes the window that the node has opened.
use smart_window.Common.{◌≡◌, ◌≢◌, refl, true, false, codes, ◌∷◌, arith}
use smart_window.Controller.Alarms.{state_rows}
use smart_window.Controller.Machine.Phase.{at, all, closing, encode}
use smart_window.Controller.Round.Loop.{AreSound}
use smart_window.Node.Main.{start_measurement}
use smart_window.System.{System, beginning, texts, Step, Steps}
use smart_window.System.Closing.{closing_completes}
use smart_window.Tests.Nodes.{always, gives, printing, fresh, fresh-Prints}
use smart_window.Tests.Rounds.{ending, closing_effects, ends, room_closing, room_shut}
use smart_window.Tests.Systems.{truth, known, asked_step, reported_step, known_step}

-- The controller reads that the window is open, and that it is to be closed.
abbrev ended : System
ended = record known { controller = ending; to_node = codes "PUT_Win/Close" ∷ known.to_node }

ended_step : Step truth always printing 70 known ended
unfolding texts state_rows
ended_step = Step.decides room_closing ending closing_effects refl ends refl

to_ended : Steps truth always printing 70 (beginning start_measurement false) ended
to_ended =
    Steps.more asked_step
      (Steps.more reported_step (Steps.more known_step (Steps.more ended_step Steps.done)))

room_closing-AreSound : AreSound room_closing
room_closing-AreSound = record { moderate = omega arith; humid = omega arith; temp = omega arith }

room_shut-AreSound : AreSound room_shut
room_shut-AreSound = record { moderate = omega arith; humid = omega arith; temp = omega arith }

closing_completes_example :
    (s' : System) × Steps truth always printing 70 ended s'
    × (s'.win_open ≡ false)
    × (s'.node.main.open_next ≡ true)
    × (s'.controller.flags ≢ encode (at all closing))
closing_completes_example =
    closing_completes truth always printing 70 gives refl refl (omega arith) start_measurement false
      ended all room_closing room_shut fresh to_ended refl refl room_closing-AreSound refl
      room_shut-AreSound refl fresh-Prints
