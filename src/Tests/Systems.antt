-- ===== src/Tests/Systems.antt =====
-- The controller and the node inside, from the first round on.
use mathlib.Core.List.{Memᴰ}
use smart_window.Common.{
  ◌≡◌, ◌≢◌, refl, Bool, true, false, not, some, Bytes, codes, str_eq, List, [], ◌∷◌, All, arith,
}
use smart_window.Controller.Alarms.{Row, state_rows}
use smart_window.Controller.Machine.Phase.{at, all, opening, encode}
use smart_window.Receiver.{
  Received, failed, shut_down, datagram, handle_message, c_string, receive_loop,
}
use smart_window.Node.Main.{
  start, start_measurement, finish_open_window, round, run, receive, one_set,
}
use smart_window.Node.Main as Main
use smart_window.Node.Main.Requests.{IsAtRest}
use smart_window.Node.Link.{inside, Measured, Node, sent, serve, choose_command, conclude, answers}
use smart_window.Node.Link.Answering.{for_data, to_open}
use smart_window.Node.Link.Session.{power_up, communicate, Expected, listening}
use smart_window.System.{System, beginning, texts, window_after, Step, Steps}
use smart_window.System.Invariant.{handle_open}
use smart_window.System.Safety.{system_safe, believes_open}
use smart_window.Controller.Round.Loop.{AreSound}
use smart_window.Node.Link.Startup.{power_up-IsAtRest}
use smart_window.Node.Link.Texts.{PrintsTexts}
use smart_window.System.Agreement.{delivered, agreement}
use smart_window.System.Opening.{opening_completes}
use smart_window.Tests.Alarms.{room, room-AreModerate}
use smart_window.Tests.Nodes.{always, gives, printing, fresh, fresh-Prints}
use smart_window.Tests.Rounds.{begun, opening_effects, begins, room_open}

abbrev pub truth : Bytes → Bool
truth v = not (str_eq v (codes "0"))

-- A request for data, two failures, and the command to open, from two addresses.
abbrev pub receptions : List (Received × Measured)
receptions =
    (datagram (codes "fe80::1") (codes "GET_All"), fresh)
    ∷ (failed, fresh)
    ∷ (shut_down, fresh)
    ∷ (datagram (codes "fe80::2") (codes "PUT_Win/Open"), fresh)
    ∷ []

pub receptions-Expected : All (Expected printing) receptions
receptions-Expected =
    ((for_data refl, fresh-Prints), (tt, (tt, ((to_open refl, fresh-Prints), tt))))

printing-PrintsTexts : PrintsTexts printing
printing-PrintsTexts = record {
  tenths = λ z. omega arith;
  hundredths = λ z. omega arith;
  as_int = λ n. omega arith;
}

power_up-closed : false ≡ not (power_up start_measurement).main.open_next
unfolding power_up start
power_up-closed = refl

-- The node answers to a request for data, and to the command to open.
agreement_example :
    (node' : Node) × (rows : List Row) × ((communicate inside printing 70 receptions
        (power_up start_measurement)).standing
      ≡ listening node')
    × (receive_loop always (codes "fe80::1") (
          delivered
            (codes "fe80::9")
            (communicate inside printing 70 receptions (power_up start_measurement)).answers)
        ≡ some rows)
    × IsAtRest node'.main
    × (window_after truth rows false ≡ not node'.main.open_next)
agreement_example =
    agreement truth always (codes "fe80::1") (codes "fe80::9") gives refl refl refl printing 70
      (omega arith) printing-PrintsTexts receptions (power_up start_measurement) false
      receptions-Expected (power_up-IsAtRest start_measurement) power_up-closed

-- The node after the command to open.
abbrev opened : Node
opened = record {
  main = record { pos = 1800; open_next = false; driving = false; command = finish_open_window };
  command = finish_open_window;
}

served :
    serve inside printing 70 (codes "PUT_Win/Open") fresh (power_up start_measurement)
    ≡ sent (codes "PUT_Win/Open" ∷ []) opened
unfolding serve power_up Main.start c_string choose_command conclude answers receive run round
    one_set
served = refl

-- The first round asks for the window to be opened.
abbrev asked : System
asked = record {
  controller = begun;
  node = power_up start_measurement;
  outer = power_up start_measurement;
  win_open = false;
  to_node = codes "PUT_Win/Open" ∷ [];
  to_controller = [];
}

abbrev reported : System
reported = record asked { node = opened; to_controller = codes "PUT_Win/Open" ∷ [] }

abbrev pub known : System
known = record reported { win_open = true }

pub asked_step : Step truth always printing 70 (beginning start_measurement false) asked
unfolding beginning texts state_rows
asked_step = Step.decides room begun opening_effects refl begins refl

pub reported_step : Step truth always printing 70 asked reported
reported_step =
    Step.answers (codes "PUT_Win/Open") fresh (codes "PUT_Win/Open" ∷ []) opened (Memᴰ.head refl)
      fresh-Prints served refl

pub known_step : Step truth always printing 70 reported known
unfolding window_after
known_step =
    Step.stores (codes "PUT_Win/Open") _ (Memᴰ.head refl) (handle_open truth always gives refl refl)
      refl

to_asked : Steps truth always printing 70 (beginning start_measurement false) asked
to_asked = Steps.more asked_step Steps.done

to_reported : Steps truth always printing 70 (beginning start_measurement false) reported
to_reported = Steps.more asked_step (Steps.more reported_step Steps.done)

to_known : Steps truth always printing 70 (beginning start_measurement false) known
to_known = Steps.more asked_step (Steps.more reported_step (Steps.more known_step Steps.done))

system_safe_example :
    ((replies : List Bytes) × (node' : Node) × (serve inside printing 70
          (codes "PUT_Win/Open")
          fresh
          opened
        ≡ sent replies node'))
    × ((rows : List Row) × (handle_message always (codes "PUT_Win/Open") ≡ some rows))
system_safe_example =
    system_safe truth always printing 70 gives refl refl (omega arith) false start_measurement
      reported (codes "PUT_Win/Open") (codes "PUT_Win/Open") fresh to_reported (Memᴰ.head refl)
      (Memᴰ.head refl) fresh-Prints

believes_open_example : Memᴰ (codes "PUT_Win/Open") (codes "PUT_Win/Open" ∷ [])
believes_open_example =
    believes_open truth always printing 70 start_measurement known gives refl refl (omega arith)
      to_known refl

pub room-AreSound : AreSound room
room-AreSound = record { moderate = room-AreModerate; humid = omega arith; temp = omega arith }

pub room_open-AreSound : AreSound room_open
room_open-AreSound = record { moderate = omega arith; humid = omega arith; temp = omega arith }

opening_completes_example :
    (s' : System) × Steps truth always printing 70 asked s'
    × (s'.win_open ≡ true)
    × (s'.node.main.open_next ≡ false)
    × (s'.controller.flags ≢ encode (at all opening))
opening_completes_example =
    opening_completes truth always printing 70 gives refl refl (omega arith) start_measurement false
      asked all room room_open fresh to_asked refl refl room-AreSound refl room_open-AreSound refl
      fresh-Prints
