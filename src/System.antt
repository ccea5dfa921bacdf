-- ===== src/System.antt =====
-- The controller and the two nodes, with the texts between them: the decision thread (`decisionLoop`),
-- the request of `main` and the receiving thread (`receiveLoop`) of
-- RaspberryPi/Window_Controller/main_controller.cpp, and `communication_thread` of
-- microController/phytec/main.c.
pub mod Invariant
pub mod Safety
pub mod Delivery
pub mod Opening
pub mod Closing
pub mod Stopping
pub mod Running
pub mod Outage
pub mod Agreement
pub mod Sharing
pub mod Button
pub mod Quarrel
pub mod Leftover
use mathlib.Core.List.{Memᴰ}
use smart_window.Common.{
  ℕ, ◌≡◌, Bool, true, false, if◌then◌else◌, some, Bytes, codes, str_eq, List, [], ◌∷◌, ◌++◌,
}
use smart_window.Controller.Readings.{Readings}
use smart_window.Controller.Alarms.{Row}
use smart_window.Controller.Round.{Controller, Effect, writes, sends, sleeps, start, round}
use smart_window.Receiver.{handle_message}
use smart_window.Node.Main.{Command}
use smart_window.Node.Link.{inside, outside, Measured, Printing, Node, sent, serve}
use smart_window.Node.Link.Session.{power_up}
use smart_window.Node.Link.Measuring.{Prints}

-- `node` is the node inside and `outer` the one outside; all texts for nodes go to both. `win_open` is the
-- latest value of the table Win_Open. Datagrams can be lost, come twice and overtake
-- one another: `to_node` and `to_controller` are all texts that were ever sent.
pub record System : Type 0 where
  pub controller : Controller
  pub node : Node
  pub outer : Node
  pub win_open : Bool
  pub to_node : List Bytes
  pub to_controller : List Bytes

-- The texts that a round sends.
unfoldable pub texts : List Effect → List Bytes
texts [] = []
texts (writes row ∷ es) = texts es
texts (sends text ∷ es) = text ∷ texts es
texts (sleeps n ∷ es) = texts es

-- The beginning: the table of the window says `open_now`, and `any` is the command that `main` of a node
-- has not set.
unfoldable pub beginning : Command → Bool → System
unfolding start power_up
beginning any open_now = record {
  controller = start;
  node = power_up any;
  outer = power_up any;
  win_open = open_now;
  to_node = [];
  to_controller = [];
}

-- A step of one of the threads: `asks` is the loop of `main`, `decides` a round of `decisionLoop`, `answers` and
-- `answers_outside` a reception of `communication_thread` of one of the nodes, `stores` one of
-- `receiveLoop`. `truth` is the conversion of the value of a table to a truth value.
module _ (truth : Bytes → Bool) where
  -- The value of Win_Open after rows that the table takes. A row that it refuses, since it has one of this
  -- second, leaves the value: the step `stores` is then not made, as if the text had been lost.
  unfoldable pub window_after : List Row → Bool → Bool
  window_after [] b = b
  window_after (row ∷ rows) b =
      window_after rows (if str_eq row.table (codes "Win_Open") then truth row.value else b)

  module _ (alloc : ℕ → Bool) (printing : Printing) (fuel : ℕ) where
    pub data Step : System → System → Type 0 where
      asks : {s s' : System} → s' ≡ record s { to_node = codes "GET_All" ∷ s.to_node } → Step s s'
      decides :
          {s s' : System} (r : Readings) (c' : Controller) (es : List Effect)
          → r.win_open ≡ s.win_open
          → round r s.controller ≡ some (c', es)
          → s' ≡ record s { controller = c'; to_node = texts es ++ s.to_node }
          → Step s s'
      answers :
          {s s' : System} (text : Bytes) (fresh : Measured) (replies : List Bytes) (node' : Node)
          → Memᴰ text s.to_node
          → Prints printing fresh
          → serve inside printing fuel text fresh s.node ≡ sent replies node'
          → s' ≡ record s { node = node'; to_controller = replies ++ s.to_controller }
          → Step s s'
      answers_outside :
          {s s' : System} (text : Bytes) (fresh : Measured) (replies : List Bytes) (node' : Node)
          → Memᴰ text s.to_node
          → Prints printing fresh
          → serve outside printing fuel text fresh s.outer ≡ sent replies node'
          → s' ≡ record s { outer = node'; to_controller = replies ++ s.to_controller }
          → Step s s'
      stores :
          {s s' : System} (text : Bytes) (rows : List Row)
          → Memᴰ text s.to_controller
          → handle_message alloc text ≡ some rows
          → s' ≡ record s { win_open = window_after rows s.win_open }
          → Step s s'

    pub data Steps : System → System → Type 0 where
      done : {s : System} → Steps s s
      more : {s s' s'' : System} → Step s s' → Steps s' s'' → Steps s s''
