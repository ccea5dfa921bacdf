-- ===== src/Controller/Machine.antt =====
-- The state machine of `decisionLoop` (RaspberryPi/Window_Controller/main_controller.cpp, lines 347
-- to 365 and 538 to 769): seventeen flags, and transitions that are tried one after the other.
pub mod Phase
pub mod Stages
pub mod Refinement
use smart_window.Common.{Bool, true, false, not, ◌&&◌, ◌||◌, if◌then◌else◌}
use smart_window.Common.Int.{ℤ, pos, eqb_ℤ}
use smart_window.Controller.Readings.{Readings}
use smart_window.Controller.Alarms.{Alarms}

-- The four flags of one priority: `state11` to `state14` for the first.
pub record Group : Type 0 where
  pub s1 : Bool
  pub s2 : Bool
  pub s3 : Bool
  pub s4 : Bool

pub record Flags : Type 0 where
  pub init : Bool
  pub state0 : Bool
  pub state1 : Group
  pub state2 : Group
  pub state3 : Group
  pub state4 : Group

abbrev pub clear : Group
clear = record { s1 = false; s2 = false; s3 = false; s4 = false }

-- The flags before the first round.
unfoldable pub initial : Flags
initial = record {
  init = true;
  state0 = false;
  state1 = clear;
  state2 = clear;
  state3 = clear;
  state4 = clear;
}

-- The flags that the transitions of one priority read and write.
pub record Slice : Type 0 where
  pub init : Bool
  pub state0 : Bool
  pub group : Group

-- What the transitions of one priority test besides the flags: `chosen` is its test of the priority,
-- `opens` and `closes` are the conditions of its second and fourth transition.
pub record Tests : Type 0 where
  pub chosen : Bool
  pub opens : Bool
  pub closes : Bool
  pub win_open : Bool

-- Transition 1.1
abbrev pub choose : Tests → Slice → Slice
choose t s =
    if s.state0 && t.chosen && not s.group.s1
    then record s { state0 = false; group = record (s.group) { s1 = true } }
    else s

-- Transition 1.2
abbrev pub start_opening : Tests → Slice → Slice
start_opening t s =
    if s.group.s1 && t.opens && not s.group.s2
    then record s { group = record (s.group) { s1 = false; s2 = true } }
    else s

-- Transition 1.3
abbrev pub finish_opening : Tests → Slice → Slice
finish_opening t s =
    if s.group.s2 && t.win_open && not s.group.s3
    then record s { group = record (s.group) { s2 = false; s3 = true } }
    else s

-- Transition 1.4
abbrev pub start_closing : Tests → Slice → Slice
start_closing t s =
    if s.group.s3 && t.closes && not s.group.s4
    then record s { group = record (s.group) { s3 = false; s4 = true } }
    else s

-- Transition 1.5
abbrev pub finish_closing : Tests → Slice → Slice
finish_closing t s =
    if s.group.s4 && not t.win_open && not s.group.s1
    then record s { group = record (s.group) { s4 = false; s1 = true } }
    else s

-- Transition 1.6
abbrev pub leave_opened : Tests → Slice → Slice
leave_opened t s =
    if s.group.s3 && not t.chosen && not s.init
    then record s { init = true; group = record (s.group) { s3 = false } }
    else s

-- Transition 1.7
abbrev pub leave_waiting : Tests → Slice → Slice
leave_waiting t s =
    if s.group.s1 && not t.chosen && not s.init
    then record s { init = true; group = record (s.group) { s1 = false } }
    else s

-- The seven transitions of one priority, in the order of the source.
unfoldable pub transitions : Tests → Slice → Slice
transitions t s = leave_waiting t (
    leave_opened t
      (finish_closing t (start_closing t (finish_opening t (start_opening t (choose t s))))))

-- The conditions that the four priorities share: `asked` is the alarm that opens the window.
abbrev pub opening : Readings → Alarms → Bool → Bool
opening r a asked =
    not a.wind_alarm
    && ((not r.auto_mode && r.man_open) || (r.auto_mode && asked && not a.vol_alarm))

-- The condition of transitions 1.4, 2.4 and 3.4.
abbrev pub closing : Readings → Alarms → Bool → Bool
closing r a asked =
    not a.wind_alarm
    || (not r.auto_mode && r.man_close)
    || (r.auto_mode && (a.vol_alarm || not asked))

unfoldable pub humidity_tests : Readings → Alarms → Tests
humidity_tests r a = record {
  chosen = eqb_ℤ r.priority (pos 0);
  opens = opening r a a.humid_alarm;
  closes = closing r a a.humid_alarm;
  win_open = r.win_open;
}

unfoldable pub temperature_tests : Readings → Alarms → Tests
temperature_tests r a = record {
  chosen = eqb_ℤ r.priority (pos 1);
  opens = opening r a a.temp_alarm;
  closes = closing r a a.temp_alarm;
  win_open = r.win_open;
}

unfoldable pub air_quality_tests : Readings → Alarms → Tests
air_quality_tests r a = record {
  chosen = eqb_ℤ r.priority (pos 2);
  opens = opening r a a.air_q_alarm;
  closes = closing r a a.air_q_alarm;
  win_open = r.win_open;
}

-- Transition 4.4 joins its conditions by `&&`, and does not ask for the noise alarm.
unfoldable pub all_tests : Readings → Alarms → Tests
all_tests r a = record {
  chosen = eqb_ℤ r.priority (pos 3);
  opens = opening r a (a.air_q_alarm || a.temp_alarm || a.humid_alarm);
  closes =
      not a.wind_alarm
      && ((not r.auto_mode && r.man_close)
          || (r.auto_mode && (not a.air_q_alarm || not a.temp_alarm || not a.humid_alarm)));
  win_open = r.win_open;
}

-- Transition 0
unfoldable pub transition_0 : Readings → Flags → Flags
transition_0 r f =
    if f.init && not r.win_open && not f.state0 then record f { init = false; state0 = true } else f

-- Transitions 1.1 to 1.7
unfoldable pub transitions_1 : Readings → Alarms → Flags → Flags
unfolding transitions humidity_tests
transitions_1 r a f =
    let s =
      transitions (humidity_tests r a)
        (record { init = f.init; state0 = f.state0; group = f.state1 }) in
    record f { init = s.init; state0 = s.state0; state1 = s.group }

-- Transitions 2.1 to 2.7
unfoldable pub transitions_2 : Readings → Alarms → Flags → Flags
unfolding transitions temperature_tests
transitions_2 r a f =
    let s =
      transitions (temperature_tests r a)
        (record { init = f.init; state0 = f.state0; group = f.state2 }) in
    record f { init = s.init; state0 = s.state0; state2 = s.group }

-- Transitions 3.1 to 3.7
unfoldable pub transitions_3 : Readings → Alarms → Flags → Flags
unfolding transitions air_quality_tests
transitions_3 r a f =
    let s =
      transitions (air_quality_tests r a)
        (record { init = f.init; state0 = f.state0; group = f.state3 }) in
    record f { init = s.init; state0 = s.state0; state3 = s.group }

-- Transitions 4.1 to 4.7
unfoldable pub transitions_4 : Readings → Alarms → Flags → Flags
unfolding transitions all_tests
transitions_4 r a f =
    let s =
      transitions (all_tests r a) (record { init = f.init; state0 = f.state0; group = f.state4 }) in
    record f { init = s.init; state0 = s.state0; state4 = s.group }

unfoldable pub advance : Readings → Alarms → Flags → Flags
unfolding transition_0 transitions_1 transitions_2 transitions_3 transitions_4
advance r a f =
    transitions_4 r a (transitions_3 r a (transitions_2 r a (transitions_1 r a (transition_0 r f))))

-- The tests of the assignments.
unfoldable pub asks_open : Flags → Bool
asks_open f = f.state1.s2 || f.state2.s2 || f.state3.s2 || f.state4.s2

unfoldable pub asks_close : Flags → Bool
asks_close f = f.init || f.state1.s4 || f.state2.s4 || f.state3.s4 || f.state4.s4
