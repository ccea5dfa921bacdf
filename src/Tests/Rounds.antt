-- ===== src/Tests/Rounds.antt =====
-- Rounds of `decisionLoop` (RaspberryPi/Window_Controller/main_controller.cpp, lines 315 to 793).
use smart_window.Common.{
  ◌≡◌, ◌≢◌, ◌⊎◌, refl, true, false, some, codes, List, [], ◌∷◌, ◌++◌, map, arith,
}
use smart_window.Common.Int.{half_ℤ, to_int, ◌+ℤ◌, ◌-ℤ◌}
use smart_window.Controller.Readings.{Readings}
use smart_window.Controller.Alarms.{
  no_alarms, derive, average, update_alarms, update_air_q, update_range, update_temp, update_humid,
  update_vol, state_rows,
}
use smart_window.Controller.Machine.{
  Flags, Group, clear, initial, advance, transition_0, transitions_1, transitions_2, transitions_3,
  transitions_4, transitions, humidity_tests, temperature_tests, air_quality_tests, all_tests,
  asks_open, asks_close,
}
use smart_window.Controller.Machine.Phase.{
  Phase, at, encode, next, Priority, humidity, temperature, air_quality, all, opening, waiting,
}
use smart_window.Controller.Round.{
  Controller, Effect, writes, sends, sleeps, start, round, commands,
}
use smart_window.Controller.Round.Reached.{Reached, first, after, Inv, Reached-Inv}
use smart_window.Controller.Round.Commands.{sent, request, round_refines}
use smart_window.Controller.Round.Outcomes.{asked, rests_opened, opens_for_a_reason, keeps_opening}
use smart_window.Controller.Round.Settling.{IsShut, settles}
use smart_window.Tests.Alarms.{room, raised}

abbrev pub opening_group : Group
opening_group = record clear { s2 = true }

abbrev opened_group : Group
opened_group = record clear { s3 = true }

abbrev closing_group : Group
closing_group = record clear { s4 = true }

abbrev waiting_group : Group
waiting_group = record clear { s1 = true }

abbrev pub resting : Flags
resting = record {
  init = false;
  state0 = false;
  state1 = clear;
  state2 = clear;
  state3 = clear;
  state4 = clear;
}

-- The window is being opened, and then is open.
abbrev pub begun : Controller
begun = record { alarms = raised; flags = record resting { state4 = opening_group } }

abbrev done : Controller
done = record { alarms = raised; flags = record resting { state4 = opened_group } }

-- The window is open, and is being closed.
abbrev pub ending : Controller
ending = record { alarms = raised; flags = record resting { state4 = closing_group } }

abbrev pub shut : Controller
shut = record { alarms = raised; flags = record resting { state4 = waiting_group } }

abbrev pub room_open : Readings
room_open = record room { win_open = true }

abbrev pub room_shut : Readings
room_shut = record room { man_open = false; man_close = true }

-- The request to close, with the window open.
abbrev pub room_closing : Readings
room_closing = record room { man_open = false; man_close = true; win_open = true }

-- Both opening and closing are asked for.
abbrev pub room_both : Readings
room_both = record room { man_close = true }

abbrev pub opening_effects : List Effect
opening_effects =
    map writes (state_rows room raised) ++ sends (codes "PUT_Win/Open") ∷ sleeps 5 ∷ sleeps 5 ∷ []

abbrev pub closing_effects : List Effect
closing_effects =
    map writes (state_rows room_closing raised)
    ++ sends (codes "PUT_Win/Close") ∷ sleeps 5 ∷ sleeps 5 ∷ []

abbrev pub resting_effects : Readings → List Effect
resting_effects r = map writes (state_rows r raised) ++ sleeps 5 ∷ []

pub begins : round room start ≡ some (begun, opening_effects)
unfolding round start no_alarms initial derive average to_int half_ℤ ◌+ℤ◌ ◌-ℤ◌ update_alarms
    update_air_q update_range update_temp update_humid update_vol advance transition_0 transitions_1
    transitions_2 transitions_3 transitions_4 transitions humidity_tests temperature_tests
    air_quality_tests all_tests commands asks_open asks_close
begins = refl

goes_on : round room begun ≡ some (begun, opening_effects)
unfolding round start no_alarms initial derive average to_int half_ℤ ◌+ℤ◌ ◌-ℤ◌ update_alarms
    update_air_q update_range update_temp update_humid update_vol advance transition_0 transitions_1
    transitions_2 transitions_3 transitions_4 transitions humidity_tests temperature_tests
    air_quality_tests all_tests commands asks_open asks_close
goes_on = refl

opens : round room_open begun ≡ some (done, resting_effects room_open)
unfolding round start no_alarms initial derive average to_int half_ℤ ◌+ℤ◌ ◌-ℤ◌ update_alarms
    update_air_q update_range update_temp update_humid update_vol advance transition_0 transitions_1
    transitions_2 transitions_3 transitions_4 transitions humidity_tests temperature_tests
    air_quality_tests all_tests commands asks_open asks_close
opens = refl

pub ends : round room_closing begun ≡ some (ending, closing_effects)
unfolding round start no_alarms initial derive average to_int half_ℤ ◌+ℤ◌ ◌-ℤ◌ update_alarms
    update_air_q update_range update_temp update_humid update_vol advance transition_0 transitions_1
    transitions_2 transitions_3 transitions_4 transitions humidity_tests temperature_tests
    air_quality_tests all_tests commands asks_open asks_close
ends = refl

pub shuts : round room_shut start ≡ some (shut, resting_effects room_shut)
unfolding round start no_alarms initial derive average to_int half_ℤ ◌+ℤ◌ ◌-ℤ◌ update_alarms
    update_air_q update_range update_temp update_humid update_vol advance transition_0 transitions_1
    transitions_2 transitions_3 transitions_4 transitions humidity_tests temperature_tests
    air_quality_tests all_tests commands asks_open asks_close
shuts = refl

rests : round room_shut shut ≡ some (shut, resting_effects room_shut)
unfolding round start no_alarms initial derive average to_int half_ℤ ◌+ℤ◌ ◌-ℤ◌ update_alarms
    update_air_q update_range update_temp update_humid update_vol advance transition_0 transitions_1
    transitions_2 transitions_3 transitions_4 transitions humidity_tests temperature_tests
    air_quality_tests all_tests commands asks_open asks_close
rests = refl

pub starts_again : round room_both shut ≡ some (begun, opening_effects)
unfolding round start no_alarms initial derive average to_int half_ℤ ◌+ℤ◌ ◌-ℤ◌ update_alarms
    update_air_q update_range update_temp update_humid update_vol advance transition_0 transitions_1
    transitions_2 transitions_3 transitions_4 transitions humidity_tests temperature_tests
    air_quality_tests all_tests commands asks_open asks_close state_rows
starts_again = refl

pub starts_later : round room shut ≡ some (begun, opening_effects)
unfolding round start no_alarms initial derive average to_int half_ℤ ◌+ℤ◌ ◌-ℤ◌ update_alarms
    update_air_q update_range update_temp update_humid update_vol advance transition_0 transitions_1
    transitions_2 transitions_3 transitions_4 transitions humidity_tests temperature_tests
    air_quality_tests all_tests commands asks_open asks_close state_rows
starts_later = refl

begun-Reached : Reached begun
begun-Reached = after room opening_effects first begins

done-Reached : Reached done
done-Reached = after room_open (resting_effects room_open) begun-Reached opens

room_shut-IsShut : IsShut room_shut all
room_shut-IsShut = record {
  manual = refl;
  no_open = refl;
  close = refl;
  closed = refl;
  priority = refl;
}

start-not_opening : (q : Priority) → start.flags ≢ encode (at q opening)
unfolding start initial
start-not_opening humidity e = ground arith
start-not_opening temperature e = ground arith
start-not_opening air_quality e = ground arith
start-not_opening all e = ground arith

Reached-Inv_example : Inv done
Reached-Inv_example = Reached-Inv done-Reached

round_refines_example :
    (ph : Phase) × (start.flags ≡ encode ph)
    × (begun.flags ≡ encode (next room raised ph))
    × (opening_effects
        ≡ map writes (state_rows room raised)
          ++ (sent (request (next room raised ph)) ++ sleeps 5 ∷ []))
round_refines_example = round_refines room start begun opening_effects first begins

rests_opened_example : (all ≡ all) × (room_open.auto_mode ≡ false) × (room_open.man_close ≡ false)
rests_opened_example =
    rests_opened room_open begun done (resting_effects room_open) all begun-Reached opens refl

opens_for_a_reason_example :
    (room.win_open ≡ false)
    × (((room.auto_mode ≡ false) × (room.man_open ≡ true))
        ⊎ ((room.auto_mode ≡ true) × (asked all raised ≡ true) × (raised.vol_alarm ≡ false)))
opens_for_a_reason_example =
    opens_for_a_reason room start begun opening_effects all first begins (start-not_opening all)
      refl

keeps_opening_example :
    (begun.flags ≡ begun.flags) × (asks_open begun.flags ≡ true) × (asks_close begun.flags ≡ false)
keeps_opening_example =
    keeps_opening room begun begun opening_effects all begun-Reached goes_on refl refl

settles_example : shut.flags ≡ encode (at all waiting)
settles_example =
    settles room_shut room_shut start shut shut (resting_effects room_shut)
      (resting_effects room_shut) all first shuts rests room_shut-IsShut room_shut-IsShut
      start-not_opening
