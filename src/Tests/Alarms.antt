-- ===== src/Tests/Alarms.antt =====
-- Readings of one room (RaspberryPi/Window_Controller/main_controller.cpp, lines 371 to 530).
use smart_window.Common.{◌≡◌, ◌↔◌, refl, true, false, some, arith}
use smart_window.Common.Int.{pos, negsuc, ◌+ℤ◌, ◌-ℤ◌, ◌<ℤ◌, half_ℤ, to_int}
use smart_window.Controller.Readings.{Readings}
use smart_window.Controller.Alarms.{Derived, Alarms, average, derive, update_air_q}
use smart_window.Controller.Alarms.Bounds.{AreModerate}
use smart_window.Controller.Alarms.Defects.{update_air_q_iff}

-- A warm room in manual mode, with a request to open and the priority of all three.
abbrev pub room : Readings
room = record {
  auto_mode = false;
  man_close = false;
  man_open = true;
  win_open = false;
  air_p_in = pos 1013;
  air_p_out = pos 1013;
  air_p_max = pos 1100;
  air_q_in = pos 40;
  air_q_out = pos 10;
  air_q_max = pos 30;
  humid_in = pos 70;
  humid_out = pos 50;
  humid_min = pos 30;
  humid_max = pos 65;
  temp_in = pos 28;
  temp_out = negsuc 4;
  temp_min = pos 20;
  temp_max = pos 26;
  vol_in = pos 30;
  vol_out = pos 40;
  vol_max = pos 60;
  priority = pos 3;
}

abbrev pub derived : Derived
derived = record {
  humid_average = pos 47;
  temp_average = pos 23;
  air_q_mean = pos 40;
  air_q_reset = pos 28;
  vol_reset = pos 58;
}

derived_room : derive room ≡ some derived
unfolding derive average to_int half_ℤ ◌+ℤ◌ ◌-ℤ◌
derived_room = refl

-- Half of a negative width is rounded towards zero.
average_below : average (negsuc 2) (pos 2) ≡ some (pos 0)
unfolding average to_int half_ℤ ◌+ℤ◌ ◌-ℤ◌
average_below = refl

abbrev pub raised : Alarms
raised = record {
  air_q_alarm = false;
  temp_alarm = true;
  humid_alarm = true;
  vol_alarm = false;
  wind_alarm = false;
}

pub room-AreModerate : AreModerate room
room-AreModerate = omega arith

update_air_q_iff_example :
    (update_air_q room derived true ≡ true)
    ↔ ((true ≡ true) × (room.air_q_in +ℤ pos 2 <ℤ room.air_q_max))
update_air_q_iff_example = update_air_q_iff room derived true derived_room
