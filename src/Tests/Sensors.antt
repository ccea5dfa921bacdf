-- ===== src/Tests/Sensors.antt =====
-- Initialising the sensors of a node (microController/phytec/main.c, lines 440 to 523).
use smart_window.Common.{ℕ, suc, ◌≡◌, refl, false, some, [], ◌∷◌, ltb, if◌then◌else◌}
use smart_window.Common.Int.{pos, negsuc}
use smart_window.Common.Outcome.{pure}
use smart_window.Network.{Radio}
use smart_window.Node.Link.{inside}
use smart_window.Node.Sensors.{Drivers, init_all, init_adcs, init_servo}

-- Two converters work, and no other. The world counts the calls.
abbrev drivers : Drivers ℕ
drivers = record {
  adc_init = λ i n. some (if ltb i 2 then pos 0 else negsuc 0, suc n);
  adc_sample = λ i n. some (pos 512, suc n);
  mpl3115a2_init = λ n. some (pos 0, suc n);
  mpl3115a2_set_active = λ n. some (pos 0, suc n);
  mpl3115a2_read_temp = λ n. some (some (pos 225), suc n);
  mpl3115a2_read_pressure = λ n. some (some 101325, suc n);
  hdc1000_init = λ n. some (pos 0, suc n);
  hdc1000_startmeasure = λ n. some (pos 0, suc n);
  hdc1000_read = λ n. some (some (1, 2), suc n);
  hdc1000_convert = λ t h. (pos t, pos h);
  hdc1000_conversion_time = 26000;
  servo_init = λ n. some (pos 0, suc n);
  xtimer_usleep = λ t n. some (tt, n);
}

abbrev radio : Radio ℕ
radio = record { gnrc_netif_get = pure (6 ∷ []); gnrc_netapi_set = λ i o v n. some (pos 0, suc n) }

-- The third converter stops the initialisation.
init_stops : init_all drivers inside 5 radio 0 ≡ some (false, 3)
unfolding init_all init_adcs init_servo
init_stops = refl
