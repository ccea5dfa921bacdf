-- ===== src/Node/Sensors.antt =====
-- The sensors of a node (microController/phytec/main.c, lines 440 to 611). Messages that are printed are
-- left out, and so is the array `values`, which is never read.
pub mod Failures
use smart_window.Common.{
  ℕ, zero, suc, ◌+◌, ◌*◌, Bool, true, false, not, if◌then◌else◌, Option, none, some,
}
use smart_window.Common.Int.{ℤ, pos, negsuc, pos_part, neg_part, ltb_ℤ, eqb_ℤ, to_int}
use smart_window.Common.Outcome.{M, pure, undefined, ◌>>=◌, ◌>>◌}
use smart_window.Network.{Radio, sw_network_init}
use smart_window.Node.Link.{Build, inside, outside, Measured}

-- The drivers. A function that writes through a pointer gives what it wrote, or nothing.
pub record Drivers (W : Type 0) : Type 0 where
  pub adc_init : ℕ → M W ℤ
  pub adc_sample : ℕ → M W ℤ
  pub mpl3115a2_init : M W ℤ
  pub mpl3115a2_set_active : M W ℤ
  pub mpl3115a2_read_temp : M W (Option ℤ)
  pub mpl3115a2_read_pressure : M W (Option ℕ)
  pub hdc1000_init : M W ℤ
  pub hdc1000_startmeasure : M W ℤ
  pub hdc1000_read : M W (Option (ℕ × ℕ))
  pub hdc1000_convert : ℕ → ℕ → ℤ × ℤ
  pub hdc1000_conversion_time : ℕ
  pub servo_init : M W ℤ
  pub xtimer_usleep : ℕ → M W (Unit {0})

-- `float` and `double` with the operations that the code uses; `decimal m e` is m / 10 ^ e, and
-- `truncated` is the conversion to `int`, with none where it is undefined.
pub record Reals : Type 1 where
  pub Float : Type 0
  pub Double : Type 0
  pub of_int : ℤ → Float
  pub widen : Float → Double
  pub narrow : Double → Float
  pub add : Float → Float → Float
  pub mul : Float → Float → Float
  pub div : Float → Float → Float
  pub truncated : Float → Option ℤ
  pub decimal : ℕ → ℕ → Double
  pub mul_double : Double → Double → Double
  pub div_double : Double → Double → Double
  pub sqrt : Double → Double
  pub log10 : Double → Double

square : ℤ → ℤ
square z = pos ((pos_part z + neg_part z) * (pos_part z + neg_part z))

need : {W A : Type 0} → Option A → M W A
need none = undefined
need (some a) = pure a

module _ {W : Type 0} (drivers : Drivers W) where
  open drivers use {
    adc_init, adc_sample, mpl3115a2_init, mpl3115a2_set_active, mpl3115a2_read_temp,
    mpl3115a2_read_pressure, hdc1000_init, hdc1000_startmeasure, hdc1000_read, hdc1000_convert,
    hdc1000_conversion_time, servo_init, xtimer_usleep,
  }

  -- The loop over the converters: `left` of them are to be initialised, from number `i` on.
  unfoldable pub init_adcs : ℕ → ℕ → M W Bool
  init_adcs zero i = pure true
  init_adcs (suc left) i = do
    res ← adc_init i
    elim (eqb_ℤ res (pos 0)) [ true ↦ init_adcs left (i + 1) | false ↦ pure false ]

  unfoldable pub init_servo : Build → M W Bool
  init_servo outside = pure true
  init_servo inside = do res ← servo_init; pure (not (ltb_ℤ res (pos 0)))

  -- `numof` is ADC_NUMOF. The result of the network is not looked at.
  unfoldable pub init_all : Build → ℕ → Radio W → M W Bool
  unfolding init_adcs init_servo
  init_all build numof radio = do
    adcs ← init_adcs numof 0
    if not adcs then pure false else (do
      mpl ← mpl3115a2_init
      if not (eqb_ℤ mpl (pos 0)) then pure false else (do
        active ← mpl3115a2_set_active
        if not (eqb_ℤ active (pos 0)) then pure false else (do
          hdc ← hdc1000_init
          if not (eqb_ℤ hdc (pos 0)) then pure false else (do
            servo ← init_servo build
            if not servo then pure false else (do configured ← sw_network_init radio; pure true)))))

  -- A temperature that is not read is zero.
  unfoldable pub get_temperature : M W ℤ
  get_temperature = do
    temp ← mpl3115a2_read_temp
    elim temp [ none ↦ pure (pos 0) | some t ↦ pure t ]

  unfoldable pub get_pressure : M W ℕ
  unfolding need
  get_pressure = do pressure ← mpl3115a2_read_pressure; need pressure

  unfoldable pub get_humidity : M W ℤ
  unfolding need
  get_humidity = do
    failed ← hdc1000_startmeasure
    if not (eqb_ℤ failed (pos 0)) then pure (negsuc 0) else (do
      xtimer_usleep hdc1000_conversion_time
      read ← hdc1000_read
      (rawtemp, rawhum) ← need read
      pure ((hdc1000_convert rawtemp rawhum).1))

  module _ (reals : Reals) where
    open reals use {
      Float, of_int, widen, narrow, add, mul, div, truncated, decimal, mul_double, div_double, sqrt,
      log10,
    }

    -- The loop over the samples.
    unfoldable pub sum_squares : ℕ → Float → M W Float
    unfolding need square
    sum_squares zero rms = pure rms
    sum_squares (suc n) rms = do
      sample ← adc_sample 3
      squared ← need (to_int (square sample))
      xtimer_usleep 125
      sum_squares n (add rms (of_int squared))

    -- The level in hundredths of a decibel.
    unfoldable pub sound_level : Float → Float
    sound_level rms =
        let volume = narrow (sqrt (widen (div rms (of_int (pos 1000))))) in
        let volts =
          narrow (div_double (mul_double (widen volume) (decimal 119976 5)) (decimal 10000 0)) in
        let ratio = mul (div volts (of_int (pos 2))) (of_int (pos 100000)) in
        mul (narrow (mul_double (decimal 20 0) (log10 (widen ratio)))) (of_int (pos 100))

    unfoldable pub get_volume : M W ℤ
    unfolding sum_squares sound_level need
    get_volume = do rms ← sum_squares 1000 (of_int (pos 0)); need (truncated (sound_level rms))

    unfoldable pub get_air_quality : M W ℤ
    unfolding need
    get_air_quality = do
      sample ← adc_sample 2
      let percent = mul (div (of_int sample) (of_int (pos 1024))) (of_int (pos 100))
      need (truncated (mul percent (of_int (pos 100))))

    unfoldable pub get_measured_data : M W Measured
    unfolding get_temperature get_pressure get_volume get_humidity get_air_quality
    get_measured_data = do
      temperature ← get_temperature
      pressure ← get_pressure
      volume ← get_volume
      humidity ← get_humidity
      air_quality ← get_air_quality
      pure (record {
        temperature = temperature;
        pressure = pressure;
        volume = volume;
        humidity = humidity;
        air_quality = air_quality;
      })
