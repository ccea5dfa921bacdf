-- ===== src/Controller/Alarms/Bounds.antt =====
-- Overflow and range of the values that a round computes from its readings.
use smart_window.Common.{◌≡◌, some, arith}
use smart_window.Common.Int.{
  ℤ, pos, negsuc, ◌+ℤ◌, ◌-ℤ◌, ◌≤ℤ◌, half_ℤ, half-double, to_int, to_int-cases, to_int_fits,
}
use smart_window.Controller.Readings.{Readings}
use smart_window.Controller.Alarms.{Derived, average, derive}

-- A reading or a limit within a thousand million of zero.
abbrev pub IsModerate : ℤ → Type 0
IsModerate z = (negsuc 999999999 ≤ℤ z) × (z ≤ℤ pos 1000000000)

pub record AreModerate (r : Readings) : Type 0 where
  pub humid_min : IsModerate r.humid_min
  pub humid_max : IsModerate r.humid_max
  pub temp_min : IsModerate r.temp_min
  pub temp_max : IsModerate r.temp_max
  pub air_q_in : IsModerate r.air_q_in
  pub air_q_max : IsModerate r.air_q_max
  pub vol_max : IsModerate r.vol_max

to_int_double : (a : ℤ) → IsModerate a → to_int (a +ℤ a) ≡ some (a +ℤ a)
unfolding ◌+ℤ◌
to_int_double a m = to_int_fits (a +ℤ a) (ground arith) (ground arith)

to_int_less_two : (a : ℤ) → IsModerate a → to_int (a -ℤ pos 2) ≡ some (a -ℤ pos 2)
unfolding ◌-ℤ◌
to_int_less_two a m = to_int_fits (a -ℤ pos 2) (ground arith) (ground arith)

-- With moderate limits in order the middle is computed without overflow and lies between them.
pub average_total :
    (max min : ℤ)
    → min ≤ℤ max
    → IsModerate min
    → IsModerate max
    → (m : ℤ) × (average max min ≡ some m) × (min ≤ℤ m) × (m ≤ℤ max)
unfolding average half_ℤ ◌-ℤ◌ ◌+ℤ◌
average_total max min h lo hi =
    (half_ℤ (max -ℤ min) +ℤ min, ground arith, ground arith, ground arith)

-- What every successful computation gives: the mean of the inner reading with itself is that
-- reading, each reset limit lies two below its maximum, and the two middles are those of their
-- limits.
pub derive_exact :
    (r : Readings) (d : Derived)
    → derive r ≡ some d
    → (d.air_q_mean ≡ r.air_q_in)
      × (d.air_q_reset ≡ r.air_q_max -ℤ pos 2)
      × (d.vol_reset ≡ r.vol_max -ℤ pos 2)
      × (average r.humid_max r.humid_min ≡ some d.humid_average)
      × (average r.temp_max r.temp_min ≡ some d.temp_average)
unfolding derive
derive_exact r d h = ground (
  arith,
  half-double r.air_q_in,
  to_int-cases (r.air_q_in +ℤ r.air_q_in),
  to_int-cases (r.air_q_max -ℤ pos 2),
  to_int-cases (r.vol_max -ℤ pos 2),
)

-- Moderate readings with their limits in order are computed without overflow, and both middles lie
-- within their limits.
pub derive_total :
    (r : Readings)
    → AreModerate r
    → r.humid_min ≤ℤ r.humid_max
    → r.temp_min ≤ℤ r.temp_max
    → (d : Derived) × (derive r ≡ some d)
      × (r.humid_min ≤ℤ d.humid_average)
      × (d.humid_average ≤ℤ r.humid_max)
      × (r.temp_min ≤ℤ d.temp_average)
      × (d.temp_average ≤ℤ r.temp_max)
unfolding derive
derive_total r m hh ht =
    let (ha, he, hl, hu) = average_total r.humid_max r.humid_min hh m.humid_min m.humid_max in
    let (ta, te, tl, tu) = average_total r.temp_max r.temp_min ht m.temp_min m.temp_max in
    (
      record {
        humid_average = ha;
        temp_average = ta;
        air_q_mean = half_ℤ (r.air_q_in +ℤ r.air_q_in);
        air_q_reset = r.air_q_max -ℤ pos 2;
        vol_reset = r.vol_max -ℤ pos 2;
      },
      simp (
        he,
        te,
        to_int_double r.air_q_in m.air_q_in,
        to_int_less_two r.air_q_max m.air_q_max,
        to_int_less_two r.vol_max m.vol_max,
      ),
      hl,
      hu,
      tl,
      tu,
    )
