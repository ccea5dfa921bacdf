-- ===== src/Controller/Alarms/Defects.antt =====
-- The air quality alarm: the test that should reset it undoes the one that raises it.
use smart_window.Common.{Bool-cases, false, inl, inr, ◌≡◌, ◌↔◌, Bool, true, some, arith}
use smart_window.Common.Int.{pos, ◌+ℤ◌, ◌-ℤ◌, ◌<ℤ◌}
use smart_window.Controller.Readings.{Readings}
use smart_window.Controller.Alarms.{Derived, derive, update_air_q}
use smart_window.Controller.Alarms.Bounds.{derive_exact}

-- After a round the alarm is on exactly if it was on before and the inner reading lies more than two
-- below the limit: bad air never raises it, and it is kept on by good air alone.
pub update_air_q_iff :
    (r : Readings) (d : Derived) (alarm : Bool)
    → derive r ≡ some d
    → (update_air_q r d alarm ≡ true) ↔ ((alarm ≡ true) × (r.air_q_in +ℤ pos 2 <ℤ r.air_q_max))
unfolding update_air_q ◌+ℤ◌ ◌-ℤ◌
update_air_q_iff r d alarm h = let e = derive_exact r d h in (λ u. ground arith, λ c. ground arith)

-- So an alarm that is off stays off.
pub update_air_q_off :
    (r : Readings) (d : Derived) (alarm : Bool)
    → derive r ≡ some d
    → alarm ≡ false
    → update_air_q r d alarm ≡ false
update_air_q_off r d alarm h off = elim (Bool-cases (update_air_q r d alarm)) [
  | inl on ↦ let kept = (update_air_q_iff r d alarm h).0 on in cc (kept.0)
  | inr e ↦ e
]
