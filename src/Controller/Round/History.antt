-- ===== src/Controller/Round/History.antt =====
-- The alarms as a function of what was read (RaspberryPi/Window_Controller/main_controller.cpp, lines 423 to
-- 478).
use mathlib.Core.Path.{subst}
use smart_window.Common.{◌≡◌, ◌⊎◌, ◌↔◌, inl, inr, sym, Bool, true, some, List, [], ◌∷◌, All, arith}
use smart_window.Common.Int.{ℤ, pos, ◌+ℤ◌, ◌-ℤ◌, ◌≤ℤ◌, ◌<ℤ◌, half_ℤ, to_int}
use smart_window.Controller.Readings.{Readings}
use smart_window.Controller.Alarms.{
  Derived, average, derive, no_alarms, update_alarms, update_range, update_temp, update_humid,
  update_vol,
}
use smart_window.Controller.Alarms.Bounds.{derive_exact}
use smart_window.Controller.Round.{Controller, Effect, start, round}
use smart_window.Controller.Round.Reached.{round-Parts}

-- The inner value is out of range, and the outer one lies on the side that would help.
abbrev pub CanImprove : ℤ → ℤ → ℤ → ℤ → Type 0
CanImprove inside outside min max =
    ((inside <ℤ min) × (inside <ℤ outside)) ⊎ ((max <ℤ inside) × (outside <ℤ inside))

-- Below the middle of the limits, which is rounded down, and above it.
abbrev pub IsLow : ℤ → ℤ → ℤ → Type 0
IsLow x min max = x +ℤ x +ℤ pos 2 ≤ℤ min +ℤ max

abbrev pub IsHigh : ℤ → ℤ → ℤ → Type 0
IsHigh x min max = min +ℤ max <ℤ x +ℤ x

-- The inner value is in range, and both lie on one side of the middle, so that airing no longer moves the
-- inner one to it.
abbrev pub IsSpent : ℤ → ℤ → ℤ → ℤ → Type 0
IsSpent inside outside min max =
    ((min ≤ℤ inside) × (inside ≤ℤ max))
    × ((IsLow inside min max × IsLow outside min max)
        ⊎ (IsHigh inside min max × IsHigh outside min max))

-- Some reading raised the alarm, and none after it let it fall. The last reading comes first.
abbrev pub Since : (Readings → Type 0) → (Readings → Type 0) → List Readings → Type 0
Since rises falls [] = ⊥
Since rises falls (r ∷ rs) = rises r ⊎ (¬ (falls r) × Since rises falls rs)

abbrev pub TempRises : Readings → Type 0
TempRises r = CanImprove r.temp_in r.temp_out r.temp_min r.temp_max

abbrev pub TempFalls : Readings → Type 0
TempFalls r = IsSpent r.temp_in r.temp_out r.temp_min r.temp_max

abbrev pub HumidRises : Readings → Type 0
HumidRises r = CanImprove r.humid_in r.humid_out r.humid_min r.humid_max

abbrev pub HumidFalls : Readings → Type 0
HumidFalls r = IsSpent r.humid_in r.humid_out r.humid_min r.humid_max

-- Above the limit, and two below it or less.
abbrev pub NoiseRises : Readings → Type 0
NoiseRises r = r.vol_max <ℤ r.vol_out

abbrev pub NoiseFalls : Readings → Type 0
NoiseFalls r = r.vol_out +ℤ pos 2 ≤ℤ r.vol_max

-- The limits of temperature and humidity are in order.
pub record AreOrdered (r : Readings) : Type 0 where
  pub humid : r.humid_min ≤ℤ r.humid_max
  pub temp : r.temp_min ≤ℤ r.temp_max

-- The rounds since the start: what each read, the last first, and the variables after them.
pub data Recorded : List Readings → Controller → Type 0 where
  at_start : Recorded [] start
  then_round :
      {rs : List Readings} {c c' : Controller} (r : Readings) (es : List Effect)
      → Recorded rs c
      → round r c ≡ some (c', es)
      → Recorded (r ∷ rs) c'

middle-IsLow :
    (max min m x : ℤ) → min ≤ℤ max → average max min ≡ some m → (x <ℤ m) ↔ IsLow x min max
unfolding average half_ℤ ◌-ℤ◌ ◌+ℤ◌ to_int
middle-IsLow max min m x h e = (λ u. ground arith, λ c. ground arith)

middle-IsHigh :
    (max min m x : ℤ) → min ≤ℤ max → average max min ≡ some m → (m <ℤ x) ↔ IsHigh x min max
unfolding average half_ℤ ◌-ℤ◌ ◌+ℤ◌ to_int
middle-IsHigh max min m x h e = (λ u. ground arith, λ c. ground arith)

-- What a round does to an alarm that a reading raises or lets fall.
abbrev Follows : Type 0 → Type 0 → Bool → Bool → Type 0
Follows Rises Falls before after = (after ≡ true) ↔ (Rises ⊎ ((before ≡ true) × ¬ Falls))

-- The tests of the code, on the middle that it computes.
range-Follows :
    (inside outside min max m : ℤ) (alarm : Bool)
    → Follows
        (CanImprove inside outside min max)
        (((min ≤ℤ inside) × (inside ≤ℤ max))
          × (((inside <ℤ m) × (outside <ℤ m)) ⊎ ((m <ℤ inside) × (m <ℤ outside))))
        alarm
        (update_range inside outside min max m alarm)
unfolding update_range
range-Follows inside outside min max m alarm = (λ u. ground arith, λ c. ground arith)

Follows-map :
    {R F G : Type 0} {b b' : Bool} → Follows R F b b' → (F → G) → (G → F) → Follows R G b b'
Follows-map h to from = (
  λ u. elim (h.0 u) [ inl r ↦ inl r | inr (on, kept) ↦ inr (on, λ g. kept (from g)) ],
  λ c. h.1 (elim c [ inl r ↦ inl r | inr (on, kept) ↦ inr (on, λ f. kept (to f)) ]),
)

range-IsSpent :
    (inside outside min max m : ℤ) (alarm : Bool)
    → min ≤ℤ max
    → average max min ≡ some m
    → Follows
        (CanImprove inside outside min max)
        (IsSpent inside outside min max)
        alarm
        (update_range inside outside min max m alarm)
range-IsSpent inside outside min max m alarm h e =
    let (low, low') = middle-IsLow max min m inside h e in
    let (low_out, low_out') = middle-IsLow max min m outside h e in
    let (high, high') = middle-IsHigh max min m inside h e in
    let (high_out, high_out') = middle-IsHigh max min m outside h e in
    Follows-map (range-Follows inside outside min max m alarm)
      (λ f. (
        f.0,
        elim (f.1) [
          | inl x ↦ inl (low (x.0), low_out (x.1))
          | inr x ↦ inr (high (x.0), high_out (x.1))
        ],
      ))
      (λ f. (
        f.0,
        elim (f.1) [
          | inl x ↦ inl (low' (x.0), low_out' (x.1))
          | inr x ↦ inr (high' (x.0), high_out' (x.1))
        ],
      ))

vol-Follows :
    (r : Readings) (d : Derived) (alarm : Bool)
    → derive r ≡ some d
    → Follows (NoiseRises r) (NoiseFalls r) alarm (update_vol r d alarm)
unfolding update_vol ◌+ℤ◌ ◌-ℤ◌
vol-Follows r d alarm h = let e = (derive_exact r d h).2 in (λ u. ground arith, λ c. ground arith)

Since-Follows :
    (rises falls : Readings → Type 0) (r : Readings) (rs : List Readings) (b b' : Bool)
    → Follows (rises r) (falls r) b b'
    → (b ≡ true) ↔ Since rises falls rs
    → (b' ≡ true) ↔ Since rises falls (r ∷ rs)
Since-Follows rises falls r rs b b' step so_far = (
  λ u. elim (step.0 u) [ inl x ↦ inl x | inr (on, kept) ↦ inr (kept, so_far.0 on) ],
  λ s. step.1 (elim s [ inl x ↦ inl x | inr (kept, s') ↦ inr (so_far.1 s', kept) ]),
)

-- The three alarms tell what was read.
abbrev pub AreJustified : List Readings → Controller → Type 0
AreJustified rs c =
    ((c.alarms.temp_alarm ≡ true) ↔ Since TempRises TempFalls rs)
    × ((c.alarms.humid_alarm ≡ true) ↔ Since HumidRises HumidFalls rs)
    × ((c.alarms.vol_alarm ≡ true) ↔ Since NoiseRises NoiseFalls rs)

start-AreJustified : AreJustified [] start
unfolding start no_alarms
start-AreJustified = (
  (λ u. ground arith, λ s. absurd s),
  (λ u. ground arith, λ s. absurd s),
  (λ u. ground arith, λ s. absurd s),
)

-- With the alarms that `update_alarms` gives.
round-AreJustified :
    (rs : List Readings) (c c' : Controller) (r : Readings) (d : Derived)
    → AreOrdered r
    → derive r ≡ some d
    → c'.alarms ≡ update_alarms r d c.alarms
    → AreJustified rs c
    → AreJustified (r ∷ rs) c'
unfolding update_alarms update_temp update_humid
round-AreJustified rs c c' r d ordered h same (temp, humid, noise) =
    let e = derive_exact r d h in
    let temp' =
      Since-Follows TempRises TempFalls r rs c.alarms.temp_alarm
        (update_temp r d c.alarms.temp_alarm)
        (range-IsSpent r.temp_in r.temp_out r.temp_min r.temp_max d.temp_average c.alarms.temp_alarm
          ordered.temp e.4)
        temp in
    let humid' =
      Since-Follows HumidRises HumidFalls r rs c.alarms.humid_alarm
        (update_humid r d c.alarms.humid_alarm)
        (range-IsSpent r.humid_in r.humid_out r.humid_min r.humid_max d.humid_average
          c.alarms.humid_alarm ordered.humid e.3)
        humid in
    let noise' =
      Since-Follows NoiseRises NoiseFalls r rs c.alarms.vol_alarm
        (update_vol r d c.alarms.vol_alarm) (vol-Follows r d c.alarms.vol_alarm h) noise in
    subst
      (λ a.
        ((a.temp_alarm ≡ true) ↔ Since TempRises TempFalls (r ∷ rs))
        × ((a.humid_alarm ≡ true) ↔ Since HumidRises HumidFalls (r ∷ rs))
        × ((a.vol_alarm ≡ true) ↔ Since NoiseRises NoiseFalls (r ∷ rs)))
      (sym same) (temp', humid', noise')

-- After any rounds since the start whose readings have the limits of temperature and humidity in order,
-- the temperature alarm is on exactly when in one of the rounds the inner temperature was out of range
-- with the outer one on the side that helps, and in none after it the inner temperature was in range with
-- both on the same side of the middle of the limits, rounded down. The humidity alarm is on exactly when the same holds
-- of the humidity, and the noise alarm exactly when in one of the rounds the noise outside was above the
-- limit and in none after it two below the limit or less.
pub Recorded-AreJustified :
    (rs : List Readings) (c : Controller)
    → Recorded rs c
    → All AreOrdered rs
    → ((c.alarms.temp_alarm ≡ true) ↔ Since TempRises TempFalls rs)
      × ((c.alarms.humid_alarm ≡ true) ↔ Since HumidRises HumidFalls rs)
      × ((c.alarms.vol_alarm ≡ true) ↔ Since NoiseRises NoiseFalls rs)
Recorded-AreJustified _ _ at_start _ = start-AreJustified
Recorded-AreJustified _ c' (then_round {rs} {c} r es before h) (ordered, all) =
    let p = round-Parts r c c' es h in
    round-AreJustified rs c c' r p.derived ordered p.derives p.alarms
      (Recorded-AreJustified rs c before all)
