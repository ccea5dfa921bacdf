-- ===== src/Controller/Machine/Refinement.antt =====
-- The flags implement the phases.
use smart_window.Common.{◌≡◌, refl, Bool, true, false, if◌then◌else◌, arith, ap, ◌∙◌}
use smart_window.Controller.Readings.{Readings}
use smart_window.Controller.Alarms.{Alarms}
use smart_window.Controller.Machine.{Flags, Tests, transition_0, advance}
use smart_window.Controller.Machine.Phase.{
  humidity, temperature, air_quality, all, Stage, waiting, Phase, starting, idle, at, encode, tests,
  from, from_idle, from_ends, next,
}
use smart_window.Controller.Machine.Stages.{apply, pass, apply-encode}

advance-apply :
    (r : Readings) (a : Alarms) (f : Flags)
    → advance r a f
      ≡ apply all (tests all r a) (
          apply air_quality (tests air_quality r a) (
            apply temperature
              (tests temperature r a)
              (apply humidity (tests humidity r a) (transition_0 r f))))
unfolding advance apply tests
advance-apply r a f = refl

-- The transition out of `init`.
begin : Readings → Phase → Phase
begin r starting = if r.win_open then starting else idle
begin r ph = ph

transition_0-encode : (r : Readings) (ph : Phase) → transition_0 r (encode ph) ≡ encode (begin r ph)
unfolding transition_0 begin
transition_0-encode r starting = ground arith
transition_0-encode r idle = refl
transition_0-encode r (at humidity st) = refl
transition_0-encode r (at temperature st) = refl
transition_0-encode r (at air_quality st) = refl
transition_0-encode r (at all st) = refl

passes : Readings → Alarms → Phase → Phase
unfolding pass
passes r a ph = pass all (tests all r a) (
    pass air_quality (tests air_quality r a)
      (pass temperature (tests temperature r a) (pass humidity (tests humidity r a) ph)))

advance-passes :
    (r : Readings) (a : Alarms) (ph : Phase)
    → advance r a (encode ph) ≡ encode (passes r a (begin r ph))
unfolding passes
advance-passes r a ph = rw (
  advance-apply,
  transition_0-encode,
  apply-encode humidity,
  apply-encode temperature,
  apply-encode air_quality,
  apply-encode all,
)

-- The later priorities leave the end of an earlier one alone.
after_humidity :
    (r : Readings) (a : Alarms) (st : Stage) (t : Tests)
    → pass all (tests all r a) (
        pass air_quality
          (tests air_quality r a)
          (pass temperature (tests temperature r a) (from st humidity t)))
      ≡ from st humidity t
unfolding pass
after_humidity r a st t =
    from_ends
      (λ ph.
        pass all (tests all r a)
          (pass air_quality (tests air_quality r a) (pass temperature (tests temperature r a) ph))
        ≡ ph)
      humidity st t refl (λ st'. refl)

after_temperature :
    (r : Readings) (a : Alarms) (st : Stage) (t : Tests)
    → pass all (tests all r a) (pass air_quality (tests air_quality r a) (from st temperature t))
      ≡ from st temperature t
unfolding pass
after_temperature r a st t =
    from_ends (λ ph. pass all (tests all r a) (pass air_quality (tests air_quality r a) ph) ≡ ph)
      temperature st t refl (λ st'. refl)

after_air_quality :
    (r : Readings) (a : Alarms) (st : Stage) (t : Tests)
    → pass all (tests all r a) (from st air_quality t) ≡ from st air_quality t
unfolding pass
after_air_quality r a st t =
    from_ends (λ ph. pass all (tests all r a) ph ≡ ph) air_quality st t refl (λ st'. refl)

-- A function that keeps one branch and takes the other to `z`.
through :
    (f : Phase → Phase) (b : Bool) (x y z : Phase)
    → f x ≡ x
    → f y ≡ z
    → f (if b then x else y) ≡ (if b then x else z)
through f true x y z hx hy = hx
through f false x y z hx hy = hy

passes-idle : (r : Readings) (a : Alarms) → passes r a idle ≡ from_idle r a
unfolding passes pass
passes-idle r a =
    let t₁ = tests humidity r a in
    let t₂ = tests temperature r a in
    let t₃ = tests air_quality r a in
    let t₄ = tests all r a in
    through (λ ph. pass all t₄ (pass air_quality t₃ (pass temperature t₂ ph))) t₁.chosen _ idle _
      (after_humidity r a waiting t₁)
      (through (λ ph. pass all t₄ (pass air_quality t₃ ph)) t₂.chosen _ idle _
        (after_temperature r a waiting t₂)
        (through (pass all t₄) t₃.chosen _ idle _ (after_air_quality r a waiting t₃) refl))

passes-next : (r : Readings) (a : Alarms) (ph : Phase) → passes r a (begin r ph) ≡ next r a ph
unfolding passes begin next pass
passes-next r a idle = passes-idle r a
passes-next r a starting = through (passes r a) r.win_open starting idle _ refl (passes-idle r a)
passes-next r a (at humidity st) = after_humidity r a st (tests humidity r a)
passes-next r a (at temperature st) = after_temperature r a st (tests temperature r a)
passes-next r a (at air_quality st) = after_air_quality r a st (tests air_quality r a)
passes-next r a (at all st) = refl

-- A round of the flags is a round of the phases.
pub advance-encode :
    (r : Readings) (a : Alarms) (ph : Phase) → advance r a (encode ph) ≡ encode (next r a ph)
advance-encode r a ph = advance-passes r a ph ∙ ap encode (passes-next r a ph)
