-- ===== src/Controller/Machine/Phase.antt =====
-- The state machine without flags: the phases that the flags stand for, and what a round does to
-- them, written as one decision for each phase.
use smart_window.Common.{
  Bool, true, false, refl, inl, inr, ◌⊎◌, ◌≡◌, sym, ap, ◌∙◌, ◌||◌, true, false, if◌then◌else◌,
  arith,
}
use smart_window.Controller.Readings.{Readings}
use smart_window.Controller.Alarms.{Alarms}
use smart_window.Controller.Machine.{
  Group, Flags, Tests, clear, humidity_tests, temperature_tests, air_quality_tests, all_tests,
}

pub data Priority : Type 0 where
  humidity temperature air_quality all : Priority

pub data Stage : Type 0 where
  waiting opening opened closing : Stage

-- `starting` is `init`, `idle` is `state0`, and `at humidity waiting` is `state11`.
pub data Phase : Type 0 where
  starting idle : Phase
  at : Priority → Stage → Phase

abbrev pub flag : Stage → Group
flag waiting = record { s1 = true; s2 = false; s3 = false; s4 = false }
flag opening = record { s1 = false; s2 = true; s3 = false; s4 = false }
flag opened = record { s1 = false; s2 = false; s3 = true; s4 = false }
flag closing = record { s1 = false; s2 = false; s3 = false; s4 = true }

abbrev none_set : Flags
none_set = record {
  init = false;
  state0 = false;
  state1 = clear;
  state2 = clear;
  state3 = clear;
  state4 = clear;
}

-- Exactly one flag is set.
abbrev pub encode : Phase → Flags
encode starting = record none_set { init = true }
encode idle = record none_set { state0 = true }
encode (at humidity st) = record none_set { state1 = flag st }
encode (at temperature st) = record none_set { state2 = flag st }
encode (at air_quality st) = record none_set { state3 = flag st }
encode (at all st) = record none_set { state4 = flag st }

unfoldable pub tests : Priority → Readings → Alarms → Tests
tests humidity = humidity_tests
tests temperature = temperature_tests
tests air_quality = air_quality_tests
tests all = all_tests

-- Where a stage ends that the window has reached: another priority starts the machine again.
abbrev pub settle : Priority → Tests → Stage → Phase
settle p t st = if t.chosen then at p st else starting

abbrev pub from_closing : Priority → Tests → Phase
from_closing p t = if t.win_open then at p closing else settle p t waiting

abbrev pub from_opened : Priority → Tests → Phase
from_opened p t = if t.closes then from_closing p t else settle p t opened

abbrev pub from_opening : Priority → Tests → Phase
from_opening p t = if t.win_open then from_opened p t else at p opening

abbrev pub from_waiting : Priority → Tests → Phase
from_waiting p t = if t.opens then from_opening p t else settle p t waiting

abbrev pub from : Stage → Priority → Tests → Phase
from waiting = from_waiting
from opening = from_opening
from opened = from_opened
from closing = from_closing

-- The machine takes up the priority that is chosen.
abbrev pub from_idle : Readings → Alarms → Phase
from_idle r a =
    if (tests humidity r a).chosen
    then from_waiting humidity (tests humidity r a)
    else if (tests temperature r a).chosen
    then from_waiting temperature (tests temperature r a)
    else if (tests air_quality r a).chosen
    then from_waiting air_quality (tests air_quality r a)
    else if (tests all r a).chosen
    then from_waiting all (tests all r a)
    else idle

-- A round.
unfoldable pub next : Readings → Alarms → Phase → Phase
next r a starting = if r.win_open then starting else from_idle r a
next r a idle = from_idle r a
next r a (at p st) = from st p (tests p r a)

-- The transitions of a priority end in one of its stages, or start the machine again.
pub from_ends {ℓ} :
    (P : Phase → Type ℓ) (p : Priority) (st : Stage) (t : Tests)
    → P starting
    → ((st' : Stage) → P (at p st'))
    → P (from st p t)
from_ends P p waiting t restart stay =
    ground (arith, stay waiting, stay opening, stay opened, stay closing)
from_ends P p opening t restart stay =
    ground (arith, stay waiting, stay opening, stay opened, stay closing)
from_ends P p opened t restart stay =
    ground (arith, stay waiting, stay opening, stay opened, stay closing)
from_ends P p closing t restart stay =
    ground (arith, stay waiting, stay opening, stay opened, stay closing)

decode_group : Priority → Group → Phase
decode_group p g =
    if g.s1
    then at p waiting
    else if g.s2
    then at p opening
    else if g.s3
    then at p opened
    else at p closing

-- The phase of the flags, read off the first one that is set.
decode : Flags → Phase
decode f =
    if f.init
    then starting
    else if f.state0
    then idle
    else if f.state1.s1 || f.state1.s2 || f.state1.s3 || f.state1.s4
    then decode_group humidity f.state1
    else if f.state2.s1 || f.state2.s2 || f.state2.s3 || f.state2.s4
    then decode_group temperature f.state2
    else if f.state3.s1 || f.state3.s2 || f.state3.s3 || f.state3.s4
    then decode_group air_quality f.state3
    else decode_group all f.state4

decode-encode : (ph : Phase) → decode (encode ph) ≡ ph
unfolding decode decode_group
decode-encode starting = refl
decode-encode idle = refl
decode-encode (at humidity waiting) = refl
decode-encode (at humidity opening) = refl
decode-encode (at humidity opened) = refl
decode-encode (at humidity closing) = refl
decode-encode (at temperature waiting) = refl
decode-encode (at temperature opening) = refl
decode-encode (at temperature opened) = refl
decode-encode (at temperature closing) = refl
decode-encode (at air_quality waiting) = refl
decode-encode (at air_quality opening) = refl
decode-encode (at air_quality opened) = refl
decode-encode (at air_quality closing) = refl
decode-encode (at all waiting) = refl
decode-encode (at all opening) = refl
decode-encode (at all opened) = refl
decode-encode (at all closing) = refl

-- Different phases have different flags.
pub encode-injective : {ph ph' : Phase} → encode ph ≡ encode ph' → ph ≡ ph'
encode-injective {ph} {ph'} e = sym (decode-encode ph) ∙ ap decode e ∙ decode-encode ph'

-- A fact of both branches.
pub pick {ℓ} : (P : Phase → Type ℓ) (b : Bool) (x y : Phase) → P x → P y → P (if b then x else y)
pick P true x y hx hy = hx
pick P false x y hx hy = hy

-- A round ends where the stage that it began in leads, or where a newly chosen priority leads from
-- its first stage, or outside the priorities.
pub next_ends {ℓ} :
    (P : Phase → Type ℓ) (r : Readings) (a : Alarms) (ph : Phase)
    → P starting
    → P idle
    → ((p : Priority) (st : Stage) → (ph ≡ at p st) ⊎ (st ≡ waiting) → P (from st p (tests p r a)))
    → P (next r a ph)
unfolding next
next_ends P r a ph hs hi h = go ph (λ p st e. h p st (inl e))
  where
    chosen : (p : Priority) → P (from_waiting p (tests p r a))
    chosen p = h p waiting (inr refl)

    fresh : P (from_idle r a)
    fresh = pick P (tests humidity r a).chosen _ _ (chosen humidity) (
        pick P (tests temperature r a).chosen _ _ (chosen temperature) (
          pick P (tests air_quality r a).chosen _ _ (chosen air_quality)
            (pick P (tests all r a).chosen _ _ (chosen all) hi)))

    go :
        (ph' : Phase)
        → ((p : Priority) (st : Stage) → ph' ≡ at p st → P (from st p (tests p r a)))
        → P (next r a ph')
    go starting k = pick P r.win_open _ _ hs fresh
    go idle k = fresh
    go (at p st) k = k p st refl
