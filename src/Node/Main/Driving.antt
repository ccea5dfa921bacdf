-- ===== src/Node/Main/Driving.antt =====
-- How a request to move the window ends.
use smart_window.Common.{
  ℕ, zero, suc, ◌+◌, ◌-◌, ◌*◌, ◌≤◌, ◌<◌, ◌≡◌, refl, ap, Bool, true, false, Option, none, some, List,
  [], ◌∷◌, All, arith, length,
}
use smart_window.Node.Main.{
  Command, start_open_window, start_close_window, finish_open_window, finish_close_window, Main,
  replied, round, run, one_set,
}

-- What the servo accepts without clamping: between its minimum and its maximum.
abbrev pub InRange : ℕ → Type 0
InRange v = (1800 ≤ v) × (v ≤ 2500)

abbrev pub at_open : ℕ → Bool → Main
at_open p d = record { pos = p; open_next = true; driving = d; command = start_open_window }

abbrev pub opened : Main
opened = record { pos = 1800; open_next = false; driving = false; command = finish_open_window }

abbrev pub at_close : ℕ → Bool → Main
at_close p d = record { pos = p; open_next = false; driving = d; command = start_close_window }

abbrev pub closed : Main
closed = record { pos = 2500; open_next = true; driving = false; command = finish_close_window }

round_last_open :
    (p : ℕ) (d : Bool)
    → p ≡ 1810
    → round (at_open p d)
      ≡ (opened, record { reply = some finish_open_window; set = some p; measures = false })
unfolding round
round_last_open p d h = ground arith

round_open :
    (p : ℕ) (d : Bool)
    → 1810 < p
    → p ≤ 2500
    → round (at_open p d)
      ≡ (at_open (p - 10) true, record { reply = none; set = some p; measures = false })
unfolding round
round_open p d h h' = ground arith

round_last_close :
    (p : ℕ) (d : Bool)
    → p ≡ 2480
    → round (at_close p d)
      ≡ (closed, record { reply = some finish_close_window; set = some p; measures = false })
unfolding round
round_last_close p d h = ground arith

round_close :
    (p : ℕ) (d : Bool)
    → p < 2480
    → round (at_close p d)
      ≡ (at_close (p + 20) true, record { reply = none; set = some p; measures = false })
unfolding round
round_close p d h = ground arith

-- A window that is already where it should be is not moved.
pub round_already_open :
    (p : ℕ) (d : Bool)
    → round (record { pos = p; open_next = false; driving = d; command = start_open_window }) ≡ (
      record { pos = p; open_next = false; driving = false; command = finish_open_window },
      record { reply = some finish_open_window; set = none; measures = false },
    )
unfolding round
round_already_open p d = refl

pub round_already_closed :
    (p : ℕ) (d : Bool)
    → round (record { pos = p; open_next = true; driving = d; command = start_close_window }) ≡ (
      record { pos = p; open_next = true; driving = false; command = finish_close_window },
      record { reply = some finish_close_window; set = none; measures = false },
    )
unfolding round
round_already_closed p d = refl

-- A round that answers ends the run, and a round that drives on leaves it to the rest.
pub run-answer :
    (fuel : ℕ) (m m' : Main) (c : Command) (v : Option ℕ) (b : Bool)
    → round m ≡ (m', record { reply = some c; set = v; measures = b })
    → run (suc fuel) m ≡ replied m' c (one_set v)
unfolding run
run-answer fuel m m' c v b e = rw e

run-drive :
    (fuel : ℕ) (m m' end : Main) (c : Command) (v : ℕ) (sets : List ℕ)
    → round m ≡ (m', record { reply = none; set = some v; measures = false })
    → m'.driving ≡ true
    → run fuel m' ≡ replied end c sets
    → run (suc fuel) m ≡ replied end c (v ∷ sets)
unfolding run
run-drive fuel m m' end c v sets e d ran = rw (e, ran, d)

-- The positions of a window that is moved in steps of ten and of twenty.
pub steps_down : ℕ → ℕ → List ℕ
steps_down p zero = []
steps_down p (suc n) = p ∷ steps_down (p - 10) n

pub steps_up : ℕ → ℕ → List ℕ
steps_up p zero = []
steps_up p (suc n) = p ∷ steps_up (p + 20) n

pub steps_down-InRange : (n p : ℕ) → 1800 + 10 * n ≤ p → p ≤ 2500 → All InRange (steps_down p n)
unfolding steps_down
steps_down-InRange zero p h h' = tt
steps_down-InRange (suc n) p h h' =
    ((omega arith), steps_down-InRange n (p - 10) (omega arith) (omega arith))

pub steps_up-InRange : (n p : ℕ) → 1800 ≤ p → p + 20 * n ≤ 2500 → All InRange (steps_up p n)
unfolding steps_up
steps_up-InRange zero p h h' = tt
steps_up-InRange (suc n) p h h' =
    ((omega arith), steps_up-InRange n (p + 20) (omega arith) (omega arith))

pub length-steps_down : (n p : ℕ) → length (steps_down p n) ≡ n
unfolding steps_down
length-steps_down zero p = refl
length-steps_down (suc n) p = ap suc (length-steps_down n (p - 10))

pub length-steps_up : (n p : ℕ) → length (steps_up p n) ≡ n
unfolding steps_up
length-steps_up zero p = refl
length-steps_up (suc n) p = ap suc (length-steps_up n (p + 20))

pub opens :
    (k fuel p : ℕ) (d : Bool)
    → k < fuel
    → p ≡ 1800 + 10 * suc k
    → p ≤ 2500
    → run fuel (at_open p d) ≡ replied opened finish_open_window (steps_down p (suc k))
unfolding one_set steps_down
opens k zero p d f e h = elim f [ ]
opens zero (suc fuel) p d f e h = run-answer fuel _ _ _ _ _ (round_last_open p d e)
opens (suc k) (suc fuel) p d f e h =
    run-drive fuel _ _ _ _ p _ (round_open p d (omega arith) h) refl
      (opens k fuel (p - 10) true (omega arith) (omega arith) (omega arith))

pub closes :
    (k fuel p : ℕ) (d : Bool)
    → k < fuel
    → p + 20 * suc k ≡ 2500
    → 1800 ≤ p
    → run fuel (at_close p d) ≡ replied closed finish_close_window (steps_up p (suc k))
unfolding one_set steps_up
closes k zero p d f e h = elim f [ ]
closes zero (suc fuel) p d f e h = run-answer fuel _ _ _ _ _ (round_last_close p d (omega arith))
closes (suc k) (suc fuel) p d f e h =
    run-drive fuel _ _ _ _ p _ (round_close p d (omega arith)) refl
      (closes k fuel (p + 20) true (omega arith) (omega arith) (omega arith))
