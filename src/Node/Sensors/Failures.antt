-- ===== src/Node/Sensors/Failures.antt =====
-- Initialisations that fail.
use smart_window.Common.{ℕ, suc, ◌+◌, ◌≡◌, ◌≢◌, ◌∙◌, ap, false, some, arith}
use smart_window.Common.Int.{ℤ, pos, eqb_ℤ}
use smart_window.Network.{Radio}
use smart_window.Node.Link.{Build}
use smart_window.Node.Sensors.{Drivers, init_adcs, init_all}

-- The given number of converters is initialised, from number `i` on.
pub data Ready {W : Type 0} (drivers : Drivers W) : ℕ → ℕ → W → W → Type 0 where
  none_left : {i : ℕ} {w : W} → Ready drivers i 0 w w
  one_more :
      {i n : ℕ} {w w₁ w₂ : W}
      → drivers.adc_init i w ≡ some (pos 0, w₁)
      → Ready drivers (i + 1) n w₁ w₂
      → Ready drivers i (suc n) w w₂

eqb_zero : (z : ℤ) → z ≢ pos 0 → eqb_ℤ z (pos 0) ≡ false
eqb_zero z h = ground arith

module _ {W : Type 0} (drivers : Drivers W) where
  init_adcs-bad :
      (left i : ℕ) (w w' : W) (res : ℤ)
      → drivers.adc_init i w ≡ some (res, w')
      → eqb_ℤ res (pos 0) ≡ false
      → init_adcs drivers (suc left) i w ≡ some (false, w')
  unfolding init_adcs
  init_adcs-bad left i w w' res e b = ground arith

  init_adcs-good :
      (left i : ℕ) (w w' : W)
      → drivers.adc_init i w ≡ some (pos 0, w')
      → init_adcs drivers (suc left) i w ≡ init_adcs drivers left (i + 1) w'
  unfolding init_adcs
  init_adcs-good left i w w' e = ground arith

  init_adcs-Ready :
      {i n : ℕ} {w w₁ : W} (left : ℕ) (w₂ : W) (res : ℤ)
      → Ready drivers i n w w₁
      → drivers.adc_init (i + n) w₁ ≡ some (res, w₂)
      → eqb_ℤ res (pos 0) ≡ false
      → init_adcs drivers (n + suc left) i w ≡ some (false, w₂)
  init_adcs-Ready {i} {n} {w} {w₁} left w₂ res none_left e b =
      ap (λ k. init_adcs drivers k i w) (omega arith)
      ∙ init_adcs-bad left i w w₂ res (ap (λ k. drivers.adc_init k w) (omega arith) ∙ e) b
  init_adcs-Ready {i} {n} {w} left w₂ res (one_more {n = m} {w₁ = u} {w₂ = v} ok rest) e b =
      ap (λ k. init_adcs drivers k i w) (omega arith)
      ∙ init_adcs-good (m + suc left) i w u ok
      ∙ init_adcs-Ready left w₂ res rest (ap (λ k. drivers.adc_init k v) (omega arith) ∙ e) b

  init_all-stops :
      (build : Build) (numof : ℕ) (radio : Radio W) (w w' : W)
      → init_adcs drivers numof 0 w ≡ some (false, w')
      → init_all drivers build numof radio w ≡ some (false, w')
  unfolding init_all
  init_all-stops build numof radio w w' e = ground arith

  -- When a converter reports anything but zero, and those before it zero, the initialisation fails and
  -- calls no further driver.
  pub init_all-Ready :
      (build : Build) (radio : Radio W) (ready left : ℕ) (w w₁ w₂ : W) (res : ℤ)
      → Ready drivers 0 ready w w₁
      → drivers.adc_init ready w₁ ≡ some (res, w₂)
      → res ≢ pos 0
      → init_all drivers build (ready + suc left) radio w ≡ some (false, w₂)
  init_all-Ready build radio ready left w w₁ w₂ res h e bad =
      init_all-stops build (ready + suc left) radio w w₂ (
        init_adcs-Ready left w₂ res h (ap (λ k. drivers.adc_init k w₁) (omega arith) ∙ e)
          (eqb_zero res bad))
