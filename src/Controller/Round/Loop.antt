-- ===== src/Controller/Round/Loop.antt =====
-- The loop of the decision thread in a world that works.
use mathlib.Core.Path.{subst}
use smart_window.Common.{
  ℕ, zero, suc, ◌≡◌, ◌≢◌, refl, sym, ap, ◌∙◌, inl, inr, Bool, none, some, Option-cases, Bytes, List,
  [], ◌∷◌, ◌++◌, append_assoc, append-nil, arith,
}
use smart_window.Common.Int.{ℤ, ◌≤ℤ◌}
use smart_window.Common.Outcome.{M, bind-some}
use smart_window.Controller.Readings.{Readings, read_readings}
use smart_window.Controller.Alarms.{Derived, Row, derive}
use smart_window.Controller.Alarms.Bounds.{AreModerate, derive_total}
use smart_window.Controller.Round.{
  Controller, Effect, writes, sends, sleeps, round, perform, decision_round, decision_loop,
}
use smart_window.Controller.Round.Reached.{Reached}

-- Readings with which a round cannot overflow.
pub record AreSound (r : Readings) : Type 0 where
  pub moderate : AreModerate r
  pub humid : r.humid_min ≤ℤ r.humid_max
  pub temp : r.temp_min ≤ℤ r.temp_max

round-some : (r : Readings) (c : Controller) (d : Derived) → derive r ≡ some d → round r c ≢ none
unfolding round
round-some r c d e h = ground arith

pub round_total :
    (r : Readings) (c : Controller)
    → AreSound r
    → (c' : Controller) × (es : List Effect) × (round r c ≡ some (c', es))
round_total r c a =
    let (d, e, _, _, _, _) = derive_total r a.moderate a.humid a.temp in
    elim (Option-cases (round r c)) [
      | inl n ↦ absurd (round-some r c d e n)
      | inr ((c', es), h) ↦ (c', es, h)
    ]

-- A number of rounds from a state, with all their effects; `P` holds for all that is read.
pub data Run (P : Readings → Type 0) : ℕ → Controller → List Effect → Controller → Type 0 where
  finished :
      {n : ℕ} {c c' : Controller} {es : List Effect} → n ≡ 0 → c ≡ c' → es ≡ [] → Run P n c es c'
  rounds :
      {n k : ℕ} {c c₁ c' : Controller} {es es₁ es' : List Effect} (r : Readings)
      → P r
      → n ≡ suc k
      → round r c ≡ some (c₁, es₁)
      → Run P k c₁ es' c'
      → es ≡ es₁ ++ es'
      → Run P n c es c'

pub Run-Reached :
    {P : Readings → Type 0} {n : ℕ} {c c' : Controller} {es : List Effect}
    → Reached c
    → Run P n c es c'
    → Reached c'
Run-Reached w (finished _ e _) = subst Reached e w
Run-Reached w (rounds {es₁ = es₁} r _ _ h run _) = Run-Reached (Reached.after r es₁ w h) run

-- A world that works: the reads give readings with which a round cannot overflow and for which `P`
-- holds, and every call returns; `trace` tells what has been written, sent and waited for.
pub record Works {W : Type 0} (get_bool : Bytes → M W Bool) (get_int : Bytes → M W ℤ)
    (write : Row → M W (Unit {0})) (send : Bytes → M W (Unit {0})) (sleep : ℕ → M W (Unit {0}))
    (P : Readings → Type 0) (trace : W → List Effect) : Type 0 where
  pub reads :
      (w : W)
      → (r : Readings) × (w' : W) × (read_readings get_bool get_int w ≡ some (r, w'))
        × AreSound r
        × P r
        × (trace w' ≡ trace w)
  pub write_returns :
      (row : Row) (w : W)
      → (w' : W) × (write row w ≡ some (tt, w')) × (trace w' ≡ trace w ++ writes row ∷ [])
  pub send_returns :
      (text : Bytes) (w : W)
      → (w' : W) × (send text w ≡ some (tt, w')) × (trace w' ≡ trace w ++ sends text ∷ [])
  pub sleep_returns :
      (n : ℕ) (w : W)
      → (w' : W) × (sleep n w ≡ some (tt, w')) × (trace w' ≡ trace w ++ sleeps n ∷ [])

module _ {W : Type 0} (get_bool : Bytes → M W Bool) (get_int : Bytes → M W ℤ)
    (write : Row → M W (Unit {0})) (send : Bytes → M W (Unit {0})) (sleep : ℕ → M W (Unit {0}))
    (P : Readings → Type 0) (trace : W → List Effect)
    (works : Works get_bool get_int write send sleep P trace) where
  -- One effect before others.
  chain :
      (w w₁ w₂ : W) (e : Effect) (es : List Effect)
      → trace w₁ ≡ trace w ++ e ∷ []
      → trace w₂ ≡ trace w₁ ++ es
      → trace w₂ ≡ trace w ++ e ∷ es
  chain w w₁ w₂ e es h h' = h' ∙ ap (λ x. x ++ es) h ∙ append_assoc (trace w) (e ∷ []) es

  performs :
      (es : List Effect) (w : W)
      → (w' : W) × (perform get_bool get_int write send sleep es w ≡ some (tt, w'))
        × (trace w' ≡ trace w ++ es)
  unfolding perform
  performs [] w = (w, refl, sym (append-nil (trace w)))
  performs (writes row ∷ es) w =
      let (w₁, h, t) = works.write_returns row w in
      let (w₂, h', t') = performs es w₁ in
      (w₂, bind-some (write row) _ w w₁ tt h ∙ h', chain w w₁ w₂ (writes row) es t t')
  performs (sends text ∷ es) w =
      let (w₁, h, t) = works.send_returns text w in
      let (w₂, h', t') = performs es w₁ in
      (w₂, bind-some (send text) _ w w₁ tt h ∙ h', chain w w₁ w₂ (sends text) es t t')
  performs (sleeps n ∷ es) w =
      let (w₁, h, t) = works.sleep_returns n w in
      let (w₂, h', t') = performs es w₁ in
      (w₂, bind-some (sleep n) _ w w₁ tt h ∙ h', chain w w₁ w₂ (sleeps n) es t t')

  decision_round_lem :
      (c c' : Controller) (r : Readings) (es : List Effect) (w w₁ w₂ : W)
      → read_readings get_bool get_int w ≡ some (r, w₁)
      → round r c ≡ some (c', es)
      → perform get_bool get_int write send sleep es w₁ ≡ some (tt, w₂)
      → decision_round get_bool get_int write send sleep c w ≡ some (c', w₂)
  unfolding decision_round
  decision_round_lem c c' r es w w₁ w₂ reads h performed =
      bind-some (read_readings get_bool get_int) _ w w₁ r reads ∙ ground arith

  -- One round in the world is one round of the model, and its effects are performed in order.
  decision_round_runs :
      (c : Controller) (w : W)
      → (r : Readings) × (c' : Controller) × (es : List Effect) × (w' : W) × (decision_round
            get_bool get_int write send sleep c w
          ≡ some (c', w'))
        × (round r c ≡ some (c', es))
        × P r
        × (trace w' ≡ trace w ++ es)
  decision_round_runs c w =
      let (r, w₁, reads, sound, holds, same) = works.reads w in
      let (c', es, h) = round_total r c sound in
      let (w₂, performed, t) = performs es w₁ in
      (
        r,
        c',
        es,
        w₂,
        decision_round_lem c c' r es w w₁ w₂ reads h performed,
        h,
        holds,
        t ∙ ap (λ x. x ++ es) same,
      )

  -- A number of rounds of the loop end, and their effects are performed in order.
  pub loop_runs :
      (n : ℕ) (c : Controller) (w : W)
      → (c' : Controller) × (es : List Effect) × (w' : W) × (decision_loop get_bool get_int write
            send sleep n c w
          ≡ some (c', w'))
        × Run P n c es c'
        × (trace w' ≡ trace w ++ es)
  unfolding decision_loop
  loop_runs zero c w = (c, [], w, refl, finished refl refl refl, sym (append-nil (trace w)))
  loop_runs (suc n) c w =
      let (r, c₁, es₁, w₁, first, h, holds, t₁) = decision_round_runs c w in
      let (c₂, es₂, w₂, later, run, t₂) = loop_runs n c₁ w₁ in
      (
        c₂,
        es₁ ++ es₂,
        w₂,
        bind-some (decision_round get_bool get_int write send sleep c) _ w w₁ c₁ first ∙ later,
        rounds r holds refl h run refl,
        t₂ ∙ ap (λ x. x ++ es₂) t₁ ∙ append_assoc (trace w) es₁ es₂,
      )
