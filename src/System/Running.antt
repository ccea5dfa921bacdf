-- ===== src/System/Running.antt =====
-- What the decision thread sends to the nodes while it runs.
use smart_window.Common.{ℕ, suc, ◌≡◌, refl, sym, ap, ◌∙◌, Bool, some, Bytes, List, [], ◌∷◌, ◌++◌}
use smart_window.Common.Int.{ℤ}
use smart_window.Common.Outcome.{M}
use smart_window.Controller.Readings.{Readings}
use smart_window.Controller.Alarms.{Alarms, Row, state_rows}
use smart_window.Controller.Machine.Phase.{Phase, starting, encode, encode-injective, next}
use smart_window.Controller.Round.{Controller, Effect, writes, sends, sleeps, start, decision_loop}
use smart_window.Controller.Round.Reached.{Reached}
use smart_window.Controller.Round.Commands.{Request, request, round_refines}
use smart_window.Controller.Round.Loop.{Run, finished, rounds, Works, loop_runs}
use smart_window.System.{texts}
use smart_window.System.Invariant.{sent_texts, texts-sent}

-- A number of rounds of the abstract machine, with what each of them asks of the window.
pub data Asked : ℕ → Phase → List Request → Phase → Type 0 where
  ended :
      {n : ℕ} {ph ph' : Phase} {qs : List Request} → n ≡ 0 → ph ≡ ph' → qs ≡ [] → Asked n ph qs ph'
  asks :
      {n k : ℕ} {ph ph' : Phase} {qs qs' : List Request} (r : Readings) (a : Alarms)
      → n ≡ suc k
      → Asked k (next r a ph) qs' ph'
      → qs ≡ request (next r a ph) ∷ qs'
      → Asked n ph qs ph'

-- The texts of the requests.
unfoldable pub all_texts : List Request → List Bytes
all_texts [] = []
all_texts (q ∷ qs) = sent_texts q ++ all_texts qs

pub texts-append : (xs ys : List Effect) → texts (xs ++ ys) ≡ texts xs ++ texts ys
unfolding texts
texts-append [] ys = refl
texts-append (writes row ∷ xs) ys = texts-append xs ys
texts-append (sends text ∷ xs) ys = ap (λ ts. text ∷ ts) (texts-append xs ys)
texts-append (sleeps n ∷ xs) ys = texts-append xs ys

Run-Asked :
    {P : Readings → Type 0} {n : ℕ} {c c' : Controller} {es : List Effect} (ph : Phase)
    → Reached c
    → c.flags ≡ encode ph
    → Run P n c es c'
    → (qs : List Request) × (ph' : Phase) × Asked n ph qs ph'
      × (texts es ≡ all_texts qs)
      × (c'.flags ≡ encode ph')
unfolding all_texts texts
Run-Asked ph w e (finished zero_left same nothing_done) =
    ([], ph, ended zero_left refl refl, ap texts nothing_done, sym (ap (λ c. c.flags) same) ∙ e)
Run-Asked {P} {n} {c} {c'} {es} ph w e
      (rounds {c₁ = c₁} {es₁ = es₁} {es' = es₂} r _ left h run both) =
    let (ph₀, b, e₁, sends_it) = round_refines r c c₁ es₁ w h in
    let same : next r c₁.alarms ph₀ ≡ next r c₁.alarms ph =
      ap (next r c₁.alarms) (encode-injective (sym b ∙ e)) in
    let (qs, ph', asked, sent_all, e') =
      Run-Asked (next r c₁.alarms ph) (Reached.after r es₁ w h) (e₁ ∙ ap encode same) run in
    let first : texts es₁ ≡ sent_texts (request (next r c₁.alarms ph)) =
      ap texts sends_it
      ∙ texts-sent (state_rows r c₁.alarms) (request (next r c₁.alarms ph₀))
      ∙ ap (λ x. sent_texts (request x)) same in
    (
      request (next r c₁.alarms ph) ∷ qs,
      ph',
      asks r c₁.alarms left asked refl,
      ap texts both
          ∙ texts-append es₁ es₂
          ∙ ap (λ ts. ts ++ texts es₂) first
          ∙ ap (λ ts. sent_texts (request (next r c₁.alarms ph)) ++ ts) sent_all,
      e',
    )

start-starting : start.flags ≡ encode starting
unfolding start
start-starting = refl

module _ {W : Type 0} (get_bool : Bytes → M W Bool) (get_int : Bytes → M W ℤ)
    (write : Row → M W (Unit {0})) (send : Bytes → M W (Unit {0})) (sleep : ℕ → M W (Unit {0}))
    (P : Readings → Type 0) (trace : W → List Effect)
    (works : Works get_bool get_int write send sleep P trace) where
  -- Where each read gives readings that cannot overflow and have a property, and each call returns, any
  -- number of rounds of the loop end without a fault. Their effects, done in order, are those of that
  -- number of rounds from the state at the start on readings with the property, and the texts they send
  -- are what the abstract machine asks for in as many rounds from its first phase to the phase that the
  -- flags then stand for.
  pub decision_loop_runs :
      (n : ℕ) (w : W)
      → (c : Controller) × (es : List Effect) × (w' : W) × (qs : List Request) × (ph : Phase)
        × (decision_loop get_bool get_int write send sleep n start w ≡ some (c, w'))
        × (trace w' ≡ trace w ++ es)
        × Run P n start es c
        × Asked n starting qs ph
        × (texts es ≡ all_texts qs)
        × (c.flags ≡ encode ph)
  decision_loop_runs n w =
      let (c, es, w', e, run, t) =
        loop_runs get_bool get_int write send sleep P trace works n start w in
      let (qs, ph, asked, sent_all, e') = Run-Asked starting Reached.first start-starting run in
      (c, es, w', qs, ph, e, t, run, asked, sent_all, e')
