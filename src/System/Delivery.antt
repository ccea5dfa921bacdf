-- ===== src/System/Delivery.antt =====
-- A command for the window on its way: a round of the controller sends it, the node inside carries it out
-- and reports it, the controller stores the report, and the next round reads it.
use mathlib.Core.List.{Memᴰ}
use mathlib.Core.Path.{subst}
use smart_window.Common.{ℕ, ◌≡◌, refl, sym, ◌∙◌, Bool, some, Bytes, List, [], ◌∷◌, ◌++◌}
use smart_window.Controller.Readings.{Readings}
use smart_window.Controller.Alarms.{Row}
use smart_window.Controller.Round.{Controller, Effect, round}
use smart_window.Receiver.{handle_message}
use smart_window.Node.Link.{inside, Measured, Printing, Node, sent, serve}
use smart_window.Node.Link.Measuring.{Prints}
use smart_window.System.{System, texts, window_after, Step, Steps}

module _ (truth : Bytes → Bool) (alloc : ℕ → Bool) (printing : Printing) (fuel : ℕ) where
  -- The steps, where each of them is possible.
  pub command_done :
      (s : System) (text : Bytes) (rows : List Row) (told : Bool) (r r' : Readings)
      (c₁ c₂ : Controller) (es₁ es₂ : List Effect) (fresh : Measured) (node' : Node)
      → r.win_open ≡ s.win_open
      → round r s.controller ≡ some (c₁, es₁)
      → texts es₁ ≡ text ∷ []
      → Prints printing fresh
      → serve inside printing fuel text fresh s.node ≡ sent (text ∷ []) node'
      → handle_message alloc text ≡ some rows
      → window_after truth rows s.win_open ≡ told
      → r'.win_open ≡ told
      → round r' c₁ ≡ some (c₂, es₂)
      → (s' : System) × Steps truth alloc printing fuel s s'
        × (s'.win_open ≡ told)
        × (s'.node ≡ node')
        × (s'.controller ≡ c₂)
  command_done s text rows told r r' c₁ c₂ es₁ es₂ fresh node' e h₁ asks prints served h stored e'
        h₂ =
      (
        _,
        Steps.more (Step.decides r c₁ es₁ e h₁ refl) (
            Steps.more
              (Step.answers text fresh (text ∷ []) node'
                (subst (λ ts. Memᴰ text (ts ++ s.to_node)) (sym asks) (Memᴰ.head refl)) prints
                served refl)
              (Steps.more (Step.stores text rows (Memᴰ.head refl) h refl)
                (Steps.more (Step.decides r' c₂ es₂ (e' ∙ sym stored) h₂ refl) Steps.done))),
        stored,
        refl,
        refl,
      )
