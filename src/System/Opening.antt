-- ===== src/System/Opening.antt =====
-- A window that the controller opens is opened and reported.
use smart_window.Common.{
  ℕ, ◌≤◌, ◌≡◌, ◌≢◌, refl, sym, ap, ◌∙◌, Bool, true, false, some, Bytes, codes, List, [], ◌∷◌,
}
use smart_window.Controller.Readings.{Readings}
use smart_window.Controller.Alarms.{state_rows}
use smart_window.Controller.Machine.Phase.{
  Priority, at, opening, encode, encode-injective, next, tests,
}
use smart_window.Controller.Round.{Controller, Effect, round}
use smart_window.Controller.Round.Reached.{Reached}
use smart_window.Controller.Round.Loop.{AreSound, round_total}
use smart_window.Controller.Round.Commands.{request, round_refines}
use smart_window.Controller.Round.Outcomes.{from_opening_inv, next_stays_opening, tests-win_open}
use smart_window.Node.Main.{Command}
use smart_window.Node.Link.{Measured, Printing}
use smart_window.Node.Link.Measuring.{Prints}
use smart_window.Node.Link.Serving.{serve_open}
use smart_window.System.{System, beginning, texts, Steps}
use smart_window.System.Invariant.{
  open_text, beginning-Inv, texts-sent, sent_texts, handle_open, stored_open,
}
use smart_window.System.Safety.{steps-Inv}
use smart_window.System.Delivery.{command_done}

request-opening : (p : Priority) → sent_texts (request (at p opening)) ≡ open_text ∷ []
unfolding request
request-opening p = refl

-- While it opens the window, a round sends the command to open it.
round_asks :
    (r : Readings) (c c' : Controller) (es : List Effect) (p : Priority)
    → Reached c
    → round r c ≡ some (c', es)
    → c.flags ≡ encode (at p opening)
    → r.win_open ≡ false
    → (texts es ≡ open_text ∷ []) × (c'.flags ≡ encode (at p opening))
round_asks r c c' es p w h e shut =
    let (ph, b, e', sends_it) = round_refines r c c' es w h in
    let same : next r c'.alarms ph ≡ at p opening =
      ap (next r c'.alarms) (encode-injective (sym b ∙ e))
      ∙ next_stays_opening r c'.alarms p shut in
    (
      ap texts sends_it
          ∙ texts-sent (state_rows r c'.alarms) (request (next r c'.alarms ph))
          ∙ ap (λ x. sent_texts (request x)) same
          ∙ request-opening p,
      e' ∙ ap encode same,
    )

-- A round that reads that the window is open does not go on opening it.
round_leaves :
    (r : Readings) (c c' : Controller) (es : List Effect) (p : Priority)
    → Reached c
    → round r c ≡ some (c', es)
    → c.flags ≡ encode (at p opening)
    → r.win_open ≡ true
    → c'.flags ≢ encode (at p opening)
round_leaves r c c' es p w h e is_open stays =
    let (ph, b, e', _) = round_refines r c c' es w h in
    let same : next r c'.alarms (at p opening) ≡ at p opening =
      ap (next r c'.alarms) (sym (encode-injective (sym b ∙ e)))
      ∙ encode-injective (sym e' ∙ stays) in
    let (_, shut, _) = from_opening_inv p p opening (tests p r c'.alarms) (unfold next in same) in
    cc (tests-win_open r c'.alarms p, shut, is_open)

module _ (truth : Bytes → Bool) (alloc : ℕ → Bool) (printing : Printing) (fuel : ℕ)
    (gives : (n : ℕ) → alloc n ≡ true) (one : truth (codes "1") ≡ true)
    (zero_is : truth (codes "0") ≡ false) (enough : 70 ≤ fuel) where
  -- Where the controller has memory and takes 1 for true and 0 for false: from every state that the
  -- system can reach in which it opens the window and the table says that it is closed, there are steps
  -- after which the node has opened the window, the table says so, and the controller has gone on: a
  -- round, the answer of the node, its report, and another round, both rounds with readings that agree
  -- with the table and cannot overflow.
  pub opening_completes :
      (any : Command) (b : Bool) (s : System) (p : Priority) (r r' : Readings) (fresh : Measured)
      → Steps truth alloc printing fuel (beginning any b) s
      → s.controller.flags ≡ encode (at p opening)
      → s.win_open ≡ false
      → AreSound r
      → r.win_open ≡ false
      → AreSound r'
      → r'.win_open ≡ true
      → Prints printing fresh
      → (s' : System) × Steps truth alloc printing fuel s s'
        × (s'.win_open ≡ true)
        × (s'.node.main.open_next ≡ false)
        × (s'.controller.flags ≢ encode (at p opening))
  opening_completes any b s p r r' fresh w e shut ok shut' ok' open_now prints =
      let v =
        steps-Inv truth alloc printing fuel gives one zero_is enough b (beginning-Inv alloc any b)
          w in
      let (c₁, es₁, h₁) = round_total r s.controller ok in
      let (asks, e₁) = round_asks r s.controller c₁ es₁ p v.reached h₁ e shut' in
      let (node', served, _, moved, _) = serve_open printing fuel fresh s.node enough v.rests in
      let reached₁ = Reached.after r es₁ v.reached h₁ in
      let (c₂, es₂, h₂) = round_total r' c₁ ok' in
      let (s', steps, told, at_node, at_controller) =
        command_done truth alloc printing fuel s open_text _ true r r' c₁ c₂ es₁ es₂ fresh node'
          (shut' ∙ sym shut) h₁ asks prints served (handle_open truth alloc gives one zero_is)
          (stored_open truth alloc gives one zero_is s.win_open) open_now h₂ in
      (
        s',
        steps,
        told,
        ap (λ n. n.main.open_next) at_node ∙ moved,
        λ e'.
            round_leaves r' c₁ c₂ es₂ p reached₁ h₂ e₁ open_now
              (ap (λ c. c.flags) (sym at_controller) ∙ e'),
      )
