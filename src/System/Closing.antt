-- ===== src/System/Closing.antt =====
-- A window that the controller closes is closed and reported.
use smart_window.Common.{
  ℕ, ◌≤◌, ◌≡◌, ◌≢◌, refl, sym, ap, ◌∙◌, Bool, true, false, some, Bytes, codes, List, [], ◌∷◌, arith,
}
use smart_window.Controller.Readings.{Readings}
use smart_window.Controller.Alarms.{Alarms, state_rows}
use smart_window.Controller.Machine.{Tests}
use smart_window.Controller.Machine.Phase.{
  Priority, at, closing, encode, encode-injective, next, tests, from_closing,
}
use smart_window.Controller.Round.{Controller, Effect, round}
use smart_window.Controller.Round.Reached.{Reached}
use smart_window.Controller.Round.Loop.{AreSound, round_total}
use smart_window.Controller.Round.Commands.{request, round_refines}
use smart_window.Controller.Round.Outcomes.{tests-win_open}
use smart_window.Node.Main.{Command}
use smart_window.Node.Link.{Measured, Printing}
use smart_window.Node.Link.Measuring.{Prints}
use smart_window.Node.Link.Serving.{serve_close}
use smart_window.System.{System, beginning, texts, Steps}
use smart_window.System.Invariant.{
  beginning-Inv, texts-sent, sent_texts, handle_close, stored_close,
}
use smart_window.System.Safety.{steps-Inv}
use smart_window.System.Delivery.{command_done}

abbrev close_text : Bytes
close_text = codes "PUT_Win/Close"

request-closing : (p : Priority) → sent_texts (request (at p closing)) ≡ close_text ∷ []
unfolding request
request-closing p = refl

next_stays_closing :
    (r : Readings) (a : Alarms) (p : Priority)
    → r.win_open ≡ true
    → next r a (at p closing) ≡ at p closing
unfolding next
next_stays_closing r a p h = rw (tests-win_open r a p, h)

from_closing_leaves :
    (p : Priority) (t : Tests) → t.win_open ≡ false → from_closing p t ≢ at p closing
from_closing_leaves p t shut e = ground arith

next_leaves_closing :
    (r : Readings) (a : Alarms) (p : Priority)
    → r.win_open ≡ false
    → next r a (at p closing) ≢ at p closing
unfolding next
next_leaves_closing r a p shut = from_closing_leaves p (tests p r a) (tests-win_open r a p ∙ shut)

-- While it closes the window, a round sends the command to close it.
round_asks :
    (r : Readings) (c c' : Controller) (es : List Effect) (p : Priority)
    → Reached c
    → round r c ≡ some (c', es)
    → c.flags ≡ encode (at p closing)
    → r.win_open ≡ true
    → (texts es ≡ close_text ∷ []) × (c'.flags ≡ encode (at p closing))
round_asks r c c' es p w h e is_open =
    let (ph, b, e', sends_it) = round_refines r c c' es w h in
    let same : next r c'.alarms ph ≡ at p closing =
      ap (next r c'.alarms) (encode-injective (sym b ∙ e))
      ∙ next_stays_closing r c'.alarms p is_open in
    (
      ap texts sends_it
          ∙ texts-sent (state_rows r c'.alarms) (request (next r c'.alarms ph))
          ∙ ap (λ x. sent_texts (request x)) same
          ∙ request-closing p,
      e' ∙ ap encode same,
    )

-- A round that reads that the window is closed does not go on closing it.
round_leaves :
    (r : Readings) (c c' : Controller) (es : List Effect) (p : Priority)
    → Reached c
    → round r c ≡ some (c', es)
    → c.flags ≡ encode (at p closing)
    → r.win_open ≡ false
    → c'.flags ≢ encode (at p closing)
round_leaves r c c' es p w h e shut stays =
    let (ph, b, e', _) = round_refines r c c' es w h in
    next_leaves_closing r c'.alarms p shut (
      ap (next r c'.alarms) (sym (encode-injective (sym b ∙ e)))
      ∙ encode-injective (sym e' ∙ stays))

module _ (truth : Bytes → Bool) (alloc : ℕ → Bool) (printing : Printing) (fuel : ℕ)
    (gives : (n : ℕ) → alloc n ≡ true) (one : truth (codes "1") ≡ true)
    (zero_is : truth (codes "0") ≡ false) (enough : 70 ≤ fuel) where
  -- Where the controller has memory and takes 1 for true and 0 for false: from every state that the
  -- system can reach in which it closes the window and the table says that it is open, there are steps
  -- after which the node has closed the window, the table says so, and the controller has gone on: a
  -- round, the answer of the node, its report, and another round, both rounds with readings that agree
  -- with the table and cannot overflow.
  pub closing_completes :
      (any : Command) (b : Bool) (s : System) (p : Priority) (r r' : Readings) (fresh : Measured)
      → Steps truth alloc printing fuel (beginning any b) s
      → s.controller.flags ≡ encode (at p closing)
      → s.win_open ≡ true
      → AreSound r
      → r.win_open ≡ true
      → AreSound r'
      → r'.win_open ≡ false
      → Prints printing fresh
      → (s' : System) × Steps truth alloc printing fuel s s'
        × (s'.win_open ≡ false)
        × (s'.node.main.open_next ≡ true)
        × (s'.controller.flags ≢ encode (at p closing))
  closing_completes any b s p r r' fresh w e is_open ok open_now ok' shut prints =
      let v =
        steps-Inv truth alloc printing fuel gives one zero_is enough b (beginning-Inv alloc any b)
          w in
      let (c₁, es₁, h₁) = round_total r s.controller ok in
      let (asks, e₁) = round_asks r s.controller c₁ es₁ p v.reached h₁ e open_now in
      let (node', served, _, moved, _) =
        serve_close printing fuel fresh s.node (omega arith) v.rests in
      let reached₁ = Reached.after r es₁ v.reached h₁ in
      let (c₂, es₂, h₂) = round_total r' c₁ ok' in
      let (s', steps, told, at_node, at_controller) =
        command_done truth alloc printing fuel s close_text _ false r r' c₁ c₂ es₁ es₂ fresh node'
          (open_now ∙ sym is_open) h₁ asks prints served
          (handle_close truth alloc gives one zero_is)
          (stored_close truth alloc gives one zero_is s.win_open) shut h₂ in
      (
        s',
        steps,
        told,
        ap (λ n. n.main.open_next) at_node ∙ moved,
        λ e'.
            round_leaves r' c₁ c₂ es₂ p reached₁ h₂ e₁ shut
              (ap (λ c. c.flags) (sym at_controller) ∙ e'),
      )
