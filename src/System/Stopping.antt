-- ===== src/System/Stopping.antt =====
-- The node outside, to which the commands for the window are sent too.
use mathlib.Core.List.{Memᴰ}
use mathlib.Core.Path.{subst}
use smart_window.Common.{
  ℕ, zero, suc, ◌≤◌, ◌≡◌, refl, sym, ◌∙◌, ◌⊎◌, inl, inr, Bool, true, false, Bytes, codes, List,
  All-Memᴰ, arith,
}
use smart_window.Node.Main.{Command}
use smart_window.Node.Main.Requests.{IsAtRest}
use smart_window.Node.Link.{outside, Measured, Printing, Node, sent, deadlock, serve}
use smart_window.Node.Link.Measuring.{Prints}
use smart_window.Node.Link.Serving.{IsFinished}
use smart_window.Node.Link.Answering.{Request}
use smart_window.Node.Link.Outside.{outer_answer, stops}
use smart_window.System.{System, beginning, Steps}
use smart_window.System.Invariant.{beginning-Inv}
use smart_window.System.Safety.{steps-Inv, sent-injective, sent-deadlock}

stops_within :
    (alloc : ℕ → Bool) (gives : (n : ℕ) → alloc n ≡ true) (printing : Printing) (fuel : ℕ)
    (fresh : Measured) (node : Node) (text : Bytes)
    → 70 ≤ fuel
    → (text ≡ codes "PUT_Win/Open") ⊎ (text ≡ codes "PUT_Win/Close")
    → IsFinished node.command
    → IsAtRest node.main
    → serve outside printing fuel text fresh node ≡ deadlock
stops_within alloc gives printing zero fresh node text h e c r = absurd (omega arith)
stops_within alloc gives printing (suc fuel) fresh node text h e c r =
    stops alloc gives printing fuel fresh node text e c r

-- In every state that the system can reach where the controller has memory and takes 1 for true and 0
-- for false, once the node outside has answered a text of the controller, with values that fit, the next
-- command for the window, to open or to close it, leaves its threads waiting for one another.
pub outside_stops :
    (truth : Bytes → Bool) (alloc : ℕ → Bool) (printing : Printing) (fuel : ℕ) (any : Command)
    (b : Bool) (s : System) (text : Bytes) (fresh fresh' : Measured) (replies : List Bytes)
    (node' : Node)
    → ((n : ℕ) → alloc n ≡ true)
    → truth (codes "1") ≡ true
    → truth (codes "0") ≡ false
    → 70 ≤ fuel
    → Steps truth alloc printing fuel (beginning any b) s
    → Memᴰ text s.to_node
    → Prints printing fresh
    → serve outside printing fuel text fresh s.outer ≡ sent replies node'
    → (serve outside printing fuel (codes "PUT_Win/Open") fresh' node' ≡ deadlock)
      × (serve outside printing fuel (codes "PUT_Win/Close") fresh' node' ≡ deadlock)
outside_stops truth alloc printing fuel any b s text fresh fresh' replies node' gives one zero_is
      enough w m p e =
    let v =
      steps-Inv truth alloc printing fuel gives one zero_is enough b (beginning-Inv alloc any b)
        w in
    elim (outer_answer alloc gives printing fuel enough fresh s.outer text
      (All-Memᴰ Request v.requests m) v.outer p) [
        | inl a ↦
            let (_, same) = sent-injective (sym a.answers ∙ e) in
            let c = subst (λ n. IsFinished n.command) same a.finished in
            let r = subst (λ n. IsAtRest n.main) same a.rests in
            (
              stops_within alloc gives printing fuel fresh' node' _ enough (inl refl) c r,
              stops_within alloc gives printing fuel fresh' node' _ enough (inr refl) c r,
            )
        | inr stuck ↦ absurd (sent-deadlock (sym e ∙ stuck))
      ]
