-- ===== src/Node/Link/Outside.antt =====
-- What the node outside makes of the texts of the controller.
use smart_window.Common.{
  ℕ, zero, suc, ◌≤◌, ◌≡◌, ◌≢◌, refl, ap, ◌∙◌, ◌⊎◌, inl, inr, Bool, true, some, Bytes, codes, arith,
}
use smart_window.Receiver.{c_string}
use smart_window.Node.Main.{start_measurement, receive}
use smart_window.Node.Main.Requests.{IsAtRest}
use smart_window.Node.Link.{
  outside, Measured, Printing, Node, deadlock, pp_buf_size, choose_command, serve, conclude,
}
use smart_window.Node.Link.Measuring.{Prints, Measurement, serve_measurement, measures}
use smart_window.Node.Link.Serving.{IsFinished, serve_unknown}
use smart_window.Node.Link.Answering.{
  Request, for_data, to_open, to_close, Answered, measured_answer,
}

-- Between two datagrams: it has not been asked yet, or it has answered.
pub record IsOuter (node : Node) : Type 0 where
  pub rests : IsAtRest node.main
  pub command : (node.command ≡ start_measurement) ⊎ IsFinished node.command

-- A text that is no request is taken for the command of before.
kept :
    (text : Bytes) (printing : Printing) (fuel : ℕ) (fresh : Measured) (node : Node)
    → (text ≡ codes "PUT_Win/Open") ⊎ (text ≡ codes "PUT_Win/Close")
    → serve outside printing fuel text fresh node
      ≡ conclude outside printing fuel fresh (receive fuel node.command node.main)
unfolding serve choose_command c_string
kept text printing fuel fresh node (inl e) = rw e
kept text printing fuel fresh node (inr e) = rw e

no_request :
    (text : Bytes)
    → (text ≡ codes "PUT_Win/Open") ⊎ (text ≡ codes "PUT_Win/Close")
    → text ≢ codes "GET_All"
no_request text (inl e) h = ground arith
no_request text (inr e) h = ground arith

short :
    (text : Bytes)
    → (text ≡ codes "PUT_Win/Open") ⊎ (text ≡ codes "PUT_Win/Close")
    → c_string pp_buf_size text ≡ some text
unfolding c_string
short text (inl e) = rw e refl
short text (inr e) = rw e refl

module _ (alloc : ℕ → Bool) (gives : (n : ℕ) → alloc n ≡ true) (printing : Printing) (fuel : ℕ)
    (fresh : Measured) (node : Node) where
  measures_again :
      (text : Bytes)
      → (text ≡ codes "PUT_Win/Open") ⊎ (text ≡ codes "PUT_Win/Close")
      → node.command ≡ start_measurement
      → Prints printing fresh
      → Measurement alloc outside printing fresh node.main
          (serve outside printing (suc fuel) text fresh node)
  measures_again text e c p =
      rw
        (kept text printing (suc fuel) fresh node e
          ∙ ap (λ x. conclude outside printing (suc fuel) fresh (receive (suc fuel) x node.main)) c)
        (measures alloc gives outside printing fuel fresh node.main p)

  pub stops :
      (text : Bytes)
      → (text ≡ codes "PUT_Win/Open") ⊎ (text ≡ codes "PUT_Win/Close")
      → IsFinished node.command
      → IsAtRest node.main
      → serve outside printing (suc fuel) text fresh node ≡ deadlock
  stops text e c r =
      serve_unknown outside printing fuel fresh node text text (short text e) (no_request text e) c
        r.0

  window_text :
      (text : Bytes)
      → (text ≡ codes "PUT_Win/Open") ⊎ (text ≡ codes "PUT_Win/Close")
      → IsOuter node
      → Prints printing fresh
      → Answered alloc text (serve outside printing (suc fuel) text fresh node)
        ⊎ (serve outside printing (suc fuel) text fresh node ≡ deadlock)
  window_text text e v p = elim v.command [
    | inl c ↦ inl (
        measured_answer alloc gives outside printing fresh node text _ v.rests
          (measures_again text e c p))
    | inr c ↦ inr (stops text e c v.rests)
  ]

  outer_answer_suc :
      (text : Bytes)
      → Request text
      → IsOuter node
      → Prints printing fresh
      → Answered alloc text (serve outside printing (suc fuel) text fresh node)
        ⊎ (serve outside printing (suc fuel) text fresh node ≡ deadlock)
  outer_answer_suc text (for_data e) v p = inl (
      rw e (
        measured_answer alloc gives outside printing fresh node (codes "GET_All") _ v.rests
          (serve_measurement outside printing fuel fresh node alloc gives p)))
  outer_answer_suc text (to_open e) v p = window_text text (inl e) v p
  outer_answer_suc text (to_close e) v p = window_text text (inr e) v p

-- The node outside answers a text of the controller with measured values, or stops for good.
pub outer_answer :
    (alloc : ℕ → Bool) (gives : (n : ℕ) → alloc n ≡ true) (printing : Printing) (fuel : ℕ)
    → 70 ≤ fuel
    → (fresh : Measured) (node : Node) (text : Bytes) → Request text
    → IsOuter node
    → Prints printing fresh
    → Answered alloc text (serve outside printing fuel text fresh node)
      ⊎ (serve outside printing fuel text fresh node ≡ deadlock)
outer_answer alloc gives printing zero enough fresh node text q v p = absurd (omega arith)
outer_answer alloc gives printing (suc fuel) enough fresh node text q v p =
    outer_answer_suc alloc gives printing fuel fresh node text q v p
