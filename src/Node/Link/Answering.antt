-- ===== src/Node/Link/Answering.antt =====
-- What the node inside answers to the three requests of the controller.
use smart_window.Common.{
  ℕ, zero, suc, ◌≤◌, ◌≡◌, ◌≢◌, inl, inr, refl, sym, ap, ◌∙◌, Bool, true, some, Bytes, codes, List,
  [], ◌∷◌, All, arith,
}
use smart_window.Controller.Alarms.{Row}
use smart_window.Receiver.{handle_message}
use smart_window.Receiver.Window.{handle_window_report}
use smart_window.Node.Main.{finish_measurement}
use smart_window.Node.Main.Requests.{IsAtRest}
use smart_window.Node.Link.{Build, inside, Measured, Printing, Node, Served, sent, serve}
use smart_window.Node.Link.Measuring.{Prints, Measurement, serve_measurement}
use smart_window.Node.Link.Serving.{IsFinished, serve_open, serve_close}

-- The texts that the controller sends to the nodes.
pub data Request : Bytes → Type 0 where
  for_data : {text : Bytes} → text ≡ codes "GET_All" → Request text
  to_open : {text : Bytes} → text ≡ codes "PUT_Win/Open" → Request text
  to_close : {text : Bytes} → text ≡ codes "PUT_Win/Close" → Request text

-- The texts that it can receive: what the window does, and values for other tables than the window's.
pub data Report (alloc : ℕ → Bool) : Bytes → Type 0 where
  opened : {text : Bytes} → text ≡ codes "PUT_Win/Open" → Report alloc text
  closed : {text : Bytes} → text ≡ codes "PUT_Win/Close" → Report alloc text
  value :
      {text : Bytes} (row : Row)
      → handle_message alloc text ≡ some (row ∷ [])
      → row.table ≢ codes "Win_Open"
      → Report alloc text

pub record Answered (alloc : ℕ → Bool) (asked : Bytes) (o : Served) : Type 0 where
  pub texts : List Bytes
  pub after : Node
  pub answers : o ≡ sent texts after
  pub rests : IsAtRest after.main
  pub finished : IsFinished after.command
  pub reports : All (Report alloc) texts
  pub speaks : texts ≢ []
  -- An answer says that the window is open only to the request to open it.
  pub opens : All (λ text. text ≡ codes "PUT_Win/Open" → asked ≡ codes "PUT_Win/Open") texts

first_table :
    (row : Row)
    → some (row ∷ []) ≡ some (record { table = codes "Win_Open"; value = codes "1" } ∷ [])
    → row.table ≡ codes "Win_Open"
first_table row e = ground arith

module _ (alloc : ℕ → Bool) (gives : (n : ℕ) → alloc n ≡ true) where
  -- A stored value that is not that of the window does not say that the window is open.
  value_not_open :
      (text : Bytes) (row : Row)
      → handle_message alloc text ≡ some (row ∷ [])
      → row.table ≢ codes "Win_Open"
      → text ≢ codes "PUT_Win/Open"
  value_not_open text row h n e = n (
      first_table row (
        sym h
        ∙ ap (handle_message alloc) e
        ∙ handle_window_report alloc gives (codes "Win") true ((λ e. ground arith), omega arith)
            (omega arith)))

  measured :
      {text v : Bytes} {t : Bytes}
      → handle_message alloc text ≡ some (record { table = t; value = v } ∷ [])
      → t ≢ codes "Win_Open"
      → Report alloc text
  measured h n = value _ h n

  silent :
      {text v : Bytes} {t asked : Bytes}
      → handle_message alloc text ≡ some (record { table = t; value = v } ∷ [])
      → t ≢ codes "Win_Open"
      → text ≡ codes "PUT_Win/Open"
      → asked ≡ codes "PUT_Win/Open"
  silent {text} h n e = absurd (value_not_open text _ h n e)

  -- Measured values do not say that the window is open.
  pub measured_answer :
      (build : Build) (printing : Printing) (fresh : Measured) (node : Node) (asked : Bytes)
      (o : Served)
      → IsAtRest node.main
      → Measurement alloc build printing fresh node.main o
      → Answered alloc asked o
  measured_answer build printing fresh node asked o r m = record {
    texts = m.t₁ ∷ m.t₂ ∷ m.t₃ ∷ m.t₄ ∷ m.t₅ ∷ [];
    after = record {
      main = record (node.main) { command = finish_measurement };
      command = finish_measurement;
    };
    answers = m.served;
    rests = r;
    finished = inl refl;
    reports = (
      measured m.temperature (λ e. ground arith),
      (
        measured m.pressure (λ e. ground arith),
        (
          measured m.volume (λ e. ground arith),
          (
            measured m.humidity (λ e. ground arith),
            (measured m.air_quality (λ e. ground arith), tt),
          ),
        ),
      ),
    );
    speaks = λ e. ground arith;
    opens = (
      silent m.temperature (λ e. ground arith),
      (
        silent m.pressure (λ e. ground arith),
        (
          silent m.volume (λ e. ground arith),
          (silent m.humidity (λ e. ground arith), (silent m.air_quality (λ e. ground arith), tt)),
        ),
      ),
    );
  }

  module _ (printing : Printing) (fuel : ℕ) (fresh : Measured) (node : Node) where
    answer_open :
        70 ≤ suc fuel
        → IsAtRest node.main
        → Answered alloc
            (codes "PUT_Win/Open")
            (serve inside printing (suc fuel) (codes "PUT_Win/Open") fresh node)
    answer_open f r =
        let (node', e, r', _, k) = serve_open printing (suc fuel) fresh node f r in
        record {
          texts = codes "PUT_Win/Open" ∷ [];
          after = node';
          answers = e;
          rests = r';
          finished = inr (inl k);
          reports = (opened refl, tt);
          speaks = λ e. ground arith;
          opens = ((λ e. refl), tt);
        }

    answer_close :
        70 ≤ suc fuel
        → IsAtRest node.main
        → Answered alloc
            (codes "PUT_Win/Close")
            (serve inside printing (suc fuel) (codes "PUT_Win/Close") fresh node)
    answer_close f r =
        let (node', e, r', _, k) = serve_close printing (suc fuel) fresh node (omega arith) r in
        record {
          texts = codes "PUT_Win/Close" ∷ [];
          after = node';
          answers = e;
          rests = r';
          finished = inr (inr k);
          reports = (closed refl, tt);
          speaks = λ e. ground arith;
          opens = ((λ e. ground arith), tt);
        }

  -- Each request is answered.
  pub answer :
      (printing : Printing) (fuel : ℕ) (fresh : Measured) (node : Node) (text : Bytes)
      → 70 ≤ fuel
      → IsAtRest node.main
      → Prints printing fresh
      → Request text
      → Answered alloc text (serve inside printing fuel text fresh node)
  answer printing zero fresh node text f r p q = absurd (omega arith)
  answer printing (suc fuel) fresh node text f r p (for_data e) = rw e (
      measured_answer inside printing fresh node (codes "GET_All") _ r
        (serve_measurement inside printing fuel fresh node alloc gives p))
  answer printing (suc fuel) fresh node text f r p (to_open e) =
      rw e (answer_open printing fuel fresh node f r)
  answer printing (suc fuel) fresh node text f r p (to_close e) =
      rw e (answer_close printing fuel fresh node f r)
