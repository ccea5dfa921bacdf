-- ===== src/Node/Link/Telling.antt =====
-- What an answer of the node inside tells about the window (microController/phytec/main.c, lines 199 to
-- 308).
use smart_window.Common.{
  ℕ, zero, suc, ◌≤◌, ◌≡◌, ◌≢◌, refl, Bool, true, false, some, Bytes, codes, List, [], ◌∷◌, All,
  arith,
}
use smart_window.Controller.Alarms.{Row}
use smart_window.Receiver.{handle_message}
use smart_window.Node.Main.{Main, finish_measurement}
use smart_window.Node.Main.Requests.{IsAtRest}
use smart_window.Node.Link.{inside, Measured, Printing, Node, Served, sent, serve}
use smart_window.Node.Link.Measuring.{Prints, serve_measurement}
use smart_window.Node.Link.Serving.{serve_open, serve_close}
use smart_window.Node.Link.Answering.{Request, for_data, to_open, to_close}

-- The controller stores it in another table than that of the window.
abbrev pub IsSilent : (ℕ → Bool) → Bytes → Type 0
IsSilent alloc text =
    (row : Row) × (handle_message alloc text ≡ some (row ∷ [])) × (row.table ≢ codes "Win_Open")

-- The texts of an answer, with what has become of the window.
pub data Tells (alloc : ℕ → Bool) (before after : Main) (texts : List Bytes) : Type 0 where
  opened :
      texts ≡ codes "PUT_Win/Open" ∷ [] → after.open_next ≡ false → Tells alloc before after texts
  closed :
      texts ≡ codes "PUT_Win/Close" ∷ [] → after.open_next ≡ true → Tells alloc before after texts
  values :
      All (IsSilent alloc) texts
      → after.open_next ≡ before.open_next
      → Tells alloc before after texts

pub record Told (alloc : ℕ → Bool) (before : Main) (o : Served) : Type 0 where
  pub texts : List Bytes
  pub after : Node
  pub answers : o ≡ sent texts after
  pub rests : IsAtRest after.main
  pub tells : Tells alloc before after.main texts

silent :
    (alloc : ℕ → Bool) (text t v : Bytes)
    → handle_message alloc text ≡ some (record { table = t; value = v } ∷ [])
    → t ≢ codes "Win_Open"
    → IsSilent alloc text
silent alloc text t v h n = (_, h, n)

module _ (alloc : ℕ → Bool) (gives : (n : ℕ) → alloc n ≡ true) (printing : Printing) (fuel : ℕ)
    (fresh : Measured) (node : Node) (enough : 70 ≤ suc fuel) (r : IsAtRest node.main) where
  tell_suc :
      (payload : Bytes)
      → Prints printing fresh
      → Request payload
      → Told alloc node.main (serve inside printing (suc fuel) payload fresh node)
  tell_suc payload p (for_data e) =
      let m = serve_measurement inside printing fuel fresh node alloc gives p in
      rw e (record {
        texts = m.t₁ ∷ m.t₂ ∷ m.t₃ ∷ m.t₄ ∷ m.t₅ ∷ [];
        after = record {
          main = record (node.main) { command = finish_measurement };
          command = finish_measurement;
        };
        answers = m.served;
        rests = r;
        tells =
            values
              (
                silent alloc _ _ _ m.temperature (λ e. ground arith),
                (
                  silent alloc _ _ _ m.pressure (λ e. ground arith),
                  (
                    silent alloc _ _ _ m.volume (λ e. ground arith),
                    (
                      silent alloc _ _ _ m.humidity (λ e. ground arith),
                      (silent alloc _ _ _ m.air_quality (λ e. ground arith), tt),
                    ),
                  ),
                ),
              )
              refl;
      })
  tell_suc payload p (to_open e) =
      let (node', served, rests, moved, _) = serve_open printing (suc fuel) fresh node enough r in
      rw e (record {
        texts = _;
        after = node';
        answers = served;
        rests = rests;
        tells = opened refl moved;
      })
  tell_suc payload p (to_close e) =
      let (node', served, rests, moved, _) =
        serve_close printing (suc fuel) fresh node (omega arith) r in
      rw e (record {
        texts = _;
        after = node';
        answers = served;
        rests = rests;
        tells = closed refl moved;
      })

-- A node at rest answers a request of the controller, and tells what has become of the window.
pub tell :
    (alloc : ℕ → Bool) (gives : (n : ℕ) → alloc n ≡ true) (printing : Printing) (fuel : ℕ)
    (fresh : Measured) (node : Node) (payload : Bytes)
    → 70 ≤ fuel
    → IsAtRest node.main
    → Prints printing fresh
    → Request payload
    → Told alloc node.main (serve inside printing fuel payload fresh node)
tell alloc gives printing zero fresh node payload enough r p q = absurd (omega arith)
tell alloc gives printing (suc fuel) fresh node payload enough r p q =
    tell_suc alloc gives printing fuel fresh node enough r payload p q
