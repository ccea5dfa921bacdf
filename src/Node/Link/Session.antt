-- ===== src/Node/Link/Session.antt =====
-- The loop of `communication_thread` (microController/phytec/main.c, lines 199 to 308) over what it
-- receives.
use smart_window.Common.{ℕ, ◌≤◌, ◌≡◌, ◌≢◌, refl, ap, Bool, true, Bytes, List, [], ◌∷◌, All}
use smart_window.Receiver.{Received, failed, shut_down, datagram}
use smart_window.Node.Main.{Command, start, start_measurement}
use smart_window.Node.Main.Requests.{IsAtRest}
use smart_window.Node.Link.{
  Build, inside, Measured, Printing, Node, sent, undefined, deadlock, out_of_fuel, serve,
}
use smart_window.Node.Link.Measuring.{Prints}
use smart_window.Node.Link.Answering.{Request, answer, Report}

-- The node at power-up; the command of the main thread is not set yet.
unfoldable pub power_up : Command → Node
unfolding start
power_up any = record { main = start any; command = start_measurement }

-- How the loop stands after what it has received.
pub data Standing : Type 0 where
  listening : Node → Standing
  faulty starved stuck : Standing

-- The answers in order, each with the address that it goes to and its texts.
pub record Session : Type 0 where
  pub answers : List (Bytes × List Bytes)
  pub standing : Standing

abbrev pub add_answer : Bytes × List Bytes → Session → Session
add_answer a s = record s { answers = a ∷ s.answers }

-- Receptions come with what the sensors give if they are asked. One that fails or is empty only clears
-- the buffers.
module _ (build : Build) (printing : Printing) (fuel : ℕ) where
  unfoldable pub communicate : List (Received × Measured) → Node → Session
  communicate [] node = record { answers = []; standing = listening node }
  communicate ((failed, _) ∷ rs) node = communicate rs node
  communicate ((shut_down, _) ∷ rs) node = communicate rs node
  communicate ((datagram source payload, fresh) ∷ rs) node =
      elim (serve build printing fuel payload fresh node) [
        | sent texts node' ↦ add_answer (source, texts) (communicate rs node')
        | undefined ↦ record { answers = []; standing = faulty }
        | deadlock ↦ record { answers = []; standing = stuck }
        | out_of_fuel ↦ record { answers = []; standing = starved }
      ]

-- A reception that the controller can cause: a failure, or a request, with measurements that fit.
abbrev pub Expected : Printing → Received × Measured → Type 0
Expected printing (failed, fresh) = Unit {0}
Expected printing (shut_down, fresh) = Unit {0}
Expected printing (datagram source payload, fresh) = Request payload × Prints printing fresh

-- The senders of the datagrams, in order.
pub senders : List (Received × Measured) → List Bytes
senders [] = []
senders ((failed, _) ∷ rs) = senders rs
senders ((shut_down, _) ∷ rs) = senders rs
senders ((datagram source payload, _) ∷ rs) = source ∷ senders rs

pub addressees : List (Bytes × List Bytes) → List Bytes
addressees [] = []
addressees ((a, texts) ∷ as') = a ∷ addressees as'

-- A session that answers the given senders in order, with reports, and then listens at rest.
pub record Answers (alloc : ℕ → Bool) (from : List Bytes) (s : Session) : Type 0 where
  pub node : Node
  pub listens : s.standing ≡ listening node
  pub rests : IsAtRest node.main
  pub in_order : addressees s.answers ≡ from
  pub reports : All (λ (a : Bytes × List Bytes). (a.1 ≢ []) × All (Report alloc) a.1) s.answers

-- A datagram that is answered comes before the rest.
pub communicate-served :
    (printing : Printing) (fuel : ℕ) (source payload : Bytes) (fresh : Measured)
    (rs : List (Received × Measured)) (node after : Node) (texts : List Bytes)
    → serve inside printing fuel payload fresh node ≡ sent texts after
    → communicate inside printing fuel ((datagram source payload, fresh) ∷ rs) node
      ≡ add_answer (source, texts) (communicate inside printing fuel rs after)
unfolding communicate
communicate-served printing fuel source payload fresh rs node after texts e =
    rw (e, communicate) refl

module _ (alloc : ℕ → Bool) (gives : (n : ℕ) → alloc n ≡ true) (printing : Printing) (fuel : ℕ)
    (enough : 70 ≤ fuel) where
  -- With the window at rest, the node inside serves any receptions that fail, are empty, or hold a
  -- request of the controller, while the printed values fit: each request is answered, in order, to its
  -- sender, with texts that the controller stores; at the end the node listens, with the window at rest.
  pub communicate-Answers :
      (rs : List (Received × Measured)) (node : Node)
      → All (Expected printing) rs
      → IsAtRest node.main
      → Answers alloc (senders rs) (communicate inside printing fuel rs node)
  unfolding communicate senders addressees
  communicate-Answers [] node h r = record {
    node = node;
    listens = refl;
    rests = r;
    in_order = refl;
    reports = tt;
  }
  communicate-Answers ((failed, fresh) ∷ rs) node h r = communicate-Answers rs node h.1 r
  communicate-Answers ((shut_down, fresh) ∷ rs) node h r = communicate-Answers rs node h.1 r
  communicate-Answers ((datagram source payload, fresh) ∷ rs) node ((q, p), h) r =
      let a = answer alloc gives printing fuel fresh node payload enough r p q in
      let v = communicate-Answers rs a.after h a.rests in
      rw (communicate-served printing fuel source payload fresh rs node a.after a.texts a.answers)
        (record {
          node = v.node;
          listens = v.listens;
          rests = v.rests;
          in_order = ap (λ x. source ∷ x) v.in_order;
          reports = ((a.speaks, a.reports), v.reports);
        })
