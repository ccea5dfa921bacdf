-- ===== src/System/Safety.antt =====
-- What the system never does.
use mathlib.Core.List.{Memᴰ}
use mathlib.Core.List.Memᴰ
use smart_window.Common.{
  ℕ, ◌≤◌, ◌≡◌, ◌≢◌, inl, inr, refl, sym, ap, ◌∙◌, Bool, true, false, some, Bytes, codes, List, All,
  All-append, All-Memᴰ, ◌++◌,
}
use smart_window.Controller.Alarms.{Row}
use mathlib.Core.Path.{subst}
use smart_window.Controller.Round.Reached.{Reached}
use smart_window.Receiver.{handle_message}
use smart_window.Node.Main.{Command}
use smart_window.Node.Main.Requests.{IsAtRest}
use smart_window.Node.Link.{inside, outside, Measured, Printing, Node, sent, deadlock, serve}
use smart_window.Node.Link.Measuring.{Prints}
use smart_window.Node.Link.Answering.{Request, for_data, Report, opened, closed, value, answer}
use smart_window.Node.Link.Outside.{IsOuter, outer_answer}
use smart_window.System.{System, beginning, Step, Steps, texts}
use smart_window.System.Invariant.{
  Inv, open_text, beginning-Inv, round-Request, handle_open, handle_close, stored_true,
}

pub sent-injective : {a b : List Bytes} {m n : Node} → sent a m ≡ sent b n → (a ≡ b) × (m ≡ n)
sent-injective e = (cc, cc)

pub sent-deadlock : {a : List Bytes} {m : Node} → sent a m ≢ deadlock
sent-deadlock e = cc

module _ (truth : Bytes → Bool) (alloc : ℕ → Bool) (printing : Printing) (fuel : ℕ)
    (gives : (n : ℕ) → alloc n ≡ true) (one : truth (codes "1") ≡ true)
    (zero_is : truth (codes "0") ≡ false) (enough : 70 ≤ fuel) (b : Bool) where
  -- An answer as the invariant needs it.
  given :
      (text : Bytes) (fresh : Measured) (replies : List Bytes) (s : System) (node' : Node)
      → Inv alloc b s
      → Memᴰ text s.to_node
      → Prints printing fresh
      → serve inside printing fuel text fresh s.node ≡ sent replies node'
      → IsAtRest node'.main
        × All (Report alloc) replies
        × All (λ t. t ≡ open_text → text ≡ open_text) replies
  given text fresh replies s node' v m p e =
      let a =
        answer alloc gives printing fuel fresh s.node text enough v.rests p
          (All-Memᴰ Request v.requests m) in
      let (same, same') = sent-injective (sym (a.answers) ∙ e) in
      (
        subst (λ n. IsAtRest n.main) same' a.rests,
        subst (All (Report alloc)) same a.reports,
        subst (All (λ t. t ≡ open_text → text ≡ open_text)) same a.opens,
      )

  given_outside :
      (text : Bytes) (fresh : Measured) (replies : List Bytes) (s : System) (node' : Node)
      → Inv alloc b s
      → Memᴰ text s.to_node
      → Prints printing fresh
      → serve outside printing fuel text fresh s.outer ≡ sent replies node'
      → IsOuter node'
        × All (Report alloc) replies
        × All (λ t. t ≡ open_text → text ≡ open_text) replies
  given_outside text fresh replies s node' v m p e =
      elim (outer_answer alloc gives printing fuel enough fresh s.outer text
        (All-Memᴰ Request v.requests m) v.outer p) [
          | inl a ↦
              let (same, same') = sent-injective (sym (a.answers) ∙ e) in
              (
                subst IsOuter same' (record { rests = a.rests; command = inr a.finished }),
                subst (All (Report alloc)) same a.reports,
                subst (All (λ t. t ≡ open_text → text ≡ open_text)) same a.opens,
              )
          | inr stuck ↦ absurd (sent-deadlock (sym e ∙ stuck))
        ]

  -- An answer that says that the window is open is one to the request to open it.
  newly_asked :
      (text : Bytes) (replies : List Bytes) (s : System)
      → Inv alloc b s
      → Memᴰ text s.to_node
      → All (λ t. t ≡ open_text → text ≡ open_text) replies
      → Memᴰ open_text (replies ++ s.to_controller)
      → Memᴰ open_text s.to_node
  newly_asked text replies s v m o k = elim (Memᴰ.append_cases replies k) [
    | inl new ↦ Memᴰ.cast (sym (All-Memᴰ (λ t. t ≡ open_text → text ≡ open_text) o new refl)) m
    | inr old ↦ v.asked old
  ]

  step-Inv : {s s' : System} → Inv alloc b s → Step truth alloc printing fuel s s' → Inv alloc b s'
  step-Inv {s} v (Step.asks e) = rw e (record {
    reached = v.reached;
    rests = v.rests;
    outer = v.outer;
    requests = (for_data refl, v.requests);
    reports = v.reports;
    asked = λ m. Memᴰ.tail (v.asked m);
    believed = λ t. elim (v.believed t) [ inl o ↦ inl o | inr m ↦ inr (Memᴰ.tail m) ];
  })
  step-Inv {s} v (Step.decides r c' es w h e) = rw e (record {
    reached = Reached.after r es v.reached h;
    rests = v.rests;
    outer = v.outer;
    requests =
        All-append Request (texts es) s.to_node (round-Request r s.controller c' es v.reached h)
          v.requests;
    reports = v.reports;
    asked = λ m. Memᴰ.append_right (texts es) (v.asked m);
    believed =
        λ t. elim (v.believed t) [ inl o ↦ inl o | inr m ↦ inr (Memᴰ.append_right (texts es) m) ];
  })
  step-Inv {s} v (Step.answers text fresh replies node' m p h e) =
      let (r, g, o) = given text fresh replies s node' v m p h in
      rw e (record {
        reached = v.reached;
        rests = r;
        outer = v.outer;
        requests = v.requests;
        reports = All-append (Report alloc) replies s.to_controller g v.reports;
        asked = newly_asked text replies s v m o;
        believed = v.believed;
      })
  step-Inv {s} v (Step.answers_outside text fresh replies node' m p h e) =
      let (r, g, o) = given_outside text fresh replies s node' v m p h in
      rw e (record {
        reached = v.reached;
        rests = v.rests;
        outer = r;
        requests = v.requests;
        reports = All-append (Report alloc) replies s.to_controller g v.reports;
        asked = newly_asked text replies s v m o;
        believed = v.believed;
      })
  step-Inv {s} v (Step.stores text rows m h e) = rw e (record {
    reached = v.reached;
    rests = v.rests;
    outer = v.outer;
    requests = v.requests;
    reports = v.reports;
    asked = v.asked;
    believed = λ t.
        elim (stored_true truth alloc gives one zero_is text rows s.win_open
          (All-Memᴰ (Report alloc) v.reports m) h t) [
            | inl before ↦ v.believed before
            | inr same ↦ inr (v.asked (Memᴰ.cast (sym same) m))
          ];
  })

  handled :
      (text : Bytes)
      → Report alloc text
      → (rows : List Row) × (handle_message alloc text ≡ some rows)
  handled text (opened e) =
      (_, ap (handle_message alloc) e ∙ handle_open truth alloc gives one zero_is)
  handled text (closed e) =
      (_, ap (handle_message alloc) e ∙ handle_close truth alloc gives one zero_is)
  handled text (value row h n) = (_, h)

  pub steps-Inv :
      {s s' : System} → Inv alloc b s → Steps truth alloc printing fuel s s' → Inv alloc b s'
  steps-Inv v Steps.done = v
  steps-Inv v (Steps.more st sts) = steps-Inv (step-Inv v st) sts

  -- However the texts are lost, repeated or delayed: as long as the measured values fit, the node inside
  -- serves each text that was sent to the nodes, without a fault and without its threads waiting for one
  -- another, and the controller, if it has memory and takes 1 for true and 0 for false, handles each
  -- text that one of the nodes sent.
  pub system_safe :
      (any : Command) (s : System) (text text' : Bytes) (fresh : Measured)
      → Steps truth alloc printing fuel (beginning any b) s
      → Memᴰ text s.to_node
      → Memᴰ text' s.to_controller
      → Prints printing fresh
      → ((replies : List Bytes) × (node' : Node) × (serve inside printing fuel text fresh s.node
            ≡ sent replies node'))
        × ((rows : List Row) × (handle_message alloc text' ≡ some rows))
  system_safe any s text text' fresh w m m' p =
      let v = steps-Inv (beginning-Inv alloc any b) w in
      let a =
        answer alloc gives printing fuel fresh s.node text enough v.rests p
          (All-Memᴰ Request v.requests m) in
      ((a.texts, a.after, a.answers), handled text' (All-Memᴰ (Report alloc) v.reports m'))

-- Where the controller has memory and takes 1 for true and 0 for false, the table of the window says
-- that it is open only after the controller has asked for that, if it did not say so at the beginning.
pub believes_open :
    (truth : Bytes → Bool) (alloc : ℕ → Bool) (printing : Printing) (fuel : ℕ) (any : Command)
    (s : System)
    → ((n : ℕ) → alloc n ≡ true)
    → truth (codes "1") ≡ true
    → truth (codes "0") ≡ false
    → 70 ≤ fuel
    → Steps truth alloc printing fuel (beginning any false) s
    → s.win_open ≡ true
    → Memᴰ (codes "PUT_Win/Open") s.to_node
believes_open truth alloc printing fuel any s gives one zero_is enough w t =
    elim ((steps-Inv truth alloc printing fuel gives one zero_is enough false
        (beginning-Inv alloc any false) w).believed
      t) [ inl e ↦ cc | inr m ↦ m ]
