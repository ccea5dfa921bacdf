-- ===== src/Node/Link/Texts.antt =====
-- The texts that a node sends back (microController/phytec/main.c, lines 240 to 307 and 612 to 625).
use smart_window.Common.{
  ℕ, ◌<◌, ◌≡◌, ◌≢◌, inl, inr, refl, sym, ap, ◌∙◌, Option, none, some, some_injective, Option-cases,
  Bytes, codes, List, [], ◌∷◌, ◌++◌, All, All-append, Lacks, length, arith,
}
use mathlib.Core.Path.{subst}
use smart_window.Common.Int.{ℤ}
use smart_window.Receiver.{c_string}
use smart_window.Node.Main.{
  Command, start_measurement, finish_measurement, start_open_window, start_close_window,
  finish_open_window, finish_close_window, Outcome, replied, waiting, exhausted, receive,
}
use smart_window.Node.Link.{
  Build, inside, outside, Measured, Printing, Node, sent, pp_buf_size, choose_command, position,
  send_string, ◌>>=◌, report, answers, conclude, serve, send_all,
}

-- The text of a buffer: it has no zero byte, and leaves room for its terminator.
abbrev pub IsText : Bytes → Type 0
IsText s = Lacks 0 s × (length s < pp_buf_size)

-- What `sprintf` writes has no zero byte.
pub record PrintsTexts (printing : Printing) : Type 0 where
  pub tenths : (z : ℤ) → Lacks 0 (printing.tenths z)
  pub hundredths : (z : ℤ) → Lacks 0 (printing.hundredths z)
  pub as_int : (n : ℕ) → Lacks 0 (printing.as_int n)

position-Lacks : (b : Build) → Lacks 0 (position b)
unfolding position
position-Lacks inside = omega arith
position-Lacks outside = omega arith

report_inv :
    (b : Build) (sensor v text : Bytes)
    → report b sensor v ≡ some text
    → (codes "PUT_" ++ (sensor ++ (position b ++ (codes "/" ++ v))) ≡ text)
      × (length (codes "PUT_" ++ (sensor ++ (position b ++ (codes "/" ++ v)))) < pp_buf_size)
unfolding report send_string
report_inv b sensor v text h = ground arith

report-IsText :
    (b : Build) (sensor v text : Bytes)
    → report b sensor v ≡ some text
    → Lacks 0 sensor
    → Lacks 0 v
    → IsText text
report-IsText b sensor v text h ls lv =
    let (same, small) = report_inv b sensor v text h in
    subst IsText same (
      All-append (λ x. x ≢ 0) (codes "PUT_") _ (omega arith)
          (All-append (λ x. x ≢ 0) sensor _ ls
            (All-append (λ x. x ≢ 0) (position b) _ (position-Lacks b)
              (All-append (λ x. x ≢ 0) (codes "/") v (omega arith) lv))),
      small,
    )

then_inv {ℓ κ} :
    {A : Type ℓ} {B : Type κ} (o : Option A) (f : A → Option B) (b : B)
    → (o >>= f) ≡ some b
    → (a : A) × (o ≡ some a) × (f a ≡ some b)
then_inv none f b h = absurd cc
then_inv (some a) f b h = (a, refl, h)

five :
    (a b c d e : Bytes)
    → IsText a
    → IsText b
    → IsText c
    → IsText d
    → IsText e
    → All IsText (a ∷ b ∷ c ∷ d ∷ e ∷ [])
five a b c d e ha hb hc hd he = (ha, (hb, (hc, (hd, (he, tt)))))

module _ (build : Build) (printing : Printing) (prints : PrintsTexts printing) where
  answers-IsText :
      (c : Command) (m : Measured) (texts : List Bytes)
      → answers build printing c m ≡ some texts
      → All IsText texts
  unfolding answers
  answers-IsText start_measurement m texts h = subst (All IsText) (some_injective h) tt
  answers-IsText finish_measurement m texts h =
      let (t₁, e₁, h₁) = then_inv (report build (codes "Temp") _) _ texts h in
      let (t₂, e₂, h₂) = then_inv (report build (codes "AirPressure") _) _ texts h₁ in
      let (t₃, e₃, h₃) = then_inv (report build (codes "Volume") _) _ texts h₂ in
      let (t₄, e₄, h₄) = then_inv (report build (codes "Humidity") _) _ texts h₃ in
      let (t₅, e₅, h₅) = then_inv (report build (codes "AirQuality") _) _ texts h₄ in
      subst (All IsText) (some_injective h₅) (
        five t₁ t₂ t₃ t₄ t₅
          (report-IsText build (codes "Temp") _ t₁ e₁ (omega arith) (prints.tenths m.temperature))
          (report-IsText build (codes "AirPressure") _ t₂ e₂ (omega arith)
            (prints.as_int m.pressure))
          (report-IsText build (codes "Volume") _ t₃ e₃ (omega arith) (prints.hundredths m.volume))
          (report-IsText build (codes "Humidity") _ t₄ e₄ (omega arith)
            (prints.hundredths m.humidity))
          (report-IsText build (codes "AirQuality") _ t₅ e₅ (omega arith)
            (prints.hundredths m.air_quality)))
  answers-IsText start_open_window m texts h = subst (All IsText) (some_injective h) tt
  answers-IsText start_close_window m texts h = subst (All IsText) (some_injective h) tt
  answers-IsText finish_open_window m texts h =
      subst (All IsText) (some_injective h) ((omega arith, omega arith), tt)
  answers-IsText finish_close_window m texts h =
      subst (All IsText) (some_injective h) ((omega arith, omega arith), tt)

  sent_inv :
      (o : Option (List Bytes)) (texts : List Bytes) (node node' : Node)
      → send_all o node ≡ sent texts node'
      → o ≡ some texts
  sent_inv none texts node node' h = absurd cc
  sent_inv (some ts) texts node node' h = ap some cc

  conclude-IsText :
      (fuel : ℕ) (fresh : Measured) (o : Outcome) (texts : List Bytes) (node : Node)
      → conclude build printing fuel fresh o ≡ sent texts node
      → All IsText texts
  unfolding conclude
  conclude-IsText fuel fresh (replied main c sets) texts node h =
      answers-IsText c fresh texts (sent_inv (answers build printing c fresh) texts _ node h)
  conclude-IsText fuel fresh (waiting main) texts node h = absurd cc
  conclude-IsText fuel fresh exhausted texts node h = absurd cc

  served_text :
      (fuel : ℕ) (payload text : Bytes) (fresh : Measured) (node : Node)
      → c_string pp_buf_size payload ≡ some text
      → serve build printing fuel payload fresh node
        ≡ conclude build printing fuel fresh
            (receive fuel (choose_command build text node.command) node.main)
  unfolding serve
  served_text fuel payload text fresh node e = rw (e, serve) refl

  -- Every text that a node sends back has no zero byte and fits its buffer of 64 bytes, whatever the
  -- datagram is and whatever the node was doing, if the printed numbers have no zero byte.
  pub serve-IsText :
      (fuel : ℕ) (payload : Bytes) (fresh : Measured) (node node' : Node) (texts : List Bytes)
      → serve build printing fuel payload fresh node ≡ sent texts node'
      → All IsText texts
  unfolding serve
  serve-IsText fuel payload fresh node node' texts h =
      elim (Option-cases (c_string pp_buf_size payload)) [
        | inl e ↦ absurd (cc (h, e))
        | inr (text, e) ↦
            conclude-IsText fuel fresh
              (receive fuel (choose_command build text node.command) node.main) texts node'
              (sym (served_text fuel payload text fresh node e) ∙ h)
      ]
