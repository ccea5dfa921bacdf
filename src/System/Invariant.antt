-- ===== src/System/Invariant.antt =====
-- What holds between any two steps of the system.
use mathlib.Core.List.{Memᴰ}
use mathlib.Core.List.Memᴰ
use smart_window.Common.{
  ℕ, ◌≡◌, ◌≢◌, ◌⊎◌, inl, inr, refl, sym, ap, ◌∙◌, Bool, true, false, some, some_injective, Bytes,
  codes, List, [], ◌∷◌, ◌++◌, map, All, arith, str_eq, str_eq_sound, Bool-cases,
}
use smart_window.Controller.Readings.{Readings}
use smart_window.Controller.Alarms.{Row, state_rows}
use smart_window.Controller.Machine.Phase.{next}
use smart_window.Controller.Round.{Controller, Effect, writes, sleeps, round}
use smart_window.Controller.Round.Reached.{Reached}
use smart_window.Controller.Round.Commands.{
  sent, open_it, close_it, nothing, request, round_refines,
}
use smart_window.Controller.Round.Commands as Commands
use smart_window.Receiver.{handle_message}
use smart_window.Receiver.Window.{handle_window_report}
use smart_window.Node.Main.{Command}
use smart_window.Node.Main.Requests.{IsAtRest, start-IsAtRest}
use smart_window.Node.Link.Outside.{IsOuter}
use smart_window.Node.Link.Answering.{Request, to_open, to_close, Report, opened, closed, value}
use smart_window.System.{System, texts, beginning, window_after}

abbrev pub open_text : Bytes
open_text = codes "PUT_Win/Open"

-- The invariant; `open_now` is what the table of the window said at the beginning.
pub record Inv (alloc : ℕ → Bool) (open_now : Bool) (s : System) : Type 0 where
  pub reached : Reached s.controller
  pub rests : IsAtRest s.node.main
  pub outer : IsOuter s.outer
  pub requests : All Request s.to_node
  pub reports : All (Report alloc) s.to_controller
  pub asked : Memᴰ open_text s.to_controller → Memᴰ open_text s.to_node
  pub believed : s.win_open ≡ true → (open_now ≡ true) ⊎ Memᴰ open_text s.to_node

pub beginning-Inv : (alloc : ℕ → Bool) (any : Command) (b : Bool) → Inv alloc b (beginning any b)
unfolding beginning
beginning-Inv alloc any b = record {
  reached = Reached.first;
  rests = start-IsAtRest any;
  outer = record { rests = start-IsAtRest any; command = inl refl };
  requests = tt;
  reports = tt;
  asked = λ m. absurd (Memᴰ.not-nil m);
  believed = λ e. inl e;
}

-- What the three kinds of a phase's request send.
abbrev pub sent_texts : Commands.Request → List Bytes
sent_texts open_it = open_text ∷ []
sent_texts close_it = codes "PUT_Win/Close" ∷ []
sent_texts nothing = []

pub texts-sent :
    (rows : List Row) (q : Commands.Request)
    → texts (map writes rows ++ (sent q ++ sleeps 5 ∷ [])) ≡ sent_texts q
unfolding texts
texts-sent [] open_it = refl
texts-sent [] close_it = refl
texts-sent [] nothing = refl
texts-sent (row ∷ rows) q = texts-sent rows q

sent-Request : (q : Commands.Request) → All Request (sent_texts q)
sent-Request open_it = (to_open refl, tt)
sent-Request close_it = (to_close refl, tt)
sent-Request nothing = tt

-- A round from a reachable state sends requests only.
pub round-Request :
    (r : Readings) (c c' : Controller) (es : List Effect)
    → Reached c
    → round r c ≡ some (c', es)
    → All Request (texts es)
round-Request r c c' es w h =
    let (ph, _, _, e) = round_refines r c c' es w h in
    let q = request (next r c'.alarms ph) in
    rw (ap texts e ∙ texts-sent (state_rows r c'.alarms) q) (sent-Request q)

module _ (truth : Bytes → Bool) (alloc : ℕ → Bool) (gives : (n : ℕ) → alloc n ≡ true)
    (one : truth (codes "1") ≡ true) (zero_is : truth (codes "0") ≡ false) where
  pub handle_open :
      handle_message alloc open_text
      ≡ some (record { table = codes "Win_Open"; value = codes "1" } ∷ [])
  handle_open =
      handle_window_report alloc gives (codes "Win") true ((λ e. ground arith), omega arith)
        (omega arith)

  pub handle_close :
      handle_message alloc (codes "PUT_Win/Close")
      ≡ some (record { table = codes "Win_Open"; value = codes "0" } ∷ [])
  handle_close =
      handle_window_report alloc gives (codes "Win") false ((λ e. ground arith), omega arith)
        (omega arith)

  pub stored_open :
      (b : Bool)
      → window_after truth (record { table = codes "Win_Open"; value = codes "1" } ∷ []) b ≡ true
  unfolding window_after
  stored_open b = one

  pub stored_close :
      (b : Bool)
      → window_after truth (record { table = codes "Win_Open"; value = codes "0" } ∷ []) b ≡ false
  unfolding window_after
  stored_close b = zero_is

  stored_other :
      (row : Row) (b : Bool) → row.table ≢ codes "Win_Open" → window_after truth (row ∷ []) b ≡ b
  unfolding window_after
  stored_other row b n = elim (Bool-cases (str_eq row.table (codes "Win_Open"))) [
    | inl e ↦ absurd (n (str_eq_sound row.table _ e))
    | inr e ↦ rw e refl
  ]

  -- A report that makes the table say that the window is open is the one that says so.
  pub stored_true :
      (text : Bytes) (rows : List Row) (b : Bool)
      → Report alloc text
      → handle_message alloc text ≡ some rows
      → window_after truth rows b ≡ true
      → (b ≡ true) ⊎ (text ≡ open_text)
  stored_true text rows b (opened e) h t = inr e
  stored_true text rows b (closed e) h t =
      let same = some_injective (sym h ∙ ap (handle_message alloc) e ∙ handle_close) in
      absurd (cc (ap (λ x. window_after truth x b) same, stored_close b, t))
  stored_true text rows b (value row h' n) h t =
      let same = some_injective (sym h ∙ h') in
      inl (sym (ap (λ x. window_after truth x b) same ∙ stored_other row b n) ∙ t)
