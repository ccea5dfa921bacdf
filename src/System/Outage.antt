-- ===== src/System/Outage.antt =====
-- The decision thread while the database cannot be read.
use mathlib.Core.Path.{subst}
use smart_window.Common.{
  ℕ, ◌≡◌, ◌≢◌, refl, sym, ap, ◌∙◌, inl, inr, false, none, some, some_injective, Bytes, codes, List,
  [], ◌∷◌, ◌++◌, All, All-append, arith,
}
use smart_window.Common.Outcome.{M}
use smart_window.Controller.Reads.{
  unreported, read_database, nothing_read, tables, after_all, after_all-keeps, read_database-fails,
  nothing_kept,
}
use smart_window.Controller.Alarms.{Row, state_rows}
use smart_window.Controller.Machine.Phase.{
  Phase, starting, idle, at, Priority, waiting, opening, opened, closing, encode, next,
}
use smart_window.Controller.Round.{Controller, Effect, writes, sends, sleeps, round, decision_loop}
use smart_window.Controller.Round.Reached.{Reached}
use smart_window.Controller.Round.Commands.{request, round_refines}
use smart_window.Controller.Round.Outcomes.{opens_for_a_reason}
use smart_window.Controller.Round.Loop.{AreSound, Run, finished, rounds, Works, loop_runs}
use smart_window.Database.Access.{
  MySql, Floats, find_latest, get_latest_value_bool, get_latest_value_int,
}
use smart_window.System.{texts}
use smart_window.System.Invariant.{sent_texts, texts-sent}
use smart_window.System.Running.{texts-append}

-- The window is not being opened.
abbrev pub IsNotOpening : Controller → Type 0
IsNotOpening c = (p : Priority) → c.flags ≢ encode (at p opening)

-- What some rounds have kept: the window is not being opened, no text asks for it, and the alarms of the
-- temperature, the humidity and the noise are as they were.
pub record Keeps (c c' : Controller) (es : List Effect) : Type 0 where
  pub not_opening : IsNotOpening c'
  pub quiet : All (λ t. t ≢ codes "PUT_Win/Open") (texts es)
  pub temp : c'.alarms.temp_alarm ≡ c.alarms.temp_alarm
  pub humid : c'.alarms.humid_alarm ≡ c.alarms.humid_alarm
  pub vol : c'.alarms.vol_alarm ≡ c.alarms.vol_alarm

quiet_phase :
    (ph : Phase)
    → ((p : Priority) → ph ≢ at p opening)
    → All (λ t. t ≢ codes "PUT_Win/Open") (sent_texts (request ph))
unfolding request
quiet_phase starting n = ((λ e. ground arith), tt)
quiet_phase idle n = tt
quiet_phase (at p waiting) n = tt
quiet_phase (at p opening) n = absurd (n p refl)
quiet_phase (at p opened) n = tt
quiet_phase (at p closing) n = ((λ e. ground arith), tt)

-- A round that reads nothing.
nothing-Keeps :
    (c c' : Controller) (es : List Effect)
    → Reached c
    → IsNotOpening c
    → round nothing_read c ≡ some (c', es)
    → Keeps c c' es
nothing-Keeps c c' es w n h =
    let not_opening : IsNotOpening c' = λ p e.
      elim (opens_for_a_reason nothing_read c c' es p w h (n p) e).1 [
        | inl (_, asked) ↦ cc
        | inr (automatic, _, _) ↦ cc
      ] in
    let (ph, b, e', sends_it) = round_refines nothing_read c c' es w h in
    let quiet =
      quiet_phase (next nothing_read c'.alarms ph) (λ p e. not_opening p (e' ∙ ap encode e)) in
    let (c'', es'', h', t, hu, v) = nothing_kept c in
    let same : c'' ≡ c' =
      ap (λ (x : Controller × List Effect). x.0) (some_injective (sym h' ∙ h)) in
    record {
      not_opening = not_opening;
      quiet =
          subst (All (λ t. t ≢ codes "PUT_Win/Open"))
            (sym (ap texts sends_it ∙ texts-sent (state_rows nothing_read c'.alarms) _)) quiet;
      temp = ap (λ x. x.alarms.temp_alarm) (sym same) ∙ t;
      humid = ap (λ x. x.alarms.humid_alarm) (sym same) ∙ hu;
      vol = ap (λ x. x.alarms.vol_alarm) (sym same) ∙ v;
    }

Run-Keeps :
    {n : ℕ} {c c' : Controller} {es : List Effect}
    → Reached c
    → IsNotOpening c
    → Run (λ r. r ≡ nothing_read) n c es c'
    → Keeps c c' es
unfolding texts
Run-Keeps {n} {c} {c'} {es} w quiet_now (finished _ same none_done) = record {
  not_opening = subst IsNotOpening same quiet_now;
  quiet = rw none_done tt;
  temp = ap (λ x. x.alarms.temp_alarm) (sym same);
  humid = ap (λ x. x.alarms.humid_alarm) (sym same);
  vol = ap (λ x. x.alarms.vol_alarm) (sym same);
}
Run-Keeps {n} {c} {c'} {es} w quiet_now
      (rounds {c₁ = c₁} {es₁ = es₁} {es' = es₂} r nothing _ h run both) =
    let h' : round nothing_read c ≡ some (c₁, es₁) = ap (λ x. round x c) (sym nothing) ∙ h in
    let k = nothing-Keeps c c₁ es₁ w quiet_now h' in
    let l = Run-Keeps (Reached.after nothing_read es₁ w h') k.not_opening run in
    record {
      not_opening = l.not_opening;
      quiet =
          subst (All (λ t. t ≢ codes "PUT_Win/Open")) (sym (ap texts both ∙ texts-append es₁ es₂))
            (All-append (λ t. t ≢ codes "PUT_Win/Open") (texts es₁) (texts es₂) k.quiet l.quiet);
      temp = l.temp ∙ k.temp;
      humid = l.humid ∙ k.humid;
      vol = l.vol ∙ k.vol;
    }

nothing-AreSound : AreSound nothing_read
nothing-AreSound = record { moderate = omega arith; humid = omega arith; temp = omega arith }

module _ {W : Type 0} (lib : MySql W) (floats : Floats) (after : Bytes → W → W)
    (fails : (table : Bytes) (w : W)
      → find_latest lib false (codes "SmartWindow") table w ≡ some (none, after table w))
    (write : Row → M W (Unit {0})) (send : Bytes → M W (Unit {0})) (sleep : ℕ → M W (Unit {0}))
    (trace : W → List Effect) where
  -- The other calls of the thread return; `trace` tells what has been written, sent and waited for.
  pub record Runs : Type 0 where
    pub read_keeps : (table : Bytes) (w : W) → trace (after table w) ≡ trace w
    pub write_returns :
        (row : Row) (w : W)
        → (w' : W) × (write row w ≡ some (tt, w')) × (trace w' ≡ trace w ++ writes row ∷ [])
    pub send_returns :
        (text : Bytes) (w : W)
        → (w' : W) × (send text w ≡ some (tt, w')) × (trace w' ≡ trace w ++ sends text ∷ [])
    pub sleep_returns :
        (n : ℕ) (w : W)
        → (w' : W) × (sleep n w ≡ some (tt, w')) × (trace w' ≡ trace w ++ sleeps n ∷ [])

  outage-Works :
      Runs
      → Works
          (λ table. unreported (get_latest_value_bool lib floats (codes "SmartWindow") table))
          (λ table. unreported (get_latest_value_int lib (codes "SmartWindow") table))
          write
          send
          sleep
          (λ r. r ≡ nothing_read)
          trace
  unfolding read_database
  outage-Works runs = record {
    reads = λ w. (
      nothing_read,
      after_all after tables w,
      read_database-fails lib floats after fails w,
      nothing-AreSound,
      refl,
      after_all-keeps after trace runs.read_keeps tables w,
    );
    write_returns = runs.write_returns;
    send_returns = runs.send_returns;
    sleep_returns = runs.sleep_returns;
  }

  -- Where each read fails without a fault and each other call returns, any number of rounds of the loop
  -- from a reachable state in which the window is not being opened end without a fault. The window is
  -- not being opened after them, none of the texts that they have sent asks for it, and the alarms of
  -- the temperature, the humidity and the noise are as they were.
  pub outage_rounds :
      (n : ℕ) (c : Controller) (w : W)
      → Runs
      → Reached c
      → IsNotOpening c
      → (c' : Controller) × (es : List Effect) × (w' : W) × (decision_loop
            (λ table. unreported (get_latest_value_bool lib floats (codes "SmartWindow") table))
            (λ table. unreported (get_latest_value_int lib (codes "SmartWindow") table))
            write
            send
            sleep
            n
            c
            w
          ≡ some (c', w'))
        × (trace w' ≡ trace w ++ es)
        × Keeps c c' es
  outage_rounds n c w runs reached n_o =
      let (c', es, w', e, run, t) =
        loop_runs _ _ write send sleep _ trace (outage-Works runs) n c w in
      (c', es, w', e, t, Run-Keeps reached n_o run)
