-- ===== src/System/Sharing.antt =====
-- What the web server has made known, as a round of the controller reads it.
use smart_window.Common.{ℕ, ◌≡◌, sym, ap, ◌∙◌, Bytes, List, [], ◌∷◌}
use smart_window.Controller.Readings.{Readings}
use smart_window.Controller.Reads.Latest.{Says}
use smart_window.Controller.Reads.Showing.{Shows}
use smart_window.Database.Access.{Floats}
use smart_window.Webserver.Modes.{Control, auto_modus, man_open, man_close, Controls, name, get}

-- The round reads what the buttons have made known.
pub record Agree (r : Readings) (c : Controls) : Type 0 where
  pub auto : r.auto_mode ≡ c.auto
  pub open_asked : r.man_open ≡ c.open_asked
  pub close_asked : r.man_close ≡ c.close_asked

abbrev head_or : Bytes → List Bytes → Bytes
head_or v [] = v
head_or v (x ∷ xs) = x

-- What the buttons have made known is what the tables hold.
pub record IsShared (id_text : ℕ → Bytes) (floats : Floats) (content : Bytes → List Bytes)
    (c : Controls) : Type 0 where
  pub holds :
      (k : Control)
      → Says id_text (content (name k)) (λ v b. floats.is_nonzero (floats.atof v) ≡ b) (get k c)

-- A table has one latest value.
Says-unique :
    {A : Type 0} (id_text : ℕ → Bytes) (rows : List Bytes) (read : Bytes → A) (a b : A)
    → Says id_text rows (λ v x. read v ≡ x) a
    → Says id_text rows (λ v x. read v ≡ x) b
    → a ≡ b
Says-unique id_text rows read a b (v, latest, is_a) (v', latest', is_b) =
    let same : v ≡ v' = ap (head_or v) (sym latest.rows_are ∙ latest'.rows_are) in
    sym is_a ∙ (ap read same ∙ is_b)

pub Shows-Agree :
    (id_text : ℕ → Bytes) (floats : Floats) (content : Bytes → List Bytes) (r : Readings)
    (c : Controls)
    → Shows id_text floats content r
    → IsShared id_text floats content c
    → Agree r c
Shows-Agree id_text floats content r c shows shared =
    let same = λ (k : Control).
      Says-unique id_text (content (name k)) (λ v. floats.is_nonzero (floats.atof v)) in
    record {
      auto = same auto_modus _ _ shows.auto_mode (shared.holds auto_modus);
      open_asked = same man_open _ _ shows.man_open (shared.holds man_open);
      close_asked = same man_close _ _ shows.man_close (shared.holds man_close);
    }
