-- ===== src/Controller/Reads/Latest.antt =====
-- The read of one table that has a row (RaspberryPi/Window_Controller/main_controller.cpp,
-- lines 371 to 420, and write_read.cpp).
use mathlib.Core.Path.{subst}
use smart_window.Common.{
  ℕ, ◌≤◌, ◌<◌, ◌≡◌, sym, ap, ◌∙◌, Bool, false, Option, some, Bytes, codes, List, ◌∷◌, length, arith,
}
use smart_window.Common.Int.{ℤ}
use smart_window.Common.Outcome.{M, ◌>>=◌, bind-some}
use smart_window.Controller.Reads.{unreported}
use smart_window.Database.Queries.{atoi}
use smart_window.Database.Access.{
  MySql, Floats, find_latest, get_latest_value_bool, get_latest_value_int,
}
use smart_window.Database.Server.{Connects, HasTable}
use smart_window.Database.Server.Reading.{find_latest-some}

-- The latest value of a table, whose id has at most twenty digits.
pub record IsLatest (id_text : ℕ → Bytes) (rows : List Bytes) (v : Bytes) : Type 0 where
  pub earlier : List Bytes
  pub rows_are : rows ≡ v ∷ earlier
  pub id_fits : length (id_text (length (v ∷ earlier))) ≤ 20

-- What a value is read as: a truth value by way of a double, or a number.
abbrev pub Says : (ℕ → Bytes) → List Bytes → {A : Type 0} → (Bytes → A → Type 0) → A → Type 0
Says id_text rows read a = (v : Bytes) × IsLatest id_text rows v × read v a

-- The database has the table, and its name fits the queries.
abbrev pub HasIt :
    {W : Type 0} → MySql W → (W → ℕ) → (W → Bytes → List Bytes) → (ℕ → Bytes) → Bytes → Type 0
HasIt lib sessions content id_text table =
    HasTable lib sessions content (λ c. c table) id_text (codes "SmartWindow") table
    × (length table < 200)

module _ {W : Type 0} (lib : MySql W) (floats : Floats) (sessions : W → ℕ)
    (content : W → Bytes → List Bytes) (works : Connects lib sessions content)
    (id_text : ℕ → Bytes) where
  bool_lem :
      (table v : Bytes) (b : Bool) (w w' : W)
      → find_latest lib false (codes "SmartWindow") table w ≡ some (some v, w')
      → floats.is_nonzero (floats.atof v) ≡ b
      → unreported (get_latest_value_bool lib floats (codes "SmartWindow") table) w ≡ some (b, w')
  unfolding unreported get_latest_value_bool
  bool_lem table v b w w' e h = ground arith

  int_lem :
      (table v : Bytes) (m : ℤ) (w w' : W)
      → find_latest lib false (codes "SmartWindow") table w ≡ some (some v, w')
      → atoi v ≡ some m
      → unreported (get_latest_value_int lib (codes "SmartWindow") table) w ≡ some (m, w')
  unfolding unreported get_latest_value_int
  int_lem table v m w w' e h = ground arith

  module _ (k : Bytes → List Bytes) (n : ℕ) where
    -- The database holds `k`, and `n` sessions are open.
    abbrev pub At : W → Type 0
    At w = (content w ≡ k) × (sessions w ≡ n)

    found :
        (table v : Bytes) (w : W)
        → HasIt lib sessions content id_text table
        → IsLatest id_text (k table) v
        → At w
        → (w' : W) × (find_latest lib false (codes "SmartWindow") table w ≡ some (some v, w'))
          × At w'
    found table v w (has, short) latest (c, s) =
        let (w', e, s', c') =
          find_latest-some lib sessions content works (λ x. x table) id_text (codes "SmartWindow")
            table has short false w v latest.earlier (ap (λ x. x table) c ∙ latest.rows_are)
            latest.id_fits in
        (w', e, (c' ∙ c, s' ∙ s))

    pub bool_read :
        {A : Type 0} (P : Option (A × W) → Type 0) (table : Bytes) (b : Bool) (f : Bool → M W A)
        (w : W)
        → HasIt lib sessions content id_text table
        → Says id_text (k table) (λ v b. floats.is_nonzero (floats.atof v) ≡ b) b
        → At w
        → ((w' : W) → At w' → P (f b w'))
        → P ((unreported (get_latest_value_bool lib floats (codes "SmartWindow") table) >>= f) w)
    bool_read P table b f w has (v, latest, reads) at next =
        let (w', e, at') = found table v w has latest at in
        subst P
          (sym (
            bind-some (unreported (get_latest_value_bool lib floats (codes "SmartWindow") table)) f
              w w' b (bool_lem table v b w w' e reads)))
          (next w' at')

    pub int_read :
        {A : Type 0} (P : Option (A × W) → Type 0) (table : Bytes) (m : ℤ) (f : ℤ → M W A) (w : W)
        → HasIt lib sessions content id_text table
        → Says id_text (k table) (λ v n. atoi v ≡ some n) m
        → At w
        → ((w' : W) → At w' → P (f m w'))
        → P ((unreported (get_latest_value_int lib (codes "SmartWindow") table) >>= f) w)
    int_read P table m f w has (v, latest, reads) at next =
        let (w', e, at') = found table v w has latest at in
        subst P
          (sym (
            bind-some (unreported (get_latest_value_int lib (codes "SmartWindow") table)) f w w' m
              (int_lem table v m w w' e reads)))
          (next w' at')
