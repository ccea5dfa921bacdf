-- ===== src/Webserver/Values/Reading.antt =====
-- What the pages show of the tables.
use mathlib.Core.Path.{subst}
use smart_window.Common.{is_in, ◌≡◌, sym, ◌∙◌, true, Bytes}
use smart_window.Webserver.{Db, latest}
use smart_window.Webserver.Exec.{E, Result, ◌>>=◌}
use smart_window.Webserver.Values.{tables, Rows}
use smart_window.Webserver.Modes.Keeping.{bind-ok}

module _ {W : Type 0} (db : Db W) (rows : Rows db) where
  module _ (v k : Bytes → db.Cell) where
    -- The connection sees `v`, and the others `k`.
    abbrev pub At : W → Type 0
    At w = (rows.seen w ≡ v) × (rows.committed w ≡ k)

    -- A query for a table that the pages show, and the calls that follow.
    pub reads :
        {A : Type 0} (P : Result A × W → Type 0) (table : Bytes) (f : db.Cell → E W A) (w : W)
        → is_in table tables ≡ true
        → At w
        → ((w' : W) → At w' → P (f (v table) w'))
        → P ((latest db table >>= f) w)
    unfolding latest
    reads P table f w is_table (sw, cw) next =
        let (w1, w2, e1, e2, s, c) = rows.selects table w is_table in
        subst P
          (sym (
            bind-ok (latest db table) f w w2 (rows.seen w table)
              (bind-ok _ _ w w1 tt e1 ∙ bind-ok _ _ w1 w2 _ e2)))
          (subst (λ (x : Bytes → db.Cell). P (f (x table) w2)) (sym sw) (next w2 (s ∙ sw, c ∙ cw)))
