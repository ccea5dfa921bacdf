-- ===== src/Webserver/Values/Writing.antt =====
-- Rows that are written one after the other and committed.
use mathlib.Core.Path.{subst}
use smart_window.Common.{
  is_in, ◌≡◌, refl, sym, ap, ◌∙◌, Bool, true, false, ◌||◌, arith, if◌then◌else◌, Bytes, str_eq,
  List, [], ◌∷◌,
}
use smart_window.Webserver.{Db, insert}
use smart_window.Webserver.Exec.{E, Result, ok, ◌>>=◌}
use smart_window.Webserver.Values.{Rows}
use smart_window.Webserver.Modes.Keeping.{bind-ok}

if_true : (b r d : Bool) → (b || r) ≡ true → (r ≡ true → d ≡ true) → (if b then true else d) ≡ true
if_true true r d h k = refl
if_true false r d h k = k h

or_false : (b r : Bool) → (b || r) ≡ false → (b ≡ false) × (r ≡ false)
or_false true r h = ground arith
or_false false r h = (refl, h)

module _ {W : Type 0} (db : Db W) (rows : Rows db) where
  -- What the connection sees after a value is written to `table`.
  abbrev pub written : (Bytes → db.Cell) → Bytes → Bytes → Bytes → db.Cell
  written f table value t = if str_eq t table then rows.cell value else f t

  -- The rows `used` are not committed, and no other table is full.
  pub record Writing (f : Bytes → db.Cell) (used : List Bytes) (w : W) : Type 0 where
    pub sees : (t : Bytes) → rows.seen w t ≡ f t
    pub is_dirty : (t : Bytes) → is_in t used ≡ true → rows.dirty w t ≡ true
    pub free : (t : Bytes) → is_in t used ≡ false → rows.full w t ≡ false

  pub start : (w : W) → ((t : Bytes) → rows.full w t ≡ false) → Writing (rows.seen w) [] w
  start w fresh = record {
    sees = λ t. refl;
    is_dirty = λ t no_table. ap (λ b. b || rows.dirty w t) no_table;
    free = λ t _. fresh t;
  }

  pub commit_Writing :
      (f : Bytes → db.Cell) (used : List Bytes) (w : W)
      → Writing f used w
      → (w' : W) × (db.commit w ≡ (ok tt, w'))
        × ((t : Bytes) → is_in t used ≡ true → rows.seen w' t ≡ f t)
        × ((t : Bytes) → rows.committed w' t ≡ rows.seen w' t)
  commit_Writing f used w h =
      let (w', e, s, c) = rows.commits w in
      let sees : (t : Bytes) → is_in t used ≡ true → rows.seen w' t ≡ f t = λ t i.
        s t
        ∙ (ap (λ b. if b then rows.seen w t else rows.committed w t) (h.is_dirty t i) ∙ h.sees t) in
      (w', e, sees, c)

  -- A value that is taken, and the calls that follow.
  pub writes :
      {A : Type 0} (P : Result A × W → Type 0) (f : Bytes → db.Cell) (used : List Bytes)
      (table value : Bytes) (m : E W A) (w : W)
      → rows.takes table value ≡ true
      → is_in table used ≡ false
      → Writing f used w
      → ((w' : W) → Writing (written f table value) (table ∷ used) w' → P (m w'))
      → P ((insert db table value >>= λ _. m) w)
  unfolding insert
  writes P f used table value m w taken fresh h next =
      let (w', e, s, d, fr) = rows.inserts table value w taken (h.free table fresh) in
      subst P (sym (bind-ok _ (λ _. m) w w' tt e)) (
        next w' (record {
          sees = λ t. s t ∙ ap (λ x. if str_eq t table then rows.cell value else x) (h.sees t);
          is_dirty = λ t i.
              d t ∙ if_true (str_eq t table) (is_in t used) (rows.dirty w t) i (h.is_dirty t);
          free = λ t i.
              let (other, not_used) = or_false (str_eq t table) (is_in t used) i in
              fr t other (h.free t not_used);
        }))
