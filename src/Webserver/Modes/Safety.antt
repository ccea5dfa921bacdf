-- ===== src/Webserver/Modes/Safety.antt =====
-- No request asks for opening and closing at once.
use mathlib.Core.Path.{subst}
use smart_window.Common.{
  ◌≡◌, inl, inr, refl, sym, ap, ◌∙◌, Bool, true, false, not, ◌&&◌, if◌then◌else◌, Bool-cases, some,
  Bytes,
}
use smart_window.Webserver.{Db, latest, insert, insert_text}
use smart_window.Webserver.Exec.{E, Result, ok, ◌>>=◌, ◌>>◌, pure}
use smart_window.Webserver.Pages.{main_page, current_values, describe, limits_text}
use smart_window.Webserver.Requests.{home_page, limits_page, press_auto, press_manu, press_window}
use smart_window.Webserver.Modes.{
  Control, auto_modus, man_open, man_close, same, Controls, name, digit, get, put, Views, Serves,
  IsConsistent,
}
use smart_window.Webserver.Modes.Keeping.{Keeps, keeps_rules, bind-ok, latest-Keeps, commit-Keeps}

-- What the connection sees is consistent, and so is what the other programs read.
pub record AreConsistent (v : Views) : Type 0 where
  pub seen : IsConsistent v.seen
  pub committed : IsConsistent v.committed

-- What the two buttons of the window make of the tables.
abbrev pub asked_for : Bool → Controls → Controls
asked_for open_it c = put man_close (not open_it) (put man_open open_it c)

asked_one : (open_it : Bool) (c : Controls) → c.auto ≡ false → IsConsistent (asked_for open_it c)
asked_one true c manual = record { exclusive = refl; idle = ap (λ b. b && true) manual }
asked_one false c manual = record { exclusive = refl; idle = ap (λ b. b && true) manual }

module _ {W : Type 0} (db : Db W) (views : W → Views) (works : Serves db views) where
  abbrev Inv : W → Type 0
  Inv w = AreConsistent (views w)

  read : (table : Bytes) → Keeps Inv (latest db table)
  read = latest-Keeps db views works AreConsistent

  pub commit_Keeps : Keeps Inv db.commit
  commit_Keeps =
      commit-Keeps db views works AreConsistent λ v h. record { seen = h.seen; committed = h.seen }

  pub home_page-Keeps : Keeps Inv (home_page db)
  unfolding home_page main_page current_values describe
  home_page-Keeps = search (keeps_rules, commit_Keeps, read) depth 60 fits 4000

  pub limits_page-Keeps : Keeps Inv (limits_page db)
  unfolding limits_page limits_text
  limits_page-Keeps = search (keeps_rules, read) depth 60 fits 4000

  abbrev pub Fresh : W → Type 0
  Fresh w = (k : Control) → works.full k w ≡ false

  -- A value that is taken, and the calls that follow.
  inserted :
      {A : Type 0} (k : Control) (b : Bool) (w : W) (c : Controls) (m : E W A)
      → works.full k w ≡ false
      → (views w).seen ≡ c
      → ((w' : W)
          → (views w').seen ≡ put k b c
          → ((k' : Control)
              → same k k' ≡ false
              → works.full k' w ≡ false
              → works.full k' w' ≡ false)
          → Inv (m w').1)
      → Inv ((insert db (name k) (digit b) >>= λ _. m) w).1
  unfolding insert
  inserted k b w c m free e next =
      let (w', i, v, frees) = works.inserts k b w free in
      subst (λ (p : Result _ × W). Inv p.1)
        (sym (bind-ok (db.execute (insert_text (name k) (digit b))) (λ _. m) w w' tt i))
        (next w' (ap (λ x. x.seen) v ∙ ap (put k b) e) frees)

  -- Consistent values are committed, and then a page is given.
  published :
      {A : Type 0} (w : W) (c : Controls) (m : E W A)
      → (views w).seen ≡ c
      → IsConsistent c
      → Keeps Inv m
      → Inv ((db.commit >>= λ _. m) w).1
  published w c m e ok_now km =
      let (w', i, v) = works.commits w in
      let now = subst IsConsistent (sym e) ok_now in
      subst (λ (p : Result _ × W). Inv p.1) (sym (bind-ok db.commit (λ _. m) w w' tt i))
        (km.at w' (subst AreConsistent (sym v) (record { seen = now; committed = now })))

  pub press_auto-Keeps : (w : W) → Fresh w → Inv w → Inv (press_auto db w).1
  unfolding press_auto
  press_auto-Keeps w fresh h = inserted auto_modus true w _ _ (fresh auto_modus) refl λ w1 e1 f1.
      inserted man_open false w1 _ _ (f1 man_open refl (fresh man_open)) e1 λ w2 e2 f2.
        inserted man_close false w2 _ _ (f2 man_close refl (f1 man_close refl (fresh man_close))) e2
          λ w3 e3 f3.
            published w3 _ (home_page db) e3 (record { exclusive = refl; idle = refl })
              home_page-Keeps

  pub press_manu-Keeps : (w : W) → Fresh w → Inv w → Inv (press_manu db w).1
  unfolding press_manu
  press_manu-Keeps w fresh h = inserted auto_modus false w _ _ (fresh auto_modus) refl λ w1 e1 f1.
      published w1 _ (home_page db) e1 (record { exclusive = h.seen.exclusive; idle = refl })
        home_page-Keeps

  abbrev pub asking : Bool → E W (Unit {0})
  asking open_it = do
    insert db (name man_open) (digit open_it)
    insert db (name man_close) (digit (not open_it))
    db.commit

  -- What is asked for in manual mode: one of the two.
  pub ask :
      (open_it : Bool) (w : W)
      → Fresh w
      → let c = asked_for open_it (views w).seen in
        (w' : W) × (asking open_it w ≡ (ok tt, w'))
        × (views w' ≡ record { seen = c; committed = c })
  unfolding insert
  ask open_it w fresh =
      let (w1, i1, v1, f1) = works.inserts man_open open_it w (fresh man_open) in
      let (w2, i2, v2, f2) =
        works.inserts man_close (not open_it) w1 (f1 man_close refl (fresh man_close)) in
      let (w3, i3, v3) = works.commits w2 in
      let seen_is =
        ap (λ (x : Views). x.seen) v2 ∙ ap (λ (x : Views). put man_close (not open_it) x.seen) v1 in
      (
        w3,
        bind-ok _ _ w w1 tt i1 ∙ (bind-ok _ _ w1 w2 tt i2 ∙ i3),
        v3 ∙ ap (λ c. record { seen = c; committed = c }) seen_is,
      )

  -- The value that a query for a button's table gives.
  pub read_control :
      (k : Control) (w : W)
      → (c : db.Cell) × (w' : W) × (latest db (name k) w ≡ (ok c, w'))
        × (db.truthy c ≡ get k (views w).seen)
        × (views w' ≡ views w)
        × (Fresh w → Fresh w')
  unfolding latest
  read_control k w =
      let (c, w1, w2, e1, e2, t, fr) = works.selects k w in
      (
        c,
        w2,
        bind-ok _ _ w w1 tt e1 ∙ bind-ok _ _ w1 w2 (some c) e2,
        t,
        ap (λ (p : Result _ × W). views p.1) (sym e2)
            ∙ (works.fetch_keeps w1
                ∙ (ap (λ (p : Result _ × W). views p.1) (sym e1) ∙ works.select_keeps (name k) w)),
        λ fresh k'. fr k' (fresh k'),
      )

  -- What the two buttons do once the mode is known.
  pub press_window-ok :
      (open_it : Bool) (w w' : W) (c : db.Cell) (is_auto : Bool)
      → latest db (name auto_modus) w ≡ (ok c, w')
      → db.truthy c ≡ is_auto
      → press_window db (digit open_it) (digit (not open_it)) w
        ≡ ((if is_auto then pure tt else asking open_it) >>= λ _. home_page db) w'
  unfolding press_window
  press_window-ok open_it w w' c is_auto e t =
      bind-ok (latest db (name auto_modus)) _ w w' c e
      ∙ ap (λ b. ((if b then pure tt else asking open_it) >>= λ _. home_page db) w') t

  pub press_window-Keeps :
      (open_it : Bool) (w : W)
      → Fresh w
      → Inv w
      → Inv (press_window db (digit open_it) (digit (not open_it)) w).1
  press_window-Keeps open_it w fresh h =
      let (c, w', e, t, v, fr) = read_control auto_modus w in
      let h' = subst AreConsistent (sym v) h in
      elim (Bool-cases (db.truthy c)) [
        | inl is_auto ↦
            subst (λ (p : Result _ × W). Inv p.1)
              (sym (
                press_window-ok open_it w w' c true e is_auto
                ∙ bind-ok (pure tt) (λ _. home_page db) w' w' tt refl))
              (home_page-Keeps.at w' h')
        | inr is_manual ↦
            let (w2, e2, v2) = ask open_it w' (fr fresh) in
            let manual = ap (λ x. x.seen.auto) v ∙ (sym t ∙ is_manual) in
            let now = asked_one open_it (views w').seen manual in
            let h2 = subst AreConsistent (sym v2) (record { seen = now; committed = now }) in
            subst (λ (p : Result _ × W). Inv p.1)
              (sym (
                press_window-ok open_it w w' c false e is_manual
                ∙ bind-ok (asking open_it) (λ _. home_page db) w' w2 tt e2))
              (home_page-Keeps.at w2 h2)
      ]
