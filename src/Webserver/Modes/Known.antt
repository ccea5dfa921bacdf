-- ===== src/Webserver/Modes/Known.antt =====
-- What is known to the other programs after a page, and after the buttons of the window.
use mathlib.Core.Path.{subst}
use smart_window.Common.{◌≡◌, sym, ap, ◌∙◌, Bool, false, not, Bytes}
use smart_window.Webserver.{Db, latest, insert}
use smart_window.Webserver.Exec.{Result, ◌>>=◌, pure}
use smart_window.Webserver.Pages.{main_page, current_values, describe}
use smart_window.Webserver.Requests.{press_manu, home, home_page, press_window}
use smart_window.Webserver.Modes.{put, auto_modus, Controls, digit, Views, Serves}
use smart_window.Webserver.Modes.Keeping.{
  Keeps, Keeps-then, Keeps-pure, keeps_rules, bind-ok, latest-Keeps,
}
use smart_window.Webserver.Modes.Safety.{
  Fresh, asked_for, ask, read_control, asking, press_window-ok,
}

module _ {W : Type 0} (db : Db W) (views : W → Views) (works : Serves db views) where
  -- A page shows and makes known what the connection sees.
  module _ (c : Controls) where
    abbrev pub Known : W → Type 0
    Known w = ((views w).seen ≡ c) × ((views w).committed ≡ c)

    read : (table : Bytes) → Keeps Known (latest db table)
    read = latest-Keeps db views works λ v. (v.seen ≡ c) × (v.committed ≡ c)

    commit_Known : (w : W) → (views w).seen ≡ c → Known (db.commit w).1
    commit_Known w e =
        let (w', i, v) = works.commits w in
        subst (λ (p : Result _ × W). Known p.1) (sym i)
          (ap (λ x. x.seen) v ∙ e, ap (λ x. x.committed) v ∙ e)

    shown-Known : Keeps Known (current_values db >>= describe db)
    unfolding current_values describe
    shown-Known = search (keeps_rules, read) depth 60 fits 4000

    main_page-Known : (w : W) → (views w).seen ≡ c → Known (main_page db w).1
    unfolding main_page
    main_page-Known w e =
        Keeps-then {P = Known} db.commit (λ _. current_values db >>= describe db) w
          (commit_Known w e) λ _. shown-Known

    pub home_page-Known : (w : W) → (views w).seen ≡ c → Known (home_page db w).1
    unfolding home_page
    home_page-Known w e =
        Keeps-then {P = Known} (main_page db) (λ h. pure (home h)) w (main_page-Known w e)
          λ h. Keeps-pure (home h)

  -- In manual mode, where no table is full, the buttons of the window make known what they ask for.
  pub press_window-Known :
      (open_it : Bool) (w : W)
      → Fresh db views works w
      → (views w).seen.auto ≡ false
      → (views (press_window db (digit open_it) (digit (not open_it)) w).1).committed
        ≡ asked_for open_it (views w).seen
  press_window-Known open_it w fresh manual =
      let (c, w1, e, t, v, fr) = read_control db views works auto_modus w in
      let (w2, e2, v2) = ask db views works open_it w1 (fr fresh) in
      let known = home_page-Known (asked_for open_it (views w1).seen) w2 (ap (λ x. x.seen) v2) in
      ap (λ (p : Result _ × W). (views p.1).committed)
        (press_window-ok db views works open_it w w1 c false e (t ∙ manual)
          ∙ bind-ok (asking db views works open_it) (λ _. home_page db) w1 w2 tt e2)
      ∙ (known.1 ∙ ap (λ x. asked_for open_it x.seen) v)

  -- MANUAL makes known what was asked for before.
  pub press_manu-Known :
      (w : W)
      → works.full auto_modus w ≡ false
      → (views (press_manu db w).1).committed ≡ put auto_modus false (views w).seen
  unfolding press_manu insert
  press_manu-Known w free =
      let (w1, i, v, _) = works.inserts auto_modus false w free in
      let (w2, e, v') = works.commits w1 in
      let c = put auto_modus false (views w).seen in
      let seen_is = ap (λ x. x.seen) v' ∙ ap (λ x. x.seen) v in
      ap (λ (p : Result _ × W). (views p.1).committed)
        (bind-ok _ _ w w1 tt i ∙ bind-ok db.commit (λ _. home_page db) w1 w2 tt e)
      ∙ (home_page-Known c w2 seen_is).1
