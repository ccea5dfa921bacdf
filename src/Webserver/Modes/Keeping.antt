-- ===== src/Webserver/Modes/Keeping.antt =====
-- What a request keeps of the buttons' tables.
use mathlib.Core.Path.{subst}
use smart_window.Common.{◌≡◌, refl, sym, ap, ◌∙◌, Option, none, some, Bytes}
use smart_window.Webserver.{Db, latest, or_raise}
use smart_window.Webserver.Exec.{E, Result, ok, raised, continue, ◌>>=◌, pure}
use smart_window.Webserver.Modes.{Views, Serves}

-- `m` keeps `P`, whether it returns or raises.
pub record Keeps {W A : Type 0} (P : W → Type 0) (m : E W A) : Type 0 where
  pub at : (w : W) → P w → P (m w).1

module _ {W A : Type 0} {P : W → Type 0} where
  pub Keeps-pure : (a : A) → Keeps P (pure a)
  Keeps-pure a = record { at = λ w h. h }

  pub Keeps-or_raise : (o : Option A) → Keeps P (or_raise o)
  Keeps-or_raise none = record { at = λ w h. h }
  Keeps-or_raise (some a) = record { at = λ w h. h }

module _ {W A B : Type 0} {P : W → Type 0} where
  Keeps-continue :
      (r : Result A) (f : A → E W B) (w : W)
      → ((a : A) → Keeps P (f a))
      → P w
      → P (continue r f w).1
  Keeps-continue (ok a) f w k h = (k a).at w h
  Keeps-continue raised f w k h = h

  -- What holds after `m` is kept by the calls that follow.
  pub Keeps-then :
      (m : E W A) (f : A → E W B) (w : W)
      → P (m w).1
      → ((a : A) → Keeps P (f a))
      → P ((m >>= f) w).1
  unfolding ◌>>=◌
  Keeps-then m f w h kf = let (r, w') = m w in Keeps-continue r f w' kf h

  pub Keeps-bind :
      (m : E W A) (f : A → E W B) → Keeps P m → ((a : A) → Keeps P (f a)) → Keeps P (m >>= f)
  Keeps-bind m f km kf = record { at = λ w h. Keeps-then m f w (km.at w h) kf }

-- A value that may be missing, and the calls that follow.
pub Keeps-field :
    {W A B : Type 0} {P : W → Type 0} (o : Option A) (f : A → E W B)
    → ((a : A) → o ≡ some a → Keeps P (f a))
    → Keeps P (or_raise o >>= f)
unfolding ◌>>=◌
Keeps-field none f k = record { at = λ w h. h }
Keeps-field (some a) f k = record { at = λ w h. (k a refl).at w h }

pub ruleset keeps_rules = (Keeps-pure, Keeps-or_raise, Keeps-bind)

-- A call that returns goes on with what follows it.
pub bind-ok :
    {W A B : Type 0} (m : E W A) (f : A → E W B) (w w' : W) (a : A)
    → m w ≡ (ok a, w')
    → (m >>= f) w ≡ f a w'
unfolding ◌>>=◌
bind-ok m f w w' a e = ap (λ (p : Result _ × _). continue p.0 f p.1) e

-- A call that raises ends what follows it.
pub bind-raised :
    {W A B : Type 0} (m : E W A) (f : A → E W B) (w : W)
    → (m w).0 ≡ raised
    → (m >>= f) w ≡ (raised, (m w).1)
unfolding ◌>>=◌
bind-raised m f w e = ap (λ r. continue r f (m w).1) e

module _ {W : Type 0} (db : Db W) (views : W → Views) (works : Serves db views)
    (P : Views → Type 0) where
  pub latest-Keeps : (table : Bytes) → Keeps (λ w. P (views w)) (latest db table)
  unfolding latest
  latest-Keeps table =
      Keeps-bind _ _ (record { at = λ w h. subst P (sym (works.select_keeps table w)) h })
        λ _.
          Keeps-bind _ _ (record { at = λ w h. subst P (sym (works.fetch_keeps w)) h })
            Keeps-or_raise

  pub commit-Keeps :
      ((v : Views) → P v → P (record { seen = v.seen; committed = v.seen }))
      → Keeps (λ w. P (views w)) db.commit
  commit-Keeps k = record {
    at = λ w h.
        let (w', e, v) = works.commits w in
        subst P (sym (ap (λ (p : Result (Unit {0}) × W). views p.1) e ∙ v)) (k (views w) h);
  }
