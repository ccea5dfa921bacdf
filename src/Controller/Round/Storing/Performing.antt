-- ===== src/Controller/Round/Storing/Performing.antt =====
-- The rows of the alarm states, performed one by one (RaspberryPi/Window_Controller/main_controller.cpp, lines 474 to 530).
use smart_window.Common.{
  ℕ, ◌≡◌, ◌⊎◌, inl, inr, refl, ap, ◌∙◌, Bool, true, false, ◌&&◌, Bool-cases, some, Bytes, codes,
  str_eq, is_in, List, [], ◌∷◌, ◌++◌, map, All, if◌then◌else◌, arith,
}
use smart_window.Common.Int.{ℤ, leb_ℤ}
use smart_window.Common.Outcome.{M, bind-some}
use smart_window.Controller.Readings.{Readings}
use smart_window.Controller.Alarms.{Alarms, Row, humid_rows}
use smart_window.Controller.Round.{Effect, writes, sends, sleeps, perform}
use smart_window.Controller.Round.Storing.{states, Stores, HumidityStored}
use smart_window.Controller.Round.Storing.Rows.{
  named, range-IsComfort, humid_on, humid_off, IsQuiet, humidity_alarm,
}

module _ {W : Type 0} (get_bool : Bytes → M W Bool) (get_int : Bytes → M W ℤ)
    (write : Row → M W (Unit {0})) (send : Bytes → M W (Unit {0})) (sleep : ℕ → M W (Unit {0}))
    (held : W → Bytes → List Bytes) (free : W → Bytes → Bool)
    (stores : Stores write send sleep held free) where
  abbrev Keeps : W → W → Type 0
  Keeps w w' = (t : Bytes) → is_in t states ≡ true → held w' t ≡ held w t

  -- The effects after the rows.
  quiet :
      (es : List Effect) (w : W)
      → All IsQuiet es
      → (w' : W) × (perform get_bool get_int write send sleep es w ≡ some (tt, w')) × Keeps w w'
  unfolding perform
  quiet [] w q = (w, refl, λ t i. refl)
  quiet (writes row ∷ es) w (q, _) = absurd q
  quiet (sends text ∷ es) w (_, q) =
      let (w₁, e, k) = stores.sends_text text w in
      let (w₂, e', k') = quiet es w₁ q in
      (w₂, bind-some (send text) _ w w₁ tt e ∙ e', λ t i. k' t i ∙ k t i)
  quiet (sleeps n ∷ es) w (_, q) =
      let (w₁, e, k) = stores.sleeps_for n w in
      let (w₂, e', k') = quiet es w₁ q in
      (w₂, bind-some (sleep n) _ w w₁ tt e ∙ e', λ t i. k' t i ∙ k t i)

  -- A row for one table leaves the others.
  abbrev pub Leaves : Bytes → W → W → Type 0
  Leaves table w w' =
      (t : Bytes)
      → is_in t states ≡ true
      → str_eq t table ≡ false
      → (held w' t ≡ held w t) × (free w t ≡ true → free w' t ≡ true)

  pub both_leave :
      (a b : Bytes) (w w₁ w₂ : W)
      → Leaves a w w₁
      → Leaves b w₁ w₂
      → (t : Bytes) → is_in t states ≡ true
      → str_eq t a ≡ false
      → str_eq t b ≡ false
      → (held w₂ t ≡ held w t) × (free w t ≡ true → free w₂ t ≡ true)
  both_leave a b w w₁ w₂ k k' t i n n' =
      ((k' t i n').0 ∙ (k t i n).0, λ g. (k' t i n').1 ((k t i n).1 g))

  pub all_leave :
      (a b c : Bytes) (w w₁ w₂ w₃ : W)
      → Leaves a w w₁
      → Leaves b w₁ w₂
      → Leaves c w₂ w₃
      → (t : Bytes) → is_in t states ≡ true
      → str_eq t a ≡ false
      → str_eq t b ≡ false
      → str_eq t c ≡ false
      → (held w₃ t ≡ held w t) × (free w t ≡ true → free w₃ t ≡ true)
  all_leave a b c w w₁ w₂ w₃ k k' k'' t i n n' n'' =
      let l = both_leave a b w w₁ w₂ k k' t i n n' in
      ((k'' t i n'').0 ∙ l.0, λ g. (k'' t i n'').1 (l.1 g))

  -- A row before other effects, whether its table is free or not.
  pub row_first :
      (t v : Bytes) (w : W)
      → (w' : W) × ((es : List Effect)
          → perform get_bool get_int write send sleep (writes (named t v) ∷ es) w
            ≡ perform get_bool get_int write send sleep es w')
        × (((free w t ≡ true) × (held w' t ≡ v ∷ held w t))
            ⊎ ((free w t ≡ false) × (held w' t ≡ held w t)))
        × (free w t ≡ true → held w' t ≡ v ∷ held w t)
        × Leaves t w w'
  unfolding perform
  row_first t v w =
      let (w', e, h, leaves) = stores.writes_row (named t v) w in
      (
        w',
        λ es. bind-some (write (named t v)) _ w w' tt e,
        h,
        λ f. elim h [ inl x ↦ x.1 | inr x ↦ ground arith ],
        leaves,
      )

  -- The row of the noise, and the rest of the round.
  pub noise_last :
      (v : Bytes) (es : List Effect) (w : W)
      → All IsQuiet es
      → free w (codes "Volume_AlarmState") ≡ true
      → (w' : W) × (perform get_bool get_int write send sleep
            (writes (named (codes "Volume_AlarmState") v) ∷ es)
            w
          ≡ some (tt, w'))
        × (held w' (codes "Volume_AlarmState") ≡ v ∷ held w (codes "Volume_AlarmState"))
        × ((t : Bytes)
            → is_in t states ≡ true
            → str_eq t (codes "Volume_AlarmState") ≡ false
            → held w' t ≡ held w t)
  noise_last v es w q f =
      let (w₁, e, _, took, leaves) = row_first (codes "Volume_AlarmState") v w in
      let (w₂, e', k) = quiet es w₁ q in
      (
        w₂,
        e es ∙ e',
        k (codes "Volume_AlarmState") refl ∙ took f,
        λ t i n. k t i ∙ (leaves t i n).0,
      )

  -- The effects lead to a world of which something holds.
  abbrev pub Reaches : List Effect → W → (W → Type 0) → Type 0
  Reaches es w P = (m : W) × (perform get_bool get_int write send sleep es w ≡ some (tt, m)) × P m

  stops :
      (row : Row) (w w' : W)
      → ((es : List Effect)
          → perform get_bool get_int write send sleep (writes row ∷ es) w
            ≡ perform get_bool get_int write send sleep es w')
      → perform get_bool get_int write send sleep (writes row ∷ []) w ≡ some (tt, w')
  unfolding perform
  stops row w w' e = e []

  -- What the rows of humidity do to their table.
  pub humidity_then :
      (r : Readings) (a : Alarms) (es : List Effect) (w : W)
      → free w (codes "Humidity_AlarmState") ≡ true
      → (w' : W) × (perform get_bool get_int write send sleep (map writes (humid_rows r a) ++ es) w
          ≡ perform get_bool get_int write send sleep es w')
        × HumidityStored r a
            (λ b. Reaches humidity_alarm w (λ m. free m (codes "Humidity_AlarmState") ≡ b))
            (held w (codes "Humidity_AlarmState"))
            (held w' (codes "Humidity_AlarmState"))
        × Leaves (codes "Humidity_AlarmState") w w'
  humidity_then r a es w f = elim (Bool-cases a.humid_alarm) [
    | inr off ↦ (
      w,
      ap (λ rows. perform get_bool get_int write send sleep (map writes rows ++ es) w)
          (humid_off r a off),
      inl (off, refl),
      λ t i n. (refl, λ g. g),
    )
    | inl on ↦
        let b = leb_ℤ r.humid_min r.humid_in && leb_ℤ r.humid_in r.humid_max in
        let v = if b then codes "0" else codes "1" in
        let (w₁, e₁, _, took, leaves₁) = row_first (codes "Humidity_AlarmState") (codes "2") w in
        let (w₂, e₂, second, _, leaves₂) = row_first (codes "Humidity_AlarmState") v w₁ in
        (
          w₂,
          ap (λ rows. perform get_bool get_int write send sleep (map writes rows ++ es) w)
                (humid_on r a b on refl)
              ∙ e₁ (writes (named (codes "Humidity_AlarmState") v) ∷ es)
              ∙ e₂ es,
          inr (
            on,
            elim second [
              | inl x ↦ inr (
                (w₁, stops _ w w₁ e₁, x.0),
                v,
                range-IsComfort r.humid_in r.humid_min r.humid_max b refl,
                x.1 ∙ ap (λ vs. v ∷ vs) (took f),
              )
              | inr x ↦ inl ((w₁, stops _ w w₁ e₁, x.0), x.1 ∙ took f)
            ],
          ),
          λ t i n.
              ((leaves₂ t i n).0 ∙ (leaves₁ t i n).0, λ g. (leaves₂ t i n).1 ((leaves₁ t i n).1 g)),
        )
  ]
