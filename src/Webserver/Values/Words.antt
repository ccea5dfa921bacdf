-- ===== src/Webserver/Values/Words.antt =====
-- The values for which the pages have words.
use mathlib.Core.Path.{subst}
use smart_window.Common.{
  ℕ, ◌≡◌, ◌⊎◌, inl, inr, refl, sym, ap, ◌∙◌, Bool, true, false, ◌&&◌, ◌||◌, arith, if◌then◌else◌,
  Option, none, some, some_injective, Bytes, codes,
}
use smart_window.Webserver.{Db, or_raise, alarm_words, priority_words}
use smart_window.Webserver.Exec.{E, Result, ok, raised, continue, pure, ◌>>=◌}

-- There is a value when the test holds, and only then.
abbrev pub Chosen : {A : Type 0} → Bool → Option A → Type 0
Chosen b o = ((b ≡ true) × (a : _) × (o ≡ some a)) ⊎ ((b ≡ false) × (o ≡ none))

three_words :
    {A : Type 0} (x y z : Bool) (a b c : A)
    → Chosen (x || y || z) (if x then some a else if y then some b else if z then some c else none)
three_words true _ _ a b c = inl (refl, a, refl)
three_words false true _ a b c = inl (refl, b, refl)
three_words false false true a b c = inl (refl, c, refl)
three_words false false false a b c = inr (refl, refl)

four_words :
    {A : Type 0} (x y z u : Bool) (a b c d : A)
    → Chosen (x || y || z || u) (
        if x
        then some a
        else if y
        then some b
        else if z
        then some c
        else if u
        then some d
        else none)
four_words true _ _ _ a b c d = inl (refl, a, refl)
four_words false true _ _ a b c d = inl (refl, b, refl)
four_words false false true _ a b c d = inl (refl, c, refl)
four_words false false false true a b c d = inl (refl, d, refl)
four_words false false false false a b c d = inr (refl, refl)

-- The values for which there are words.
module _ {W : Type 0} (db : Db W) where
  abbrev pub is_priority : db.Cell → Bool
  is_priority c = db.equals c 3 || db.equals c 2 || db.equals c 1 || db.equals c 0

  abbrev pub is_alarm : db.Cell → Bool
  is_alarm c = db.equals c 2 || db.equals c 1 || db.equals c 0

  abbrev pub showable : (Bytes → db.Cell) → Bool
  showable v =
      is_priority (v (codes "Priority"))
      && (is_alarm (v (codes "Air_Quality_AlarmState"))
          && (is_alarm (v (codes "Temp_AlarmState"))
              && (is_alarm (v (codes "Humidity_AlarmState"))
                  && (is_alarm (v (codes "Volume_AlarmState"))
                      && is_alarm (v (codes "Wind_AlarmState"))))))

  pub has_alarm_words : (c : db.Cell) → Chosen (is_alarm c) (alarm_words db c)
  unfolding alarm_words
  has_alarm_words c = three_words (db.equals c 2) (db.equals c 1) (db.equals c 0) _ _ _

  pub has_priority_words : (c : db.Cell) → Chosen (is_priority c) (priority_words db c)
  unfolding priority_words
  has_priority_words c =
      four_words (db.equals c 3) (db.equals c 2) (db.equals c 1) (db.equals c 0) _ _ _ _

-- The word and the colour of an alarm state on the page, where `is` compares the value of the table with a
-- number: 2 is an alarm, 1 a warning and 0 in order.
pub data ShowsState (is : ℕ → Bool) (state color : Bytes) : Type 0 where
  as_alarm :
      is 2 ≡ true → state ≡ codes "Alarm" → color ≡ codes "B22222" → ShowsState is state color
  as_warning :
      is 2 ≡ false
      → is 1 ≡ true
      → state ≡ codes "Warning"
      → color ≡ codes "CD6839"
      → ShowsState is state color
  as_fine :
      is 2 ≡ false
      → is 1 ≡ false
      → is 0 ≡ true
      → state ≡ codes "OK"
      → color ≡ codes "7CFC00"
      → ShowsState is state color

-- The words for the priority on the page.
pub data ShowsPriority (is : ℕ → Bool) (words : Bytes) : Type 0 where
  for_all :
      is 3 ≡ true → words ≡ codes "Air Quality, Temperature and Humidity" → ShowsPriority is words
  for_air_quality :
      is 3 ≡ false → is 2 ≡ true → words ≡ codes "Air Quality" → ShowsPriority is words
  for_temperature :
      is 3 ≡ false
      → is 2 ≡ false
      → is 1 ≡ true
      → words ≡ codes "Temperature"
      → ShowsPriority is words
  for_humidity :
      is 3 ≡ false
      → is 2 ≡ false
      → is 1 ≡ false
      → is 0 ≡ true
      → words ≡ codes "Humidity"
      → ShowsPriority is words

shows_state :
    (is : ℕ → Bool) (x y z : Bool) (p : Bytes × Bytes)
    → is 2 ≡ x
    → is 1 ≡ y
    → is 0 ≡ z
    → (if x
        then some (codes "Alarm", codes "B22222")
        else if y
        then some (codes "Warning", codes "CD6839")
        else if z
        then some (codes "OK", codes "7CFC00")
        else none)
      ≡ some p
    → ShowsState is p.0 p.1
shows_state is true y z p e e' e'' h =
    let q = sym (some_injective h) in as_alarm e (ap (λ x. x.0) q) (ap (λ x. x.1) q)
shows_state is false true z p e e' e'' h =
    let q = sym (some_injective h) in as_warning e e' (ap (λ x. x.0) q) (ap (λ x. x.1) q)
shows_state is false false true p e e' e'' h =
    let q = sym (some_injective h) in as_fine e e' e'' (ap (λ x. x.0) q) (ap (λ x. x.1) q)
shows_state is false false false p e e' e'' h = ground arith

shows_priority :
    (is : ℕ → Bool) (x y z u : Bool) (p : Bytes)
    → is 3 ≡ x
    → is 2 ≡ y
    → is 1 ≡ z
    → is 0 ≡ u
    → (if x
        then some (codes "Air Quality, Temperature and Humidity")
        else if y
        then some (codes "Air Quality")
        else if z
        then some (codes "Temperature")
        else if u
        then some (codes "Humidity")
        else none)
      ≡ some p
    → ShowsPriority is p
shows_priority is true y z u p e e' e'' u' h = for_all e (sym (some_injective h))
shows_priority is false true z u p e e' e'' u' h = for_air_quality e e' (sym (some_injective h))
shows_priority is false false true u p e e' e'' u' h =
    for_temperature e e' e'' (sym (some_injective h))
shows_priority is false false false true p e e' e'' u' h =
    for_humidity e e' e'' u' (sym (some_injective h))
shows_priority is false false false false p e e' e'' u' h = ground arith

module _ {W : Type 0} (db : Db W) where
  pub alarm_words-ShowsState :
      (c : db.Cell) (p : Bytes × Bytes)
      → alarm_words db c ≡ some p
      → ShowsState (db.equals c) p.0 p.1
  unfolding alarm_words
  alarm_words-ShowsState c p h =
      shows_state (db.equals c) (db.equals c 2) (db.equals c 1) (db.equals c 0) p refl refl refl h

  pub priority_words-ShowsPriority :
      (c : db.Cell) (p : Bytes) → priority_words db c ≡ some p → ShowsPriority (db.equals c) p
  unfolding priority_words
  priority_words-ShowsPriority c p h =
      shows_priority (db.equals c) (db.equals c 3) (db.equals c 2) (db.equals c 1) (db.equals c 0) p
        refl refl refl refl h

-- A page is given when the test holds, and the call raises otherwise.
abbrev pub Ends : {A : Type 0} → Bool → (A → Type 0) → Result A → Type 0
Ends b Q r = ((b ≡ true) × (a : _) × (r ≡ ok a) × Q a) ⊎ ((b ≡ false) × (r ≡ raised))

module _ {W A B : Type 0} (Q : B → Type 0) where
  pub Ends-or_raise :
      (b rest : Bool) (o : Option A) (f : A → E W B) (w : W)
      → Chosen b o
      → ((a : A) → o ≡ some a → Ends rest Q (f a w).0)
      → Ends (b && rest) Q ((or_raise o >>= f) w).0
  unfolding ◌>>=◌
  Ends-or_raise true rest (some a) f w c next = next a refl
  Ends-or_raise false rest none f w c next = inr (refl, refl)
  Ends-or_raise true rest none f w (inl (_, a, e)) next = ground arith
  Ends-or_raise true rest none f w (inr (e, _)) next = ground arith
  Ends-or_raise false rest (some a) f w (inl (e, _, _)) next = ground arith
  Ends-or_raise false rest (some a) f w (inr (_, e)) next = ground arith

  pub Ends-last :
      (b : Bool) (o : Option A) (f : A → B) (w : W)
      → Chosen b o
      → ((a : A) → o ≡ some a → Q (f a))
      → Ends b Q ((or_raise o >>= λ a. pure (f a)) w).0
  unfolding ◌>>=◌
  Ends-last b none f w (inl (_, a, e)) next = ground arith
  Ends-last b none f w (inr (e, _)) next = inr (e, refl)
  Ends-last b (some a) f w (inl (e, _, _)) next = inl (e, f a, refl, next a refl)
  Ends-last b (some a) f w (inr (_, e)) next = ground arith

-- A page that is wrapped is given when it was.
pub Ends-map :
    {W A B : Type 0} (b : Bool) (Q : A → Type 0) (g : A → B) (r : Result A × W) (m : E W A) (w : W)
    → m w ≡ r
    → Ends b Q r.0
    → Ends b (λ p. (a : _) × (p ≡ g a) × Q a) ((m >>= λ a. pure (g a)) w).0
unfolding ◌>>=◌
Ends-map b Q g (r, w') m w e (inl (t, a, is_ok, q)) =
    subst
      (λ (x : Result _ × _).
        Ends b (λ p. (a : _) × (p ≡ g a) × Q a) (continue x.0 (λ a. pure (g a)) x.1).0)
      (sym (e ∙ ap (λ x. (x, w')) is_ok)) (inl (t, g a, refl, (a, refl, q)))
Ends-map b Q g (r, w') m w e (inr (f, is_raised)) =
    subst
      (λ (x : Result _ × _).
        Ends b (λ p. (a : _) × (p ≡ g a) × Q a) (continue x.0 (λ a. pure (g a)) x.1).0)
      (sym (e ∙ ap (λ x. (x, w')) is_raised)) (inr (f, refl))
