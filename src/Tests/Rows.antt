-- ===== src/Tests/Rows.antt =====
-- The values of the tables behind the connection of the example.
use smart_window.Common.{
  is_in, ℕ, ◌≡◌, refl, ap, ◌∙◌, Bool, true, false, not, ◌&&◌, ◌||◌, if◌then◌else◌, some, Bytes,
  codes, List, [], ◌∷◌, ◌++◌, str_eq, str_eq_sound, ◌==◌, Bool-cases, inl, inr, arith,
}
use smart_window.Webserver.{select_text, insert_text}
use smart_window.Webserver.Exec.{ok}
use smart_window.Webserver.Values.{tables, Rows}
use smart_window.Tests.Cursor.{World, example_db, number_from, up_to, after, add_row}

abbrev pub lacks : ℕ → Bytes → Bool
lacks c [] = true
lacks c (d ∷ s) = not (c == d) && lacks c s

pub up_to-append : (c : ℕ) (s rest : Bytes) → lacks c s ≡ true → up_to c (s ++ c ∷ rest) ≡ s
up_to-append c [] rest h = ground arith
up_to-append c (d ∷ s) rest h = ground (arith, up_to-append c s rest)

after-append : (c : ℕ) (s rest : Bytes) → lacks c s ≡ true → after c (s ++ c ∷ rest) ≡ rest
after-append c [] rest h = ground arith
after-append c (d ∷ s) rest h = ground (arith, after-append c s rest)

abbrev pub all_pass : (Bytes → Bool) → List Bytes → Bool
all_pass test [] = true
all_pass test (t ∷ ts) = test t && all_pass test ts

and_left : (a b : Bool) → (a && b) ≡ true → a ≡ true
and_left a b h = ground arith

and_right : (a b : Bool) → (a && b) ≡ true → b ≡ true
and_right a b h = ground arith

or_right : (a b : Bool) → a ≡ false → (a || b) ≡ true → b ≡ true
or_right a b e h = ground arith

-- What holds for all of a list, by a test.
pub passes :
    (test : Bytes → Bool) (table : Bytes) (ts : List Bytes)
    → all_pass test ts ≡ true
    → is_in table ts ≡ true
    → test table ≡ true
passes test table [] h i = ground arith
passes test table (t ∷ ts) h i = elim (Bool-cases (str_eq table t)) [
  | inl same ↦ ap test (str_eq_sound table t same) ∙ and_left (test t) (all_pass test ts) h
  | inr other ↦
      passes test table ts (and_right (test t) (all_pass test ts) h)
        (or_right (str_eq table t) (is_in table ts) other i)
]

pub inserts_any :
    (table value : Bytes) (w : World)
    → (lacks b'(' table && lacks b')' value) ≡ true
    → (example_db false).execute (insert_text table value) w
      ≡ add_row (w.full table) table (number_from 0 value) w
inserts_any table value w h =
    let in_table = and_left (lacks b'(' table) (lacks b')' value) h in
    let in_value = and_right (lacks b'(' table) (lacks b')' value) h in
    let rest = codes "Zeitstempel, Wert) VALUES (current_timestamp, " ++ (value ++ codes ")") in
    let first = after b'(' (table ++ b'(' ∷ rest) in
    ap (λ t. add_row (w.full t) t (number_from 0 (up_to b')' (after b' ' (after b'(' first)))) w)
      (up_to-append b'(' table rest in_table)
    ∙ (ap
          (λ s.
            add_row (w.full table) table (number_from 0 (up_to b')' (after b' ' (after b'(' s)))) w)
          (after-append b'(' table rest in_table)
        ∙ ap (λ v. add_row (w.full table) table (number_from 0 v) w)
            (up_to-append b')' value [] in_value))

pub selects_any :
    (table : Bytes) (w : World)
    → lacks b' ' table ≡ true
    → (example_db false).execute (select_text table) w
      ≡ (ok tt, record w { row = some (w.seen table) })
selects_any table w h =
    ap (λ t. (ok tt, record w { row = some (w.seen t) })) (up_to-append b' ' table _ h)

abbrev pub example_db-Rows : Rows (example_db false)
example_db-Rows = record {
  cell = number_from 0;
  takes = λ table value. lacks b'(' table && lacks b')' value;
  seen = λ w. w.seen;
  committed = λ w. w.known;
  dirty = λ w. w.dirty;
  full = λ w. w.full;
  selects = λ table w i.
      (_, _, selects_any table w (passes (lacks b' ') table tables refl i), refl, refl, refl);
  inserts = λ table value w taken free. (
    _,
    inserts_any table value w taken ∙ ap (λ f. add_row f table (number_from 0 value) w) free,
    λ t. refl,
    λ t. refl,
    λ t other h. ap (λ x. if x then true else w.full t) other ∙ h,
  );
  commits = λ w. (_, refl, λ t. refl, λ t. refl);
}
