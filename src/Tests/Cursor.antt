-- ===== src/Tests/Cursor.antt =====
-- A database behind a connection, as an example: the latest values of the tables, and the texts of the queries taken apart.
use smart_window.Common.{
  ℕ, ◌≡◌, refl, ap, ◌∙◌, Bool, true, false, not, ◌||◌, if◌then◌else◌, Option, none, some, Bytes,
  codes, [], ◌∷◌, str_eq, ◌==◌, ◌+◌, ◌*◌, ◌-◌,
}
use smart_window.Webserver.{Db, select_text, insert_text}
use smart_window.Webserver.Exec.{Result, ok, raised}
use smart_window.Webserver.Modes.{
  Control, auto_modus, man_open, man_close, name, digit, get, put, Controls, Views, Serves, same,
}

-- The row that the next `fetchone` gives is `row`.
pub record World : Type 0 where
  pub seen : Bytes → ℕ
  pub known : Bytes → ℕ
  pub dirty : Bytes → Bool
  pub full : Bytes → Bool
  pub row : Option ℕ

abbrev pub number_from : ℕ → Bytes → ℕ
number_from n [] = n
number_from n (c ∷ s) = number_from (10 * n + (c - 48)) s

-- What follows a prefix.
abbrev pub strip : Bytes → Bytes → Option Bytes
strip [] s = some s
strip (c ∷ p) [] = none
strip (c ∷ p) (d ∷ s) = if c == d then strip p s else none

-- The text up to a byte.
abbrev pub up_to : ℕ → Bytes → Bytes
up_to c [] = []
up_to c (d ∷ s) = if c == d then [] else d ∷ up_to c s

abbrev pub after : ℕ → Bytes → Bytes
after c [] = []
after c (d ∷ s) = if c == d then s else after c s

abbrev pub set : {A : Type 0} → Bytes → A → (Bytes → A) → Bytes → A
set table a f t = if str_eq t table then a else f t

abbrev pub add_row : Bool → Bytes → ℕ → World → Result (Unit {0}) × World
add_row true table n w = (raised, w)
add_row false table n w = (
  ok tt,
  record w {
    seen = set table n w.seen;
    dirty = set table true w.dirty;
    full = set table true w.full;
  },
)

-- The value is between the two brackets.
abbrev insert_row : Bytes → World → Result (Unit {0}) × World
insert_row text w =
    let table = up_to b'(' text in
    add_row (w.full table) table
      (number_from 0 (up_to b')' (after b' ' (after b'(' (after b'(' text))))) w

abbrev run_text : Option Bytes → Option Bytes → World → Result (Unit {0}) × World
run_text (some text) _ w = insert_row text w
run_text none (some text) w = (ok tt, record w { row = some (w.seen (up_to b' ' text)) })
run_text none none w = (raised, w)

-- With `alone`, no other program writes.
abbrev pub example_db : Bool → Db World
example_db alone = record {
  Cell = ℕ;
  execute =
      λ text. run_text (strip (codes "INSERT INTO ") text) (strip (codes "SELECT Wert FROM ") text);
  fetchone = λ w. (ok w.row, record w { row = none });
  commit = λ w.
      let now = λ (t : Bytes). if alone || w.dirty t then w.seen t else w.known t in
      (ok tt, record w { seen = now; known = now; dirty = λ t. false });
  truthy = λ n. not (n == 0);
  equals = λ n m. n == m;
}

abbrev pub controls_of : (Bytes → ℕ) → Controls
controls_of f = record {
  auto = not (f (codes "AutoModus") == 0);
  open_asked = not (f (codes "ManOpen") == 0);
  close_asked = not (f (codes "ManClose") == 0);
}

abbrev pub example_views : World → Views
example_views w = record { seen = controls_of w.seen; committed = controls_of w.known }

test_insert :
    (w : World)
    → (example_db true).execute (insert_text (codes "ManOpen") (codes "1")) w
      ≡ add_row (w.full (codes "ManOpen")) (codes "ManOpen") 1 w
test_insert w = refl

pub inserts_control :
    (k : Control) (b : Bool) (w : World)
    → (example_db true).execute (insert_text (name k) (digit b)) w
      ≡ add_row (w.full (name k)) (name k) (if b then 1 else 0) w
inserts_control auto_modus true w = refl
inserts_control auto_modus false w = refl
inserts_control man_open true w = refl
inserts_control man_open false w = refl
inserts_control man_close true w = refl
inserts_control man_close false w = refl

pub put_control :
    (k : Control) (b : Bool) (w : World)
    → controls_of (set (name k) (if b then 1 else 0) w.seen) ≡ put k b (controls_of w.seen)
put_control auto_modus true w = refl
put_control auto_modus false w = refl
put_control man_open true w = refl
put_control man_open false w = refl
put_control man_close true w = refl
put_control man_close false w = refl

pub name-same : (k k' : Control) → str_eq (name k') (name k) ≡ same k k'
name-same auto_modus auto_modus = refl
name-same auto_modus man_open = refl
name-same auto_modus man_close = refl
name-same man_open auto_modus = refl
name-same man_open man_open = refl
name-same man_open man_close = refl
name-same man_close auto_modus = refl
name-same man_close man_open = refl
name-same man_close man_close = refl

pub add_row_other :
    (table : Bytes) (n : ℕ) (w : World) (b : Bool)
    → controls_of (set table n w.seen) ≡ controls_of w.seen
    → example_views (add_row b table n w).1 ≡ example_views w
add_row_other table n w true e = refl
add_row_other table n w false e = ap (λ c. record { seen = c; committed = controls_of w.known }) e

pub selects_control :
    (k : Control) (w : World)
    → (example_db true).execute (select_text (name k)) w
      ≡ (ok tt, record w { row = some (w.seen (name k)) })
selects_control auto_modus w = refl
selects_control man_open w = refl
selects_control man_close w = refl

pub truthy_control :
    (k : Control) (w : World)
    → (example_db true).truthy (w.seen (name k)) ≡ get k (controls_of w.seen)
truthy_control auto_modus w = refl
truthy_control man_open w = refl
truthy_control man_close w = refl

abbrev pub example_db-Serves : Serves (example_db true) example_views
example_db-Serves = record {
  full = λ k w. w.full (name k);
  select_keeps = λ table w. refl;
  fetch_keeps = λ w. refl;
  limit_keeps = (
    λ v w h. add_row_other _ _ w _ refl,
    (
      λ v w h. add_row_other _ _ w _ refl,
      (
        λ v w h. add_row_other _ _ w _ refl,
        (
          λ v w h. add_row_other _ _ w _ refl,
          (
            λ v w h. add_row_other _ _ w _ refl,
            (
              λ v w h. add_row_other _ _ w _ refl,
              (
                λ v w h. add_row_other _ _ w _ refl,
                (λ v w h. add_row_other _ _ w _ refl, (λ v w h. add_row_other _ _ w _ refl, tt)),
              ),
            ),
          ),
        ),
      ),
    ),
  );
  selects =
      λ k w. (w.seen (name k), _, _, selects_control k w, refl, truthy_control k w, λ k' h. h);
  inserts = λ k b w free. (
    _,
    inserts_control k b w ∙ ap (λ f. add_row f (name k) (if b then 1 else 0) w) free,
    ap (λ c. record { seen = c; committed = controls_of w.known }) (put_control k b w),
    λ k' other h. ap (λ x. if x then true else w.full (name k')) (name-same k k' ∙ other) ∙ h,
  );
  refuses = λ k b w is_full. (
    w,
    inserts_control k b w ∙ ap (λ f. add_row f (name k) (if b then 1 else 0) w) is_full,
    refl,
  );
  commits = λ w. (_, refl, refl);
}
