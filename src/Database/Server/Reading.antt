-- ===== src/Database/Server/Reading.antt =====
-- Reading a table.
use smart_window.Common.{
  ℕ, suc, ◌+◌, ◌≤◌, ◌<◌, ◌≡◌, ap, ◌∙◌, Bool, true, false, not, none, some, Bytes, codes, List, [],
  ◌∷◌, ◌++◌, length, length-append, arith,
}
use smart_window.Messages.{Pointer}
use smart_window.Database.Queries.{max_id_query, value_query, strcat}
use smart_window.Database.Access.{
  MySql, Floats, connect, check_error, last_of, last_cell, ask, find_latest, close_session,
  get_latest_value_int, get_latest_value_bool, get_latest_value_double,
}
use smart_window.Database.Server.{IsFine, Connects, HasTable, max_cell}

strcat-some : (buf s : Bytes) → length buf + length s < 255 → strcat buf s ≡ some (buf ++ s)
unfolding strcat
strcat-some buf s h = ground (arith, length-append buf s)

pub max_id_query-fits :
    (table : Bytes)
    → length table < 200
    → max_id_query table ≡ some (codes "SELECT MAX(id) AS id FROM " ++ table)
unfolding max_id_query
max_id_query-fits table h = strcat-some (codes "SELECT MAX(id) AS id FROM ") table (omega arith)

max_id_query-some :
    (table : Bytes) → length table < 200 → (text : Bytes) × (max_id_query table ≡ some text)
max_id_query-some table h = (_, max_id_query-fits table h)

value_query_lem :
    (table id a b c : Bytes)
    → strcat (codes "SELECT Wert FROM ") table ≡ some a
    → strcat a (codes " WHERE ID=") ≡ some b
    → strcat b id ≡ some c
    → value_query table id ≡ some c
unfolding value_query
value_query_lem table id a b c e e' e'' = ground arith

pub value_query-fits :
    (table id : Bytes)
    → length table < 200
    → length id ≤ 20
    → value_query table id
      ≡ some (((codes "SELECT Wert FROM " ++ table) ++ codes " WHERE ID=") ++ id)
value_query-fits table id h h' =
    let a = strcat-some (codes "SELECT Wert FROM ") table (omega arith) in
    let b =
      strcat-some (codes "SELECT Wert FROM " ++ table) (codes " WHERE ID=")
        (omega (arith, length-append {0} (codes "SELECT Wert FROM ") table)) in
    let c = strcat-some ((codes "SELECT Wert FROM " ++ table) ++ codes " WHERE ID=") id (
      omega (
        arith,
        length-append {0} (codes "SELECT Wert FROM ") table,
        length-append {0} (codes "SELECT Wert FROM " ++ table) (codes " WHERE ID="),
      )) in
    value_query_lem table id _ _ _ a b c

value_query-some :
    (table id : Bytes)
    → length table < 200
    → length id ≤ 20
    → (text : Bytes) × (value_query table id ≡ some text)
value_query-some table id h h' = (_, value_query-fits table id h h')

module _ {W : Type 0} (lib : MySql W) (sessions : W → ℕ) {C : Type 0} (column : W → C)
    (works : Connects lib sessions column) where
  pub check_error-false : (w : W) → IsFine lib w → check_error lib w ≡ some (false, w)
  unfolding check_error
  check_error-false w fine = ground arith

  connect_lem :
      (w w₁ w₂ : W)
      → lib.mysql_init w ≡ some (tt, w₁)
      → lib.mysql_real_connect w₁ ≡ some (true, w₂)
      → check_error lib w₁ ≡ some (false, w₁)
      → connect lib w ≡ some (tt, w₂)
  unfolding connect
  connect_lem w w₁ w₂ i c e = ground arith

  pub connect-some :
      (w : W)
      → (w' : W) × (connect lib w ≡ some (tt, w'))
        × IsFine lib w'
        × (sessions w' ≡ suc (sessions w))
        × (column w' ≡ column w)
  connect-some w =
      let (w₁, i, f₁, s₁, t₁) = works.inits w in
      let (w₂, c, f₂, s₂, t₂) = works.connects w₁ in
      (w₂, connect_lem w w₁ w₂ i c (check_error-false w₁ f₁), f₂, s₂ ∙ ap suc s₁, t₂ ∙ t₁)

  -- A query whose result has one row with one cell.
  ask-some :
      (checked : Bool) (text : Bytes) (w w₁ w₂ : W) (cell : Pointer)
      → lib.mysql_real_query text w ≡ some (tt, w₁)
      → lib.mysql_store_result w₁ ≡ some (some ((cell ∷ []) ∷ []), w₂)
      → check_error lib w₂ ≡ some (false, w₂)
      → ask lib checked text w ≡ some (some cell, w₂)
  unfolding ask last_cell last_of
  ask-some checked text w w₁ w₂ cell q r e = ground arith

  find_lem :
      (double : Bool) (db table first second id v : Bytes) (w w₁ w₂ w₃ w₄ w₅ : W)
      → connect lib w ≡ some (tt, w₁)
      → check_error lib w₁ ≡ some (false, w₁)
      → lib.mysql_select_db db w₁ ≡ some (0, w₂)
      → max_id_query table ≡ some first
      → ask lib true first w₂ ≡ some (some (some id), w₃)
      → value_query table id ≡ some second
      → ask lib (not double) second w₃ ≡ some (some (some v), w₄)
      → close_session lib w₄ ≡ some (tt, w₅)
      → find_latest lib double db table w ≡ some (some v, w₅)
  unfolding find_latest
  find_lem double db table first second id v w w₁ w₂ w₃ w₄ w₅ c e s q a q' a' z = ground arith

  find_null_lem :
      (double : Bool) (db table first : Bytes) (w w₁ w₂ w₃ : W)
      → connect lib w ≡ some (tt, w₁)
      → check_error lib w₁ ≡ some (false, w₁)
      → lib.mysql_select_db db w₁ ≡ some (0, w₂)
      → max_id_query table ≡ some first
      → ask lib true first w₂ ≡ some (some none, w₃)
      → find_latest lib double db table w ≡ none
  unfolding find_latest
  find_null_lem double db table first w w₁ w₂ w₃ c e s q a = ground arith

  pub close-some :
      (w w' : W) → lib.mysql_close w ≡ some (tt, w') → close_session lib w ≡ some (tt, w')
  unfolding close_session
  close-some w w' e = e

  module _ (rows : C → List Bytes) (id_text : ℕ → Bytes) (db table : Bytes)
      (has : HasTable lib sessions column rows id_text db table) (short : length table < 200) where
    -- The three reading functions find the latest value.
    pub find_latest-some :
        (double : Bool) (w : W) (v : Bytes) (vs : List Bytes)
        → rows (column w) ≡ v ∷ vs
        → length (id_text (length (v ∷ vs))) ≤ 20
        → (w' : W) × (find_latest lib double db table w ≡ some (some v, w'))
          × (sessions w' ≡ sessions w)
          × (column w' ≡ column w)
    find_latest-some double w v vs e small =
        let (w₁, c, i₁, s₁, t₁) = connect-some w in
        let (w₂, d, s₂, t₂) = has.selects w₁ in
        let (q, f) = max_id_query-some table short in
        let (w₃, w₄, g, r, i₄, s₄, t₄) = has.finds_id w₂ q f in
        let col : rows (column w₂) ≡ v ∷ vs = ap rows (t₂ ∙ t₁) ∙ e in
        let r' = r ∙ ap (λ x. some (some ((max_cell id_text x ∷ []) ∷ []), w₄)) col in
        let id = id_text (length (v ∷ vs)) in
        let (q', f') = value_query-some table id short small in
        let (w₅, w₆, g', h, i₆, s₆, t₆) = has.finds_value w₄ q' v vs (ap rows t₄ ∙ col) f' in
        let (w₇, z, s₇, t₇) = works.closes w₆ (sessions w) (s₆ ∙ s₄ ∙ s₂ ∙ s₁) in
        (
          w₇,
          find_lem double db table q q' id v w w₁ w₂ w₄ w₆ w₇ c (check_error-false w₁ i₁) d f
              (ask-some true q w₂ w₃ w₄ (some id) g r' (check_error-false w₄ i₄)) f'
              (ask-some (not double) q' w₄ w₅ w₆ (some v) g' h (check_error-false w₆ i₆))
              (close-some w₆ w₇ z),
          s₇,
          t₇ ∙ t₆ ∙ t₄ ∙ t₂ ∙ t₁,
        )

    find_latest-empty :
        (double : Bool) (w : W) → rows (column w) ≡ [] → find_latest lib double db table w ≡ none
    find_latest-empty double w e =
        let (w₁, c, i₁, s₁, t₁) = connect-some w in
        let (w₂, d, s₂, t₂) = has.selects w₁ in
        let (q, f) = max_id_query-some table short in
        let (w₃, w₄, g, r, i₄, s₄, t₄) = has.finds_id w₂ q f in
        let r' =
          r ∙ ap (λ x. some (some ((max_cell id_text x ∷ []) ∷ []), w₄)) (ap rows (t₂ ∙ t₁) ∙ e) in
        find_null_lem double db table q w w₁ w₂ w₄ c (check_error-false w₁ i₁) d f
          (ask-some true q w₂ w₃ w₄ none g r' (check_error-false w₄ i₄))

    -- Where the client library and the server work, reading a table that has no row reads a null pointer,
    -- whatever the type of the value.
    pub reads_empty :
        (floats : Floats) (w : W)
        → rows (column w) ≡ []
        → (get_latest_value_int lib db table w ≡ none)
          × (get_latest_value_bool lib floats db table w ≡ none)
          × (get_latest_value_double lib floats db table w ≡ none)
    unfolding get_latest_value_int get_latest_value_bool get_latest_value_double
    reads_empty floats w e = ground (arith, find_latest-empty false w e, find_latest-empty true w e)
