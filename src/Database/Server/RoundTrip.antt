-- ===== src/Database/Server/RoundTrip.antt =====
-- What is written is read again, and what a failed selection leaves behind.
use smart_window.Common.{
  ℕ, suc, ◌+◌, ◌≤◌, ◌<◌, ◌≡◌, ap, ◌∙◌, Bool, true, false, none, some, Bytes, List, ◌∷◌, length,
  arith,
}
use smart_window.Common.Int.{ℤ, pos}
use smart_window.Database.Queries.{insert_query, atoi}
use smart_window.Database.Fits.{insert_text, insert_query_fits}
use smart_window.Database.Access.{
  MySql, connect, check_error, close_session, find_latest, write_in_db, get_latest_value_int,
}
use smart_window.Database.Server.{Connects, HasTable, Takes}
use smart_window.Database.Server.Reading.{
  check_error-false, connect-some, close-some, find_latest-some,
}

insert_query-some :
    (table value : Bytes)
    → length table + length value < 205
    → insert_query table value ≡ some (insert_text table value)
insert_query-some table value h = insert_query_fits table value ∙ ground arith

module _ {W : Type 0} (lib : MySql W) where
  write_lem :
      (db table value text : Bytes) (w w₁ w₂ w₃ w₄ : W)
      → connect lib w ≡ some (tt, w₁)
      → check_error lib w₁ ≡ some (false, w₁)
      → lib.mysql_select_db db w₁ ≡ some (0, w₂)
      → insert_query table value ≡ some text
      → lib.mysql_real_query text w₂ ≡ some (tt, w₃)
      → check_error lib w₃ ≡ some (false, w₃)
      → close_session lib w₃ ≡ some (tt, w₄)
      → write_in_db lib db table value w ≡ some (true, w₄)
  unfolding write_in_db
  write_lem db table value text w w₁ w₂ w₃ w₄ c e s q r e' z = ground arith

  int_lem :
      (db table v : Bytes) (w w' : W) (n : ℤ)
      → find_latest lib false db table w ≡ some (some v, w')
      → atoi v ≡ some n
      → get_latest_value_int lib db table w ≡ some ((n, true), w')
  unfolding get_latest_value_int
  int_lem db table v w w' n f a = ground arith

  unselected_lem :
      (double : Bool) (db table : Bytes) (w w₁ w₂ : W) (k : ℕ)
      → connect lib w ≡ some (tt, w₁)
      → check_error lib w₁ ≡ some (false, w₁)
      → lib.mysql_select_db db w₁ ≡ some (suc k, w₂)
      → find_latest lib double db table w ≡ some (none, w₂)
  unfolding find_latest
  unselected_lem double db table w w₁ w₂ k c e s = ground arith

module _ {W : Type 0} (lib : MySql W) (sessions : W → ℕ) (column : W → List Bytes)
    (works : Connects lib sessions column) where
  -- Where the client library and the server work, and the texts of the queries fit, a value that is
  -- written is the number read next, as the table shows it; both report success, and no session is left
  -- open.
  pub write_then_read :
      (id_text : ℕ → Bytes) (db table value shown : Bytes) (w : W) (n : ℤ)
      → HasTable lib sessions column (λ x. x) id_text db table
      → Takes lib sessions column table value shown
      → length table < 200
      → length (id_text (suc (length (column w)))) ≤ 20
      → length table + length value < 205
      → atoi shown ≡ some n
      → (w₁ : W) × (w₂ : W) × (write_in_db lib db table value w ≡ some (true, w₁))
        × (get_latest_value_int lib db table w₁ ≡ some ((n, true), w₂))
        × (sessions w₂ ≡ sessions w)
  write_then_read id_text db table value shown w n has takes short ids fits a =
      let (w₁, c, i₁, s₁, t₁) = connect-some lib sessions column works w in
      let (w₂, d, s₂, t₂) = has.selects w₁ in
      let q = insert_query-some table value fits in
      let (w₃, r, i₃, s₃, t₃) = takes.inserts w₂ (insert_text table value) q in
      let (w₄, z, s₄, t₄) = works.closes w₃ (sessions w) (s₃ ∙ s₂ ∙ s₁) in
      let e = check_error-false lib sessions column works in
      let (w₅, f, s₅, _) =
        find_latest-some lib sessions column works (λ x. x) id_text db table has short false w₄
          shown (column w) (t₄ ∙ t₃ ∙ ap (λ x. shown ∷ x) (t₂ ∙ t₁)) ids in
      (
        w₄,
        w₅,
        write_lem lib db table value (insert_text table value) w w₁ w₂ w₃ w₄ c (e w₁ i₁) d q r
            (e w₃ i₃) (close-some lib sessions column works w₃ w₄ z),
        int_lem lib db table shown w₄ w₅ n f a,
        s₅ ∙ s₄,
      )

  -- Where the client library connects but the selection of the database fails, with whatever error
  -- it reports then, reading a number reports a failure and leaves one more session open.
  pub unselected_leaks :
      (db table : Bytes) (w : W)
      → ((u : W)
          → (k : ℕ) × (u' : W) × (lib.mysql_select_db db u ≡ some (suc k, u'))
            × (sessions u' ≡ sessions u))
      → (w' : W) × (get_latest_value_int lib db table w ≡ some ((pos 0, false), w'))
        × (sessions w' ≡ suc (sessions w))
  unfolding get_latest_value_int
  unselected_leaks db table w refuses =
      let (w₁, c, i₁, s₁, _) = connect-some lib sessions column works w in
      let (k, w₂, d, s₂) = refuses w₁ in
      let e = check_error-false lib sessions column works w₁ i₁ in
      (w₂, ground (arith, unselected_lem lib false db table w w₁ w₂ k c e d), s₂ ∙ s₁)
