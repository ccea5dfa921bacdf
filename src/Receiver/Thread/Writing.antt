-- ===== src/Receiver/Thread/Writing.antt =====
-- What the loop of the receiving thread writes.
use mathlib.Core.List.{Memᴰ}
use smart_window.Common.{
  ℕ, suc, ◌≡◌, refl, sym, ap, ◌∙◌, ◌⊎◌, inl, inr, Bool, some, some_injective, Option-cases, Bytes,
  List, [], ◌∷◌, ◌++◌, append_assoc, append-nil, arith,
}
use smart_window.Common.Int.{ℤ, pos, negsuc}
use smart_window.Common.Outcome.{M, bind-some}
use smart_window.Controller.Alarms.{Row}
use smart_window.Receiver.{Received, failed, shut_down, datagram, receive, receive_loop}
use smart_window.Receiver.Thread.{Server, Thread, blocked, returned, write_all, receptions}

-- The documented behaviour of the calls: each returns; `socket` opens a socket or fails, `bind` and
-- `getsockname` return zero or fail, `close` closes a socket, and a row that is written is the last one.
-- `written` is what has been written, and `count` the number of open sockets.
pub record Laws {W : Type 0} (server : Server W) (write : Row → M W (Unit {0}))
    (written : W → List Row) (count : W → ℕ) : Type 0 where
  pub opens :
      (w : W)
      → (s : ℤ) × (w' : W) × (server.socket w ≡ some (s, w'))
        × (written w' ≡ written w)
        × (((s ≡ negsuc 0) × (count w' ≡ count w)) ⊎ (count w' ≡ suc (count w)))
  pub binds :
      (s : ℤ) (w : W)
      → (n : ℤ) × (w' : W) × (server.bind s w ≡ some (n, w'))
        × (written w' ≡ written w)
        × (count w' ≡ count w)
        × ((n ≡ negsuc 0) ⊎ (n ≡ pos 0))
  pub refuses : (w w' : W) (n : ℤ) → server.bind (negsuc 0) w ≡ some (n, w') → n ≡ negsuc 0
  pub names :
      (s : ℤ) (w : W)
      → (n : ℤ) × (w' : W) × (server.getsockname s w ≡ some (n, w'))
        × (written w' ≡ written w)
        × (count w' ≡ count w)
        × ((n ≡ negsuc 0) ⊎ (n ≡ pos 0))
  pub shuts :
      (s : ℤ) (w : W)
      → (w' : W) × (server.shutdown s w ≡ some (tt, w'))
        × (written w' ≡ written w)
        × (count w' ≡ count w)
  pub closes :
      (s : ℤ) (w : W) (k : ℕ)
      → count w ≡ suc k
      → (w' : W) × (server.close s w ≡ some (tt, w')) × (written w' ≡ written w) × (count w' ≡ k)
  pub writes :
      (row : Row) (w : W)
      → (w' : W) × (write row w ≡ some (tt, w'))
        × (written w' ≡ written w ++ row ∷ [])
        × (count w' ≡ count w)

-- A datagram is handled, and so are those that follow it.
loop_inv :
    (alloc : ℕ → Bool) (own source payload : Bytes) (rs : List Received) (rows : List Row)
    → receive_loop alloc own (datagram source payload ∷ rs) ≡ some rows
    → (first : List Row) × (later : List Row) × (receive alloc own source payload ≡ some first)
      × (receive_loop alloc own rs ≡ some later)
      × (first ++ later ≡ rows)
unfolding receive_loop
loop_inv alloc own source payload rs rows h =
    elim (Option-cases (receive alloc own source payload)) [
      | inl e ↦ absurd (ground arith)
      | inr (first, e) ↦ elim (Option-cases (receive_loop alloc own rs)) [
        | inl e' ↦ absurd (ground arith)
        | inr (later, e') ↦ (first, later, e, e', ground arith)
      ]
    ]

module _ {W : Type 0} (server : Server W) (write : Row → M W (Unit {0})) (written : W → List Row)
    (count : W → ℕ) (laws : Laws server write written count) (alloc : ℕ → Bool) where
  write_all_runs :
      (rows : List Row) (w : W)
      → (w' : W) × (write_all alloc write rows w ≡ some (tt, w'))
        × (written w' ≡ written w ++ rows)
        × (count w' ≡ count w)
  unfolding write_all
  write_all_runs [] w = (w, refl, sym (append-nil (written w)), refl)
  write_all_runs (row ∷ rows) w =
      let (w₁, e, t, k) = laws.writes row w in
      let (w₂, e', t', k') = write_all_runs rows w₁ in
      (
        w₂,
        bind-some (write row) _ w w₁ tt e ∙ e',
        t' ∙ ap (λ x. x ++ rows) t ∙ append_assoc (written w) (row ∷ []) rows,
        k' ∙ k,
      )

  receptions_lem :
      (own source payload : Bytes) (rs : List Received) (first : List Row) (w w₁ : W)
      → receive alloc own source payload ≡ some first
      → write_all alloc write first w ≡ some (tt, w₁)
      → receptions alloc write (some own) (datagram source payload ∷ rs) w
        ≡ receptions alloc write (some own) rs w₁
  unfolding receptions
  receptions_lem own source payload rs first w w₁ e e' =
      rw (e, receptions) (bind-some (write_all alloc write first) _ w w₁ tt e')

  kept_rows : {rows : List Row} (w : W) → some [] ≡ some rows → written w ≡ written w ++ rows
  kept_rows w h = sym (append-nil (written w)) ∙ ap (λ x. written w ++ x) (some_injective h)

  -- The loop writes the rows of `receive_loop`, and ends only when receiving fails.
  pub receptions_run :
      (own : Bytes) (rs : List Received) (rows : List Row) (w : W)
      → receive_loop alloc own rs ≡ some rows
      → (t : Thread) × (w' : W) × (receptions alloc write (some own) rs w ≡ some (t, w'))
        × (written w' ≡ written w ++ rows)
        × (count w' ≡ count w)
        × ((t ≡ blocked) ⊎ ((t ≡ returned) × Memᴰ failed rs))
  unfolding receptions receive_loop
  receptions_run own [] rows w h = (blocked, w, refl, kept_rows w h, refl, inl refl)
  receptions_run own (failed ∷ rs) rows w h =
      (returned, w, refl, kept_rows w h, refl, inr (refl, Memᴰ.head refl))
  receptions_run own (shut_down ∷ rs) rows w h =
      let (t, w', e, a, k, o) = receptions_run own rs rows w h in
      (t, w', e, a, k, elim o [ inl b ↦ inl b | inr (r, m) ↦ inr (r, Memᴰ.tail m) ])
  receptions_run own (datagram source payload ∷ rs) rows w h =
      let (first, later, e, e', both) = loop_inv alloc own source payload rs rows h in
      let (w₁, e₁, t₁, k₁) = write_all_runs first w in
      let (t, w₂, e₂, a, k₂, o) = receptions_run own rs later w₁ e' in
      (
        t,
        w₂,
        receptions_lem own source payload rs first w w₁ e e₁ ∙ e₂,
        a
            ∙ ap (λ x. x ++ later) t₁
            ∙ append_assoc (written w) first later
            ∙ ap (λ x. written w ++ x) both,
        k₂ ∙ k₁,
        elim o [ inl b ↦ inl b | inr (r, m) ↦ inr (r, Memᴰ.tail m) ],
      )
