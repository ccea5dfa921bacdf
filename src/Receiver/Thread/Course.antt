-- ===== src/Receiver/Thread/Course.antt =====
-- The course of the receiving thread.
use mathlib.Core.List.{Memᴰ}
use smart_window.Common.{
  ℕ, suc, ◌≡◌, refl, sym, ap, ◌∙◌, ◌⊎◌, inl, inr, Bool, Option, some, Bytes, List, ◌++◌,
}
use smart_window.Common.Int.{ℤ, pos, negsuc}
use smart_window.Common.Outcome.{M, ◌>>◌, bind-some}
use smart_window.Controller.Alarms.{Row}
use smart_window.Network.{Sockets, Interface, get_lowpan0_ipv6_address}
use smart_window.Receiver.{Received, failed, receive_loop}
use smart_window.Receiver.Thread.Writing.{Laws, receptions_run}
use smart_window.Receiver.Thread.{
  Server, Thread, exited, blocked, returned, ipv6_addr_max_str_len, receptions, leave,
  receive_thread,
}

module _ {W : Type 0} (server : Server W) (write : Row → M W (Unit {0})) (written : W → List Row)
    (count : W → ℕ) (laws : Laws server write written count) (alloc : ℕ → Bool) where
  leave_runs :
      (sock : ℤ) (w : W) (k : ℕ)
      → count w ≡ suc k
      → (w' : W) × (leave server sock returned w ≡ some (returned, w'))
        × (written w' ≡ written w)
        × (count w' ≡ k)
  unfolding leave
  leave_runs sock w k e =
      let (w₁, s, t, c) = laws.shuts sock w in
      let (w₂, s', t', c') = laws.closes sock w₁ k (c ∙ e) in
      (
        w₂,
        bind-some (server.shutdown sock >> server.close sock) _ w w₂ tt
            (bind-some (server.shutdown sock) _ w w₁ tt s ∙ s'),
        t' ∙ t,
        c',
      )

  module _ (sockets : Sockets W) (is : Option (List (Interface sockets.Address)))
      (rs : List Received) where
    exits_lem :
        (s : ℤ) (w w₁ w₂ : W)
        → server.socket w ≡ some (s, w₁)
        → server.bind s w₁ ≡ some (negsuc 0, w₂)
        → receive_thread alloc write server sockets is rs w ≡ some (exited, w₂)
    unfolding receive_thread
    exits_lem s w w₁ w₂ e e' =
        bind-some server.socket _ w w₁ s e ∙ bind-some (server.bind s) _ w₁ w₂ (negsuc 0) e'

    unnamed_lem :
        (s x : ℤ) (own : Option Bytes) (r : ℕ) (w w₁ w₂ w₃ : W)
        → server.socket w ≡ some (s, w₁)
        → server.bind s w₁ ≡ some (pos 0, w₂)
        → server.getsockname s w₂ ≡ some (negsuc 0, w₃)
        → get_lowpan0_ipv6_address sockets ipv6_addr_max_str_len is ≡ some (r, own)
        → receive_thread alloc write server sockets is rs w ≡ leave server s returned w₃
    unfolding receive_thread
    unnamed_lem s x own r w w₁ w₂ w₃ e e' e'' a =
        bind-some server.socket _ w w₁ s e
        ∙ bind-some (server.bind s) _ w₁ w₂ (pos 0) e'
        ∙ bind-some (server.getsockname s) _ w₂ w₃ (negsuc 0) e''
        ∙ rw a refl

    named_lem :
        (s : ℤ) (own : Option Bytes) (r : ℕ) (t : Thread) (w w₁ w₂ w₃ w₄ : W)
        → server.socket w ≡ some (s, w₁)
        → server.bind s w₁ ≡ some (pos 0, w₂)
        → server.getsockname s w₂ ≡ some (pos 0, w₃)
        → get_lowpan0_ipv6_address sockets ipv6_addr_max_str_len is ≡ some (r, own)
        → receptions alloc write own rs w₃ ≡ some (t, w₄)
        → receive_thread alloc write server sockets is rs w ≡ leave server s t w₄
    unfolding receive_thread
    named_lem s own r t w w₁ w₂ w₃ w₄ e e' e'' a l =
        bind-some server.socket _ w w₁ s e
        ∙ bind-some (server.bind s) _ w₁ w₂ (pos 0) e'
        ∙ bind-some (server.getsockname s) _ w₂ w₃ (pos 0) e''
        ∙ rw a (bind-some (receptions alloc write own rs) _ w₃ w₄ t l)

-- How the thread has come to stand, from the world before it.
pub data Course {W : Type 0} (written : W → List Row) (count : W → ℕ) (rs : List Received)
    (rows : List Row) (w w' : W) : Thread → Type 0 where
  unbound : written w' ≡ written w → Course written count rs rows w w' exited
  unnamed : written w' ≡ written w → count w' ≡ count w → Course written count rs rows w w' returned
  waits :
      written w' ≡ written w ++ rows
      → count w' ≡ suc (count w)
      → Course written count rs rows w w' blocked
  ends :
      Memᴰ failed rs
      → written w' ≡ written w ++ rows
      → count w' ≡ count w
      → Course written count rs rows w w' returned

module _ {W : Type 0} (server : Server W) (write : Row → M W (Unit {0})) (written : W → List Row)
    (count : W → ℕ) (laws : Laws server write written count) (alloc : ℕ → Bool)
    (sockets : Sockets W) (is : Option (List (Interface sockets.Address))) (rs : List Received)
    (rows : List Row) (own : Bytes)
    (address : get_lowpan0_ipv6_address sockets ipv6_addr_max_str_len is ≡ some (0, some own))
    (handles : receive_loop alloc own rs ≡ some rows) where
  -- After the loop.
  finish :
      (s : ℤ) (w w₄ : W) (t : Thread)
      → receive_thread alloc write server sockets is rs w ≡ leave server s t w₄
      → written w₄ ≡ written w ++ rows
      → count w₄ ≡ suc (count w)
      → (t ≡ blocked) ⊎ ((t ≡ returned) × Memᴰ failed rs)
      → (t' : Thread) × (w' : W) × (receive_thread alloc write server sockets is rs w
          ≡ some (t', w'))
        × Course written count rs rows w w' t'
  finish s w w₄ t known a k (inl b) = (blocked, w₄, known ∙ rw b (unfold leave in refl), waits a k)
  finish s w w₄ t known a k (inr (r, m)) =
      let (w₅, l, a', k') = leave_runs server write written count laws alloc s w₄ (count w) k in
      (returned, w₅, known ∙ rw r l, ends m (a' ∙ a) k')

  -- The thread with a socket that is bound.
  bound_runs :
      (s : ℤ) (w w₁ w₂ : W)
      → server.socket w ≡ some (s, w₁)
      → server.bind s w₁ ≡ some (pos 0, w₂)
      → written w₂ ≡ written w
      → count w₂ ≡ suc (count w)
      → (t : Thread) × (w' : W) × (receive_thread alloc write server sockets is rs w ≡ some (t, w'))
        × Course written count rs rows w w' t
  bound_runs s w w₁ w₂ e e' a k =
      let (n, w₃, e'', a', k', named) = laws.names s w₂ in
      elim named [
        | inl bad ↦
            let (w₄, l, a'', k'') =
              leave_runs server write written count laws alloc s w₃ (count w) (k' ∙ k) in
            (
              returned,
              w₄,
              unnamed_lem server write written count laws alloc sockets is rs s (pos 0) (some own) 0
                    w w₁ w₂ w₃ e e' (e'' ∙ ap (λ x. some (x, w₃)) bad) address
                  ∙ l,
              unnamed (a'' ∙ a' ∙ a) k'',
            )
        | inr good ↦
            let (t, w₄, l, a'', k'', how) =
              receptions_run server write written count laws alloc own rs rows w₃ handles in
            let known =
              named_lem server write written count laws alloc sockets is rs s (some own) 0 t w w₁ w₂
                w₃ w₄ e e' (e'' ∙ ap (λ x. some (x, w₃)) good) address l in
            finish s w w₄ t known (a'' ∙ ap (λ x. x ++ rows) (a' ∙ a)) (k'' ∙ k' ∙ k) how
      ]

  -- Where the calls behave as documented, the own address is found and each datagram is handled, the
  -- thread runs without a fault in one of four ways: the socket cannot be bound and the program ends; the
  -- name of the socket cannot be asked for, and nothing is received; or it writes the rows of
  -- `receive_loop` in order, and then it waits, or has returned since receiving has failed once. It
  -- closes its socket when it returns.
  pub receive_thread_runs :
      (w : W)
      → (t : Thread) × (w' : W) × (receive_thread alloc write server sockets is rs w ≡ some (t, w'))
        × Course written count rs rows w w' t
  receive_thread_runs w =
      let (s, w₁, e, a, opened) = laws.opens w in
      let (n, w₂, e', a', k', bound) = laws.binds s w₁ in
      elim bound [
        | inl bad ↦ (
          exited,
          w₂,
          exits_lem server write written count laws alloc sockets is rs s w w₁ w₂ e
              (e' ∙ ap (λ x. some (x, w₂)) bad),
          unbound (a' ∙ a),
        )
        | inr good ↦ elim opened [
          | inl (none_left, _) ↦
              absurd
                (cc (good, laws.refuses w₁ w₂ n (ap (λ x. server.bind x w₁) (sym none_left) ∙ e')))
          | inr k ↦ bound_runs s w w₁ w₂ e (e' ∙ ap (λ x. some (x, w₂)) good) (a' ∙ a) (k' ∙ k)
        ]
      ]
