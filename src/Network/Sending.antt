-- ===== src/Network/Sending.antt =====
-- What sending a datagram leaves behind.
use smart_window.Common.{
  ℕ, suc, ◌≡◌, refl, ◌∙◌, ◌⊎◌, inl, inr, none, some, Option-cases, Bytes, arith,
}
use smart_window.Common.Int.{ℤ, pos}
use smart_window.Network.{Sockets, sw_send, pp_send}

-- The documented behaviour of the calls on sockets: each returns, `socket` opens one more socket if it
-- gives one, `close` closes one, and the others keep the sockets that are open.
pub record Laws {W : Type 0} (sockets : Sockets W) (count : W → ℕ) : Type 0 where
  pub opens :
      (w : W)
      → ((w' : W) × (sockets.socket w ≡ some (none, w')) × (count w' ≡ count w))
        ⊎ ((s : ℕ) × (w' : W) × (sockets.socket w ≡ some (some s, w')) × (count w' ≡ suc (count w)))
  pub sends :
      (w : W) (s : ℕ) (a : sockets.Address) (text : Bytes)
      → (n : ℤ) × (w' : W) × (sockets.sendto s a text w ≡ some (n, w')) × (count w' ≡ count w)
  pub closes :
      (w : W) (s : ℕ) (k : ℕ)
      → count w ≡ suc k
      → (w' : W) × (sockets.close s w ≡ some (tt, w')) × (count w' ≡ k)

module _ {W : Type 0} (sockets : Sockets W) (count : W → ℕ) (laws : Laws sockets count) where
  unreachable :
      (address text : Bytes) (w : W)
      → sockets.inet_pton address ≡ none
      → (sw_send sockets address text w ≡ some (pos 1, w))
        × (pp_send sockets address text w ≡ some (pos 1, w))
  unfolding sw_send pp_send
  unreachable address text w e = ground arith

  no_socket :
      (address text : Bytes) (w w' : W) (a : sockets.Address)
      → sockets.inet_pton address ≡ some a
      → sockets.socket w ≡ some (none, w')
      → (sw_send sockets address text w ≡ some (pos 1, w'))
        × (pp_send sockets address text w ≡ some (pos 1, w'))
  unfolding sw_send pp_send
  no_socket address text w w' a e o = ground arith

  done :
      (address text : Bytes) (w w₁ w₂ w₃ : W) (a : sockets.Address) (s : ℕ) (n : ℤ)
      → sockets.inet_pton address ≡ some a
      → sockets.socket w ≡ some (some s, w₁)
      → sockets.sendto s a text w₁ ≡ some (n, w₂)
      → sockets.close s w₂ ≡ some (tt, w₃)
      → (sw_send sockets address text w ≡ some (n, w₃))
        × (pp_send sockets address text w ≡ some (pos 0, w₃))
  unfolding sw_send pp_send
  done address text w w₁ w₂ w₃ a s n e o t c = ground arith

  -- Where the calls on sockets behave as documented, sending returns on every path, for the controller
  -- and for the node, and leaves as many sockets open as before; the node returns zero or one.
  pub sends_balanced :
      (address text : Bytes) (w : W)
      → ((n : ℤ) × (w' : W) × (sw_send sockets address text w ≡ some (n, w'))
          × (count w' ≡ count w))
        × ((n : ℤ) × (w' : W) × (pp_send sockets address text w ≡ some (n, w'))
            × ((n ≡ pos 0) ⊎ (n ≡ pos 1))
            × (count w' ≡ count w))
  sends_balanced address text w = elim (Option-cases (sockets.inet_pton address)) [
    | inl e ↦
        let (c, n) = unreachable address text w e in
        ((pos 1, w, c, refl), (pos 1, w, n, inr refl, refl))
    | inr (a, e) ↦ elim (laws.opens w) [
      | inl (w', o, k) ↦
          let (c, n) = no_socket address text w w' a e o in
          ((pos 1, w', c, k), (pos 1, w', n, inr refl, k))
      | inr (s, w₁, o, k) ↦
          let (sent, w₂, t, k') = laws.sends w₁ s a text in
          let (w₃, shut, k'') = laws.closes w₂ s (count w) (k' ∙ k) in
          let (c, n) = done address text w w₁ w₂ w₃ a s sent e o t shut in
          ((sent, w₃, c, k''), (pos 0, w₃, n, inl refl, k''))
    ]
  ]
