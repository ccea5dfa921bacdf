-- ===== src/Network/Configuring.antt =====
-- What initialising the radio of a node has done when it reports success.
use smart_window.Common.{
  ℕ, ◌≡◌, ◌≢◌, ◌∙◌, ap, Option-cases, inl, inr, false, none, some, List, [], ◌∷◌, arith,
}
use smart_window.Common.Int.{ℤ, pos, ltb_ℤ}
use smart_window.Network.{Radio, channel, pan_id, sw_channel, sw_pan_id, sw_network_init}

-- What was set: the channel and then the PAN of the first interface, neither with an error.
pub record IsConfigured {W : Type 0} (radio : Radio W) (w w' : W) : Type 0 where
  pub interface : ℕ
  pub others : List ℕ
  pub before : W
  pub between : W
  pub result : ℤ
  pub result' : ℤ
  pub gets : radio.gnrc_netif_get w ≡ some (interface ∷ others, before)
  pub sets_channel :
      radio.gnrc_netapi_set interface channel sw_channel before ≡ some (result, between)
  pub sets_pan_id : radio.gnrc_netapi_set interface pan_id sw_pan_id between ≡ some (result', w')
  pub accepted : ltb_ℤ result (pos 0) ≡ false
  pub accepted' : ltb_ℤ result' (pos 0) ≡ false

module _ {W : Type 0} (radio : Radio W) (w w' : W) where
  open radio use {gnrc_netif_get, gnrc_netapi_set}

  sw_network_init-get :
      (e : gnrc_netif_get w ≡ none)
      → sw_network_init radio w ≡ some (pos 0, w')
      → IsConfigured radio w w'
  unfolding sw_network_init
  sw_network_init-get e h = ground arith

  sw_network_init-empty :
      (b : W)
      → gnrc_netif_get w ≡ some ([], b)
      → sw_network_init radio w ≡ some (pos 0, w')
      → IsConfigured radio w w'
  unfolding sw_network_init
  sw_network_init-empty b e h = ground arith

  configured :
      (i : ℕ) (is : List ℕ) (b m m' : W) (r r' : ℤ)
      → gnrc_netif_get w ≡ some (i ∷ is, b)
      → gnrc_netapi_set i channel sw_channel b ≡ some (r, m)
      → gnrc_netapi_set i pan_id sw_pan_id m ≡ some (r', m')
      → sw_network_init radio w ≡ some (pos 0, w')
      → (ltb_ℤ r (pos 0) ≡ false) × (ltb_ℤ r' (pos 0) ≡ false) × (m' ≡ w')
  unfolding sw_network_init
  configured i is b m m' r r' e e' e'' h = ground arith

  no_channel :
      (i : ℕ) (is : List ℕ) (b : W)
      → gnrc_netif_get w ≡ some (i ∷ is, b)
      → gnrc_netapi_set i channel sw_channel b ≡ none
      → sw_network_init radio w ≢ some (pos 0, w')
  unfolding sw_network_init
  no_channel i is b e e' h = ground arith

  no_pan_id :
      (i : ℕ) (is : List ℕ) (b m : W) (r : ℤ)
      → gnrc_netif_get w ≡ some (i ∷ is, b)
      → gnrc_netapi_set i channel sw_channel b ≡ some (r, m)
      → gnrc_netapi_set i pan_id sw_pan_id m ≡ none
      → sw_network_init radio w ≢ some (pos 0, w')
  unfolding sw_network_init
  no_pan_id i is b m r e e' e'' h = ground arith

  -- Where the initialisation returns zero, the channel and then the PAN of the first interface were set
  -- to the numbers of SmartWindow, neither with an error.
  pub sw_network_init-IsConfigured :
      sw_network_init radio w ≡ some (pos 0, w') → IsConfigured radio w w'
  sw_network_init-IsConfigured h = elim (Option-cases (gnrc_netif_get w)) [
    | inl e ↦ sw_network_init-get e h
    | inr (([], b), e) ↦ sw_network_init-empty b e h
    | inr ((i ∷ is, b), e) ↦ elim (Option-cases (gnrc_netapi_set i channel sw_channel b)) [
      | inl e' ↦ absurd (no_channel i is b e e' h)
      | inr ((r, m), e') ↦ elim (Option-cases (gnrc_netapi_set i pan_id sw_pan_id m)) [
        | inl e'' ↦ absurd (no_pan_id i is b m r e e' e'' h)
        | inr ((r', m'), e'') ↦
            let (ok, ok', same) = configured i is b m m' r r' e e' e'' h in
            record {
              interface = i;
              others = is;
              before = b;
              between = m;
              result = r;
              result' = r';
              gets = e;
              sets_channel = e';
              sets_pan_id = e'' ∙ ap (λ x. some (r', x)) same;
              accepted = ok;
              accepted' = ok';
            }
      ]
    ]
  ]
