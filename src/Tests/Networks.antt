-- ===== src/Tests/Networks.antt =====
-- Sending datagrams and the own address (RaspberryPi/Window_Controller/main_controller.cpp and
-- microController/phytec/sendReceive.c) on concrete networks.
use smart_window.Common.{
  ℕ, zero, suc, ◌≡◌, ◌⊎◌, refl, inr, none, some, codes, [], ◌∷◌, All, length, arith, str_eq,
  if◌then◌else◌,
}
use smart_window.Common.Int.{ℤ, pos}
use smart_window.Common.Outcome.{pure}
use smart_window.Network.{Sockets, Interface, Radio, strncmp_eq, sw_send, pp_send, sw_network_init}
use smart_window.Network.Interfaces.{IsPassed}
use smart_window.Network.Sending.{Laws, sends_balanced}

-- The world counts the sockets that are open.
shut_one : ℕ → ℕ
shut_one zero = zero
shut_one (suc n) = n

-- A network with the multicast address alone.
abbrev network : Sockets ℕ
unfolding shut_one
network = record {
  Address = Unit {0};
  inet_pton = λ s. if str_eq s (codes "ff02::1") then some tt else none;
  inet_ntop = λ a size. some (codes "ff02::1");
  socket = λ n. some (some 3, suc n);
  sendto = λ s a text n. some (pos (length text), n);
  close = λ s n. some (tt, shut_one n);
}

network-Laws : Laws network (λ n. n)
unfolding shut_one
network-Laws = record {
  opens = λ w. inr (3, suc w, refl, refl);
  sends = λ w s a text. (pos (length text), w, refl, refl);
  closes = λ w s k e. (shut_one w, refl, ground arith);
}

sends_balanced_example :
    ((n : ℤ) × (w' : ℕ) × (sw_send network (codes "ff02::1") (codes "GET_All") 2 ≡ some (n, w'))
      × (w' ≡ 2))
    × ((n : ℤ) × (w' : ℕ) × (pp_send network (codes "ff02::1") (codes "GET_All") 2 ≡ some (n, w'))
        × ((n ≡ pos 0) ⊎ (n ≡ pos 1))
        × (w' ≡ 2))
sends_balanced_example =
    sends_balanced network (λ n. n) network-Laws (codes "ff02::1") (codes "GET_All") 2

abbrev loopback : Interface ℕ
loopback = record { name = codes "lo"; addr = some (some 1) }

abbrev lowpan : Interface ℕ
lowpan = record { name = codes "lowpan0"; addr = some (some 7) }

abbrev tunnel : Interface ℕ
tunnel = record { name = codes "tun0"; addr = none }

loopback-IsPassed : All (IsPassed (codes "lowpan0") 7) (loopback ∷ [])
unfolding strncmp_eq
loopback-IsPassed = (inr (1, refl, refl), tt)

-- The world counts the options that are set.
abbrev radio : Radio ℕ
radio = record { gnrc_netif_get = pure (6 ∷ []); gnrc_netapi_set = λ i o v n. some (pos 0, suc n) }

radio_init : sw_network_init radio 0 ≡ some (pos 0, 2)
unfolding sw_network_init
radio_init = refl
