-- ===== src/Network.antt =====
-- Sending datagrams and finding the own address (RaspberryPi/Window_Controller/main_controller.cpp, lines
-- 108 to 170 and 796 to 888, and microController/phytec/sendReceive.c). Messages that are printed are
-- left out.
pub mod Sending
pub mod Interfaces
pub mod Configuring
use smart_window.Common.{
  ℕ, zero, suc, Bool, true, false, ltb, ◌==◌, ◌&&◌, if◌then◌else◌, Option, none, some, Bytes, codes,
  List, [], ◌∷◌,
}
use smart_window.Common.Int.{ℤ, pos, negsuc, ltb_ℤ}
use smart_window.Common.Outcome.{M, pure, undefined, ◌>>=◌, ◌>>◌}
use smart_window.Messages.{Pointer, put_command}

-- The socket calls. `inet_pton` and `inet_ntop` give nothing when they fail, the latter on a buffer of
-- the given size; `socket` gives no socket when it fails, and `sendto` the number it returns.
pub record Sockets (W : Type 0) : Type 1 where
  pub Address : Type 0
  pub inet_pton : Bytes → Option Address
  pub inet_ntop : Address → ℕ → Option Bytes
  pub socket : M W (Option ℕ)
  pub sendto : ℕ → Address → Bytes → M W ℤ
  pub close : ℕ → M W (Unit {0})

-- An entry of the list that `getifaddrs` gives. Its address is a null pointer (outer `none`), of another
-- family (inner `none`), or an IPv6 address.
pub record Interface (Address : Type 0) : Type 0 where
  pub name : Bytes
  pub addr : Option (Option Address)

-- strncmp(s, t, n) == 0
unfoldable pub strncmp_eq : Bytes → Bytes → ℕ → Bool
strncmp_eq s t zero = true
strncmp_eq [] [] (suc n) = true
strncmp_eq [] (d ∷ t) (suc n) = false
strncmp_eq (c ∷ s) [] (suc n) = false
strncmp_eq (c ∷ s) (d ∷ t) (suc n) = c == d && strncmp_eq s t n

-- The loop over the interfaces: the address that is copied, if any. Outer `none` is a null pointer that
-- is read.
unfoldable pub find_address : {A : Type 0} → Bytes → ℕ → List (Interface A) → Option (Option A)
unfolding strncmp_eq
find_address if_name n [] = some none
find_address if_name n (i ∷ is) = elim i.addr [
  | none ↦ none
  | some none ↦ find_address if_name n is
  | some (some a) ↦ elim (strncmp_eq i.name if_name n) [
    | true ↦ some (some a)
    | false ↦ find_address if_name n is
  ]
]

-- The result for what the loop found.
unfoldable pub search_result : {A : Type 0} → Option (Option A) → Option (ℤ × Option A)
search_result none = none
search_result (some none) = some (negsuc 1, none)
search_result (some (some a)) = some (pos 0, some a)

-- The result and the address. `none` for the list is a failure of `getifaddrs`, after which a pointer
-- that was never set is freed.
unfoldable pub get_link_local_addr :
    {A : Type 0} → Bytes → ℕ → Option (List (Interface A)) → Option (ℤ × Option A)
unfolding find_address search_result
get_link_local_addr if_name n none = none
get_link_local_addr if_name n (some is) = search_result (find_address if_name n is)

module _ {W : Type 0} (sockets : Sockets W) where
  open sockets use {Address, inet_pton, inet_ntop, socket, sendto, close}

  -- The result, and the text that is left in the buffer.
  unfoldable pub get_lowpan0_ipv6_address :
      ℕ → Option (List (Interface Address)) → Option (ℕ × Option Bytes)
  unfolding get_link_local_addr
  get_lowpan0_ipv6_address size is = elim (get_link_local_addr (codes "lowpan0") 7 is) [
    | none ↦ none
    | some (_, none) ↦ some (1, none)
    | some (_, some a) ↦ elim (inet_ntop a size) [
      | none ↦ some (1, none)
      | some text ↦ some (0, some text)
    ]
  ]

  -- The controller returns what `sendto` returned.
  unfoldable pub sw_send : Bytes → Bytes → M W ℤ
  sw_send dst_addr text = elim (inet_pton dst_addr) [
    | none ↦ pure (pos 1)
    | some dst ↦ do
      opened ← socket
      elim opened [
        | none ↦ pure (pos 1)
        | some sock ↦ do sent ← sendto sock dst text; close sock; pure sent
      ]
  ]

  -- The node only prints that `sendto` failed.
  unfoldable pub pp_send : Bytes → Bytes → M W ℤ
  pp_send addr_str text = elim (inet_pton addr_str) [
    | none ↦ pure (pos 1)
    | some dst ↦ do
      opened ← socket
      elim opened [
        | none ↦ pure (pos 1)
        | some sock ↦ do sent ← sendto sock dst text; close sock; pure (pos 0)
      ]
  ]

  module _ (sleep : ℕ → M W (Unit {0})) where
    -- The loop of the controller's `main`, for a number of rounds.
    unfoldable pub request_data : ℕ → M W (Unit {0})
    unfolding sw_send
    request_data zero = pure tt
    request_data (suc n) = sw_send (codes "ff02::1") (codes "GET_All") >> sleep 10 >> request_data n

    -- A round of `dummyLoop`; `val` is the text of the seconds. A null pointer is not sent.
    unfoldable pub dummy_round : (ℕ → Bool) → Bytes → M W (Unit {0})
    unfolding sw_send
    dummy_round alloc val =
        elim (put_command alloc (some (codes "Temp")) (some (codes "IN")) (some val)) [
          | none ↦ undefined
          | some none ↦ undefined
          | some (some text) ↦ sw_send (codes "ff02::1") text >> sleep 3
        ]

-- An option of the radio and the network stack of the node: `gnrc_netif_get` gives its interfaces.
pub data Setting : Type 0 where
  channel pan_id : Setting

pub record Radio (W : Type 0) : Type 0 where
  pub gnrc_netif_get : M W (List ℕ)
  pub gnrc_netapi_set : ℕ → Setting → ℕ → M W ℤ

-- SW_CHANNEL and SW_PAN_ID
abbrev pub sw_channel : ℕ
sw_channel = 26

abbrev pub sw_pan_id : ℕ
sw_pan_id = 35

unfoldable pub sw_network_init : {W : Type 0} → Radio W → M W ℤ
sw_network_init radio = do
  ifs ← radio.gnrc_netif_get
  elim ifs [
    | [] ↦ pure (negsuc 0)
    | i ∷ _ ↦ do
      set ← radio.gnrc_netapi_set i channel sw_channel
      if ltb_ℤ set (pos 0) then pure (negsuc 0) else (do
        set' ← radio.gnrc_netapi_set i pan_id sw_pan_id
        if ltb_ℤ set' (pos 0) then pure (negsuc 0) else pure (pos 0))
  ]
