-- ===== src/Receiver/Thread.antt =====
-- The receiving thread with its socket (RaspberryPi/Window_Controller/main_controller.cpp, lines 177 to
-- 306). Messages that are printed and the creation of the database handle are left out.
pub mod Writing
pub mod Course
use smart_window.Common.{ℕ, Bool, true, false, Option, none, some, Bytes, List, [], ◌∷◌}
use smart_window.Common.Int.{ℤ, pos, negsuc, eqb_ℤ, leb_ℤ}
use smart_window.Common.Outcome.{M, pure, undefined, ◌>>=◌, ◌>>◌}
use smart_window.Controller.Alarms.{Row}
use smart_window.Network.{Sockets, Interface, get_lowpan0_ipv6_address}
use smart_window.Receiver.{Received, failed, shut_down, datagram, receive}

-- The calls on the socket that receives, with the numbers that they return. A socket that could not be
-- opened is a negative number.
pub record Server (W : Type 0) : Type 0 where
  pub socket : M W ℤ
  pub bind : ℤ → M W ℤ
  pub getsockname : ℤ → M W ℤ
  pub shutdown : ℤ → M W (Unit {0})
  pub close : ℤ → M W (Unit {0})

-- How the thread stands: it has ended the program, or waits for the next datagram, or has returned.
pub data Thread : Type 0 where
  exited blocked returned : Thread

-- IPV6_ADDR_MAX_STR_LEN
abbrev pub ipv6_addr_max_str_len : ℕ
ipv6_addr_max_str_len = 40

-- The end of the thread.
unfoldable pub leave : {W : Type 0} → Server W → ℤ → Thread → M W Thread
leave server sock blocked = pure blocked
leave server sock _ = server.shutdown sock >> server.close sock >> pure returned

-- `write` is `write_in_db` on the thread's handle.
module _ {W : Type 0} (alloc : ℕ → Bool) (write : Row → M W (Unit {0})) where
  unfoldable pub write_all : List Row → M W (Unit {0})
  write_all [] = pure tt
  write_all (row ∷ rows) = write row >> write_all rows

  -- The loop over what it receives. `own` is the buffer of the own address: `none` if it was not filled,
  -- so that reading it is undefined.
  unfoldable pub receptions : Option Bytes → List Received → M W Thread
  unfolding write_all
  receptions own [] = pure blocked
  receptions own (failed ∷ rs) = pure returned
  receptions own (shut_down ∷ rs) = receptions own rs
  receptions none (datagram source payload ∷ rs) = undefined
  receptions (some own) (datagram source payload ∷ rs) = elim (receive alloc own source payload) [
    | none ↦ undefined
    | some rows ↦ write_all rows >> receptions (some own) rs
  ]

  module _ (server : Server W) where
    unfoldable pub receive_thread :
        (sockets : Sockets W)
        → Option (List (Interface sockets.Address))
        → List Received
        → M W Thread
    unfolding receptions leave
    receive_thread sockets is rs = do
      sock ← server.socket
      bound ← server.bind sock
      elim (eqb_ℤ bound (negsuc 0)) [
        | true ↦ pure exited
        | false ↦ do
          status ← server.getsockname sock
          elim (get_lowpan0_ipv6_address sockets ipv6_addr_max_str_len is) [
            | none ↦ undefined
            | some (_, own) ↦ elim (leb_ℤ (pos 0) status) [
              | true ↦ receptions own rs >>= leave server sock
              | false ↦ leave server sock returned
            ]
          ]
      ]
