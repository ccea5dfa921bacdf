-- ===== src/Receiver.antt =====
-- The receiving thread of the controller (RaspberryPi/Window_Controller/main_controller.cpp, lines 177
-- to 306): which rows a datagram writes.
pub mod Reports
pub mod Window
pub mod Buffers
pub mod Thread
use smart_window.Common.{
  ℕ, ◌+◌, ◌-◌, ◌<◌, Bool, true, false, ltb, ◌==◌, if◌then◌else◌, str_eq, Option, none, some, Bytes,
  codes, List, [], ◌∷◌, ◌++◌, length, get_elem?,
}
use smart_window.Common.Int.{ℤ, pos, eqb_ℤ}
use smart_window.Messages.{Pointer, Split, split_string, table_name}
use smart_window.Controller.Alarms.{Row}

infixl 5 ◌>>=◌
abbrev ◌>>=◌ {ℓ κ} : {A : Type ℓ} {B : Type κ} → Option A → (A → Option B) → Option B
none >>= f = none
some a >>= f = f a

-- MAXBUF
abbrev pub max_buf : ℕ
max_buf = 2048

-- The C string at the start of a buffer of `size` bytes that was cleared before the payload was copied
-- into it; `none` if nothing ends the string within the buffer.
unfoldable pub c_string : ℕ → Bytes → Option Bytes
c_string size [] = if ltb 0 size then some [] else none
c_string size (c ∷ s) =
    if ltb 0 size
    then (if c == 0
        then some []
        else elim (c_string (size - 1) s) [ none ↦ none | some t ↦ some (c ∷ t) ])
    else none

write_window : Bytes → List Row
write_window value = record { table = codes "Win_Open"; value = value } ∷ []

-- PUT_Win/Open and PUT_Win/Close; any other text is ignored.
window_report : Bytes → Bytes → List Row
unfolding write_window
window_report cmd open_close =
    if str_eq cmd (codes "PUT")
    then (if str_eq open_close (codes "Open")
        then write_window (codes "1")
        else if str_eq open_close (codes "Close")
        then write_window (codes "0")
        else [])
    else []

-- The rows that a message writes. `none` is undefined behaviour: a null pointer that is read.
module _ (alloc : ℕ → Bool) where
  -- CMD_SENSOR_POS/VALUE: the command is not looked at.
  store : List Bytes → Bytes → Option (List Row)
  store parts value = do
    table ← table_name alloc (get_elem? parts 1) (get_elem? parts 2)
    name ← table
    some (record { table = name; value = value } ∷ [])

  report : List Bytes → Bytes → Option (List Row)
  unfolding window_report
  report parts value = do cmd ← get_elem? parts 0; some (window_report cmd value)

  handle_parts : List Bytes → Option (List Row)
  unfolding store report
  handle_parts parts = do
    first ← get_elem? parts 0
    value ← get_elem? parts 1
    sub ← split_string alloc first b'_'
    names ← sub.parts
    if eqb_ℤ sub.count (pos 3) then store names value else report names value

  unfoldable pub handle_message : Bytes → Option (List Row)
  unfolding handle_parts
  handle_message text = do
    split ← split_string alloc text b'/'
    if eqb_ℤ split.count (pos 2) then split.parts >>= handle_parts else some []

-- What `recvfrom` reports; a datagram without bytes reads as a peer that shut down.
pub data Received : Type 0 where
  failed shut_down : Received
  datagram : Bytes → Bytes → Received

-- The loop: it ends when receiving fails. `own` is the controller's address; its own messages are
-- ignored, but are printed first.
module _ (alloc : ℕ → Bool) (own : Bytes) where
  unfoldable pub receive : Bytes → Bytes → Option (List Row)
  unfolding c_string
  receive source payload = do
    text ← c_string max_buf payload
    if str_eq own source then some [] else handle_message alloc text

  unfoldable pub receive_loop : List Received → Option (List Row)
  unfolding receive
  receive_loop [] = some []
  receive_loop (failed ∷ rs) = some []
  receive_loop (shut_down ∷ rs) = receive_loop rs
  receive_loop (datagram source payload ∷ rs) = do
    rows ← receive source payload
    let rest = receive_loop rs
    later ← rest
    some (rows ++ later)
