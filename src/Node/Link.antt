-- ===== src/Node/Link.antt =====
-- The communication thread of the node (microController/phytec/main.c, lines 89 to 113, 152 to 311 and
-- 612 to 625). Printing is left out; the start is in Link/Startup.
pub mod Sending
pub mod Measuring
pub mod Serving
pub mod Answering
pub mod Session
pub mod Startup
pub mod Outside
pub mod Faults
pub mod Texts
pub mod Telling
use smart_window.Common.{
  ℕ, ◌+◌, ◌<◌, Bool, true, false, ltb, if◌then◌else◌, str_eq, Option, none, some, Bytes, codes,
  List, [], ◌∷◌, ◌++◌, length,
}
use smart_window.Common.Int.{ℤ}
use smart_window.Receiver.{c_string}
use smart_window.Node.Main.{
  Command, start_measurement, finish_measurement, start_open_window, start_close_window,
  finish_open_window, finish_close_window, Main, Outcome, replied, waiting, exhausted, receive,
}

infixl 5 ◌>>=◌
abbrev ◌>>=◌ {ℓ κ} : {A : Type ℓ} {B : Type κ} → Option A → (A → Option B) → Option B
none >>= f = none
some a >>= f = f a

-- `inside` is the build with IN defined, `outside` the one without.
pub data Build : Type 0 where
  inside outside : Build

-- struct measuredData_t
pub record Measured : Type 0 where
  pub temperature : ℤ  -- int16_t
  pub pressure : ℕ  -- uint32_t
  pub volume : ℤ
  pub humidity : ℤ
  pub air_quality : ℤ

-- The printing of numbers by `sprintf`: of a number divided by ten or by a hundred as a float, with
-- "%f", and of a number as an `int`, with "%d".
pub record Printing : Type 0 where
  pub tenths : ℤ → Bytes
  pub hundredths : ℤ → Bytes
  pub as_int : ℕ → Bytes

-- PP_BUF_SIZE, and the size of `valueString`
abbrev pub pp_buf_size : ℕ
pp_buf_size = 64

abbrev pub value_size : ℕ
value_size = 10

-- A text that is written to a buffer of the given size; `none` if it does not fit with its terminator.
abbrev pub fill : ℕ → Bytes → Option Bytes
fill size s = if ltb (length s) size then some s else none

position : Build → Bytes
position inside = codes "_IN"
position outside = codes "_OUT"

-- `sendString` on a buffer of PP_BUF_SIZE.
unfoldable pub send_string : Build → Bytes → Bytes → Option Bytes
unfolding position
send_string build sensor value =
    fill pp_buf_size (codes "PUT_" ++ (sensor ++ (position build ++ (codes "/" ++ value))))

-- The command that a message stands for; any other message keeps the command of before.
unfoldable pub choose_command : Build → Bytes → Command → Command
choose_command inside text before =
    if str_eq text (codes "GET_All")
    then start_measurement
    else if str_eq text (codes "PUT_Win/Open")
    then start_open_window
    else if str_eq text (codes "PUT_Win/Close")
    then start_close_window
    else before
choose_command outside text before =
    if str_eq text (codes "GET_All") then start_measurement else before

-- One line of a measurement: the value is printed and sent.
unfoldable pub report : Build → Bytes → Bytes → Option Bytes
report build sensor printed = do value ← fill value_size printed; send_string build sensor value

-- What is sent back for the command that the main thread answers with.
module _ (build : Build) (printing : Printing) where
  open printing use {tenths, hundredths, as_int}

  unfoldable pub answers : Command → Measured → Option (List Bytes)
  answers finish_measurement data' = do
    temperature ← report build (codes "Temp") (tenths data'.temperature)
    pressure ← report build (codes "AirPressure") (as_int data'.pressure)
    volume ← report build (codes "Volume") (hundredths data'.volume)
    humidity ← report build (codes "Humidity") (hundredths data'.humidity)
    air_quality ← report build (codes "AirQuality") (hundredths data'.air_quality)
    some (temperature ∷ pressure ∷ volume ∷ humidity ∷ air_quality ∷ [])
  answers finish_open_window data' = some (codes "PUT_Win/Open" ∷ [])
  answers finish_close_window data' = some (codes "PUT_Win/Close" ∷ [])
  answers _ data' = some []

-- The node between two datagrams: the main thread, and the command that the communication thread keeps.
pub record Node : Type 0 where
  pub main : Main
  pub command : Command

-- What a datagram comes to: texts that are sent back to its sender, undefined behaviour, or a
-- communication thread that waits for an answer while the main thread waits for a command.
pub data Served : Type 0 where
  sent : List Bytes → Node → Served
  undefined : Served
  deadlock : Served
  out_of_fuel : Served

abbrev send_all : Option (List Bytes) → Node → Served
send_all none node = undefined
send_all (some texts) node = sent texts node

-- The two threads meet at each message, so the main thread runs between the question and the answer.
-- `fresh` is what `getMeasuredData` gives if it is asked.
module _ (build : Build) (printing : Printing) (fuel : ℕ) where
  unfoldable pub conclude : Measured → Outcome → Served
  conclude fresh (replied main c sets) =
      send_all (answers build printing c fresh) (record { main = main; command = c })
  conclude fresh (waiting main) = deadlock
  conclude fresh exhausted = out_of_fuel

  unfoldable pub serve : Bytes → Measured → Node → Served
  serve payload fresh node = elim (c_string pp_buf_size payload) [
    | none ↦ undefined
    | some text ↦ conclude fresh (receive fuel (choose_command build text node.command) node.main)
  ]
