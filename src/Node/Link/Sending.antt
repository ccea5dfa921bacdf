-- ===== src/Node/Link/Sending.antt =====
-- What a sensor node sends, and what the controller makes of it.
use smart_window.Common.{
  ℕ, ◌≤◌, ◌<◌, append_assoc, sym, ◌≡◌, ◌≢◌, ap, ◌∙◌, Bool, true, some, Bytes, codes, [], ◌∷◌, ◌++◌,
  length, length-append, All-append, Lacks, arith,
}
use smart_window.Messages.Words.{IsWord}
use smart_window.Receiver.{handle_message}
use smart_window.Receiver.Reports.{handle_three}
use smart_window.Node.Link.{
  Build, inside, outside, position, send_string, fill, pp_buf_size, value_size,
}

-- The name of the place in a table.
abbrev pub place : Build → Bytes
place inside = codes "IN"
place outside = codes "OUT"

-- A name that fits: it has no separator, and is no longer than AirPressure.
abbrev pub IsSensor : Bytes → Type 0
IsSensor s = IsWord b'_' s × Lacks b'/' s × (length s ≤ 11)

text-size :
    (sensor value : Bytes) (b : Build)
    → length sensor ≤ 11
    → length value < 10
    → length (codes "PUT_" ++ (sensor ++ (position b ++ (codes "/" ++ value)))) < 64
unfolding position
text-size sensor value inside h h' = omega (arith, length-append {0} sensor (codes "_IN/" ++ value))
text-size sensor value outside h h' =
    omega (arith, length-append {0} sensor (codes "_OUT/" ++ value))

pub fill-some : (size : ℕ) (s : Bytes) → length s < size → fill size s ≡ some s
fill-some size s h = ground arith

place-IsWord : (b : Build) → IsWord b'_' (place b) × Lacks b'/' (place b)
place-IsWord inside = (((λ e. ground arith), omega arith), omega arith)
place-IsWord outside = (((λ e. ground arith), omega arith), omega arith)

-- The text that `sendString` writes, grouped by the separators.
text_lem :
    (b : Build) (sensor value : Bytes)
    → codes "PUT_" ++ (sensor ++ (position b ++ (codes "/" ++ value)))
      ≡ (codes "PUT" ++ (b'_' ∷ (sensor ++ (b'_' ∷ place b)))) ++ (b'/' ∷ value)
unfolding position
text_lem inside sensor value =
    ap (λ t. codes "PUT_" ++ t) (sym (append_assoc sensor (codes "_IN") (b'/' ∷ value)))
text_lem outside sensor value =
    ap (λ t. codes "PUT_" ++ t) (sym (append_assoc sensor (codes "_OUT") (b'/' ∷ value)))

-- A reading that fits its buffer fits the message, and where the controller has memory it is stored in
-- the table of the sensor and the place of the node.
pub handle_message-send_string :
    (alloc : ℕ → Bool) (build : Build) (sensor value : Bytes)
    → ((n : ℕ) → alloc n ≡ true)
    → IsSensor sensor
    → IsWord b'/' value
    → length value < value_size
    → (text : Bytes) × (send_string build sensor value ≡ some text)
      × (handle_message alloc text
          ≡ some (record { table = sensor ++ (b'_' ∷ place build); value = value } ∷ []))
unfolding send_string
handle_message-send_string alloc build sensor value gives (hs, ls, short) hv small =
    let (hp, lp) = place-IsWord build in
    (
      codes "PUT_" ++ (sensor ++ (position build ++ (codes "/" ++ value))),
      fill-some pp_buf_size _ (text-size sensor value build short small),
      ap (handle_message alloc) (text_lem build sensor value)
          ∙ handle_three alloc gives (codes "PUT") sensor (place build) value
              ((λ e. ground arith), omega arith) hs hp hv
              (
                (λ e. ground arith),
                All-append (λ x. x ≢ b'/') (codes "PUT_") (sensor ++ (b'_' ∷ place build))
                    (omega arith)
                    (All-append (λ x. x ≢ b'/') sensor (b'_' ∷ place build) ls ((omega arith), lp)),
              ),
    )
