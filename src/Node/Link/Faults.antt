-- ===== src/Node/Link/Faults.antt =====
-- Buffers of the node that are overrun.
use smart_window.Common.{
  ℕ, suc, ◌≤◌, ◌≡◌, ◌⊎◌, inl, inr, refl, ap, ◌∙◌, ltb, if◌then◌else◌, none, some, Bytes, codes,
  Lacks, length, arith,
}
use smart_window.Receiver.{c_string}
use smart_window.Receiver.Buffers.{c_string-text}
use smart_window.Node.Main.{finish_measurement}
use smart_window.Node.Main.Requests.{measurement_request}
use smart_window.Node.Link.{
  Build, inside, outside, Measured, Printing, Node, undefined, pp_buf_size, value_size,
  choose_command, answers, report, serve, conclude,
}

-- A printed value leaves no room for its terminator.
abbrev pub IsLong : Bytes → Type 0
IsLong v = value_size ≤ length v

-- One of the five printed values is too long.
abbrev pub Overflows : Printing → Measured → Type 0
Overflows printing m =
    IsLong (printing.tenths m.temperature)
    ⊎ IsLong (printing.as_int m.pressure)
    ⊎ IsLong (printing.hundredths m.volume)
    ⊎ IsLong (printing.hundredths m.humidity)
    ⊎ IsLong (printing.hundredths m.air_quality)

report-none : (build : Build) (sensor v : Bytes) → IsLong v → report build sensor v ≡ none
unfolding report
report-none build sensor v h = ground arith

answers-none :
    (build : Build) (printing : Printing) (m : Measured)
    → Overflows printing m
    → answers build printing finish_measurement m ≡ none
unfolding answers
answers-none build printing m h = ground (
  arith,
  report-none build (codes "Temp") (printing.tenths m.temperature),
  report-none build (codes "AirPressure") (printing.as_int m.pressure),
  report-none build (codes "Volume") (printing.hundredths m.volume),
  report-none build (codes "Humidity") (printing.hundredths m.humidity),
  report-none build (codes "AirQuality") (printing.hundredths m.air_quality),
)

data_faults :
    (build : Build) (printing : Printing) (fuel : ℕ) (fresh : Measured) (node : Node)
    → Overflows printing fresh
    → serve build printing (suc fuel) (codes "GET_All") fresh node ≡ undefined
unfolding serve choose_command c_string conclude
data_faults inside printing fuel fresh node h =
    rw (measurement_request fuel node.main, answers-none inside printing fresh h)
data_faults outside printing fuel fresh node h =
    rw (measurement_request fuel node.main, answers-none outside printing fresh h)

-- What a node does has no defined outcome in two cases: a datagram without zero bytes fills the buffer
-- of 64 bytes, or data is asked for and a value takes ten characters or more when it is printed.
pub serve_faults :
    (build : Build) (printing : Printing) (fuel : ℕ) (payload : Bytes) (fresh : Measured)
    (node : Node)
    → (Lacks 0 payload × (pp_buf_size ≤ length payload))
      ⊎ ((payload ≡ codes "GET_All") × Overflows printing fresh)
    → serve build printing (suc fuel) payload fresh node ≡ undefined
unfolding serve conclude
serve_faults build printing fuel payload fresh node (inl (h, long)) =
    rw (c_string-text pp_buf_size payload h ∙ full, serve) refl
  where
    full : (if ltb (length payload) pp_buf_size then some payload else none) ≡ none
    full = ground arith
serve_faults build printing fuel payload fresh node (inr (e, h)) =
    ap (λ x. serve build printing (suc fuel) x fresh node) e
    ∙ data_faults build printing fuel fresh node h
