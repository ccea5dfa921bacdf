-- ===== src/Node/Link/Measuring.antt =====
-- What the nodes answer to a request for data.
use smart_window.Common.{
  ℕ, suc, ◌<◌, ◌≡◌, refl, Bool, true, some, Bytes, codes, [], ◌∷◌, ◌++◌, length, arith, String,
}
use smart_window.Receiver.{c_string, handle_message}
use smart_window.Messages.Words.{IsWord}
use smart_window.Node.Link.Sending.{place, IsSensor, handle_message-send_string, fill-some}
use smart_window.Node.Main.{Main, start_measurement, finish_measurement, receive}
use smart_window.Node.Main.Requests.{measurement_request}
use smart_window.Node.Link.{
  Build, inside, outside, Measured, Printing, Node, Served, sent, value_size, choose_command,
  answers, serve, conclude, report,
}

abbrev pub FitsValue : Bytes → Type 0
FitsValue v = IsWord b'/' v × (length v < value_size)

-- The printed values fit their buffer and hold no slash.
pub record Prints (printing : Printing) (m : Measured) : Type 0 where
  pub temperature : FitsValue (printing.tenths m.temperature)
  pub pressure : FitsValue (printing.as_int m.pressure)
  pub volume : FitsValue (printing.hundredths m.volume)
  pub humidity : FitsValue (printing.hundredths m.humidity)
  pub air_quality : FitsValue (printing.hundredths m.air_quality)

-- What the controller stores for a text, where it has memory.
abbrev pub Stores : (ℕ → Bool) → Build → Bytes → String → Bytes → Type 0
Stores alloc build text sensor value =
    handle_message alloc text
    ≡ some (record { table = codes sensor ++ (b'_' ∷ place build); value = value } ∷ [])

-- Five texts that are sent, each of which stores a measured value in its sensor's table.
pub record Measurement (alloc : ℕ → Bool) (build : Build) (printing : Printing) (fresh : Measured)
    (m : Main) (o : Served) : Type 0 where
  pub t₁ : Bytes
  pub t₂ : Bytes
  pub t₃ : Bytes
  pub t₄ : Bytes
  pub t₅ : Bytes
  pub served :
      o
      ≡ sent (t₁ ∷ t₂ ∷ t₃ ∷ t₄ ∷ t₅ ∷ []) (record {
        main = record m { command = finish_measurement };
        command = finish_measurement;
      })
  pub temperature : Stores alloc build t₁ "Temp" (printing.tenths fresh.temperature)
  pub pressure : Stores alloc build t₂ "AirPressure" (printing.as_int fresh.pressure)
  pub volume : Stores alloc build t₃ "Volume" (printing.hundredths fresh.volume)
  pub humidity : Stores alloc build t₄ "Humidity" (printing.hundredths fresh.humidity)
  pub air_quality : Stores alloc build t₅ "AirQuality" (printing.hundredths fresh.air_quality)

module _ (alloc : ℕ → Bool) (gives : (n : ℕ) → alloc n ≡ true) (build : Build) where
  -- A value that fits is printed, sent and stored.
  line :
      (sensor value : Bytes)
      → IsSensor sensor
      → FitsValue value
      → (text : Bytes) × (report build sensor value ≡ some text)
        × (handle_message alloc text
            ≡ some (record { table = sensor ++ (b'_' ∷ place build); value = value } ∷ []))
  unfolding report
  line sensor value hs (hv, small) =
      let (text, s, h) = handle_message-send_string alloc build sensor value gives hs hv small in
      (text, rw (fill-some value_size value small) s, h)

  -- The main thread measures, and the values are sent.
  pub measures :
      (printing : Printing) (fuel : ℕ) (fresh : Measured) (m : Main)
      → Prints printing fresh
      → Measurement alloc build printing fresh m
          (conclude build printing (suc fuel) fresh (receive (suc fuel) start_measurement m))
  unfolding conclude answers
  measures printing fuel fresh m p =
      let (t₁, s₁, h₁) =
        line (codes "Temp") _ (((λ e. ground arith), omega arith), omega arith, omega arith)
          p.temperature in
      let (t₂, s₂, h₂) =
        line (codes "AirPressure") _ (((λ e. ground arith), omega arith), omega arith, omega arith)
          p.pressure in
      let (t₃, s₃, h₃) =
        line (codes "Volume") _ (((λ e. ground arith), omega arith), omega arith, omega arith)
          p.volume in
      let (t₄, s₄, h₄) =
        line (codes "Humidity") _ (((λ e. ground arith), omega arith), omega arith, omega arith)
          p.humidity in
      let (t₅, s₅, h₅) =
        line (codes "AirQuality") _ (((λ e. ground arith), omega arith), omega arith, omega arith)
          p.air_quality in
      record {
        t₁ = t₁;
        t₂ = t₂;
        t₃ = t₃;
        t₄ = t₄;
        t₅ = t₅;
        served = rw (measurement_request fuel m, s₁, s₂, s₃, s₄, s₅);
        temperature = h₁;
        pressure = h₂;
        volume = h₃;
        humidity = h₄;
        air_quality = h₅;
      }

data_request :
    (build : Build) (printing : Printing) (fuel : ℕ) (fresh : Measured) (node : Node)
    → serve build printing fuel (codes "GET_All") fresh node
      ≡ conclude build printing fuel fresh (receive fuel start_measurement node.main)
unfolding serve choose_command c_string
data_request inside printing fuel fresh node = refl
data_request outside printing fuel fresh node = refl

-- A request for data is served by each node from any kept command: if the printed values fit, the node
-- sends five texts, and the controller stores the five values that were measured, each in the table of
-- its sensor and of the place of the node.
pub serve_measurement :
    (build : Build) (printing : Printing) (fuel : ℕ) (fresh : Measured) (node : Node)
    (alloc : ℕ → Bool)
    → ((n : ℕ) → alloc n ≡ true)
    → Prints printing fresh
    → Measurement alloc build printing fresh node.main
        (serve build printing (suc fuel) (codes "GET_All") fresh node)
serve_measurement build printing fuel fresh node alloc gives p =
    rw (data_request build printing (suc fuel) fresh node)
      (measures alloc gives build printing fuel fresh node.main p)
