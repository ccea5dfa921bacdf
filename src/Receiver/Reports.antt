-- ===== src/Receiver/Reports.antt =====
-- What the messages of a sensor node do at the controller.
use smart_window.Common.{
  ℕ, ◌≡◌, ◌≢◌, ap, ◌∙◌, Bool, true, some, Bytes, codes, [], ◌∷◌, ◌++◌, append_assoc, All-append,
  Lacks, arith,
}
use smart_window.Messages.{concat, table_name, put_command}
use smart_window.Messages.Tokens.{split_string-words}
use smart_window.Messages.Words.{IsWord, words-append, words-word}
use smart_window.Receiver.{store, handle_parts, handle_message}

module _ (alloc : ℕ → Bool) (gives : (n : ℕ) → alloc n ≡ true) where
  concat-some : (s t : Bytes) → concat alloc (some s) (some t) ≡ some (some (s ++ t))
  unfolding concat
  concat-some s t = rw gives

  pub table_name-some :
      (sensor suffix : Bytes)
      → table_name alloc (some sensor) (some suffix) ≡ some (some (sensor ++ (b'_' ∷ suffix)))
  unfolding table_name
  table_name-some sensor suffix = rw (concat-some sensor (codes "_")) (
      concat-some (sensor ++ codes "_") suffix
      ∙ ap (λ s. some (some s)) (append_assoc sensor (codes "_") suffix))

  -- Where memory is given, a message of three names and a value stores the value under the last two
  -- names, whatever the command is that the first name gives.
  pub handle_three :
      (cmd sensor position value : Bytes)
      → IsWord b'_' cmd
      → IsWord b'_' sensor
      → IsWord b'_' position
      → IsWord b'/' value
      → IsWord b'/' (cmd ++ (b'_' ∷ (sensor ++ (b'_' ∷ position))))
      → handle_message alloc ((cmd ++ (b'_' ∷ (sensor ++ (b'_' ∷ position)))) ++ (b'/' ∷ value))
        ≡ some (record { table = sensor ++ (b'_' ∷ position); value = value } ∷ [])
  unfolding handle_message handle_parts store
  handle_three cmd sensor position value hc hs hp hv hn = rw (
    split_string-words alloc gives _ b'/',
    words-append b'/' (cmd ++ (b'_' ∷ (sensor ++ (b'_' ∷ position)))) value hn,
    words-word b'/' value hv,
    split_string-words alloc gives (cmd ++ (b'_' ∷ (sensor ++ (b'_' ∷ position)))) b'_',
    words-append b'_' cmd (sensor ++ (b'_' ∷ position)) hc,
    words-append b'_' sensor position hs,
    words-word b'_' position hp,
    table_name-some sensor position,
  )

  put_command-some :
      (sensor position value : Bytes)
      → put_command alloc (some sensor) (some position) (some value)
        ≡ some (some ((codes "PUT" ++ (b'_' ∷ (sensor ++ (b'_' ∷ position)))) ++ (b'/' ∷ value)))
  unfolding put_command
  put_command-some sensor position value = simp (
    concat-some (codes "PUT") (codes "_"),
    table_name-some sensor position,
    concat-some (codes "/") value,
    concat-some (codes "PUT_") (sensor ++ (b'_' ∷ position)),
    concat-some (codes "PUT_" ++ (sensor ++ (b'_' ∷ position))) (b'/' ∷ value),
  )

  -- Where memory is given, the command that `putCommand` builds from names and a value without
  -- separators makes the receiver write that value to the table of these names.
  pub handle_message-put_command :
      (sensor position value : Bytes)
      → IsWord b'_' sensor
      → IsWord b'_' position
      → Lacks b'/' sensor
      → Lacks b'/' position
      → IsWord b'/' value
      → (text : Bytes) × (put_command alloc (some sensor) (some position) (some value)
          ≡ some (some text))
        × (handle_message alloc text
            ≡ some (record { table = sensor ++ (b'_' ∷ position); value = value } ∷ []))
  handle_message-put_command sensor position value hs hp ls lp hv = (
    _,
    put_command-some sensor position value,
    handle_three (codes "PUT") sensor position value ((λ e. ground arith), omega arith) hs hp hv
        (
          (λ e. ground arith),
          All-append (λ x. x ≢ b'/') (codes "PUT_") (sensor ++ (b'_' ∷ position)) (omega arith)
              (All-append (λ x. x ≢ b'/') sensor (b'_' ∷ position) ls ((omega arith), lp)),
        ),
  )
