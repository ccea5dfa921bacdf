-- ===== src/Tests/Texts.antt =====
-- Messages at the controller (RaspberryPi/Window_Controller/main_controller.cpp, lines 238 to 292 and 890
-- to 977).
use smart_window.Common.{
  ℕ, ◌≡◌, refl, Bool, true, none, some, Bytes, codes, [], ◌∷◌, ◌++◌, All, Lacks, length, arith,
  List,
}
use smart_window.Common.Int.{pos}
use smart_window.Messages.{split_string, put_command}
use smart_window.Messages.Words.{IsWord, join, without, split_string_correct}
use smart_window.Receiver.{handle_message}
use smart_window.Receiver.Reports.{handle_message-put_command}
use smart_window.Receiver.Window.{handle_message_crash}

-- Memory is always given.
abbrev always : ℕ → Bool
always n = true

gives : (n : ℕ) → always n ≡ true
gives n = refl

temp_IsWord : IsWord b'_' (codes "Temp")
temp_IsWord = ((λ e. ground arith), omega arith)

in_IsWord : IsWord b'_' (codes "IN")
in_IsWord = ((λ e. ground arith), omega arith)

value_IsWord : IsWord b'/' (codes "22.5")
value_IsWord = ((λ e. ground arith), omega arith)

temp_Lacks : Lacks b'/' (codes "Temp")
temp_Lacks = omega arith

in_Lacks : Lacks b'/' (codes "IN")
in_Lacks = omega arith

split_string_correct_example :
    (ws : List Bytes) × (split_string always (codes "__PUT__Temp_IN") b'_'
      ≡ some (record { count = pos (length ws); parts = some ws }))
    × All (IsWord b'_') ws
    × (join ws ≡ without b'_' (codes "__PUT__Temp_IN"))
split_string_correct_example = split_string_correct always (codes "__PUT__Temp_IN") b'_' gives

handle_message-put_command_example :
    (text : Bytes) × (put_command always
        (some (codes "Temp"))
        (some (codes "IN"))
        (some (codes "22.5"))
      ≡ some (some text))
    × (handle_message always text
        ≡ some (record { table = codes "Temp" ++ (b'_' ∷ codes "IN"); value = codes "22.5" } ∷ []))
handle_message-put_command_example =
    handle_message-put_command always gives (codes "Temp") (codes "IN") (codes "22.5") temp_IsWord
      in_IsWord temp_Lacks in_Lacks value_IsWord

handle_message_crash_example : handle_message always (codes "_" ++ (b'/' ∷ codes "1")) ≡ none
handle_message_crash_example =
    handle_message_crash always gives (codes "_") (codes "1") (λ e. ground arith) (omega arith)
      ((λ e. ground arith), omega arith)
