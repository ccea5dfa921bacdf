-- ===== src/Receiver/Window.antt =====
-- What the other messages do at the controller: the reports of the window, messages that are ignored,
-- and messages that crash it.
use smart_window.Common.{
  if◌then◌else◌, ◌∙◌, ap, refl, Bool, true, false, ℕ, ◌≡◌, ◌≢◌, ◌⊎◌, inl, inr, none, some, Bytes,
  codes, [], ◌∷◌, ◌++◌, All, All-append, Lacks, arith, str_eq, str_eq_sound, Bool-cases,
}
use smart_window.Messages.Tokens.{words, pieces, split_string-words}
use smart_window.Messages.Words.{IsWord, words-append, words-word}
use smart_window.Receiver.{report, handle_parts, handle_message, window_report}

-- The reports that count.
abbrev pub IsReport : Bytes → Bytes → Type 0
IsReport cmd value = (cmd ≡ codes "PUT") × ((value ≡ codes "Open") ⊎ (value ≡ codes "Close"))

window_report-other : (cmd value : Bytes) → ¬ IsReport cmd value → window_report cmd value ≡ []
unfolding window_report
window_report-other cmd value n = elim (Bool-cases (str_eq cmd (codes "PUT"))) [
  | inr e ↦ rw e
  | inl e ↦ elim (Bool-cases (str_eq value (codes "Open"))) [
    | inl o ↦ absurd (n (str_eq_sound cmd _ e, inl (str_eq_sound value _ o)))
    | inr o ↦ elim (Bool-cases (str_eq value (codes "Close"))) [
      | inl c ↦ absurd (n (str_eq_sound cmd _ e, inr (str_eq_sound value _ c)))
      | inr c ↦ rw (e, o, c)
    ]
  ]
]

-- A text of separators alone has no word.
words-separators : (d : ℕ) (s : Bytes) → All (λ c. c ≡ d) s → words d s ≡ []
unfolding words pieces
words-separators d [] h = refl
words-separators d (c ∷ s) h = ground (arith, words-separators d s h.1)

separators-Lacks : (s : Bytes) → All (λ c. c ≡ b'_') s → Lacks b'/' s
separators-Lacks [] h = tt
separators-Lacks (c ∷ s) h = ((λ e. ground arith), separators-Lacks s h.1)

put-Lacks : (device : Bytes) → Lacks b'/' device → Lacks b'/' (codes "PUT" ++ (b'_' ∷ device))
put-Lacks device ls = All-append (λ x. x ≢ b'/') (codes "PUT_") device (omega arith) ls

module _ (alloc : ℕ → Bool) (gives : (n : ℕ) → alloc n ≡ true) where
  handle_two :
      (cmd device value : Bytes)
      → IsWord b'_' cmd
      → IsWord b'_' device
      → IsWord b'/' value
      → IsWord b'/' (cmd ++ (b'_' ∷ device))
      → handle_message alloc ((cmd ++ (b'_' ∷ device)) ++ (b'/' ∷ value))
        ≡ some (window_report cmd value)
  unfolding handle_message handle_parts report
  handle_two cmd device value hc hd hv hn = rw (
    split_string-words alloc gives _ b'/',
    words-append b'/' (cmd ++ (b'_' ∷ device)) value hn,
    words-word b'/' value hv,
    split_string-words alloc gives (cmd ++ (b'_' ∷ device)) b'_',
    words-append b'_' cmd device hc,
    words-word b'_' device hd,
  )

  -- Where memory is given, the command PUT with Open or Close writes that the window is open or
  -- closed, whatever the device is that it names, if its name has no separator.
  pub handle_window_report :
      (device : Bytes) (open_it : Bool)
      → IsWord b'_' device
      → Lacks b'/' device
      → handle_message alloc (
          (codes "PUT" ++ (b'_' ∷ device))
          ++ (b'/' ∷ (if open_it then codes "Open" else codes "Close")))
        ≡ some (
            record { table = codes "Win_Open"; value = if open_it then codes "1" else codes "0" }
            ∷ [])
  handle_window_report device true hd ls =
      handle_two (codes "PUT") device (codes "Open") ((λ e. ground arith), omega arith) hd
        ((λ e. ground arith), omega arith) ((λ e. ground arith), put-Lacks device ls)
      ∙ unfold window_report in refl
  handle_window_report device false hd ls =
      handle_two (codes "PUT") device (codes "Close") ((λ e. ground arith), omega arith) hd
        ((λ e. ground arith), omega arith) ((λ e. ground arith), put-Lacks device ls)
      ∙ unfold window_report in refl

  -- Where memory is given, any other message of two names and a value writes nothing.
  pub handle_window_other :
      (cmd device value : Bytes)
      → IsWord b'_' cmd
      → IsWord b'_' device
      → IsWord b'/' value
      → IsWord b'/' (cmd ++ (b'_' ∷ device))
      → ¬ IsReport cmd value
      → handle_message alloc ((cmd ++ (b'_' ∷ device)) ++ (b'/' ∷ value)) ≡ some []
  handle_window_other cmd device value hc hd hv hn n =
      handle_two cmd device value hc hd hv hn ∙ ap some (window_report-other cmd value n)

  -- Where memory is given, a message of underscores, a slash and a value reads a null pointer.
  pub handle_message_crash :
      (separators value : Bytes)
      → separators ≢ []
      → All (λ c. c ≡ b'_') separators
      → IsWord b'/' value
      → handle_message alloc (separators ++ (b'/' ∷ value)) ≡ none
  unfolding handle_message handle_parts report
  handle_message_crash separators value n h hv = rw (
    split_string-words alloc gives _ b'/',
    words-append b'/' separators value (n, separators-Lacks separators h),
    words-word b'/' value hv,
    split_string-words alloc gives separators b'_',
    words-separators b'_' separators h,
  )
