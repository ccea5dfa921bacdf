-- ===== src/Messages/Words.antt =====
-- The words of a text, and the texts that have given words.
use smart_window.Common.{
  ℕ, ◌≡◌, ◌≢◌, refl, sym, ap, ◌∙◌, Bool, true, ◌==◌, if◌then◌else◌, some, Bytes, List, [], ◌∷◌,
  ◌++◌, append_assoc, append-nil, length, All, All-append, Lacks, arith, Bool-cases, inl, inr,
}
use smart_window.Common.Int.{pos}
use smart_window.Messages.{split_string}
use smart_window.Messages.Tokens.{keep, pieces, words, split_string-words}

-- A word is not empty and has no delimiter.
abbrev pub IsWord : ℕ → Bytes → Type 0
IsWord d w = (w ≢ []) × Lacks d w

-- The text without its delimiters.
pub without : ℕ → Bytes → Bytes
without d [] = []
without d (c ∷ s) = if c == d then without d s else c ∷ without d s

pub join : List Bytes → Bytes
join [] = []
join (w ∷ ws) = w ++ join ws

keep-IsWord :
    (d : ℕ) (w : Bytes) (ws : List Bytes)
    → Lacks d w
    → All (IsWord d) ws
    → All (IsWord d) (keep w ws)
unfolding keep
keep-IsWord d [] ws h hs = hs
keep-IsWord d (c ∷ w) ws h hs = (((λ e. ground arith), h), hs)

pieces-IsWord : (d : ℕ) (s cur : Bytes) → Lacks d cur → All (IsWord d) (pieces d s cur)
unfolding pieces
pieces-IsWord d [] cur h = keep-IsWord d cur [] h tt
pieces-IsWord d (c ∷ s) cur h = elim (Bool-cases (c == d)) [
  | inl e ↦ rw (e, pieces) (keep-IsWord d cur (pieces d s []) h (pieces-IsWord d s [] tt))
  | inr e ↦
      rw (e, pieces)
        (pieces-IsWord d s (cur ++ c ∷ [])
          (All-append (λ x. x ≢ d) cur (c ∷ []) h ((λ same. ground arith), tt)))
]

join-keep : (w : Bytes) (ws : List Bytes) → join (keep w ws) ≡ w ++ join ws
unfolding join keep
join-keep [] ws = refl
join-keep (c ∷ w) ws = refl

join-pieces : (d : ℕ) (s cur : Bytes) → join (pieces d s cur) ≡ cur ++ without d s
unfolding pieces without
join-pieces d [] cur = join-keep cur [] ∙ unfold join in refl
join-pieces d (c ∷ s) cur = ground (
  arith,
  join-keep cur (pieces d s []),
  join-pieces d s [],
  join-pieces d s (cur ++ c ∷ []),
  append_assoc cur (c ∷ []) (without d s),
)

-- A word that has no delimiter goes on until one is met.
pieces-append :
    (d : ℕ) (w s cur : Bytes) → Lacks d w → pieces d (w ++ s) cur ≡ pieces d s (cur ++ w)
unfolding pieces
pieces-append d [] s cur h = rw append-nil
pieces-append d (c ∷ w) s cur h =
    ground (arith, pieces-append d w s (cur ++ c ∷ []) h.1, append_assoc cur (c ∷ []) w)

pieces_at : (d : ℕ) (s cur : Bytes) → pieces d (d ∷ s) cur ≡ keep cur (pieces d s [])
unfolding pieces
pieces_at d s cur = ground arith

keep-word : (d : ℕ) (w : Bytes) (ws : List Bytes) → IsWord d w → keep w ws ≡ w ∷ ws
unfolding keep
keep-word d [] ws h = absurd (h.0 refl)
keep-word d (c ∷ w) ws h = refl

-- The first word of a text ends at its first delimiter.
pub words-append : (d : ℕ) (w s : Bytes) → IsWord d w → words d (w ++ d ∷ s) ≡ w ∷ words d s
unfolding words
words-append d w s h =
    pieces-append d w (d ∷ s) [] h.1 ∙ pieces_at d s w ∙ keep-word d w (pieces d s []) h

pub words-word : (d : ℕ) (w : Bytes) → IsWord d w → words d w ≡ w ∷ []
unfolding words
words-word d w h =
    ap (λ x. pieces d x []) (sym (append-nil w))
    ∙ pieces-append d w [] [] h.1
    ∙ unfold pieces in keep-word d w [] h

-- Where memory is given, `splitString` returns without fault: the parts are not empty and have no
-- delimiter, their number is returned, and together they hold each other byte of the text in order.
pub split_string_correct :
    (alloc : ℕ → Bool) (s : Bytes) (d : ℕ)
    → ((n : ℕ) → alloc n ≡ true)
    → (ws : List Bytes) × (split_string alloc s d
        ≡ some (record { count = pos (length ws); parts = some ws }))
      × All (IsWord d) ws
      × (join ws ≡ without d s)
unfolding words
split_string_correct alloc s d gives =
    (words d s, split_string-words alloc gives s d, pieces-IsWord d s [] tt, join-pieces d s [])
