-- ===== src/Messages/Tokens.antt =====
-- `splitString` against the words of a text: its longest parts without the delimiter.
use smart_window.Common.{
  ℕ, zero, suc, ◌≤◌, ◌<◌, ◌≡◌, refl, sym, ◌∙◌, ◌⊎◌, inl, inr, Bool, true, false, ◌==◌, Option, none,
  some, Bytes, List, [], ◌∷◌, ◌++◌, append_assoc, append-nil, length, arith,
}
use smart_window.Common.Int.{pos}
use smart_window.Messages.{skip, word, word_of, strtok, split_loop, split_string}

-- A word that is not empty is kept.
unfoldable pub keep : Bytes → List Bytes → List Bytes
keep [] ws = ws
keep (c ∷ w) ws = (c ∷ w) ∷ ws

-- The words of a text, the first of them begun with `cur`.
unfoldable pub pieces : ℕ → Bytes → Bytes → List Bytes
unfolding keep
pieces d [] cur = keep cur []
pieces d (c ∷ s) cur = elim (c == d) [
  | true ↦ keep cur (pieces d s [])
  | false ↦ pieces d s (cur ++ c ∷ [])
]

unfoldable pub words : ℕ → Bytes → List Bytes
unfolding pieces
words d s = pieces d s []

words-skip : (d : ℕ) (s : Bytes) → words d (skip d s) ≡ words d s
unfolding words skip
words-skip d [] = refl
words-skip d (c ∷ s) = ground (arith, words-skip d s)

pieces-word :
    (d : ℕ) (s cur : Bytes) → pieces d s cur ≡ keep (cur ++ (word d s).0) (words d (word d s).1)
unfolding words word
pieces-word d [] cur = rw append-nil
pieces-word d (c ∷ s) cur =
    ground (
      arith,
      pieces-word d s (cur ++ c ∷ []),
      append_assoc cur (c ∷ []) (word d s).0,
      append-nil cur,
    )

length-word : (d : ℕ) (s : Bytes) → length (word d s).1 ≤ length s
unfolding word
length-word d [] = omega arith
length-word d (c ∷ s) = ground (arith, length-word d s)

length-skip : (d : ℕ) (s : Bytes) → length (skip d s) ≤ length s
unfolding skip
length-skip d [] = omega arith
length-skip d (c ∷ s) = ground (arith, length-skip d s)

-- What one call of `strtok` finds.
abbrev Found : ℕ → Bytes → Option (Bytes × Bytes) → Type 0
Found d s r =
    ((r ≡ none) × (words d s ≡ []))
    ⊎ ((w : Bytes) × (rest : Bytes) × (r ≡ some (w, rest))
        × (words d s ≡ w ∷ words d rest)
        × (length rest < length s))

skip-head : (d c : ℕ) (s t : Bytes) → skip d s ≡ c ∷ t → (c == d) ≡ false
unfolding skip
skip-head d c [] t e = ground arith
skip-head d c (x ∷ s) t e = ground (arith, skip-head d c s t)

word_of-start :
    (d c : ℕ) (t : Bytes)
    → (c == d) ≡ false
    → word_of d (c ∷ t) ≡ some (c ∷ (word d t).0, (word d t).1)
unfolding word_of
word_of-start d c t h = ground arith

words-start :
    (d c : ℕ) (t : Bytes)
    → (c == d) ≡ false
    → words d (c ∷ t) ≡ (c ∷ (word d t).0) ∷ words d (word d t).1
unfolding words pieces keep
words-start d c t h = ground (arith, pieces-word d t (c ∷ []))

Found-after_skip :
    (d : ℕ) (s s' : Bytes)
    → skip d s ≡ s'
    → words d s ≡ words d s'
    → length s' ≤ length s
    → Found d s (word_of d s')
Found-after_skip d s [] e same le = inl (unfold word_of in refl, same ∙ unfold words in refl)
Found-after_skip d s (c ∷ t) e same le =
    let starts = skip-head d c s t e in
    inr (
      c ∷ (word d t).0,
      (word d t).1,
      word_of-start d c t starts,
      same ∙ words-start d c t starts,
      omega (arith, length-word d t),
    )

strtok-Found : (d : ℕ) (s : Bytes) → Found d s (strtok d s)
unfolding strtok
strtok-Found d s = Found-after_skip d s (skip d s) refl (sym (words-skip d s)) (length-skip d s)

module _ (alloc : ℕ → Bool) (gives : (n : ℕ) → alloc n ≡ true) where
  split_loop-words :
      (fuel d : ℕ) (s : Bytes) (ws : List Bytes)
      → length s < fuel
      → let all = ws ++ words d s in
        split_loop alloc fuel d s ws ≡ some (record { count = pos (length all); parts = some all })
  unfolding split_loop
  split_loop-words zero d s ws h = elim h [ ]
  split_loop-words (suc fuel) d s ws h = elim (strtok-Found d s) [
    | inl (e, nothing) ↦ rw (e, split_loop, nothing, append-nil, gives)
    | inr (w, rest, e, first, less) ↦
        rw (e, split_loop, first, gives)
          (rw (← append_assoc ws (w ∷ []) (words d rest))
            (split_loop-words fuel d rest (ws ++ w ∷ []) (omega arith)))
  ]

  -- Where memory is given, splitting ends, and gives the words of the text and their number.
  pub split_string-words :
      (s : Bytes) (d : ℕ)
      → split_string alloc s d
        ≡ some (record { count = pos (length (words d s)); parts = some (words d s) })
  unfolding split_string
  split_string-words s d = split_loop-words (suc (length s)) d s [] (omega arith)
