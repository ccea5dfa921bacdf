-- ===== src/Receiver/Buffers.antt =====
-- The buffer of the receiving thread.
use smart_window.Common.{
  ℕ, zero, suc, ◌<◌, ◌≡◌, refl, Bool, ltb, if◌then◌else◌, str_eq, none, some, Bytes, [], ◌∷◌, ◌++◌,
  Lacks, length, arith, Bool-cases, inl, inr,
}
use smart_window.Receiver.{c_string, receive, handle_message, max_buf}

-- A text without zero bytes is read back if it leaves room for a terminator, and runs over otherwise.
pub c_string-text :
    (size : ℕ) (s : Bytes)
    → Lacks 0 s
    → c_string size s ≡ (if ltb (length s) size then some s else none)
unfolding c_string
c_string-text size [] h = ground arith
c_string-text zero (c ∷ s) h = ground arith
c_string-text (suc size) (c ∷ s) h = ground (arith, c_string-text size s h.1)

-- A text that is followed by a zero byte ends there.
pub c_string-zero :
    (size : ℕ) (s rest : Bytes)
    → Lacks 0 s
    → length s < size
    → c_string size (s ++ 0 ∷ rest) ≡ some s
unfolding c_string
c_string-zero size [] rest h small = ground arith
c_string-zero zero (c ∷ s) rest h small = absurd (omega arith)
c_string-zero (suc size) (c ∷ s) rest h small =
    ground (arith, c_string-zero size s rest h.1 (omega arith))

-- A datagram without zero bytes is ignored if it comes from the controller itself, and handled as its
-- text otherwise, if it has less than 2048 bytes; a longer one is read past the end of the buffer.
pub receive_text :
    (alloc : ℕ → Bool) (own source payload : Bytes)
    → Lacks 0 payload
    → receive alloc own source payload ≡ (
        if ltb (length payload) max_buf
        then if str_eq own source then some [] else handle_message alloc payload
        else none)
unfolding receive
receive_text alloc own source payload h = elim (Bool-cases (ltb (length payload) max_buf)) [
  | inl e ↦ rw (c_string-text max_buf payload h, e) refl
  | inr e ↦ rw (c_string-text max_buf payload h, e) refl
]
