-- ===== src/Network/Interfaces.antt =====
-- Which address the controller takes for its own.
use smart_window.Common.{
  ℕ, ◌≡◌, refl, ap, sym, append-nil, ◌∙◌, ◌⊎◌, inl, inr, true, false, none, some, Bytes, List, [],
  ◌∷◌, ◌++◌, All,
}
use smart_window.Common.Int.{pos, negsuc}
use smart_window.Network.{Interface, strncmp_eq, find_address, search_result, get_link_local_addr}

-- An interface that the loop passes over: of another family, or with another name.
abbrev pub IsPassed : {A : Type 0} → Bytes → ℕ → Interface A → Type 0
IsPassed {A} if_name n i =
    (i.addr ≡ some none)
    ⊎ ((a : A) × (i.addr ≡ some (some a)) × (strncmp_eq i.name if_name n ≡ false))

pass :
    {A : Type 0} (if_name : Bytes) (n : ℕ) (before rest : List (Interface A))
    → All (IsPassed if_name n) before
    → find_address if_name n (before ++ rest) ≡ find_address if_name n rest
unfolding find_address
pass if_name n [] rest h = refl
pass if_name n (i ∷ before) rest (inl e, h) = rw e (pass if_name n before rest h)
pass if_name n (i ∷ before) rest (inr (a, e, e'), h) = rw (e, e') (pass if_name n before rest h)

found :
    {A : Type 0} (if_name : Bytes) (n : ℕ) (i : Interface A) (rest : List (Interface A)) (a : A)
    → i.addr ≡ some (some a)
    → strncmp_eq i.name if_name n ≡ true
    → find_address if_name n (i ∷ rest) ≡ some (some a)
unfolding find_address
found if_name n i rest a e e' = rw (e, e') refl

no_address :
    {A : Type 0} (if_name : Bytes) (n : ℕ) (i : Interface A) (rest : List (Interface A))
    → i.addr ≡ none
    → find_address if_name n (i ∷ rest) ≡ none
unfolding find_address
no_address if_name n i rest e = rw e refl

at_end : {A : Type 0} (if_name : Bytes) (n : ℕ) → find_address {A = A} if_name n [] ≡ some none
unfolding find_address
at_end if_name n = refl

-- Behind interfaces of another family or with another name, the address of an IPv6 interface whose name
-- agrees in the first `n` bytes is found.
get_link_local_addr_finds :
    {A : Type 0} (if_name : Bytes) (n : ℕ) (before after : List (Interface A)) (i : Interface A)
    (a : A)
    → All (IsPassed if_name n) before
    → i.addr ≡ some (some a)
    → strncmp_eq i.name if_name n ≡ true
    → get_link_local_addr if_name n (some (before ++ i ∷ after)) ≡ some (pos 0, some a)
unfolding get_link_local_addr search_result
get_link_local_addr_finds if_name n before after i a h e e' =
    ap search_result (pass if_name n before (i ∷ after) h ∙ found if_name n i after a e e')

-- Behind interfaces of another family or with another name, an interface without an address makes the
-- search read a null pointer.
pub get_link_local_addr_crash :
    {A : Type 0} (if_name : Bytes) (n : ℕ) (before after : List (Interface A)) (i : Interface A)
    → All (IsPassed if_name n) before
    → i.addr ≡ none
    → get_link_local_addr if_name n (some (before ++ i ∷ after)) ≡ none
unfolding get_link_local_addr search_result
get_link_local_addr_crash if_name n before after i h e =
    ap search_result (pass if_name n before (i ∷ after) h ∙ no_address if_name n i after e)

-- If every interface is of another family or has another name, the search fails with -2.
pub get_link_local_addr_fails :
    {A : Type 0} (if_name : Bytes) (n : ℕ) (is : List (Interface A))
    → All (IsPassed if_name n) is
    → get_link_local_addr if_name n (some is) ≡ some (negsuc 1, none)
unfolding get_link_local_addr search_result
get_link_local_addr_fails if_name n is h =
    ap search_result (
      ap (find_address if_name n) (sym (append-nil is)) ∙ pass if_name n is [] h ∙ at_end if_name n)
