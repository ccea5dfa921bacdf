-- ===== src/Database/Fits.antt =====
-- When a query fits its buffer.
use smart_window.Common.{
  ◌+◌, ◌≤◌, ◌<◌, ◌≡◌, refl, sym, ap, ◌∙◌, ltb, if◌then◌else◌, Option, none, some, Bytes, codes,
  List, [], ◌∷◌, ◌++◌, append_assoc, append-nil, length, length-append, arith,
}
use native.Mathlib.Decide.{dec_lt}
use smart_window.Database.Queries.{buf_size, strcat, insert_query}

-- Texts that are appended to a buffer one after the other.
strcat_all : Bytes → List Bytes → Option Bytes
strcat_all buf [] = some buf
strcat_all buf (s ∷ ss) = elim (strcat buf s) [ none ↦ none | some buf' ↦ strcat_all buf' ss ]

together : List Bytes → Bytes
together [] = []
together (s ∷ ss) = s ++ together ss

-- A text as a buffer holds it.
abbrev held : Bytes → Option Bytes
held t = if ltb (length t) buf_size then some t else none

held-fits : (t : Bytes) → length t < buf_size → held t ≡ some t
held-fits t h = ground arith

held-over : (t : Bytes) → buf_size ≤ length t → held t ≡ none
held-over t h = ground arith

strcat-held : (buf s : Bytes) → strcat buf s ≡ held (buf ++ s)
unfolding strcat
strcat-held buf s = refl

strcat_all-held :
    (buf : Bytes) (ss : List Bytes)
    → length buf < buf_size
    → strcat_all buf ss ≡ held (buf ++ together ss)
unfolding strcat_all together
strcat_all-held buf [] h = sym (ap held (append-nil buf) ∙ held-fits buf h)
strcat_all-held buf (s ∷ ss) h = elim (dec_lt (length (buf ++ s)) buf_size) [
  | yes fits ↦
      rw (strcat-held buf s ∙ held-fits (buf ++ s) fits, strcat_all)
        (strcat_all-held (buf ++ s) ss fits ∙ ap held (append_assoc buf s (together ss)))
  | no over ↦
      rw (strcat-held buf s ∙ held-over (buf ++ s) (omega arith), strcat_all)
        (sym (
          held-over (buf ++ (s ++ together ss)) (
            omega (
              arith,
              length-append {0} buf (s ++ together ss),
              length-append {0} s (together ss),
              length-append {0} buf s,
            ))))
]

-- The parts of the query, behind its first word.
parts : Bytes → Bytes → List Bytes
parts table value =
    table
    ∷ codes " ("
    ∷ codes "Zeitstempel"
    ∷ codes ", "
    ∷ codes "Wert"
    ∷ codes ") VALUES ("
    ∷ codes "NOW()"
    ∷ codes ", "
    ∷ value
    ∷ codes ");"
    ∷ []

insert_query-parts :
    (table value : Bytes)
    → insert_query table value ≡ strcat_all (codes "INSERT INTO ") (parts table value)
unfolding insert_query strcat_all parts
insert_query-parts table value = ground arith

-- The text of the query.
pub insert_text : Bytes → Bytes → Bytes
insert_text table value =
    codes "INSERT INTO "
    ++ (table ++ (codes " (Zeitstempel, Wert) VALUES (NOW(), " ++ (value ++ codes ");")))

length-insert_text :
    (table value : Bytes) → length (insert_text table value) ≡ 50 + length table + length value
unfolding insert_text
length-insert_text table value = omega (
  arith,
  length-append {0} table (codes " (Zeitstempel, Wert) VALUES (NOW(), " ++ (value ++ codes ");")),
  length-append {0} value (codes ");"),
)

-- The query that writes a value is the expected text if the name of the table and the value have less
-- than 205 bytes together, and otherwise overruns its buffer.
pub insert_query_fits :
    (table value : Bytes)
    → insert_query table value
      ≡ (if ltb (length table + length value) 205 then some (insert_text table value) else none)
unfolding together parts insert_text
insert_query_fits table value =
    let e =
      insert_query-parts table value
      ∙ strcat_all-held (codes "INSERT INTO ") (parts table value) (omega arith) in
    let n = length-insert_text table value in
    elim (dec_lt (length table + length value) 205) [
      | yes h ↦ e ∙ held-fits (insert_text table value) (omega arith) ∙ ground arith
      | no h ↦ e ∙ held-over (insert_text table value) (omega arith) ∙ ground arith
    ]
