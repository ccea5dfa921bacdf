-- ===== src/System/Agreement.antt =====
-- The node inside and the receiving thread of the controller, where each datagram arrives once and in order.
use smart_window.Common.{
  ℕ, ◌≤◌, ◌<◌, ◌≡◌, ◌≢◌, refl, sym, ap, ◌∙◌, inl, inr, Bool, true, false, not, some, Bytes, codes,
  str_eq, str_eq_sound, List, [], ◌∷◌, ◌++◌, All, Bool-cases, ltb, length, arith,
}
use smart_window.Controller.Alarms.{Row}
use smart_window.Receiver.{
  Received, failed, shut_down, datagram, handle_message, receive_loop, max_buf,
}
use smart_window.Receiver.Buffers.{receive_text}
use smart_window.Node.Main.{Main}
use smart_window.Node.Main.Requests.{IsAtRest}
use smart_window.Node.Link.{inside, pp_buf_size, Measured, Printing, Node}
use smart_window.Node.Link.Session.{
  communicate, listening, Expected, communicate-served, add_answer, Session,
}
use smart_window.Node.Link.Telling.{IsSilent, Tells, opened, closed, values, tell}
use smart_window.Node.Link.Texts.{IsText, PrintsTexts, serve-IsText}
use smart_window.System.{window_after}
use smart_window.System.Invariant.{handle_open, handle_close}

-- The datagrams of texts from one address, and of all answers.
unfoldable pub deliver : Bytes → List Bytes → List Received
deliver here [] = []
deliver here (t ∷ ts) = datagram here t ∷ deliver here ts

unfoldable pub delivered : Bytes → List (Bytes × List Bytes) → List Received
unfolding deliver
delivered here [] = []
delivered here ((_, texts) ∷ as') = deliver here texts ++ delivered here as'

short : (text : Bytes) → length text < pp_buf_size → ltb (length text) max_buf ≡ true
short text h = ground arith

module _ (truth : Bytes → Bool) (alloc : ℕ → Bool) (own here : Bytes)
    (other : str_eq own here ≡ false) where
  -- The rows of a text from the node come before those of what follows.
  pub stores_first :
      (text : Bytes) (rows later : List Row) (rest : List Received)
      → IsText text
      → handle_message alloc text ≡ some rows
      → receive_loop alloc own rest ≡ some later
      → receive_loop alloc own (datagram here text ∷ rest) ≡ some (rows ++ later)
  unfolding receive_loop
  stores_first text rows later rest (lacks, small) h e =
      rw (receive_text alloc own here text lacks, short text small, other, h, e) refl

  window_after-other :
      (row : Row) (rows : List Row) (b : Bool)
      → row.table ≢ codes "Win_Open"
      → window_after truth (row ∷ rows) b ≡ window_after truth rows b
  unfolding window_after
  window_after-other row rows b n = elim (Bool-cases (str_eq row.table (codes "Win_Open"))) [
    | inl e ↦ absurd (n (str_eq_sound row.table _ e))
    | inr e ↦ rw e refl
  ]

  -- Values of other tables keep what the table of the window says.
  silent_stores :
      (texts : List Bytes) (later : List Row) (rest : List Received)
      → All IsText texts
      → All (IsSilent alloc) texts
      → receive_loop alloc own rest ≡ some later
      → (rows : List Row) × (receive_loop alloc own (deliver here texts ++ rest) ≡ some rows)
        × ((b : Bool) → window_after truth rows b ≡ window_after truth later b)
  unfolding deliver
  silent_stores [] later rest ht hs e = (later, e, λ b. refl)
  silent_stores (t ∷ ts) later rest (ht, hts) ((row, h, n), hss) e =
      let (rows, e', w) = silent_stores ts later rest hts hss e in
      (
        row ∷ rows,
        stores_first t (row ∷ []) rows (deliver here ts ++ rest) ht h e',
        λ b. window_after-other row rows b n ∙ w b,
      )

-- What a session of the node inside comes to where its answers are delivered: the node that listens at
-- the end, and the rows that the controller writes. `next` tells whether the window is closed at first.
record Result (truth : Bytes → Bool) (alloc : ℕ → Bool) (own here : Bytes) (s : Session)
    (next : Bool) : Type 0 where
  after : Node
  rows : List Row
  listens : s.standing ≡ listening after
  rests : IsAtRest after.main
  writes : receive_loop alloc own (delivered here s.answers) ≡ some rows
  agrees : (b : Bool) → b ≡ not next → window_after truth rows b ≡ not after.main.open_next

module _ (truth : Bytes → Bool) (alloc : ℕ → Bool) (own here : Bytes)
    (gives : (n : ℕ) → alloc n ≡ true) (one : truth (codes "1") ≡ true)
    (zero_is : truth (codes "0") ≡ false) (other : str_eq own here ≡ false) where
  -- An answer before the rest of the session.
  add_told :
      (source : Bytes) (texts : List Bytes) (s : Session) (before after : Main)
      → All IsText texts
      → Tells alloc before after texts
      → Result truth alloc own here s after.open_next
      → Result truth alloc own here (add_answer (source, texts) s) before.open_next
  unfolding delivered deliver window_after
  add_told source texts s before after ht (opened t moved) v = rw t (record {
    after = v.after;
    rows = record { table = codes "Win_Open"; value = codes "1" } ∷ v.rows;
    listens = v.listens;
    rests = v.rests;
    writes =
        stores_first truth alloc own here other (codes "PUT_Win/Open") _ v.rows _
          (omega arith, omega arith) (handle_open truth alloc gives one zero_is) v.writes;
    agrees = λ b h. ap (window_after truth v.rows) one ∙ v.agrees true (sym (ap not moved));
  })
  add_told source texts s before after ht (closed t moved) v = rw t (record {
    after = v.after;
    rows = record { table = codes "Win_Open"; value = codes "0" } ∷ v.rows;
    listens = v.listens;
    rests = v.rests;
    writes =
        stores_first truth alloc own here other (codes "PUT_Win/Close") _ v.rows _
          (omega arith, omega arith) (handle_close truth alloc gives one zero_is) v.writes;
    agrees = λ b h. ap (window_after truth v.rows) zero_is ∙ v.agrees false (sym (ap not moved));
  })
  add_told source texts s before after ht (values hs same) v =
      let (rows, e, w) =
        silent_stores truth alloc own here other texts v.rows (delivered here s.answers) ht hs
          v.writes in
      record {
        after = v.after;
        rows = rows;
        listens = v.listens;
        rests = v.rests;
        writes = e;
        agrees = λ b h. w b ∙ v.agrees b (h ∙ sym (ap not same));
      }

  module _ (printing : Printing) (fuel : ℕ) (enough : 70 ≤ fuel)
      (prints : PrintsTexts printing) where
    session-Result :
        (rs : List (Received × Measured)) (node : Node)
        → All (Expected printing) rs
        → IsAtRest node.main
        → Result truth alloc own here (communicate inside printing fuel rs node) node.main.open_next
    unfolding communicate delivered
    session-Result [] node h r = record {
      after = node;
      rows = [];
      listens = refl;
      rests = r;
      writes = unfold receive_loop in refl;
      agrees = λ b e. unfold window_after in e;
    }
    session-Result ((failed, fresh) ∷ rs) node h r = session-Result rs node h.1 r
    session-Result ((shut_down, fresh) ∷ rs) node h r = session-Result rs node h.1 r
    session-Result ((datagram source payload, fresh) ∷ rs) node ((q, p), h) r =
        let t = tell alloc gives printing fuel fresh node payload enough r p q in
        rw (communicate-served printing fuel source payload fresh rs node t.after t.texts t.answers)
          (add_told source t.texts _ node.main t.after.main
            (serve-IsText inside printing prints fuel payload fresh node t.after t.texts t.answers)
            t.tells (session-Result rs t.after h t.rests))

    -- With the window at rest and the table of the window saying whether it is open, let the node
    -- inside receive any requests of the controller, with printed values that fit and hold no zero
    -- byte, and let each text that it answers reach the controller once and in order. Then the
    -- controller, if it has memory, has another address and takes 1 for true and 0 for false, handles
    -- all of them without a fault, and at the end the node listens with the window at rest, and the
    -- table says again whether it is open.
    pub agreement :
        (rs : List (Received × Measured)) (node : Node) (b : Bool)
        → All (Expected printing) rs
        → IsAtRest node.main
        → b ≡ not node.main.open_next
        → (node' : Node) × (rows : List Row) × ((communicate inside printing fuel rs node).standing
            ≡ listening node')
          × (receive_loop alloc own
                (delivered here (communicate inside printing fuel rs node).answers)
              ≡ some rows)
          × IsAtRest node'.main
          × (window_after truth rows b ≡ not node'.main.open_next)
    agreement rs node b h r e =
        let v = session-Result rs node h r in
        (v.after, v.rows, v.listens, v.writes, v.rests, v.agrees b e)
