-- ===== src/Node/Link/Serving.antt =====
-- How the node serves datagrams.
use smart_window.Common.{
  ℕ, suc, ◌≤◌, ◌≡◌, ◌≢◌, refl, ap, ◌∙◌, ◌⊎◌, inl, inr, true, false, some, Bytes, arith, codes, [],
  ◌∷◌, str_eq, str_eq_sound, Bool-cases,
}
use smart_window.Receiver.{c_string}
use smart_window.Node.Main.{Command, finish_measurement, finish_open_window, finish_close_window}
use smart_window.Node.Main.Requests.{IsAtRest, open_request, close_request, finished_waits}
use smart_window.Node.Link.{
  Build, inside, outside, Measured, Printing, Node, sent, deadlock, pp_buf_size, choose_command,
  answers, serve, conclude,
}

-- The kept command is the answer to a request.
abbrev pub IsFinished : Command → Type 0
IsFinished c = (c ≡ finish_measurement) ⊎ (c ≡ finish_open_window) ⊎ (c ≡ finish_close_window)

module _ (printing : Printing) (fuel : ℕ) (fresh : Measured) where
  -- With the window at rest, the command to open it is served whatever command was kept: the node
  -- sends back that the window is open, and is at rest with the window opened.
  pub serve_open :
      (node : Node)
      → 70 ≤ fuel
      → IsAtRest node.main
      → (node' : Node) × (serve inside printing fuel (codes "PUT_Win/Open") fresh node
          ≡ sent (codes "PUT_Win/Open" ∷ []) node')
        × IsAtRest node'.main
        × (node'.main.open_next ≡ false)
        × (node'.command ≡ finish_open_window)
  unfolding serve choose_command c_string
  serve_open node h r =
      let a = open_request fuel node.main h r in
      (
        record { main = a.after; command = finish_open_window },
        ap (conclude inside printing fuel fresh) a.replies ∙ unfold conclude answers in refl,
        a.rests,
        a.moved,
        refl,
      )

  -- With the window at rest, the command to close it is served whatever command was kept: the node
  -- sends back that the window is closed, and is at rest with the window to be opened next.
  pub serve_close :
      (node : Node)
      → 35 ≤ fuel
      → IsAtRest node.main
      → (node' : Node) × (serve inside printing fuel (codes "PUT_Win/Close") fresh node
          ≡ sent (codes "PUT_Win/Close" ∷ []) node')
        × IsAtRest node'.main
        × (node'.main.open_next ≡ true)
        × (node'.command ≡ finish_close_window)
  unfolding serve choose_command c_string
  serve_close node h r =
      let a = close_request fuel node.main h r in
      (
        record { main = a.after; command = finish_close_window },
        ap (conclude inside printing fuel fresh) a.replies ∙ unfold conclude answers in refl,
        a.rests,
        a.moved,
        refl,
      )

  -- With the window at rest, the commands to open and to close it are served whatever command was kept:
  -- the node sends back the command, and is at rest with the window opened or closed.
  pub serve_window :
      (node : Node)
      → 70 ≤ fuel
      → IsAtRest node.main
      → ((node' : Node) × (serve inside printing fuel (codes "PUT_Win/Open") fresh node
            ≡ sent (codes "PUT_Win/Open" ∷ []) node')
          × IsAtRest node'.main
          × (node'.main.open_next ≡ false)
          × (node'.command ≡ finish_open_window))
        × ((node' : Node) × (serve inside printing fuel (codes "PUT_Win/Close") fresh node
              ≡ sent (codes "PUT_Win/Close" ∷ []) node')
            × IsAtRest node'.main
            × (node'.main.open_next ≡ true)
            × (node'.command ≡ finish_close_window))
  serve_window node h r = (serve_open node h r, serve_close node (omega arith) r)

-- The build recognises no request: that of outside knows only the one for data.
abbrev pub IsUnknown : Build → Bytes → Type 0
IsUnknown inside text =
    (text ≢ codes "GET_All") × (text ≢ codes "PUT_Win/Open") × (text ≢ codes "PUT_Win/Close")
IsUnknown outside text = text ≢ codes "GET_All"

test_ne : (s t : Bytes) → s ≢ t → str_eq s t ≡ false
test_ne s t n = elim (Bool-cases (str_eq s t)) [
  | inl e ↦ absurd (n (str_eq_sound s t e))
  | inr e ↦ e
]

choose_command-unknown :
    (build : Build) (text : Bytes) (before : Command)
    → IsUnknown build text
    → choose_command build text before ≡ before
unfolding choose_command
choose_command-unknown inside text before (n, n', n'') =
    rw (test_ne text _ n, test_ne text _ n', test_ne text _ n'')
choose_command-unknown outside text before n = rw (test_ne text _ n)

-- Once a request has been answered and while no window is driven, a datagram whose text is no request
-- to the build leaves both threads waiting for one another. To the node outside, a command to open or
-- close the window is no request.
pub serve_unknown :
    (build : Build) (printing : Printing) (fuel : ℕ) (fresh : Measured) (node : Node)
    (payload text : Bytes)
    → c_string pp_buf_size payload ≡ some text
    → IsUnknown build text
    → IsFinished node.command
    → node.main.driving ≡ false
    → serve build printing (suc fuel) payload fresh node ≡ deadlock
unfolding serve conclude
serve_unknown build printing fuel fresh node payload text p u f d = rw (
  p,
  serve,
  choose_command-unknown build text node.command u,
  finished_waits fuel node.main node.command d f,
)
