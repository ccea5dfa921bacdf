-- ===== src/Controller/Round/Commands.antt =====
-- What the controller sends, and where a round can leave it.
use smart_window.Common.{◌≡◌, ◌∙◌, ap, refl, some, List, ◌++◌, ◌∷◌, [], map, codes}
use smart_window.Controller.Readings.{Readings}
use smart_window.Controller.Alarms.{state_rows}
use smart_window.Controller.Machine.{advance}
use smart_window.Controller.Machine.Phase.{
  Phase, starting, idle, at, encode, next, humidity, temperature, air_quality, all, Stage, waiting,
  opened, closing,
}
use smart_window.Controller.Machine.Refinement.{advance-encode}
use smart_window.Controller.Round.{Controller, Effect, writes, sends, sleeps, commands, round}
use smart_window.Controller.Round.Reached.{Reached, round-Parts, Reached-Inv}

-- What a phase asks of the window.
pub data Request : Type 0 where
  open_it close_it nothing : Request

unfoldable pub request : Phase → Request
request starting = close_it
request idle = nothing
request (at p waiting) = nothing
request (at p Stage.opening) = open_it
request (at p opened) = nothing
request (at p closing) = close_it

abbrev pub sent : Request → List Effect
sent open_it = sends (codes "PUT_Win/Open") ∷ sleeps 5 ∷ []
sent close_it = sends (codes "PUT_Win/Close") ∷ sleeps 5 ∷ []
sent nothing = []

-- The commands of a round are those of its phase, at most one of them.
pub commands-encode : (ph : Phase) → commands (encode ph) ≡ sent (request ph)
unfolding commands request
commands-encode starting = refl
commands-encode idle = refl
commands-encode (at humidity waiting) = refl
commands-encode (at humidity st) = refl
commands-encode (at temperature waiting) = refl
commands-encode (at temperature st) = refl
commands-encode (at air_quality waiting) = refl
commands-encode (at air_quality st) = refl
commands-encode (at all waiting) = refl
commands-encode (at all st) = refl

-- A round that succeeds from a reachable state takes its phase to the next one, and after the rows it
-- writes it sends what the next phase asks for: one command or none.
pub round_refines :
    (r : Readings) (c c' : Controller) (es : List Effect)
    → Reached c
    → round r c ≡ some (c', es)
    → (ph : Phase) × (c.flags ≡ encode ph)
      × (c'.flags ≡ encode (next r c'.alarms ph))
      × (es
          ≡ map writes (state_rows r c'.alarms)
            ++ (sent (request (next r c'.alarms ph)) ++ sleeps 5 ∷ []))
round_refines r c c' es w h =
    let v = Reached-Inv w in
    let p = round-Parts r c c' es h in
    let e = p.flags ∙ ap (advance r c'.alarms) v.encoded ∙ advance-encode r c'.alarms v.phase in
    (
      v.phase,
      v.encoded,
      e,
      p.effects
          ∙ ap (λ x. map writes (state_rows r c'.alarms) ++ (x ++ sleeps 5 ∷ []))
              (ap commands e ∙ commands-encode (next r c'.alarms v.phase)),
    )
