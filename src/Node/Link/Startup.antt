-- ===== src/Node/Link/Startup.antt =====
-- How `communication_thread` starts (microController/phytec/main.c, lines 152 to 198). The queue of messages
-- and what is printed are left out; the port is not zero.
use smart_window.Common.{
  ℕ, suc, ◌≤◌, ◌≡◌, sym, ap, ◌∙◌, ◌⊎◌, inl, inr, Bool, true, false, Option, none, some, Bytes, List,
  All, arith,
}
use smart_window.Common.Int.{ℤ, pos, negsuc, ltb_ℤ}
use smart_window.Common.Outcome.{M, pure, ◌>>=◌, bind-some}
use smart_window.Receiver.{Received}
use smart_window.Receiver.Thread.{Server}
use smart_window.Node.Main.{Command}
use smart_window.Node.Main.Requests.{IsAtRest, start-IsAtRest}
use smart_window.Node.Link.{Build, inside, Measured, Printing}
use smart_window.Node.Link.Session.{
  Session, power_up, communicate, senders, Expected, Answers, communicate-Answers,
}

-- The socket that the thread listens on; nothing if it returns.
unfoldable pub start_server : {W : Type 0} → Server W → M W (Option ℤ)
start_server server = do
  pp_socket ← server.socket
  elim (ltb_ℤ pp_socket (pos 0)) [
    | true ↦ pure none
    | false ↦ do
      bound ← server.bind pp_socket
      elim (ltb_ℤ bound (pos 0)) [ true ↦ pure none | false ↦ pure (some pp_socket) ]
  ]

-- The thread from power-up, over what it receives; nothing if it has returned.
unfoldable pub communication_thread :
    {W : Type 0}
    → Server W
    → Build
    → Printing
    → ℕ
    → Command
    → List (Received × Measured)
    → M W (Option Session)
unfolding start_server power_up communicate
communication_thread server build printing fuel any rs = do
  started ← start_server server
  elim started [
    | none ↦ pure none
    | some pp_socket ↦ pure (some (communicate build printing fuel rs (power_up any)))
  ]

-- The documented behaviour of the calls: each returns; `socket` opens a socket or returns a negative number,
-- and `bind` returns zero or a negative number. `count` is the number of open sockets.
pub record Laws {W : Type 0} (server : Server W) (count : W → ℕ) : Type 0 where
  pub opens :
      (w : W)
      → (s : ℤ) × (w' : W) × (server.socket w ≡ some (s, w'))
        × (((s ≡ negsuc 0) × (count w' ≡ count w))
            ⊎ ((n : ℕ) × (s ≡ pos n) × (count w' ≡ suc (count w))))
  pub binds :
      (s : ℤ) (w : W)
      → (n : ℤ) × (w' : W) × (server.bind s w ≡ some (n, w'))
        × (count w' ≡ count w)
        × ((n ≡ negsuc 0) ⊎ (n ≡ pos 0))

-- How the thread has come to stand: its socket could not be opened, or was opened and could not be bound,
-- or it listens, and has answered the senders.
pub data Course (alloc : ℕ → Bool) (from : List Bytes) (before after : ℕ)
    : Option Session → Type 0 where
  unopened : after ≡ before → Course alloc from before after none
  unbound : after ≡ suc before → Course alloc from before after none
  listens :
      (s : Session)
      → Answers alloc from s
      → after ≡ suc before
      → Course alloc from before after (some s)

not_negative : (n : ℕ) → ltb_ℤ (pos n) (pos 0) ≡ false
not_negative n = ground arith

module _ {W : Type 0} (server : Server W) where
  unopened_lem :
      (w w₁ : W) → server.socket w ≡ some (negsuc 0, w₁) → start_server server w ≡ some (none, w₁)
  unfolding start_server
  unopened_lem w w₁ e = bind-some server.socket _ w w₁ (negsuc 0) e

  unbound_lem :
      (n : ℕ) (w w₁ w₂ : W)
      → server.socket w ≡ some (pos n, w₁)
      → server.bind (pos n) w₁ ≡ some (negsuc 0, w₂)
      → start_server server w ≡ some (none, w₂)
  unfolding start_server
  unbound_lem n w w₁ w₂ e e' =
      bind-some server.socket _ w w₁ (pos n) e
      ∙ rw (not_negative n) (bind-some (server.bind (pos n)) _ w₁ w₂ (negsuc 0) e')

  bound_lem :
      (n : ℕ) (w w₁ w₂ : W)
      → server.socket w ≡ some (pos n, w₁)
      → server.bind (pos n) w₁ ≡ some (pos 0, w₂)
      → start_server server w ≡ some (some (pos n), w₂)
  unfolding start_server
  bound_lem n w w₁ w₂ e e' =
      bind-some server.socket _ w w₁ (pos n) e
      ∙ rw (not_negative n) (bind-some (server.bind (pos n)) _ w₁ w₂ (pos 0) e')

  module _ (build : Build) (printing : Printing) (fuel : ℕ) (any : Command)
      (rs : List (Received × Measured)) (w w' : W) where
    refused :
        start_server server w ≡ some (none, w')
        → communication_thread server build printing fuel any rs w ≡ some (none, w')
    unfolding communication_thread
    refused e = bind-some (start_server server) _ w w' none e

    granted :
        (s : ℤ)
        → start_server server w ≡ some (some s, w')
        → communication_thread server build printing fuel any rs w
          ≡ some (some (communicate build printing fuel rs (power_up any)), w')
    unfolding communication_thread
    granted s e = bind-some (start_server server) _ w w' (some s) e

pub power_up-IsAtRest : (any : Command) → IsAtRest (power_up any).main
unfolding power_up
power_up-IsAtRest any = start-IsAtRest any

-- Where the calls on sockets behave as documented, the node inside runs without a fault: it returns at
-- once, with no socket, or with one more open if that could not be bound; or it answers all receptions
-- that fail, are empty, or hold a request of the controller, while the printed values fit, each request
-- in order and to its sender with texts that the controller stores, and then listens with the window at
-- rest.
pub communication_thread-Course :
    {W : Type 0} (server : Server W) (count : W → ℕ) (alloc : ℕ → Bool) (printing : Printing)
    (fuel : ℕ) (any : Command) (rs : List (Received × Measured)) (w : W)
    → Laws server count
    → ((n : ℕ) → alloc n ≡ true)
    → 70 ≤ fuel
    → All (Expected printing) rs
    → (o : Option Session) × (w' : W) × (communication_thread server inside printing fuel any rs w
        ≡ some (o, w'))
      × Course alloc (senders rs) (count w) (count w') o
communication_thread-Course server count alloc printing fuel any rs w laws gives enough h =
    let (s, w₁, e, opened) = laws.opens w in
    let (b, w₂, e', k', bound) = laws.binds s w₁ in
    elim opened [
      | inl (bad, k) ↦ (
        none,
        w₁,
        refused server inside printing fuel any rs w w₁
            (unopened_lem server w w₁ (e ∙ ap (λ x. some (x, w₁)) bad)),
        unopened k,
      )
      | inr (n, good, k) ↦
          let first = e ∙ ap (λ x. some (x, w₁)) good in
          let second = ap (λ x. server.bind x w₁) (sym good) ∙ e' in
          elim bound [
            | inl bad ↦ (
              none,
              w₂,
              refused server inside printing fuel any rs w w₂
                  (unbound_lem server n w w₁ w₂ first (second ∙ ap (λ x. some (x, w₂)) bad)),
              unbound (k' ∙ k),
            )
            | inr fine ↦ (
              some (communicate inside printing fuel rs (power_up any)),
              w₂,
              granted server inside printing fuel any rs w w₂ (pos n)
                  (bound_lem server n w w₁ w₂ first (second ∙ ap (λ x. some (x, w₂)) fine)),
              listens _
                  (communicate-Answers alloc gives printing fuel enough rs (power_up any) h
                    (power_up-IsAtRest any))
                  (k' ∙ k),
            )
          ]
    ]
