-- ===== src/Tests/Threads.antt =====
-- The receiving thread with one report of the window, and a reception that fails.
use smart_window.Common.{
  ℕ, zero, suc, ◌≡◌, refl, ◌⊎◌, inl, inr, Option, some, codes, List, [], ◌∷◌, ◌++◌, arith,
}
use smart_window.Common.Int.{ℤ, pos, negsuc}
use smart_window.Common.Outcome.{M}
use smart_window.Controller.Alarms.{Row}
use smart_window.Network.{
  Sockets, Interface, strncmp_eq, find_address, search_result, get_link_local_addr,
  get_lowpan0_ipv6_address,
}
use smart_window.Receiver.{Received, failed, datagram, receive_loop}
use smart_window.Receiver.Thread.{Server, Thread, ipv6_addr_max_str_len, receive_thread}
use smart_window.Receiver.Thread.Writing.{Laws}
use smart_window.Receiver.Thread.Course.{Course, receive_thread_runs}
use smart_window.System.Agreement.{stores_first}
use smart_window.System.Invariant.{handle_open}
use smart_window.Node.Main.{start_measurement}
use smart_window.Node.Link.{inside}
use smart_window.Node.Link.Session.{Session, senders}
use smart_window.Node.Link.Startup
use smart_window.Node.Link.Startup.{communication_thread, communication_thread-Course}
use smart_window.Tests.Nodes.{always, gives, printing}
use smart_window.Tests.Systems.{truth, receptions, receptions-Expected}

-- What is written, and the number of open sockets.
record World : Type 0 where
  rows : List Row
  count : ℕ

less : ℕ → ℕ
less zero = zero
less (suc n) = n

-- Only a socket can be bound.
bind_to : ℤ → ℤ
bind_to (pos n) = pos 0
bind_to (negsuc n) = negsuc 0

bind_to-cases : (s : ℤ) → (bind_to s ≡ negsuc 0) ⊎ (bind_to s ≡ pos 0)
unfolding bind_to
bind_to-cases (pos n) = inr refl
bind_to-cases (negsuc n) = inl refl

abbrev server : Server World
unfolding less bind_to
server = record {
  socket = λ w. some (pos 3, record w { count = suc w.count });
  bind = λ s w. some (bind_to s, w);
  getsockname = λ s w. some (pos 0, w);
  shutdown = λ s w. some (tt, w);
  close = λ s w. some (tt, record w { count = less w.count });
}

abbrev store : Row → M World (Unit {0})
store row w = some (tt, record w { rows = w.rows ++ row ∷ [] })

server-Laws : Laws server store (λ w. w.rows) (λ w. w.count)
unfolding less bind_to
server-Laws = record {
  opens = λ w. (pos 3, record w { count = suc w.count }, refl, refl, inr refl);
  binds = λ s w. (bind_to s, w, refl, refl, refl, bind_to-cases s);
  refuses = λ w w' n e. cc;
  names = λ s w. (pos 0, w, refl, refl, refl, inr refl);
  shuts = λ s w. (w, refl, refl, refl);
  closes = λ s w k e. (record w { count = less w.count }, refl, refl, ground arith);
  writes = λ row w. (record w { rows = w.rows ++ row ∷ [] }, refl, refl, refl);
}

-- The interface that the address is taken from.
abbrev sockets : Sockets World
sockets = record {
  Address = Unit {0};
  inet_pton = λ s. some tt;
  inet_ntop = λ a size. some (codes "fe80::1");
  socket = λ w. some (some 4, w);
  sendto = λ s a text w. some (pos 0, w);
  close = λ s w. some (tt, w);
}

abbrev interfaces : Option (List (Interface (Unit {0})))
interfaces = some (record { name = codes "lowpan0"; addr = some (some tt) } ∷ [])

own_address :
    get_lowpan0_ipv6_address sockets ipv6_addr_max_str_len interfaces
    ≡ some (0, some (codes "fe80::1"))
unfolding get_lowpan0_ipv6_address get_link_local_addr search_result find_address strncmp_eq
own_address = refl

abbrev reported : List Received
reported = datagram (codes "fe80::9") (codes "PUT_Win/Open") ∷ failed ∷ []

abbrev window_row : Row
window_row = record { table = codes "Win_Open"; value = codes "1" }

loop_fails : receive_loop always (codes "fe80::1") (failed ∷ []) ≡ some []
unfolding receive_loop
loop_fails = refl

handled : receive_loop always (codes "fe80::1") reported ≡ some (window_row ∷ [])
handled =
    stores_first truth always (codes "fe80::1") (codes "fe80::9") refl (codes "PUT_Win/Open") _ []
      (failed ∷ []) (omega arith, omega arith) (handle_open truth always gives refl refl) loop_fails

receive_thread_runs_example :
    (t : Thread) × (w' : World) × (receive_thread always store server sockets interfaces reported
        (record { rows = []; count = 2 })
      ≡ some (t, w'))
    × Course
        (λ w. w.rows)
        (λ w. w.count)
        reported
        (window_row ∷ [])
        (record { rows = []; count = 2 })
        w'
        t
receive_thread_runs_example =
    receive_thread_runs server store (λ w. w.rows) (λ w. w.count) server-Laws always sockets
      interfaces reported (window_row ∷ []) (codes "fe80::1") own_address handled
      (record { rows = []; count = 2 })

node_server-Laws : Startup.Laws server (λ w. w.count)
unfolding less bind_to
node_server-Laws = record {
  opens = λ w. (pos 3, record w { count = suc w.count }, refl, inr (3, refl, refl));
  binds = λ s w. (bind_to s, w, refl, refl, bind_to-cases s);
}

-- The node starts and answers to a request for data, and to the command to open.
communication_thread-Course_example :
    (o : Option Session) × (w' : World) × (communication_thread server inside printing 70
        start_measurement receptions
        (record { rows = []; count = 0 })
      ≡ some (o, w'))
    × Startup.Course always (senders receptions) 0 w'.count o
communication_thread-Course_example =
    communication_thread-Course server (λ w. w.count) always printing 70 start_measurement
      receptions (record { rows = []; count = 0 }) node_server-Laws gives (omega arith)
      receptions-Expected
