-- ===== src/Lisod/Clients/History.antt =====
-- The sockets of the clients over a history of turns of the main loop.
use liso.Base.{ℕ, ◌+◌, ◌≤◌, List, [], ◌∷◌, ◌++◌, arith, count, occurrences}
use liso.Pool.{pl_new}
use liso.Pool.Slots.{fds}
use liso.Lisod.Loop.{Server, Turn, Listeners, main_turn}
use liso.Lisod.Turn.{Reach, start, turn, Reach-IsValid}
use liso.Lisod.Clients.{Steps, no_step, Steps-trans, Steps-conserve}
use liso.Lisod.Clients.Rounds.{clients}
use liso.Lisod.Clients.Turns.{offers, main_turn-Steps}

-- The server behind some turns, the last one first.
unfoldable pub run : Listeners → List Turn → Server
run l [] = record { pool = pl_new l.sock l.ssl_sock; closed_fds = []; sent = []; piped = [] }
run l (t ∷ ts) = main_turn l t (run l ts)

-- The sockets that `accept` gave in them.
abbrev pub accepted : Listeners → List Turn → List ℕ
accepted l [] = []
accepted l (t ∷ ts) = accepted l ts ++ offers l t

run-Reach : (l : Listeners) (ts : List Turn) → Reach l (run l ts)
unfolding run
run-Reach l [] = start
run-Reach l (t ∷ ts) = turn t (run-Reach l ts)

run-Steps :
    (l : Listeners) (ts : List Turn)
    → Steps (accepted l ts) (clients (run l [])) (clients (run l ts))
unfolding run
run-Steps l [] = no_step (clients (run l []))
run-Steps l (t ∷ ts) =
    Steps-trans (run-Steps l ts) (main_turn-Steps l t (run l ts) (Reach-IsValid (run-Reach l ts)))

-- After any turns, whatever each of them meets: as often as `accept` gave a descriptor, it is the
-- socket of a connection of the pool or was closed, and it is the socket of connections of the pool at
-- most as often as `accept` gave it.
pub run-conserves :
    (l : Listeners) (ts : List Turn) (fd : ℕ)
    → let s = run l ts in
      (count fd (accepted l ts) ≤ count fd (fds s.pool.conns) + count fd s.closed_fds)
      × (count fd (fds s.pool.conns) ≤ count fd (accepted l ts))
unfolding run pl_new occurrences
run-conserves l ts fd = let h = Steps-conserve fd (run-Steps l ts) in omega arith
