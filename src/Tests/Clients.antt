-- ===== src/Tests/Clients.antt =====
-- The theorems on the sockets of the clients, at concrete inputs.
use liso.Base.{◌+◌, ◌≤◌, [], ◌∷◌, count}
use liso.Pool.Slots.{fds}
use liso.Lisod.Loop.{main_turn}
use liso.Lisod.Clients.{Steps}
use liso.Lisod.Clients.Rounds.{clients}
use liso.Lisod.Clients.Turns.{offers, main_turn-Steps}
use liso.Lisod.Clients.History.{run, run-conserves}
use liso.Tests.Data.{server_of}
use liso.Tests.Server.{listeners, busy, quiet, two, two-IsValid}

main_turn-Steps_example :
    Steps
      (5 ∷ 6 ∷ [])
      (clients (server_of two))
      (clients (main_turn listeners busy (server_of two)))
unfolding offers
main_turn-Steps_example = main_turn-Steps listeners busy (server_of two) two-IsValid

run-conserves_example :
    (2
      ≤ count 5 (fds (run listeners (busy ∷ quiet ∷ [])).pool.conns)
        + count 5 (run listeners (busy ∷ quiet ∷ [])).closed_fds)
    × (count 5 (fds (run listeners (busy ∷ quiet ∷ [])).pool.conns) ≤ 2)
unfolding offers
run-conserves_example = run-conserves listeners (busy ∷ quiet ∷ []) 5
