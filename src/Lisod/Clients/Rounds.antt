-- ===== src/Lisod/Clients/Rounds.antt =====
-- The rounds over the connections as steps of the server that the clients see.
use liso.Base.{
  ℕ, zero, suc, ◌≡◌, refl, ap, none, some, List, [], ◌∷◌, arith, length, get_elem?, set,
  Option-cases, inl, inr, get_elem?-lt, of_list, put, put-of_list, Perm-SameItems,
}
use mathlib.Core.Path.{subst}
use liso.Conn.{Conn, Ctx, Ret, alive, closed}
use liso.Pool.{Pool}
use liso.Pool.Inv.{IsValid}
use liso.Pool.Slots.{fds, remove_slot-perm}
use liso.Lisod.Serve.{Io, serve_conn}
use liso.Lisod.Serve.Relation.{Fate}
use liso.Lisod.Serve.Stages.{serve_conn-Fate}
use liso.Lisod.Loop.{Server, enter, leave, raise_max, next_index, serve_from, serve_all}
use liso.Lisod.Loop.Rounds.{leave-IsValid}
use liso.Lisod.Clients.{Clients, Step, serves, leaves, Steps, no_step, then_step, Steps-trans}

-- The view of a server: the order of the array is forgotten.
abbrev pub clients : Server → Clients
clients s = record { open_fds = of_list (fds s.pool.conns); gone = s.closed_fds }

-- A write of a connection with the same socket.
set-fds :
    (xs : List Conn) (i : ℕ) (c d : Conn)
    → get_elem? xs i ≡ some c
    → d.fd ≡ c.fd
    → fds (set xs i d) ≡ fds xs
set-fds [] i c d e same = refl
set-fds (x ∷ xs) zero c d e same = let p : x.fd ≡ c.fd = ground arith in rw (same, p) refl
set-fds (x ∷ xs) (suc i) c d e same = ap (◌∷◌ x.fd) (set-fds xs i c d e same)

module _ (s : Server) (i : ℕ) (c : Conn) (at : get_elem? s.pool.conns i ≡ some c)
    (own : c.idx ≡ i) where
  leave-Step :
      (r : Ret × Ctx Pool) → Fate (enter s c) r → Step none (clients s) (clients (leave i r))
  leave-Step (alive, x) k =
      let same : fds (set x.world.conns i x.conn) ≡ fds s.pool.conns =
        rw k.conns (set-fds s.pool.conns i c x.conn at k.fd) in
      rw same (serves _ _ _ k.closes)
  leave-Step (closed, x) d =
      let perm = Perm-SameItems _ _ (remove_slot-perm s.pool.conns i c at) in
      let b : put c.fd (of_list (fds x.world.conns)) ≡ of_list (fds s.pool.conns) =
        rw (d.conns, own) (put-of_list c.fd _ _ perm) in
      subst
        (λ l.
          Step none (record { open_fds = l; gone = s.closed_fds }) (clients (leave i (closed, x))))
        b (leaves c.fd _ _ _ d.closes)

  round-Fate : (io : Io) → Fate (enter s c) (serve_conn io (enter s c))
  round-Fate io = serve_conn-Fate io (enter s c) (rw own (get_elem?-lt s.pool.conns i at))

  -- A round over the connection of a slot is one step: the bag of open sockets stays as it is, or
  -- the socket of the connection leaves it and is closed.
  pub serve_conn-Step :
      (io : Io) → Step none (clients s) (clients (leave i (serve_conn io (enter s c))))
  serve_conn-Step io = leave-Step (serve_conn io (enter s c)) (round-Fate io)

pub serve_from-Steps :
    (io : ℕ → Io) (n i m : ℕ) (s : Server)
    → IsValid s.pool.conns
    → Steps [] (clients s) (clients (serve_from io n i m s).2)
unfolding serve_from
serve_from-Steps io zero i m s v = no_step (clients s)
serve_from-Steps io (suc n) i m s v = elim (Option-cases (get_elem? s.pool.conns i)) [
  | inl e ↦ rw (e, serve_from) (no_step (clients s))
  | inr (c, e) ↦
      let own = v.indexed i c e in
      let out = serve_conn (io n) (enter s c) in
      rw (e, serve_from)
        (Steps-trans (then_step none (no_step (clients s)) (serve_conn-Step s i c e own (io n))) (
          serve_from-Steps io n (next_index i out.0) (raise_max m out) (leave i out)
            (leave-IsValid s i c e out own (round-Fate s i c e own (io n)) v)))
]

pub serve_all-Steps :
    (io : ℕ → Io) (s : Server)
    → IsValid s.pool.conns
    → Steps [] (clients s) (clients (serve_all io s))
unfolding serve_all
serve_all-Steps io s v = serve_from-Steps io (length s.pool.conns) 0 s.pool.min_max_fd s v
