-- ===== src/Lisod/Loop.antt =====
-- The main loop: one round over the connections, and one turn of the loop.
pub mod Each
pub mod Rounds
use liso.Base.{
  ℕ, zero, suc, ◌+◌, ◌-◌, Bool, true, false, not, ◌&&◌, ◌||◌, Option, none, some, List, [], ◌∷◌,
  ◌++◌, ◌==◌, ltb, leb, if◌then◌else◌, length, take, get_elem?, set, max,
}
use liso.Conn.{Conn, Ctx, Ret, alive, closed}
use liso.Pool.{Pool, FdSet, pl_ready}
use liso.Lisod.{Incoming, Accepted, liso_accept_conn}
use liso.Lisod.Serve.{Io, serve_conn}

-- The server between two connections: the pool, and what has left it.
pub record Server : Type 0 where
  pub pool : Pool
  pub closed_fds : List ℕ
  pub sent : List ℕ
  pub piped : List ℕ

abbrev pub enter : Server → Conn → Ctx Pool
enter s c = record {
  conn = c;
  world = s.pool;
  closed_fds = s.closed_fds;
  sent = s.sent;
  piped = s.piped;
}

-- Behind a connection that is alive, its slot holds its new state.
abbrev pub leave : ℕ → Ret × Ctx Pool → Server
leave i (alive, x) = record {
  pool = record x.world { conns = set x.world.conns i x.conn };
  closed_fds = x.closed_fds;
  sent = x.sent;
  piped = x.piped;
}
leave i (closed, x) = record {
  pool = x.world;
  closed_fds = x.closed_fds;
  sent = x.sent;
  piped = x.piped;
}

-- `max(m, fd)` for a descriptor that may be -1.
abbrev pub max_pipe : ℕ → Option ℕ → ℕ
max_pipe m none = m
max_pipe m (some fd) = max m fd

abbrev pub raise_max : ℕ → Ret × Ctx Pool → ℕ
raise_max m (alive, x) = max_pipe (max_pipe (max m x.conn.fd) x.conn.cgi.srv_in) x.conn.cgi.srv_err
raise_max m (closed, x) = m

-- `i -= 1; continue` and `i++` together leave `i` where it was.
abbrev pub next_index : ℕ → Ret → ℕ
next_index i alive = i + 1
next_index i closed = i

-- `for (i = 0; i < pool->n_conns; i++)`: a round moves `i` or shortens the pool. `io n` are the
-- answers of the system in the n-th round from the end. The last `i`, `max_fd` and the server.
unfoldable pub serve_from : (ℕ → Io) → ℕ → ℕ → ℕ → Server → ℕ × ℕ × Server
serve_from io zero i m s = (i, m, s)
serve_from io (suc n) i m s = elim (get_elem? s.pool.conns i) [
  | none ↦ (i, m, s)
  | some c ↦
      let out = serve_conn (io n) (enter s c) in
      serve_from io n (next_index i out.0) (raise_max m out) (leave i out)
]

-- The rounds of that loop in their order, each with the connection of its slot and its outcome.
unfoldable pub rounds_from : (ℕ → Io) → ℕ → ℕ → Server → List (Conn × (Ret × Ctx Pool))
rounds_from io zero i s = []
rounds_from io (suc n) i s = elim (get_elem? s.pool.conns i) [
  | none ↦ []
  | some c ↦
      let out = serve_conn (io n) (enter s c) in
      (c, out) ∷ rounds_from io n (next_index i out.0) (leave i out)
]

-- The loop over the connections, and `pool->max_fd = max_fd`.
unfoldable pub serve_all : (ℕ → Io) → Server → Server
serve_all io s =
    let (i, m, s') = serve_from io (length s.pool.conns) 0 s.pool.min_max_fd s in
    record s' { pool = record s'.pool { max_fd = m } }

-- What a turn of the main loop meets: the sets that `select` gives, or `none` for an error; the
-- incoming connections; the answers to the rounds.
pub record Turn : Type 0 where
  pub select : Option (FdSet × FdSet)
  pub plain : Incoming
  pub secure : Incoming
  pub rounds : ℕ → Io

pub record Listeners : Type 0 where
  pub sock : ℕ
  pub ssl_sock : ℕ
  pub http_port : ℕ
  pub https_port : ℕ

unfoldable pub accept_on : Server → ℕ → Incoming → Bool → ℕ → Server
accept_on s fd inc ssl port =
    let done = liso_accept_conn s.pool inc ssl port in
    if s.pool.read_ready fd
    then record s { pool = done.pool; closed_fds = s.closed_fds ++ done.closed_fds }
    else s

-- The server behind the two accepts of a turn.
abbrev pub accepted_on : Listeners → Turn → Server → FdSet → FdSet → Server
accepted_on l t s r w =
    let s1 = record s { pool = record s.pool { read_ready = r; write_ready = w } } in
    let s2 = accept_on s1 l.sock t.plain false l.http_port in
    accept_on s2 l.ssl_sock t.secure true l.https_port

unfoldable pub after_select : Listeners → Turn → Server → Option (FdSet × FdSet) → Server
after_select l t s none = s
after_select l t s (some (r, w)) = serve_all t.rounds (accepted_on l t s r w)

-- The rounds of a turn.
unfoldable pub turn_rounds :
    Listeners → Turn → Server → Option (FdSet × FdSet) → List (Conn × (Ret × Ctx Pool))
turn_rounds l t s none = []
turn_rounds l t s (some (r, w)) =
    let s' = accepted_on l t s r w in rounds_from t.rounds (length s'.pool.conns) 0 s'

-- One turn of `while (1)`.
unfoldable pub main_turn : Listeners → Turn → Server → Server
main_turn l t s = after_select l t (record s { pool = pl_ready s.pool }) t.select
