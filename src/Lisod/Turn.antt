-- ===== src/Lisod/Turn.antt =====
-- The turns of the main loop of lisod.c, and the states that they reach.
use liso.Base.{
  ◌≡◌, get_elem?, ℕ, Bool, true, false, Option, none, some, [], arith, Bool-cases, inl, inr,
}
use liso.Pool.{FdSet, pl_new, pl_ready}
use liso.Pool.Inv.{IsValid}
use liso.Conn.{Conn}
use liso.Lisod.{Incoming}
use liso.Lisod.Accept.{accept_conn-IsValid}
use liso.Lisod.Loop.{Server, Turn, Listeners, accept_on, after_select, main_turn}
use liso.Lisod.Loop.Rounds.{serve_all-IsValid, CoveredBy, serve_all_covers}

pub accept_on-IsValid :
    (s : Server) (fd : ℕ) (inc : Incoming) (ssl : Bool) (port : ℕ)
    → IsValid s.pool.conns
    → IsValid (accept_on s fd inc ssl port).pool.conns
unfolding accept_on
accept_on-IsValid s fd inc ssl port v = elim (Bool-cases (s.pool.read_ready fd)) [
  | inl e ↦ rw (e, accept_on) (accept_conn-IsValid s.pool inc ssl port v)
  | inr e ↦ rw (e, accept_on) v
]

pub after_select-IsValid :
    (l : Listeners) (t : Turn) (s : Server) (sets : Option (FdSet × FdSet))
    → IsValid s.pool.conns
    → IsValid (after_select l t s sets).pool.conns
unfolding after_select
after_select-IsValid l t s none v = v
after_select-IsValid l t s (some (r, w)) v = serve_all-IsValid t.rounds _ (
    accept_on-IsValid _ l.ssl_sock t.secure true l.https_port
      (accept_on-IsValid _ l.sock t.plain false l.http_port v))

-- The server after its start, and after turns of the main loop, whatever each turn meets.
pub data Reach (l : Listeners) : Server → Type 0 where
  start :
      Reach l (record { pool = pl_new l.sock l.ssl_sock; closed_fds = []; sent = []; piped = [] })
  turn : {s : Server} (t : Turn) → Reach l s → Reach l (main_turn l t s)

-- In every state that the server reaches, each connection of the pool has the index of its slot and
-- there are at most MAX_CONNS connections.
pub Reach-IsValid : {l : Listeners} {s : Server} → Reach l s → IsValid s.pool.conns
unfolding main_turn pl_ready pl_new
Reach-IsValid start = record { indexed = λ i c e. cc; bounded = omega arith }
Reach-IsValid {l} (turn {s} t r) = after_select-IsValid l t _ t.select (Reach-IsValid r)

-- At every call of `select`, that is, in every state that the server reaches, `max_fd` is at least the socket
-- and the open CGI output and error pipes of each connection of the pool.
pub Reach-CoveredBy :
    {l : Listeners} {s : Server} (j : ℕ) (c : Conn)
    → Reach l s
    → get_elem? s.pool.conns j ≡ some c
    → CoveredBy c s.pool.max_fd
unfolding main_turn pl_ready pl_new after_select
Reach-CoveredBy j c start e = cc
Reach-CoveredBy {l} j c (turn {s} t r) e = behind t.select (λ h. Reach-CoveredBy j c r h) e
  where
    behind :
        (sets : Option (FdSet × FdSet))
        → (get_elem? s.pool.conns j ≡ some c → CoveredBy c s.pool.max_fd)
        → get_elem? (after_select l t (record s { pool = pl_ready s.pool }) sets).pool.conns j
          ≡ some c
        → CoveredBy c (after_select l t (record s { pool = pl_ready s.pool }) sets).pool.max_fd
    behind none before h = before h
    behind (some (rd, wr)) before h =
        serve_all_covers t.rounds _
          (accept_on-IsValid _ l.ssl_sock t.secure true l.https_port
            (accept_on-IsValid _ l.sock t.plain false l.http_port (Reach-IsValid r)))
          j c h
