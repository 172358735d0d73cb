-- ===== src/Lisod/Memory.antt =====
-- The memory of the connections over the life of the server: lisod.c on the invariant of Conn/Safe.
pub mod Accept
use liso.Base.{
  ℕ, zero, suc, ◌-◌, ◌≤◌, ◌≡◌, refl, inl, inr, Bool, true, false, Option, none, some, List, [], ◌∷◌,
  arith, length, get_elem?, All, All-get, All-append, All-set, All-take, Option-cases, Bool-cases,
  length-set, get_elem?-lt, if◌then◌else◌, leb, ◌==◌,
}
use liso.Buffer.{Buf, bufsz, buf_new}
use liso.Header.{hdr_reset}
use liso.Request.{
  Req, ReqPhase, req_start, req_header, req_body, req_done, req_abort, https, req_new, req_reset,
}
use liso.Request.Pack.{pack_headers}
use liso.Response.{resp_new, resp_reset}
use liso.Cgi.{cgi_new, cgi_reset, fd_setsize}
use liso.Conn.{Conn, Ctx, Ret, alive, closed, cn_new, cn_init_ssl}
use liso.Conn.Safe.{Content, Safe}
use liso.Pool.{FdSet, Pool, max_conns, pl_new, pl_ready, pl_add_conn, remove_slot, move_last}
use liso.Pool.Inv.{IsValid}
use liso.Lisod.{
  Incoming, Accepted, new_client, add_accepted, establish, liso_accept, liso_accept_conn,
}
use liso.Lisod.Serve.{Io, serve_conn}
use liso.Lisod.Serve.Relation.{Fate}
use liso.Lisod.Serve.Stages.{serve_conn-Fate}
use liso.Lisod.Serve.Safe.{Lives}
use liso.Lisod.Serve.Safe.Std.{StdIo}
use liso.Lisod.Serve.Safe.Round.{serve_conn-Lives}
use liso.Lisod.Loop.{
  Server, Turn, Listeners, enter, leave, raise_max, next_index, serve_from, serve_all, accept_on,
  after_select, main_turn, turn_rounds,
}
use liso.Lisod.Loop.Rounds.{leave-IsValid}
use liso.Lisod.Turn.{Reach, Reach-IsValid, accept_on-IsValid}
use liso.Lisod.Memory.Accept.{StdIncoming, AllSafe, accept_on-Safe}

-- What a turn meets is what the documentation of the calls promises.
pub record StdTurn (t : Turn) : Type 0 where
  pub plain : StdIncoming t.plain
  pub secure : StdIncoming t.secure
  pub rounds : (n : ℕ) → StdIo (t.rounds n)

remove-Safe : (conns : List Conn) (i : ℕ) → All Safe conns → All Safe (remove_slot conns i)
unfolding remove_slot move_last
remove-Safe conns i a = go (get_elem? conns (length conns - 1)) refl
  where
    go : (o : Option Conn) → get_elem? conns (length conns - 1) ≡ o → All Safe (move_last conns i o)
    go none e = a
    go (some last) e = All-take Safe (length conns - 1) _ (
        All-set Safe conns i (record last { idx = i }) (All-get Safe conns (length conns - 1) e a)
          a)

leave-Safe :
    (s : Server) (i : ℕ) (c : Conn) (r : Ret × Ctx Pool)
    → c.idx ≡ i
    → Fate (enter s c) r
    → Lives Safe r
    → AllSafe s
    → AllSafe (leave i r)
leave-Safe s i c (alive, x) own k l a = rw k.conns (All-set Safe s.pool.conns i x.conn l a)
leave-Safe s i c (closed, x) own d l a = rw (d.conns, own) (remove-Safe s.pool.conns i a)

serve_from-Safe :
    (io : ℕ → Io) (n i m : ℕ) (s : Server)
    → ((k : ℕ) → StdIo (io k))
    → IsValid s.pool.conns
    → AllSafe s
    → AllSafe (serve_from io n i m s).2
unfolding serve_from
serve_from-Safe io zero i m s std v a = a
serve_from-Safe io (suc n) i m s std v a = elim (Option-cases (get_elem? s.pool.conns i)) [
  | inl e ↦ rw (e, serve_from) a
  | inr (c, e) ↦
      let own = v.indexed i c e in
      let x = enter s c in
      let out = serve_conn (io n) x in
      let fate = serve_conn-Fate (io n) x (rw own (get_elem?-lt s.pool.conns i e)) in
      let lives = serve_conn-Lives (io n) x (std n) (All-get Safe s.pool.conns i e a) in
      rw (e, serve_from)
        (serve_from-Safe io n (next_index i out.0) (raise_max m out) (leave i out) std
          (leave-IsValid s i c e out own fate v) (leave-Safe s i c out own fate lives a))
]

after_select-Safe :
    (l : Listeners) (t : Turn) (s : Server) (sets : Option (FdSet × FdSet))
    → StdTurn t
    → IsValid s.pool.conns
    → AllSafe s
    → AllSafe (after_select l t s sets)
unfolding after_select serve_all
after_select-Safe l t s none std v a = a
after_select-Safe l t s (some (r, w)) std v a =
    serve_from-Safe t.rounds _ 0 _ _ std.rounds
      (accept_on-IsValid _ l.ssl_sock t.secure true l.https_port
        (accept_on-IsValid _ l.sock t.plain false l.http_port v))
      (accept_on-Safe _ l.ssl_sock t.secure true l.https_port std.secure
        (accept_on-Safe _ l.sock t.plain false l.http_port std.plain a))

-- No round of a turn has met a host name that is longer than its array: each leaves the request of its connection
-- with nothing written behind `host`.
abbrev pub InBounds : Listeners → Turn → Server → Type 0
InBounds l t s =
    All (λ r. r.1.1.conn.req.overrun ≡ false)
      (turn_rounds l t (record s { pool = pl_ready s.pool }) t.select)

-- The server after its start, and after turns of the main loop in which the calls keep what they promise and
-- nothing is written behind `host`.
pub data Runs (l : Listeners) : Server → Type 0 where
  start :
      Runs l (record { pool = pl_new l.sock l.ssl_sock; closed_fds = []; sent = []; piped = [] })
  turn : {s : Server} (t : Turn) → StdTurn t → InBounds l t s → Runs l s → Runs l (main_turn l t s)

Runs-Reach : {l : Listeners} {s : Server} → Runs l s → Reach l s
Runs-Reach start = Reach.start
Runs-Reach (turn t std inside r) = Reach.turn t (Runs-Reach r)

Runs-AllSafe : {l : Listeners} {s : Server} → Runs l s → AllSafe s
unfolding main_turn pl_ready pl_new
Runs-AllSafe start = tt
Runs-AllSafe {l} (turn {s} t std inside r) =
    after_select-Safe l t _ t.select std (Reach-IsValid (Runs-Reach r)) (Runs-AllSafe r)

-- In every state that the server reaches with calls that keep what they promise, as long as no round has met a host
-- name longer than its array, each connection of the pool is safe. Its two buffers have BUFSZ bytes, and the bytes kept for the next request are at
-- most as many. Unless its request is aborted, the content of its buffer is at most BUFSZ bytes with
-- `data_p` within it; before the end of a header no complete line is left unparsed, and in a body the
-- number of missing bytes is not negative. Its phases stand as `OrdersOf` says, so that the output of a
-- CGI program is relayed only into a buffer that is read from its start or that is given up.
pub Runs-Safe :
    {l : Listeners} {s : Server} (i : ℕ) (c : Conn)
    → Runs l s
    → get_elem? s.pool.conns i ≡ some c
    → Safe c
Runs-Safe {l} {s} i c r e = All-get Safe s.pool.conns i e (Runs-AllSafe r)
