-- ===== src/Lisod/Memory/Accept.antt =====
-- A connection that was just accepted is safe, and accepting keeps the others so.
use liso.Base.{
  ℕ, ◌≤◌, refl, inl, inr, Bool, true, false, Option, none, some, [], ◌∷◌, arith, length, All,
  All-append, Bool-cases, length-set, if◌then◌else◌, leb, ◌==◌,
}
use liso.Buffer.{Buf, bufsz, buf_new}
use liso.Header.{hdr_reset}
use liso.Request.{
  Req, ReqPhase, req_start, req_header, req_body, req_done, req_abort, https, req_new, req_reset,
}
use liso.Request.Pack.{pack_headers}
use liso.Response.{resp_new, resp_reset}
use liso.Cgi.{cgi_new, cgi_reset, fd_setsize}
use liso.Conn.{Conn, cn_new, cn_init_ssl}
use liso.Conn.Safe.{Content, Safe}
use liso.Pool.{Pool, max_conns, pl_add_conn}
use liso.Lisod.{
  Incoming, Accepted, new_client, add_accepted, establish, liso_accept, liso_accept_conn,
}
use liso.Lisod.Loop.{Server, accept_on}

-- The allocations of a new connection have BUFSZ bytes.
pub record StdIncoming (inc : Incoming) : Type 0 where
  pub alloc : bufsz ≤ length inc.raw.alloc.bytes
  pub last_alloc : bufsz ≤ length inc.raw.last_alloc.bytes

abbrev pub AllSafe : Server → Type 0
AllSafe s = All Safe s.pool.conns

nil-packed : length (pack_headers []) ≤ 118
unfolding pack_headers
nil-packed = omega arith

-- A connection that was just accepted, whatever its memory held before.
new-Safe :
    (p : Pool) (inc : Incoming) (port fd : ℕ) → StdIncoming inc → Safe (new_client p inc port fd)
unfolding new_client cn_new req_new req_reset resp_new resp_reset cgi_new cgi_reset buf_new
    hdr_reset
new-Safe p inc port fd std =
    let a = std.alloc in
    let l = std.last_alloc in
    record {
      rooms = record {
        allocated = omega (arith, length-set inc.raw.alloc.bytes 0 0);
        last_allocated = omega (arith, length-set inc.raw.last_alloc.bytes 0 0);
        last_high = omega arith;
      };
      content = (omega arith, (omega arith, λ k lo hi e. absurd (omega arith)));
      orders = record {
        fresh = inr (refl, refl);
        aborted = inl (omega arith);
        dynamic = inl (omega arith);
        relaying = inl (omega arith);
        packed = nil-packed;
        small = omega arith;
      };
    }

added-Safe :
    (p : Pool) (c : Conn) → All Safe p.conns → Safe c → All Safe (add_accepted p c).pool.conns
unfolding add_accepted pl_add_conn
added-Safe p c a s = elim (Bool-cases (leb max_conns (length p.conns))) [
  | inl full ↦ rw full a
  | inr room ↦ rw room (All-append Safe p.conns (record c { idx = length p.conns } ∷ []) a (s, tt))
]

https-Content :
    (p : ReqPhase) (r : Req) (b : Buf) → Content p r b → Content p (record r { scheme = https }) b
https-Content req_start r b w = w
https-Content req_header r b w = w
https-Content req_body r b w = w
https-Content req_done r b w = w
https-Content req_abort r b w = w

-- An SSL connection differs in its flag and its scheme.
ssl-Safe : (c : Conn) (made attached : Bool) → Safe c → Safe (cn_init_ssl c made attached).0
unfolding cn_init_ssl
ssl-Safe c false attached s = s
ssl-Safe c true false s = s
ssl-Safe c true true s = record {
  rooms = s.rooms;
  content = https-Content c.req.phase c.req c.buf s.content;
  orders = s.orders;
}

establish-Safe :
    (p : Pool) (inc : Incoming) (ssl : Bool) (port fd : ℕ)
    → StdIncoming inc
    → All Safe p.conns
    → All Safe (establish p inc ssl port fd).pool.conns
unfolding establish
establish-Safe p inc ssl port fd std a =
    let c = new_client p inc port fd in
    let n = new-Safe p inc port fd std in
    choose _ _ ssl (cn_init_ssl c inc.ssl_new inc.ssl_set_fd).1 (added-Safe p c a n)
      (added-Safe p _ a (ssl-Safe c inc.ssl_new inc.ssl_set_fd n))
  where
    refusal : Accepted
    refusal = record { pool = p; conn = none; closed_fds = fd ∷ [] }

    choose :
        (r r' : Accepted) (ssl ok : Bool)
        → All Safe r.pool.conns
        → All Safe r'.pool.conns
        → All Safe (if ssl then if ok then r' else refusal else r).pool.conns
    choose r r' true true s t = t
    choose r r' true false s t = a
    choose r r' false ok s t = s

accept-Safe :
    (p : Pool) (inc : Incoming) (ssl : Bool) (port : ℕ) (o : Option ℕ)
    → StdIncoming inc
    → All Safe p.conns
    → All Safe (liso_accept p inc ssl port o).pool.conns
unfolding liso_accept
accept-Safe p inc ssl port none std a = a
accept-Safe p inc ssl port (some fd) std a = elim (Bool-cases (leb fd_setsize fd)) [
  | inl big ↦ rw big a
  | inr small ↦ elim (Bool-cases (length p.conns == max_conns)) [
    | inl full ↦ rw (small, full) a
    | inr room ↦ rw (small, room) (establish-Safe p inc ssl port fd std a)
  ]
]

pub accept_on-Safe :
    (s : Server) (fd : ℕ) (inc : Incoming) (ssl : Bool) (port : ℕ)
    → StdIncoming inc
    → AllSafe s
    → AllSafe (accept_on s fd inc ssl port)
unfolding accept_on liso_accept_conn
accept_on-Safe s fd inc ssl port std a = elim (Bool-cases (s.pool.read_ready fd)) [
  | inl e ↦ rw e (accept-Safe s.pool inc ssl port inc.accept std a)
  | inr e ↦ rw e a
]
