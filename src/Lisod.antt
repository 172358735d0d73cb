-- ===== src/Lisod.antt =====
-- lisod.c: the callbacks of the server, and accepting a connection.
pub mod Accept
pub mod Serve
pub mod Loop
pub mod Turn
pub mod Memory
pub mod Clients
pub mod Start
use liso.Base.{
  ℕ, zero, suc, ◌+◌, ◌-◌, Bool, true, false, ◌||◌, Option, none, some, List, [], ◌∷◌, ◌++◌, ◌==◌,
  leb, if◌then◌else◌, length, take,
}
use liso.CString.{Str}
use liso.Buffer.{Buf, Alloc, buf_reset, slice, write_at}
use liso.Request.{Req, req_done, req_abort, in_phase}
use liso.Response.{resp_abort}
use liso.Cgi.{fd_setsize}
use liso.Conn.{Conn, Ctx, Ret, alive, closed, Raw, cn_new, cn_init_ssl}
use liso.Conn.Recv.{cn_parse_req}
use liso.Pool.{Pool, max_conns, fd_add, fd_clr, pl_add_conn, pl_reset_conn, pl_del_conn}

unfoldable pub liso_drop_conn : Ctx Pool → Ret × Ctx Pool
liso_drop_conn x = (closed, (pl_del_conn x).0)

unfoldable pub liso_conn_err : Ctx Pool → ℕ → Ret × Ctx Pool
liso_conn_err x status = (
  alive,
  record x {
    conn = record x.conn {
      req = record x.conn.req { phase = req_abort };
      resp = record x.conn.resp { phase = resp_abort; status = status };
    };
    world = record x.world { write_set = fd_add x.conn.fd x.world.write_set };
  },
)

-- The kept bytes become the content of the connection's buffer.
unfoldable pub restore_rest : Conn → Conn
restore_rest c = record c {
  buf = record c.buf {
    sz = c.req.last_buf.sz;
    mem = write_at c.buf.mem 0 (slice c.req.last_buf.mem 0 c.req.last_buf.sz);
  };
  req = record c.req { last_buf = buf_reset c.req.last_buf };
}

unfoldable pub await_write : Ctx Pool → Ctx Pool
await_write x =
    if in_phase x.conn.req.phase req_done
    then record x {
      world = record x.world {
        read_set = fd_clr x.conn.fd x.world.read_set;
        write_set = fd_add x.conn.fd x.world.write_set;
      };
    }
    else x

unfoldable pub liso_reset_or_close : Alloc → Ctx Pool → Ret × Ctx Pool
liso_reset_or_close a x =
    let y = pl_reset_conn x in
    let z = (cn_parse_req (record y { conn = restore_rest y.conn }) a 0 liso_conn_err).1 in
    if x.conn.req.alive
    then (alive, if y.conn.req.last_buf.sz == 0 then y else await_write z)
    else liso_drop_conn x

-- `srv_err` is open after `cgi_init`; at -1 `FD_SET` would be undefined.
unfoldable pub add_pipe : Option ℕ → (ℕ → Bool) → ℕ → Bool
add_pipe none s = s
add_pipe (some fd) s = fd_add fd s

unfoldable pub liso_cgi_inited : Ctx Pool → Ret × Ctx Pool
liso_cgi_inited x = (
  alive,
  record x { world = record x.world { read_set = add_pipe x.conn.cgi.srv_err x.world.read_set } },
)

-- What a call of `accept` and the calls behind it give.
pub record Incoming : Type 0 where
  pub accept : Option ℕ
  pub addr : Str
  pub raw : Raw
  pub ssl_new : Bool
  pub ssl_set_fd : Bool

-- What became of an incoming connection: the pool, the new connection, the descriptors closed.
pub record Accepted : Type 0 where
  pub pool : Pool
  pub conn : Option Conn
  pub closed_fds : List ℕ

-- `pl_add_conn`, with its error branch.
unfoldable pub add_accepted : Pool → Conn → Accepted
add_accepted p c =
    let (p', added) = pl_add_conn p c in
    record { pool = p'; conn = if added then some c else none; closed_fds = [] }

-- The connection object, with the client's address and the port of the listener.
unfoldable pub new_client : Pool → Incoming → ℕ → ℕ → Conn
new_client p inc port fd =
    let c = cn_new inc.raw fd (length p.conns) in
    record c { req = record c.req { addr = inc.addr; port = port } }

-- With an SSL context if `ssl`.
unfoldable pub establish : Pool → Incoming → Bool → ℕ → ℕ → Accepted
establish p inc ssl port fd =
    let c = new_client p inc port fd in
    let (c', ok) = cn_init_ssl c inc.ssl_new inc.ssl_set_fd in
    if ssl
    then if ok then add_accepted p c' else record { pool = p; conn = none; closed_fds = fd ∷ [] }
    else add_accepted p c

unfoldable pub liso_accept : Pool → Incoming → Bool → ℕ → Option ℕ → Accepted
liso_accept p inc ssl port none = record { pool = p; conn = none; closed_fds = [] }
liso_accept p inc ssl port (some fd) =
    if leb fd_setsize fd
    then record { pool = p; conn = none; closed_fds = fd ∷ [] }
    else if length p.conns == max_conns
    then record { pool = p; conn = none; closed_fds = fd ∷ [] }
    else establish p inc ssl port fd

unfoldable pub liso_accept_conn : Pool → Incoming → Bool → ℕ → Accepted
liso_accept_conn p inc ssl port = liso_accept p inc ssl port inc.accept
