-- ===== src/Pool.antt =====
-- pool.h and pool.c. The array of connections is a list: each connection is in one slot, so that
-- the slot stands for the object. While a connection is served, `Ctx.conn` is its current state.
pub mod Slots
pub mod Inv
use liso.Base.{
  ℕ, zero, suc, ◌+◌, ◌-◌, Bool, true, false, ◌||◌, Option, none, some, List, [], ◌∷◌, ◌++◌, ◌==◌,
  leb, if◌then◌else◌, length, get_elem?, take, set, max,
}
use liso.Buffer.{buf_reset}
use liso.Request.{req_reset}
use liso.Response.{resp_reset}
use liso.Cgi.{fd_setsize, Cgi, close_pipe, cgi_reset}
use liso.Conn.{Conn, Ctx}

-- `MAX_CONNS`
abbrev pub max_conns : ℕ
max_conns = fd_setsize - 10

-- `fd_set` with `FD_SET` and `FD_CLR`; `FD_ISSET` is application.
abbrev pub FdSet : Type 0
FdSet = ℕ → Bool

abbrev pub fd_add : ℕ → FdSet → FdSet
fd_add fd s = λ x. if x == fd then true else s x

abbrev pub fd_clr : ℕ → FdSet → FdSet
fd_clr fd s = λ x. if x == fd then false else s x

-- The number of connections, `n_conns`, is the length of the list.
pub record Pool : Type 0 where
  pub conns : List Conn
  pub min_max_fd : ℕ
  pub max_fd : ℕ
  pub read_set : FdSet
  pub write_set : FdSet
  pub read_ready : FdSet
  pub write_ready : FdSet

unfoldable pub pl_new : ℕ → ℕ → Pool
pl_new sock ssl_sock = record {
  conns = [];
  min_max_fd = max sock ssl_sock;
  max_fd = max sock ssl_sock;
  read_set = fd_add ssl_sock (fd_add sock (λ x. false));
  write_set = λ x. false;
  read_ready = λ x. false;
  write_ready = λ x. false;
}

unfoldable pub pl_ready : Pool → Pool
pl_ready p = record p { read_ready = p.read_set; write_ready = p.write_set }

-- The pool, and whether the connection was added.
unfoldable pub pl_add_conn : Pool → Conn → Pool × Bool
pl_add_conn p c = if leb max_conns (length p.conns) then (p, false) else (
  record p {
    read_set = fd_add c.fd p.read_set;
    conns = p.conns ++ (record c { idx = length p.conns } ∷ []);
  },
  true,
)

-- `FD_CLR` on a pipe's descriptor, if it is open.
abbrev pub fd_clr_pipe : Option ℕ → FdSet → FdSet
fd_clr_pipe none s = s
fd_clr_pipe (some fd) s = fd_clr fd s

unfoldable pub pl_reset_conn : Ctx Pool → Ctx Pool
pl_reset_conn x =
    let c = x.conn in
    let cgi = record c.cgi { srv_in = none; srv_err = none } in
    record x {
      world = record x.world {
        read_set =
            fd_clr_pipe c.cgi.srv_err (fd_clr_pipe c.cgi.srv_in (fd_add c.fd x.world.read_set));
        write_set = fd_clr c.fd x.world.write_set;
      };
      closed_fds =
          x.closed_fds
          ++ (close_pipe c.cgi.srv_in ++ (close_pipe c.cgi.srv_err ++ (cgi_reset cgi).1));
      conn = record c {
        buf = buf_reset c.buf;
        req = req_reset c.req;
        resp = resp_reset c.resp;
        cgi = (cgi_reset cgi).0;
      };
    }

-- The slot `idx` gets the last connection, with its new index, and the last slot goes.
unfoldable pub move_last : List Conn → ℕ → Option Conn → List Conn
move_last conns idx none = conns
move_last conns idx (some last) =
    take (length conns - 1) (set conns idx (record last { idx = idx }))

unfoldable pub remove_slot : List Conn → ℕ → List Conn
remove_slot conns idx = move_last conns idx (get_elem? conns (length conns - 1))

-- The connection itself is freed; whether it was deleted.
unfoldable pub pl_del_conn : Ctx Pool → Ctx Pool × Bool
pl_del_conn x =
    if leb (length x.world.conns) x.conn.idx
    then (x, false)
    else let y = pl_reset_conn x in
      (
        record y {
          world = record y.world {
            read_set = fd_clr x.conn.fd y.world.read_set;
            conns = remove_slot y.world.conns x.conn.idx;
          };
          closed_fds = y.closed_fds ++ x.conn.fd ∷ [];
        },
        true,
      )
