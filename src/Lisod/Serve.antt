-- ===== src/Lisod/Serve.antt =====
-- The body of the main loop for one connection: receive, transitions, serve.
pub mod Relation
pub mod Callbacks
pub mod Stages
pub mod Receive
pub mod Safe
use liso.Base.{
  ℕ, zero, suc, ◌+◌, ◌-◌, Bool, true, false, not, ◌&&◌, ◌||◌, Option, none, some, List, [], ◌∷◌,
  ◌++◌, ◌==◌, ltb, leb, if◌then◌else◌, length, take,
}
use liso.CString.{Str}
use liso.Buffer.{Buf, Alloc}
use liso.Request.{Req, req_done, req_abort, in_phase, is_static}
use liso.Response.{resp_abort, resp_ready, resp_disabled, resp_in}
use liso.Response.Build.{Files}
use liso.Cgi.{
  Cgi, cgi_ready, cgi_srv_to_cgi, cgi_cgi_to_srv, cgi_done, cgi_at, is_sending, close_pipe, Spawn,
}
use liso.Conn.{Conn, Ctx, Ret, alive, closed, Net}
use liso.Conn.Recv.{Accept, cn_recv}
use liso.Conn.Static.{cn_prepare_static_header, cn_serve_static}
use liso.Conn.Dynamic.{cn_init_cgi, cn_stream_to_cgi, cn_stream_from_cgi, cn_serve_dynamic, set_cgi}
use liso.Pool.{Pool, fd_add, fd_clr, fd_clr_pipe}
use liso.Lisod.{liso_drop_conn, liso_conn_err, liso_reset_or_close, liso_cgi_inited, add_pipe}

-- What the system answers during one round: a socket call is made in three places.
pub record Io : Type 0 where
  pub recv_net : Net
  pub dynamic_net : Net
  pub static_net : Net
  pub ssl_accept : Accept
  pub alloc : Alloc
  pub reset_alloc : Alloc
  pub files : Files
  pub now : Str
  pub spawn : Spawn
  pub cgi_write : ℕ → List ℕ → Option ℕ
  pub cgi_read : Option (List ℕ)

unfoldable pub recv_stage : Io → Ctx Pool → Ret × Ctx Pool
recv_stage io x =
    if x.world.read_ready x.conn.fd
    then cn_recv x io.recv_net io.ssl_accept io.alloc liso_conn_err liso_drop_conn
    else (alive, x)

unfoldable pub prepare_static : Io → Ctx Pool → Ctx Pool
prepare_static io x =
    let c = x.conn in
    if is_static c.req.type_ && in_phase c.req.phase req_done && resp_in c.resp.phase resp_ready
    then (cn_prepare_static_header x io.files io.now liso_conn_err).1
    else x

unfoldable pub start_cgi : Io → Ctx Pool → Ctx Pool
start_cgi io x =
    if not (is_static x.conn.req.type_) && cgi_at x.conn.cgi.phase cgi_ready
    then (cn_init_cgi x io.spawn liso_cgi_inited liso_conn_err).1
    else x

-- `prepare for select`
unfoldable pub stop_reading : Ctx Pool → Ctx Pool
stop_reading x =
    let c = x.conn in
    let p = x.world in
    if in_phase c.req.phase req_done
    then record x {
      world = record p {
        read_set = fd_clr c.fd p.read_set;
        write_set = if is_static c.req.type_ then fd_add c.fd p.write_set else p.write_set;
      };
    }
    else x

-- The CGI has its whole input: its output is awaited.
unfoldable pub turn_cgi : Ctx Pool → Ctx Pool
turn_cgi x =
    let c = x.conn in
    if in_phase c.req.phase req_done
    then set_cgi
        (record x {
          closed_fds = x.closed_fds ++ close_pipe c.cgi.srv_out;
          world = record x.world { read_set = add_pipe c.cgi.srv_in x.world.read_set };
        })
        (record c.cgi { srv_out = none; phase = cgi_cgi_to_srv })
    else x

unfoldable pub feed_cgi : Io → Ctx Pool → Ctx Pool
feed_cgi io x =
    if not (is_static x.conn.req.type_) && cgi_at x.conn.cgi.phase cgi_srv_to_cgi
    then turn_cgi (cn_stream_to_cgi x io.cgi_write liso_conn_err).1
    else x

-- `srv_in > 0 && FD_ISSET(srv_in, &read_ready)`
abbrev pub pipe_ready : Option ℕ → (ℕ → Bool) → Bool
pipe_ready none s = false
pipe_ready (some fd) s = ltb 0 fd && s fd

-- Behind `liso_stream_from_cgi`.
unfoldable pub after_read : Ctx Pool → Ctx Pool
after_read x =
    let x1 =
      if is_sending x.conn.cgi.buf_phase
      then record x { world = record x.world { write_set = fd_add x.conn.fd x.world.write_set } }
      else x in
    let cgi = x1.conn.cgi in
    if cgi_at cgi.phase cgi_done
    then set_cgi
        (record x1 {
          closed_fds = x1.closed_fds ++ close_pipe cgi.srv_in;
          world = record x1.world { read_set = fd_clr_pipe cgi.srv_in x1.world.read_set };
        })
        (record cgi { srv_in = none })
    else x1

unfoldable pub read_cgi : Io → Ctx Pool → Ctx Pool
read_cgi io x =
    let cgi = x.conn.cgi in
    if pipe_ready cgi.srv_in x.world.read_ready
      && cgi_at cgi.phase cgi_cgi_to_srv
      && not (is_sending cgi.buf_phase)
    then after_read (cn_stream_from_cgi x io.cgi_read liso_conn_err).1
    else x

-- Behind a `liso_serve_dynamic` that left the connection alive.
unfoldable pub stop_writing : Ret × Ctx Pool → Ret × Ctx Pool
stop_writing (closed, x) = (closed, x)
stop_writing (alive, x) =
    if not (is_sending x.conn.cgi.buf_phase) && ltb 0 x.conn.fd
    then (
      alive,
      record x { world = record x.world { write_set = fd_clr x.conn.fd x.world.write_set } },
    )
    else (alive, x)

unfoldable pub write_dynamic : Io → Ctx Pool → Ret × Ctx Pool
write_dynamic io x =
    if x.world.write_ready x.conn.fd && is_sending x.conn.cgi.buf_phase
    then stop_writing
        (cn_serve_dynamic x io.dynamic_net (liso_reset_or_close io.reset_alloc) liso_drop_conn)
    else (alive, x)

unfoldable pub serve_dynamic : Io → Ctx Pool → Ret × Ctx Pool
serve_dynamic io x =
    if is_static x.conn.req.type_ then (alive, x) else write_dynamic io (read_cgi io x)

unfoldable pub serve_static : Io → Ctx Pool → Ret × Ctx Pool
serve_static io x =
    if x.world.write_ready x.conn.fd && not (resp_in x.conn.resp.phase resp_disabled)
    then cn_serve_static x io.static_net io.now (liso_reset_or_close io.reset_alloc) liso_drop_conn
    else (alive, x)

-- `continue` after a stage that closed the connection.
infixl 5 ◌>>=◌
abbrev pub ◌>>=◌ : Ret × Ctx Pool → (Ctx Pool → Ret × Ctx Pool) → Ret × Ctx Pool
(alive, x) >>= f = f x
(closed, x) >>= f = (closed, x)

unfoldable pub transitions : Io → Ctx Pool → Ctx Pool
transitions io x = feed_cgi io (stop_reading (start_cgi io (prepare_static io x)))

-- Logging the CGI's stderr leaves the state alone.
unfoldable pub serve_conn : Io → Ctx Pool → Ret × Ctx Pool
serve_conn io x = do
  x1 ← recv_stage io x
  x2 ← serve_dynamic io (transitions io x1)
  serve_static io x2
