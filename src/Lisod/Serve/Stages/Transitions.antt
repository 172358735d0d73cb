-- ===== src/Lisod/Serve/Stages/Transitions.antt =====
-- The transitions and the reading of the CGI's output, under the relation.
use liso.Base.{Grows-append, ◌++◌, inl, inr, Bool-cases, ℕ, refl, arith, some, none, Option, List}
use liso.Conn.{Ctx}
use liso.Conn.Static.{cn_prepare_static_header}
use liso.Conn.Dynamic.{cn_init_cgi, cn_stream_to_cgi, cn_stream_from_cgi, set_cgi}
use liso.Pool.{Pool, fd_clr_pipe}
use liso.Cgi.{Spawn, cgi_init, close_pipe, is_sending}
use liso.Lisod.{liso_conn_err, liso_cgi_inited}
use liso.Lisod.Serve.Relation.{Kept, Kept-trans, Kept-refl, if-Kept}
use liso.Lisod.Serve.{
  Io, prepare_static, start_cgi, stop_reading, turn_cgi, feed_cgi, after_read, read_cgi,
  transitions,
}

prepare-Kept : (io : Io) (x : Ctx Pool) → Kept x (prepare_static io x)
unfolding prepare_static cn_prepare_static_header liso_conn_err
prepare-Kept io x = ground arith

init_cgi-Kept :
    (x : Ctx Pool) (spawn : Spawn) → Kept x (cn_init_cgi x spawn liso_cgi_inited liso_conn_err).1
unfolding cn_init_cgi set_cgi liso_conn_err liso_cgi_inited
init_cgi-Kept x spawn = elim (Bool-cases (cgi_init x.conn.cgi spawn).1) [
  | inl e ↦ rw e (record {
    conns = refl;
    fd = refl;
    idx = refl;
    min_max_fd = refl;
    closes = Grows-append x.closed_fds _;
  })
  | inr e ↦ rw e (record {
    conns = refl;
    fd = refl;
    idx = refl;
    min_max_fd = refl;
    closes = Grows-append x.closed_fds _;
  })
]

start_cgi-Kept : (io : Io) (x : Ctx Pool) → Kept x (start_cgi io x)
unfolding start_cgi
start_cgi-Kept io x = if-Kept _ (init_cgi-Kept x io.spawn) (Kept-refl x)

stop_reading-Kept : (x : Ctx Pool) → Kept x (stop_reading x)
unfolding stop_reading
stop_reading-Kept x = ground arith

turn_cgi-Kept : (x : Ctx Pool) → Kept x (turn_cgi x)
unfolding turn_cgi set_cgi
turn_cgi-Kept x =
    if-Kept _
      (record {
        conns = refl;
        fd = refl;
        idx = refl;
        min_max_fd = refl;
        closes = Grows-append x.closed_fds _;
      })
      (Kept-refl x)

stream_to-Kept :
    (x : Ctx Pool) (write : ℕ → List ℕ → Option ℕ)
    → Kept x (cn_stream_to_cgi x write liso_conn_err).1
unfolding cn_stream_to_cgi liso_conn_err
stream_to-Kept x write = ground arith

feed_cgi-Kept : (io : Io) (x : Ctx Pool) → Kept x (feed_cgi io x)
unfolding feed_cgi
feed_cgi-Kept io x =
    if-Kept _ (Kept-trans (stream_to-Kept x io.cgi_write) (turn_cgi-Kept _)) (Kept-refl x)

close_input-Kept :
    (x : Ctx Pool)
    → Kept x (
        set_cgi
          (record x {
            closed_fds = x.closed_fds ++ close_pipe x.conn.cgi.srv_in;
            world = record x.world { read_set = fd_clr_pipe x.conn.cgi.srv_in x.world.read_set };
          })
          (record x.conn.cgi { srv_in = none }))
unfolding set_cgi
close_input-Kept x = record {
  conns = refl;
  fd = refl;
  idx = refl;
  min_max_fd = refl;
  closes = Grows-append x.closed_fds _;
}

after_read-Kept : (x : Ctx Pool) → Kept x (after_read x)
unfolding after_read
after_read-Kept x =
    let shown : Kept x _ =
      if-Kept (is_sending x.conn.cgi.buf_phase)
        (record {
          conns = refl;
          fd = refl;
          idx = refl;
          min_max_fd = refl;
          closes = λ n. omega arith;
        })
        (Kept-refl x) in
    if-Kept _ (Kept-trans shown (close_input-Kept _)) shown

stream_from-Kept :
    (x : Ctx Pool) (got : Option (List ℕ)) → Kept x (cn_stream_from_cgi x got liso_conn_err).1
unfolding cn_stream_from_cgi set_cgi liso_conn_err
stream_from-Kept x none = record {
  conns = refl;
  fd = refl;
  idx = refl;
  min_max_fd = refl;
  closes = λ n. omega arith;
}
stream_from-Kept x (some bytes) = record {
  conns = refl;
  fd = refl;
  idx = refl;
  min_max_fd = refl;
  closes = λ n. omega arith;
}

pub read_cgi-Kept : (io : Io) (x : Ctx Pool) → Kept x (read_cgi io x)
unfolding read_cgi
read_cgi-Kept io x = ground (
  arith,
  stream_from-Kept x io.cgi_read,
  after_read-Kept (cn_stream_from_cgi x io.cgi_read liso_conn_err).1,
)

pub transitions-Kept : (io : Io) (x : Ctx Pool) → Kept x (transitions io x)
unfolding transitions
transitions-Kept io x =
    Kept-trans (prepare-Kept io x)
      (Kept-trans (start_cgi-Kept io _) (Kept-trans (stop_reading-Kept _) (feed_cgi-Kept io _)))
