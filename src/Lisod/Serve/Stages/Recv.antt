-- ===== src/Lisod/Serve/Stages/Recv.antt =====
-- Receiving, under the relation.
use liso.Base.{ℕ, refl, arith, some, none, Option, List, [], ◌∷◌}
use liso.Buffer.{Alloc, buf_end}
use liso.Request.{req_abort}
use liso.Conn.{Ctx, Net, smart_recv}
use liso.Conn.Recv.{
  cn_recv, room, take_recv, ssl_handshake, recv_ignore, set_phase, append_recv, Accept,
}
use liso.Pool.{Pool}
use liso.Lisod.{liso_drop_conn, liso_conn_err}
use liso.Lisod.Serve.Relation.{Kept, Fate, Kept-refl, Kept-trans, InArray, call-Fate}
use liso.Lisod.Serve.Callbacks.{drop-Dropped, conn_err-Kept, parse_req-Kept}
use liso.Lisod.Serve.{Io, recv_stage}

pub drop-Fate : (x : Ctx Pool) → InArray x → Fate x (liso_drop_conn x)
unfolding liso_drop_conn
drop-Fate x h = ground (arith, drop-Dropped x h)

recv_ignore-Fate :
    (x : Ctx Pool) (net : Net) → InArray x → Fate x (recv_ignore x net liso_drop_conn)
unfolding recv_ignore
recv_ignore-Fate x net h = ground (arith, drop-Fate x h)

append-Kept :
    (x : Ctx Pool) (bytes : List ℕ) → Kept x (record x { conn = append_recv x.conn bytes })
unfolding append_recv
append-Kept x bytes = record {
  conns = refl;
  fd = refl;
  idx = refl;
  min_max_fd = refl;
  closes = λ n. omega arith;
}

set_phase-Kept : (x : Ctx Pool) → Kept x (set_phase x req_abort)
unfolding set_phase
set_phase-Kept x = record {
  conns = refl;
  fd = refl;
  idx = refl;
  min_max_fd = refl;
  closes = λ n. omega arith;
}

take_recv-Fate :
    (x : Ctx Pool) (a : Alloc) (got : Option (List ℕ))
    → InArray x
    → Fate x (take_recv x a got liso_conn_err liso_drop_conn)
unfolding take_recv
take_recv-Fate x a none h = call-Fate liso_drop_conn drop-Fate h (set_phase-Kept x)
take_recv-Fate x a (some []) h = call-Fate liso_drop_conn drop-Fate h (set_phase-Kept x)
take_recv-Fate x a (some (c ∷ cs)) h =
    Kept-trans (append-Kept x (c ∷ cs)) (parse_req-Kept _ a (buf_end x.conn.buf))

handshake-Fate : (x : Ctx Pool) (a : Accept) → InArray x → Fate x (ssl_handshake x a liso_drop_conn)
unfolding ssl_handshake
handshake-Fate x Accept.refused h =
    call-Fate liso_drop_conn drop-Fate h
      (record { conns = refl; fd = refl; idx = refl; min_max_fd = refl; closes = λ n. omega arith })
handshake-Fate x Accept.again h = Kept-refl x
handshake-Fate x Accept.accepted h = record {
  conns = refl;
  fd = refl;
  idx = refl;
  min_max_fd = refl;
  closes = λ n. omega arith;
}

pub recv-Fate : (io : Io) (x : Ctx Pool) → InArray x → Fate x (recv_stage io x)
unfolding recv_stage cn_recv
recv-Fate io x h = ground (
  arith,
  Kept-refl x,
  handshake-Fate x io.ssl_accept h,
  recv_ignore-Fate x io.recv_net h,
  call-Fate (λ (y : Ctx Pool). recv_ignore y io.recv_net liso_drop_conn)
      (λ y. recv_ignore-Fate y io.recv_net) h (conn_err-Kept x 400),
  take_recv-Fate x io.alloc (smart_recv io.recv_net x.conn.ssl (room x.conn.buf)) h,
)
