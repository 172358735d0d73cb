-- ===== src/Lisod/Serve/Receive.antt =====
-- Receiving, and `liso_reset_or_close` of lisod.c, on the invariant of Conn/Recv/Sound.
use liso.Base.{
  Bool, if◌then◌else◌, true, false, ◌<◌, ◌==◌, ℕ, ◌≤◌, ◌≡◌, refl, arith, length, leb, Bool-cases,
  inl, inr,
}
use liso.Buffer.Laws.{length-write_at}
use liso.Buffer.{slice, Alloc, bufsz, buf_reset}
use liso.Request.{req_reset, req_abort}
use liso.Conn.{Ret, Ctx}
use liso.Conn.Recv.{cn_parse_req}
use liso.Conn.Recv.Sound.{Fits, Rooms, Sound}
use liso.Conn.Recv.Call.{GivesAtMost, parse_req-Sound, recv-Sound}
use liso.Pool.{Pool, pl_reset_conn, pl_del_conn}
use liso.Lisod.{restore_rest, await_write, liso_reset_or_close, liso_conn_err, liso_drop_conn}
use liso.Lisod.Serve.{Io, recv_stage}

pub conn_err-Fits :
    (x : Ctx Pool) (k : ℕ)
    → Fits x.conn
    → Fits (liso_conn_err x k).1.conn × ((liso_conn_err x k).1.conn.req.phase ≡ req_abort)
unfolding liso_conn_err
conn_err-Fits x k f = (
  record {
    high = f.high;
    allocated = f.allocated;
    last_allocated = f.last_allocated;
    last_high = f.last_high;
  },
  refl,
)

pub reset-Sound : (x : Ctx Pool) → Rooms x.conn → Sound (pl_reset_conn x).conn
unfolding pl_reset_conn buf_reset req_reset
reset-Sound x f = record {
  fits = record {
    high = omega arith;
    allocated = f.allocated;
    last_allocated = f.last_allocated;
    last_high = f.last_high;
  };
  waits = (omega arith, λ k lo hi e. elim hi [ ]);
}

delete-Sound :
    (x : Ctx Pool)
    → leb (length x.world.conns) x.conn.idx ≡ false
    → Rooms x.conn
    → Sound (liso_drop_conn x).1.conn
unfolding liso_drop_conn pl_del_conn
delete-Sound x inside f = rw inside (reset-Sound x f)

pub drop-Sound : (x : Ctx Pool) → Sound x.conn → Sound (liso_drop_conn x).1.conn
unfolding liso_drop_conn pl_del_conn
drop-Sound x s = elim (Bool-cases (leb (length x.world.conns) x.conn.idx)) [
  | inl out ↦ rw out s
  | inr inside ↦ rw inside (
      reset-Sound x (record {
        allocated = s.fits.allocated;
        last_allocated = s.fits.last_allocated;
        last_high = s.fits.last_high;
      }))
]

-- If a receive gives no more bytes than it is asked for and an allocation has BUFSZ bytes, receiving
-- keeps the connection sound: the content of its buffer lies in the BUFSZ bytes that it has, with
-- `data_p` within it unless the request is aborted; before the end of the header there is no
-- complete line among the bytes that are not parsed; and in the body the number of the bytes that
-- are missing is not negative.
recv_stage-Sound :
    (io : Io) (x : Ctx Pool)
    → Sound x.conn
    → GivesAtMost io.recv_net
    → bufsz ≤ length io.alloc.bytes
    → Sound (recv_stage io x).1.conn
unfolding recv_stage
recv_stage-Sound io x s most space = elim (Bool-cases (x.world.read_ready x.conn.fd)) [
  | inl e ↦ rw e (
      recv-Sound liso_conn_err liso_drop_conn conn_err-Fits drop-Sound x io.recv_net io.ssl_accept
        io.alloc s most space)
  | inr e ↦ rw e s
]

-- The next request's bytes in the buffer of a connection that was reset.
pub restore_rest-Sound :
    (x : Ctx Pool) (a : Alloc)
    → Rooms x.conn
    → bufsz ≤ length a.bytes
    → Sound
        (cn_parse_req
          (record (pl_reset_conn x) { conn = restore_rest (pl_reset_conn x).conn })
          a
          0
          liso_conn_err).1.conn
unfolding restore_rest pl_reset_conn buf_reset req_reset
restore_rest-Sound x a f space =
    let k = f.last_high in
    let m = f.allocated in
    let bytes = slice x.conn.req.last_buf.mem 0 x.conn.req.last_buf.sz in
    parse_req-Sound liso_conn_err liso_drop_conn conn_err-Fits drop-Sound _ a 0
      (record {
        high = k;
        allocated = omega (arith, length-write_at x.conn.buf.mem 0 bytes);
        last_allocated = f.last_allocated;
        last_high = omega arith;
      })
      (omega arith, omega arith, λ k lo hi e. elim hi [ ]) space

pub await_write-conn : (x : Ctx Pool) → (await_write x).conn ≡ x.conn
unfolding await_write
await_write-conn x = ground arith

-- Behind a response to a connection of the array, whatever the buffer was used for: if both buffers have BUFSZ bytes and the bytes
-- kept for the next request are at most BUFSZ, the connection is sound again, with those bytes received and
-- parsed if it stays alive.
reset_or_close-Sound :
    (a : Alloc) (x : Ctx Pool)
    → x.conn.idx < length x.world.conns
    → Rooms x.conn
    → bufsz ≤ length a.bytes
    → Sound (liso_reset_or_close a x).1.conn
unfolding liso_reset_or_close
reset_or_close-Sound a x inside f space =
    choose x.conn.req.alive _ _
      (choose_conn ((pl_reset_conn x).conn.req.last_buf.sz == 0) _ _ (reset-Sound x f)
        (rw await_write-conn (restore_rest-Sound x a f space)))
      (delete-Sound x (ground arith) f)
  where
    choose :
        (b : Bool) (r r' : Ret × Ctx Pool)
        → Sound r.1.conn
        → Sound r'.1.conn
        → Sound (if b then r else r').1.conn
    choose true r r' s t = s
    choose false r r' s t = t

    choose_conn :
        (b : Bool) (y y' : Ctx Pool)
        → Sound y.conn
        → Sound y'.conn
        → Sound (if b then y else y').conn
    choose_conn true y y' s t = s
    choose_conn false y y' s t = t
