-- ===== src/Lisod/Serve/Safe/Reset.antt =====
-- The reset of a connection behind a response, on the invariant of Conn/Safe.
use liso.Base.{
  ◌≤◌, ◌<◌, ◌≡◌, refl, inl, inr, [], Bool, true, false, arith, length, ◌==◌, if◌then◌else◌,
}
use liso.Buffer.{Alloc, bufsz}
use liso.Request.{req_reset, phase_code}
use liso.Response.{resp_reset}
use liso.Header.{hdr_reset}
use liso.Request.Pack.{pack_headers}
use liso.Cgi.{cgi_reset}
use liso.Conn.{Conn, Ctx, Ret}
use liso.Conn.Recv.Sound.{Rooms}
use liso.Conn.Safe.{Orders, Safe, Sound-Safe}
use liso.Pool.{Pool, pl_reset_conn}
use liso.Lisod.{restore_rest, liso_reset_or_close}
use liso.Lisod.Serve.Receive.{reset-Sound, restore_rest-Sound, await_write-conn}
use liso.Lisod.Serve.Safe.{Lives, drop-Lives, parse_req-Orders}

pack_headers-nil : pack_headers [] ≡ []
unfolding pack_headers
pack_headers-nil = refl

reset-Orders : (x : Ctx Pool) → Orders (pl_reset_conn x).conn
unfolding pl_reset_conn resp_reset cgi_reset hdr_reset req_reset
reset-Orders x = record {
  fresh = inr (refl, refl);
  aborted = inl (omega arith);
  dynamic = inl (omega arith);
  relaying = inl (omega arith);
  packed = rw pack_headers-nil (omega arith);
  small = omega arith;
}

restored-Orders : (c : Conn) → phase_code c.req.phase < 3 → Orders c → Orders (restore_rest c)
unfolding restore_rest
restored-Orders c early o = record {
  fresh = o.fresh;
  aborted = o.aborted;
  dynamic = o.dynamic;
  relaying = o.relaying;
  packed = o.packed;
  small = o.small;
}

reset_phase : (x : Ctx Pool) → phase_code (pl_reset_conn x).conn.req.phase ≡ 1
unfolding pl_reset_conn req_reset
reset_phase x = refl

-- Behind a response, whatever it left in the buffer.
pub reset_or_close-Lives :
    (a : Alloc) (x : Ctx Pool)
    → Rooms x.conn
    → bufsz ≤ length a.bytes
    → Lives Safe (liso_reset_or_close a x)
unfolding liso_reset_or_close
reset_or_close-Lives a x r space =
    choose x.conn.req.alive _ _
      (choose_conn ((pl_reset_conn x).conn.req.last_buf.sz == 0) _ _
        (Sound-Safe _ (reset-Sound x r) (reset-Orders x))
        (rw await_write-conn (
          Sound-Safe _ (restore_rest-Sound x a r space) (
            parse_req-Orders
              (record (pl_reset_conn x) { conn = restore_rest (pl_reset_conn x).conn }) a 0
              (restored-Orders _ (omega (arith, reset_phase x)) (reset-Orders x))))))
      (drop-Lives Safe x)
  where
    choose :
        (b : Bool) (r r' : Ret × Ctx Pool)
        → Lives Safe r
        → Lives Safe r'
        → Lives Safe (if b then r else r')
    choose true r r' s t = s
    choose false r r' s t = t

    choose_conn :
        (b : Bool) (y y' : Ctx Pool) → Safe y.conn → Safe y'.conn → Safe (if b then y else y').conn
    choose_conn true y y' s t = s
    choose_conn false y y' s t = t
