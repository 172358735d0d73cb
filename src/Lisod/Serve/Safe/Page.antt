-- ===== src/Lisod/Serve/Safe/Page.antt =====
-- The sending of an error page on the invariant of Conn/Safe.
use liso.Base.{
  ℕ, ◌+◌, ◌≤◌, ◌≡◌, inl, inr, [], ◌∷◌, ◌++◌, true, arith, length, Bool-cases, List, Option-cases,
  leb,
}
use liso.CString.{Str}
use liso.Buffer.{Alloc, bufsz, buf_reset, buf_end, buf_rsize, slice, write_at}
use liso.Buffer.Laws.{length-write_at}
use liso.Request.{phase_code}
use liso.Response.{resp_in, resp_abort, resp_msg}
use liso.Response.Bounds.{length-resp_msg}
use liso.Response.Serial.{resp_hdr}
use liso.Conn.{Conn, Ctx, Net}
use liso.Conn.Safe.{Safe, abort-Content}
use liso.Conn.Static.{fill_header, send_some, error_resp, error_page, advance, cn_send_error_page}
use liso.Pool.{Pool}
use liso.Lisod.{liso_reset_or_close, liso_drop_conn}
use liso.Lisod.Serve.Safe.{Lives, drop-Lives}
use liso.Lisod.Serve.Safe.Reset.{reset_or_close-Lives}

pub send_some-conn :
    (x : Ctx Pool) (net : Net) (bytes : List ℕ) → (send_some x net bytes).1.conn ≡ x.conn
unfolding send_some
send_some-conn x net bytes = ground arith

-- A read pointer that moves over bytes that were sent, in an aborted request or in a header.
moved-Safe :
    (x : Ctx Pool) (n : ℕ) → Safe x.conn → phase_code x.conn.req.phase ≡ 5 → Safe (advance x n).conn
unfolding advance
moved-Safe x n s p = record {
  rooms = s.rooms;
  content = abort-Content x.conn.req.phase x.conn.req _ p;
  orders = record {
    fresh = s.orders.fresh;
    aborted = s.orders.aborted;
    dynamic = s.orders.dynamic;
    relaying = inr (inl p);
    packed = s.orders.packed;
    small = s.orders.small;
  };
}

module _ (a : Alloc) (space : bufsz ≤ length a.bytes) where
  -- The header and the page of an error fit into the buffer.
  page-Safe :
      (c : Conn) (now : Str)
      → Safe c
      → resp_in c.resp.phase resp_abort ≡ true
      → Safe (record c { resp = error_resp c; buf = error_page c now })
  unfolding error_resp error_page fill_header buf_reset
  page-Safe c now s aborting =
      let p : phase_code c.req.phase ≡ 5 = ground (arith, s.orders.aborted) in
      let r = s.rooms.allocated in
      let t = resp_hdr (error_resp c) now in
      record {
        rooms = record {
          allocated = omega (
            arith,
            length-write_at (write_at c.buf.mem 0 (t ++ 0 ∷ [])) (length t)
                (resp_msg c.resp.status),
            length-write_at c.buf.mem 0 (t ++ 0 ∷ []),
          );
          last_allocated = s.rooms.last_allocated;
          last_high = s.rooms.last_high;
        };
        content = abort-Content c.req.phase c.req (error_page c now) p;
        orders = record {
          fresh = s.orders.fresh;
          aborted = s.orders.aborted;
          dynamic = s.orders.dynamic;
          relaying = inr (inl p);
          packed = s.orders.packed;
          small = omega (arith, length-resp_msg c.resp.status);
        };
      }

  pub error_page-Lives :
      (x : Ctx Pool) (net : Net) (now : Str)
      → Safe x.conn
      → resp_in x.conn.resp.phase resp_abort ≡ true
      → Lives Safe (cn_send_error_page x net now (liso_reset_or_close a) liso_drop_conn)
  unfolding cn_send_error_page
  error_page-Lives x net now s aborting =
      let b = error_page x.conn now in
      let x0 = record x { conn = record x.conn { resp = error_resp x.conn; buf = b } } in
      let bytes = slice b.mem b.data_p (buf_rsize b) in
      let out = send_some x0 net bytes in
      let page : Safe out.1.conn =
        rw (send_some-conn x0 net bytes) (page-Safe x.conn now s aborting) in
      let p : phase_code out.1.conn.req.phase ≡ 5 =
        rw (send_some-conn x0 net bytes) (ground (arith, s.orders.aborted)) in
      elim (Option-cases out.0) [
        | inl f ↦ rw (f, cn_send_error_page) (drop-Lives Safe out.1)
        | inr (n, f) ↦
            let later = moved-Safe out.1 n page p in
            elim (Bool-cases (leb (buf_end b) (b.data_p + n))) [
              | inl all ↦
                  rw (f, all, cn_send_error_page)
                    (reset_or_close-Lives a (advance out.1 n) later.rooms space)
              | inr part ↦ rw (f, part, cn_send_error_page) later
            ]
      ]
