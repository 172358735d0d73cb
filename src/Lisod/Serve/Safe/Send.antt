-- ===== src/Lisod/Serve/Safe/Send.antt =====
-- The sending of a response on the invariant of Conn/Safe.
use liso.Base.{
  ℕ, ◌+◌, ◌≤◌, ◌≡◌, inl, inr, Bool, true, false, arith, length, Bool-cases, Option, none, some,
  ◌&&◌, ◌||◌, not, ◌==◌, Option-cases, length-take, drop, min, leb, ltb, ap,
}
use liso.CString.{Str}
use liso.Buffer.{Alloc, Buf, bufsz, buf_end, buf_rsize, slice}
use liso.Request.{m_head, is_method}
use liso.Response.{resp_in, resp_abort, resp_header, resp_body}
use liso.Cgi.{cgi_at, cgi_done, is_sending}
use liso.Conn.{Conn, Ctx, Ret, alive, closed, Net}
use liso.Conn.Safe.{Safe, advance-Content}
use liso.Conn.Static.{
  send_some, advance, mapped_done, header_sent, serve_header, body_sent, serve_body,
  cn_serve_static,
}
use liso.Conn.Static.Stream.{TakesAtMost, send_some_lem}
use liso.Conn.Dynamic.{cn_serve_dynamic, set_cgi}
use liso.Pool.{Pool}
use liso.Lisod.{liso_reset_or_close, liso_drop_conn}
use liso.Lisod.Serve.{stop_writing}
use liso.Lisod.Serve.Safe.{Lives, drop-Lives}
use liso.Lisod.Serve.Safe.Reset.{reset_or_close-Lives}
use liso.Lisod.Serve.Safe.Page.{send_some-conn, error_page-Lives}

sent-Safe :
    (x : Ctx Pool) (n : ℕ)
    → Safe x.conn
    → n ≤ buf_rsize x.conn.buf
    → resp_in x.conn.resp.phase resp_header ≡ true
    → Safe (advance x n).conn
unfolding advance
sent-Safe x n s most sending = record {
  rooms = s.rooms;
  content = advance-Content x.conn.req.phase x.conn.req x.conn.buf n most s.content;
  orders = record {
    fresh = s.orders.fresh;
    aborted = s.orders.aborted;
    dynamic = s.orders.dynamic;
    relaying = ground (arith, s.orders.dynamic);
    packed = s.orders.packed;
    small = s.orders.small;
  };
}

-- With the body next.
body_next-Safe :
    (c : Conn) → Safe c → Safe (record c { resp = record c.resp { phase = resp_body } })
body_next-Safe c s = record {
  rooms = s.rooms;
  content = s.content;
  orders = record {
    fresh = inl (omega arith);
    aborted = inl (omega arith);
    dynamic = inr (inr (omega arith));
    relaying = s.orders.relaying;
    packed = s.orders.packed;
    small = s.orders.small;
  };
}

pub stop_writing-Lives : (r : Ret × Ctx Pool) → Lives Safe r → Lives Safe (stop_writing r)
unfolding stop_writing
stop_writing-Lives (closed, x) s = tt
stop_writing-Lives (alive, x) s =
    elim (Bool-cases (not (is_sending x.conn.cgi.buf_phase) && ltb 0 x.conn.fd)) [
      | inl e ↦ rw e s
      | inr e ↦ rw e s
    ]

module _ (a : Alloc) (space : bufsz ≤ length a.bytes) where
  pub dynamic-Lives :
      (x : Ctx Pool) (net : Net)
      → Safe x.conn
      → Lives Safe (cn_serve_dynamic x net (liso_reset_or_close a) liso_drop_conn)
  unfolding cn_serve_dynamic set_cgi
  dynamic-Lives x net s =
      let rsize = buf_rsize x.conn.buf in
      let out = send_some x net (slice x.conn.buf.mem x.conn.buf.data_p rsize) in
      let same = send_some-conn x net (slice x.conn.buf.mem x.conn.buf.data_p rsize) in
      let kept : Safe out.1.conn = rw same s in
      elim (Bool-cases (rsize == 0 && cgi_at x.conn.cgi.phase cgi_done)) [
        | inl e ↦ rw e (reset_or_close-Lives a x s.rooms space)
        | inr e ↦ elim (Option-cases out.0) [
          | inl f ↦ rw (e, f) (drop-Lives Safe out.1)
          | inr (n, f) ↦ elim (Bool-cases (rsize == n)) [
            | inl all ↦ rw (e, f, all) kept
            | inr part ↦ rw (e, f, part) kept
          ]
        ]
      ]

  header_sent-Lives :
      (x : Ctx Pool) (all complete : Bool)
      → Safe x.conn
      → Lives Safe (header_sent x all complete (liso_reset_or_close a))
  unfolding header_sent
  header_sent-Lives x true true s =
      let y = record x {
        conn = record x.conn { resp = record x.conn.resp { phase = resp_body } };
      } in
      reset_or_close-Lives a y (body_next-Safe x.conn s).rooms space
  header_sent-Lives x true false s = body_next-Safe x.conn s
  header_sent-Lives x false true s = reset_or_close-Lives a x s.rooms space
  header_sent-Lives x false false s = s

  header-Lives :
      (x : Ctx Pool) (net : Net)
      → Safe x.conn
      → TakesAtMost net
      → resp_in x.conn.resp.phase resp_header ≡ true
      → Lives Safe (serve_header x net (liso_reset_or_close a) liso_drop_conn)
  unfolding serve_header
  header-Lives x net s most sending =
      let b = x.conn.buf in
      let bytes = slice b.mem b.data_p (buf_rsize b) in
      let complete = is_method x.conn.req.method m_head || mapped_done x.conn.resp.mmbuf in
      let out = send_some x net bytes in
      let same = send_some-conn x net bytes in
      elim (send_some_lem x net bytes most) [
        | inl e ↦
            let failed : out.0 ≡ none = ap (λ o. o.0) e in
            rw (failed, serve_header) (drop-Lives Safe out.1)
        | inr (n, _, le, e) ↦
            let took : out.0 ≡ some n = ap (λ o. o.0) e in
            let within : n ≤ buf_rsize b =
              omega (arith, length-take (buf_rsize b) (drop b.data_p b.mem)) in
            rw (took, serve_header)
              (header_sent-Lives (advance out.1 n) (n == buf_rsize b) complete
                (sent-Safe out.1 n (rw same s) (rw same within) (rw same sending)))
      ]

  body-Lives :
      (x : Ctx Pool) (net : Net) (m : Option Buf)
      → Safe x.conn
      → Lives Safe (serve_body x net m (liso_reset_or_close a) liso_drop_conn)
  unfolding serve_body body_sent
  body-Lives x net none s = drop-Lives Safe x
  body-Lives x net (some b) s =
      let bytes = slice b.mem b.data_p (min bufsz (buf_rsize b)) in
      let out = send_some x net bytes in
      let kept : Safe out.1.conn = rw (send_some-conn x net bytes) s in
      elim (Option-cases out.0) [
        | inl f ↦ rw f (drop-Lives Safe out.1)
        | inr (n, f) ↦
            let b' = record b { data_p = b.data_p + n } in
            let y = record out.1 {
              conn = record out.1.conn { resp = record out.1.conn.resp { mmbuf = some b' } };
            } in
            elim (Bool-cases (leb (buf_end b') b'.data_p)) [
              | inl all ↦ rw (f, all) (reset_or_close-Lives a y kept.rooms space)
              | inr part ↦ rw (f, part) kept
            ]
      ]

  pub static-Lives :
      (x : Ctx Pool) (net : Net) (now : Str)
      → Safe x.conn
      → TakesAtMost net
      → Lives Safe (cn_serve_static x net now (liso_reset_or_close a) liso_drop_conn)
  unfolding cn_serve_static
  static-Lives x net now s most = elim (Bool-cases (resp_in x.conn.resp.phase resp_abort)) [
    | inl e ↦ rw e (error_page-Lives a space x net now s e)
    | inr e ↦ elim (Bool-cases (resp_in x.conn.resp.phase resp_header)) [
      | inl f ↦ rw (e, f) (header-Lives x net s most f)
      | inr f ↦ elim (Bool-cases (resp_in x.conn.resp.phase resp_body)) [
        | inl g ↦ rw (e, f, g) (body-Lives x net x.conn.resp.mmbuf s)
        | inr g ↦ rw (e, f, g) s
      ]
    ]
  ]
