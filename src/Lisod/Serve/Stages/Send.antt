-- ===== src/Lisod/Serve/Stages/Send.antt =====
-- Serving, under the relation.
use liso.Base.{ℕ, refl, Bool, true, false, arith, some, none, Option, Option-cases, inl, inr, List}
use liso.CString.{Str}
use liso.Buffer.{Buf, buf_rsize, slice, bufsz}
use liso.Base.{min, ◌+◌}
use liso.Request.{is_method, m_head}
use liso.Base.{◌==◌, ◌||◌}
use liso.Conn.{Ctx, Ret, alive, closed, Net}
use liso.Conn.Static.{
  send_some, advance, header_sent, mapped_done, error_page, error_resp, cn_serve_static,
  cn_send_error_page, serve_header, serve_body, body_sent, send_some, advance, error_page,
  error_resp,
}
use liso.Conn.Dynamic.{cn_serve_dynamic, set_cgi}
use liso.Pool.{Pool}
use liso.Lisod.{liso_drop_conn, liso_reset_or_close}
use liso.Lisod.Serve.Relation.{Kept, Fate, Kept-refl, Kept-trans, InArray, call-Fate}
use liso.Lisod.Serve.Callbacks.{reset_or_close-Fate}
use liso.Lisod.Serve.{Io, stop_writing, write_dynamic, serve_dynamic, serve_static}
use liso.Lisod.Serve.Stages.Recv.{drop-Fate}
use liso.Lisod.Serve.Stages.Transitions.{read_cgi-Kept}

stop_writing-Fate : (x : Ctx Pool) (r : Ret × Ctx Pool) → Fate x r → Fate x (stop_writing r)
unfolding stop_writing
stop_writing-Fate x (closed, y) f = f
stop_writing-Fate x (alive, y) f = ground arith

send_some-Kept : (x : Ctx Pool) (net : Net) (bytes : List ℕ) → Kept x (send_some x net bytes).1
unfolding send_some
send_some-Kept x net bytes = ground arith

advance-Kept : (x : Ctx Pool) (n : ℕ) → Kept x (advance x n)
unfolding advance
advance-Kept x n = record {
  conns = refl;
  fd = refl;
  idx = refl;
  min_max_fd = refl;
  closes = λ n. omega arith;
}

set_mmbuf-Kept :
    (x : Ctx Pool) (b : Buf)
    → Kept x (record x { conn = record x.conn { resp = record x.conn.resp { mmbuf = some b } } })
set_mmbuf-Kept x b = record {
  conns = refl;
  fd = refl;
  idx = refl;
  min_max_fd = refl;
  closes = λ n. omega arith;
}

module _ (succ fat : Ctx Pool → Ret × Ctx Pool)
    (succ-Fate : (x : Ctx Pool) → InArray x → Fate x (succ x))
    (fat-Fate : (x : Ctx Pool) → InArray x → Fate x (fat x)) where
  dynamic-Fate : (x : Ctx Pool) (net : Net) → InArray x → Fate x (cn_serve_dynamic x net succ fat)
  unfolding cn_serve_dynamic set_cgi
  dynamic-Fate x net h =
      let sent =
        send_some-Kept x net (slice x.conn.buf.mem x.conn.buf.data_p (buf_rsize x.conn.buf)) in
      ground (arith, succ-Fate x h, sent, call-Fate fat fat-Fate h sent)

  error_page-Fate :
      (x : Ctx Pool) (net : Net) (now : Str)
      → InArray x
      → Fate x (cn_send_error_page x net now succ fat)
  unfolding cn_send_error_page
  error_page-Fate x net now h =
      let b = error_page x.conn now in
      let x0 = record x { conn = record x.conn { resp = error_resp x.conn; buf = b } } in
      let bytes = slice b.mem b.data_p (buf_rsize b) in
      let k0 : Kept x x0 = record {
        conns = refl;
        fd = refl;
        idx = refl;
        min_max_fd = refl;
        closes = λ n. omega arith;
      } in
      let k1 = Kept-trans k0 (send_some-Kept x0 net bytes) in
      let end = λ (n : ℕ). Kept-trans k1 (advance-Kept (send_some x0 net bytes).1 n) in
      elim (Option-cases (send_some x0 net bytes).0) [
        | inl e ↦ ground (arith, e, call-Fate fat fat-Fate h k1)
        | inr (n, e) ↦ ground (arith, e, end n, call-Fate succ succ-Fate h (end n))
      ]

  header_sent-Fate :
      (x y : Ctx Pool) (all complete : Bool)
      → InArray x
      → Kept x y
      → Fate x (header_sent y all complete succ)
  unfolding header_sent
  header_sent-Fate x y true true h k = call-Fate succ succ-Fate h (
      Kept-trans k (record {
        conns = refl;
        fd = refl;
        idx = refl;
        min_max_fd = refl;
        closes = λ n. omega arith;
      }))
  header_sent-Fate x y true false h k =
      Kept-trans k (record {
        conns = refl;
        fd = refl;
        idx = refl;
        min_max_fd = refl;
        closes = λ n. omega arith;
      })
  header_sent-Fate x y false true h k = call-Fate succ succ-Fate h k
  header_sent-Fate x y false false h k = k

  header-Fate : (x : Ctx Pool) (net : Net) → InArray x → Fate x (serve_header x net succ fat)
  unfolding serve_header
  header-Fate x net h =
      let b = x.conn.buf in
      let bytes = slice b.mem b.data_p (buf_rsize b) in
      let k1 = send_some-Kept x net bytes in
      let end = λ (n : ℕ). Kept-trans k1 (advance-Kept (send_some x net bytes).1 n) in
      elim (Option-cases (send_some x net bytes).0) [
        | inl e ↦ ground (arith, e, call-Fate fat fat-Fate h k1)
        | inr (n, e) ↦
            let y = advance (send_some x net bytes).1 n in
            let complete = is_method x.conn.req.method m_head || mapped_done x.conn.resp.mmbuf in
            ground (arith, e, header_sent-Fate x y (n == buf_rsize b) complete h (end n))
      ]

  body-Fate :
      (x : Ctx Pool) (net : Net) (m : Option Buf) → InArray x → Fate x (serve_body x net m succ fat)
  unfolding serve_body body_sent
  body-Fate x net none h = fat-Fate x h
  body-Fate x net (some b) h =
      let bytes = slice b.mem b.data_p (min bufsz (buf_rsize b)) in
      let k1 = send_some-Kept x net bytes in
      elim (Option-cases (send_some x net bytes).0) [
        | inl e ↦ ground (arith, e, call-Fate fat fat-Fate h k1)
        | inr (n, e) ↦
            let b' = record b { data_p = b.data_p + n } in
            let k2 = Kept-trans k1 (set_mmbuf-Kept (send_some x net bytes).1 b') in
            ground (arith, e, k2, call-Fate succ succ-Fate h k2)
      ]

  static-Fate :
      (x : Ctx Pool) (net : Net) (now : Str)
      → InArray x
      → Fate x (cn_serve_static x net now succ fat)
  unfolding cn_serve_static
  static-Fate x net now h = ground (
    arith,
    Kept-refl x,
    error_page-Fate x net now h,
    header-Fate x net h,
    body-Fate x net x.conn.resp.mmbuf h,
  )

write_dynamic-Fate : (io : Io) (x : Ctx Pool) → InArray x → Fate x (write_dynamic io x)
unfolding write_dynamic
write_dynamic-Fate io x h = ground (
  arith,
  Kept-refl x,
  stop_writing-Fate x _ (
      dynamic-Fate (liso_reset_or_close io.reset_alloc) liso_drop_conn
        (reset_or_close-Fate io.reset_alloc) drop-Fate x io.dynamic_net h),
)

pub serve_dynamic-Fate : (io : Io) (x : Ctx Pool) → InArray x → Fate x (serve_dynamic io x)
unfolding serve_dynamic
serve_dynamic-Fate io x h = ground (
  arith,
  Kept-refl x,
  call-Fate (write_dynamic io) (write_dynamic-Fate io) h (read_cgi-Kept io x),
)

pub serve_static-Fate : (io : Io) (x : Ctx Pool) → InArray x → Fate x (serve_static io x)
unfolding serve_static
serve_static-Fate io x h = ground (
  arith,
  Kept-refl x,
  static-Fate (liso_reset_or_close io.reset_alloc) liso_drop_conn
      (reset_or_close-Fate io.reset_alloc) drop-Fate x io.static_net io.now h,
)
