-- ===== src/Conn/Static/Delivery.antt =====
-- A static response on its way to the client: `cn_serve_static` of conn.c over all its calls.
use liso.Base.{
  ℕ_discrete, ◌≢◌, length-take, ℕ, ◌+◌, ◌-◌, ◌≤◌, ◌<◌, ◌≡◌, refl, ◌∙◌, inl, inr, false, some, arith,
  length, drop,
}
use liso.CString.{Str}
use liso.Buffer.{Buf, slice, buf_rsize, buf_end}
use liso.Buffer.Laws.{length-slice}
use liso.Response.{resp_header, resp_body}
use liso.Conn.{Ctx, SuccCb, FatCb, Net}
use liso.Conn.Static.{advance, header_sent, mapped_done, serve_header, serve_body, cn_serve_static}
use liso.Conn.Static.Stream.{TakesAtMost, Mapped, Moved, send_some_lem, serve_body-Moved}
use liso.Conn.Static.Pending.{
  HasHeader, rsize_lem, Serving, Sent, Progress, after, part-Sent, all-Sent,
}

module _ {W : Type 0} where
  -- A call in the phase HEADER.
  header-Progress :
      (x : Ctx W) (net : Net) (b : Buf) (succ_cb : SuccCb W) (fat_cb : FatCb W)
      → Mapped x b
      → x.conn.resp.phase ≡ resp_header
      → HasHeader x.conn
      → TakesAtMost net
      → Progress x net succ_cb fat_cb (serve_header x net succ_cb fat_cb)
  unfolding serve_header header_sent advance mapped_done buf_end
  header-Progress x net b succ_cb fat_cb m phase h most =
      elim (send_some_lem x net
        (slice x.conn.buf.mem x.conn.buf.data_p (x.conn.buf.sz - x.conn.buf.data_p)) most) [
          | inl e ↦ inl (
            (slice x.conn.buf.mem x.conn.buf.data_p (x.conn.buf.sz - x.conn.buf.data_p), asked, e),
            ground (arith, e, size),
          )
          | inr (n, some_sent, le, e) ↦
              let le' : n ≤ x.conn.buf.sz - x.conn.buf.data_p = omega (
                arith,
                length-take (x.conn.buf.sz - x.conn.buf.data_p)
                    (drop x.conn.buf.data_p x.conn.buf.mem),
              ) in
              inr (elim (ℕ_discrete n (x.conn.buf.sz - x.conn.buf.data_p)) [
                | yes all ↦ (
                  after x b m h n some_sent le' resp_body,
                  all-Sent x b m h n some_sent le' all phase,
                  inr (
                    b,
                    (
                      record {
                        here = m.here;
                        left = m.left;
                        allocated = m.allocated;
                        small = m.small;
                      },
                      inl refl,
                    ),
                    ground (arith, e, size, not_done, h.with_body),
                  ),
                )
                | no part ↦ (
                  after x b m h n some_sent le' resp_header,
                  part-Sent x b m h n some_sent le' phase,
                  inr (
                    b,
                    (
                      record {
                        here = m.here;
                        left = m.left;
                        allocated = m.allocated;
                        small = m.small;
                      },
                      inr (refl, left n le' part),
                    ),
                    ground (arith, e, size, not_done, h.with_body),
                  ),
                )
              ])
        ]
    where
      size : buf_rsize x.conn.buf ≡ x.conn.buf.sz - x.conn.buf.data_p
      size = rsize_lem x.conn h

      asked :
          0 < length (slice x.conn.buf.mem x.conn.buf.data_p (x.conn.buf.sz - x.conn.buf.data_p))
      asked =
          let l = h.left in
          let a = h.allocated in
          omega (
            arith,
            length-slice x.conn.buf.mem x.conn.buf.data_p (x.conn.buf.sz - x.conn.buf.data_p)
                (omega arith),
          )

      not_done : mapped_done x.conn.resp.mmbuf ≡ false
      not_done = let l = m.left in ground (arith, m.here)

      left :
          (n : ℕ)
          → n ≤ x.conn.buf.sz - x.conn.buf.data_p
          → n ≢ x.conn.buf.sz - x.conn.buf.data_p
          → HasHeader (record x.conn {
            buf = record x.conn.buf { data_p = x.conn.buf.data_p + n };
            resp = record x.conn.resp { phase = resp_header };
          })
      left n le part = record {
        left = let l = h.left in omega arith;
        allocated = h.allocated;
        small = h.small;
        with_body = h.with_body;
      }

  -- A call in the phase BODY.
  body-Progress :
      (x : Ctx W) (net : Net) (b : Buf) (succ_cb : SuccCb W) (fat_cb : FatCb W)
      → Mapped x b
      → x.conn.resp.phase ≡ resp_body
      → TakesAtMost net
      → Progress x net succ_cb fat_cb (serve_body x net (some b) succ_cb fat_cb)
  body-Progress x net b succ_cb fat_cb m phase most =
      elim (serve_body-Moved x net b succ_cb fat_cb m most) [
        | inl e ↦ inl e
        | inr (y, v, inl (done, e)) ↦ inr (y, moved y v, inl (rw (v.phase, phase) done, e))
        | inr (y, v, inr (b', m', _, e)) ↦
            inr (y, moved y v, inr (b', (m', inl (v.phase ∙ phase)), e))
      ]
    where
      moved : (y : Ctx W) → Moved x y → Sent x y
      moved y v = record {
        whole = rw (v.phase, phase) v.whole;
        shorter = rw (v.phase, phase) v.shorter;
        world = v.world;
      }

  -- A call of `cn_serve_static` while a response is being sent, over a socket that takes no more than
  -- it is given.
  pub serve_static-Progress :
      (x : Ctx W) (net : Net) (now : Str) (b : Buf) (succ_cb : SuccCb W) (fat_cb : FatCb W)
      → Serving x b
      → TakesAtMost net
      → Progress x net succ_cb fat_cb (cn_serve_static x net now succ_cb fat_cb)
  unfolding cn_serve_static
  serve_static-Progress x net now b succ_cb fat_cb (m, inl phase) most =
      let call : cn_serve_static x net now succ_cb fat_cb
          ≡ serve_body x net (some b) succ_cb fat_cb =
        ground (arith, m.here) in
      rw call (body-Progress x net b succ_cb fat_cb m phase most)
  serve_static-Progress x net now b succ_cb fat_cb (m, inr (phase, h)) most =
      let call : cn_serve_static x net now succ_cb fat_cb ≡ serve_header x net succ_cb fat_cb =
        ground arith in
      rw call (header-Progress x net b succ_cb fat_cb m phase h most)
