-- ===== src/Conn/Static/Pending.antt =====
-- What is pending of a static response, and what a call of `cn_serve_static` of conn.c makes of it.
use liso.Base.{
  length-take, ℕ, ◌+◌, ◌-◌, ◌^◌, ◌≤◌, ◌<◌, ◌≡◌, refl, sym, ap, ◌∙◌, ◌⊎◌, false, some, List, [],
  ◌++◌, arith, length, take, drop, length-append,
}
use mathlib.Core.List.{append_assoc}
use liso.Buffer.{Buf, slice, buf_rsize}
use liso.Buffer.Laws.{length-slice}
use liso.Request.{is_method, m_head}
use liso.Response.{RespPhase, resp_ready, resp_header, resp_body, resp_abort, resp_disabled}
use liso.Conn.{Conn, Ctx, Ret, alive, SuccCb, FatCb, Net}
use liso.Conn.Static.Stream.{Fails, rest_of, Mapped, slice-split, take-take}

-- The bytes of the response that the client does not have yet.
abbrev pub pending : RespPhase → Conn → List ℕ
pending resp_header c = rest_of (some c.buf) ++ rest_of c.resp.mmbuf
pending resp_body c = rest_of c.resp.mmbuf
pending resp_ready c = []
pending resp_abort c = []
pending resp_disabled c = []

-- Something of the header is left in the buffer.
pub record HasHeader (c : Conn) : Type 0 where
  pub left : c.buf.data_p < c.buf.sz
  pub allocated : c.buf.sz ≤ length c.buf.mem
  pub small : c.buf.sz < 2 ^ 64
  pub with_body : is_method c.req.method m_head ≡ false

pub rsize_lem : (c : Conn) → HasHeader c → buf_rsize c.buf ≡ c.buf.sz - c.buf.data_p
unfolding buf_rsize
rsize_lem c h = let l = h.left in let s = h.small in omega arith

module _ {W : Type 0} where
  -- The response `x` is being sent, from the mapped file `b`, with something of the file left.
  abbrev pub Serving : Ctx W → Buf → Type 0
  Serving x b =
      Mapped x b
      × ((x.conn.resp.phase ≡ resp_body) ⊎ ((x.conn.resp.phase ≡ resp_header) × HasHeader x.conn))

  -- What a call that sends something makes of `x`.
  pub record Sent (x y : Ctx W) : Type 0 where
    pub whole :
        y.sent ++ pending y.conn.resp.phase y.conn ≡ x.sent ++ pending x.conn.resp.phase x.conn
    pub shorter :
        length (pending y.conn.resp.phase y.conn) < length (pending x.conn.resp.phase x.conn)
    pub world : y.world ≡ x.world

  -- The outcomes of a call.
  abbrev pub Progress : Ctx W → Net → SuccCb W → FatCb W → Ret × Ctx W → Type 0
  Progress x net succ_cb fat_cb out =
      (Fails x net × (out ≡ fat_cb x))
      ⊎ ((y : Ctx W) × Sent x y
          × (((pending y.conn.resp.phase y.conn ≡ []) × (out ≡ succ_cb y))
              ⊎ ((b : Buf) × Serving y b × (out ≡ (alive, y)))))

  -- The header part, when `n` bytes of the header went out.
  module _ (x : Ctx W) (b : Buf) (m : Mapped x b) (h : HasHeader x.conn) (n : ℕ) (some_sent : 0 < n)
      (le : n ≤ x.conn.buf.sz - x.conn.buf.data_p) where
    -- With the phase left as it is, or set to BODY.
    abbrev pub after : RespPhase → Ctx W
    after phase = record x {
      sent =
          x.sent
          ++ take n (slice x.conn.buf.mem x.conn.buf.data_p (x.conn.buf.sz - x.conn.buf.data_p));
      conn = record x.conn {
        buf = record x.conn.buf { data_p = x.conn.buf.data_p + n };
        resp = record x.conn.resp { phase = phase };
      };
    }

    taken :
        length (take n (slice x.conn.buf.mem x.conn.buf.data_p (x.conn.buf.sz - x.conn.buf.data_p)))
        ≡ n
    taken =
        let bytes = slice x.conn.buf.mem x.conn.buf.data_p (x.conn.buf.sz - x.conn.buf.data_p) in
        let a = h.allocated in
        let l = h.left in
        omega (
          arith,
          length-take n bytes,
          length-slice x.conn.buf.mem x.conn.buf.data_p (x.conn.buf.sz - x.conn.buf.data_p)
              (omega arith),
        )

    pieces :
        take n (slice x.conn.buf.mem x.conn.buf.data_p (x.conn.buf.sz - x.conn.buf.data_p))
          ++ rest_of (some (record x.conn.buf { data_p = x.conn.buf.data_p + n }))
        ≡ rest_of (some x.conn.buf)
    pieces =
        let k : x.conn.buf.sz - (x.conn.buf.data_p + n) ≡ x.conn.buf.sz - x.conn.buf.data_p - n =
          omega arith in
        rw
          (
            take-take (drop x.conn.buf.data_p x.conn.buf.mem) n (x.conn.buf.sz - x.conn.buf.data_p)
                le,
            k,
          )
          (slice-split x.conn.buf.mem x.conn.buf.data_p n (x.conn.buf.sz - x.conn.buf.data_p) le)

    -- What went out makes what is pending shorter.
    after-Sent :
        (phase : RespPhase)
        → (after phase).sent ++ pending phase (after phase).conn
          ≡ x.sent ++ pending x.conn.resp.phase x.conn
        → Sent x (after phase)
    after-Sent phase whole = record {
      whole = whole;
      shorter =
          let bytes =
            take n (slice x.conn.buf.mem x.conn.buf.data_p (x.conn.buf.sz - x.conn.buf.data_p)) in
          omega (
            arith,
            ap length whole,
            length-append (after phase).sent (pending phase (after phase).conn),
            length-append x.sent (pending x.conn.resp.phase x.conn),
            length-append x.sent bytes,
            taken,
          );
      world = refl;
    }

    pub part-Sent : x.conn.resp.phase ≡ resp_header → Sent x (after resp_header)
    part-Sent phase =
        let sent =
          take n (slice x.conn.buf.mem x.conn.buf.data_p (x.conn.buf.sz - x.conn.buf.data_p)) in
        let rest = rest_of (some (record x.conn.buf { data_p = x.conn.buf.data_p + n })) in
        after-Sent resp_header (
          rw (phase, append_assoc)
            (ap (λ s. x.sent ++ s)
              (sym (append_assoc sent rest (rest_of x.conn.resp.mmbuf))
                ∙ ap (λ s. s ++ rest_of x.conn.resp.mmbuf) pieces)))

    pub all-Sent :
        n ≡ x.conn.buf.sz - x.conn.buf.data_p
        → x.conn.resp.phase ≡ resp_header
        → Sent x (after resp_body)
    all-Sent e phase =
        let k = x.conn.buf.sz - x.conn.buf.data_p in
        let content = drop x.conn.buf.data_p x.conn.buf.mem in
        after-Sent resp_body (
          rw (phase, append_assoc)
            (ap (λ s. x.sent ++ (s ++ rest_of x.conn.resp.mmbuf))
              (take-take content n k le ∙ ap (λ j. take j content) e)))
