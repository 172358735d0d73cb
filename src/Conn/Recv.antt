-- ===== src/Conn/Recv.antt =====
-- `recv_ignore`, `cn_parse_req` and `cn_recv`.
pub mod Body
pub mod Lines
pub mod Sound
pub mod Call
use liso.Base.{
  ℕ, zero, suc, ◌+◌, ◌-◌, ◌%◌, ◌^◌, Bool, true, false, not, ◌&&◌, ◌||◌, Option, none, some, List,
  [], ◌∷◌, ◌++◌, ◌==◌, ltb, leb, if◌then◌else◌, length, ℤ, ◌-ℤ◌, sub_ℕ, neg_part, is_neg, pos,
  negsuc,
}
use liso.Buffer.{Buf, Alloc, bufsz, slice, write_at, buf_new, buf_end, buf_rsize, buf_reset}
use liso.Request.{
  Req, ReqPhase, req_start, req_header, req_body, req_done, req_abort, in_phase, is_static,
  phase_code, ReqType, req_static, req_dynamic,
}
use liso.Request.Parse.{Rc, parsed, status, req_parse}
use liso.Response.{Resp, resp_disabled}
use liso.Cgi.{Cgi, cgi_idle, cgi_ready, cgi_disabled, cgi_at}
use liso.Conn.{Conn, Ctx, Ret, alive, closed, ErrCb, FatCb, Net, smart_recv, nonpositive}

-- What the first call in `cn_recv` on an SSL connection gives: 0, a negative number, or success.
pub data Accept : Type 0 where
  refused again accepted : Accept

unfoldable pub recv_ignore : {W : Type 0} → Ctx W → Net → FatCb W → Ret × Ctx W
recv_ignore x net fat_cb = elim (smart_recv net x.conn.ssl bufsz) [
  | none ↦ fat_cb x
  | some [] ↦ fat_cb x
  | some (c ∷ cs) ↦ (
    alive,
    record x {
      conn = record x.conn { buf = record x.conn.buf { mem = write_at x.conn.buf.mem 0 (c ∷ cs) } };
    },
  )
]

-- The place behind the last newline: `i` is where the bytes start, `q` the place found so far.
unfoldable pub line_end : List ℕ → ℕ → ℕ → ℕ
line_end [] i q = q
line_end (c ∷ cs) i q = line_end cs (i + 1) (if c == 10 then i + 1 else q)

-- `q` in `cn_parse_req`. The start value `data_p - 1` only has to be no more than `data_p`.
unfoldable pub parse_end : Buf → ℕ → ℕ
parse_end b last_recv_end =
    line_end (slice b.mem last_recv_end (buf_end b - last_recv_end)) last_recv_end (b.data_p - 1)

-- The local buffer of the lines up to `q`.
unfoldable pub copy_lines : Alloc → Buf → ℕ → Buf
copy_lines a b q =
    let n = q - b.data_p in
    let fresh = buf_new a in
    record fresh { sz = n; mem = write_at fresh.mem 0 (slice b.mem b.data_p n) }

-- What the parser's result means for the connection: `start` is where the lines began in its buffer
-- and `q` where they end.
unfoldable pub received : Conn → ℕ → ℕ → Req × Rc → Conn × Option ℕ
received c start q (req, status code) =
    (record c { req = req; buf = record c.buf { data_p = q } }, some code)
received c start q (req, parsed n) =
    (record c { req = req; buf = record c.buf { data_p = start + n } }, none)

-- The header part: the connection, and the status if the header is bad.
unfoldable pub parse_received : Conn → Alloc → ℕ → Conn × Option ℕ
parse_received c a last_recv_end =
    let q = parse_end c.buf last_recv_end in
    if ltb c.buf.data_p q
    then received c c.buf.data_p q (req_parse c.req (copy_lines a c.buf q))
    else (c, none)

-- The transitions when the header is complete.
unfoldable pub choose_server : Conn → Conn
choose_server c =
    if is_static c.req.type_
    then record c { cgi = record c.cgi { phase = cgi_disabled } }
    else record c {
      resp = record c.resp { phase = resp_disabled };
      cgi = if cgi_at c.cgi.phase cgi_idle then record c.cgi { phase = cgi_ready } else c.cgi;
    }

-- The bytes behind the body, kept for the next request.
unfoldable pub keep_rest : Conn → ℕ → Conn
keep_rest c rest = record c {
  req = record c.req {
    phase = req_done;
    last_buf = record (buf_reset c.req.last_buf) {
      sz = rest;
      mem = write_at c.req.last_buf.mem 0 (slice c.buf.mem (buf_end c.buf - rest) rest);
    };
  };
  buf = record c.buf { sz = c.buf.sz - rest };
}

-- By what is left of the body: more to come, all there, or more than all.
unfoldable pub split_body : Conn → ℤ → Conn
split_body c (pos zero) = record c { req = record c.req { phase = req_done } }
split_body c (pos (suc n)) = c
split_body c (negsuc n) = keep_rest c (suc n)

unfoldable pub count_body : Conn → Conn
count_body c =
    let rsize = c.req.rsize -ℤ sub_ℕ (buf_end c.buf) c.buf.data_p in
    split_body (record c { req = record c.req { rsize = rsize } }) rsize

unfoldable pub parse_body : Conn → Conn
parse_body c =
    let c' = count_body (choose_server c) in
    if in_phase c.req.phase req_body
    then if is_static c'.req.type_ then record c' { buf = buf_reset c'.buf } else c'
    else c

unfoldable pub cn_parse_req : {W : Type 0} → Ctx W → Alloc → ℕ → ErrCb W → Ret × Ctx W
cn_parse_req x a last_recv_end err_cb =
    let (c, bad) =
      if in_phase x.conn.req.phase req_start || in_phase x.conn.req.phase req_header
      then parse_received x.conn a last_recv_end
      else (x.conn, none) in
    elim bad [
      | some code ↦ err_cb (record x { conn = c }) code
      | none ↦ (alive, record x { conn = parse_body c })
    ]

unfoldable pub set_phase : {W : Type 0} → Ctx W → ReqPhase → Ctx W
set_phase x phase = record x { conn = record x.conn { req = record x.conn.req { phase = phase } } }

-- The bytes appended to the connection's buffer.
unfoldable pub append_recv : Conn → List ℕ → Conn
append_recv c bytes = record c {
  buf = record c.buf {
    sz = c.buf.sz + length bytes;
    mem = write_at c.buf.mem (buf_end c.buf) bytes;
  };
}

-- From `smart_recv` on.
unfoldable pub take_recv :
    {W : Type 0} → Ctx W → Alloc → Option (List ℕ) → ErrCb W → FatCb W → Ret × Ctx W
take_recv x a none err_cb fat_cb = fat_cb (set_phase x req_abort)
take_recv x a (some []) err_cb fat_cb = fat_cb (set_phase x req_abort)
take_recv x a (some (c ∷ cs)) err_cb fat_cb =
    let x' = record x { conn = append_recv x.conn (c ∷ cs) } in
    (alive, (cn_parse_req x' a (buf_end x.conn.buf) err_cb).1)

unfoldable pub ssl_handshake : {W : Type 0} → Ctx W → Accept → FatCb W → Ret × Ctx W
ssl_handshake x refused fat_cb = fat_cb (record x { conn = record x.conn { ssl = false } })
ssl_handshake x again fat_cb = (alive, x)
ssl_handshake x accepted fat_cb = (alive, record x { conn = record x.conn { ssl_accepted = true } })

-- `BUFSZ - conn->buf->sz`
unfoldable pub room : Buf → ℕ
room b = (bufsz + 2 ^ 64 - b.sz) % 2 ^ 64

unfoldable pub cn_recv :
    {W : Type 0} → Ctx W → Net → Accept → Alloc → ErrCb W → FatCb W → Ret × Ctx W
cn_recv x net accept a err_cb fat_cb =
    if x.conn.ssl && not x.conn.ssl_accepted
    then ssl_handshake x accept fat_cb
    else if in_phase x.conn.req.phase req_abort
    then recv_ignore x net fat_cb
    else if nonpositive (room x.conn.buf)
    then recv_ignore (err_cb x 400).1 net fat_cb
    else take_recv x a (smart_recv net x.conn.ssl (room x.conn.buf)) err_cb fat_cb
