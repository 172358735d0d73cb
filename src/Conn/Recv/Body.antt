-- ===== src/Conn/Recv/Body.antt =====
-- The body part of `cn_parse_req`: where the body ends, and what is kept for the next request.
use liso.Base.{
  ℕ, ◌⊎◌, inl, inr, refl, min, dec_lt, suc, ◌+◌, ◌-◌, ◌≤◌, ◌<◌, ◌≡◌, ap, sym, ◌∙◌, List, arith,
  length, take, pos, negsuc, sub_ℕ, ◌-ℤ◌,
}
use liso.Buffer.{Buf, buf_end, slice, write_at, buf_reset}
use liso.Buffer.Laws.{take-drop-write_at, length-slice}
use liso.Request.{ReqType, req_body, req_done, req_static, req_dynamic}
use liso.Conn.{Conn}
use liso.Conn.Recv.{choose_server, keep_rest, split_body, count_body, parse_body}

-- The copy of the bytes behind the body holds exactly those bytes.
kept_bytes :
    (m last : List ℕ) (sz rest : ℕ)
    → rest ≤ sz
    → sz ≤ length m
    → rest ≤ length last
    → slice (write_at last 0 (slice m (sz - rest) rest)) 0 rest ≡ slice m (sz - rest) rest
kept_bytes m last sz rest le room space =
    let size : length (slice m (sz - rest) rest) ≡ rest =
      length-slice m (sz - rest) rest (omega arith) in
    ap (λ n. take n (write_at last 0 (slice m (sz - rest) rest))) (sym size)
    ∙ take-drop-write_at last 0 (slice m (sz - rest) rest) (omega (arith, size))

-- A dynamic request's buffer goes from `data_p` to `end`; a static one's is empty.
abbrev pub BufferAfter : ReqType → Buf → Buf → ℕ → Type 0
BufferAfter req_static b b' end = (b'.data_p ≡ 0) × (b'.sz ≡ 0)
BufferAfter req_dynamic b b' end = (b'.mem ≡ b.mem) × (b'.data_p ≡ b.data_p) × (b'.sz ≡ end)

-- `b` holds the `n` bytes of `m` from `i` on.
abbrev pub Keeps : Buf → List ℕ → ℕ → ℕ → Type 0
Keeps b m i n = (b.sz ≡ n) × (b.data_p ≡ 0) × (slice b.mem 0 n ≡ slice m i n)

-- For a body of which `r` bytes are missing, in a buffer with `n` bytes from `data_p` on.
pub record BodySplit (c c' : Conn) (r n : ℕ) : Type 0 where
  pub buffer : BufferAfter c.req.type_ c.buf c'.buf (c.buf.data_p + min r n)
  pub phase :
      ((n < r) × (c'.req.phase ≡ req_body) × (c'.req.rsize ≡ pos (r - n)))
      ⊎ ((r ≤ n) × (c'.req.phase ≡ req_done))
  pub rest :
      ((n ≤ r) × (c'.req.last_buf ≡ c.req.last_buf))
      ⊎ ((r < n) × Keeps c'.req.last_buf c.buf.mem (c.buf.data_p + r) (n - r))

-- In the phase BODY with `r` bytes of the body missing, and a content that fits into both buffers of the
-- connection, the first `r` of the bytes from `data_p` on are the body: with fewer the
-- request waits for the rest, with as many or more it is done; a dynamic request's buffer then ends
-- with the body, a static one's is emptied; and the bytes behind the body, those of the next
-- request, are kept byte for byte.
pub parse_body-BodySplit :
    (c : Conn) (r : ℕ)
    → c.req.phase ≡ req_body
    → c.req.rsize ≡ pos r
    → c.buf.data_p ≤ c.buf.sz
    → c.buf.sz ≤ length c.buf.mem
    → c.buf.sz ≤ length c.req.last_buf.mem
    → BodySplit c (parse_body c) r (c.buf.sz - c.buf.data_p)
unfolding parse_body choose_server count_body split_body keep_rest buf_end buf_reset
parse_body-BodySplit c r phase left le room space =
    let n = c.buf.sz - c.buf.data_p in
    record {
      buffer = buffer_of c.req.type_ refl;
      phase = elim (dec_lt n r) [ yes h ↦ inl ground arith | no h ↦ inr ground arith ];
      rest = elim (dec_lt r n) [ yes h ↦ inr (kept h) | no h ↦ inl ground arith ];
    }
  where
    buffer_of :
        (t : ReqType)
        → c.req.type_ ≡ t
        → BufferAfter t c.buf (parse_body c).buf (c.buf.data_p + min r (c.buf.sz - c.buf.data_p))
    buffer_of req_static e = ground arith
    buffer_of req_dynamic e = elim (dec_lt r (c.buf.sz - c.buf.data_p)) [
      | yes h ↦ ground arith
      | no h ↦ ground arith
    ]

    kept :
        r < c.buf.sz - c.buf.data_p
        → (r < c.buf.sz - c.buf.data_p)
          × Keeps
              (parse_body c).req.last_buf
              c.buf.mem
              (c.buf.data_p + r)
              (c.buf.sz - c.buf.data_p - r)
    kept h =
        let n = c.buf.sz - c.buf.data_p - r in
        let size : suc (n - 1) ≡ n = omega arith in
        let start : c.buf.sz - n ≡ c.buf.data_p + r = omega arith in
        let value : c.req.rsize -ℤ sub_ℕ c.buf.sz c.buf.data_p ≡ negsuc (n - 1) = ground arith in
        let here =
          kept_bytes c.buf.mem c.req.last_buf.mem c.buf.sz n (omega arith) room (omega arith) in
        ground (arith, value, size, start, here)
