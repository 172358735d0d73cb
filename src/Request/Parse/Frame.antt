-- ===== src/Request/Parse/Frame.antt =====
-- `last_buf` under `req_parse` of request.c.
use liso.Base.{ℕ, zero, suc, ◌≡◌, refl, ◌-◌, ◌∙◌, arith, Option, none, some}
use liso.Buffer.{Buf, buf_end}
use liso.Request.{Req, Method, m_get, m_head, m_post, m_other, set_host}
use liso.Request.Parse.{
  Rc, Step, go, done, fail, abort_with, read_uri, move_host, split_host, split_params, read_version,
  parse_target, parse_method, parse_start, finish_header, take_header, parse_field, parse_line,
  after_round, parse_lines, parse_header, req_parse, host_end,
}

-- The request that a step leads to.
abbrev req_of : Step → Req
req_of (go r b) = r
req_of (done r b) = r
req_of (fail r k) = r

move_host-last : (r : Req) (i : ℕ) (o : Option ℕ) → (move_host r i o).last_buf ≡ r.last_buf
unfolding move_host set_host
move_host-last r i none = refl
move_host-last r i (some k) = refl

split_host-last : (r : Req) (o : Option ℕ) → (split_host r o).last_buf ≡ r.last_buf
unfolding split_host
split_host-last r none = refl
split_host-last r (some k) = move_host-last r k (host_end r.uri k)

split_params-last : (r : Req) (o : Option ℕ) → (split_params r o).last_buf ≡ r.last_buf
unfolding split_params
split_params-last r none = refl
split_params-last r (some k) = refl

read_uri-last : (r : Req) (b : Buf) (p : ℕ) → (read_uri r b p).last_buf ≡ r.last_buf
unfolding read_uri
read_uri-last r b p = grind (arith, split_host-last, split_params-last)

parse_target-last : (r : Req) (b : Buf) → (req_of (parse_target r b)).last_buf ≡ r.last_buf
unfolding parse_target abort_with read_version
parse_target-last r b = grind (arith, read_uri-last)

parse_method-last :
    (r : Req) (b : Buf) (m : Method) → (req_of (parse_method r b m)).last_buf ≡ r.last_buf
unfolding parse_method abort_with
parse_method-last r b m_get = parse_target-last _ b
parse_method-last r b m_head = parse_target-last _ b
parse_method-last r b m_post = parse_target-last _ b
parse_method-last r b m_other = refl

parse_start-last : (r : Req) (b : Buf) → (req_of (parse_start r b)).last_buf ≡ r.last_buf
unfolding parse_start abort_with
parse_start-last r b = grind (arith, parse_method-last)

parse_line-last : (r : Req) (b : Buf) → (req_of (parse_line r b)).last_buf ≡ r.last_buf
unfolding parse_line finish_header parse_field take_header abort_with set_host
parse_line-last r b = ground arith

after_round-last :
    (rest : Req → Buf → Req × Rc) (s : Step)
    → ((r : Req) (b : Buf) → (rest r b).0.last_buf ≡ r.last_buf)
    → (after_round rest s).0.last_buf ≡ (req_of s).last_buf
unfolding after_round
after_round-last rest (go r b) same = same r b
after_round-last rest (done r b) same = refl
after_round-last rest (fail r k) same = refl

parse_lines-last : (n : ℕ) (r : Req) (b : Buf) → (parse_lines n r b).0.last_buf ≡ r.last_buf
unfolding parse_lines
parse_lines-last zero r b = refl
parse_lines-last (suc n) r b =
    let round =
      after_round-last (parse_lines n) (parse_line r b) (parse_lines-last n)
      ∙ parse_line-last r b in
    ground arith

parse_header-last : (r : Req) (b : Buf) → (parse_header r b).0.last_buf ≡ r.last_buf
unfolding parse_header
parse_header-last r b = ground (arith, parse_lines-last (buf_end b - b.data_p) r b)

pub req_parse-last_buf : (r : Req) (b : Buf) → (req_parse r b).0.last_buf ≡ r.last_buf
unfolding req_parse
req_parse-last_buf r b =
    let first =
      after_round-last parse_header (parse_start r b) parse_header-last ∙ parse_start-last r b in
    ground (arith, first, parse_header-last r b)
