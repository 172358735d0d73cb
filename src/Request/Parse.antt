-- ===== src/Request/Parse.antt =====
-- `req_parse`, split where the source's phases and loop split it.
pub mod Total
pub mod Frame
use liso.Base.{
  ℕ, zero, suc, ◌+◌, ◌-◌, ◌^◌, min, Bool, true, false, not, ◌&&◌, ◌||◌, Option, none, some, List,
  [], ◌∷◌, ◌++◌, if◌then◌else◌, ltb, ◌==◌, length, drop, set, codes, ℤ, is_neg, pos,
}
use liso.CString.{Str, cstr, strcaseeq, strncaseeq, strchr, atoi}
use liso.Utils.{strncpy0, strcpy0, strstrip, isnum, strstartswith}
use liso.Buffer.{Buf, slice, peek, buf_end, write_at}
use liso.Header.{Hdr, hdr_new, hdr_insert, hdr_keysz, hdr_valsz}
use liso.Request.Scan.{run_length, issp, proceed_inline, proceed_line, eol}
use liso.Request.{
  Req, Method, m_get, m_head, m_post, m_other, ReqPhase, req_start, req_header, req_body, req_abort,
  req_dynamic, req_urisz, req_versz, in_phase, is_method, set_host,
}
use mathlib.Core.Option

-- What `req_parse` returns: the bytes that it read, or a status code (returned negated).
pub data Rc : Type 0 where
  parsed status : ℕ → Rc

-- Where one step of the parser leads: on to the next, out of the loop by `break`, or out of the
-- function with a status.
pub data Step : Type 0 where
  go done : Req → Buf → Step
  fail : Req → ℕ → Step

unfoldable pub abort_with : Req → ℕ → Step
abort_with r code = fail (record r { phase = req_abort }) code

-- The method that the first word names; `p` is where it starts.
unfoldable pub read_method : Str → Buf → ℕ → Method
read_method word b p =
    if strncaseeq word (codes "GET") 3 && issp (peek b (p + 3))
    then m_get
    else if strncaseeq word (codes "HEAD") 4 && issp (peek b (p + 4))
    then m_head
    else if strncaseeq word (codes "POST") 4 && issp (peek b (p + 4))
    then m_post
    else m_other

-- A string written into an array from its start, with the terminator.
unfoldable pub write_str : List ℕ → Str → List ℕ
write_str arr s = write_at arr 0 (s ++ 0 ∷ [])

unfoldable pub host_start : List ℕ → Option ℕ
host_start uri =
    if strcaseeq (cstr uri) (codes "http://")
    then some 8
    else if strcaseeq (cstr uri) (codes "https://")
    then some 9
    else none

-- `host_end`, from a `host_start`.
unfoldable pub host_end : List ℕ → ℕ → Option ℕ
host_end uri start = Option.map (λ k. start + k) (strchr (cstr (drop start uri)) b'/')

unfoldable pub move_host : Req → ℕ → Option ℕ → Req
move_host r start none = r
move_host r start (some stop) = record (set_host r (strncpy0 (drop start r.uri) (stop - start))) {
  uri = write_str r.uri (strcpy0 (drop stop r.uri));
}

unfoldable pub split_host : Req → Option ℕ → Req
split_host r none = r
split_host r (some start) = move_host r start (host_end r.uri start)

-- `req->params = strchr(req->uri, '?'); if (req->params) *req->params++ = 0;`
unfoldable pub split_params : Req → Option ℕ → Req
split_params r none = record r { params = none }
split_params r (some k) = record r { uri = set r.uri k 0; params = some (suc k) }

unfoldable pub read_uri : Req → Buf → ℕ → Req
read_uri r b p =
    let r1 = record r {
      uri = write_str r.uri (strncpy0 (drop p b.mem) (min req_urisz (b.data_p - p)));
    } in
    let r2 = split_host r1 (host_start r1.uri) in
    let r3 =
      if strstartswith (cstr r2.uri) (codes "/cgi/")
      then record r2 { type_ = req_dynamic }
      else r2 in
    split_params r3 (strchr (cstr r3.uri) b'?')

unfoldable pub read_version : Req → Buf → ℕ → Req
read_version r b p = record r { version = strncpy0 (drop p b.mem) (min req_versz (b.data_p - p)) }

-- From behind the method to the end of the request line.
unfoldable pub parse_target : Req → Buf → Step
parse_target r b =
    let (p1, b1) = proceed_inline b in
    let r1 = read_uri r b1 p1 in
    let (p2, b2) = proceed_inline b1 in
    let r2 = read_version r1 b2 p2 in
    let (p3, b3) = proceed_inline b2 in
    if not (eol b3 p3)
    then abort_with r2 400
    else go (record r2 { phase = req_header }) (record b3 { data_p = b3.data_p + 1 })

unfoldable pub parse_method : Req → Buf → Method → Step
parse_method r b m_other = abort_with r 501
parse_method r b m = parse_target (record r { method = m }) b

-- `phase START`
unfoldable pub parse_start : Req → Buf → Step
parse_start r b =
    let (p, b1) = proceed_inline b in
    let word = strncpy0 (drop p b1.mem) (min 8 (b1.data_p - p)) in
    if length word == 0 then abort_with r 400 else parse_method r b1 (read_method word b1 p)

-- The empty line: the header is complete.
unfoldable pub finish_header : Req → Buf → Step
finish_header r b =
    let b' = record b { data_p = b.data_p + 1 } in
    if is_neg r.clen
    then if is_method r.method m_post
      then abort_with r 411
      else done (record r { phase = req_body; clen = pos 0; rsize = pos 0 }) b'
    else done (record r { phase = req_body; rsize = r.clen }) b'

-- A header with its key and value; `b` is the buffer behind the line.
unfoldable pub take_header : Req → Buf → Str → Str → Step
take_header r b key val =
    if strcaseeq key (codes "Host")
    then go (set_host r val) b
    else if strcaseeq key (codes "Content-Length")
    then if isnum val then go (record r { clen = atoi val }) b else abort_with r 400
    else if strcaseeq key (codes "Connection")
    then go (if strcaseeq val (codes "close") then record r { alive = false } else r) b
    else go (record r { hdrs = hdr_insert r.hdrs (hdr_new (some key) (some val)) }) b

-- `min(HDR_VALSZ, data_p - q - 1)`, as the `size_t` that `strncpy0` takes.
unfoldable pub val_size : Buf → ℕ → ℕ
val_size b q = if ltb q b.data_p then min hdr_valsz (b.data_p - q - 1) else 2 ^ 64 - 1

-- A line that is not empty; it starts at `p` and `data_p` is at its end.
unfoldable pub parse_field : Req → Buf → ℕ → Step
parse_field r b p =
    let q = p + run_length (λ c. not (c == b':')) (slice b.mem p (b.data_p - p)) in
    if q == p || not (peek b q == b':')
    then abort_with r 400
    else take_header r (record b { data_p = b.data_p + 1 })
        (strstrip (strncpy0 (drop p b.mem) (min hdr_keysz (q - p))))
        (strstrip (strncpy0 (drop (q + 1) b.mem) (val_size b q)))

-- One round of the header loop.
unfoldable pub parse_line : Req → Buf → Step
parse_line r b =
    let (p, b') = proceed_line b in if eol b' p then finish_header r b' else parse_field r b' p

-- The loop `while (buf->data_p < buf_end(buf))`, and the rest of it behind a round. Each round moves
-- `data_p`, so that as many rounds as there are bytes left reach the end.
unfoldable pub after_round : (Req → Buf → Req × Rc) → Step → Req × Rc
after_round rest (go r b) = rest r b
after_round rest (done r b) = (r, parsed b.data_p)
after_round rest (fail r code) = (r, status code)

unfoldable pub parse_lines : ℕ → Req → Buf → Req × Rc
parse_lines zero r b = (r, parsed b.data_p)
parse_lines (suc n) r b =
    let round = after_round (parse_lines n) (parse_line r b) in
    if ltb b.data_p (buf_end b) then round else (r, parsed b.data_p)

-- `phase HEADER`
unfoldable pub parse_header : Req → Buf → Req × Rc
parse_header r b =
    if in_phase r.phase req_header
    then parse_lines (buf_end b - b.data_p) r b
    else (r, parsed b.data_p)

unfoldable pub req_parse : Req → Buf → Req × Rc
req_parse r b =
    if in_phase r.phase req_start
    then after_round parse_header (parse_start r b)
    else parse_header r b
