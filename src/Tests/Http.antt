-- ===== src/Tests/Http.antt =====
-- The theorems on requests and responses, at concrete inputs.
use liso.Base.{
  count, drop, get_or, ◌-◌, take, ℕ, zero, suc, ◌+◌, ◌<◌, ◌≤◌, ◌≡◌, ◌⊎◌, inl, refl, true, false,
  Option, none, some, List, [], ◌∷◌, ◌++◌, arith, length, codes, pos,
}
use liso.Request.Scan.{proceed_inline, skip, run_length, issp, eol}
use liso.Utils.{strncpy0, strstartswith, strcpy0, strstrip}
use liso.Utils.Strip.{Spaces, strstrip_lem}
use liso.CString.{strncaseeq, lower, strcaseeq, strchr, cstr, is_space, Str}
use liso.Buffer.{buf_end, write_at, buf_new, Buf, buf_reset}
use liso.Request.{req_body}
use liso.Request.Parse.{
  after_round, parse_start, parse_method, read_method, parse_target, read_uri, split_host,
  host_start, move_host, host_end, write_str, split_params, read_version, parse_header, parse_lines,
  parse_line, req_parse,
}
use liso.Request.Parse.Total.{Outcome, req_parse-Outcome}
use liso.Response.Build.{resp_build}
use liso.Response.Build.Found.{resp_build-IsMissing}
use liso.Cgi.{
  buf_recv, Spawn, cgi_init, cgi_reset, make_pipes, use_pipes, run_parent, fd_setsize,
  cgi_srv_to_cgi,
}
use liso.Cgi.Pipes.{cgi_init-reset_closes, cgi_init-true}
use liso.Conn.{Conn, Ctx, Net, smart_send, alive}
use liso.Conn.Recv.{parse_end, line_end, copy_lines, received, parse_received, parse_body}
use liso.Conn.Recv.Lines.{Received, parse_received-Received}
use liso.Conn.Recv.Body.{BodySplit, parse_body-BodySplit}
use liso.Conn.Static.Page.{page_of, send_error_page-sent}
use liso.CString.Decimal.{print_nat, digits_fuel}
use liso.Request.Pack.{pack_headers}
use liso.Response.{resp_msg, resp_title, page}
use liso.Response.Serial.{resp_hdr}
use liso.Conn.Static.{cn_send_error_page, error_resp}
use liso.Conn.Static.Stream.{TakesAtMost}
use liso.Conn.Dynamic.{cn_stream_to_cgi, cn_serve_dynamic, write_all}
use liso.Conn.Dynamic.Pipe.{stream_to_cgi-short, serve_dynamic-short, write_all-length}
use liso.Pool.{Pool}
use liso.Tests.Data.{
  full_conn, length-blank, zeros, fresh, a_req, a_resp, a_cgi, conn_at, pool_of, ctx_of, no_net,
  no_pages,
}

-- A request line and an unfinished header, with the fresh of an allocation behind them.
abbrev text : Str
text = codes "GET /a.html HTTP/1.1" ++ (13 ∷ 10 ∷ [])

abbrev text_buf : Buf
text_buf = record { sz = length text; mem = text ++ zeros 10; data_p = 0; before = 0 }

abbrev receiving : Conn
receiving = record (conn_at 5 0) { buf = text_buf }

text_buf-inside : (req_parse a_req text_buf).0.overrun ≡ false
unfolding req_parse after_round parse_start strncpy0 proceed_inline skip run_length buf_end issp
    is_space parse_method read_method strncaseeq lower parse_target eol read_uri split_host
    host_start strcaseeq move_host host_end strchr write_str split_params strstartswith read_version
    parse_header parse_lines parse_line cstr write_at strcpy0
text_buf-inside = refl

receiving-inside : (parse_received receiving fresh 0).0.req.overrun ≡ false
unfolding parse_received parse_end line_end copy_lines received buf_new req_parse after_round
    parse_start strncpy0 proceed_inline skip run_length buf_end issp is_space parse_method
    read_method strncaseeq lower parse_target eol read_uri split_host host_start strcaseeq move_host
    host_end strchr write_str split_params strstartswith read_version parse_header parse_lines
    parse_line cstr write_at strcpy0
receiving-inside = refl

req_parse-Outcome_example : Outcome text_buf (req_parse a_req text_buf)
req_parse-Outcome_example =
    req_parse-Outcome a_req text_buf (inl refl)
      (record { before_end = omega arith; allocated = omega arith; newline = refl }) text_buf-inside

parse_received-Received_example : Received receiving (parse_received receiving fresh 0)
parse_received-Received_example =
    parse_received-Received receiving fresh 0 (inl refl) (omega arith) (omega arith) (omega arith)
      (omega arith) (λ k low high. elim high [ ]) receiving-inside

-- Three bytes of a body, and then the next request.
abbrev pub body_buf : Buf
body_buf = record { sz = 7; mem = codes "abcGET " ++ zeros 3; data_p = 0; before = 0 }

abbrev posting : Conn
posting = record (conn_at 5 0) {
  buf = body_buf;
  req = record a_req { phase = req_body; rsize = pos 3; clen = pos 3 };
}

parse_body-BodySplit_example : BodySplit posting (parse_body posting) 3 7
parse_body-BodySplit_example =
    parse_body-BodySplit posting 3 refl refl (omega arith) (omega arith) (omega arith)

-- A socket that takes one byte of each send.
abbrev one_byte : List ℕ → Option ℕ
one_byte [] = none
one_byte (c ∷ cs) = some 1

abbrev pub slow : Net
slow = record no_net { ssl_write = one_byte; send = one_byte }

pub slow-TakesAtMost : TakesAtMost slow
unfolding smart_send
slow-TakesAtMost true [] n e = cc
slow-TakesAtMost false [] n e = cc
slow-TakesAtMost true (c ∷ cs) n e = ground arith
slow-TakesAtMost false (c ∷ cs) n e = ground arith

abbrev pub serving : Ctx Pool
serving =
    ctx_of (record (conn_at 5 0) { resp = record a_resp { mmbuf = some body_buf } }) (pool_of [])

abbrev streaming : Ctx Pool
streaming = ctx_of (record (conn_at 5 0) { buf = body_buf }) (pool_of [])

-- The CGI's pipe takes four bytes, and then three.
abbrev four_three : ℕ → List ℕ → Option ℕ
four_three zero bytes = some 4
four_three (suc i) bytes = some 3

stream_to_cgi-short_example : cn_stream_to_cgi streaming four_three (λ x code. (alive, x)) ≡ (
  alive,
  record streaming {
    piped = codes "abcGabc";
    conn = record streaming.conn { buf = buf_reset body_buf };
  },
)
stream_to_cgi-short_example =
    stream_to_cgi-short streaming four_three (λ x code. (alive, x)) 3 2
      (record { size = refl; allocated = omega arith; small = omega arith }) refl refl

-- A socket that takes all that it is given.
abbrev eager : Net
eager = record slow { send = λ bytes. some (length bytes) }

serve_dynamic-short_example :
    let first = cn_serve_dynamic streaming slow (λ x. (alive, x)) (λ x. (alive, x)) in
    let second = cn_serve_dynamic first.1 eager (λ x. (alive, x)) (λ x. (alive, x)) in
    (first.0 ≡ alive)
    × (second.0 ≡ alive)
    × (second.1.conn.cgi.buf_phase ≡ buf_recv)
    × (second.1.sent ≡ codes "aabcGET ")
unfolding smart_send
serve_dynamic-short_example =
    serve_dynamic-short streaming slow eager (λ x. (alive, x)) (λ x. (alive, x)) 6 0
      (record { size = refl; allocated = omega arith; small = omega arith }) refl (omega arith) refl

write_all-length_example : length (write_all (λ i bytes. one_byte bytes) body_buf 3 0 3).1 ≡ 3
unfolding write_all
write_all-length_example =
    write_all-length (λ i bytes. one_byte bytes) body_buf 3 0 3 most (omega arith) (omega arith)
      refl
  where
    most : (j : ℕ) (bytes : List ℕ) (n : ℕ) → one_byte bytes ≡ some n → n ≤ length bytes
    most j [] n e = cc
    most j (c ∷ cs) n e = ground arith

cgi_init-reset_closes_example :
    let (c', ok, closed) = cgi_init a_cgi (record {
      stdin_pipe = some (5, 6);
      stdout_pipe = some (7, 8);
      stderr_pipe = some (9, 10);
      fork = none;
    }) in
    count 8 (closed ++ (cgi_reset c').1) ≡ count 8 (5 ∷ 6 ∷ 7 ∷ 8 ∷ 9 ∷ 10 ∷ [])
cgi_init-reset_closes_example = cgi_init-reset_closes a_cgi (5, 6) (7, 8) (9, 10) none 8

abbrev spawned : Spawn
spawned = record {
  stdin_pipe = some (5, 6);
  stdout_pipe = some (7, 8);
  stderr_pipe = some (9, 10);
  fork = some 77;
}

cgi_init-true_example :
    (7 < fd_setsize)
    × (9 < fd_setsize)
    × ((cgi_init a_cgi spawned).0.srv_out ≡ some 6)
    × ((cgi_init a_cgi spawned).0.srv_in ≡ some 7)
    × ((cgi_init a_cgi spawned).0.srv_err ≡ some 9)
    × ((cgi_init a_cgi spawned).0.phase ≡ cgi_srv_to_cgi)
    × ((cgi_init a_cgi spawned).2 ≡ 5 ∷ 8 ∷ 10 ∷ [])
unfolding cgi_init make_pipes use_pipes run_parent
cgi_init-true_example = cgi_init-true a_cgi spawned refl (5, 6) (7, 8) (9, 10) refl refl refl

resp_build-IsMissing_example :
    ((resp_build no_pages a_resp a_req).0.status ≡ 404)
    × ((resp_build no_pages a_resp a_req).1 ≡ false)
resp_build-IsMissing_example =
    resp_build-IsMissing no_pages a_resp a_req (record { itself = refl; html = refl; htm = refl })

-- A connection that is to be answered with 404.
abbrev failing : Ctx Pool
failing = ctx_of (record full_conn { resp = record a_resp { status = 404 } }) (pool_of [])

send_error_page-sent_example :
    (y : Ctx Pool) × (y.sent ≡ take 1 (page_of failing.conn (codes "Thu")))
    × (((length (page_of failing.conn (codes "Thu")) ≤ 1)
          × (cn_send_error_page failing slow (codes "Thu") (λ x. (alive, x)) (λ x. (alive, x))
              ≡ (alive, y)))
        ⊎ ((1 < length (page_of failing.conn (codes "Thu")))
            × (cn_send_error_page failing slow (codes "Thu") (λ x. (alive, x)) (λ x. (alive, x))
                ≡ (alive, y))
            × (page_of y.conn (codes "Thu") ≡ page_of failing.conn (codes "Thu"))))
unfolding resp_hdr resp_msg resp_title page print_nat digits_fuel pack_headers error_resp smart_send
send_error_page-sent_example =
    send_error_page-sent failing slow (codes "Thu") (λ x. (alive, x)) (λ x. (alive, x)) 0
      (omega (arith, length-blank 8192)) (omega (arith, length-blank 8192)) (omega arith) refl

strstrip_lem_example :
    (Spaces (codes " ab ") 0 4 × (strstrip (codes " ab ") ≡ []))
    ⊎ ((i j : ℕ) × (i ≤ j)
        × (j < 4)
        × (strstrip (codes " ab ") ≡ take (j + 1 - i) (drop i (codes " ab ")))
        × Spaces (codes " ab ") 0 i
        × (is_space (get_or (codes " ab ") i 0) ≡ false)
        × (is_space (get_or (codes " ab ") j 0) ≡ false)
        × Spaces (codes " ab ") (suc j) 4)
strstrip_lem_example = strstrip_lem (codes " ab ")
