-- ===== src/Response/Framing/RoundTrip.antt =====
-- A response that is written with `resp_hdr` of response.c, and a client that reads it.
use liso.Base.{
  ℕ, suc, ◌≡◌, ap, ◌∙◌, true, some, List, [], ◌∷◌, ◌++◌, arith, length, All, codes,
  take-append_length, drop-append_length, length-append, none,
}
use liso.CString.{Str, strncaseeq}
use liso.Response.{Resp}
use liso.Response.Serial.{resp_hdr}
use liso.Response.Framing.{
  read_head, status_of, cut_body, read_response, no_body, read_head_response,
}
use liso.Response.Framing.Lines.{OneLine, split_line_lem, join, read_head_lem, length-join}
use liso.Response.Framing.Head.{
  fields_of, lines_of, status_line, IsPlain, resp_hdr-join, lines-IsField, lines-told, shown,
  status_line-shown, status_line-OneLine, status_line-version,
}

cut_body_lem :
    (code : ℕ) (body rest : List ℕ)
    → cut_body code (some (length body, body ++ rest)) ≡ some (code, body, rest)
unfolding cut_body
cut_body_lem code body rest =
    ground
      (arith, length-append body rest, take-append_length body rest, drop-append_length body rest)

read_response_lem :
    (line text : List ℕ)
    → OneLine line
    → strncaseeq line (codes "HTTP/1.1 ") 9 ≡ true
    → read_response (line ++ 13 ∷ 10 ∷ text)
      ≡ cut_body (status_of line) (read_head (suc (length text)) none text)
unfolding read_response
read_response_lem line text o e = ground (arith, split_line_lem line text o, e)

read_head_response_lem :
    (line text : List ℕ)
    → OneLine line
    → strncaseeq line (codes "HTTP/1.1 ") 9 ≡ true
    → read_head_response (line ++ 13 ∷ 10 ∷ text)
      ≡ no_body (status_of line) (read_head (suc (length text)) none text)
unfolding read_head_response
read_head_response_lem line text o e = ground (arith, split_line_lem line text o, e)

module _ (r : Resp) (now : Str) (date : OneLine now) (fields : All IsPlain (fields_of r.hdrs)) where
  head_lem :
      (t : List ℕ)
      → let lines = join (lines_of r now) (13 ∷ 10 ∷ t) in
        read_head (suc (length lines)) none lines ≡ some (r.clen, t)
  head_lem t =
      read_head_lem (suc (length (join (lines_of r now) (13 ∷ 10 ∷ t)))) none (lines_of r now) t
        (lines-IsField r now date fields)
        (omega (arith, length-join (lines_of r now) (13 ∷ 10 ∷ t)))
        (lines-told r now date fields none)

  -- A header that `resp_hdr` writes with a date and fields in which no line ends and which tell no
  -- length of their own, in front of a body of the length `clen`: a client that reads by the rules of the
  -- protocol gets the status, the body, and exactly what follows it.
  pub resp_hdr-framed :
      (body rest : List ℕ)
      → r.clen ≡ length body
      → read_response (resp_hdr r now ++ (body ++ rest)) ≡ some (shown r.status, body, rest)
  resp_hdr-framed body rest e =
      let line = status_line r.status in
      let lines = join (lines_of r now) (13 ∷ 10 ∷ (body ++ rest)) in
      let size : some (r.clen, body ++ rest) ≡ some (length body, body ++ rest) =
        ap (λ n. some (n, body ++ rest)) e in
      ap read_response (resp_hdr-join r now (body ++ rest))
      ∙ read_response_lem line lines (status_line-OneLine r.status) (status_line-version r.status)
      ∙ ap (cut_body (status_of line)) (head_lem (body ++ rest) ∙ size)
      ∙ cut_body_lem (status_of line) body rest
      ∙ ap (λ code. some (code, body, rest)) (status_line-shown r.status)

  -- A client that asked with HEAD reads the same header alone, and finds behind it what follows.
  pub resp_hdr-head :
      (rest : List ℕ)
      → read_head_response (resp_hdr r now ++ rest) ≡ some (shown r.status, [], rest)
  unfolding no_body
  resp_hdr-head rest =
      let line = status_line r.status in
      let lines = join (lines_of r now) (13 ∷ 10 ∷ rest) in
      ap read_head_response (resp_hdr-join r now rest)
      ∙ read_head_response_lem line lines (status_line-OneLine r.status)
          (status_line-version r.status)
      ∙ ap (no_body (status_of line)) (head_lem rest)
      ∙ ap (λ code. some (code, [], rest)) (status_line-shown r.status)
