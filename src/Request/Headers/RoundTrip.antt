-- ===== src/Request/Headers/RoundTrip.antt =====
-- The header lines that `pack_headers` writes, before the header loop of `req_parse`.
use liso.Base.{
  ℕ, zero, suc, ◌+◌, ◌-◌, ◌≤◌, ◌<◌, ◌≡◌, refl, ap, ◌∙◌, sym, true, false, List, [], ◌∷◌, ◌++◌, ◌==◌,
  arith, length, drop, get_or, length-append, drop-append_length, ltb, is_neg,
}
use mathlib.Core.List.{append_assoc}
use liso.CString.{Str}
use liso.Buffer.{Buf, buf_end, slice, peek, peek_prev}
use liso.Header.{Hdr, hdr_insert}
use liso.Request.{Req, req_body}
use liso.Request.Pack.{pack_headers}
use liso.Request.Scan.{run_length, issp, skip, proceed_line, eol}
use liso.Request.Scan.Bounds.{get_or-drop}
use liso.Request.Parse.{
  parsed, done, take_header, finish_header, parse_line, after_round, parse_lines,
}
use liso.Request.Headers.{run_length-take, drop_add}
use liso.Request.Headers.Line.{
  not_newline, run_length_first, IsField, IsPlain, line, parse_line-IsField, take_header-IsPlain,
}

return_blank : issp 13 ≡ true
unfolding issp
return_blank = refl

newline_stops : issp 10 ≡ false
unfolding issp
newline_stops = refl

-- The empty line at the end of a header, at `data_p`.
module _ (b : Buf) (rest : Str) (text : drop b.data_p b.mem ≡ 13 ∷ 10 ∷ rest)
    (inside : b.data_p + 2 ≤ b.sz) where
  next_byte : drop (b.data_p + 1) b.mem ≡ 10 ∷ rest
  next_byte = rw (drop_add b.data_p 1 b.mem, text) refl

  proceed_empty : proceed_line b ≡ (b.data_p + 1, record b { data_p = b.data_p + 1 })
  unfolding proceed_line skip buf_end
  proceed_empty =
      let one : run_length issp (slice b.mem b.data_p (b.sz - b.data_p)) ≡ 1 = rw text (
        run_length-take issp (13 ∷ []) 10 rest (b.sz - b.data_p) (return_blank, tt) newline_stops
          (omega arith)) in
      let none_left : run_length not_newline (slice b.mem (b.data_p + 1) (b.sz - (b.data_p + 1)))
          ≡ 0 =
        rw next_byte (run_length_first not_newline (10 ∷ rest) (b.sz - (b.data_p + 1)) refl) in
      let same : b.data_p + 1 + 0 ≡ b.data_p + 1 = omega arith in rw (one, none_left, same) refl

  pub eol_empty : eol (record b { data_p = b.data_p + 1 }) (b.data_p + 1) ≡ true
  unfolding eol buf_end
  eol_empty =
      let before : ltb (b.data_p + 1) b.sz ≡ true = ground arith in
      let prev : peek_prev b (b.data_p + 1) ≡ 13 = rw (suc_lem b.data_p) (
        ap (λ k. get_or b.mem k 0) (zero_lem b.data_p)
        ∙ (sym (get_or-drop b.mem b.data_p 0) ∙ rw text refl)) in
      let at : peek b (b.data_p + 1) ≡ 10 = sym (get_or-drop b.mem b.data_p 1) ∙ rw text refl in
      let same : (b.data_p + 1 == b.data_p + 1) ≡ true = ground arith in
      rw (same, before, prev, at) refl
    where
      suc_lem : (d : ℕ) → d + 1 ≡ suc d
      suc_lem d = omega arith

      zero_lem : (d : ℕ) → d ≡ d + 0
      zero_lem d = omega arith

  parse_empty :
      (r : Req)
      → is_neg r.clen ≡ false
      → parse_line r b
        ≡ done (record r { phase = req_body; rsize = r.clen }) (record b { data_p = b.data_p + 2 })
  unfolding parse_line finish_header
  parse_empty r h =
      let end : b.data_p + 1 + 1 ≡ b.data_p + 2 = omega arith in
      rw (proceed_empty, eol_empty, h, end) refl

-- One round of the header loop over a line that carries a field.
pub round-IsField :
    (h : Hdr) (b : Buf) (rest : Str) (n : ℕ) (r : Req)
    → IsField h
    → drop b.data_p b.mem ≡ line h ++ 10 ∷ rest
    → b.data_p + length (line h) < b.sz
    → parse_lines (suc n) r b
      ≡ after_round
          (parse_lines n)
          (take_header r (record b { data_p = b.data_p + length (line h) + 1 }) h.key h.val)
unfolding parse_lines buf_end
round-IsField h b rest n r v text inside =
    let more : ltb b.data_p b.sz ≡ true = ground arith in
    rw (more, parse_line-IsField h v b rest text inside r) refl

-- What is left behind such a line.
pub behind_line :
    (h : Hdr) (b : Buf) (rest : Str)
    → drop b.data_p b.mem ≡ line h ++ 10 ∷ rest
    → drop (b.data_p + length (line h) + 1) b.mem ≡ rest
behind_line h b rest text =
    rw
      (
        drop_add (b.data_p + length (line h)) 1 b.mem,
        drop_add b.data_p (length (line h)) b.mem,
        text,
        drop-append_length (line h) (10 ∷ rest),
      )
      refl

-- Every header is one that a line can carry without a meaning of its own.
abbrev pub ArePlain : List Hdr → Type 0
ArePlain [] = Unit
ArePlain (h ∷ hs) = IsPlain h × ArePlain hs

-- The headers put in front of a list one after the other.
abbrev pub insert_all : List Hdr → List Hdr → List Hdr
insert_all [] acc = acc
insert_all (h ∷ hs) acc = insert_all hs (h ∷ acc)

-- A packed header is its line, a newline and the others.
pack-line :
    (h : Hdr) (hs : List Hdr) (t : Str)
    → pack_headers (h ∷ hs) ++ t ≡ line h ++ 10 ∷ (pack_headers hs ++ t)
unfolding pack_headers
pack-line h hs t = simp append_assoc

length-pack :
    (h : Hdr) (hs : List Hdr)
    → length (pack_headers (h ∷ hs)) ≡ length (line h) + 1 + length (pack_headers hs)
length-pack h hs =
    let e = ap length (pack-line h hs []) in
    omega (
      arith,
      e,
      length-append (pack_headers (h ∷ hs)) [],
      length-append (pack_headers hs) [],
      length-append (line h) (10 ∷ (pack_headers hs ++ [])),
    )

-- The last round.
pub round_empty :
    (n : ℕ) (r : Req) (b : Buf) (rest : Str)
    → drop b.data_p b.mem ≡ 13 ∷ 10 ∷ rest
    → b.data_p + 2 ≤ b.sz
    → is_neg r.clen ≡ false
    → parse_lines (suc n) r b
      ≡ (record r { phase = req_body; rsize = r.clen }, parsed (b.data_p + 2))
unfolding parse_lines after_round buf_end
round_empty n r b rest text inside c =
    let more : ltb b.data_p b.sz ≡ true = ground arith in
    rw (more, parse_empty b rest text inside r c) refl

-- A round over a header that is kept.
pub round-IsPlain :
    (h : Hdr) (b : Buf) (rest : Str) (n : ℕ) (r : Req)
    → IsPlain h
    → drop b.data_p b.mem ≡ line h ++ 10 ∷ rest
    → b.data_p + length (line h) < b.sz
    → parse_lines (suc n) r b
      ≡ parse_lines n
          (record r { hdrs = h ∷ r.hdrs })
          (record b { data_p = b.data_p + length (line h) + 1 })
unfolding after_round hdr_insert
round-IsPlain h b rest n r v text inside =
    round-IsField h b rest n r v.field text inside ∙ rw (take_header-IsPlain h r _ v) refl

-- The header loop of `req_parse` reads what `pack_headers` wrote.
pub parse_lines-pack_headers :
    (hs : List Hdr) (n : ℕ) (r : Req) (b : Buf) (rest : Str)
    → ArePlain hs
    → drop b.data_p b.mem ≡ pack_headers hs ++ 13 ∷ 10 ∷ rest
    → b.data_p + length (pack_headers hs) + 2 ≤ b.sz
    → length (pack_headers hs) + 2 ≤ n
    → is_neg r.clen ≡ false
    → parse_lines n r b ≡ (
      record r { hdrs = insert_all hs r.hdrs; phase = req_body; rsize = r.clen },
      parsed (b.data_p + length (pack_headers hs) + 2),
    )
unfolding pack_headers
parse_lines-pack_headers hs zero r b rest v text inside fuel c = absurd (omega arith)
parse_lines-pack_headers [] (suc n) r b rest v text inside fuel c =
    let k : b.data_p + 0 + 2 ≡ b.data_p + 2 = omega arith in
    rw k (round_empty n r b rest text (omega arith) c)
parse_lines-pack_headers (h ∷ hs) (suc n) r b rest (v, vs) text inside fuel c =
    let text' = text ∙ pack-line h hs (13 ∷ 10 ∷ rest) in
    let size = length-pack h hs in
    let b' = record b { data_p = b.data_p + length (line h) + 1 } in
    let same : b.data_p + length (line h) + 1 + length (pack_headers hs) + 2
        ≡ b.data_p + length (pack_headers (h ∷ hs)) + 2 =
      omega arith in
    let first = round-IsPlain h b (pack_headers hs ++ 13 ∷ 10 ∷ rest) n r v text' (omega arith) in
    let others =
      parse_lines-pack_headers hs n (record r { hdrs = h ∷ r.hdrs }) b' rest vs
        (behind_line h b (pack_headers hs ++ 13 ∷ 10 ∷ rest) text') (omega arith) (omega arith) c in
    first
    ∙ (others
        ∙ ap
            (λ k. (
              record r { hdrs = insert_all hs (h ∷ r.hdrs); phase = req_body; rsize = r.clen },
              parsed k,
            ))
            same)
