-- ===== src/Request/Headers/Packed.antt =====
-- The header that `req_pack` writes, with its Host and Content-Length lines, before `parse_header` of request.c.
use liso.Base.{
  take_le, ℕ, zero, suc, ◌+◌, ◌-◌, ◌^◌, ◌≤◌, ◌<◌, ◌≡◌, refl, ap, ◌∙◌, true, ◌||◌, List, [], ◌∷◌,
  ◌++◌, arith, length, drop, length-append, ltb, codes, pos,
}
use mathlib.Core.List.{append_assoc}
use liso.CString.{Str, is_digit, is_space, strcaseeq, lower}
use liso.CString.Decimal.{print_int}
use liso.Buffer.{Buf, buf_end}
use liso.Header.{Hdr}
use liso.Request.{Req, req_header, req_body, set_host, req_hostsz, in_phase}
use liso.Request.Pack.{crlf, pack_headers}
use liso.Request.Parse.{parsed, take_header, after_round, parse_lines, parse_header}
use liso.Request.Headers.{Passes, IsTrimmed}
use liso.Request.Headers.Line.{not_nul, not_newline, IsField, line}
use liso.Request.Headers.Digits.{
  atoi-print_int, Passes_imp, print_int-Passes, print_int-IsTrimmed, print_int_le, isnum-print_int,
}
use liso.Request.Headers.RoundTrip.{
  ArePlain, insert_all, round-IsField, behind_line, parse_lines-pack_headers,
}

-- A host that fits.
pub record IsHost (host : Str) : Type 0 where
  pub trimmed : IsTrimmed host
  pub text : Passes not_nul host × Passes not_newline host
  pub fits : length host ≤ req_hostsz

abbrev host_field : Str → Hdr
host_field host = record { key = codes "Host"; val = host }

abbrev length_field : ℕ → Hdr
length_field n = record { key = codes "Content-Length"; val = print_int (pos n) }

host-IsField : (host : Str) → IsHost host → IsField (host_field host)
unfolding is_space
host-IsField host v = record {
  key_trimmed = record { some_bytes = omega arith; first = refl; last = refl };
  key_text = (ground arith, ground arith, ground arith);
  key_fits = omega arith;
  val_trimmed = v.trimmed;
  val_text = v.text;
  val_fits = let f = v.fits in omega arith;
}

digit_not_nul : (c : ℕ) → is_digit c ≡ true → not_nul c ≡ true
unfolding is_digit
digit_not_nul c h = ground arith

digit_not_newline : (c : ℕ) → is_digit c ≡ true → not_newline c ≡ true
unfolding is_digit
digit_not_newline c h = ground arith

length-IsField : (n : ℕ) → n < 2 ^ 31 → IsField (length_field n)
unfolding is_space
length-IsField n h = record {
  key_trimmed = record { some_bytes = omega arith; first = refl; last = refl };
  key_text = (ground arith, ground arith, ground arith);
  key_fits = omega arith;
  val_trimmed = print_int-IsTrimmed n;
  val_text = (
    Passes_imp is_digit not_nul (print_int (pos n)) digit_not_nul (print_int-Passes n),
    Passes_imp is_digit not_newline (print_int (pos n)) digit_not_newline (print_int-Passes n),
  );
  val_fits = omega (arith, print_int_le n h);
}

-- The host that is read fits.
set_host-IsHost : (r : Req) (host : Str) → IsHost host → set_host r host ≡ record r { host = host }
unfolding set_host
set_host-IsHost r host v =
    let f = v.fits in
    let kept : (r.overrun || ltb req_hostsz (length host)) ≡ r.overrun = ground arith in
    rw (take_le req_hostsz host f, kept) refl

-- From "Host: " to the empty line.
abbrev pub header_text : Str → ℕ → List Hdr → Str
header_text host n hs =
    codes "Host: "
    ++ (host
        ++ (crlf
            ++ (codes "Content-Length: "
                ++ (print_int (pos n) ++ (crlf ++ (pack_headers hs ++ crlf))))))

header-lines :
    (host : Str) (n : ℕ) (hs : List Hdr) (rest : Str)
    → header_text host n hs ++ rest
      ≡ line (host_field host)
        ++ 10 ∷ (line (length_field n) ++ 10 ∷ (pack_headers hs ++ 13 ∷ 10 ∷ rest))
header-lines host n hs rest = simp append_assoc

length-header :
    (host : Str) (n : ℕ) (hs : List Hdr)
    → length (header_text host n hs)
      ≡ length (line (host_field host))
        + 1
        + (length (line (length_field n)) + 1 + (length (pack_headers hs) + 2))
length-header host n hs = omega (
  arith,
  ap length (header-lines host n hs []),
  length-append (header_text host n hs) [],
  length-append (line (host_field host))
      (10 ∷ (line (length_field n) ++ 10 ∷ (pack_headers hs ++ 13 ∷ 10 ∷ []))),
  length-append (line (length_field n)) (10 ∷ (pack_headers hs ++ 13 ∷ 10 ∷ [])),
  length-append (pack_headers hs) (13 ∷ 10 ∷ []),
)

-- The request with what the header says.
abbrev pub with_header : Req → Str → ℕ → List Hdr → Req
with_header r host n hs = record r {
  host = host;
  clen = pos n;
  hdrs = insert_all hs r.hdrs;
  rsize = pos n;
  phase = req_body;
}

module _ (host : Str) (n : ℕ) (hs : List Hdr) (h : IsHost host) (small : n < 2 ^ 31)
    (plain : ArePlain hs) where
  host_round :
      (b : Buf) (rest : Str) (m : ℕ) (r : Req)
      → drop b.data_p b.mem ≡ line (host_field host) ++ 10 ∷ rest
      → b.data_p + length (line (host_field host)) < b.sz
      → parse_lines (suc m) r b
        ≡ parse_lines m
            (record r { host = host })
            (record b { data_p = b.data_p + length (line (host_field host)) + 1 })
  unfolding after_round take_header strcaseeq lower
  host_round b rest m r text inside =
      round-IsField (host_field host) b rest m r (host-IsField host h) text inside
      ∙ rw (set_host-IsHost r host h) refl

  length_round :
      (b : Buf) (rest : Str) (m : ℕ) (r : Req)
      → drop b.data_p b.mem ≡ line (length_field n) ++ 10 ∷ rest
      → b.data_p + length (line (length_field n)) < b.sz
      → parse_lines (suc m) r b
        ≡ parse_lines m
            (record r { clen = pos n })
            (record b { data_p = b.data_p + length (line (length_field n)) + 1 })
  unfolding after_round take_header strcaseeq lower
  length_round b rest m r text inside =
      round-IsField (length_field n) b rest m r (length-IsField n small) text inside
      ∙ rw (isnum-print_int n, atoi-print_int n small) refl

  lines :
      (m : ℕ) (r : Req) (b : Buf) (rest : Str)
      → drop b.data_p b.mem ≡ header_text host n hs ++ rest
      → b.data_p + length (header_text host n hs) ≤ b.sz
      → length (header_text host n hs) ≤ m
      → parse_lines m r b
        ≡ (with_header r host n hs, parsed (b.data_p + length (header_text host n hs)))
  lines zero r b rest text inside fuel = absurd (omega (arith, length-header host n hs))
  lines (suc zero) r b rest text inside fuel = absurd (omega (arith, length-header host n hs))
  lines (suc (suc m)) r b rest text inside fuel =
      let size = length-header host n hs in
      let behind = pack_headers hs ++ 13 ∷ 10 ∷ rest in
      let b1 = record b { data_p = b.data_p + length (line (host_field host)) + 1 } in
      let b2 = record b1 { data_p = b1.data_p + length (line (length_field n)) + 1 } in
      let text0 = text ∙ header-lines host n hs rest in
      let text1 = behind_line (host_field host) b (line (length_field n) ++ 10 ∷ behind) text0 in
      let text2 = behind_line (length_field n) b1 behind text1 in
      let same : b2.data_p + length (pack_headers hs) + 2
          ≡ b.data_p + length (header_text host n hs) =
        omega arith in
      host_round b _ (suc m) r text0 (omega arith)
      ∙ (length_round b1 _ m (record r { host = host }) text1 (omega arith)
          ∙ (parse_lines-pack_headers hs m (record r { host = host; clen = pos n }) b2 rest plain
                text2 (omega arith) (omega arith) refl
              ∙ ap (λ k. (with_header r host n hs, parsed k)) same))

  pub parse_header-lem :
      (r : Req) (b : Buf) (rest : Str)
      → r.phase ≡ req_header
      → drop b.data_p b.mem ≡ header_text host n hs ++ rest
      → b.data_p + length (header_text host n hs) ≤ b.sz
      → parse_header r b
        ≡ (with_header r host n hs, parsed (b.data_p + length (header_text host n hs)))
  unfolding parse_header buf_end
  parse_header-lem r b rest phase text inside =
      let at : in_phase r.phase req_header ≡ true = rw phase refl in
      rw at (lines (b.sz - b.data_p) r b rest text inside (omega arith))
