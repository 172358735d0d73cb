-- ===== src/Conn/Recv/Lines.antt =====
-- The header part of `cn_parse_req` of conn.c.
use liso.Base.{
  ℕ, zero, suc, ◌+◌, ◌-◌, ◌≤◌, ◌<◌, ◌≡◌, ◌≢◌, refl, ap, sym, ◌∙◌, ◌⊎◌, inl, inr, true, false, List,
  [], ◌∷◌, arith, length, Option, none, some, Bool-cases, ◌==◌, ltb, if◌then◌else◌, get_or, drop,
  dec_lt, length-set, set,
}
use liso.Buffer.{Buf, Alloc, buf_end, slice, write_at, buf_new}
use liso.Buffer.Laws.{get_or-write_at_zero, length-write_at, length-slice}
use liso.Request.{Req, req_start, req_header, req_abort}
use liso.Request.Scan.Bounds.{EndsLine, get_or-drop, get_or-take}
use liso.Request.Parse.{Rc, parsed, status, req_parse}
use liso.Request.Parse.Total.{Outcome, Code, Complete, parse-Outcome}
use liso.Conn.{Conn}
use liso.Conn.Recv.{line_end, parse_end, copy_lines, received, parse_received}

-- No newline among the bytes of [i, j).
abbrev pub NoNewline : List ℕ → ℕ → ℕ → Type 0
NoNewline m i j = (k : ℕ) → i ≤ k → k < j → get_or m k 0 ≢ 10

-- Either the scan found no newline and gives its start value, or it gives the place behind the last.
abbrev LineEnd : List ℕ → ℕ → ℕ → ℕ → Type 0
LineEnd s i q e =
    ((e ≡ q) × ((k : ℕ) → k < length s → get_or s k 0 ≢ 10))
    ⊎ ((j : ℕ) × (e ≡ i + suc j)
        × (j < length s)
        × (get_or s j 0 ≡ 10)
        × ((k : ℕ) → j < k → k < length s → get_or s k 0 ≢ 10))

line_end-LineEnd : (s : List ℕ) (i q : ℕ) → LineEnd s i q (line_end s i q)
unfolding line_end
line_end-LineEnd [] i q = inl (refl, λ k h. elim h [ ])
line_end-LineEnd (c ∷ cs) i q = elim (line_end-LineEnd cs (i + 1) (if c == 10 then i + 1 else q)) [
  | inr (j, e, lt, nl, rest) ↦ inr (suc j, omega arith, omega arith, nl, later rest)
  | inl (e, clean) ↦ elim (Bool-cases (c == 10)) [
    | inl here ↦
        let e' : line_end cs (i + 1) (if c == 10 then i + 1 else q) ≡ i + 1 = ground arith in
        inr (0, omega arith, omega arith, ground arith, later (λ k _. clean k))
    | inr other ↦
        let e' : line_end cs (i + 1) (if c == 10 then i + 1 else q) ≡ q = ground arith in
        inl (e', first (ground arith) clean)
  ]
]
  where
    later :
        {j : ℕ}
        → ((k : ℕ) → j ≤ k → k < length cs → get_or cs k 0 ≢ 10)
        → (k : ℕ) → j < k
        → k < suc (length cs)
        → get_or (c ∷ cs) k 0 ≢ 10
    later f zero lt h = absurd (omega arith)
    later f (suc k) lt h = f k (omega arith) (omega arith)

    first :
        c ≢ 10
        → ((k : ℕ) → k < length cs → get_or cs k 0 ≢ 10)
        → (k : ℕ) → k < suc (length cs)
        → get_or (c ∷ cs) k 0 ≢ 10
    first ne f zero h = ne
    first ne f (suc k) h = f k (omega arith)

-- `q` in a buffer whose bytes [data_p, last) hold no newline: either nothing received is a newline,
-- or `q` is the place behind the last one.
parse_end_lem :
    (b : Buf) (last : ℕ)
    → b.data_p ≤ last
    → last ≤ b.sz
    → b.sz ≤ length b.mem
    → NoNewline b.mem b.data_p last
    → ((parse_end b last ≤ b.data_p) × NoNewline b.mem b.data_p b.sz)
      ⊎ ((b.data_p < parse_end b last)
          × (parse_end b last ≤ b.sz)
          × (get_or b.mem (parse_end b last - 1) 0 ≡ 10)
          × NoNewline b.mem (parse_end b last) b.sz)
unfolding parse_end buf_end
parse_end_lem b last low high room clean =
    elim (line_end-LineEnd (slice b.mem last (b.sz - last)) last (b.data_p - 1)) [
      | inl (e, none_new) ↦ inl (
        omega arith,
        λ k a z. elim (dec_lt k last) [
          | yes old ↦ clean k a old
          | no new ↦ at_slice none_new k (omega arith) z
        ],
      )
      | inr (j, e, lt, nl, rest) ↦ inr (
        omega (arith, size),
        omega (arith, size),
        found j e nl (omega (arith, size)),
        λ k a z. at_slice_after j rest k (omega arith) z,
      )
    ]
  where
    size : length (slice b.mem last (b.sz - last)) ≡ b.sz - last
    size = length-slice b.mem last (b.sz - last) (omega arith)

    byte :
        (j : ℕ)
        → j < b.sz - last
        → get_or (slice b.mem last (b.sz - last)) j 0 ≡ get_or b.mem (last + j) 0
    byte j h = get_or-take (drop last b.mem) (b.sz - last) j h ∙ get_or-drop b.mem last j

    at_slice_after :
        (j : ℕ)
        → ((k : ℕ)
            → j < k
            → k < length (slice b.mem last (b.sz - last))
            → get_or (slice b.mem last (b.sz - last)) k 0 ≢ 10)
        → (k : ℕ) → last + j < k
        → k < b.sz
        → get_or b.mem k 0 ≢ 10
    at_slice_after j f k h z p =
        let i : last + (k - last) ≡ k = omega arith in
        f (k - last) (omega arith) (omega (arith, size))
          (byte (k - last) (omega arith) ∙ (ap (λ n. get_or b.mem n 0) i ∙ p))

    at_slice :
        ((k : ℕ)
          → k < length (slice b.mem last (b.sz - last))
          → get_or (slice b.mem last (b.sz - last)) k 0 ≢ 10)
        → (k : ℕ) → last ≤ k
        → k < b.sz
        → get_or b.mem k 0 ≢ 10
    at_slice f k h z p =
        let i : last + (k - last) ≡ k = omega arith in
        f (k - last) (omega (arith, size))
          (byte (k - last) (omega arith) ∙ (ap (λ n. get_or b.mem n 0) i ∙ p))

    found :
        (j : ℕ)
        → parse_end b last ≡ last + suc j
        → get_or (slice b.mem last (b.sz - last)) j 0 ≡ 10
        → j < b.sz - last
        → get_or b.mem (parse_end b last - 1) 0 ≡ 10
    found j e nl h =
        let i : parse_end b last - 1 ≡ last + j = omega arith in
        ap (λ n. get_or b.mem n 0) i ∙ (sym (byte j h) ∙ nl)

-- The local copy of the lines is a buffer that the parser can read.
copy_lines-EndsLine :
    (a : Alloc) (b : Buf) (q : ℕ)
    → b.data_p < q
    → q ≤ b.sz
    → b.sz ≤ length b.mem
    → b.sz ≤ length a.bytes
    → get_or b.mem (q - 1) 0 ≡ 10
    → EndsLine (copy_lines a b q)
      × ((copy_lines a b q).data_p ≡ 0)
      × ((copy_lines a b q).sz ≡ q - b.data_p)
unfolding copy_lines buf_new
copy_lines-EndsLine a b q lt le room space nl = (
  record { before_end = omega arith; allocated = fits; newline = last (q - b.data_p) refl },
  refl,
  refl,
)
  where
    lines : List ℕ
    lines = slice b.mem b.data_p (q - b.data_p)

    size : length lines ≡ q - b.data_p
    size = length-slice b.mem b.data_p (q - b.data_p) (omega arith)

    fits : q - b.data_p ≤ length (write_at (set a.bytes 0 0) 0 lines)
    fits = omega (arith, length-write_at (set a.bytes 0 0) 0 lines, length-set a.bytes 0 0)

    last : (n : ℕ) → n ≡ q - b.data_p → get_or (write_at (set a.bytes 0 0) 0 lines) (n - 1) 0 ≡ 10
    last n e =
        let i : b.data_p + (n - 1) ≡ q - 1 = omega arith in
        get_or-write_at_zero (set a.bytes 0 0) (n - 1) lines
          (omega (arith, size, length-set a.bytes 0 0)) (omega (arith, size))
        ∙ (get_or-take (drop b.data_p b.mem) (q - b.data_p) (n - 1) (omega arith)
            ∙ (get_or-drop b.mem b.data_p (n - 1) ∙ (ap (λ k. get_or b.mem k 0) i ∙ nl)))

-- What `cn_parse_req` makes of the header part.
abbrev pub Received : Conn → Conn × Option ℕ → Type 0
Received c (c', some code) = (c'.req.phase ≡ req_abort) × Code code
Received c (c', none) =
    (c.buf.data_p ≤ c'.buf.data_p)
    × (c'.buf.data_p ≤ c.buf.sz)
    × (c'.buf.sz ≡ c.buf.sz)
    × (c'.buf.mem ≡ c.buf.mem)
    × ((((c'.req.phase ≡ req_start) ⊎ (c'.req.phase ≡ req_header))
          × NoNewline c.buf.mem c'.buf.data_p c.buf.sz)
        ⊎ Complete c'.req)

module _ (c : Conn) (a : Alloc) (last : ℕ)
    (phase : (c.req.phase ≡ req_start) ⊎ (c.req.phase ≡ req_header)) (low : c.buf.data_p ≤ last)
    (high : last ≤ c.buf.sz) (room : c.buf.sz ≤ length c.buf.mem)
    (space : c.buf.sz ≤ length a.bytes) (clean : NoNewline c.buf.mem c.buf.data_p last) where
  parsed-Received :
      (out : Req × Rc) (q : ℕ)
      → q ≤ c.buf.sz
      → c.buf.data_p < q
      → NoNewline c.buf.mem q c.buf.sz
      → (b : Buf) → (b.data_p ≡ 0)
      → (b.sz ≡ q - c.buf.data_p)
      → Outcome b out
      → Received c (received c c.buf.data_p q out)
  unfolding received
  parsed-Received (r, status code) q le lt rest b z s o = o
  parsed-Received (r, parsed n) q le lt rest b z s (_, within, inr done) =
      (omega arith, omega arith, refl, refl, inr done)
  parsed-Received (r, parsed n) q le lt rest b z s (_, within, inl (header, all)) =
      (omega arith, omega arith, refl, refl, inl (inr header, λ k i. rest k (omega arith)))

  -- The header part with the flag `overrun` left aside.
  pub received_lem : Received c (parse_received c a last)
  unfolding parse_received
  received_lem = elim (parse_end_lem c.buf last low high room clean) [
    | inl (stay, none_left) ↦
        let no : ltb c.buf.data_p (parse_end c.buf last) ≡ false = ground arith in
        rw no (omega arith, omega arith, refl, refl, inl (phase, none_left))
    | inr (lt, le, nl, rest) ↦
        let yes' : ltb c.buf.data_p (parse_end c.buf last) ≡ true = ground arith in
        let q = parse_end c.buf last in
        let lines = copy_lines-EndsLine a c.buf q lt le room space nl in
        rw yes' (
          parsed-Received (req_parse c.req (copy_lines a c.buf q)) q le lt rest
            (copy_lines a c.buf q) lines.1 lines.2
            (parse-Outcome c.req (copy_lines a c.buf q) phase lines.0))
  ]

  -- On a connection in the phase START or HEADER whose content fits into its buffer and into the local
  -- one, and whose unparsed bytes were without a newline up to the bytes just received, if no host name in the
  -- lines is longer than its array, that is, if nothing was written behind `host`: the
  -- header part either fails with one of the three codes and the request aborted; or it leaves the
  -- buffer as it was, with `data_p` moved within it, and either the header is complete, or it is not
  -- and the bytes that are left unparsed are again without a newline.
  pub parse_received-Received :
      (parse_received c a last).0.req.overrun ≡ false → Received c (parse_received c a last)
  parse_received-Received inside = received_lem
