-- ===== src/Request/Parse/Total.antt =====
-- The outcomes of `req_parse` of request.c.
use liso.Base.{
  ℕ, zero, suc, ◌+◌, ◌-◌, ◌≤◌, ◌<◌, ◌≡◌, refl, ◌⊎◌, inl, inr, Bool, true, false, not, ◌||◌, arith,
  length, Bool-cases, ◌==◌, ltb, is_neg, if◌then◌else◌,
}
use liso.CString.{Str}
use liso.Buffer.{Buf, buf_end, peek, slice}
use liso.Request.{
  Req, Method, m_get, m_head, m_post, m_other, req_start, req_header, req_body, req_abort, set_host,
}
use liso.Base.{get_or, ◌∙◌, min, drop}
use liso.Utils.{strncpy0}
use liso.Request.Scan.{run_length, proceed_inline, proceed_line}
use liso.Request.Scan.Bounds.{
  EndsLine, Ahead, Ahead-trans, proceed_inline-Ahead, proceed_line-Ahead,
}
use liso.Request.Parse.{
  Rc, parsed, status, Step, go, done, fail, abort_with, read_method, parse_target, parse_method,
  parse_start, finish_header, take_header, parse_field, parse_line, after_round, parse_lines,
  parse_header, req_parse,
}

abbrev pub Code : ℕ → Type 0
Code k = (k ≡ 400) ⊎ (k ≡ 411) ⊎ (k ≡ 501)

-- The header is complete: the length of the body is known and not negative.
abbrev pub Complete : Req → Type 0
Complete r = (r.phase ≡ req_body) × (is_neg r.clen ≡ false) × (r.rsize ≡ r.clen)

abbrev StepOutcome : Buf → Step → Type 0
StepOutcome b (go r' b') =
    (r'.phase ≡ req_header)
    × (b'.mem ≡ b.mem)
    × (b'.sz ≡ b.sz)
    × (b.data_p < b'.data_p)
    × (b'.data_p ≤ b.sz)
StepOutcome b (done r' b') = Complete r' × (b.data_p < b'.data_p) × (b'.data_p ≤ b.sz)
StepOutcome b (fail r' k) = (r'.phase ≡ req_abort) × Code k

-- What `req_parse` promises of a buffer from `data_p` on: it stops within the content; in the phase
-- HEADER it has read all of it, in the phase BODY the header is complete, and a failure is one of
-- three status codes, in the phase ABORT.
abbrev pub Outcome : Buf → Req × Rc → Type 0
Outcome b (r, parsed n) =
    (b.data_p ≤ n) × (n ≤ b.sz) × (((r.phase ≡ req_header) × (n ≡ b.sz)) ⊎ Complete r)
Outcome b (r, status k) = (r.phase ≡ req_abort) × Code k

take_header-Outcome :
    (r : Req) (b : Buf) (key val : Str)
    → r.phase ≡ req_header
    → b.data_p < b.sz
    → StepOutcome b (take_header r (record b { data_p = b.data_p + 1 }) key val)
unfolding take_header abort_with set_host
take_header-Outcome r b key val h lt = ground arith

finish_header-Outcome : (r : Req) (b : Buf) → b.data_p < b.sz → StepOutcome b (finish_header r b)
unfolding finish_header abort_with
finish_header-Outcome r b lt = ground arith

parse_field-Outcome :
    (r : Req) (b : Buf) (p : ℕ)
    → r.phase ≡ req_header
    → b.data_p < b.sz
    → StepOutcome b (parse_field r b p)
unfolding parse_field abort_with
parse_field-Outcome r b p h lt =
    let q = p + run_length (λ c. not (c == b':')) (slice b.mem p (b.data_p - p)) in
    elim (Bool-cases (q == p || not (peek b q == b':'))) [
      | inl bad ↦ rw bad (refl, inl refl)
      | inr ok ↦ rw ok (take_header-Outcome r b _ _ h lt)
    ]

-- What holds behind a macro holds in front of it.
StepOutcome-Ahead : (b b' : Buf) (s : Step) → Ahead b b' → StepOutcome b' s → StepOutcome b s
StepOutcome-Ahead b b' (go r c) a (h, m, z, lt, le) =
    let moved = a.moved in let same = a.sz in (h, m ∙ a.mem, z ∙ a.sz, omega arith, omega arith)
StepOutcome-Ahead b b' (done r c) a (h, lt, le) =
    let moved = a.moved in let same = a.sz in (h, omega arith, omega arith)
StepOutcome-Ahead b b' (fail r k) a h = h

parse_line-Outcome :
    (r : Req) (b : Buf) → r.phase ≡ req_header → EndsLine b → StepOutcome b (parse_line r b)
unfolding parse_line
parse_line-Outcome r b h v =
    let b' = (proceed_line b).1 in
    let p = (proceed_line b).0 in
    let a = proceed_line-Ahead b v in
    let e = a.ends in
    let lt = e.before_end in
    StepOutcome-Ahead b b' _ a
      (ground (arith, finish_header-Outcome r b' lt, parse_field-Outcome r b' p h lt))

-- The content ends with a newline, wherever `data_p` is.
abbrev HasLines : Buf → Type 0
HasLines b = (b.sz ≤ length b.mem) × (get_or b.mem (b.sz - 1) 0 ≡ 10)

HasLines-EndsLine : (b : Buf) → HasLines b → b.data_p < b.sz → EndsLine b
HasLines-EndsLine b (a, n) lt = record { before_end = lt; allocated = a; newline = n }

-- A step, and what the rest of the parser makes of it.
after_round-Outcome :
    (rest : Req → Buf → Req × Rc) (b : Buf) (s : Step)
    → HasLines b
    → StepOutcome b s
    → ((r' : Req) (b' : Buf)
        → r'.phase ≡ req_header
        → HasLines b'
        → b'.sz ≡ b.sz
        → b.data_p < b'.data_p
        → b'.data_p ≤ b'.sz
        → Outcome b' (rest r' b'))
    → Outcome b (after_round rest s)
unfolding after_round
after_round-Outcome rest b (go r' b') v (h, m, z, lt, le) next =
    widen (rest r' b') (next r' b' h (rw (m, z) v) z lt (omega arith))
  where
    widen : (out : Req × Rc) → Outcome b' out → Outcome b out
    widen (r, parsed k) o = ground arith
    widen (r, status k) o = o
after_round-Outcome rest b (done r' b') v (c, lt, le) next = (omega arith, le, inr c)
after_round-Outcome rest b (fail r' k) v o next = o

parse_lines-Outcome :
    (n : ℕ) (r : Req) (b : Buf)
    → r.phase ≡ req_header
    → HasLines b
    → b.data_p ≤ b.sz
    → b.sz ≤ n + b.data_p
    → Outcome b (parse_lines n r b)
unfolding parse_lines buf_end
parse_lines-Outcome zero r b h v le enough = (omega arith, le, inl (h, omega arith))
parse_lines-Outcome (suc n) r b h v le enough = elim (Bool-cases (ltb b.data_p b.sz)) [
  | inl lt ↦ rw lt (
      after_round-Outcome (parse_lines n) b (parse_line r b) v
        (parse_line-Outcome r b h (HasLines-EndsLine b v (ground arith)))
        (λ r' b' h' v' z moved le'. parse_lines-Outcome n r' b' h' v' le' (omega arith)))
  | inr ge ↦ rw ge (omega arith, le, inl (h, ground arith))
]

parse_target-Outcome : (r : Req) (b : Buf) → EndsLine b → StepOutcome b (parse_target r b)
unfolding parse_target abort_with
parse_target-Outcome r b v =
    let a1 = proceed_inline-Ahead b v in
    let a2 = Ahead-trans a1 (proceed_inline-Ahead _ a1.ends) in
    let a3 = Ahead-trans a2 (proceed_inline-Ahead _ a2.ends) in
    let e = a3.ends in
    let lt = e.before_end in
    let moved = a3.moved in
    let same = a3.sz in let kept = a3.mem in ground (arith, kept, same, moved, lt)

parse_start-Outcome : (r : Req) (b : Buf) → EndsLine b → StepOutcome b (parse_start r b)
unfolding parse_start parse_method abort_with
parse_start-Outcome r b v =
    let a = proceed_inline-Ahead b v in
    let b' = (proceed_inline b).1 in
    let p = (proceed_inline b).0 in
    let word = strncpy0 (drop p b'.mem) (min 8 (b'.data_p - p)) in
    StepOutcome-Ahead b b' _ a (choose (length word == 0) (read_method word b' p) b' a.ends)
  where
    choose :
        (none? : Bool) (m : Method) (c : Buf)
        → EndsLine c
        → StepOutcome c (if none? then abort_with r 400 else parse_method r c m)
    choose true m c e = (refl, inl refl)
    choose false m_get c e = parse_target-Outcome _ c e
    choose false m_head c e = parse_target-Outcome _ c e
    choose false m_post c e = parse_target-Outcome _ c e
    choose false m_other c e = (refl, inr (inr refl))

parse_header-Outcome :
    (r : Req) (b : Buf)
    → r.phase ≡ req_header
    → HasLines b
    → b.data_p ≤ b.sz
    → Outcome b (parse_header r b)
unfolding parse_header buf_end
parse_header-Outcome r b h v le =
    ground (arith, h, parse_lines-Outcome (b.sz - b.data_p) r b h v le)

-- The parser with the flag `overrun` left aside: where a copy went past `host`, the state that it gives is not
-- that of the program.
pub parse-Outcome :
    (r : Req) (b : Buf)
    → (r.phase ≡ req_start) ⊎ (r.phase ≡ req_header)
    → EndsLine b
    → Outcome b (req_parse r b)
unfolding req_parse
parse-Outcome r b (inl start) v =
    let first =
      after_round-Outcome parse_header b (parse_start r b) (v.allocated, v.newline)
        (parse_start-Outcome r b v) (λ r' b' h' v' _ _ le'. parse_header-Outcome r' b' h' v' le') in
    ground (arith, start, first)
parse-Outcome r b (inr header) v =
    let lt = v.before_end in
    let rest = parse_header-Outcome r b header (v.allocated, v.newline) (omega arith) in
    ground (arith, header, rest)

-- On lines from a buffer that ends with a newline, in the phases START and HEADER, if no host name in them is longer
-- than its array, that is, if nothing was written behind `host`: `req_parse` stops within the content. Either it
-- has read all of it and waits for more of the header, or the header is complete, with a body length that
-- is not negative, or the request is aborted with the status 400, 411 or 501.
pub req_parse-Outcome :
    (r : Req) (b : Buf)
    → (r.phase ≡ req_start) ⊎ (r.phase ≡ req_header)
    → EndsLine b
    → (req_parse r b).0.overrun ≡ false
    → Outcome b (req_parse r b)
req_parse-Outcome r b phase v inside = parse-Outcome r b phase v
