-- ===== src/Conn/Recv/Sound.antt =====
-- The invariant of a connection between two calls of `cn_recv` of conn.c, and its parts.
use liso.Base.{
  ℕ, zero, suc, ◌+◌, ◌-◌, ◌≤◌, ◌<◌, ◌≡◌, refl, sym, ◌∙◌, ◌⊎◌, inl, inr, false, Option, none, some,
  List, [], ◌∷◌, arith, length, get_or, is_neg, ℤ, pos, negsuc, min,
}
use liso.Buffer.{Buf, Alloc, bufsz, write_at, buf_end, buf_reset}
use liso.Buffer.Laws.{length-write_at}
use liso.Request.{
  Req, ReqPhase, ReqType, req_static, req_dynamic, req_start, req_header, req_body, req_done,
  req_abort, in_phase,
}
use liso.Request.Parse.Frame.{req_parse-last_buf}
use liso.Conn.{Conn}
use liso.Conn.Recv.{
  received, parse_received, parse_body, choose_server, count_body, split_body, keep_rest,
  append_recv, copy_lines, parse_end,
}
use liso.Conn.Recv.Lines.{NoNewline, Received, received_lem}
use liso.Conn.Recv.Body.{BodySplit, BufferAfter, parse_body-BodySplit}

-- What a phase says of the buffer and of the body: before the end of the header the bytes that are
-- not parsed have no newline; in the body the bytes that are missing are not negative.
abbrev pub Waits : ReqPhase → Req → Buf → Type 0
Waits req_start r b = (b.data_p ≤ b.sz) × NoNewline b.mem b.data_p b.sz
Waits req_header r b = (b.data_p ≤ b.sz) × NoNewline b.mem b.data_p b.sz
Waits req_body r b = (b.data_p ≤ b.sz) × (is_neg r.rsize ≡ false)
Waits req_done r b = b.data_p ≤ b.sz
Waits req_abort r b = Unit

-- The same with bytes from `last` on that no one has looked at.
abbrev pub Grown : ReqPhase → Req → Buf → ℕ → Type 0
Grown req_start r b last = (b.data_p ≤ last) × (last ≤ b.sz) × NoNewline b.mem b.data_p last
Grown req_header r b last = (b.data_p ≤ last) × (last ≤ b.sz) × NoNewline b.mem b.data_p last
Grown req_body r b last = (b.data_p ≤ b.sz) × (is_neg r.rsize ≡ false)
Grown req_done r b last = b.data_p ≤ b.sz
Grown req_abort r b last = Unit

-- The content of both buffers lies in their allocations.
pub record Fits (c : Conn) : Type 0 where
  pub high : c.buf.sz ≤ bufsz
  pub allocated : bufsz ≤ length c.buf.mem
  pub last_allocated : bufsz ≤ length c.req.last_buf.mem
  pub last_high : c.req.last_buf.sz ≤ bufsz

-- What is left of `Fits` when the buffer's size is anything.
pub record RoomsOf (mem : List ℕ) (last_buf : Buf) : Type 0 where
  pub allocated : bufsz ≤ length mem
  pub last_allocated : bufsz ≤ length last_buf.mem
  pub last_high : last_buf.sz ≤ bufsz

abbrev pub Rooms : Conn → Type 0
Rooms c = RoomsOf c.buf.mem c.req.last_buf

pub record Sound (c : Conn) : Type 0 where
  pub fits : Fits c
  pub waits : Waits c.req.phase c.req c.buf

get_or-write_at_before :
    (m : List ℕ) (i k : ℕ) (xs : List ℕ) → k < i → get_or (write_at m i xs) k 0 ≡ get_or m k 0
unfolding write_at
get_or-write_at_before [] i k xs h = refl
get_or-write_at_before (x ∷ m) (suc i) zero xs h = refl
get_or-write_at_before (x ∷ m) (suc i) (suc k) xs h = get_or-write_at_before m i k xs (omega arith)
get_or-write_at_before (x ∷ m) zero k xs h = elim h [ ]

-- The lengths of the two allocations never change.
abbrev SameRoom : Conn → Conn → Type 0
SameRoom c d =
    (length d.buf.mem ≡ length c.buf.mem) × (length d.req.last_buf.mem ≡ length c.req.last_buf.mem)

parse_received-SameRoom : (c : Conn) (a : Alloc) (last : ℕ) → SameRoom c (parse_received c a last).0
unfolding parse_received received
parse_received-SameRoom c a last =
    let same = req_parse-last_buf c.req (copy_lines a c.buf (parse_end c.buf last)) in ground arith

parse_body-SameRoom : (c : Conn) → SameRoom c (parse_body c)
unfolding parse_body choose_server count_body split_body keep_rest buf_reset
parse_body-SameRoom c = grind (arith, length-write_at)

parse_received-sz :
    (c : Conn) (a : Alloc) (last : ℕ)
    → ((parse_received c a last).0.buf.sz ≡ c.buf.sz)
      × ((parse_received c a last).0.req.last_buf ≡ c.req.last_buf)
unfolding parse_received received
parse_received-sz c a last =
    let same = req_parse-last_buf c.req (copy_lines a c.buf (parse_end c.buf last)) in ground arith

Fits-same :
    (c d : Conn) → Fits c → SameRoom c d → d.buf.sz ≤ bufsz → d.req.last_buf.sz ≤ bufsz → Fits d
Fits-same c d f (m, l) h k =
    let a = f.allocated in
    let b = f.last_allocated in
    record { high = h; allocated = omega arith; last_allocated = omega arith; last_high = k }

-- The body part.
body-Sound :
    (c : Conn)
    → Fits c
    → c.req.phase ≡ req_body
    → c.buf.data_p ≤ c.buf.sz
    → is_neg c.req.rsize ≡ false
    → Sound (parse_body c)
body-Sound c f p low nonneg = go c.req.rsize refl
  where
    n : ℕ
    n = c.buf.sz - c.buf.data_p

    within :
        (t : ReqType) (r : ℕ)
        → BufferAfter t c.buf (parse_body c).buf (c.buf.data_p + min r n)
        → ((parse_body c).buf.data_p ≤ (parse_body c).buf.sz) × ((parse_body c).buf.sz ≤ bufsz)
    within req_static r (d, s) = omega arith
    within req_dynamic r (m, d, s) = let h = f.high in omega arith

    waiting :
        (r : ℕ)
        → BodySplit c (parse_body c) r n
        → (parse_body c).buf.data_p ≤ (parse_body c).buf.sz
        → Waits (parse_body c).req.phase (parse_body c).req (parse_body c).buf
    waiting r s le = elim s.phase [ inl (_, e, z) ↦ rw (e, z) (le, refl) | inr (_, e) ↦ rw e le ]

    keeps : (r : ℕ) → BodySplit c (parse_body c) r n → (parse_body c).req.last_buf.sz ≤ bufsz
    keeps r s =
        let h = f.high in
        let k = f.last_high in
        elim s.rest [ inl (_, e) ↦ rw e k | inr (_, kept) ↦ let z = kept.0 in omega arith ]

    go : (z : ℤ) → c.req.rsize ≡ z → Sound (parse_body c)
    go (negsuc k) e = absurd (ground arith)
    go (pos r) e =
        let h = f.high in
        let room = f.allocated in
        let space = f.last_allocated in
        let s = parse_body-BodySplit c r p e low (omega arith) (omega arith) in
        let w = within c.req.type_ r s.buffer in
        record {
          fits = Fits-same c (parse_body c) f (parse_body-SameRoom c) w.1 (keeps r s);
          waits = waiting r s w.0;
        }

-- Outside the phase BODY nothing happens.
parse_body-other : (c : Conn) → in_phase c.req.phase req_body ≡ false → parse_body c ≡ c
unfolding parse_body
parse_body-other c e = rw e refl

-- The body part, in every phase.
pub parse_body-Sound : (c : Conn) → Sound c → Sound (parse_body c)
parse_body-Sound c s = go c.req.phase refl
  where
    go : (p : ReqPhase) → c.req.phase ≡ p → Sound (parse_body c)
    go req_body e =
        let w : Waits req_body c.req c.buf = rw e at s.waits in body-Sound c s.fits e w.0 w.1
    go req_start e = rw (parse_body-other c (ground arith)) s
    go req_header e = rw (parse_body-other c (ground arith)) s
    go req_done e = rw (parse_body-other c (ground arith)) s
    go req_abort e = rw (parse_body-other c (ground arith)) s

-- After the header part, whatever phase it leads to.
after-Received : (c : Conn) (o : Conn × Option ℕ) → Fits o.0 → Received c o → Sound o.0
after-Received c (d, some k) f (p, code) = record { fits = f; waits = rw p tt }
after-Received c (d, none) f (lo, hi, s, m, inl (inl p, clean)) = record {
  fits = f;
  waits = rw (p, m, s) (omega arith, clean);
}
after-Received c (d, none) f (lo, hi, s, m, inl (inr p, clean)) = record {
  fits = f;
  waits = rw (p, m, s) (omega arith, clean);
}
after-Received c (d, none) f (lo, hi, s, m, inr (p, nn, e)) = record {
  fits = f;
  waits = rw (p, e) (omega arith, nn);
}

pub parse_received-Sound :
    (c : Conn) (a : Alloc) (last : ℕ)
    → Fits c
    → (c.req.phase ≡ req_start) ⊎ (c.req.phase ≡ req_header)
    → c.buf.data_p ≤ last
    → last ≤ c.buf.sz
    → NoNewline c.buf.mem c.buf.data_p last
    → bufsz ≤ length a.bytes
    → Sound (parse_received c a last).0
parse_received-Sound c a last f phase low high clean space =
    let h = f.high in
    let m = f.allocated in
    let k = f.last_high in
    after-Received c (parse_received c a last)
      (Fits-same c _ f (parse_received-SameRoom c a last) (rw (parse_received-sz c a last).0 h)
        (rw (parse_received-sz c a last).1 k))
      (received_lem c a last phase low high (omega arith) (omega arith) clean)

-- Bytes put behind the content.
pub append-Grown :
    (c : Conn) (bytes : List ℕ)
    → Sound c
    → Grown c.req.phase c.req (append_recv c bytes).buf c.buf.sz
unfolding append_recv buf_end
append-Grown c bytes s = go c.req.phase s.waits
  where
    keep :
        NoNewline c.buf.mem c.buf.data_p c.buf.sz
        → NoNewline (append_recv c bytes).buf.mem c.buf.data_p c.buf.sz
    keep clean k lo hi e =
        clean k lo hi (sym (get_or-write_at_before c.buf.mem c.buf.sz k bytes hi) ∙ e)

    go : (p : ReqPhase) → Waits p c.req c.buf → Grown p c.req (append_recv c bytes).buf c.buf.sz
    go req_start (le, clean) = (le, omega arith, keep clean)
    go req_header (le, clean) = (le, omega arith, keep clean)
    go req_body (le, nonneg) = (omega arith, nonneg)
    go req_done le = omega arith
    go req_abort w = tt
