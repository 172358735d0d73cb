-- ===== src/Conn/Recv/Call.antt =====
-- `cn_parse_req` and `cn_recv` of conn.c on the invariant of Conn/Recv/Sound.
use liso.Base.{
  ℕ, ◌≤◌, ◌≡◌, refl, ◌⊎◌, inl, inr, Bool, true, false, Option, none, some, List, [], ◌∷◌, arith,
  length, Bool-cases, ◌||◌, ◌&&◌, not,
}
use liso.Buffer.{Alloc, bufsz, buf_end}
use liso.Buffer.Laws.{length-write_at}
use liso.Request.{ReqPhase, req_start, req_header, req_body, req_done, req_abort, in_phase}
use liso.Conn.{Conn, Ctx, Ret, alive, ErrCb, FatCb, Net, smart_recv, nonpositive}
use liso.Conn.Recv.{
  parse_body, cn_parse_req, append_recv, take_recv, Accept, refused, again, accepted, ssl_handshake,
  recv_ignore, room, cn_recv, set_phase,
}
use liso.Conn.Recv.Lines.{NoNewline}
use liso.Conn.Recv.Sound.{
  Waits, Grown, Fits, Sound, parse_body-Sound, parse_received-Sound, append-Grown,
}

-- A receive gives no more than it is asked for: `recv` and `SSL_read` return at most their length.
abbrev pub GivesAtMost : Net → Type 0
GivesAtMost net =
    (ssl : Bool) (n : ℕ) (bytes : List ℕ) → smart_recv net ssl n ≡ some bytes → length bytes ≤ n

aborted : (c : Conn) → Fits c → c.req.phase ≡ req_abort → Sound c
aborted c f p = record { fits = f; waits = rw p tt }

module _ {W : Type 0} (err_cb : ErrCb W) (fat_cb : FatCb W)
    (err : (x : Ctx W) (k : ℕ)
      → Fits x.conn
      → Fits (err_cb x k).1.conn × ((err_cb x k).1.conn.req.phase ≡ req_abort))
    (fat : (x : Ctx W) → Sound x.conn → Sound (fat_cb x).1.conn) where
  settle :
      (x : Ctx W) (o : Conn × Option ℕ)
      → Sound o.0
      → let out : Ret × Ctx W = elim o.1 [
        | some code ↦ err_cb (record x { conn = o.0 }) code
        | none ↦ (alive, record x { conn = parse_body o.0 })
      ] in
        Sound out.1.conn
  settle x (c, none) s = parse_body-Sound c s
  settle x (c, some k) s = let e = err (record x { conn = c }) k s.fits in aborted _ e.0 e.1

  pub parse_req-Sound :
      (x : Ctx W) (a : Alloc) (last : ℕ)
      → Fits x.conn
      → Grown x.conn.req.phase x.conn.req x.conn.buf last
      → bufsz ≤ length a.bytes
      → Sound (cn_parse_req x a last err_cb).1.conn
  unfolding cn_parse_req
  parse_req-Sound x a last f g space = go x.conn.req.phase refl
    where
      early : Bool
      early = in_phase x.conn.req.phase req_start || in_phase x.conn.req.phase req_header

      header :
          (x.conn.req.phase ≡ req_start) ⊎ (x.conn.req.phase ≡ req_header)
          → (x.conn.buf.data_p ≤ last)
            × (last ≤ x.conn.buf.sz)
            × NoNewline x.conn.buf.mem x.conn.buf.data_p last
          → early ≡ true
          → Sound (cn_parse_req x a last err_cb).1.conn
      header p (lo, hi, clean) e =
          settle x _ (rw e (parse_received-Sound x.conn a last f p lo hi clean space))

      later :
          Waits x.conn.req.phase x.conn.req x.conn.buf
          → early ≡ false
          → Sound (cn_parse_req x a last err_cb).1.conn
      later w e = settle x _ (rw e (record { fits = f; waits = w }))

      go : (p : ReqPhase) → x.conn.req.phase ≡ p → Sound (cn_parse_req x a last err_cb).1.conn
      go req_start e = header (inl e) (rw e at g) (ground arith)
      go req_header e = header (inr e) (rw e at g) (ground arith)
      go req_body e = later (rw e (rw e at g)) (ground arith)
      go req_done e = later (rw e (rw e at g)) (ground arith)
      go req_abort e = later (rw e tt) (ground arith)

  ignore-Sound :
      (x : Ctx W) (net : Net)
      → Fits x.conn
      → x.conn.req.phase ≡ req_abort
      → Sound (recv_ignore x net fat_cb).1.conn
  unfolding recv_ignore
  ignore-Sound x net f p = go (smart_recv net x.conn.ssl bufsz) refl
    where
      go :
          (o : Option (List ℕ))
          → smart_recv net x.conn.ssl bufsz ≡ o
          → Sound (recv_ignore x net fat_cb).1.conn
      go none e = rw (e, recv_ignore) (fat x (aborted _ f p))
      go (some []) e = rw (e, recv_ignore) (fat x (aborted _ f p))
      go (some (c ∷ cs)) e =
          let m = f.allocated in
          rw (e, recv_ignore)
            (aborted _
              (record {
                high = f.high;
                allocated = omega (arith, length-write_at x.conn.buf.mem 0 (c ∷ cs));
                last_allocated = f.last_allocated;
                last_high = f.last_high;
              })
              p)

  take-Sound :
      (x : Ctx W) (a : Alloc) (o : Option (List ℕ))
      → Sound x.conn
      → ((bytes : List ℕ) → o ≡ some bytes → length bytes ≤ room x.conn.buf)
      → bufsz ≤ length a.bytes
      → Sound (take_recv x a o err_cb fat_cb).1.conn
  unfolding take_recv set_phase room append_recv buf_end
  take-Sound x a none s most space = fat _ (record {
    fits = record {
      high = s.fits.high;
      allocated = s.fits.allocated;
      last_allocated = s.fits.last_allocated;
      last_high = s.fits.last_high;
    };
    waits = tt;
  })
  take-Sound x a (some []) s most space = fat _ (record {
    fits = record {
      high = s.fits.high;
      allocated = s.fits.allocated;
      last_allocated = s.fits.last_allocated;
      last_high = s.fits.last_high;
    };
    waits = tt;
  })
  take-Sound x a (some (c ∷ cs)) s most space =
      let h = s.fits.high in
      let m = s.fits.allocated in
      parse_req-Sound (record x { conn = append_recv x.conn (c ∷ cs) }) a x.conn.buf.sz
        (record {
          high = omega (arith, most (c ∷ cs) refl);
          allocated = omega (arith, length-write_at x.conn.buf.mem x.conn.buf.sz (c ∷ cs));
          last_allocated = s.fits.last_allocated;
          last_high = s.fits.last_high;
        })
        (append-Grown x.conn (c ∷ cs) s) space

  handshake-Sound :
      (x : Ctx W) (o : Accept) → Sound x.conn → Sound (ssl_handshake x o fat_cb).1.conn
  unfolding ssl_handshake
  handshake-Sound x refused s = fat _ (record {
    fits = record {
      high = s.fits.high;
      allocated = s.fits.allocated;
      last_allocated = s.fits.last_allocated;
      last_high = s.fits.last_high;
    };
    waits = s.waits;
  })
  handshake-Sound x again s = s
  handshake-Sound x accepted s = record {
    fits = record {
      high = s.fits.high;
      allocated = s.fits.allocated;
      last_allocated = s.fits.last_allocated;
      last_high = s.fits.last_high;
    };
    waits = s.waits;
  }

  pub recv-Sound :
      (x : Ctx W) (net : Net) (o : Accept) (a : Alloc)
      → Sound x.conn
      → GivesAtMost net
      → bufsz ≤ length a.bytes
      → Sound (cn_recv x net o a err_cb fat_cb).1.conn
  unfolding cn_recv
  recv-Sound x net o a s most space = elim (Bool-cases (x.conn.ssl && not x.conn.ssl_accepted)) [
    | inl e ↦ rw e (handshake-Sound x o s)
    | inr e ↦ elim (Bool-cases (in_phase x.conn.req.phase req_abort)) [
      | inl p ↦ rw (e, p) (ignore-Sound x net s.fits (phase_of x.conn.req.phase p))
      | inr p ↦ elim (Bool-cases (nonpositive (room x.conn.buf))) [
        | inl q ↦ let r = err x 400 s.fits in rw (e, p, q) (ignore-Sound _ net r.0 r.1)
        | inr q ↦ rw (e, p, q) (take-Sound x a _ s (λ bytes t. most x.conn.ssl _ bytes t) space)
      ]
    ]
  ]
    where
      phase_of : (p : ReqPhase) → in_phase p req_abort ≡ true → p ≡ req_abort
      phase_of req_start h = ground arith
      phase_of req_header h = ground arith
      phase_of req_body h = ground arith
      phase_of req_done h = ground arith
      phase_of req_abort h = refl
