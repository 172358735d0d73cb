-- ===== src/Conn/Dynamic/Pipe.antt =====
-- What the CGI gets of a body, and the client of the CGI's output.
use liso.Base.{
  ◌∙◌, Option-cases, length-append, ℕ, zero, suc, ◌+◌, ◌-◌, ◌^◌, ◌≤◌, ◌<◌, ◌≡◌, refl, ◌∙◌, inl, inr,
  true, List, ◌++◌, arith, length, Option, some, take_le, take,
}
use mathlib.Core.List.{append-nil, append_assoc}
use liso.Buffer.{Buf, buf_rsize, buf_reset, slice}
use liso.Buffer.Laws.{length-slice}
use liso.Conn.{Ctx, alive, SuccCb, ErrCb, FatCb, Net, smart_send}
use liso.Cgi.{buf_recv}
use liso.Conn.Static.{send_some}
use liso.Conn.Dynamic.{write_all, cn_stream_to_cgi, cn_serve_dynamic, set_cgi}

-- The content of a buffer from `data_p` on lies in its allocation.
pub record Content (b : Buf) (n : ℕ) : Type 0 where
  pub size : b.data_p + n ≡ b.sz
  pub allocated : b.sz ≤ length b.mem
  pub small : b.sz < 2 ^ 63

-- If the writes take no more than they are given and none fails, then with at least `rsize` rounds for
-- `rsize` bytes the loop gives exactly as many bytes as it was asked for.
pub write_all-length :
    (write : ℕ → List ℕ → Option ℕ) (b : Buf) (fuel i rsize : ℕ)
    → ((j : ℕ) (bytes : List ℕ) (n : ℕ) → write j bytes ≡ some n → n ≤ length bytes)
    → b.data_p + rsize ≤ length b.mem
    → rsize ≤ fuel
    → (write_all write b fuel i rsize).0 ≡ true
    → length (write_all write b fuel i rsize).1 ≡ rsize
unfolding write_all
write_all-length write b zero i rsize most room enough ok = omega arith
write_all-length write b (suc fuel) i zero most room enough ok = refl
write_all-length write b (suc fuel) i (suc r) most room enough ok =
    elim (Option-cases (write i (slice b.mem b.data_p (suc r)))) [
      | inl e ↦ ground arith
      | inr (zero, e) ↦ ground arith
      | inr (suc n, e) ↦
          let size = length-slice b.mem b.data_p (suc r) room in
          let le : suc n ≤ suc r = omega (arith, most i (slice b.mem b.data_p (suc r)) (suc n) e) in
          let more =
            write_all-length write b fuel (i + 1) (suc r - suc n) most (omega arith)
              (omega arith) in
          ground (
            arith,
            e,
            more,
            length-slice b.mem b.data_p (suc n) (omega arith),
            length-append (slice b.mem b.data_p (suc n))
                (write_all write b fuel (i + 1) (suc r - suc n)).1,
          )
    ]

-- A write that takes everything ends the loop.
write_all-whole :
    (write : ℕ → List ℕ → Option ℕ) (b : Buf) (fuel i n : ℕ)
    → write i (slice b.mem b.data_p (suc n)) ≡ some (suc n)
    → write_all write b (suc fuel) i (suc n) ≡ (true, slice b.mem b.data_p (suc n))
unfolding write_all
write_all-whole write b zero i n e = ground (arith, append-nil (slice b.mem b.data_p (suc n)))
write_all-whole write b (suc fuel) i n e = ground (arith, append-nil (slice b.mem b.data_p (suc n)))

write_all-step :
    (write : ℕ → List ℕ → Option ℕ) (b : Buf) (fuel i r n : ℕ)
    → write i (slice b.mem b.data_p (suc r)) ≡ some (suc n)
    → let (ok, more) = write_all write b fuel (i + 1) (suc r - suc n) in
      write_all write b (suc fuel) i (suc r) ≡ (ok, slice b.mem b.data_p (suc n) ++ more)
unfolding write_all
write_all-step write b zero i r n e = ground arith
write_all-step write b (suc fuel) i r n e = ground arith

-- Two rounds: the second starts at `data_p` again.
write_all-short :
    (write : ℕ → List ℕ → Option ℕ) (b : Buf) (k m : ℕ)
    → write 0 (slice b.mem b.data_p (suc (suc (k + m)))) ≡ some (suc k)
    → write 1 (slice b.mem b.data_p (suc m)) ≡ some (suc m)
    → write_all write b (suc (suc (k + m))) 0 (suc (suc (k + m)))
      ≡ (true, slice b.mem b.data_p (suc k) ++ slice b.mem b.data_p (suc m))
write_all-short write b k m e e' =
    let rest : suc (suc (k + m)) - suc k ≡ suc m = omega arith in
    let one : 0 + 1 ≡ 1 = omega arith in
    let second = write_all-whole write b (k + m) 1 m e' in
    write_all-step write b (suc (k + m)) 0 (suc (k + m)) k e ∙ rw (rest, one, second) refl

Content-rsize : (b : Buf) (n : ℕ) → Content b n → buf_rsize b ≡ n
unfolding buf_rsize
Content-rsize b n c = let s = c.size in let l = c.small in omega arith

Content-positive : (b : Buf) (n : ℕ) → Content b (suc n) → suc n < 2 ^ 63
Content-positive b n c = let s = c.size in let l = c.small in omega arith

module _ {W : Type 0} where
  -- `data_p` stands still in the loop: if the first write takes only `k + 1` of `k + 1 + m + 1` bytes
  -- and the second what the loop asks for then, the CGI gets the first bytes of the content again in
  -- place of its last ones, and the loop reports success.
  pub stream_to_cgi-short :
      (x : Ctx W) (write : ℕ → List ℕ → Option ℕ) (err_cb : ErrCb W) (k m : ℕ)
      → Content x.conn.buf (suc k + suc m)
      → write 0 (slice x.conn.buf.mem x.conn.buf.data_p (suc k + suc m)) ≡ some (suc k)
      → write 1 (slice x.conn.buf.mem x.conn.buf.data_p (suc m)) ≡ some (suc m)
      → cn_stream_to_cgi x write err_cb ≡ (
        alive,
        record x {
          piped =
              x.piped
              ++ (slice x.conn.buf.mem x.conn.buf.data_p (suc k)
                  ++ slice x.conn.buf.mem x.conn.buf.data_p (suc m));
          conn = record x.conn { buf = buf_reset x.conn.buf };
        },
      )
  unfolding cn_stream_to_cgi
  stream_to_cgi-short x write err_cb k m c e e' =
      let n : suc k + suc m ≡ suc (suc (k + m)) = omega arith in
      let c' : Content x.conn.buf (suc (suc (k + m))) = rw n at c in
      let rsize = Content-rsize x.conn.buf (suc (suc (k + m))) c' in
      let both = write_all-short write x.conn.buf k m (rw n at e) e' in
      let bound = Content-positive x.conn.buf (suc (k + m)) c' in ground (arith, rsize, both, bound)

  short_send :
      (x : Ctx W) (net : Net) (succ_cb : SuccCb W) (fat_cb : FatCb W) (n k : ℕ)
      → Content x.conn.buf n
      → smart_send net x.conn.ssl (slice x.conn.buf.mem x.conn.buf.data_p n) ≡ some (suc k)
      → suc k < n
      → cn_serve_dynamic x net succ_cb fat_cb ≡ (
        alive,
        record x { sent = x.sent ++ take (suc k) (slice x.conn.buf.mem x.conn.buf.data_p n) },
      )
  unfolding cn_serve_dynamic send_some
  short_send x net succ_cb fat_cb n k c e lt =
      let rsize = Content-rsize x.conn.buf n c in ground (arith, rsize)

  whole_send :
      (x : Ctx W) (net : Net) (succ_cb : SuccCb W) (fat_cb : FatCb W) (n : ℕ)
      → Content x.conn.buf (suc n)
      → smart_send net x.conn.ssl (slice x.conn.buf.mem x.conn.buf.data_p (suc n)) ≡ some (suc n)
      → ((cn_serve_dynamic x net succ_cb fat_cb).0 ≡ alive)
        × ((cn_serve_dynamic x net succ_cb fat_cb).1.conn.cgi.buf_phase ≡ buf_recv)
        × ((cn_serve_dynamic x net succ_cb fat_cb).1.sent
            ≡ x.sent ++ slice x.conn.buf.mem x.conn.buf.data_p (suc n))
  unfolding cn_serve_dynamic send_some set_cgi
  whole_send x net succ_cb fat_cb n c e =
      let rsize = Content-rsize x.conn.buf (suc n) c in
      let bytes = slice x.conn.buf.mem x.conn.buf.data_p (suc n) in
      let size =
        length-slice x.conn.buf.mem x.conn.buf.data_p (suc n)
          (omega (arith, c.size, c.allocated)) in
      let all = take_le (suc n) bytes (omega (arith, size)) in
      (ground (arith, rsize), ground (arith, rsize), ground (arith, rsize, all))

  -- Two calls, the first of which sends only `k + 1` of the `n + 1` bytes of the output and the second all that
  -- it offers: that is all of them again, from the first one on, so that the client gets the first bytes twice;
  -- the server goes on to the next read as if the output had gone out once.
  pub serve_dynamic-short :
      (x : Ctx W) (net net' : Net) (succ_cb : SuccCb W) (fat_cb : FatCb W) (n k : ℕ)
      → Content x.conn.buf (suc n)
      → smart_send net x.conn.ssl (slice x.conn.buf.mem x.conn.buf.data_p (suc n)) ≡ some (suc k)
      → k < n
      → smart_send net' x.conn.ssl (slice x.conn.buf.mem x.conn.buf.data_p (suc n)) ≡ some (suc n)
      → let bytes = slice x.conn.buf.mem x.conn.buf.data_p (suc n) in
        let first = cn_serve_dynamic x net succ_cb fat_cb in
        let second = cn_serve_dynamic first.1 net' succ_cb fat_cb in
        (first.0 ≡ alive)
        × (second.0 ≡ alive)
        × (second.1.conn.cgi.buf_phase ≡ buf_recv)
        × (second.1.sent ≡ x.sent ++ (take (suc k) bytes ++ bytes))
  serve_dynamic-short x net net' succ_cb fat_cb n k c e lt e' =
      let bytes = slice x.conn.buf.mem x.conn.buf.data_p (suc n) in
      let y = record x { sent = x.sent ++ take (suc k) bytes } in
      let first = short_send x net succ_cb fat_cb (suc n) k c e (omega arith) in
      let (on, phase, sent) = whole_send y net' succ_cb fat_cb n c e' in
      rw first (refl, on, phase, sent ∙ append_assoc x.sent (take (suc k) bytes) bytes)
