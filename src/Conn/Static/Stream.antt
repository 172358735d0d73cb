-- ===== src/Conn/Static/Stream.antt =====
-- What a client gets of a response that goes out in pieces.
use liso.Base.{
  if◌then◌else◌, leb, length-take, length-drop, min, ◌%◌, ◌^◌, ℕ, zero, suc, ◌+◌, ◌-◌, ◌≤◌, ◌<◌,
  ◌≡◌, refl, ap, sym, ◌∙◌, ◌⊎◌, inl, inr, Bool, true, false, List, [], ◌∷◌, ◌++◌, arith, length,
  Bool-cases, Option, none, some, leb, if◌then◌else◌, take, drop,
}
use mathlib.Core.List.{append_assoc}
use liso.Buffer.Laws.{length-slice}
use liso.Buffer.{bufsz, Buf, buf_end, buf_rsize, slice}
use liso.Conn.{Ctx, alive, SuccCb, FatCb, Net, smart_send}
use liso.Conn.Static.{send_some, serve_body, body_sent}

take-nil : (n : ℕ) → take {A = ℕ} n [] ≡ []
take-nil zero = refl
take-nil (suc n) = refl

drop-nil : (n : ℕ) → drop {A = ℕ} n [] ≡ []
drop-nil zero = refl
drop-nil (suc n) = refl

take-split : (m : List ℕ) (j k : ℕ) → j ≤ k → take j m ++ take (k - j) (drop j m) ≡ take k m
take-split m zero k h = ap (λ n. take n m) (omega arith)
take-split [] (suc j) k h = take-nil (k - suc j) ∙ sym (take-nil k)
take-split (x ∷ m) (suc j) zero h = absurd (omega arith)
take-split (x ∷ m) (suc j) (suc k) h = ground (arith, take-split m j k (omega arith))

drop-drop : (m : List ℕ) (i j : ℕ) → drop j (drop i m) ≡ drop (i + j) m
drop-drop m zero j = ap (λ n. drop n m) (omega arith)
drop-drop [] (suc i) j = drop-nil j ∙ sym (drop-nil (suc i + j))
drop-drop (x ∷ m) (suc i) j =
    let e : suc i + j ≡ suc (i + j) = omega arith in
    drop-drop m i j ∙ ap (λ n. drop n (x ∷ m)) (sym e)

-- The bytes of [i, i + k), in two pieces.
pub slice-split :
    (m : List ℕ) (i j k : ℕ) → j ≤ k → slice m i j ++ slice m (i + j) (k - j) ≡ slice m i k
slice-split m i j k h = rw (← drop-drop m i j) (take-split (drop i m) j k h)

pub take-take : (m : List ℕ) (n k : ℕ) → n ≤ k → take n (take k m) ≡ take n m
take-take m zero k h = refl
take-take [] (suc n) k h = ap (take (suc n)) (take-nil k)
take-take (x ∷ m) (suc n) zero h = absurd (omega arith)
take-take (x ∷ m) (suc n) (suc k) h = ap (◌∷◌ x) (take-take m n k (omega arith))

-- A send takes no more than it is given: `send` and `SSL_write` return at most their length.
abbrev pub TakesAtMost : Net → Type 0
TakesAtMost net =
    (ssl : Bool) (bytes : List ℕ) (n : ℕ) → smart_send net ssl bytes ≡ some n → n ≤ length bytes

-- The mapped file's bytes that are not sent yet.
abbrev pub rest_of : Option Buf → List ℕ
rest_of none = []
rest_of (some b) = slice b.mem b.data_p (b.sz - b.data_p)

module _ {W : Type 0} where
  -- `smart_send` either sends nothing and fails, or sends a first part of the bytes.
  pub send_some_lem :
      (x : Ctx W) (net : Net) (bytes : List ℕ)
      → TakesAtMost net
      → (send_some x net bytes ≡ (none, x))
        ⊎ ((n : ℕ) × (0 < n)
            × (n ≤ length bytes)
            × (send_some x net bytes ≡ (some n, record x { sent = x.sent ++ take n bytes })))
  unfolding send_some
  send_some_lem x net bytes most = go (smart_send net x.conn.ssl bytes) refl
    where
      go :
          (o : Option ℕ)
          → smart_send net x.conn.ssl bytes ≡ o
          → (send_some x net bytes ≡ (none, x))
            ⊎ ((n : ℕ) × (0 < n)
                × (n ≤ length bytes)
                × (send_some x net bytes ≡ (some n, record x { sent = x.sent ++ take n bytes })))
      go none e = inl (rw (e, send_some))
      go (some zero) e = inl (rw (e, send_some))
      go (some (suc n)) e =
          inr (suc n, omega arith, most x.conn.ssl bytes (suc n) e, rw (e, send_some))

  -- The socket took nothing of some bytes that it was given.
  abbrev pub Fails : Ctx W → Net → Type 0
  Fails x net = (bytes : List ℕ) × (0 < length bytes) × (send_some x net bytes ≡ (none, x))

  -- A mapped file of which something is left to send.
  pub record Mapped (x : Ctx W) (b : Buf) : Type 0 where
    pub here : x.conn.resp.mmbuf ≡ some b
    pub left : b.data_p < b.sz
    pub allocated : b.sz ≤ length b.mem
    pub small : b.sz < 2 ^ 64

  -- What one call makes of `x`: the file and what was sent are as before, but `n` bytes went over.
  pub record Moved (x y : Ctx W) : Type 0 where
    pub whole : y.sent ++ rest_of y.conn.resp.mmbuf ≡ x.sent ++ rest_of x.conn.resp.mmbuf
    pub shorter : length (rest_of y.conn.resp.mmbuf) < length (rest_of x.conn.resp.mmbuf)
    pub world : y.world ≡ x.world
    pub phase : y.conn.resp.phase ≡ x.conn.resp.phase

  -- A call in the phase BODY on a mapped file that is not all sent, over a socket that takes no more
  -- than it is given. If the send fails, the fatality callback
  -- gets the connection as it was. Otherwise at least one of the bytes that were left goes to the
  -- client, the bytes sent and the bytes left make up what they did before, and the success callback
  -- is called exactly when nothing is left.
  pub serve_body-Moved :
      (x : Ctx W) (net : Net) (b : Buf) (succ_cb : SuccCb W) (fat_cb : FatCb W)
      → Mapped x b
      → TakesAtMost net
      → (Fails x net × (serve_body x net (some b) succ_cb fat_cb ≡ fat_cb x))
        ⊎ ((y : Ctx W) × Moved x y
            × (((rest_of y.conn.resp.mmbuf ≡ [])
                  × (serve_body x net (some b) succ_cb fat_cb ≡ succ_cb y))
                ⊎ ((b' : Buf) × Mapped y b'
                    × (0 < length (rest_of y.conn.resp.mmbuf))
                    × (serve_body x net (some b) succ_cb fat_cb ≡ (alive, y)))))
  unfolding serve_body body_sent buf_rsize buf_end
  serve_body-Moved x net b succ_cb fat_cb m most = elim (send_some_lem x net bytes most) [
    | inl e ↦ inl ((bytes, some_asked, e), rw e refl)
    | inr (n, some_sent, le, e) ↦
        inr (after n, moved n some_sent le, rw e (ending n (Bool-cases (leb b.sz (b.data_p + n)))))
  ]
    where
      asked : ℕ
      asked = min bufsz ((b.sz + 2 ^ 64 - b.data_p) % 2 ^ 64)

      bytes : List ℕ
      bytes = slice b.mem b.data_p asked

      after : ℕ → Ctx W
      after n = record x {
        sent = x.sent ++ take n bytes;
        conn = record x.conn {
          resp = record x.conn.resp { mmbuf = some (record b { data_p = b.data_p + n }) };
        };
      }

      asked-le : asked ≤ b.sz - b.data_p
      asked-le = omega (arith, m)

      size : length bytes ≡ asked
      size = length-slice b.mem b.data_p asked (omega (arith, m, asked-le))

      some_asked : 0 < length bytes
      some_asked = let l = m.left in omega (arith, size, m)

      left_of :
          (n : ℕ)
          → length (slice b.mem (b.data_p + n) (b.sz - (b.data_p + n))) ≡ b.sz - (b.data_p + n)
      left_of n = omega (
        arith,
        length-take (b.sz - (b.data_p + n)) (drop (b.data_p + n) b.mem),
        length-drop (b.data_p + n) b.mem,
        m,
      )

      pieces :
          (n : ℕ) → n ≤ asked → take n bytes ++ rest_of (after n).conn.resp.mmbuf ≡ rest_of (some b)
      pieces n le =
          let k : b.sz - (b.data_p + n) ≡ b.sz - b.data_p - n = omega arith in
          rw (take-take (drop b.data_p b.mem) n asked le, k)
            (slice-split b.mem b.data_p n (b.sz - b.data_p) (omega (arith, asked-le)))

      moved : (n : ℕ) → 0 < n → n ≤ length bytes → Moved x (after n)
      moved n p le = record {
        whole = rw (m.here, append_assoc) (ap (λ s. x.sent ++ s) (pieces n (omega (arith, size))));
        shorter =
            rw m.here (omega (arith, left_of n, m, length-slice b.mem b.data_p (b.sz - b.data_p)));
        world = refl;
        phase = refl;
      }

      ending :
          (n : ℕ)
          → (leb b.sz (b.data_p + n) ≡ true) ⊎ (leb b.sz (b.data_p + n) ≡ false)
          → let out = if leb b.sz (b.data_p + n) then succ_cb (after n) else (alive, after n) in
            ((rest_of (after n).conn.resp.mmbuf ≡ []) × (out ≡ succ_cb (after n)))
            ⊎ ((b' : Buf) × Mapped (after n) b'
                × (0 < length (rest_of (after n).conn.resp.mmbuf))
                × (out ≡ (alive, after n)))
      ending n (inl e) = rw e (inl (nothing, refl))
        where
          nothing : slice b.mem (b.data_p + n) (b.sz - (b.data_p + n)) ≡ []
          nothing =
              let k : b.sz - (b.data_p + n) ≡ 0 = ground arith in
              ap (λ j. take j (drop (b.data_p + n) b.mem)) k
      ending n (inr e) = rw e (inr (record b { data_p = b.data_p + n }, still, some_left, refl))
        where
          still : Mapped (after n) (record b { data_p = b.data_p + n })
          still = record {
            here = refl;
            left = ground arith;
            allocated = m.allocated;
            small = m.small;
          }

          some_left : 0 < length (slice b.mem (b.data_p + n) (b.sz - (b.data_p + n)))
          some_left = ground (arith, left_of n)
