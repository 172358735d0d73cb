-- ===== src/Conn/Static/Refine.antt =====
-- `cn_serve_static` against an abstract stream of bytes to a client.
use liso.Base.{
  ℕ, ◌≤◌, ◌<◌, ◌≡◌, refl, sym, ap, ◌⊎◌, inl, inr, List, [], ◌∷◌, ◌++◌, arith, length, length-append,
}
use mathlib.Core.Path.{subst₂}
use liso.CString.{Str}
use liso.Buffer.{Buf}
use liso.Conn.{Ctx, Ret, alive, SuccCb, FatCb, Net}
use liso.Conn.Static.{cn_serve_static}
use liso.Conn.Static.Stream.{Fails, TakesAtMost}
use liso.Conn.Static.Pending.{pending, Serving}
use liso.Conn.Static.Delivery.{serve_static-Progress}

-- What the client has got, and what is still to come.
pub record Stream : Type 0 where
  pub got : List ℕ
  pub to_come : List ℕ

-- A step of the stream: some bytes that are to come, at least one, arrive in their order.
pub data Emits : Stream → Stream → Type 0 where
  emit :
      (got bytes rest : List ℕ)
      → 0 < length bytes
      → Emits
          (record { got = got; to_come = bytes ++ rest })
          (record { got = got ++ bytes; to_come = rest })

-- The stream that a context implements.
abbrev pub stream_of : {W : Type 0} → Ctx W → Stream
stream_of x = record { got = x.sent; to_come = pending x.conn.resp.phase x.conn }

-- Two ways to split a list: the longer first part goes on with what the other part starts with.
overlap :
    (a b c d : List ℕ)
    → a ++ b ≡ c ++ d
    → length c ≤ length a
    → (s : List ℕ) × (a ≡ c ++ s) × (d ≡ s ++ b)
overlap a b [] d e le = (a, refl, sym e)
overlap [] b (y ∷ c) d e le = absurd (omega arith)
overlap (x ∷ a) b (y ∷ c) d e le =
    let (s, p, q) = overlap a b c d (cc e) (omega arith) in (s, cc, q)

-- A stream whose bytes stay the same as a whole and that has fewer to come has made a step.
shorter-Emits :
    (s t : Stream)
    → t.got ++ t.to_come ≡ s.got ++ s.to_come
    → length t.to_come < length s.to_come
    → Emits s t
shorter-Emits s t whole lt =
    let le : length s.got ≤ length t.got =
      omega
        (arith, ap length whole, length-append t.got t.to_come, length-append s.got s.to_come) in
    let (bytes, p, q) = overlap t.got t.to_come s.got s.to_come whole le in
    let some_bytes : 0 < length bytes = omega (arith, ap length q, length-append bytes t.to_come) in
    subst₂
      (λ r g. Emits (record { got = s.got; to_come = r }) (record { got = g; to_come = t.to_come }))
      (sym q) (sym p) (emit s.got bytes t.to_come some_bytes)

module _ {W : Type 0} where
  -- The outcomes of a call: the socket failed and the failure callback is called, or the stream made a
  -- step, and the success callback is called when nothing is to come, and else the response goes on.
  abbrev pub Simulates : Ctx W → Net → SuccCb W → FatCb W → Ret × Ctx W → Type 0
  Simulates x net succ_cb fat_cb out =
      (Fails x net × (out ≡ fat_cb x))
      ⊎ ((y : Ctx W) × Emits (stream_of x) (stream_of y)
          × (y.world ≡ x.world)
          × ((((stream_of y).to_come ≡ []) × (out ≡ succ_cb y))
              ⊎ ((b : Buf) × Serving y b × (out ≡ (alive, y)))))

  -- A call of `cn_serve_static` while the response to a request that is not HEAD is being sent from a mapped
  -- file, in its header or its body, with something left of that part and of the file (so neither an error
  -- page nor an empty file), over a socket that takes no more than it is given:
  -- either the send failed and the failure callback gets the connection as it was, or the stream of bytes to the
  -- client made a step, and then the success callback is called when nothing is to come, and the response goes on otherwise.
  pub serve_static-Simulates :
      (x : Ctx W) (net : Net) (now : Str) (b : Buf) (succ_cb : SuccCb W) (fat_cb : FatCb W)
      → Serving x b
      → TakesAtMost net
      → Simulates x net succ_cb fat_cb (cn_serve_static x net now succ_cb fat_cb)
  serve_static-Simulates x net now b succ_cb fat_cb s most =
      elim (serve_static-Progress x net now b succ_cb fat_cb s most) [
        | inl f ↦ inl f
        | inr (y, v, next) ↦
            inr (y, shorter-Emits (stream_of x) (stream_of y) v.whole v.shorter, v.world, next)
      ]
