-- ===== src/Conn/Static/Whole.antt =====
-- The calls of `cn_serve_static` that a response takes until the client has all of it.
use liso.Base.{
  ap, ℕ, zero, suc, ◌≤◌, ◌<◌, ◌≡◌, sym, ◌∙◌, inl, inr, Bool, some, List, ◌++◌, arith, length,
}
use mathlib.Core.List.{append-nil}
use liso.CString.{Str}
use liso.Buffer.{Buf}
use liso.Conn.{Ctx, SuccCb, FatCb, Net, smart_send}
use liso.Conn.Static.{send_some, cn_serve_static}
use liso.Conn.Static.Stream.{Fails, TakesAtMost}
use liso.Conn.Static.Pending.{pending, Serving, Progress}
use liso.Conn.Static.Delivery.{serve_static-Progress}

-- A socket that is ready: it takes something of what it is given, and no more than that.
pub record IsReady (net : Net) : Type 0 where
  pub most : TakesAtMost net
  pub some_taken :
      (ssl : Bool) (bytes : List ℕ)
      → 0 < length bytes
      → (n : ℕ) × (smart_send net ssl bytes ≡ some (suc n))

module _ {W : Type 0} where
  IsReady-ne-Fails : (x : Ctx W) (net : Net) → IsReady net → ¬ (Fails x net)
  unfolding send_some
  IsReady-ne-Fails x net r (bytes, some_left, e) =
      let (n, t) = r.some_taken x.conn.ssl bytes some_left in ground (arith, t)

  -- The first `k` calls, with the socket as `nets` says.
  unfoldable pub rounds : (ℕ → Net) → Str → SuccCb W → FatCb W → ℕ → Ctx W → Ctx W
  rounds nets now succ_cb fat_cb zero x = x
  rounds nets now succ_cb fat_cb (suc k) x =
      rounds (λ i. nets (suc i)) now succ_cb fat_cb k
        (cn_serve_static x (nets 0) now succ_cb fat_cb).1

  -- After `k` calls, fewer than `bound`, the next call ends the response, with all of it sent.
  abbrev pub Delivers : ℕ → (ℕ → Net) → Str → SuccCb W → FatCb W → Ctx W → Type 0
  Delivers bound nets now succ_cb fat_cb x =
      (k : ℕ) × (y : Ctx W) × (k < bound)
      × (cn_serve_static (rounds nets now succ_cb fat_cb k x) (nets k) now succ_cb fat_cb
          ≡ succ_cb y)
      × (y.sent ≡ x.sent ++ pending x.conn.resp.phase x.conn)

  -- With `bound` bytes left at most.
  deliver :
      (bound : ℕ) (nets : ℕ → Net) (now : Str) (succ_cb : SuccCb W) (fat_cb : FatCb W) (x : Ctx W)
      (b : Buf)
      → length (pending x.conn.resp.phase x.conn) ≤ bound
      → Serving x b
      → ((i : ℕ) → IsReady (nets i))
      → Delivers bound nets now succ_cb fat_cb x
  unfolding rounds
  deliver zero nets now succ_cb fat_cb x b le s ready =
      absurd (ended (serve_static-Progress x (nets 0) now b succ_cb fat_cb s (ready 0).most))
    where
      ended : Progress x (nets 0) succ_cb fat_cb (cn_serve_static x (nets 0) now succ_cb fat_cb) → ⊥
      ended (inl (f, _)) = IsReady-ne-Fails x (nets 0) (ready 0) f
      ended (inr (y, v, _)) = let l = v.shorter in omega arith
  deliver (suc bound) nets now succ_cb fat_cb x b le s ready =
      step (serve_static-Progress x (nets 0) now b succ_cb fat_cb s (ready 0).most) (λ y b' le' s'.
        deliver bound (λ i. nets (suc i)) now succ_cb fat_cb y b' le' s' (λ i. ready (suc i)))
    where
      step :
          Progress x (nets 0) succ_cb fat_cb (cn_serve_static x (nets 0) now succ_cb fat_cb)
          → ((y : Ctx W) (b' : Buf)
              → length (pending y.conn.resp.phase y.conn) ≤ bound
              → Serving y b'
              → Delivers bound (λ i. nets (suc i)) now succ_cb fat_cb y)
          → Delivers (suc bound) nets now succ_cb fat_cb x
      step (inl (f, _)) next = absurd (IsReady-ne-Fails x (nets 0) (ready 0) f)
      step (inr (y, v, inl (done, e))) next = (
        0,
        y,
        omega arith,
        e,
        sym (append-nil y.sent) ∙ (ap (λ s. y.sent ++ s) (sym done) ∙ v.whole),
      )
      step (inr (y, v, inr (b', s', e))) next =
          let l = v.shorter in
          let (k, z, lt, call, sent) = next y b' (omega arith) s' in
          (suc k, z, omega arith, rw e call, sent ∙ v.whole)

  -- While a response with a file that is not empty is being sent, over a socket that is ready at each
  -- call: after fewer calls than there are bytes pending, the next call sends the last of them and
  -- calls the success callback, and the client has got exactly the pending bytes, in order.
  pub serve_static-Delivers :
      (nets : ℕ → Net) (now : Str) (succ_cb : SuccCb W) (fat_cb : FatCb W) (x : Ctx W) (b : Buf)
      → Serving x b
      → ((i : ℕ) → IsReady (nets i))
      → Delivers (length (pending x.conn.resp.phase x.conn)) nets now succ_cb fat_cb x
  serve_static-Delivers nets now succ_cb fat_cb x b s ready =
      deliver (length (pending x.conn.resp.phase x.conn)) nets now succ_cb fat_cb x b (omega arith)
        s ready
