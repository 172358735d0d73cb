-- ===== src/Conn/Static/Page.antt =====
-- The error page of `cn_send_error_page` of conn.c.
use liso.Base.{
  ℕ, suc, ◌+◌, ◌^◌, ◌≤◌, ◌<◌, ◌≡◌, refl, ap, ◌⊎◌, inl, inr, some, List, [], ◌∷◌, ◌++◌, arith,
  length, take, leb, Bool-cases, length-append,
}
use liso.CString.{Str}
use liso.Buffer.{write_at, slice, buf_end, buf_rsize, buf_reset}
use liso.Buffer.Laws.{length-write_at, take-drop-write_at}
use liso.Response.{resp_msg}
use liso.Response.Serial.{resp_hdr}
use liso.Conn.{Conn, Ctx, alive, SuccCb, FatCb, Net, smart_send}
use liso.Conn.Static.{fill_header, error_resp, error_page, send_some, advance, cn_send_error_page}

-- The page with its header.
abbrev pub page_of : Conn → Str → List ℕ
page_of c now = resp_hdr (error_resp c) now ++ resp_msg c.resp.status

-- A text with its terminator, and a second one that starts at the terminator.
write_two :
    (m t u : List ℕ)
    → length t < length m
    → length t + length u ≤ length m
    → take (length t + length u) (write_at (write_at m 0 (t ++ 0 ∷ [])) (length t) u) ≡ t ++ u
unfolding write_at
write_two [] t u lt le = absurd (omega arith)
write_two (a ∷ m) [] u lt le =
    let z : 0 + length u ≡ length u = omega arith in
    rw z (take-drop-write_at (0 ∷ write_at m 0 []) 0 u (omega (arith, length-write_at m 0 [])))
write_two (a ∷ m) (x ∷ t) u lt le =
    let k : suc (length t) + length u ≡ suc (length t + length u) = omega arith in
    rw k (ap (◌∷◌ x) (write_two m t u (omega arith) (omega arith)))

error_page-content :
    (c : Conn) (now : Str)
    → length (resp_hdr (error_resp c) now) < length c.buf.mem
    → length (page_of c now) ≤ length c.buf.mem
    → slice (error_page c now).mem 0 (error_page c now).sz ≡ page_of c now
unfolding error_page fill_header
error_page-content c now lt le =
    let t = resp_hdr (error_resp c) now in
    let u = resp_msg c.resp.status in write_two c.buf.mem t u lt (omega (arith, length-append t u))

error_page-size :
    (c : Conn) (now : Str)
    → length (page_of c now) < 2 ^ 63
    → ((error_page c now).data_p ≡ 0)
      × ((error_page c now).sz ≡ length (page_of c now))
      × (buf_rsize (error_page c now) ≡ (error_page c now).sz)
unfolding error_page fill_header buf_reset buf_rsize
error_page-size c now small =
    let total = length-append (resp_hdr (error_resp c) now) (resp_msg c.resp.status) in
    (refl, omega (arith, total), omega (arith, total))

module _ {W : Type 0} where
  -- For an error page that fits into the buffer, if the send takes `n + 1` bytes, the client gets the
  -- first `n + 1` bytes of the header and the page of the status. With all of them sent the success
  -- callback is called; otherwise the connection waits, and the page that the next call starts from
  -- its first byte is the same again.
  pub send_error_page-sent :
      (x : Ctx W) (net : Net) (now : Str) (succ_cb : SuccCb W) (fat_cb : FatCb W) (n : ℕ)
      → length (resp_hdr (error_resp x.conn) now) < length x.conn.buf.mem
      → length (page_of x.conn now) ≤ length x.conn.buf.mem
      → length (page_of x.conn now) < 2 ^ 63
      → smart_send net x.conn.ssl (page_of x.conn now) ≡ some (suc n)
      → (y : Ctx W) × (y.sent ≡ x.sent ++ take (suc n) (page_of x.conn now))
        × (((length (page_of x.conn now) ≤ suc n)
              × (cn_send_error_page x net now succ_cb fat_cb ≡ succ_cb y))
            ⊎ ((suc n < length (page_of x.conn now))
                × (cn_send_error_page x net now succ_cb fat_cb ≡ (alive, y))
                × (page_of y.conn now ≡ page_of x.conn now)))
  unfolding cn_send_error_page send_some advance buf_end error_resp
  send_error_page-sent x net now succ_cb fat_cb n lt le small e =
      let b = error_page x.conn now in
      let size = error_page-size x.conn now small in
      let bytes : slice b.mem b.data_p (buf_rsize b) ≡ page_of x.conn now =
        rw (size.2, size.0) (error_page-content x.conn now lt le) in
      (
        record x {
          sent = x.sent ++ take (suc n) (page_of x.conn now);
          conn = record x.conn {
            resp = error_resp x.conn;
            buf = record b { data_p = b.data_p + suc n };
          };
        },
        refl,
        elim (Bool-cases (leb b.sz (b.data_p + suc n))) [
          | inl all ↦ inl (ground (arith, size), ground (arith, bytes, e, all))
          | inr part ↦ inr (ground (arith, size), ground (arith, bytes, e, part), refl)
        ],
      )
