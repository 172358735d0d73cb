-- ===== src/Conn/Static.antt =====
-- `cn_prepare_static_header`, `cn_send_error_page` and `cn_serve_static`.
pub mod Stream
pub mod Page
pub mod Pending
pub mod Delivery
pub mod Whole
pub mod File
pub mod Read
pub mod Refine
use liso.Base.{
  ℕ, zero, suc, ◌+◌, Bool, true, not, ◌||◌, Option, none, some, List, [], ◌∷◌, ◌++◌, ◌==◌, leb,
  if◌then◌else◌, length, take, min,
}
use liso.CString.{Str}
use liso.Buffer.{Buf, bufsz, slice, write_at, buf_end, buf_rsize, buf_reset}
use liso.Request.{m_head, is_method}
use liso.Response.{Resp, resp_header, resp_body, resp_abort, resp_in, resp_msg}
use liso.Response.Build.{Files, resp_build}
use liso.Response.Serial.{resp_hdr}
use liso.Conn.{Conn, Ctx, Ret, alive, SuccCb, ErrCb, FatCb, Net, smart_send}

-- A text written to the start of a buffer that was reset. `resp_hdr` writes a terminator too.
unfoldable pub fill_header : Buf → Str → Buf
fill_header b text = record (buf_reset b) {
  sz = length text;
  mem = write_at b.mem 0 (text ++ 0 ∷ []);
}

unfoldable pub cn_prepare_static_header : {W : Type 0} → Ctx W → Files → Str → ErrCb W → Ret × Ctx W
cn_prepare_static_header x files now err_cb =
    let (resp, ok) = resp_build files x.conn.resp x.conn.req in
    if not ok
    then err_cb (record x { conn = record x.conn { resp = resp } }) resp.status
    else let resp' = record resp { phase = resp_header } in
      (
        alive,
        record x {
          conn = record x.conn { resp = resp'; buf = fill_header x.conn.buf (resp_hdr resp' now) };
        },
      )

-- `bytes` handed to `smart_send`: what it took is sent; 0 and -1 are `none`.
unfoldable pub send_some : {W : Type 0} → Ctx W → Net → List ℕ → Option ℕ × Ctx W
send_some x net bytes = elim (smart_send net x.conn.ssl bytes) [
  | none ↦ (none, x)
  | some zero ↦ (none, x)
  | some (suc n) ↦ (some (suc n), record x { sent = x.sent ++ take (suc n) bytes })
]

-- The buffer of the error page, and the response that heads it.
unfoldable pub error_resp : Conn → Resp
error_resp c = record c.resp { alive = c.req.alive; clen = length (resp_msg c.resp.status) }

unfoldable pub error_page : Conn → Str → Buf
error_page c now =
    let b = fill_header c.buf (resp_hdr (error_resp c) now) in
    let msg = resp_msg c.resp.status in
    record b { sz = b.sz + length msg; mem = write_at b.mem b.sz msg }

unfoldable pub advance : {W : Type 0} → Ctx W → ℕ → Ctx W
advance x n = record x {
  conn = record x.conn { buf = record x.conn.buf { data_p = x.conn.buf.data_p + n } };
}

unfoldable pub cn_send_error_page :
    {W : Type 0} → Ctx W → Net → Str → SuccCb W → FatCb W → Ret × Ctx W
cn_send_error_page x net now succ_cb fat_cb =
    let b = error_page x.conn now in
    let x0 = record x { conn = record x.conn { resp = error_resp x.conn; buf = b } } in
    let (rc, x1) = send_some x0 net (slice b.mem b.data_p (buf_rsize b)) in
    elim rc [
      | none ↦ fat_cb x1
      | some n ↦
          let x2 = advance x1 n in
          if leb (buf_end b) (b.data_p + n) then succ_cb x2 else (alive, x2)
    ]

-- Whether nothing of the mapped file is left. A null `mmbuf` does not occur in these phases.
unfoldable pub mapped_done : Option Buf → Bool
mapped_done none = true
mapped_done (some b) = leb (buf_end b) b.data_p

-- Behind the send of `serve_header`: whether it took `all` that was left of the header, and whether
-- the response is `complete` without a body.
unfoldable pub header_sent : {W : Type 0} → Ctx W → Bool → Bool → SuccCb W → Ret × Ctx W
header_sent x all complete succ_cb =
    let y =
      if all
      then record x { conn = record x.conn { resp = record x.conn.resp { phase = resp_body } } }
      else x in
    if complete then succ_cb y else (alive, y)

unfoldable pub serve_header : {W : Type 0} → Ctx W → Net → SuccCb W → FatCb W → Ret × Ctx W
serve_header x net succ_cb fat_cb =
    let b = x.conn.buf in
    let (rc, x1) = send_some x net (slice b.mem b.data_p (buf_rsize b)) in
    elim rc [
      | none ↦ fat_cb x1
      | some n ↦
          header_sent (advance x1 n) (n == buf_rsize b)
            (is_method x.conn.req.method m_head || mapped_done x.conn.resp.mmbuf) succ_cb
    ]

-- Behind the send of `serve_body`, from the mapped file `b`.
unfoldable pub body_sent : {W : Type 0} → Buf → Option ℕ × Ctx W → SuccCb W → FatCb W → Ret × Ctx W
body_sent b (none, x) succ_cb fat_cb = fat_cb x
body_sent b (some n, x) succ_cb fat_cb =
    let b' = record b { data_p = b.data_p + n } in
    let y = record x { conn = record x.conn { resp = record x.conn.resp { mmbuf = some b' } } } in
    if leb (buf_end b') b'.data_p then succ_cb y else (alive, y)

unfoldable pub serve_body :
    {W : Type 0} → Ctx W → Net → Option Buf → SuccCb W → FatCb W → Ret × Ctx W
serve_body x net none succ_cb fat_cb = fat_cb x
serve_body x net (some b) succ_cb fat_cb =
    body_sent b (send_some x net (slice b.mem b.data_p (min bufsz (buf_rsize b)))) succ_cb fat_cb

unfoldable pub cn_serve_static : {W : Type 0} → Ctx W → Net → Str → SuccCb W → FatCb W → Ret × Ctx W
cn_serve_static x net now succ_cb fat_cb =
    let phase = x.conn.resp.phase in
    if resp_in phase resp_abort
    then cn_send_error_page x net now succ_cb fat_cb
    else if resp_in phase resp_header
    then serve_header x net succ_cb fat_cb
    else if resp_in phase resp_body
    then serve_body x net x.conn.resp.mmbuf succ_cb fat_cb
    else (alive, x)
