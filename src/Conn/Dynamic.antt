-- ===== src/Conn/Dynamic.antt =====
-- `cn_init_cgi`, `cn_stream_to_cgi`, `cn_stream_from_cgi` and `cn_serve_dynamic`.
pub mod Pipe
pub mod Relay
use liso.Base.{
  ℕ, zero, suc, ◌+◌, ◌-◌, ◌^◌, Bool, true, false, ◌&&◌, Option, none, some, List, [], ◌++◌, ◌==◌,
  if◌then◌else◌, length,
}
use liso.Buffer.{Buf, slice, write_at, buf_rsize, buf_reset}
use liso.Response.{resp_abort}
use liso.Cgi.{Cgi, cgi_srv_to_cgi, cgi_done, cgi_abort, cgi_at, buf_recv, buf_send, Spawn, cgi_init}
use liso.Conn.{Ctx, Ret, alive, SuccCb, ErrCb, FatCb, Net, nonpositive}
use liso.Conn.Static.{send_some}

unfoldable pub set_cgi : {W : Type 0} → Ctx W → Cgi → Ctx W
set_cgi x cgi = record x { conn = record x.conn { cgi = cgi } }

unfoldable pub cn_init_cgi : {W : Type 0} → Ctx W → Spawn → SuccCb W → ErrCb W → Ret × Ctx W
cn_init_cgi x spawn succ_cb err_cb =
    let (cgi, ok, fds) = cgi_init x.conn.cgi spawn in
    let x1 = record x { closed_fds = x.closed_fds ++ fds } in
    if ok
    then succ_cb (set_cgi x1 (record cgi { phase = cgi_srv_to_cgi }))
    else err_cb
        (record x1 {
          conn = record x1.conn {
            cgi = record cgi { phase = cgi_abort };
            resp = record x1.conn.resp { phase = resp_abort };
          };
        })
        500

-- The loop of `cn_stream_to_cgi`: `write i bytes` is what the i-th `write` gives, at most the number
-- of the bytes, and `data_p` does not move. The result tells whether no write failed, and what the
-- pipe took.
unfoldable pub write_all : (ℕ → List ℕ → Option ℕ) → Buf → ℕ → ℕ → ℕ → Bool × List ℕ
write_all write b zero i rsize = (true, [])
write_all write b (suc fuel) i rsize = elim (rsize == 0) [
  | true ↦ (true, [])
  | false ↦ elim (write i (slice b.mem b.data_p rsize)) [
    | none ↦ (false, [])
    | some zero ↦ (false, [])
    | some (suc n) ↦
        let (ok, more) = write_all write b fuel (i + 1) (rsize - suc n) in
        (ok, slice b.mem b.data_p (suc n) ++ more)
  ]
]

-- Each round of the loop writes a byte, so that `rsize` rounds are enough.
unfoldable pub cn_stream_to_cgi :
    {W : Type 0} → Ctx W → (ℕ → List ℕ → Option ℕ) → ErrCb W → Ret × Ctx W
cn_stream_to_cgi x write err_cb =
    let b = x.conn.buf in
    let rsize = if nonpositive (buf_rsize b) then 0 else buf_rsize b in
    let (ok, bytes) = write_all write b rsize 0 rsize in
    let x1 = record x { piped = x.piped ++ bytes } in
    if ok then (alive, record x1 { conn = record x1.conn { buf = buf_reset b } }) else err_cb x1 500

-- `read` is what the read of BUFSZ bytes gives.
unfoldable pub cn_stream_from_cgi : {W : Type 0} → Ctx W → Option (List ℕ) → ErrCb W → Ret × Ctx W
cn_stream_from_cgi x none err_cb =
    let x1 = record x { conn = record x.conn { buf = record x.conn.buf { sz = 2 ^ 64 - 1 } } } in
    err_cb (set_cgi x1 (record x1.conn.cgi { phase = cgi_abort })) 500
cn_stream_from_cgi x (some bytes) err_cb =
    let c = x.conn in
    let cgi = record c.cgi {
      phase = if length bytes == 0 then cgi_done else c.cgi.phase;
      buf_phase = buf_send;
    } in
    let buf = record c.buf { sz = length bytes; mem = write_at c.buf.mem 0 bytes } in
    (alive, record x { conn = record c { cgi = cgi; buf = buf } })

unfoldable pub cn_serve_dynamic : {W : Type 0} → Ctx W → Net → SuccCb W → FatCb W → Ret × Ctx W
cn_serve_dynamic x net succ_cb fat_cb =
    let b = x.conn.buf in
    let rsize = buf_rsize b in
    let (rc, x1) = send_some x net (slice b.mem b.data_p rsize) in
    if rsize == 0 && cgi_at x.conn.cgi.phase cgi_done then succ_cb x else elim rc [
      | none ↦ fat_cb x1
      | some n ↦ (
        alive,
        if rsize == n then set_cgi x1 (record x1.conn.cgi { buf_phase = buf_recv }) else x1,
      )
    ]
