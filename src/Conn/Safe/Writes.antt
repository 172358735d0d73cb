-- ===== src/Conn/Safe/Writes.antt =====
-- What `cn_prepare_static_header` and `cn_send_error_page` of conn.c write to the buffer of a safe
-- connection.
use liso.Base.{◌≤◌, ◌<◌, ◌≡◌, arith, length, [], ◌∷◌, ◌++◌}
use liso.CString.{Str}
use liso.Buffer.{bufsz, buf_reset, write_at}
use liso.Buffer.Laws.{length-write_at}
use liso.Response.{resp_ready, resp_header, resp_msg}
use liso.Response.Bounds.{length-resp_hdr, length-resp_msg}
use liso.Response.Build.{Files, resp_build}
use liso.Response.Build.Small.{StdFiles, resp_build_small}
use liso.Response.Serial.{resp_hdr}
use liso.Conn.{Conn}
use liso.Conn.Safe.{Safe}
use liso.Conn.Static.{fill_header, error_resp, error_page}

-- The header of the response that `resp_build` makes for a connection whose response is READY.
pub header-fits :
    (c : Conn) (files : Files) (now : Str)
    → Safe c
    → StdFiles files
    → length now < 64
    → c.resp.phase ≡ resp_ready
    → length (resp_hdr (record (resp_build files c.resp c.req).0 { phase = resp_header }) now) ≤ 306
header-fits c files now s std date ready =
    let empty : c.resp.hdrs ≡ [] = ground (arith, s.orders.fresh, ready) in
    let (packed, small, phase) = resp_build_small files std c.resp c.req empty s.orders.small in
    length-resp_hdr (record (resp_build files c.resp c.req).0 { phase = resp_header }) now date
      small packed

-- The error page of a safe connection fits into its buffer, whatever its status is, if the date has
-- less than DATESZ bytes: header and page are less than the BUFSZ bytes that the buffer has, so
-- that no byte of them is written behind it.
pub error_page-fits :
    (c : Conn) (now : Str)
    → Safe c
    → length now < 64
    → ((error_page c now).sz < bufsz) × (bufsz ≤ length (error_page c now).mem)
unfolding error_page error_resp fill_header buf_reset
error_page-fits c now s date =
    let t = resp_hdr (error_resp c) now in
    let r = s.rooms.allocated in
    (
      omega (
        arith,
        length-resp_hdr (error_resp c) now date (omega (arith, length-resp_msg c.resp.status))
            s.orders.packed,
        length-resp_msg c.resp.status,
      ),
      omega (
        arith,
        length-write_at (write_at c.buf.mem 0 (t ++ 0 ∷ [])) (length t) (resp_msg c.resp.status),
        length-write_at c.buf.mem 0 (t ++ 0 ∷ []),
      ),
    )
