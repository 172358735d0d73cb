-- ===== src/Conn/Static/File.antt =====
-- A request for a file, from `cn_prepare_static_header` to the last byte.
use liso.Base.{
  take_le, ℕ, ◌-◌, ◌%◌, ◌^◌, ◌≤◌, ◌<◌, ◌≡◌, refl, ap, inr, true, some, List, [], ◌∷◌, ◌++◌, arith,
  length, take,
}
use liso.CString.{Str}
use liso.Buffer.{Buf, write_at, buf_reset}
use liso.Buffer.Laws.{length-write_at}
use liso.Request.{m_get}
use liso.Response.{Resp, resp_ready, resp_header}
use liso.Response.Build.Small.{StdFiles}
use liso.Conn.Safe.{Safe}
use liso.Conn.Safe.Writes.{header-fits}
use liso.Response.Build.{Files, Stat, resp_build, request_path}
use liso.Response.Build.Found.{IsFile, resp_build-IsFile}
use liso.Response.Serial.{resp_hdr}
use liso.Conn.{Conn, Ctx, alive, SuccCb, ErrCb, FatCb, Net}
use liso.Conn.Static.{fill_header, cn_prepare_static_header, cn_serve_static}
use liso.Conn.Static.Pending.{pending, Serving}
use liso.Conn.Static.Whole.{IsReady, rounds, serve_static-Delivers}

take-write_text :
    (m t : List ℕ) → length t ≤ length m → take (length t) (write_at m 0 (t ++ 0 ∷ [])) ≡ t
unfolding write_at
take-write_text m [] h = refl
take-write_text [] (x ∷ t) h = elim h [ ]
take-write_text (a ∷ m) (x ∷ t) h = ap (◌∷◌ x) (take-write_text m t (omega arith))

resp_hdr_pos : (r : Resp) (now : Str) → 0 < length (resp_hdr r now)
unfolding resp_hdr
resp_hdr_pos r now = omega arith

-- The response that `resp_build` makes for a connection, in the phase HEADER.
abbrev pub response_of : Files → Conn → Resp
response_of files c = record (resp_build files c.resp c.req).0 { phase = resp_header }

module _ {W : Type 0} (x : Ctx W) (files : Files) (now : Str) (err_cb : ErrCb W) (st : Stat)
    (bytes : List ℕ) (file : IsFile files (request_path files x.conn.req) st bytes)
    (whole : length bytes ≡ st.st_size) (told : 0 < st.st_size % 2 ^ 32)
    (get : x.conn.req.method ≡ m_get) (safe : Safe x.conn) (ready : x.conn.resp.phase ≡ resp_ready)
    (std : StdFiles files) (date : length now < 64) where
  small : st.st_size < 2 ^ 63
  small = std.sizes (request_path files x.conn.req) st file.stats

  fits : length (resp_hdr (response_of files x.conn) now) ≤ 306
  fits = header-fits x.conn files now safe std date ready

  abbrev prepared : Ctx W
  prepared = record x {
    conn = record x.conn {
      resp = response_of files x.conn;
      buf = fill_header x.conn.buf (resp_hdr (response_of files x.conn) now);
    };
  }

  abbrev mapping : Buf
  mapping = record { sz = st.st_size; mem = bytes; data_p = 0; before = 0 }

  built :
      (response_of files x.conn).mmbuf ≡ some mapping
      × ((resp_build files x.conn.resp x.conn.req).1 ≡ true)
  built =
      let b = resp_build-IsFile files x.conn.resp x.conn.req st bytes file in
      let e = b.4 in (b.1, ground arith)

  prepare_lem : cn_prepare_static_header x files now err_cb ≡ (alive, prepared)
  unfolding cn_prepare_static_header
  prepare_lem = let e = built.1 in ground arith

  prepared-Serving : Serving prepared mapping
  unfolding fill_header buf_reset
  prepared-Serving = (
    record {
      here = built.0;
      left = omega arith;
      allocated = omega arith;
      small = omega (arith, small);
    },
    inr (
      refl,
      record {
        left = resp_hdr_pos (response_of files x.conn) now;
        allocated = omega (
          arith,
          length-write_at x.conn.buf.mem 0 (resp_hdr (response_of files x.conn) now ++ 0 ∷ []),
          fits,
          safe.rooms.allocated,
        );
        small = omega (arith, fits);
        with_body = rw get refl;
      },
    ),
  )

  pending_lem : pending resp_header prepared.conn ≡ resp_hdr (response_of files x.conn) now ++ bytes
  unfolding fill_header buf_reset
  pending_lem =
      let t = resp_hdr (response_of files x.conn) now in
      let k : length t - 0 ≡ length t = omega arith in
      let n : st.st_size - 0 ≡ st.st_size = omega arith in
      rw
        (
          k,
          take-write_text x.conn.buf.mem t (omega (arith, fits, safe.rooms.allocated)),
          built.0,
          n,
          take_le st.st_size bytes (omega arith),
        )
        refl

  -- A GET of a path that opens and maps as a file, whose size is no multiple of 2^32, so that it is not
  -- empty, on a safe connection whose response is READY, with dates of less than DATESZ bytes and file sizes that are not negative, over
  -- a socket that is ready at each call: preparing succeeds, and after fewer calls of
  -- `cn_serve_static` than there are bytes, the next one calls the success callback, when the client has
  -- got the header that `resp_hdr` writes and all bytes of the file, and nothing else.
  pub static_file-delivered :
      (nets : ℕ → Net) (succ_cb : SuccCb W) (fat_cb : FatCb W)
      → ((i : ℕ) → IsReady (nets i))
      → let page = resp_hdr (response_of files x.conn) now ++ bytes in
        (z : Ctx W) × (cn_prepare_static_header x files now err_cb ≡ (alive, z))
        × (k : ℕ) × (y : Ctx W) × (k < length page)
        × (cn_serve_static (rounds nets now succ_cb fat_cb k z) (nets k) now succ_cb fat_cb
            ≡ succ_cb y)
        × (y.sent ≡ x.sent ++ page)
  static_file-delivered nets succ_cb fat_cb ready =
      let (k, y, lt, call, sent) =
        serve_static-Delivers nets now succ_cb fat_cb prepared mapping prepared-Serving ready in
      (prepared, prepare_lem, k, y, rw pending_lem at lt, call, rw pending_lem at sent)
