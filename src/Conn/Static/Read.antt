-- ===== src/Conn/Static/Read.antt =====
-- A static response or an error page, as a client of HTTP/1.1 reads it.
use liso.Base.{
  ℕ, ◌%◌, ◌^◌, ◌<◌, ◌≡◌, refl, sym, ap, ◌∙◌, some, List, [], Bool-cases, inl, inr, if◌then◌else◌,
  ◌++◌, arith, length, All,
}
use mathlib.Core.List.{append_assoc, append-nil}
use liso.CString.{Str}
use liso.Request.{Method, m_get, m_head, is_method}
use liso.Response.{resp_ready, resp_msg}
use liso.Response.Build.{Files, Stat, request_path}
use liso.Response.Build.Found.{IsFile, resp_build-IsFile}
use liso.Response.Build.Small.{StdFiles}
use liso.Response.Framing.{read_response, read_head_response, read_reply}
use liso.Response.Framing.Lines.{OneLine}
use liso.Response.Framing.Head.{fields_of, IsPlain, shown}
use liso.Response.Framing.RoundTrip.{resp_hdr-framed, resp_hdr-head}
use liso.Response.Framing.Fields.{built-IsPlain}
use liso.Response.Serial.{resp_hdr}
use liso.Conn.{Conn, Ctx, alive, SuccCb, ErrCb, FatCb, Net}
use liso.Conn.Safe.{Safe}
use liso.Conn.Static.{error_resp, cn_prepare_static_header, cn_serve_static}
use liso.Conn.Static.File.{response_of, static_file-delivered}
use liso.Conn.Static.Page.{page_of}
use liso.Conn.Static.Whole.{IsReady, rounds}

-- The body that a client takes from an error page, and what it leaves of the page: all of it is left
-- behind the answer to a HEAD.
abbrev pub body_taken : Method → Str → Str
body_taken m msg = if is_method m m_head then [] else msg

abbrev pub body_left : Method → Str → Str
body_left m msg = if is_method m m_head then msg else []

-- An error page, with fields that tell no length and hold no end of a line, as a client reads it who knows the
-- method of its request: it gets the status, 500 for one that the server does not know. If the method is not
-- HEAD, the body is the page of the status, and then comes what follows. For a HEAD, which is answered
-- without a body, the page is sent nevertheless and stands in front of what follows.
pub error_page-framed :
    (c : Conn) (now : Str) (rest : List ℕ)
    → OneLine now
    → All IsPlain (fields_of c.resp.hdrs)
    → let m = c.req.method in
      let msg = resp_msg c.resp.status in
      read_reply m (page_of c now ++ rest)
      ≡ some (shown c.resp.status, body_taken m msg, body_left m msg ++ rest)
unfolding error_resp read_reply
error_page-framed c now rest date fields =
    let split = append_assoc (resp_hdr (error_resp c) now) (resp_msg c.resp.status) rest in
    elim (Bool-cases (is_method c.req.method m_head)) [
      | inl head ↦ rw head (
          ap read_head_response split
          ∙ resp_hdr-head (error_resp c) now date fields (resp_msg c.resp.status ++ rest))
      | inr other ↦ rw other (
          ap read_response split
          ∙ resp_hdr-framed (error_resp c) now date fields (resp_msg c.resp.status) rest refl)
    ]

module _ {W : Type 0} (x : Ctx W) (files : Files) (now : Str) (st : Stat) (bytes : List ℕ)
    (file : IsFile files (request_path files x.conn.req) st bytes)
    (whole : length bytes ≡ st.st_size) (get : x.conn.req.method ≡ m_get) (safe : Safe x.conn)
    (ready : x.conn.resp.phase ≡ resp_ready) (date : OneLine now)
    (modified : OneLine (files.date st.st_mtime)) where
  response-framed :
      read_response (resp_hdr (response_of files x.conn) now ++ bytes) ≡ some (200, bytes, [])
  response-framed =
      let (empty, status) = fresh_of in
      let built = resp_build-IsFile files x.conn.resp x.conn.req st bytes file in
      let plain = built-IsPlain files x.conn.resp x.conn.req st bytes file get empty modified in
      let size : (response_of files x.conn).clen ≡ length bytes = built.0 ∙ sym whole in
      ap (λ s. read_response (resp_hdr (response_of files x.conn) now ++ s))
        (sym (append-nil bytes))
      ∙ resp_hdr-framed (response_of files x.conn) now date plain bytes [] size
      ∙ ap (λ code. some (code, bytes, [])) (ap shown (built.2 ∙ status))
    where
      fresh_of : (x.conn.resp.hdrs ≡ []) × (x.conn.resp.status ≡ 200)
      fresh_of = ground (arith, safe.orders.fresh, ready)

  -- A GET of a path that opens and maps as a file, whose size is no multiple of 2^32, so that it is not empty, on a safe connection whose
  -- response is READY, with dates of one line and less than DATESZ bytes and file sizes that are not
  -- negative, over a socket that is ready at each call: preparing succeeds, a later call of
  -- `cn_serve_static` calls the success callback, and a client that reads what was sent by the rules of HTTP/1.1
  -- gets the status 200, exactly the bytes of the file, and nothing behind them.
  pub static_file-read :
      (err_cb : ErrCb W) (nets : ℕ → Net) (succ_cb : SuccCb W) (fat_cb : FatCb W)
      → 0 < st.st_size % 2 ^ 32
      → StdFiles files
      → length now < 64
      → ((i : ℕ) → IsReady (nets i))
      → (z : Ctx W) × (cn_prepare_static_header x files now err_cb ≡ (alive, z))
        × (k : ℕ) × (y : Ctx W) × (cn_serve_static
              (rounds nets now succ_cb fat_cb k z)
              (nets k)
              now
              succ_cb
              fat_cb
            ≡ succ_cb y)
        × (page : List ℕ) × (y.sent ≡ x.sent ++ page)
        × (read_response page ≡ some (200, bytes, []))
  static_file-read err_cb nets succ_cb fat_cb told std short steady =
      let (z, prepared, k, y, _, call, sent) =
        static_file-delivered x files now err_cb st bytes file whole told get safe ready std short
          nets succ_cb fat_cb steady in
      (
        z,
        prepared,
        k,
        y,
        call,
        resp_hdr (response_of files x.conn) now ++ bytes,
        sent,
        response-framed,
      )
