-- ===== src/Request/Pack.antt =====
-- `req_method` and `req_pack`.
use liso.Base.{ℕ, List, [], ◌∷◌, ◌++◌, codes, length}
use liso.CString.{Str, cstr}
use liso.CString.Decimal.{print_int}
use liso.Buffer.{Buf, write_at}
use liso.Header.{Hdr}
use liso.Request.{Req, Method, m_get, m_head, m_post, m_other}

abbrev pub crlf : Str
crlf = 13 ∷ 10 ∷ []

unfoldable pub req_method : Method → Str
req_method m_get = codes "GET"
req_method m_head = codes "HEAD"
req_method m_post = codes "POST"
req_method m_other = codes "OTHER"

unfoldable pub pack_headers : List Hdr → Str
pack_headers [] = []
pack_headers (h ∷ hs) = h.key ++ (codes ": " ++ (h.val ++ (crlf ++ pack_headers hs)))

unfoldable pub pack_text : Req → Str
pack_text r =
    req_method r.method
    ++ (32
        ∷ (cstr r.uri
            ++ (32
                ∷ (r.version
                    ++ (crlf
                        ++ (codes "Host: "
                            ++ (r.host
                                ++ (crlf
                                    ++ (codes "Content-Length: "
                                        ++ (print_int r.clen
                                            ++ (crlf ++ (pack_headers r.hdrs ++ crlf))))))))))))

-- The packed buffer and the size returned. As in the source, the text is taken to fit.
unfoldable pub req_pack : Req → Buf → Buf × ℕ
req_pack r b =
    let text = pack_text r in
    (
      record b { mem = write_at b.mem 0 (text ++ 0 ∷ []); sz = length text; data_p = 0 },
      length text,
    )
