-- ===== src/Response/Serial.antt =====
-- `resp_hdr`. The date is what `strftime` gives for the time of the call.
use liso.Base.{◌++◌, codes, if◌then◌else◌}
use liso.CString.{Str}
use liso.CString.Decimal.{print_nat}
use liso.Request.Pack.{crlf, pack_headers}
use liso.Response.{Resp, resp_title}

-- The text that is written; the size that `resp_hdr` returns is its length.
unfoldable pub resp_hdr : Resp → Str → Str
resp_hdr r date =
    codes "HTTP/1.1 "
    ++ (resp_title r.status
        ++ (crlf
            ++ (codes "Date: "
                ++ (date
                    ++ (crlf
                        ++ (codes "Server: Liso/1.0"
                            ++ (crlf
                                ++ (codes "Connection: "
                                    ++ ((if r.alive then codes "keep-alive" else codes "close")
                                        ++ (crlf
                                            ++ (codes "Content-Length: "
                                                ++ (print_nat r.clen
                                                    ++ (crlf
                                                        ++ (pack_headers r.hdrs
                                                            ++ crlf))))))))))))))
