-- ===== src/Response.antt =====
-- response.h and response.c: the response, its static texts, and its reset.
pub mod Build
pub mod Serial
pub mod Bounds
pub mod Framing
use liso.Base.{
  ℕ, zero, suc, ◌+◌, Bool, true, false, Option, none, some, List, [], ◌∷◌, ◌++◌, ◌==◌, codes,
  if◌then◌else◌,
}
use liso.CString.{Str}
use liso.Buffer.{Buf}
use liso.Header.{Hdr, hdr_reset}
use liso.Request.Pack.{crlf}

pub data RespPhase : Type 0 where
  resp_ready resp_header resp_body resp_abort resp_disabled : RespPhase

pub record Resp : Type 0 where
  pub phase : RespPhase
  pub status : ℕ
  pub clen : ℕ
  pub alive : Bool
  pub hdrs : List Hdr
  pub mmbuf : Option Buf

abbrev pub resp_code : RespPhase → ℕ
resp_code resp_ready = 1
resp_code resp_header = 2
resp_code resp_body = 3
resp_code resp_abort = 4
resp_code resp_disabled = 5

abbrev pub resp_in : RespPhase → RespPhase → Bool
resp_in a b = resp_code a == resp_code b

unfoldable pub resp_reset : Resp → Resp
resp_reset r = record r {
  phase = resp_ready;
  status = 200;
  clen = 0;
  alive = true;
  mmbuf = none;
  hdrs = hdr_reset r.hdrs;
}

-- `raw` is what `malloc` returns for the struct.
unfoldable pub resp_new : Resp → Resp
resp_new raw = resp_reset (record raw { hdrs = []; mmbuf = none })

unfoldable pub resp_title : ℕ → Str
resp_title code =
    if code == 200
    then codes "200 OK"
    else if code == 400
    then codes "400 Bad Request"
    else if code == 404
    then codes "404 Not Found"
    else if code == 411
    then codes "411 Length Required"
    else if code == 500
    then codes "500 Internal Server Error"
    else if code == 501
    then codes "501 Not Implemented"
    else if code == 503
    then codes "503 Service Unavailable"
    else codes "500 Internal Server Error"

-- A page of the source, from its title line and its heading line.
unfoldable pub page : Str → Str → Str
page title heading =
    codes "<html>"
    ++ (crlf
        ++ (title
            ++ (crlf
                ++ (codes "<body bgcolor=\"white\">"
                    ++ (crlf
                        ++ (heading
                            ++ (crlf
                                ++ (codes "</body>" ++ (crlf ++ (codes "</html>" ++ crlf))))))))))

unfoldable pub resp_msg : ℕ → Str
resp_msg code =
    if code == 400
    then page (codes "<head><title>400 Bad Request</title></head>")
        (codes "<center><h1>400 Bad Request</h1></center>")
    else if code == 404
    then page (codes "<head><title>404 Not Found</title></head>")
        (codes "<center><h1>404 Not Found</h1></center>")
    else if code == 411
    then page (codes "<head><title>411 Length Required</title></head>")
        (codes "<center><h1>411 Length Required</h1></center>")
    else if code == 501
    then page (codes "<head><title>501 Not Implemented</title>title></head>head>")
        (codes "<center><h1>501 Not Implemented</h1>h1></center>center>")
    else if code == 503
    then page (codes "<head><title>503 Service Temporarily Unavailable</title>title></head>head>")
        (codes "<center><h1>503 Service Temporarily Unavailable</h1>h1></center>center>")
    else page (codes "<head><title>500 Internal Server Error</title></head>")
        (codes "<center><h1>500 Internal Server Error</h1></center>")
