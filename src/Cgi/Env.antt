-- ===== src/Cgi/Env.antt =====
-- The environment that a CGI child is started with: `convert_key` and `envp_new`.
pub mod Bounds
use liso.Base.{
  ℕ, suc, ◌+◌, ◌-◌, ◌&&◌, Option, none, some, List, [], ◌∷◌, ◌++◌, ◌==◌, leb, ltb, codes,
  if◌then◌else◌, length, take, drop, pos, ℤ, map,
}
use liso.CString.{Str, cstr, strcaseeq}
use liso.CString.Decimal.{print_nat, print_int}
use liso.Header.{Hdr, hdr_keysz}
use liso.Request.{Req, Scheme, http, https}
use liso.Request.Pack.{req_method}

-- `ENVP_CNT` and `ENVSZ`
abbrev pub envp_cnt : ℕ
envp_cnt = 64

abbrev pub envsz : ℕ
envsz = 2048

unfoldable pub convert_char : ℕ → ℕ
convert_char c = if leb b'a' c && leb c b'z' then c - b'a' + b'A' else if c == b'-' then b'_' else c

unfoldable pub convert_key : Str → Str
convert_key key = codes "HTTP_" ++ map convert_char (take hdr_keysz key)

-- `add_entry`: `snprintf` cuts the text to its buffer.
unfoldable pub entry : Str → Str → Str
entry name value = take (envsz - 1) (name ++ (codes "=" ++ value))

unfoldable pub params_entry : Req → Option ℕ → List Str
params_entry r none = []
params_entry r (some k) = entry (codes "QUERY_STRING") (cstr (drop k r.uri)) ∷ []

unfoldable pub clen_entry : ℤ → List Str
clen_entry (pos (suc n)) = entry (codes "CONTENT_LENGTH") (print_int (pos (suc n))) ∷ []
clen_entry _ = []

unfoldable pub https_entry : Scheme → List Str
https_entry http = []
https_entry https = entry (codes "HTTPS") (codes "on") ∷ []

unfoldable pub hdr_entry : Hdr → Str
hdr_entry h =
    if strcaseeq h.key (codes "Content-Type")
    then entry (codes "CONTENT_TYPE") h.val
    else entry (convert_key h.key) h.val

-- The loop over the headers; `cnt` entries stand already.
unfoldable pub hdr_entries : List Hdr → ℕ → List Str
hdr_entries [] cnt = []
hdr_entries (h ∷ hs) cnt =
    let more = hdr_entry h ∷ hdr_entries hs (cnt + 1) in if ltb cnt envp_cnt then more else []

-- From HTTP_CONNECTION to SCRIPT_NAME.
unfoldable pub server_entries : Req → List Str
server_entries r =
    entry (codes "HTTP_CONNECTION") (if r.alive then codes "Keep-alive" else codes "Close")
    ∷ entry (codes "REMOTE_ADDR") r.addr
    ∷ entry (codes "SERVER_PORT") (print_nat r.port)
    ∷ entry (codes "SERVER_NAME") (codes "Liso/1.0")
    ∷ entry (codes "SERVER_SOFTWARE") (codes "Liso/1.0")
    ∷ entry (codes "SERVER_PROTOCOL") (codes "HTTP/1.1")
    ∷ entry (codes "HTTP_HOST") r.host
    ∷ entry (codes "SCRIPT_NAME") (codes "/cgi")
    ∷ []

unfoldable pub fixed_entries : Req → List Str
fixed_entries r =
    entry (codes "GATEWAY_INTERFACE") (codes "CGI/1.1")
    ∷ entry (codes "PATH_INFO") (cstr (drop 4 r.uri))
    ∷ entry (codes "REQUEST_URI") (cstr r.uri)
    ∷ entry (codes "REQUEST_METHOD") (req_method r.method)
    ∷ (params_entry r r.params ++ (clen_entry r.clen ++ (server_entries r ++ https_entry r.scheme)))

-- The entries in front of the terminating null pointer.
unfoldable pub envp_new : Req → List Str
envp_new r = let fixed = fixed_entries r in fixed ++ hdr_entries r.hdrs (length fixed)
