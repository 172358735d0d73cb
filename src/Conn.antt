-- ===== src/Conn.antt =====
-- conn.h, and the making of a connection in conn.c. The other functions of conn.c are children.
pub mod Recv
pub mod Static
pub mod Dynamic
pub mod Safe
use liso.Base.{
  ℕ, zero, suc, ◌+◌, ◌^◌, Bool, true, false, ◌||◌, Option, none, some, List, [], ◌∷◌, ◌++◌, ◌==◌,
  leb, if◌then◌else◌,
}
use liso.Buffer.{Buf, Alloc, buf_new}
use liso.Request.{Req, req_new, https}
use liso.Response.{Resp, resp_new}
use liso.Cgi.{Cgi, cgi_new}

-- `ssl` tells whether the pointer is not null; the SSL object itself is OpenSSL's.
pub record Conn : Type 0 where
  pub fd : ℕ
  pub idx : ℕ
  pub buf : Buf
  pub req : Req
  pub resp : Resp
  pub cgi : Cgi
  pub ssl : Bool
  pub ssl_accepted : Bool

-- 1 and -1
pub data Ret : Type 0 where
  alive closed : Ret

-- What a function on a connection can change: the connection, the state `W` of the server that
-- its callbacks reach, and the world outside: descriptors closed, bytes sent to the client, bytes
-- written to the CGI, each in order.
pub record Ctx (W : Type 0) : Type 0 where
  pub conn : Conn
  pub world : W
  pub closed_fds : List ℕ
  pub sent : List ℕ
  pub piped : List ℕ

abbrev pub SuccCb : Type 0 → Type 0
SuccCb W = Ctx W → Ret × Ctx W

abbrev pub ErrCb : Type 0 → Type 0
ErrCb W = Ctx W → ℕ → Ret × Ctx W

abbrev pub FatCb : Type 0 → Type 0
FatCb W = Ctx W → Ret × Ctx W

-- The answers of the socket calls: `none` is a negative result. A receive is asked for a number of
-- bytes, and gives those that came; a send is given bytes, and gives how many it took.
pub record Net : Type 0 where
  pub ssl_read : ℕ → Option (List ℕ)
  pub recv : ℕ → Option (List ℕ)
  pub ssl_write : List ℕ → Option ℕ
  pub send : List ℕ → Option ℕ

unfoldable pub smart_recv : Net → Bool → ℕ → Option (List ℕ)
smart_recv net ssl n = if ssl then net.ssl_read n else net.recv n

unfoldable pub smart_send : Net → Bool → List ℕ → Option ℕ
smart_send net ssl bytes = if ssl then net.ssl_write bytes else net.send bytes

-- What the allocations of `cn_new` hold before they are written.
pub record Raw : Type 0 where
  pub req : Req
  pub resp : Resp
  pub cgi : Cgi
  pub last_alloc : Alloc
  pub alloc : Alloc

unfoldable pub cn_new : Raw → ℕ → ℕ → Conn
cn_new raw fd idx = record {
  fd = fd;
  idx = idx;
  req = req_new raw.req raw.last_alloc;
  resp = resp_new raw.resp;
  cgi = cgi_new raw.cgi;
  buf = buf_new raw.alloc;
  ssl = false;
  ssl_accepted = false;
}

-- `made` and `attached`: whether `SSL_new` and `SSL_set_fd` succeed.
unfoldable pub cn_init_ssl : Conn → Bool → Bool → Conn × Bool
cn_init_ssl c made attached =
    if made
    then if attached
      then (record c { ssl = true; req = record c.req { scheme = https } }, true)
      else (record c { ssl = false }, false)
    else (record c { ssl = false }, false)

-- A size read as an `ssize_t`: zero or less.
abbrev pub nonpositive : ℕ → Bool
nonpositive n = n == 0 || leb (2 ^ 63) n
