-- ===== src/Tests/Data.antt =====
-- The inputs that the tests share: a connection, a pool, a system that has nothing to say.
use liso.Base.{
  length, take, ap, refl, ◌≡◌, ℕ, zero, suc, true, false, none, some, List, [], ◌∷◌, codes, pos,
  negsuc,
}
use liso.Buffer.{Buf, Alloc}
use liso.Request.{Req, m_get, http, req_start, req_static}
use liso.Response.{Resp, resp_ready}
use liso.Response.Build.{Files, Stat}
use liso.Cgi.{Cgi, Spawn, cgi_idle, buf_recv}
use liso.Conn.{Conn, Ctx, Net}
use liso.Conn.Recv.{again}
use liso.Pool.{Pool}
use liso.Lisod.{Incoming}
use liso.Lisod.Serve.{Io}
use liso.Lisod.Loop.{Server}

abbrev pub zeros : ℕ → List ℕ
zeros zero = []
zeros (suc n) = 0 ∷ zeros n

abbrev pub fresh : Alloc
fresh = record { bytes = zeros 32; front = 0 }

abbrev pub no_buf : Buf
no_buf = record { sz = 0; mem = zeros 32; data_p = 0; before = 0 }

abbrev pub a_req : Req
a_req = record {
  addr = codes "127.0.0.1";
  port = 80;
  method = m_get;
  version = codes "HTTP/1.1";
  scheme = http;
  uri = codes "/a.html";
  params = none;
  host = [];
  overrun = false;
  clen = negsuc 0;
  alive = true;
  hdrs = [];
  rsize = pos 0;
  phase = req_start;
  last_buf = no_buf;
  type_ = req_static;
}

abbrev pub a_resp : Resp
a_resp = record {
  phase = resp_ready;
  status = 200;
  clen = 0;
  alive = true;
  hdrs = [];
  mmbuf = none;
}

abbrev pub a_cgi : Cgi
a_cgi = record {
  phase = cgi_idle;
  pid = none;
  srv_out = none;
  srv_in = none;
  srv_err = none;
  cgi_in = none;
  cgi_out = none;
  cgi_err = none;
  buf_phase = buf_recv;
}

abbrev pub conn_at : ℕ → ℕ → Conn
conn_at fd idx = record {
  fd = fd;
  idx = idx;
  buf = no_buf;
  req = a_req;
  resp = a_resp;
  cgi = a_cgi;
  ssl = false;
  ssl_accepted = false;
}

abbrev pub pool_of : List Conn → Pool
pool_of conns = record {
  conns = conns;
  min_max_fd = 4;
  max_fd = 4;
  read_set = λ x. false;
  write_set = λ x. false;
  read_ready = λ x. false;
  write_ready = λ x. false;
}

abbrev pub server_of : List Conn → Server
server_of conns = record { pool = pool_of conns; closed_fds = []; sent = []; piped = [] }

abbrev pub ctx_of : Conn → Pool → Ctx Pool
ctx_of c p = record { conn = c; world = p; closed_fds = []; sent = []; piped = [] }

abbrev pub no_net : Net
no_net = record {
  ssl_read = λ n. none;
  recv = λ n. none;
  ssl_write = λ bytes. none;
  send = λ bytes. none;
}

-- One page of five bytes, whatever the path.
abbrev pub a_stat : Stat
a_stat = record { st_size = 5; st_mtime = 1; is_dir = false }

abbrev pub one_page : Files
one_page = record {
  stat = λ path. some a_stat;
  can_open = λ path. true;
  mmap = λ path n. some (codes "hello");
  date = λ t. codes "Thu";
  www = codes "www";
}

abbrev pub no_pages : Files
no_pages = record one_page { stat = λ path. none }

abbrev pub no_spawn : Spawn
no_spawn = record { stdin_pipe = none; stdout_pipe = none; stderr_pipe = none; fork = none }

-- The client closes: every receive fails.
abbrev pub hang_up : Io
hang_up = record {
  recv_net = no_net;
  dynamic_net = no_net;
  static_net = no_net;
  ssl_accept = again;
  alloc = fresh;
  reset_alloc = fresh;
  files = one_page;
  now = codes "Thu";
  spawn = no_spawn;
  cgi_write = λ i bytes. none;
  cgi_read = none;
}

abbrev pub client : ℕ → Incoming
client fd = record {
  accept = some fd;
  addr = codes "10.0.0.1";
  raw = record { req = a_req; resp = a_resp; cgi = a_cgi; last_alloc = fresh; alloc = fresh };
  ssl_new = true;
  ssl_set_fd = true;
}

-- The same, for a length at which it is not computed.
unfoldable pub blank : ℕ → List ℕ
blank zero = []
blank (suc n) = 0 ∷ blank n

pub length-blank : (n : ℕ) → length (blank n) ≡ n
unfolding blank
length-blank zero = refl
length-blank (suc n) = ap suc (length-blank n)

abbrev pub full_alloc : Alloc
full_alloc = record { bytes = blank 8192; front = 0 }

abbrev pub empty_buf : Buf
empty_buf = record { sz = 0; mem = blank 8192; data_p = 0; before = 0 }

-- A connection with buffers of their full size.
abbrev pub full_conn : Conn
full_conn = record (conn_at 5 0) { buf = empty_buf; req = record a_req { last_buf = empty_buf } }

-- A client that sends the start of a request line.
abbrev pub talking : Net
talking = record no_net {
  ssl_read = λ n. some (take n (codes "GET / "));
  recv = λ n. some (take n (codes "GET / "));
}
