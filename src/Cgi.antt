-- ===== src/Cgi.antt =====
-- cgi.h and cgi.c: the state of a CGI exchange, its descriptors and its start. A descriptor is
-- `none` where the source has -1; an operation that closes descriptors returns them, in order.
pub mod Env
pub mod Child
pub mod Pipes
use liso.Base.{
  ℕ, zero, suc, ◌+◌, Bool, true, false, ◌||◌, Option, none, some, List, [], ◌∷◌, ◌++◌, ◌==◌, leb,
  if◌then◌else◌,
}

-- `FD_SETSIZE`
abbrev pub fd_setsize : ℕ
fd_setsize = 1024

pub data CgiPhase : Type 0 where
  cgi_idle cgi_ready cgi_srv_to_cgi cgi_cgi_to_srv cgi_done cgi_abort cgi_disabled : CgiPhase

pub data BufPhase : Type 0 where
  buf_recv buf_send : BufPhase

pub record Cgi : Type 0 where
  pub phase : CgiPhase
  pub pid : Option ℕ
  pub srv_out : Option ℕ
  pub srv_in : Option ℕ
  pub srv_err : Option ℕ
  pub cgi_in : Option ℕ
  pub cgi_out : Option ℕ
  pub cgi_err : Option ℕ
  pub buf_phase : BufPhase

abbrev pub cgi_code : CgiPhase → ℕ
cgi_code cgi_idle = 1
cgi_code cgi_ready = 2
cgi_code cgi_srv_to_cgi = 3
cgi_code cgi_cgi_to_srv = 4
cgi_code cgi_done = 5
cgi_code cgi_abort = 6
cgi_code cgi_disabled = 7

abbrev pub cgi_at : CgiPhase → CgiPhase → Bool
cgi_at a b = cgi_code a == cgi_code b

abbrev pub is_sending : BufPhase → Bool
is_sending buf_send = true
is_sending buf_recv = false

-- What `close_pipe` closes. It leaves -1 behind.
abbrev pub close_pipe : Option ℕ → List ℕ
close_pipe none = []
close_pipe (some fd) = fd ∷ []

unfoldable pub cgi_reset : Cgi → Cgi × List ℕ
cgi_reset c = (
  record c {
    phase = cgi_idle;
    srv_out = none;
    srv_in = none;
    cgi_in = none;
    cgi_out = none;
    srv_err = none;
    cgi_err = none;
    buf_phase = buf_recv;
  },
  close_pipe c.srv_out
      ++ (close_pipe c.srv_in
          ++ (close_pipe c.cgi_in
              ++ (close_pipe c.cgi_out ++ (close_pipe c.srv_err ++ close_pipe c.cgi_err)))),
)

-- `raw` is what `malloc` returns for the struct.
unfoldable pub cgi_new : Cgi → Cgi
cgi_new raw =
    (cgi_reset (record raw {
      srv_in = none;
      srv_out = none;
      cgi_in = none;
      cgi_out = none;
      srv_err = none;
      cgi_err = none;
    })).0

-- What `pipe` fills in: the end to read and the end to write, or `none` if it fails.
abbrev pub Pipe : Type 0
Pipe = Option (ℕ × ℕ)

-- The answers of the system to one start: three pipes, and the child's pid from `fork`.
pub record Spawn : Type 0 where
  pub stdin_pipe : Pipe
  pub stdout_pipe : Pipe
  pub stderr_pipe : Pipe
  pub fork : Option ℕ

-- The parent's part behind `fork`. Making the descriptors non-blocking leaves the state alone.
unfoldable pub run_parent : Cgi → Option ℕ → Cgi × Bool × List ℕ
run_parent c none = (record c { pid = none }, false, [])
run_parent c (some pid) = (
  record c {
    pid = some pid;
    cgi_in = none;
    cgi_out = none;
    cgi_err = none;
    phase = cgi_srv_to_cgi;
  },
  true,
  close_pipe c.cgi_in ++ (close_pipe c.cgi_out ++ close_pipe c.cgi_err),
)

-- With the pipes made: `i`, `o` and `e` are the pairs of stdin, stdout and stderr.
abbrev pub with_pipes : Cgi → ℕ × ℕ → ℕ × ℕ → ℕ × ℕ → Cgi
with_pipes c i o e = record c {
  cgi_in = some i.0;
  srv_out = some i.1;
  cgi_out = some o.1;
  srv_in = some o.0;
  cgi_err = some e.1;
  srv_err = some e.0;
}

-- Behind the three calls of `pipe`: `i`, `o` and `e` are the pairs of stdin, stdout and stderr.
unfoldable pub use_pipes : Cgi → ℕ × ℕ → ℕ × ℕ → ℕ × ℕ → Option ℕ → Cgi × Bool × List ℕ
use_pipes c i o e fork =
    let c' = with_pipes c i o e in
    if leb fd_setsize o.0 || leb fd_setsize e.0 then (c', false, []) else run_parent c' fork

unfoldable pub make_pipes : Cgi → Pipe → Pipe → Pipe → Option ℕ → Cgi × Bool × List ℕ
make_pipes c none o e fork = (c, false, [])
make_pipes c (some i) none e fork = (c, false, [])
make_pipes c (some i) (some o) none fork = (c, false, [])
make_pipes c (some i) (some o) (some e) fork = use_pipes c i o e fork

-- The state after, whether it succeeded, and the descriptors closed.
unfoldable pub cgi_init : Cgi → Spawn → Cgi × Bool × List ℕ
cgi_init c s = make_pipes c s.stdin_pipe s.stdout_pipe s.stderr_pipe s.fork
