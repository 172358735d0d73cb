-- ===== src/Lisod/Start.antt =====
-- The start and the end of the server in lisod.c: `main` up to its loop, `teardown` and `signal_handler`.
pub mod Steps
pub mod Life
use liso.Base.{
  ℕ, zero, suc, Bool, true, false, not, Option, none, some, List, [], ◌∷◌, ◌++◌, codes,
  if◌then◌else◌, ℤ,
}
use liso.CString.{Str, atoi}
use liso.Cgi.Child.{Table}
use liso.Logging.{Log, log_new, positive, log_inited, log_init, log_line, log_errln, log_stop}
use liso.Daemon.{DaemonSys, Daemonized, leaves, goes_on, daemonize, release_lock}
use liso.Pool.{Pool, pl_new}

-- `conf_t`
pub record Conf : Type 0 where
  pub http_port : ℤ
  pub https_port : ℤ
  pub log : Str
  pub lock : Str
  pub www : Str
  pub cgi : Str
  pub prv : Str
  pub crt : Str

-- The static variables, and those of daemon.c and logging.c. `ssl_ctx` tells whether there is a context.
pub record Globals : Type 0 where
  pub sock : Option ℕ
  pub ssl_sock : Option ℕ
  pub ssl_ctx : Bool
  pub pool : Option Pool
  pub lfp : Option ℕ
  pub log : Log

abbrev pub globals_new : Globals
globals_new = record {
  sock = none;
  ssl_sock = none;
  ssl_ctx = false;
  pool = none;
  lfp = none;
  log = log_new;
}

-- The end of the process: its code, the descriptors that `close` was called on before, and the log.
pub record Exit : Type 0 where
  pub code : ℕ
  pub closed_fds : List ℕ
  pub log : Log

-- A descriptor that `teardown` closes if it is positive.
abbrev pub close_positive : Option ℕ → List ℕ
close_positive none = []
close_positive (some fd) = if positive (some fd) then fd ∷ [] else []

abbrev pub stopped : ℕ → List ℕ → Log × List ℕ → Exit
stopped rc fds (log, closed) = record { code = rc; closed_fds = fds ++ closed; log = log }

-- `date` is the text of the time of the call. The context and the pool are only freed.
unfoldable pub teardown : Globals → Str → ℕ → Exit
teardown g date rc =
    let fds = close_positive g.sock ++ (close_positive g.ssl_sock ++ release_lock g.lfp) in
    if log_inited g.log
    then stopped rc fds
        (log_stop (log_line g.log date (codes "-------- Liso Server stops --------")))
    else record { code = rc; closed_fds = fds; log = g.log }

-- An operation that may end the process.
pub data Boot (A : Type 0) : Type 0 where
  exits : Exit → Boot A
  boots : A → Boot A

abbrev pub bind_boot : {A B : Type 0} → Boot A → (A → Boot B) → Boot B
bind_boot (exits e) f = exits e
bind_boot (boots a) f = f a

pub data Signal : Type 0 where
  sigchld sighup sigterm other : Signal

-- The children that `waitpid` gives until it gives none: `waits` are its answers.
abbrev pub reap : List (Option ℕ) → List ℕ
reap [] = []
reap (none ∷ waits) = []
reap (some zero ∷ waits) = []
reap (some (suc pid) ∷ waits) = suc pid ∷ reap waits

-- The end of the process, if the signal ends it, and the children that are reaped.
unfoldable pub signal_handler : Globals → Str → List (Option ℕ) → Signal → Boot (List ℕ)
signal_handler g date waits sigchld = boots (reap waits)
signal_handler g date waits sighup = boots []
signal_handler g date waits sigterm = exits (teardown g date 0)
signal_handler g date waits other = boots []

-- The answers of the SSL library. A private key that fails its check is only reported.
pub record SslSys : Type 0 where
  pub ctx_new : Bool
  pub use_key : Bool
  pub use_certificate : Bool
  pub check_key : Bool

-- Whether there is a context; the local variable hides the static one from `teardown`.
unfoldable pub new_ssl_ctx : Globals → Str → SslSys → Boot Bool
new_ssl_ctx g date sys =
    if not sys.ctx_new
    then exits (teardown g date 1)
    else if not sys.use_key
    then exits (teardown g date 1)
    else if not sys.use_certificate
    then exits (teardown g date 1)
    else boots true

pub record ListenSys : Type 0 where
  pub socket : Option ℕ
  pub bind : Bool
  pub listen : Bool

-- The local `sock` hides the static one from `teardown`.
unfoldable pub open_listener_socket : Globals → Str → ListenSys → Boot ℕ
open_listener_socket g date sys = elim sys.socket [
  | none ↦
      exits (
        teardown (record g { log = log_errln g.log date (codes "Failed creating socket.") }) date 1)
  | some sock ↦
      if not sys.bind
      then exits (teardown g date 1)
      else if not sys.listen
      then exits (teardown g date 1)
      else boots sock
]

-- What `main` reads of its arguments; `none` if their number is wrong.
unfoldable pub read_conf : List Str → Option Conf
read_conf (name ∷ http_port ∷ https_port ∷ log ∷ lock ∷ www ∷ cgi ∷ prv ∷ crt ∷ []) = some (record {
  http_port = atoi http_port;
  https_port = atoi https_port;
  log = log;
  lock = lock;
  www = www;
  cgi = cgi;
  prv = prv;
  crt = crt;
})
read_conf _ = none

-- The answers of the system to a start.
pub record StartSys (F : Type 0) : Type 0 where
  pub plain : ListenSys
  pub secure : ListenSys
  pub daemon : DaemonSys F
  pub ssl : SslSys
  pub log_open : Option ℕ
  pub log_unlocked : Bool
  pub date : Str

module _ {F : Type 0} where
  -- `main` behind `daemonize`.
  unfoldable pub daemonized : StartSys F → Globals → Daemonized F → Boot Globals
  daemonized sys g (leaves code fds) = exits (record { code = code; closed_fds = fds; log = g.log })
  daemonized sys g (goes_on lfp content t) =
      let g1 = record g { lfp = some lfp } in
      bind_boot (new_ssl_ctx g1 sys.date sys.ssl) λ ctx.
        let (log, ok) = log_init g1.log sys.log_open sys.log_unlocked in
        let g2 = record g1 { ssl_ctx = ctx; log = log } in
        if ok
        then boots (record g2 {
          log = log_line log sys.date (codes "-------- Liso Server starts --------");
        })
        else exits (teardown g2 sys.date 1)

  unfoldable pub start_server : StartSys F → Table F → Boot Globals
  start_server sys t = bind_boot (open_listener_socket globals_new sys.date sys.plain) λ sock.
      let g1 = record globals_new { sock = some sock } in
      bind_boot (open_listener_socket g1 sys.date sys.secure) λ ssl_sock.
        let g2 = record g1 { ssl_sock = some ssl_sock; pool = some (pl_new sock ssl_sock) } in
        daemonized sys g2 (daemonize sys.daemon t)

  -- Without its eight arguments, `main` returns a failure.
  unfoldable pub configured : StartSys F → Table F → Option Conf → Boot (Conf × Globals)
  configured sys t none = exits (record { code = 1; closed_fds = []; log = log_new })
  configured sys t (some conf) = bind_boot (start_server sys t) λ g. boots (conf, g)

  -- `main` up to its loop.
  unfoldable pub main_start : List Str → StartSys F → Table F → Boot (Conf × Globals)
  main_start argv sys t = configured sys t (read_conf argv)
