-- ===== src/Lisod/Start/Life.antt =====
-- The life of the server from its start to its end.
use liso.Base.{
  ℕ, suc, ◌<◌, ◌≡◌, refl, ◌⊎◌, true, false, Option, some, List, [], ◌∷◌, ◌++◌, codes, arith,
}
use liso.CString.{Str}
use liso.Cgi.Child.{Table}
use liso.Logging.{newline, log_inited, log_line, log_stop, log_write}
use liso.Daemon.{down_from, goes_on, daemonize, release_lock}
use liso.Pool.{pl_new}
use liso.Lisod.Start.{
  Conf, Globals, Exit, Boot, exits, boots, sigterm, signal_handler, StartSys, read_conf, teardown,
}
use liso.Lisod.Start.Steps.{Opens, teardown-code, EndsWell}

-- The line that the server logs.
abbrev pub log_entry : Str → Str → Str
log_entry date text = date ++ (codes " - " ++ (text ++ newline))

-- The server `g` after a start, with its four descriptors.
pub record Started {F : Type 0} (sys : StartSys F) (t : Table F) (g : Globals)
    (sock ssl_sock lfp log_fd : ℕ) : Type 0 where
  pub plain : Opens sys.plain sock
  pub secure : Opens sys.secure ssl_sock
  pub locked : (content : Str) × (u : Table F) × (daemonize sys.daemon t ≡ goes_on lfp content u)
  pub globals : g ≡ record {
    sock = some sock;
    ssl_sock = some ssl_sock;
    ssl_ctx = true;
    pool = some (pl_new sock ssl_sock);
    lfp = some lfp;
    log = record {
      fd = some log_fd;
      file = log_entry sys.date (codes "-------- Liso Server starts --------");
      overrun = false;
    };
  }

-- The outcomes of a start.
abbrev pub Outcome : {F : Type 0} → List Str → StartSys F → Table F → Boot (Conf × Globals) → Type 0
Outcome argv sys t (exits e) =
    (e.code ≡ 1)
    ⊎ ((e.code ≡ 0)
        × (e.closed_fds ≡ down_from sys.daemon.dtablesize)
        × (pid : ℕ) × (sys.daemon.fork ≡ some (suc pid)))
Outcome argv sys t (boots (conf, g)) =
    (sock : ℕ) × (ssl_sock : ℕ) × (lfp : ℕ) × (log_fd : ℕ) × (read_conf argv ≡ some conf)
    × Started sys t g sock ssl_sock lfp log_fd

module _ {F : Type 0} (sys : StartSys F) (t : Table F) where
  -- The outcomes behind the reading of the arguments.
  abbrev Begun : Boot Globals → Type 0
  Begun (exits e) = EndsWell sys e.code e.closed_fds
  Begun (boots g) =
      (sock : ℕ) × (ssl_sock : ℕ) × (lfp : ℕ) × (log_fd : ℕ) × Started sys t g sock ssl_sock lfp
        log_fd

  -- A server that was started, stopped by SIGTERM: it exits with code 0, it closes its two listening sockets,
  -- the lock file and the log, each once, if they are positive, and the log holds the start line and the stop line.
  pub sigterm-Started :
      (g : Globals) (sock ssl_sock lfp log_fd : ℕ) (date : Str) (waits : List (Option ℕ))
      → Started sys t g sock ssl_sock lfp log_fd
      → 0 < sock
      → 0 < ssl_sock
      → 0 < lfp
      → 0 < log_fd
      → (e : Exit) × (signal_handler g date waits sigterm ≡ exits e)
        × (e.code ≡ 0)
        × (e.closed_fds ≡ sock ∷ ssl_sock ∷ lfp ∷ log_fd ∷ [])
        × (e.log.file
            ≡ log_entry sys.date (codes "-------- Liso Server starts --------")
              ++ log_entry date (codes "-------- Liso Server stops --------"))
  unfolding signal_handler teardown release_lock log_inited log_stop log_line log_write
  sigterm-Started g sock ssl_sock lfp log_fd date waits v a b c d = (
    teardown g date 0,
    refl,
    teardown-code g date 0,
    rw v.globals (ground arith),
    rw v.globals (ground arith),
  )
