-- ===== src/Tests/Start.antt =====
-- The theorems on the start of the server, on the log and on the child of a CGI exchange, at concrete inputs.
use liso.Base.{
  if◌then◌else◌, ltb, ◌+◌, ℕ, zero, suc, ◌<◌, ◌≡◌, refl, true, false, none, some, List, [], ◌∷◌,
  ◌++◌, arith, codes,
}
use liso.CString.Decimal.{print_nat}
use liso.Cgi.{Spawn, cgi_init, make_pipes, use_pipes, run_parent, with_pipes}
use liso.Cgi.Env.{envp_new}
use liso.Cgi.Child.{Table, child_table, run_child, executes, point}
use liso.Cgi.Child.Wiring.{Apart, cgi_init-run_child, child_table_inherits}
use liso.Logging.{Log, log_new}
use liso.Logging.Lines.{Entry, line, cgi}
use liso.Daemon.{forked, take_lock, DaemonSys, goes_on, daemonize, overwrite}
use liso.Daemon.Std.{unstubbed, daemonize-goes_on}
use liso.Pool.{pl_new}
use liso.Lisod.Start.{ListenSys, StartSys, Globals, Exit, exits, signal_handler, sigterm}
use liso.Lisod.Start.Life.{Started, log_entry, sigterm-Started}
use liso.Tests.Data.{a_cgi, a_req}

-- Each descriptor refers to its own number, up to 20.
abbrev open_files : Table ℕ
open_files = λ fd. if ltb fd 20 then some fd else none

abbrev spawn : Spawn
spawn = record {
  stdin_pipe = some (10, 11);
  stdout_pipe = some (12, 13);
  stderr_pipe = some (14, 15);
  fork = some 77;
}

-- The server before it makes the pipes.
abbrev before_pipes : Table ℕ
before_pipes = λ fd. if ltb fd 10 then some fd else none

pipes-Apart : Apart before_pipes (10, 11) (12, 13) (14, 15)
pipes-Apart = record {
  std = λ fd h. (fd, ground (arith, h));
  in_free = (refl, refl);
  out_free = (refl, refl);
  err_free = (refl, refl);
  in_apart = (λ e. omega arith, λ e. omega arith, λ e. omega arith);
  out_apart = (λ e. omega arith, λ e. omega arith, λ e. omega arith);
  err_apart = (λ e. omega arith, λ e. omega arith, λ e. omega arith);
}

cgi_init-run_child_example :
    (u : Table ℕ) × (run_child
        (with_pipes a_cgi (10, 11) (12, 13) (14, 15))
        (codes "cgi")
        a_req
        true
        open_files
      ≡ executes (codes "cgi") (codes "cgi" ∷ []) (envp_new a_req) u)
    × (u 0 ≡ some 10)
    × (u 1 ≡ some 13)
    × (u 2 ≡ some 15)
    × ((cgi_init a_cgi spawn).0.srv_out ≡ some 11)
    × ((cgi_init a_cgi spawn).0.srv_in ≡ some 12)
    × ((cgi_init a_cgi spawn).0.srv_err ≡ some 14)
    × (u 11 ≡ none)
    × (u 12 ≡ none)
    × (u 14 ≡ none)
unfolding cgi_init make_pipes use_pipes run_parent
cgi_init-run_child_example =
    cgi_init-run_child a_cgi spawn (codes "cgi") a_req before_pipes open_files (10, 11) (12, 13)
      (14, 15) 10 13 15 refl refl refl refl pipes-Apart refl refl refl

child_table_inherits_example :
    child_table (with_pipes a_cgi (10, 11) (12, 13) (14, 15)) open_files 5 ≡ some 5
child_table_inherits_example =
    child_table_inherits a_cgi (10, 11) (12, 13) (14, 15) open_files 5 (omega arith)
      (λ e. omega arith) (λ e. omega arith) (λ e. omega arith)

abbrev a_log : Log
a_log = record log_new { fd = some 6; file = codes "x" }

abbrev calls : List Entry
calls = line (codes "d") (codes "a") ∷ cgi (codes "d") (codes "b") (some (codes "c")) ∷ []

-- The standard descriptors and the two listeners are open, and the lock file opens behind them.
abbrev std_files : Table ℕ
std_files = λ fd. if ltb fd 5 then some fd else none

abbrev a_daemon : DaemonSys ℕ
a_daemon = record {
  fork = some 0;
  dtablesize = 1024;
  getpid = 42;
  lock_file = 100;
  lock_open = some 5;
  lock_content = codes "12345";
  lockf = true;
  null = 101;
  null_in = some 0;
  null_out = some 1;
}

daemonize-goes_on_example :
    (u : Table ℕ) × (daemonize a_daemon std_files
      ≡ goes_on 5 (overwrite (codes "12345") (print_nat 42 ++ 10 ∷ [])) u)
    × (u 0 ≡ some 101)
    × (u 1 ≡ some 101)
    × (u 5 ≡ some 100)
    × ((fd : ℕ) → u (fd + 2) ≡ point std_files 5 (some 100) (fd + 2))
daemonize-goes_on_example =
    daemonize-goes_on a_daemon std_files 5 0 1 refl refl 0 refl 1 refl
      (record { unused = refl; below = λ j h. (j, ground (arith, h)) }) refl refl refl
      (record { unused = refl; below = λ j h. elim h [ ] })
      (record { unused = refl; below = below_one })
  where
    below_one :
        (j : ℕ)
        → j < 1
        → (file : ℕ) × (point (unstubbed a_daemon std_files 5) 0 (some 101) j ≡ some file)
    below_one zero h = (101, refl)
    below_one (suc j) h = absurd (omega arith)

abbrev a_listener : ℕ → ListenSys
a_listener fd = record { socket = some fd; bind = true; listen = true }

abbrev a_start : StartSys ℕ
a_start = record {
  plain = a_listener 3;
  secure = a_listener 4;
  daemon = a_daemon;
  ssl = record { ctx_new = true; use_key = true; use_certificate = true; check_key = true };
  log_open = some 6;
  log_unlocked = true;
  date = codes "Thu";
}

abbrev arguments : List (List ℕ)
arguments =
    codes "lisod"
    ∷ codes "80"
    ∷ codes "443"
    ∷ codes "log"
    ∷ codes "lock"
    ∷ codes "www"
    ∷ codes "cgi"
    ∷ codes "key"
    ∷ codes "crt"
    ∷ []

abbrev running : Globals
running = record {
  sock = some 3;
  ssl_sock = some 4;
  ssl_ctx = true;
  pool = some (pl_new 3 4);
  lfp = some 5;
  log = record {
    fd = some 6;
    file = log_entry (codes "Thu") (codes "-------- Liso Server starts --------");
    overrun = false;
  };
}

running-Started : Started a_start std_files running 3 4 5 6
unfolding daemonize forked take_lock
running-Started = record {
  plain = record { socket = refl; bind = refl; listen = refl };
  secure = record { socket = refl; bind = refl; listen = refl };
  locked = (_, _, refl);
  globals = refl;
}

sigterm-Started_example :
    (e : Exit) × (signal_handler running (codes "Fri") [] sigterm ≡ exits e)
    × (e.code ≡ 0)
    × (e.closed_fds ≡ 3 ∷ 4 ∷ 5 ∷ 6 ∷ [])
    × (e.log.file
        ≡ log_entry (codes "Thu") (codes "-------- Liso Server starts --------")
          ++ log_entry (codes "Fri") (codes "-------- Liso Server stops --------"))
sigterm-Started_example =
    sigterm-Started a_start std_files running 3 4 5 6 (codes "Fri") [] running-Started (omega arith)
      (omega arith) (omega arith) (omega arith)
