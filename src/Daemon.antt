-- ===== src/Daemon.antt =====
-- daemon.c. The calls of the system are answers of a record; `F` is the type of what descriptors refer to.
pub mod Std
use liso.Base.{
  ℕ, zero, suc, Bool, Option, none, some, List, [], ◌∷◌, ◌++◌, if◌then◌else◌, length, drop,
}
use liso.CString.{Str}
use liso.CString.Decimal.{print_nat}
use liso.Cgi.Child.{Table, point, close_end}
use liso.Logging.{positive}

-- `fork` gives 0 in the child. The lock file has a content before it is opened. `null` is /dev/null, and an
-- `open` that fails leaves the table; `dtablesize` is the answer of `getdtablesize`.
pub record DaemonSys (F : Type 0) : Type 0 where
  pub fork : Option ℕ
  pub dtablesize : ℕ
  pub getpid : ℕ
  pub lock_file : F
  pub lock_open : Option ℕ
  pub lock_content : Str
  pub lockf : Bool
  pub null : F
  pub null_in : Option ℕ
  pub null_out : Option ℕ

-- What becomes of the process that calls `daemonize`: it exits with a code and the descriptors that it called `close` on, or goes on with the lock's descriptor
-- `lfp`, the content of the lock file and the descriptors.
pub data Daemonized (F : Type 0) : Type 0 where
  leaves : ℕ → List ℕ → Daemonized F
  goes_on : ℕ → Str → Table F → Daemonized F

-- The loop of the parent, `for (i = getdtablesize(); i >= 0; i--) close(i)`.
abbrev pub down_from : ℕ → List ℕ
down_from zero = 0 ∷ []
down_from (suc i) = suc i ∷ down_from i

-- `write` at the start of a file that was opened without O_TRUNC.
abbrev pub overwrite : Str → Str → Str
overwrite old text = text ++ drop (length text) old

module _ {F : Type 0} where
  abbrev pub open_at : Table F → Option ℕ → F → Table F
  open_at t none file = t
  open_at t (some fd) file = point t fd (some file)

  -- The stubs for stdin and stdout.
  unfoldable pub stub_std : DaemonSys F → Table F → Table F
  stub_std sys t =
      open_at (open_at (close_end (close_end t (some 0)) (some 1)) sys.null_in sys.null)
        sys.null_out sys.null

  -- Behind `open` of the lock file.
  unfoldable pub take_lock : DaemonSys F → Table F → Option ℕ → Daemonized F
  take_lock sys t none = leaves 1 []
  take_lock sys t (some lfp) =
      if sys.lockf
      then goes_on lfp (overwrite sys.lock_content (print_nat sys.getpid ++ 10 ∷ []))
          (stub_std sys (point t lfp (some sys.lock_file)))
      else leaves 1 []

  -- Behind `fork`.
  unfoldable pub forked : DaemonSys F → Table F → Option ℕ → Daemonized F
  forked sys t none = leaves 1 []
  forked sys t (some zero) = take_lock sys t sys.lock_open
  forked sys t (some (suc pid)) = leaves 0 (down_from sys.dtablesize)

  unfoldable pub daemonize : DaemonSys F → Table F → Daemonized F
  daemonize sys t = forked sys t sys.fork

-- What `release_lock` closes.
unfoldable pub release_lock : Option ℕ → List ℕ
release_lock none = []
release_lock (some lfp) = if positive (some lfp) then lfp ∷ [] else []
