-- ===== src/Cgi/Child.antt =====
-- The child of `cgi_init`, between `fork` and the end of `execve`. A process has a table of what its
-- descriptors refer to; `F` is the type of that.
pub mod Wiring
use liso.Base.{ℕ, Bool, Option, none, some, List, [], ◌∷◌, ◌==◌, if◌then◌else◌}
use liso.CString.{Str}
use liso.Request.{Req}
use liso.Cgi.{Cgi}
use liso.Cgi.Env.{envp_new}

-- `none` is a descriptor that is not open.
abbrev pub Table : Type 0 → Type 0
Table F = ℕ → Option F

-- What becomes of the child: another program with its arguments, environment and descriptors, or
-- an exit with a code and the descriptors that are left.
pub data ChildEnd (F : Type 0) : Type 0 where
  executes : Str → List Str → List Str → Table F → ChildEnd F
  exits : ℕ → Table F → ChildEnd F

module _ {F : Type 0} where
  abbrev pub point : Table F → ℕ → Option F → Table F
  point t fd file = λ x. if x == fd then file else t x

  -- `close_pipe` in the table.
  abbrev pub close_end : Table F → Option ℕ → Table F
  close_end t none = t
  close_end t (some fd) = point t fd none

  -- `dup2` of a descriptor that may be -1 or not open, when it fails and changes nothing.
  abbrev pub dup2_open : Table F → ℕ → Option F → Table F
  dup2_open t new none = t
  dup2_open t new (some file) = point t new (some file)

  abbrev pub dup2 : Table F → Option ℕ → ℕ → Table F
  dup2 t none new = t
  dup2 t (some old) new = dup2_open t new (t old)

  -- The ends of the server are closed, and the child's become its stdin, stdout and stderr.
  unfoldable pub child_table : Cgi → Table F → Table F
  child_table c t =
      let closed = close_end (close_end (close_end t c.srv_in) c.srv_out) c.srv_err in
      dup2 (dup2 (dup2 closed c.cgi_in 0) c.cgi_out 1) c.cgi_err 2

  -- With the path of the CGI program, the request, and whether `execve` succeeds.
  unfoldable pub run_child : Cgi → Str → Req → Bool → Table F → ChildEnd F
  run_child c path req execve t =
      let u = child_table c t in
      if execve
      then executes path (path ∷ []) (envp_new req) u
      else exits 1 (close_end (close_end (close_end u c.cgi_in) c.cgi_out) c.cgi_err)
