-- ===== src/Daemon/Std.antt =====
-- The standard descriptors of the daemon.
use liso.Base.{◌+◌, true, ℕ, zero, suc, ◌<◌, ◌≡◌, refl, none, some, [], ◌∷◌, ◌++◌, arith}
use liso.CString.Decimal.{print_nat}
use liso.Cgi.Child.{Table, point, close_end}
use liso.Daemon.{DaemonSys, goes_on, overwrite, stub_std, take_lock, forked, daemonize}

-- What POSIX says of `open`: it gives the lowest descriptor that is not open.
pub record IsLowest {F : Type 0} (t : Table F) (fd : ℕ) : Type 0 where
  pub unused : t fd ≡ none
  pub below : (j : ℕ) → j < fd → (file : F) × (t j ≡ some file)

module _ {F : Type 0} where
  lowest_zero : (t : Table F) (fd : ℕ) → t 0 ≡ none → IsLowest t fd → fd ≡ 0
  lowest_zero t zero e l = refl
  lowest_zero t (suc fd) e l = let (file, f) = l.below 0 (omega arith) in cc

  lowest_one :
      (t : Table F) (fd : ℕ) (file : F) → t 0 ≡ some file → t 1 ≡ none → IsLowest t fd → fd ≡ 1
  lowest_one t zero file f e l = let u = l.unused in cc
  lowest_one t (suc zero) file f e l = refl
  lowest_one t (suc (suc fd)) file f e l = let (_, g) = l.below 1 (omega arith) in cc

  -- With stdin and stdout open, a new descriptor is above them.
  above_std :
      (t : Table F) (fd : ℕ) (a b : F) → t 0 ≡ some a → t 1 ≡ some b → IsLowest t fd → 1 < fd
  above_std t zero a b e f l = let u = l.unused in absurd (cc)
  above_std t (suc zero) a b e f l = let u = l.unused in absurd (cc)
  above_std t (suc (suc fd)) a b e f l = omega arith

  abbrev pub unstubbed : DaemonSys F → Table F → ℕ → Table F
  unstubbed sys t lfp = close_end (close_end (point t lfp (some sys.lock_file)) (some 0)) (some 1)

  -- If stdin and stdout are open, the process is the child, the lock file opens and locks, and `open` gives the
  -- lowest free descriptor, for the lock file and for both stubs: `daemonize` goes on with /dev/null as stdin and stdout, with the lock file and every other descriptor as they were, and the lock file starts with the pid and
  -- a newline, followed by what is left of its old content.
  pub daemonize-goes_on :
      (sys : DaemonSys F) (t : Table F) (lfp i o : ℕ)
      → sys.fork ≡ some 0
      → sys.lock_open ≡ some lfp
      → (a : F) → (t 0 ≡ some a)
      → (b : F) → (t 1 ≡ some b)
      → IsLowest t lfp
      → sys.lockf ≡ true
      → sys.null_in ≡ some i
      → sys.null_out ≡ some o
      → IsLowest (unstubbed sys t lfp) i
      → IsLowest (point (unstubbed sys t lfp) i (some sys.null)) o
      → (u : Table F) × (daemonize sys t
          ≡ goes_on lfp (overwrite sys.lock_content (print_nat sys.getpid ++ 10 ∷ [])) u)
        × (u 0 ≡ some sys.null)
        × (u 1 ≡ some sys.null)
        × (u lfp ≡ some sys.lock_file)
        × ((fd : ℕ) → u (fd + 2) ≡ point t lfp (some sys.lock_file) (fd + 2))
  unfolding daemonize forked take_lock stub_std
  daemonize-goes_on sys t lfp i o child opened a is_in b is_out new locked si so li lo =
      let high : 1 < lfp = above_std t lfp a b is_in is_out new in
      let zero_in : i ≡ 0 = lowest_zero (unstubbed sys t lfp) i refl li in
      let one_out : o ≡ 1 =
        lowest_one (point (unstubbed sys t lfp) i (some sys.null)) o sys.null (rw zero_in refl)
          (rw zero_in refl) lo in
      (
        stub_std sys (point t lfp (some sys.lock_file)),
        ground arith,
        rw (si, so, zero_in, one_out) refl,
        rw (si, so, zero_in, one_out) refl,
        rw (si, so, zero_in, one_out) (ground arith),
        λ fd. rw (si, so, zero_in, one_out) (ground arith),
      )
