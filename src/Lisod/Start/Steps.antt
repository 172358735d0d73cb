-- ===== src/Lisod/Start/Steps.antt =====
-- The steps of the start of the server: what each of them ends in.
use liso.Base.{
  zero, Bool-cases, Option-cases, ℕ, suc, ◌≡◌, refl, ◌⊎◌, inl, inr, true, Option, none, some, List,
  codes, arith,
}
use liso.CString.{Str}
use liso.Cgi.Child.{Table}
use liso.Logging.{log_inited, log_errln, log_stop}
use liso.Daemon.{down_from, Daemonized, leaves, goes_on, daemonize, forked, take_lock}
use liso.Lisod.Start.{
  Globals, Exit, Boot, exits, boots, StartSys, new_ssl_ctx, open_listener_socket, teardown,
  ListenSys, SslSys,
}

-- A listener opens.
pub record Opens (sys : ListenSys) (fd : ℕ) : Type 0 where
  pub socket : sys.socket ≡ some fd
  pub bind : sys.bind ≡ true
  pub listen : sys.listen ≡ true

pub teardown-code : (g : Globals) (date : Str) (rc : ℕ) → (teardown g date rc).code ≡ rc
unfolding teardown log_stop
teardown-code g date rc = elim (Bool-cases (log_inited g.log)) [
  | inl e ↦ rw e refl
  | inr e ↦ rw e refl
]

-- Either a step of the start fails, with exit code 1, or it gives a value that it was right to give.
abbrev pub FailsOr : {A : Type 0} → Boot A → (A → Type 0) → Type 0
FailsOr b P = ((e : Exit) × (b ≡ exits e) × (e.code ≡ 1)) ⊎ ((a : _) × (b ≡ boots a) × P a)

fails :
    {A : Type 0} (b : Boot A) (P : A → Type 0) (g : Globals) (date : Str)
    → b ≡ exits (teardown g date 1)
    → FailsOr b P
fails b P g date e = inl (teardown g date 1, e, teardown-code g date 1)

pub listener-lem :
    (g : Globals) (date : Str) (s : ListenSys)
    → FailsOr (open_listener_socket g date s) (λ fd. Opens s fd)
unfolding open_listener_socket
listener-lem g date s = elim (Option-cases s.socket) [
  | inl none_left ↦
      fails _ _ (record g { log = log_errln g.log date (codes "Failed creating socket.") }) date
        (ground (arith, none_left))
  | inr (fd, given) ↦ elim (Bool-cases s.bind) [
    | inr unbound ↦ fails _ _ g date (ground (arith, given, unbound))
    | inl bound ↦ elim (Bool-cases s.listen) [
      | inr deaf ↦ fails _ _ g date (ground (arith, given, bound, deaf))
      | inl listens ↦ inr (
        fd,
        ground (arith, given, bound, listens),
        record { socket = given; bind = bound; listen = listens },
      )
    ]
  ]
]

pub ssl_lem :
    (g : Globals) (date : Str) (s : SslSys) → FailsOr (new_ssl_ctx g date s) (λ ctx. ctx ≡ true)
unfolding new_ssl_ctx
ssl_lem g date s = elim (Bool-cases s.ctx_new) [
  | inr a ↦ fails _ _ g date (ground (arith, a))
  | inl a ↦ elim (Bool-cases s.use_key) [
    | inr b ↦ fails _ _ g date (ground (arith, a, b))
    | inl b ↦ elim (Bool-cases s.use_certificate) [
      | inr c ↦ fails _ _ g date (ground (arith, a, b, c))
      | inl c ↦ inr (true, ground (arith, a, b, c), refl)
    ]
  ]
]

-- An exit of `main` before its loop: a failure, or the parent of the daemon, which closes everything.
abbrev pub EndsWell : {F : Type 0} → StartSys F → ℕ → List ℕ → Type 0
EndsWell sys code fds =
    (code ≡ 1)
    ⊎ ((code ≡ 0)
        × (fds ≡ down_from sys.daemon.dtablesize)
        × (pid : ℕ) × (sys.daemon.fork ≡ some (suc pid)))

-- If `daemonize` does not go on.
abbrev pub Left : {F : Type 0} → StartSys F → Daemonized F → Type 0
Left sys (leaves code fds) = EndsWell sys code fds
Left sys (goes_on lfp content u) = Unit

take_lock-Left :
    {F : Type 0} (sys : StartSys F) (t : Table F) (o : Option ℕ)
    → Left sys (take_lock sys.daemon t o)
unfolding take_lock
take_lock-Left sys t none = inl refl
take_lock-Left sys t (some fd) = elim (Bool-cases sys.daemon.lockf) [
  | inl e ↦ rw e tt
  | inr e ↦ rw e (inl refl)
]

forked-Left :
    {F : Type 0} (sys : StartSys F) (t : Table F) (o : Option ℕ)
    → sys.daemon.fork ≡ o
    → Left sys (forked sys.daemon t o)
unfolding forked
forked-Left sys t none e = inl refl
forked-Left sys t (some zero) e = take_lock-Left sys t sys.daemon.lock_open
forked-Left sys t (some (suc pid)) e = inr (refl, refl, pid, e)

pub daemonize-Left :
    {F : Type 0} (sys : StartSys F) (t : Table F) → Left sys (daemonize sys.daemon t)
unfolding daemonize
daemonize-Left sys t = forked-Left sys t sys.daemon.fork refl
