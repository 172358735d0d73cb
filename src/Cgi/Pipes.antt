-- ===== src/Cgi/Pipes.antt =====
-- The descriptors of a CGI exchange.
use liso.Base.{
  count, ℕ, ◌<◌, ◌≡◌, inl, inr, true, Option, none, some, [], ◌∷◌, ◌++◌, arith, ◌||◌, leb,
  Bool-cases,
}
use liso.Cgi.{
  Cgi, Spawn, cgi_srv_to_cgi, cgi_reset, cgi_init, make_pipes, use_pipes, run_parent, fd_setsize,
}

-- If the three pipes are made, then whatever becomes of the start, what it closes together with what
-- a later reset closes are the six descriptors of the pipes, each as often as the pipes have it.
pub cgi_init-reset_closes :
    (c : Cgi) (i o e : ℕ × ℕ) (fork : Option ℕ) (fd : ℕ)
    → let (c', ok, closed) =
        cgi_init c (record {
          stdin_pipe = some i;
          stdout_pipe = some o;
          stderr_pipe = some e;
          fork = fork;
        }) in
      count fd (closed ++ (cgi_reset c').1) ≡ count fd (i.0 ∷ i.1 ∷ o.0 ∷ o.1 ∷ e.0 ∷ e.1 ∷ [])
unfolding cgi_init make_pipes use_pipes run_parent cgi_reset
cgi_init-reset_closes c i o e none fd =
    elim (Bool-cases (leb fd_setsize o.0 || leb fd_setsize e.0)) [
      | inl big ↦ rw big (omega arith)
      | inr small ↦ rw small (omega arith)
    ]
cgi_init-reset_closes c i o e (some pid) fd =
    elim (Bool-cases (leb fd_setsize o.0 || leb fd_setsize e.0)) [
      | inl big ↦ rw big (omega arith)
      | inr small ↦ rw small (omega arith)
    ]

-- If a start with the pipes `i`, `o` and `e` succeeds, `select` can watch the ends that the server
-- reads, the server holds its own three ends, and the child's three ends are closed.
pub cgi_init-true :
    (c : Cgi) (s : Spawn)
    → (cgi_init c s).1 ≡ true
    → (i o e : ℕ × ℕ) → s.stdin_pipe ≡ some i
    → s.stdout_pipe ≡ some o
    → s.stderr_pipe ≡ some e
    → (o.0 < fd_setsize)
      × (e.0 < fd_setsize)
      × ((cgi_init c s).0.srv_out ≡ some i.1)
      × ((cgi_init c s).0.srv_in ≡ some o.0)
      × ((cgi_init c s).0.srv_err ≡ some e.0)
      × ((cgi_init c s).0.phase ≡ cgi_srv_to_cgi)
      × ((cgi_init c s).2 ≡ i.0 ∷ o.1 ∷ e.1 ∷ [])
unfolding cgi_init make_pipes use_pipes run_parent
cgi_init-true c s ok i o e p q r = ground arith
