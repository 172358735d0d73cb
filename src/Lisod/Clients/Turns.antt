-- ===== src/Lisod/Clients/Turns.antt =====
-- The turns of the main loop as steps of the server that the clients see, and what they do to the
-- sockets that `accept` gives.
use liso.Base.{
  ap, ℕ, ◌≡◌, Bool, true, false, Option, none, some, List, [], ◌∷◌, ◌++◌, arith, inl, inr,
  Bool-cases, if◌then◌else◌, count, count-append, Grows, of_list, put, put-of_list,
}
use mathlib.Core.Path.{subst}
use mathlib.Core.List.{map-append, append-nil}
use liso.Pool.{FdSet, pl_add_conn, pl_ready}
use liso.Pool.Inv.{IsValid}
use liso.Pool.Slots.{fds}
use liso.Cgi.{close_pipe}
use liso.Lisod.{Incoming, Accepted, liso_accept_conn, liso_accept, establish, add_accepted}
use liso.Lisod.Accept.{Outcome, accept_conn-Outcome}
use liso.Lisod.Loop.{Server, Turn, Listeners, accept_on, after_select, main_turn}
use liso.Lisod.Turn.{accept_on-IsValid}
use liso.Lisod.Clients.{serves, enters, is_refused, offer, Steps, no_step, then_step, Steps-trans}
use liso.Lisod.Clients.Rounds.{clients, serve_all-Steps}

-- Behind an accept that gave `o`.
abbrev after_accept : Server → Accepted → Server
after_accept s r = record s { pool = r.pool; closed_fds = s.closed_fds ++ r.closed_fds }

closed_Grows : (fd : ℕ) (gone : List ℕ) → Grows (fd ∷ gone) (gone ++ fd ∷ [])
closed_Grows fd gone n = omega (arith, count-append n gone (fd ∷ []))

added_SameItems : (fd : ℕ) (xs : List ℕ) (n : ℕ) → count n (fd ∷ xs) ≡ count n (xs ++ fd ∷ [])
added_SameItems fd xs n = omega (arith, count-append n xs (fd ∷ []))

Outcome-Steps :
    (s : Server) (inc : Incoming) (r : Accepted)
    → Outcome s.pool inc r
    → Steps (offer inc.accept) (clients s) (clients (after_accept s r))
Outcome-Steps s inc r (inl (_, same, closed)) = refused inc.accept closed
  where
    refused :
        (o : Option ℕ)
        → r.closed_fds ≡ close_pipe o
        → Steps (offer o) (clients s) (clients (after_accept s r))
    refused none e =
        rw (same, e)
          (then_step none (no_step (clients s))
            (serves _ _ _ (λ n. omega (arith, count-append n s.closed_fds []))))
    refused (some fd) e =
        rw (same, e)
          (then_step (some fd) (no_step (clients s))
            (is_refused fd _ _ _ (closed_Grows fd s.closed_fds)))
Outcome-Steps s inc r (inr (c, _, e, _, _, _, added, none_closed)) =
    let b : put c.fd (of_list (fds s.pool.conns)) ≡ of_list (fds r.pool.conns) =
      rw (added, map-append) (put-of_list c.fd _ _ (added_SameItems c.fd (fds s.pool.conns))) in
    let entered = enters c.fd (of_list (fds s.pool.conns)) s.closed_fds in
    rw (e, none_closed, append-nil, ← b) (then_step (some c.fd) (no_step (clients s)) entered)

-- The sockets that `accept` gives to a listener.
abbrev pub offered : FdSet → ℕ → Incoming → List ℕ
offered ready fd inc = if ready fd then offer inc.accept else []

accept_on-Steps :
    (s : Server) (fd : ℕ) (inc : Incoming) (ssl : Bool) (port : ℕ)
    → IsValid s.pool.conns
    → Steps (offered s.pool.read_ready fd inc) (clients s) (clients (accept_on s fd inc ssl port))
unfolding accept_on
accept_on-Steps s fd inc ssl port v = elim (Bool-cases (s.pool.read_ready fd)) [
  | inl e ↦ rw e (Outcome-Steps s inc _ (accept_conn-Outcome s.pool inc ssl port v))
  | inr e ↦ rw e (no_step (clients s))
]

accept_on-read_ready :
    (s : Server) (fd : ℕ) (inc : Incoming) (ssl : Bool) (port : ℕ)
    → (accept_on s fd inc ssl port).pool.read_ready ≡ s.pool.read_ready
unfolding accept_on liso_accept_conn liso_accept establish add_accepted pl_add_conn
accept_on-read_ready s fd inc ssl port = ground arith

-- The sockets that `accept` gives in a turn.
unfoldable pub offers : Listeners → Turn → List ℕ
offers l t = elim t.select [
  | none ↦ []
  | some (r, w) ↦ offered r l.sock t.plain ++ offered r l.ssl_sock t.secure
]

after_select-Steps :
    (l : Listeners) (t : Turn) (s : Server)
    → IsValid s.pool.conns
    → Steps (offers l t) (clients s) (clients (after_select l t s t.select))
unfolding after_select offers
after_select-Steps l t s v = behind t.select
  where
    behind :
        (sets : Option (FdSet × FdSet))
        → Steps
            (elim sets [
              | none ↦ []
              | some (r, w) ↦ offered r l.sock t.plain ++ offered r l.ssl_sock t.secure
            ])
            (clients s)
            (clients (after_select l t s sets))
    behind none = no_step (clients s)
    behind (some (r, w)) =
        let s1 = record s { pool = record s.pool { read_ready = r; write_ready = w } } in
        let s2 = accept_on s1 l.sock t.plain false l.http_port in
        let v2 = accept_on-IsValid s1 l.sock t.plain false l.http_port v in
        let v3 = accept_on-IsValid s2 l.ssl_sock t.secure true l.https_port v2 in
        let plain = accept_on-Steps s1 l.sock t.plain false l.http_port v in
        let s3 = accept_on s2 l.ssl_sock t.secure true l.https_port in
        let secure =
          subst (λ f. Steps (offered f l.ssl_sock t.secure) (clients s2) (clients s3))
            (accept_on-read_ready s1 l.sock t.plain false l.http_port)
            (accept_on-Steps s2 l.ssl_sock t.secure true l.https_port v2) in
        let rest = Steps-trans secure (serve_all-Steps t.rounds s3 v3) in
        subst (λ os. Steps os (clients s) (clients (after_select l t s (some (r, w)))))
          (ap (λ os. offered r l.sock t.plain ++ os) (append-nil _)) (Steps-trans plain rest)

-- A turn of the main loop on a valid pool refines the server that its clients see: it is a sequence of steps in which
-- exactly the sockets that `accept` gives are offered.
pub main_turn-Steps :
    (l : Listeners) (t : Turn) (s : Server)
    → IsValid s.pool.conns
    → Steps (offers l t) (clients s) (clients (main_turn l t s))
unfolding main_turn pl_ready
main_turn-Steps l t s v = after_select-Steps l t (record s { pool = pl_ready s.pool }) v
