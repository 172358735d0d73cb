-- ===== src/Lisod/Loop/Rounds.antt =====
-- The loop over the connections of lisod.c: its end, the pool and `max_fd` behind it.
use liso.Base.{
  ℕ, zero, suc, ◌+◌, ◌≤◌, ◌<◌, ◌≡◌, sym, ◌∙◌, Option, none, some, List, arith, length, get_elem?,
  set, max, Option-cases, inl, inr, get_elem?-lt, get_elem?-le, get_elem?-set_ne,
  get_elem?-set_self, length-set, ℕ_discrete, ◌∷◌, [], refl, drop, count, SameItems,
}
use mathlib.Core.Path.{subst}
use liso.Conn.{Conn, Ctx, Ret, alive, closed}
use liso.Pool.{Pool, remove_slot}
use liso.Pool.Inv.{IsValid, remove_slot-IsValid, set-IsValid, get_elem?-remove_slot}
use liso.Pool.Slots.{fds, length-remove_slot}
use liso.Lisod.Loop.Each.{round_fds, drop_all, drop_cons, drop-set, drop_remove}
use liso.Lisod.Serve.{Io, serve_conn}
use liso.Lisod.Serve.Relation.{Fate}
use liso.Lisod.Serve.Stages.{serve_conn-Fate}
use liso.Lisod.Loop.{
  Server, enter, leave, max_pipe, raise_max, next_index, serve_from, rounds_from, serve_all,
}

-- A descriptor that may be -1 is at most `m`.
abbrev pub PipeLe : Option ℕ → ℕ → Type 0
PipeLe none m = Unit
PipeLe (some fd) m = fd ≤ m

-- `select` with `max_fd` sees the socket and the pipes of a connection.
abbrev pub CoveredBy : Conn → ℕ → Type 0
CoveredBy c m = (c.fd ≤ m) × PipeLe c.cgi.srv_in m × PipeLe c.cgi.srv_err m

-- The slots in front of `i` are covered.
abbrev Covers : List Conn → ℕ → ℕ → Type 0
Covers conns i m = (j : ℕ) (d : Conn) → j < i → get_elem? conns j ≡ some d → CoveredBy d m

PipeLe-mono : (o : Option ℕ) (m n : ℕ) → m ≤ n → PipeLe o m → PipeLe o n
PipeLe-mono none m n h p = tt
PipeLe-mono (some fd) m n h p = omega arith

CoveredBy-mono : (c : Conn) (m n : ℕ) → m ≤ n → CoveredBy c m → CoveredBy c n
CoveredBy-mono c m n h (a, b, d) =
    (omega arith, PipeLe-mono c.cgi.srv_in m n h b, PipeLe-mono c.cgi.srv_err m n h d)

max_pipe-le : (m : ℕ) (o : Option ℕ) → (m ≤ max_pipe m o) × PipeLe o (max_pipe m o)
max_pipe-le m none = omega arith
max_pipe-le m (some fd) = omega arith

raise_max-le : (m : ℕ) (r : Ret × Ctx Pool) → m ≤ raise_max m r
raise_max-le m (alive, x) = omega (
  arith,
  max_pipe-le (max m x.conn.fd) x.conn.cgi.srv_in,
  max_pipe-le (max_pipe (max m x.conn.fd) x.conn.cgi.srv_in) x.conn.cgi.srv_err,
)
raise_max-le m (closed, x) = omega arith

raise_max-CoveredBy : (m : ℕ) (x : Ctx Pool) → CoveredBy x.conn (raise_max m (alive, x))
raise_max-CoveredBy m x =
    let m1 = max m x.conn.fd in
    let m2 = max_pipe m1 x.conn.cgi.srv_in in
    let a = max_pipe-le m1 x.conn.cgi.srv_in in
    let b = max_pipe-le m2 x.conn.cgi.srv_err in
    (omega arith, PipeLe-mono x.conn.cgi.srv_in m2 _ b.0 a.1, b.1)

-- What a round of the loop keeps, for the connection `c` of the slot `i` and its fate.
module _ (s : Server) (i : ℕ) (c : Conn) (at : get_elem? s.pool.conns i ≡ some c) where
  inside : i < length s.pool.conns
  inside = get_elem?-lt s.pool.conns i at

  pub leave-IsValid :
      (r : Ret × Ctx Pool)
      → c.idx ≡ i
      → Fate (enter s c) r
      → IsValid s.pool.conns
      → IsValid (leave i r).pool.conns
  leave-IsValid (alive, x) own k v = rw k.conns (set-IsValid s.pool.conns i x.conn (k.idx ∙ own) v)
  leave-IsValid (closed, x) own d v =
      rw (d.conns, own) (remove_slot-IsValid s.pool.conns i inside v)

  -- A round shortens what is left of the loop.
  leave_progress :
      (r : Ret × Ctx Pool) (n : ℕ)
      → c.idx ≡ i
      → Fate (enter s c) r
      → length s.pool.conns ≤ suc n + i
      → length (leave i r).pool.conns ≤ n + next_index i r.0
  leave_progress (alive, x) n own k h = rw k.conns (omega (arith, length-set s.pool.conns i x.conn))
  leave_progress (closed, x) n own d h =
      rw (d.conns, own) (omega (arith, length-remove_slot s.pool.conns i inside))

  -- The sockets from the slot `i` on, before the round, and what is left of them behind it.
  leave-fds :
      (r : Ret × Ctx Pool)
      → c.idx ≡ i
      → Fate (enter s c) r
      → (n : ℕ)
      → count n (fds (drop i s.pool.conns))
        ≡ count n (c.fd ∷ []) + count n (fds (drop (next_index i r.0) (leave i r).pool.conns))
  leave-fds (alive, x) own k n =
      let next : i + 1 ≡ suc i = omega arith in
      rw (k.conns, next, drop-set s.pool.conns i x.conn, drop_cons s.pool.conns i c at)
        (omega arith)
  leave-fds (closed, x) own d n =
      rw (d.conns, own) (omega (arith, drop_remove s.pool.conns i c at n))

  leave-Covers :
      (r : Ret × Ctx Pool) (m : ℕ)
      → c.idx ≡ i
      → Fate (enter s c) r
      → Covers s.pool.conns i m
      → Covers (leave i r).pool.conns (next_index i r.0) (raise_max m r)
  leave-Covers (alive, x) m own k v j d lt e =
      let e' : get_elem? (set s.pool.conns i x.conn) j ≡ some d = rw k.conns at e in
      elim (ℕ_discrete i j) [
        | yes p ↦
            let q : x.conn ≡ d =
              ground (arith, p, get_elem?-set_self s.pool.conns i x.conn inside) in
            subst (λ y. CoveredBy y (raise_max m (alive, x))) q (raise_max-CoveredBy m x)
        | no p ↦
            CoveredBy-mono d m _ (raise_max-le m (alive, x))
              (v j d (omega arith) (sym (get_elem?-set_ne s.pool.conns i j x.conn p) ∙ e'))
      ]
  leave-Covers (closed, x) m own k v j d lt e =
      let e' : get_elem? (remove_slot s.pool.conns i) j ≡ some d = rw (k.conns, own) at e in
      v j d lt (get_elem?-remove_slot s.pool.conns i j inside lt e')

-- What holds of the last index, `max_fd` and server.
pub record Served (out : ℕ × ℕ × Server) : Type 0 where
  pub valid : IsValid out.2.pool.conns
  pub ended : length out.2.pool.conns ≤ out.0
  pub covers : Covers out.2.pool.conns out.0 out.1

serve_from-Served :
    (io : ℕ → Io) (n i m : ℕ) (s : Server)
    → IsValid s.pool.conns
    → length s.pool.conns ≤ n + i
    → Covers s.pool.conns i m
    → Served (serve_from io n i m s)
unfolding serve_from
serve_from-Served io zero i m s v h cov = record { valid = v; ended = omega arith; covers = cov }
serve_from-Served io (suc n) i m s v h cov = elim (Option-cases (get_elem? s.pool.conns i)) [
  | inl e ↦
      rw (e, serve_from) (record { valid = v; ended = get_elem?-le s.pool.conns i e; covers = cov })
  | inr (c, e) ↦
      let own = v.indexed i c e in
      let out = serve_conn (io n) (enter s c) in
      let fate = serve_conn-Fate (io n) (enter s c) (rw own (get_elem?-lt s.pool.conns i e)) in
      rw (e, serve_from)
        (serve_from-Served io n (next_index i out.0) (raise_max m out) (leave i out)
          (leave-IsValid s i c e out own fate v) (leave_progress s i c e out n own fate h)
          (leave-Covers s i c e out m own fate cov))
]

-- The rounds that are left at the slot `i` are those of the connections from there on.
rounds-each :
    (io : ℕ → Io) (n i : ℕ) (s : Server)
    → IsValid s.pool.conns
    → length s.pool.conns ≤ n + i
    → SameItems (round_fds (rounds_from io n i s)) (fds (drop i s.pool.conns))
unfolding rounds_from
rounds-each io zero i s v h k = rw (drop_all s.pool.conns i (omega arith)) refl
rounds-each io (suc n) i s v h k = elim (Option-cases (get_elem? s.pool.conns i)) [
  | inl e ↦ rw (e, rounds_from, drop_all s.pool.conns i (get_elem?-le s.pool.conns i e)) refl
  | inr (c, e) ↦
      let own = v.indexed i c e in
      let out = serve_conn (io n) (enter s c) in
      let fate = serve_conn-Fate (io n) (enter s c) (rw own (get_elem?-lt s.pool.conns i e)) in
      let rest =
        rounds-each io n (next_index i out.0) (leave i out) (leave-IsValid s i c e out own fate v)
          (leave_progress s i c e out n own fate h) k in
      let split = leave-fds s i c e out own fate k in
      rw (e, rounds_from) (omega (arith, rest, split))
]

-- On a valid pool the loop over the connections, whatever the system answers in it, ends with `i` at the end of
-- the array; it keeps the pool valid; and each connection that was in the pool at its start has had its
-- round, once: the sockets of the rounds are those of the pool, as often.
pub serve_from_ends :
    (io : ℕ → Io) (s : Server)
    → IsValid s.pool.conns
    → let (i, m, s') = serve_from io (length s.pool.conns) 0 s.pool.min_max_fd s in
      (length s'.pool.conns ≤ i)
      × IsValid s'.pool.conns
      × SameItems (round_fds (rounds_from io (length s.pool.conns) 0 s)) (fds s.pool.conns)
serve_from_ends io s v =
    let r =
      serve_from-Served io (length s.pool.conns) 0 s.pool.min_max_fd s v (omega arith)
        (λ j d lt e. elim lt [ ]) in
    (r.ended, r.valid, rounds-each io (length s.pool.conns) 0 s v (omega arith))

pub serve_all-IsValid :
    (io : ℕ → Io) (s : Server) → IsValid s.pool.conns → IsValid (serve_all io s).pool.conns
unfolding serve_all
serve_all-IsValid io s v = (serve_from_ends io s v).1

-- After the loop over the connections of a valid pool, `max_fd` is at least the socket and the open CGI output and
-- error pipes of every connection of the pool.
pub serve_all_covers :
    (io : ℕ → Io) (s : Server)
    → IsValid s.pool.conns
    → (j : ℕ) (c : Conn) → get_elem? (serve_all io s).pool.conns j ≡ some c
    → CoveredBy c (serve_all io s).pool.max_fd
unfolding serve_all
serve_all_covers io s v j c e =
    let r =
      serve_from-Served io (length s.pool.conns) 0 s.pool.min_max_fd s v (omega arith)
        (λ j d lt e. elim lt [ ]) in
    let out = serve_from io (length s.pool.conns) 0 s.pool.min_max_fd s in
    let b = r.ended in r.covers j c (omega (arith, get_elem?-lt out.2.pool.conns j e)) e
