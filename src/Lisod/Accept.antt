-- ===== src/Lisod/Accept.antt =====
-- Accepting a connection: what becomes of the descriptor and of the pool.
use liso.Base.{
  ℕ, ◌<◌, ◌≡◌, refl, ◌⊎◌, inl, inr, Bool, true, false, Option, none, some, [], ◌∷◌, ◌++◌, arith,
  length, leb, Bool-cases, length-append,
}
use liso.Cgi.{fd_setsize, close_pipe}
use liso.Conn.{Conn, cn_new, cn_init_ssl}
use liso.Pool.{Pool, max_conns, pl_add_conn}
use liso.Pool.Inv.{IsValid}
use liso.Pool.Slots.{append-IsIndexed}
use liso.Base.{if◌then◌else◌, ◌==◌}
use liso.Lisod.{
  new_client, Incoming, Accepted, add_accepted, establish, liso_accept, liso_accept_conn,
}

-- Either there is no new connection, the pool is as it was and an accepted descriptor is closed, or
-- the new connection stands at the end of the pool with the index of its slot, on a descriptor that
-- `select` can watch.
abbrev pub Outcome : Pool → Incoming → Accepted → Type 0
Outcome p inc r =
    ((r.conn ≡ none) × (r.pool ≡ p) × (r.closed_fds ≡ close_pipe inc.accept))
    ⊎ ((c : Conn) × (r.conn ≡ some c)
        × (inc.accept ≡ some c.fd)
        × (c.fd < fd_setsize)
        × (c.idx ≡ length p.conns)
        × (length p.conns < max_conns)
        × (r.pool.conns ≡ p.conns ++ c ∷ [])
        × (r.closed_fds ≡ []))

add_accepted-room :
    (p : Pool) (c : Conn)
    → length p.conns < max_conns
    → c.idx ≡ length p.conns
    → ((add_accepted p c).conn ≡ some c)
      × ((add_accepted p c).pool.conns ≡ p.conns ++ c ∷ [])
      × ((add_accepted p c).closed_fds ≡ [])
unfolding add_accepted pl_add_conn
add_accepted-room p c h own = ground arith

-- What SSL does to the object is to no field that the pool reads.
new_client_slot :
    (p : Pool) (inc : Incoming) (port fd : ℕ)
    → let c = new_client p inc port fd in
      let c' = (cn_init_ssl c inc.ssl_new inc.ssl_set_fd).0 in
      (c.fd ≡ fd) × (c.idx ≡ length p.conns) × (c'.fd ≡ fd) × (c'.idx ≡ length p.conns)
unfolding new_client cn_new cn_init_ssl
new_client_slot p inc port fd = ground arith

add_accepted-Outcome :
    (p : Pool) (inc : Incoming) (c : Conn)
    → inc.accept ≡ some c.fd
    → c.fd < fd_setsize
    → length p.conns < max_conns
    → c.idx ≡ length p.conns
    → Outcome p inc (add_accepted p c)
add_accepted-Outcome p inc c e small room own =
    let (made, added, kept) = add_accepted-room p c room own in
    inr (c, made, e, small, own, room, added, kept)

establish-Outcome :
    (p : Pool) (inc : Incoming) (ssl : Bool) (port fd : ℕ)
    → inc.accept ≡ some fd
    → fd < fd_setsize
    → length p.conns < max_conns
    → Outcome p inc (establish p inc ssl port fd)
unfolding establish
establish-Outcome p inc ssl port fd e small room =
    let c = new_client p inc port fd in
    let c' = (cn_init_ssl c inc.ssl_new inc.ssl_set_fd).0 in
    let slot = new_client_slot p inc port fd in
    choose ssl (cn_init_ssl c inc.ssl_new inc.ssl_set_fd).1
      (add_accepted-Outcome p inc c (rw slot.0 e) (rw slot.0 small) room slot.1)
      (add_accepted-Outcome p inc c' (rw slot.2 e) (rw slot.2 small) room slot.3)
  where
    refusal : Accepted
    refusal = record { pool = p; conn = none; closed_fds = fd ∷ [] }

    choose :
        {r r' : Accepted} (ssl ok : Bool)
        → Outcome p inc r
        → Outcome p inc r'
        → Outcome p inc (if ssl then if ok then r' else refusal else r)
    choose true true a b = b
    choose true false a b = inl (refl, refl, rw e)
    choose false ok a b = a

-- For a pool that is not overfull, an accept has one of the two outcomes, whatever the system
-- answers: no accepted descriptor is lost, and the error branch of `pl_add_conn` is not taken.
pub accept_conn-Outcome :
    (p : Pool) (inc : Incoming) (ssl : Bool) (port : ℕ)
    → IsValid p.conns
    → Outcome p inc (liso_accept_conn p inc ssl port)
unfolding liso_accept_conn liso_accept
accept_conn-Outcome p inc ssl port v = go inc.accept refl
  where
    go : (o : Option ℕ) → inc.accept ≡ o → Outcome p inc (liso_accept p inc ssl port o)
    go none e = inl (refl, refl, rw e)
    go (some fd) e = elim (Bool-cases (leb fd_setsize fd)) [
      | inl big ↦ rw (big, liso_accept) (inl (refl, refl, rw e))
      | inr small ↦ elim (Bool-cases (length p.conns == max_conns)) [
        | inl full ↦ rw (small, full, liso_accept) (inl (refl, refl, rw e))
        | inr room ↦
            let b = v.bounded in
            rw (small, room, liso_accept)
              (establish-Outcome p inc ssl port fd e (ground arith) (ground arith))
      ]
    ]

-- An accept keeps the pool valid.
pub accept_conn-IsValid :
    (p : Pool) (inc : Incoming) (ssl : Bool) (port : ℕ)
    → IsValid p.conns
    → IsValid (liso_accept_conn p inc ssl port).pool.conns
accept_conn-IsValid p inc ssl port v = elim (accept_conn-Outcome p inc ssl port v) [
  | inl (_, same, _) ↦ rw same v
  | inr (c, _, _, _, own, room, added, _) ↦ rw added (record {
    indexed = append-IsIndexed p.conns c own v.indexed;
    bounded = omega (arith, length-append p.conns (c ∷ []));
  })
]
