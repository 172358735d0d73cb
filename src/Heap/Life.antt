-- ===== src/Heap/Life.antt =====
-- The life of the server: every block that it takes is given back, once.
use liso.Base.{
  ℕ, zero, suc, ◌≤◌, ◌<◌, inl, inr, ◌≡◌, refl, Bool, true, false, Option, none, some, List, [], ◌∷◌,
  ◌++◌, arith, length, leb, ◌==◌, All, All-append, Bool-cases, count, count-append, SameItems,
  SameItems-comm, length-append,
}
use liso.Pool.{max_conns}
use liso.Heap.{Heap, Cmd, ◌>>=◌, pure, ConnAt}
use liso.Heap.Owns.{Does, Turns, Does-pure, Does-step, Does-bind, take_block-Does}
use liso.Heap.Blocks.{conn_blocks, cn_free-Turns}
use liso.Heap.Stages.{conn_op-Does, attach-Does}
use liso.Heap.Makes.{ConnOk, NewOk, malloc_conn-Does}
use liso.Heap.Pool.{
  PoolAt, ConnOp, PoolOp, accepts, serves, deletes, add_at, malloc_pool, keep_if, secure_at,
  accept_at, serve_at, pool_op, pool_ops, pool_life,
}
use liso.Heap.Conns.{
  conns_blocks, pool_blocks, ConnsOk, conns_blocks-snoc, pl_free-Turns, delete-Does,
}

abbrev PoolOk : PoolAt → Type 0
PoolOk p = ConnsOk max_conns p.conns

add-blocks :
    (p : PoolAt) (c : ConnAt)
    → length p.conns < max_conns
    → SameItems (conn_blocks c ++ pool_blocks p) (pool_blocks (add_at p c))
unfolding add_at
add-blocks p c room n =
    let two = p.array ∷ p.self ∷ [] in
    elim (Bool-cases (leb max_conns (length p.conns))) [
      | inl full ↦ absurd (ground arith)
      | inr free ↦ rw free (
          omega (
            arith,
            conns_blocks-snoc p.conns c n,
            count-append n (conns_blocks (p.conns ++ c ∷ [])) two,
            count-append n (conns_blocks p.conns) two,
            count-append n (conn_blocks c) (conns_blocks p.conns),
            count-append n (conn_blocks c) (pool_blocks p),
          ))
    ]

add-Ok :
    (p : PoolAt) (c : ConnAt)
    → length p.conns < max_conns
    → PoolOk p
    → ConnOk c
    → PoolOk (add_at p c)
unfolding add_at
add-Ok p c room k ok = elim (Bool-cases (leb max_conns (length p.conns))) [
  | inl full ↦ rw full k
  | inr free ↦ rw free (record {
    conns = All-append ConnOk p.conns (c ∷ []) k.conns (ok, tt);
    few = omega (arith, length-append p.conns (c ∷ []));
  })
]

at_most : {a b c : ℕ} → a ≤ b → b ≤ c → a ≤ c
at_most p q = omega arith

module _ (malloc : Heap → ℕ) where
  serve-Does :
      (op : ConnOp) (i : ℕ) (cs : List ConnAt)
      → All ConnOk cs
      → Does (conns_blocks cs) (serve_at malloc op i cs) conns_blocks (ConnsOk (length cs))
  unfolding serve_at
  serve-Does op i [] ok = Does-pure [] (λ n. refl) (record { conns = tt; few = omega arith })
  serve-Does op zero (c ∷ cs) (o, ok) =
      Does-step (conns_blocks cs) (conn_op-Does malloc op c o) (λ n. refl)
        (λ c' o'. Does-pure (c' ∷ cs) (λ n. refl) (record { conns = (o', ok); few = omega arith }))
  serve-Does op (suc i) (c ∷ cs) (o, ok) =
      Does-step (conn_blocks c) (serve-Does op i cs ok)
        (SameItems-comm (conn_blocks c) (conns_blocks cs))
        (λ cs' k.
          Does-pure (c ∷ cs') (SameItems-comm (conns_blocks cs') (conn_blocks c))
            (record { conns = (o, k.conns); few = let few = k.few in omega arith }))

  keep-Does :
      (p : PoolAt) (r : ConnAt × Bool)
      → length p.conns < max_conns
      → PoolOk p
      → ConnOk r.0
      → Does (conn_blocks r.0 ++ pool_blocks p) (keep_if malloc p r) pool_blocks PoolOk
  unfolding keep_if
  keep-Does p (c, false) room k ok =
      Does-step (pool_blocks p) (cn_free-Turns c) (λ n. refl) (λ _ _. Does-pure p (λ n. refl) k)
  keep-Does p (c, true) room k ok =
      Does-pure (add_at p c) (add-blocks p c room) (add-Ok p c room k ok)

  secure-Does :
      (p : PoolAt) (ssl : Option (Bool × Bool)) (c : ConnAt)
      → length p.conns < max_conns
      → PoolOk p
      → NewOk c
      → Does (conn_blocks c ++ pool_blocks p) (secure_at malloc p ssl c) pool_blocks PoolOk
  unfolding secure_at
  secure-Does p none c room k ok =
      Does-pure (add_at p c) (add-blocks p c room) (add-Ok p c room k ok.0)
  secure-Does p (some (made, attached)) c room k ok =
      Does-step (pool_blocks p) (attach-Does malloc made attached c ok) (λ n. refl)
        (λ r o. keep-Does p r room k o)

  accept-Does :
      (ssl : Option (Bool × Bool)) (p : PoolAt)
      → PoolOk p
      → Does (pool_blocks p) (accept_at malloc ssl p) pool_blocks PoolOk
  unfolding accept_at
  accept-Does ssl p k = elim (Bool-cases (length p.conns == max_conns)) [
    | inl full ↦ rw full (Does-pure p (λ n. refl) k)
    | inr free ↦
        let room : length p.conns < max_conns = let few = k.few in ground arith in
        rw free (
          Does-step (pool_blocks p) (malloc_conn-Does malloc) (λ n. refl)
            (λ c ok. secure-Does p ssl c room k ok))
  ]

  -- A change of the connections leaves the pool's own blocks.
  conns-Does :
      (p : PoolAt) (m : Cmd (List ConnAt))
      → PoolOk p
      → Does (conns_blocks p.conns) m conns_blocks (ConnsOk (length p.conns))
      → Does (pool_blocks p) (do cs ← m; pure (record p { conns = cs })) pool_blocks PoolOk
  conns-Does p m k d =
      Does-step (p.array ∷ p.self ∷ []) d (λ n. refl)
        (λ cs k'.
          Does-pure (record p { conns = cs }) (λ n. refl)
            (record { conns = k'.conns; few = at_most k'.few k.few }))

  pool_op-Does :
      (op : PoolOp) (p : PoolAt)
      → PoolOk p
      → Does (pool_blocks p) (pool_op malloc op p) pool_blocks PoolOk
  unfolding pool_op
  pool_op-Does (accepts ssl) p k = accept-Does ssl p k
  pool_op-Does (serves i op) p k = conns-Does p _ k (serve-Does op i p.conns k.conns)
  pool_op-Does (deletes i) p k = conns-Does p _ k (delete-Does i p.conns k.conns)

  pool_ops-Does :
      (ops : List PoolOp) (p : PoolAt)
      → PoolOk p
      → Does (pool_blocks p) (pool_ops malloc ops p) pool_blocks PoolOk
  unfolding pool_ops
  pool_ops-Does [] p k = Does-pure p (λ n. refl) k
  pool_ops-Does (op ∷ ops) p k = Does-bind (pool_op-Does op p k) (pool_ops-Does ops)

  malloc_pool-Does : Does [] (malloc_pool malloc) pool_blocks PoolOk
  unfolding malloc_pool
  malloc_pool-Does =
      Does-step [] (take_block-Does malloc) (λ n. refl)
        (λ s _.
          Does-step (s ∷ []) (take_block-Does malloc) (λ n. refl)
            (λ a _.
              Does-pure (record { self = s; array = a; conns = [] }) (λ n. refl)
                (record { conns = tt; few = omega arith })))

  life-Turns : (ops : List PoolOp) → Turns [] (pool_life malloc ops) []
  unfolding pool_life
  life-Turns ops =
      Does-bind malloc_pool-Does
        (λ p k. Does-bind (pool_ops-Does ops p k) (λ p' _. pl_free-Turns p'))

-- Whatever addresses the allocator gives, and whatever connections are accepted or refused, served
-- and deleted in between: from `pl_new` to `pl_free` no block is freed that is not live, and the blocks
-- that are live in the end are those that were live before, each as often.
pub pool_life-frees :
    (malloc : Heap → ℕ) (ops : List PoolOp) (h : Heap)
    → (h' : Heap) × (pool_life malloc ops h ≡ some (tt, h')) × SameItems h' h
pool_life-frees malloc ops h =
    let (_, h', ran, same, _) =
      (life-Turns malloc ops).runs (λ n. count n h) h (λ n. omega arith) in
    (h', ran, λ n. omega (arith, same n))
