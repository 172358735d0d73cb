-- ===== src/Heap/Conns.antt =====
-- The blocks of the connections of a pool, and what deleting one and freeing all do to them.
use liso.Base.{
  ℕ, zero, suc, ◌≤◌, refl, List, [], ◌∷◌, ◌++◌, arith, length, All, count-append, SameItems,
  SameItems-comm,
}
use liso.Heap.{ConnAt}
use liso.Heap.Owns.{Does, Turns, Does-pure, Does-step, Turns-then, free-Turns}
use liso.Heap.Blocks.{conn_blocks, cn_free-Turns}
use liso.Heap.Makes.{ConnOk, release_conn-Does}
use liso.Heap.Pool.{PoolAt, delete_at, free_conns, pl_free}

abbrev pub conns_blocks : List ConnAt → List ℕ
conns_blocks [] = []
conns_blocks (c ∷ cs) = conn_blocks c ++ conns_blocks cs

abbrev pub pool_blocks : PoolAt → List ℕ
pool_blocks p = conns_blocks p.conns ++ p.array ∷ p.self ∷ []

pub conns_blocks-snoc :
    (cs : List ConnAt) (c : ConnAt)
    → SameItems (conns_blocks (cs ++ c ∷ [])) (conn_blocks c ++ conns_blocks cs)
conns_blocks-snoc [] c n = refl
conns_blocks-snoc (d ∷ cs) c n = omega (
  arith,
  conns_blocks-snoc cs c n,
  count-append n (conn_blocks d) (conns_blocks (cs ++ c ∷ [])),
  count-append n (conn_blocks d) (conns_blocks cs),
  count-append n (conn_blocks c) (conns_blocks cs),
  count-append n (conn_blocks c) (conn_blocks d ++ conns_blocks cs),
)

-- At most `m` connections, none of which is READY with a mapping.
pub record ConnsOk (m : ℕ) (cs : List ConnAt) : Type 0 where
  pub conns : All ConnOk cs
  pub few : length cs ≤ m

free_conns-Turns : (cs : List ConnAt) → Turns (conns_blocks cs) (free_conns cs) []
unfolding free_conns
free_conns-Turns [] = Does-pure tt (λ n. refl) tt
free_conns-Turns (c ∷ cs) = Turns-then (cn_free-Turns c) (free_conns-Turns cs)

pub pl_free-Turns : (p : PoolAt) → Turns (pool_blocks p) (pl_free p) []
unfolding pl_free
pl_free-Turns p =
    Turns-then (free_conns-Turns p.conns) (Turns-then (free-Turns p.array) (free-Turns p.self))

pub delete-Does :
    (i : ℕ) (cs : List ConnAt)
    → All ConnOk cs
    → Does (conns_blocks cs) (delete_at i cs) conns_blocks (ConnsOk (length cs))
unfolding delete_at
delete-Does i [] ok = Does-pure [] (λ n. refl) (record { conns = tt; few = omega arith })
delete-Does zero (c ∷ cs) (_, ok) =
    Does-step (conns_blocks cs) (release_conn-Does c) (λ n. refl)
      (λ c' _.
        Does-step (conns_blocks cs) (cn_free-Turns c') (λ n. refl)
          (λ _ _. Does-pure cs (λ n. refl) (record { conns = ok; few = omega arith })))
delete-Does (suc i) (c ∷ cs) (o, ok) =
    Does-step (conn_blocks c) (delete-Does i cs ok)
      (SameItems-comm (conn_blocks c) (conns_blocks cs))
      (λ cs' k.
        Does-pure (c ∷ cs') (SameItems-comm (conns_blocks cs') (conn_blocks c))
          (record { conns = (o, k.conns); few = let few = k.few in omega arith }))
