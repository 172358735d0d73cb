-- ===== src/Tests/Heap.antt =====
-- The theorem on the blocks of the server, at a concrete input.
use liso.Base.{ℕ, ◌+◌, ◌≡◌, true, false, none, some, List, [], ◌∷◌, max, SameItems}
use liso.Response.{resp_body}
use liso.Heap.{Heap, unopened, unmapped, mapped}
use liso.Heap.Pool.{
  PoolOp, accepts, serves, deletes, reads, drops_ssl, prepares, moves, resets, pool_life,
}
use liso.Heap.Life.{pool_life-frees}

-- An allocator that gives an address above all that are live.
abbrev above : Heap → ℕ
above [] = 1
above (p ∷ h) = max (p + 1) (above h)

-- Two clients, the second by SSL, and one whose SSL object cannot be attached. The first gets a file
-- and goes; the second is still there at the end.
abbrev history : List PoolOp
history =
    accepts none
    ∷ accepts (some (true, true))
    ∷ serves 0 (reads 2)
    ∷ serves 0 (prepares (unopened ∷ unmapped ∷ mapped ∷ []) true 2)
    ∷ serves 0 (moves resp_body)
    ∷ serves 1 drops_ssl
    ∷ accepts (some (true, false))
    ∷ serves 0 resets
    ∷ serves 1 (reads 1)
    ∷ deletes 0
    ∷ []

pool_life-frees_example :
    (h' : Heap) × (pool_life above history (7 ∷ []) ≡ some (tt, h')) × SameItems h' (7 ∷ [])
pool_life-frees_example = pool_life-frees above history (7 ∷ [])
