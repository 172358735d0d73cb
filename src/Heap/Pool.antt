-- ===== src/Heap/Pool.antt =====
-- The blocks of pool.c and of lisod.c's accept, and the life of the server as what it does to them.
-- The order of the slots is the matter of the module Pool: here the others keep theirs.
use liso.Base.{
  ℕ, zero, suc, Bool, true, false, Option, none, some, List, [], ◌∷◌, ◌++◌, ◌==◌, leb, length,
  if◌then◌else◌,
}
use liso.Response.{RespPhase, resp_ready, resp_header, resp_abort, resp_in}
use liso.Pool.{max_conns}
use liso.Heap.{
  Heap, Cmd, ◌>>=◌, ◌>>◌, pure, ConnAt, Attempt, free, buf_free, ssl_free, cn_free, release_conn,
  take_block, malloc_buf, malloc_conn, insert_hdrs, map_attempts,
}

-- `pool_t`, its array, and the connections.
pub record PoolAt : Type 0 where
  pub self : ℕ
  pub array : ℕ
  pub conns : List ConnAt

-- What the stages of a round do to the blocks of their connection: `cn_recv` parses lines with some
-- headers, or gives up SSL; `cn_prepare_static_header` maps a file and writes headers, with success or
-- not; a phase is left for another; `pl_reset_conn`.
pub data ConnOp : Type 0 where
  reads : ℕ → ConnOp
  drops_ssl : ConnOp
  prepares : List Attempt → Bool → ℕ → ConnOp
  moves : RespPhase → ConnOp
  resets : ConnOp

-- `liso_accept_conn`, with what `SSL_new` and `SSL_set_fd` answer if it is for SSL; a stage of a
-- connection; `pl_del_conn`.
pub data PoolOp : Type 0 where
  accepts : Option (Bool × Bool) → PoolOp
  serves : ℕ → ConnOp → PoolOp
  deletes : ℕ → PoolOp

unfoldable pub add_at : PoolAt → ConnAt → PoolAt
add_at p c = if leb max_conns (length p.conns) then p else (record p { conns = p.conns ++ c ∷ [] })

unfoldable pub delete_at : ℕ → List ConnAt → Cmd (List ConnAt)
delete_at i [] = pure []
delete_at zero (c ∷ cs) = do c' ← release_conn c; cn_free c'; pure cs
delete_at (suc i) (c ∷ cs) = do cs' ← delete_at i cs; pure (c ∷ cs')

unfoldable pub free_conns : List ConnAt → Cmd (Unit {0})
free_conns [] = pure tt
free_conns (c ∷ cs) = cn_free c >> free_conns cs

unfoldable pub pl_free : PoolAt → Cmd (Unit {0})
pl_free p = do free_conns p.conns; free p.array; free p.self

module _ (malloc : Heap → ℕ) where
  unfoldable pub malloc_pool : Cmd PoolAt
  malloc_pool = do
    s ← take_block malloc
    a ← take_block malloc
    pure (record { self = s; array = a; conns = [] })

  -- `cn_init_ssl`
  unfoldable pub attach_ssl : Bool → Bool → ConnAt → Cmd (ConnAt × Bool)
  attach_ssl false attached c = pure (c, false)
  attach_ssl true false c = do
    s ← take_block malloc
    ssl_free (some s)
    pure (record c { ssl = none }, false)
  attach_ssl true true c = do s ← take_block malloc; pure (record c { ssl = some s }, true)

  unfoldable pub keep_if : PoolAt → ConnAt × Bool → Cmd PoolAt
  keep_if p (c, false) = do cn_free c; pure p
  keep_if p (c, true) = pure (add_at p c)

  unfoldable pub secure_at : PoolAt → Option (Bool × Bool) → ConnAt → Cmd PoolAt
  secure_at p none c = pure (add_at p c)
  secure_at p (some (made, attached)) c = attach_ssl made attached c >>= keep_if p

  unfoldable pub accept_at : Option (Bool × Bool) → PoolAt → Cmd PoolAt
  accept_at ssl p =
      if length p.conns == max_conns then pure p else malloc_conn malloc >>= secure_at p ssl

  unfoldable pub read_at : ℕ → ConnAt → Cmd ConnAt
  read_at n c = do
    b ← malloc_buf malloc
    hs ← insert_hdrs malloc n c.req.hdrs
    buf_free b
    pure (record c { req = record c.req { hdrs = hs } })

  unfoldable pub fill_at : List Attempt → Bool → ℕ → ConnAt → Cmd ConnAt
  fill_at tries built n c = do
    m ← map_attempts malloc tries c.resp.mmbuf
    hs ← insert_hdrs malloc n c.resp.hdrs
    pure (record c {
      resp = record c.resp {
        mmbuf = m;
        hdrs = hs;
        phase = if built then resp_header else resp_abort;
      };
    })

  unfoldable pub prepare_at : List Attempt → Bool → ℕ → ConnAt → Cmd ConnAt
  prepare_at tries built n c =
      if resp_in c.resp.phase resp_ready then fill_at tries built n c else pure c

  unfoldable pub conn_op : ConnOp → ConnAt → Cmd ConnAt
  conn_op (reads n) c = read_at n c
  conn_op drops_ssl c = do ssl_free c.ssl; pure (record c { ssl = none })
  conn_op (prepares tries built n) c = prepare_at tries built n c
  conn_op (moves to) c =
      if resp_in to resp_ready
      then pure c
      else pure (record c { resp = record c.resp { phase = to } })
  conn_op resets c = release_conn c

  unfoldable pub serve_at : ConnOp → ℕ → List ConnAt → Cmd (List ConnAt)
  serve_at op i [] = pure []
  serve_at op zero (c ∷ cs) = do c' ← conn_op op c; pure (c' ∷ cs)
  serve_at op (suc i) (c ∷ cs) = do cs' ← serve_at op i cs; pure (c ∷ cs')

  unfoldable pub pool_op : PoolOp → PoolAt → Cmd PoolAt
  pool_op (accepts ssl) p = accept_at ssl p
  pool_op (serves i op) p = do cs ← serve_at op i p.conns; pure (record p { conns = cs })
  pool_op (deletes i) p = do cs ← delete_at i p.conns; pure (record p { conns = cs })

  unfoldable pub pool_ops : List PoolOp → PoolAt → Cmd PoolAt
  pool_ops [] p = pure p
  pool_ops (op ∷ ops) p = do p' ← pool_op op p; pool_ops ops p'

  -- From `pl_new` in main to `pl_free` in `teardown`.
  unfoldable pub pool_life : List PoolOp → Cmd (Unit {0})
  pool_life ops = do p ← malloc_pool; p' ← pool_ops ops p; pl_free p'
