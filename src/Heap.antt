-- ===== src/Heap.antt =====
-- The memory of the connections: which blocks the constructors, the resets and the destructors of
-- buffer.c, header.c, request.c, response.c, cgi.c and conn.c take and give back. A block is its
-- address; what it holds is in the other modules. Mappings and SSL objects are blocks as well.
pub mod Owns
pub mod Blocks
pub mod Makes
pub mod Pool
pub mod Stages
pub mod Conns
pub mod Life
use liso.Base.{ℕ, zero, suc, Option, none, some, List, [], ◌∷◌, ◌==◌, if◌then◌else◌}
use liso.Response.{RespPhase, resp_ready}

-- The blocks that are live. A command on them fails when it frees a block that is not live.
abbrev pub Heap : Type 0
Heap = List ℕ

abbrev pub Cmd : Type 0 → Type 0
Cmd Value = Heap → Option (Value × Heap)

-- What follows a command goes on with the heap that the command left, unless it failed.
abbrev pub continue_with : {A B : Type 0} → (A → Cmd B) → Option (A × Heap) → Option (B × Heap)
continue_with next none = none
continue_with next (some (value, left)) = next value left

infixl 5 ◌>>=◌ ◌>>◌
abbrev pub ◌>>=◌ : {A B : Type 0} → Cmd A → (A → Cmd B) → Cmd B
command >>= next = λ blocks. continue_with next (command blocks)

abbrev pub ◌>>◌ : {B : Type 0} → Cmd (Unit {0}) → Cmd B → Cmd B
first >> second = first >>= λ done. second

-- A command that changes nothing.
abbrev pub pure : {A : Type 0} → A → Cmd A
pure value blocks = some (value, blocks)

abbrev prepend : ℕ → Option (Unit {0} × Heap) → Option (Unit {0} × Heap)
prepend q none = none
prepend q (some (u, h)) = some (u, q ∷ h)

-- `free`, `munmap` and `SSL_free`
unfoldable pub free : ℕ → Cmd (Unit {0})
free p [] = none
free p (q ∷ h) = if q == p then some (tt, h) else prepend q (free p h)

-- A structure of two blocks, `buf_t` and its data or a `buf_t` and a mapping.
pub record BufAt : Type 0 where
  pub self : ℕ
  pub data_at : ℕ

-- The guard node of a list of headers and the nodes behind it.
pub record HdrsAt : Type 0 where
  pub guard : ℕ
  pub nodes : List ℕ

pub record ReqAt : Type 0 where
  pub self : ℕ
  pub hdrs : HdrsAt
  pub last_buf : BufAt

pub record RespAt : Type 0 where
  pub self : ℕ
  pub phase : RespPhase
  pub hdrs : HdrsAt
  pub mmbuf : Option BufAt

pub record ConnAt : Type 0 where
  pub self : ℕ
  pub req : ReqAt
  pub resp : RespAt
  pub cgi : ℕ
  pub buf : BufAt
  pub ssl : Option ℕ

unfoldable pub buf_free : BufAt → Cmd (Unit {0})
buf_free b = free b.data_at >> free b.self

unfoldable pub mmbuf_free : Option BufAt → Cmd (Unit {0})
mmbuf_free none = pure tt
mmbuf_free (some b) = free b.data_at >> free b.self

-- The loop of `hdr_free`, over the nodes of the list.
unfoldable pub hdr_free : List ℕ → Cmd (Unit {0})
hdr_free [] = pure tt
hdr_free (p ∷ q) = free p >> hdr_free q

unfoldable pub release_hdrs : HdrsAt → Cmd HdrsAt
release_hdrs hs = do hdr_free hs.nodes; pure (record hs { nodes = [] })

unfoldable pub req_free : ReqAt → Cmd (Unit {0})
req_free r = do hdr_free (r.hdrs.guard ∷ r.hdrs.nodes); buf_free r.last_buf; free r.self

unfoldable pub resp_free : RespAt → Cmd (Unit {0})
resp_free r = do hdr_free (r.hdrs.guard ∷ r.hdrs.nodes); mmbuf_free r.mmbuf; free r.self

-- `cgi_free`, whose argument is never null.
unfoldable pub cgi_free : ℕ → Cmd (Unit {0})
cgi_free g = free g

unfoldable pub ssl_free : Option ℕ → Cmd (Unit {0})
ssl_free none = pure tt
ssl_free (some s) = free s

unfoldable pub cn_free : ConnAt → Cmd (Unit {0})
cn_free c = do
  ssl_free c.ssl
  req_free c.req
  resp_free c.resp
  cgi_free c.cgi
  buf_free c.buf
  free c.self

-- The memory that `req_reset`, `resp_reset` and `pl_reset_conn` give back.
unfoldable pub release_req : ReqAt → Cmd ReqAt
release_req r = do hs ← release_hdrs r.hdrs; pure (record r { hdrs = hs })

unfoldable pub release_resp : RespAt → Cmd RespAt
release_resp r = do
  mmbuf_free r.mmbuf
  hs ← release_hdrs r.hdrs
  pure (record r { phase = resp_ready; mmbuf = none; hdrs = hs })

unfoldable pub release_conn : ConnAt → Cmd ConnAt
release_conn c = do
  q ← release_req c.req
  p ← release_resp c.resp
  pure (record c { req = q; resp = p })

-- What an attempt of `resp_mmap` on a path comes to: no file is opened, `mmap` fails, or it succeeds.
pub data Attempt : Type 0 where
  unopened unmapped mapped : Attempt

-- `malloc`, `mmap` and `SSL_new`, which give the address of a block when they succeed.
module _ (malloc : Heap → ℕ) where
  unfoldable pub take_block : Cmd ℕ
  take_block h = some (malloc h, malloc h ∷ h)

  unfoldable pub malloc_buf : Cmd BufAt
  malloc_buf = do s ← take_block; d ← take_block; pure (record { self = s; data_at = d })

  unfoldable pub malloc_hdrs : Cmd HdrsAt
  malloc_hdrs = do g ← take_block; pure (record { guard = g; nodes = [] })

  unfoldable pub malloc_req : Cmd ReqAt
  malloc_req = do
    s ← take_block
    hs ← malloc_hdrs
    b ← malloc_buf
    release_req (record { self = s; hdrs = hs; last_buf = b })

  unfoldable pub malloc_resp : Cmd RespAt
  malloc_resp = do
    s ← take_block
    hs ← malloc_hdrs
    release_resp (record { self = s; phase = resp_ready; hdrs = hs; mmbuf = none })

  unfoldable pub malloc_conn : Cmd ConnAt
  malloc_conn = do
    s ← take_block
    q ← malloc_req
    p ← malloc_resp
    g ← take_block
    b ← malloc_buf
    pure (record { self = s; req = q; resp = p; cgi = g; buf = b; ssl = none })

  -- `hdr_insert` of `n` new headers
  unfoldable pub insert_hdrs : ℕ → HdrsAt → Cmd HdrsAt
  insert_hdrs zero hs = pure hs
  insert_hdrs (suc n) hs = do p ← take_block; insert_hdrs n (record hs { nodes = p ∷ hs.nodes })

  -- The mapping behind attempts on the paths of `resp_build`, up to the first that succeeds. A `mmap`
  -- that fails gives its structure back and leaves a null pointer.
  unfoldable pub map_attempts : List Attempt → Option BufAt → Cmd (Option BufAt)
  map_attempts [] m = pure m
  map_attempts (unopened ∷ rest) m = map_attempts rest m
  map_attempts (unmapped ∷ rest) m = do s ← take_block; free s; map_attempts rest none
  map_attempts (mapped ∷ rest) m = do b ← malloc_buf; pure (some b)
