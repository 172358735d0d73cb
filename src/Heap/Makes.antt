-- ===== src/Heap/Makes.antt =====
-- What the constructors of a connection take, and what `pl_reset_conn` and `resp_mmap` do to its blocks.
use liso.Base.{
  ℕ, zero, suc, ◌≡◌, refl, none, some, List, [], ◌∷◌, ◌++◌, arith, count-append, SameItems,
}
use liso.Response.{resp_ready}
use liso.Heap.{
  Heap, HdrsAt, ReqAt, RespAt, ConnAt, Attempt, unopened, unmapped, mapped, release_conn,
  malloc_buf, malloc_hdrs, malloc_req, malloc_resp, malloc_conn, insert_hdrs, map_attempts,
}
use liso.Heap.Owns.{Does, Any, Does-pure, Does-step, Does-from, take_block-Does, free-Turns}
use liso.Heap.Blocks.{
  buf_blocks, map_blocks, hdr_blocks, req_blocks, resp_blocks, ssl_blocks, conn_blocks, RespOk,
  release_req-Does, release_resp-Does,
}

abbrev pub ConnOk : ConnAt → Type 0
ConnOk c = RespOk c.resp

-- A new connection has no SSL object yet.
abbrev pub NewOk : ConnAt → Type 0
NewOk c = ConnOk c × (c.ssl ≡ none)

-- The blocks of a connection but those of its request and its response.
abbrev pub own_blocks : ConnAt → List ℕ
own_blocks c = c.self ∷ c.cgi ∷ (buf_blocks c.buf ++ ssl_blocks c.ssl)

-- The blocks of a connection with the request `q` and the response `p`, in the orders that are met.
pub conn_blocks-split :
    (c : ConnAt) (q : ReqAt) (p : RespAt)
    → SameItems
        (conn_blocks (record c { req = q; resp = p }))
        (req_blocks q ++ (resp_blocks p ++ own_blocks c))
conn_blocks-split c q p n = omega (
  arith,
  count-append n (ssl_blocks c.ssl) (req_blocks q ++ resp_blocks p),
  count-append n (req_blocks q) (resp_blocks p),
  count-append n (req_blocks q) (resp_blocks p ++ own_blocks c),
  count-append n (resp_blocks p) (own_blocks c),
)

pub swap_front : (xs ys zs : List ℕ) → SameItems (xs ++ (ys ++ zs)) (ys ++ (xs ++ zs))
swap_front xs ys zs n = omega (
  arith,
  count-append n xs (ys ++ zs),
  count-append n ys zs,
  count-append n ys (xs ++ zs),
  count-append n xs zs,
)

pub release_conn-Does : (c : ConnAt) → Does (conn_blocks c) (release_conn c) conn_blocks ConnOk
unfolding release_conn
release_conn-Does c =
    Does-step (resp_blocks c.resp ++ own_blocks c) (release_req-Does c.req)
      (conn_blocks-split c c.req c.resp)
      (λ q _.
        Does-step (req_blocks q ++ own_blocks c) (release_resp-Does c.resp)
          (swap_front (req_blocks q) (resp_blocks c.resp) (own_blocks c))
          (λ p ok.
            Does-pure (record c { req = q; resp = p })
              (λ n. omega (
                arith,
                conn_blocks-split c q p n,
                swap_front (req_blocks q) (resp_blocks p) (own_blocks c) n,
              ))
              ok))

module _ (malloc : Heap → ℕ) where
  pub malloc_buf-Does : Does [] (malloc_buf malloc) buf_blocks Any
  unfolding malloc_buf
  malloc_buf-Does =
      Does-step [] (take_block-Does malloc) (λ n. refl)
        (λ s _.
          Does-step (s ∷ []) (take_block-Does malloc) (λ n. refl)
            (λ d _. Does-pure (record { self = s; data_at = d }) (λ n. refl) tt))

  malloc_hdrs-Does : Does [] (malloc_hdrs malloc) hdr_blocks Any
  unfolding malloc_hdrs
  malloc_hdrs-Does =
      Does-step [] (take_block-Does malloc) (λ n. refl)
        (λ g _. Does-pure (record { guard = g; nodes = [] }) (λ n. refl) tt)

  malloc_req-Does : Does [] (malloc_req malloc) req_blocks Any
  unfolding malloc_req
  malloc_req-Does =
      Does-step [] (take_block-Does malloc) (λ n. refl)
        (λ s _.
          Does-step (s ∷ []) malloc_hdrs-Does (λ n. refl)
            (λ hs _.
              Does-step (hdr_blocks hs ++ s ∷ []) (malloc_buf-Does) (λ n. refl)
                (λ b _.
                  Does-from (λ n. omega (arith, count-append n hs.nodes (s ∷ [])))
                    (release_req-Does (record { self = s; hdrs = hs; last_buf = b })))))

  malloc_resp-Does : Does [] (malloc_resp malloc) resp_blocks RespOk
  unfolding malloc_resp
  malloc_resp-Does =
      Does-step [] (take_block-Does malloc) (λ n. refl)
        (λ s _.
          Does-step (s ∷ []) malloc_hdrs-Does (λ n. refl)
            (λ hs _.
              Does-from (λ n. omega (arith, count-append n hs.nodes (s ∷ [])))
                (release_resp-Does
                  (record { self = s; phase = resp_ready; hdrs = hs; mmbuf = none }))))

  pub malloc_conn-Does : Does [] (malloc_conn malloc) conn_blocks NewOk
  unfolding malloc_conn
  malloc_conn-Does =
      Does-step [] (take_block-Does malloc) (λ n. refl)
        (λ s _.
          Does-step (s ∷ []) malloc_req-Does (λ n. refl)
            (λ q _.
              Does-step (req_blocks q ++ s ∷ []) malloc_resp-Does (λ n. refl)
                (λ p ok.
                  let three = resp_blocks p ++ (req_blocks q ++ s ∷ []) in
                  Does-step three (take_block-Does malloc) (λ n. refl)
                    (λ g _.
                      Does-step (g ∷ three) malloc_buf-Does (λ n. refl)
                        (λ b _.
                          let c : ConnAt = record {
                            self = s;
                            req = q;
                            resp = p;
                            cgi = g;
                            buf = b;
                            ssl = none;
                          } in
                          Does-pure c
                            (λ n. omega (
                              arith,
                              count-append n (req_blocks q) (resp_blocks p),
                              count-append n (resp_blocks p) (req_blocks q ++ s ∷ []),
                              count-append n (req_blocks q) (s ∷ []),
                            ))
                            (ok, refl))))))

  pub insert_hdrs-Does :
      (k : ℕ) (hs : HdrsAt) → Does (hdr_blocks hs) (insert_hdrs malloc k hs) hdr_blocks Any
  unfolding insert_hdrs
  insert_hdrs-Does zero hs = Does-pure hs (λ n. refl) tt
  insert_hdrs-Does (suc k) hs =
      Does-step (hdr_blocks hs) (take_block-Does malloc) (λ n. refl)
        (λ p _.
          Does-from (λ n. omega arith) (insert_hdrs-Does k (record hs { nodes = p ∷ hs.nodes })))

  -- From a response that has no mapping.
  pub map_attempts-Does :
      (tries : List Attempt) → Does [] (map_attempts malloc tries none) map_blocks Any
  unfolding map_attempts
  map_attempts-Does [] = Does-pure none (λ n. refl) tt
  map_attempts-Does (unopened ∷ rest) = map_attempts-Does rest
  map_attempts-Does (unmapped ∷ rest) =
      Does-step [] (take_block-Does malloc) (λ n. refl)
        (λ s _. Does-step [] (free-Turns s) (λ n. refl) (λ _ _. map_attempts-Does rest))
  map_attempts-Does (mapped ∷ rest) =
      Does-step [] malloc_buf-Does (λ n. refl) (λ b _. Does-pure (some b) (λ n. refl) tt)
