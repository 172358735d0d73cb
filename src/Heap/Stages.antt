-- ===== src/Heap/Stages.antt =====
-- What the stages of a round do to the blocks of their connection.
use liso.Base.{
  ℕ, ◌≡◌, refl, Bool, true, false, Option, none, some, List, [], ◌∷◌, ◌++◌, arith, if◌then◌else◌,
  Bool-cases, inl, inr, ap, count, count-append, SameItems,
}
use liso.Response.{RespPhase, resp_ready, resp_header, resp_abort, resp_in}
use liso.Heap.{Heap, Attempt, ConnAt, HdrsAt, map_attempts, BufAt}
use liso.Heap.Owns.{Does, Any, Does-pure, Does-step, take_block-Does}
use liso.Heap.Blocks.{
  buf_blocks, map_blocks, hdr_blocks, req_blocks, resp_blocks, ssl_blocks, conn_blocks,
  buf_free-Turns, ssl_free-Turns,
}
use liso.Heap.Makes.{
  ConnOk, NewOk, own_blocks, conn_blocks-split, swap_front, release_conn-Does, malloc_buf-Does,
  insert_hdrs-Does, map_attempts-Does,
}
use liso.Heap.Pool.{
  ConnOp, reads, drops_ssl, prepares, moves, resets, attach_ssl, read_at, fill_at, prepare_at,
  conn_op,
}

-- The blocks of a connection but the headers of its request, and but those of its response.
abbrev beside_req : ConnAt → List ℕ
beside_req c = c.req.self ∷ (buf_blocks c.req.last_buf ++ (resp_blocks c.resp ++ own_blocks c))

abbrev beside_resp : ConnAt → List ℕ
beside_resp c = c.resp.self ∷ (req_blocks c.req ++ own_blocks c)

abbrev with_req_hdrs : ConnAt → HdrsAt → ConnAt
with_req_hdrs c hs = record c { req = record c.req { hdrs = hs } }

req_hdrs-split :
    (c : ConnAt) (hs : HdrsAt)
    → SameItems (conn_blocks (with_req_hdrs c hs)) (hdr_blocks hs ++ beside_req c)
req_hdrs-split c hs n = omega (
  arith,
  conn_blocks-split c (record c.req { hdrs = hs }) c.resp n,
  count-append n hs.nodes (resp_blocks c.resp ++ own_blocks c),
  count-append n hs.nodes (beside_req c),
)

abbrev with_resp : ConnAt → HdrsAt → Option BufAt → RespPhase → ConnAt
with_resp c hs m phase = record c { resp = record c.resp { hdrs = hs; mmbuf = m; phase = phase } }

resp-split :
    (c : ConnAt) (hs : HdrsAt) (m : Option BufAt) (phase : RespPhase)
    → SameItems
        (conn_blocks (with_resp c hs m phase))
        (hdr_blocks hs ++ (map_blocks m ++ beside_resp c))
resp-split c hs m phase n =
    let r = record c.resp { hdrs = hs; mmbuf = m; phase = phase } in
    omega (
      arith,
      conn_blocks-split c c.req r n,
      swap_front (req_blocks c.req) (resp_blocks r) (own_blocks c) n,
      count-append n (map_blocks m ++ hdr_blocks hs) (req_blocks c.req ++ own_blocks c),
      count-append n (map_blocks m) (hdr_blocks hs),
      count-append n hs.nodes (map_blocks m ++ beside_resp c),
      count-append n (map_blocks m) (beside_resp c),
    )

left_ready :
    (built : Bool) (m : Option BufAt)
    → resp_in (if built then resp_header else resp_abort) resp_ready ≡ true
    → m ≡ none
left_ready true m e = absurd (ground arith)
left_ready false m e = absurd (ground arith)

without_ssl :
    (c : ConnAt) → c.ssl ≡ none → SameItems (conn_blocks c) (conn_blocks (record c { ssl = none }))
without_ssl c empty n = ap (λ s. count n (conn_blocks (record c { ssl = s }))) empty

module _ (malloc : Heap → ℕ) where
  read-Does :
      (k : ℕ) (c : ConnAt) → ConnOk c → Does (conn_blocks c) (read_at malloc k c) conn_blocks ConnOk
  unfolding read_at
  read-Does k c ok =
      Does-step (conn_blocks c) (malloc_buf-Does malloc) (λ n. refl)
        (λ b _.
          let others = buf_blocks b ++ beside_req c in
          Does-step others (insert_hdrs-Does malloc k c.req.hdrs)
            (λ n. omega (
              arith,
              req_hdrs-split c c.req.hdrs n,
              count-append n c.req.hdrs.nodes (beside_req c),
              count-append n c.req.hdrs.nodes others,
            ))
            (λ hs _.
              Does-step (hdr_blocks hs ++ beside_req c) (buf_free-Turns b)
                (λ n.
                  omega
                    (arith, count-append n hs.nodes (beside_req c), count-append n hs.nodes others))
                (λ _ _.
                  Does-pure (with_req_hdrs c hs) (λ n. omega (arith, req_hdrs-split c hs n)) ok)))

  fill-Does :
      (tries : List Attempt) (built : Bool) (k : ℕ) (c : ConnAt)
      → c.resp.mmbuf ≡ none
      → Does (conn_blocks c) (fill_at malloc tries built k c) conn_blocks ConnOk
  unfolding fill_at
  fill-Does tries built k c empty =
      let phase = if built then resp_header else resp_abort in
      let start = hdr_blocks c.resp.hdrs ++ beside_resp c in
      let mapping : Does [] (map_attempts malloc tries c.resp.mmbuf) map_blocks Any =
        rw empty (map_attempts-Does malloc tries) in
      Does-step start mapping
        (λ n. omega (
          arith,
          resp-split c c.resp.hdrs c.resp.mmbuf c.resp.phase n,
          ap (λ m. count n (map_blocks m)) empty,
          count-append n c.resp.hdrs.nodes (map_blocks c.resp.mmbuf ++ beside_resp c),
          count-append n (map_blocks c.resp.mmbuf) (beside_resp c),
          count-append n c.resp.hdrs.nodes (beside_resp c),
        ))
        (λ m _.
          Does-step (map_blocks m ++ beside_resp c) (insert_hdrs-Does malloc k c.resp.hdrs)
            (swap_front (map_blocks m) (hdr_blocks c.resp.hdrs) (beside_resp c))
            (λ hs _.
              Does-pure (with_resp c hs m phase) (λ n. omega (arith, resp-split c hs m phase n))
                (left_ready built m)))

  prepare-Does :
      (tries : List Attempt) (built : Bool) (k : ℕ) (c : ConnAt)
      → ConnOk c
      → Does (conn_blocks c) (prepare_at malloc tries built k c) conn_blocks ConnOk
  unfolding prepare_at
  prepare-Does tries built k c ok = elim (Bool-cases (resp_in c.resp.phase resp_ready)) [
    | inl e ↦ rw e (fill-Does tries built k c (ok e))
    | inr e ↦ rw e (Does-pure c (λ n. refl) ok)
  ]

  move-Does :
      (to : RespPhase) (c : ConnAt)
      → ConnOk c
      → Does (conn_blocks c) (conn_op malloc (moves to) c) conn_blocks ConnOk
  unfolding conn_op
  move-Does to c ok = elim (Bool-cases (resp_in to resp_ready)) [
    | inl e ↦ rw e (Does-pure c (λ n. refl) ok)
    | inr e ↦ rw e (
        Does-pure (record c { resp = record c.resp { phase = to } }) (λ n. refl)
          (λ ready. absurd (cc)))
  ]

  drop-Does :
      (c : ConnAt) → ConnOk c → Does (conn_blocks c) (conn_op malloc drops_ssl c) conn_blocks ConnOk
  unfolding conn_op
  drop-Does c ok =
      let others =
        c.self ∷ c.cgi ∷ (buf_blocks c.buf ++ (req_blocks c.req ++ resp_blocks c.resp)) in
      Does-step others (ssl_free-Turns c.ssl)
        (λ n. omega (
          arith,
          count-append n (ssl_blocks c.ssl) (req_blocks c.req ++ resp_blocks c.resp),
          count-append n (ssl_blocks c.ssl) others,
        ))
        (λ _ _. Does-pure (record c { ssl = none }) (λ n. refl) ok)

  pub conn_op-Does :
      (op : ConnOp) (c : ConnAt)
      → ConnOk c
      → Does (conn_blocks c) (conn_op malloc op c) conn_blocks ConnOk
  unfolding conn_op
  conn_op-Does (reads k) c ok = read-Does k c ok
  conn_op-Does drops_ssl c ok = drop-Does c ok
  conn_op-Does (prepares tries built k) c ok = prepare-Does tries built k c ok
  conn_op-Does (moves to) c ok = move-Does to c ok
  conn_op-Does resets c ok = release_conn-Does c

  -- `cn_init_ssl` on a connection without SSL.
  pub attach-Does :
      (made attached : Bool) (c : ConnAt)
      → NewOk c
      → Does
          (conn_blocks c)
          (attach_ssl malloc made attached c)
          (λ r. conn_blocks r.0)
          (λ r. ConnOk r.0)
  unfolding attach_ssl
  attach-Does false attached c (ok, _) = Does-pure (c, false) (λ n. refl) ok
  attach-Does true false c (ok, empty) =
      Does-step (conn_blocks c) (take_block-Does malloc) (λ n. refl)
        (λ s _.
          Does-step (conn_blocks c) (ssl_free-Turns (some s)) (λ n. refl)
            (λ _ _. Does-pure (record c { ssl = none }, false) (without_ssl c empty) ok))
  attach-Does true true c (ok, empty) =
      Does-step (conn_blocks c) (take_block-Does malloc) (λ n. refl)
        (λ s _.
          Does-pure (record c { ssl = some s }, true) (λ n. omega (arith, without_ssl c empty n))
            ok)
