-- ===== src/Heap/Blocks.antt =====
-- The blocks of each structure, and what its constructor, its reset and its destructor do to them.
use liso.Base.{ℕ, ◌≡◌, refl, true, Option, none, some, List, [], ◌∷◌, ◌++◌, arith, count-append}
use liso.Response.{resp_ready, resp_in}
use liso.Heap.{
  BufAt, HdrsAt, ReqAt, RespAt, ConnAt, buf_free, mmbuf_free, hdr_free, release_hdrs, req_free,
  resp_free, ssl_free, cgi_free, cn_free, release_req, release_resp,
}
use liso.Heap.Owns.{Does, Turns, Any, Does-pure, Does-step, Does-from, Turns-then, free-Turns}

abbrev pub buf_blocks : BufAt → List ℕ
buf_blocks b = b.data_at ∷ b.self ∷ []

abbrev pub map_blocks : Option BufAt → List ℕ
map_blocks none = []
map_blocks (some b) = buf_blocks b

abbrev pub hdr_blocks : HdrsAt → List ℕ
hdr_blocks hs = hs.guard ∷ hs.nodes

abbrev pub req_blocks : ReqAt → List ℕ
req_blocks r = r.self ∷ (buf_blocks r.last_buf ++ hdr_blocks r.hdrs)

abbrev pub resp_blocks : RespAt → List ℕ
resp_blocks r = r.self ∷ (map_blocks r.mmbuf ++ hdr_blocks r.hdrs)

abbrev pub ssl_blocks : Option ℕ → List ℕ
ssl_blocks none = []
ssl_blocks (some s) = s ∷ []

abbrev pub conn_blocks : ConnAt → List ℕ
conn_blocks c =
    c.self
    ∷ c.cgi
    ∷ (buf_blocks c.buf ++ (ssl_blocks c.ssl ++ (req_blocks c.req ++ resp_blocks c.resp)))

pub buf_free-Turns : (b : BufAt) → Turns (buf_blocks b) (buf_free b) []
unfolding buf_free
buf_free-Turns b = Turns-then (free-Turns b.data_at) (free-Turns b.self)

mmbuf_free-Turns : (m : Option BufAt) → Turns (map_blocks m) (mmbuf_free m) []
unfolding mmbuf_free
mmbuf_free-Turns none = Does-pure tt (λ n. refl) tt
mmbuf_free-Turns (some b) = Turns-then (free-Turns b.data_at) (free-Turns b.self)

hdr_free-Turns : (ps : List ℕ) → Turns ps (hdr_free ps) []
unfolding hdr_free
hdr_free-Turns [] = Does-pure tt (λ n. refl) tt
hdr_free-Turns (p ∷ q) = Turns-then (free-Turns p) (hdr_free-Turns q)

req_free-Turns : (r : ReqAt) → Turns (req_blocks r) (req_free r) []
unfolding req_free
req_free-Turns r =
    Does-from
      (λ n. omega (arith, count-append n r.hdrs.nodes (buf_blocks r.last_buf ++ r.self ∷ [])))
      (Turns-then (hdr_free-Turns (hdr_blocks r.hdrs))
        (Turns-then (buf_free-Turns r.last_buf) (free-Turns r.self)))

resp_free-Turns : (r : RespAt) → Turns (resp_blocks r) (resp_free r) []
unfolding resp_free
resp_free-Turns r =
    Does-from
      (λ n. omega (
        arith,
        count-append n r.hdrs.nodes (map_blocks r.mmbuf ++ r.self ∷ []),
        count-append n (map_blocks r.mmbuf) (r.self ∷ []),
        count-append n (map_blocks r.mmbuf) (hdr_blocks r.hdrs),
      ))
      (Turns-then (hdr_free-Turns (hdr_blocks r.hdrs))
        (Turns-then (mmbuf_free-Turns r.mmbuf) (free-Turns r.self)))

pub ssl_free-Turns : (s : Option ℕ) → Turns (ssl_blocks s) (ssl_free s) []
unfolding ssl_free
ssl_free-Turns none = Does-pure tt (λ n. refl) tt
ssl_free-Turns (some s) = free-Turns s

pub cn_free-Turns : (c : ConnAt) → Turns (conn_blocks c) (cn_free c) []
unfolding cn_free cgi_free
cn_free-Turns c =
    let last = c.cgi ∷ (buf_blocks c.buf ++ c.self ∷ []) in
    Does-from
      (λ n. omega (
        arith,
        count-append n (ssl_blocks c.ssl) (req_blocks c.req ++ (resp_blocks c.resp ++ last)),
        count-append n (ssl_blocks c.ssl) (req_blocks c.req ++ resp_blocks c.resp),
        count-append n (req_blocks c.req) (resp_blocks c.resp ++ last),
        count-append n (req_blocks c.req) (resp_blocks c.resp),
        count-append n (resp_blocks c.resp) last,
      ))
      (Turns-then (ssl_free-Turns c.ssl) (
        Turns-then (req_free-Turns c.req) (
          Turns-then (resp_free-Turns c.resp) (
            Turns-then (free-Turns c.cgi)
              (Turns-then (buf_free-Turns c.buf) (free-Turns c.self))))))

-- A response that is READY has no mapping, so that `resp_mmap` loses none.
abbrev pub RespOk : RespAt → Type 0
RespOk r = resp_in r.phase resp_ready ≡ true → r.mmbuf ≡ none

release_hdrs-Does : (hs : HdrsAt) → Does (hdr_blocks hs) (release_hdrs hs) hdr_blocks Any
unfolding release_hdrs
release_hdrs-Does hs =
    Does-step (hs.guard ∷ []) (hdr_free-Turns hs.nodes)
      (λ n. omega (arith, count-append n hs.nodes (hs.guard ∷ [])))
      (λ u p. Does-pure (record hs { nodes = [] }) (λ n. refl) tt)

pub release_req-Does : (r : ReqAt) → Does (req_blocks r) (release_req r) req_blocks Any
unfolding release_req
release_req-Does r =
    let others = r.self ∷ buf_blocks r.last_buf in
    Does-step others (release_hdrs-Does r.hdrs)
      (λ n. omega (arith, count-append n r.hdrs.nodes others))
      (λ hs p.
        Does-pure (record r { hdrs = hs }) (λ n. omega (arith, count-append n hs.nodes others)) tt)

pub release_resp-Does : (r : RespAt) → Does (resp_blocks r) (release_resp r) resp_blocks RespOk
unfolding release_resp
release_resp-Does r =
    Does-step (r.self ∷ hdr_blocks r.hdrs) (mmbuf_free-Turns r.mmbuf)
      (λ n. omega (
        arith,
        count-append n (map_blocks r.mmbuf) (hdr_blocks r.hdrs),
        count-append n (map_blocks r.mmbuf) (r.self ∷ hdr_blocks r.hdrs),
      ))
      (λ u q.
        Does-step (r.self ∷ []) (release_hdrs-Does r.hdrs)
          (λ n. omega (arith, count-append n r.hdrs.nodes (r.self ∷ [])))
          (λ hs p.
            Does-pure (record r { phase = resp_ready; mmbuf = none; hdrs = hs })
              (λ n. omega (arith, count-append n hs.nodes (r.self ∷ []))) (λ e. refl)))
