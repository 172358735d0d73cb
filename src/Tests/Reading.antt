-- ===== src/Tests/Reading.antt =====
-- The theorems on what a client reads, at concrete inputs.
use liso.Base.{ℕ, ◌≡◌, refl, some, List, [], ◌∷◌, ◌++◌, codes, arith}
use liso.Response.{resp_msg, Resp}
use liso.Response.Framing.{read_response, read_reply, is_empty, is_length}
use liso.Response.Framing.RoundTrip.{resp_hdr-framed}
use liso.Request.{m_head}
use liso.Response.Serial.{resp_hdr}
use liso.CString.{strncaseeq, lower}
use liso.Conn.{Conn, Ctx, alive}
use liso.Conn.Static.{cn_prepare_static_header, cn_serve_static}
use liso.Conn.Static.Page.{page_of}
use liso.Conn.Static.Read.{error_page-framed, static_file-read}
use liso.Conn.Static.Whole.{rounds}
use liso.Pool.{Pool}
use liso.Tests.Data.{full_conn, pool_of, ctx_of, one_page, a_stat, a_resp}
use liso.Tests.Delivery.{slow-IsReady}
use liso.Tests.Http.{slow}
use liso.Tests.Memory.{full_conn-Safe, one_page-StdFiles}

-- A response of three bytes with one field of its own.
abbrev tagged : Resp
tagged = record a_resp { clen = 3; hdrs = record { key = codes "X"; val = codes "y" } ∷ [] }

resp_hdr-framed_example :
    read_response (resp_hdr tagged (codes "Thu") ++ (codes "abc" ++ codes "HTTP"))
    ≡ some (200, codes "abc", codes "HTTP")
unfolding is_empty is_length strncaseeq lower
resp_hdr-framed_example =
    resp_hdr-framed tagged (codes "Thu") (omega arith) ((omega arith, refl, refl), tt) (codes "abc")
      (codes "HTTP") refl

abbrev missing : Conn
missing = record full_conn { resp = record a_resp { status = 404 } }

-- The same for a HEAD: the page is left in front of what follows.
abbrev missing_head : Conn
missing_head = record missing { req = record missing.req { method = m_head } }

error_page-framed_example :
    read_reply m_head (page_of missing_head (codes "Thu") ++ codes "GET")
    ≡ some (404, [], resp_msg 404 ++ codes "GET")
error_page-framed_example =
    error_page-framed missing_head (codes "Thu") (codes "GET") (omega arith) tt

static_file-read_example :
    (z : Ctx Pool) × (cn_prepare_static_header
        (ctx_of full_conn (pool_of []))
        one_page
        (codes "Thu")
        (λ x code. (alive, x))
      ≡ (alive, z))
    × (k : ℕ) × (y : Ctx Pool) × (cn_serve_static
          (rounds (λ i. slow) (codes "Thu") (λ x. (alive, x)) (λ x. (alive, x)) k z)
          slow
          (codes "Thu")
          (λ x. (alive, x))
          (λ x. (alive, x))
        ≡ (alive, y))
    × (page : List ℕ) × (y.sent ≡ page)
    × (read_response page ≡ some (200, codes "hello", []))
static_file-read_example =
    static_file-read (ctx_of full_conn (pool_of [])) one_page (codes "Thu") a_stat (codes "hello")
      (record { stats = refl; regular = refl; opens = refl; maps = refl }) refl refl full_conn-Safe
      refl (omega arith) (omega arith) (λ x code. (alive, x)) (λ i. slow) (λ x. (alive, x))
      (λ x. (alive, x)) (omega arith) one_page-StdFiles (omega arith) (λ i. slow-IsReady)
