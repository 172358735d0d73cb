-- ===== src/Tests/Delivery.antt =====
-- The theorems on the delivery of a file and of the output of a CGI program, at concrete inputs.
use liso.Base.{
  ℕ, suc, ◌<◌, ◌≡◌, inl, refl, Bool, true, false, some, List, [], ◌∷◌, ◌++◌, arith, length, codes,
}
use liso.Conn.{Net, Ctx, alive, smart_send}
use liso.Response.{resp_body}
use liso.Response.Serial.{resp_hdr}
use liso.Conn.Static.{cn_prepare_static_header, cn_serve_static}
use liso.Conn.Static.Whole.{IsReady, rounds}
use liso.Conn.Static.File.{static_file-delivered, response_of}
use liso.Conn.Static.Refine.{Simulates, serve_static-Simulates}
use liso.Pool.{Pool}
use liso.Cgi.{cgi_cgi_to_srv}
use liso.Conn.Dynamic.Relay.{TakesAll, Chunk, relay, relay-output}
use liso.Tests.Data.{full_conn, no_net, length-blank, pool_of, ctx_of, one_page, a_stat}
use liso.Tests.Memory.{full_conn-Safe, one_page-StdFiles}
use liso.Tests.Http.{slow, slow-TakesAtMost, serving, body_buf}

pub slow-IsReady : IsReady slow
unfolding smart_send
slow-IsReady = record { most = slow-TakesAtMost; some_taken = taken }
  where
    taken :
        (ssl : Bool) (bytes : List ℕ)
        → 0 < length bytes
        → (n : ℕ) × (smart_send slow ssl bytes ≡ some (suc n))
    taken ssl [] h = elim h [ ]
    taken true (c ∷ cs) h = (0, refl)
    taken false (c ∷ cs) h = (0, refl)

abbrev sending : Ctx Pool
sending = record serving {
  conn = record serving.conn { resp = record serving.conn.resp { phase = resp_body } };
}

serve_static-Simulates_example :
    Simulates sending slow
      (λ x. (alive, x))
      (λ x. (alive, x))
      (cn_serve_static sending slow (codes "Thu") (λ x. (alive, x)) (λ x. (alive, x)))
serve_static-Simulates_example =
    serve_static-Simulates sending slow (codes "Thu") body_buf (λ x. (alive, x)) (λ x. (alive, x))
      (
        record { here = refl; left = omega arith; allocated = omega arith; small = omega arith },
        inl refl,
      )
      slow-TakesAtMost

static_file-delivered_example :
    let page = resp_hdr (response_of one_page full_conn) (codes "Thu") ++ codes "hello" in
    (z : Ctx Pool) × (cn_prepare_static_header
        (ctx_of full_conn (pool_of []))
        one_page
        (codes "Thu")
        (λ x code. (alive, x))
      ≡ (alive, z))
    × (k : ℕ) × (y : Ctx Pool) × (k < length page)
    × (cn_serve_static
          (rounds (λ i. slow) (codes "Thu") (λ x. (alive, x)) (λ x. (alive, x)) k z)
          slow
          (codes "Thu")
          (λ x. (alive, x))
          (λ x. (alive, x))
        ≡ (alive, y))
    × (y.sent ≡ page)
static_file-delivered_example =
    static_file-delivered (ctx_of full_conn (pool_of [])) one_page (codes "Thu")
      (λ x code. (alive, x)) a_stat (codes "hello")
      (record { stats = refl; regular = refl; opens = refl; maps = refl }) refl (omega arith) refl
      full_conn-Safe refl one_page-StdFiles (omega arith) (λ i. slow) (λ x. (alive, x))
      (λ x. (alive, x)) (λ i. slow-IsReady)

abbrev greedy : Net
greedy = record no_net {
  ssl_write = λ bytes. some (length bytes);
  send = λ bytes. some (length bytes);
}

greedy-TakesAll : TakesAll greedy
unfolding smart_send
greedy-TakesAll true c cs = refl
greedy-TakesAll false c cs = refl

abbrev exchange : Ctx Pool
exchange =
    ctx_of (record full_conn { cgi = record full_conn.cgi { phase = cgi_cgi_to_srv } }) (pool_of [])

abbrev chunks : List Chunk
chunks =
    record { head = 97; tail = codes "bc"; fits = omega arith }
    ∷ record { head = 100; tail = []; fits = omega arith }
    ∷ []

relay-output_example :
    (y : Ctx Pool) × (relay greedy
        (λ x. (alive, x))
        (λ x code. (alive, x))
        (λ x. (alive, x))
        chunks
        exchange
      ≡ (alive, y))
    × (y.sent ≡ codes "abcd")
relay-output_example =
    relay-output greedy (λ x. (alive, x)) (λ x code. (alive, x)) (λ x. (alive, x)) greedy-TakesAll
      chunks exchange
      (record { phase = refl; start = refl; space = omega (arith, length-blank 8192) })
