-- ===== src/Tests/Server.antt =====
-- The theorems on the pool, the loop and the turns, at concrete inputs.
use liso.Base.{
  SameItems, ◌==◌, length-take, codes, ◌⊎◌, ℕ, zero, suc, ◌<◌, ◌≤◌, ◌≡◌, refl, true, false, none,
  some, List, [], ◌∷◌, arith, length,
}
use mathlib.Core.List.{Perm}
use liso.Conn.Recv.Sound.{Sound}
use liso.Conn.Recv.Call.{GivesAtMost}
use liso.Buffer.{buf_new}
use liso.Request.{req_new, req_reset}
use liso.Response.{resp_new, resp_reset}
use liso.Cgi.{cgi_new, cgi_reset}
use liso.Conn.{cn_new, smart_recv, Ctx, Conn}
use liso.Pool.{pl_new, pl_ready, Pool, max_conns, remove_slot, pl_add_conn}
use liso.Pool.Slots.{fds, remove_slot-perm}
use liso.Pool.Inv.{IsValid}
use liso.Lisod.{new_client, liso_accept, establish, add_accepted, liso_accept_conn}
use liso.Lisod.Accept.{Outcome, accept_conn-Outcome}
use liso.Lisod.Serve.{
  Io, serve_conn, recv_stage, transitions, prepare_static, start_cgi, stop_reading, feed_cgi,
  serve_dynamic, serve_static,
}
use liso.Lisod.Serve.Relation.{Fate}
use liso.Lisod.Serve.Stages.{serve_conn-Fate}
use liso.Lisod.Loop.{
  accept_on, after_select, Listeners, Turn, Server, main_turn, serve_from, rounds_from, serve_all,
}
use liso.Lisod.Loop.Each.{round_fds}
use liso.Lisod.Loop.Rounds.{CoveredBy, serve_from_ends}
use liso.Lisod.Turn.{start, turn, Reach-IsValid, Reach-CoveredBy}
use liso.Tests.Data.{
  full_conn, full_alloc, talking, length-blank, conn_at, pool_of, server_of, ctx_of, hang_up,
  client,
}

abbrev pub two : List Conn
two = conn_at 5 0 ∷ conn_at 6 1 ∷ []

pub two-IsValid : IsValid two
two-IsValid = record { indexed = slots; bounded = omega arith }
  where
    slots : (i : ℕ) (c : Conn) → liso.Base.get_elem? two i ≡ some c → c.idx ≡ i
    slots zero c e = cc
    slots (suc zero) c e = cc
    slots (suc (suc i)) c e = cc

abbrev pub listeners : Listeners
listeners = record { sock = 3; ssl_sock = 4; http_port = 80; https_port = 443 }

-- A turn in which both listeners and every connection are ready.
abbrev pub busy : Turn
busy = record {
  select = some (λ x. true, λ x. true);
  plain = client 5;
  secure = client 6;
  rounds = λ n. hang_up;
}

abbrev pub begun : Server
begun = record { pool = liso.Pool.pl_new 3 4; closed_fds = []; sent = []; piped = [] }

Reach-IsValid_example : IsValid (main_turn listeners busy begun).pool.conns
Reach-IsValid_example = Reach-IsValid {l = listeners} (turn busy start)

abbrev readable : Pool
readable = record (pool_of two) { read_ready = λ x. true }

serve_conn-Fate_example :
    Fate (ctx_of (conn_at 5 0) readable) (serve_conn hang_up (ctx_of (conn_at 5 0) readable))
serve_conn-Fate_example = serve_conn-Fate hang_up (ctx_of (conn_at 5 0) readable) (omega arith)

serve_from_ends_example :
    let (i, m, s) = serve_from (λ n. hang_up) (length two) 0 4 (server_of two) in
    (length s.pool.conns ≤ i)
    × IsValid s.pool.conns
    × SameItems (round_fds (rounds_from (λ n. hang_up) (length two) 0 (server_of two))) (5 ∷ 6 ∷ [])
serve_from_ends_example = serve_from_ends (λ n. hang_up) (server_of two) two-IsValid

accept_conn-Outcome_example :
    Outcome (pool_of two) (client 7) (liso_accept_conn (pool_of two) (client 7) true 443)
accept_conn-Outcome_example = accept_conn-Outcome (pool_of two) (client 7) true 443 two-IsValid

remove_slot-perm_example : Perm (5 ∷ fds (remove_slot two 0)) (5 ∷ 6 ∷ [])
remove_slot-perm_example = remove_slot-perm two 0 (conn_at 5 0) refl

abbrev listening : Ctx Pool
listening = ctx_of full_conn readable

abbrev talk : Io
talk = record hang_up { recv_net = talking; alloc = full_alloc }

talking-GivesAtMost : GivesAtMost talking
unfolding smart_recv
talking-GivesAtMost true n bytes e = ground (arith, length-take n (codes "GET / "))
talking-GivesAtMost false n bytes e = ground (arith, length-take n (codes "GET / "))

pub full_conn-Sound : Sound full_conn
full_conn-Sound = record {
  fits = record {
    high = omega arith;
    allocated = omega (arith, length-blank 8192);
    last_allocated = omega (arith, length-blank 8192);
    last_high = omega arith;
  };
  waits = (omega arith, λ k low high e. elim high [ ]);
}

-- A turn in which a client comes to the first listener, and nothing else is ready.
abbrev pub quiet : Turn
quiet = record busy { select = some (λ x. x == 3, λ x. false) }

abbrev comer : Conn
comer = new_client (pl_new 3 4) (client 5) 80 5

Reach-CoveredBy_example : CoveredBy comer (main_turn listeners quiet begun).pool.max_fd
unfolding main_turn pl_ready pl_new after_select accept_on liso_accept_conn liso_accept establish
    add_accepted new_client pl_add_conn serve_all serve_from serve_conn recv_stage transitions
    prepare_static start_cgi stop_reading feed_cgi serve_dynamic serve_static cn_new req_new
    req_reset resp_new resp_reset cgi_new cgi_reset buf_new
Reach-CoveredBy_example = Reach-CoveredBy {l = listeners} 0 comer (turn quiet start) refl
