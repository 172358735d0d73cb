-- ===== src/Tests/Memory.antt =====
-- The theorems on the memory of connections, at concrete inputs.
use liso.Base.{◌≤◌, ◌<◌, refl, inl, inr, [], arith, length, codes}
use liso.Buffer.{bufsz, buf_new}
use liso.Request.{req_new, req_reset, req_abort}
use liso.Request.Pack.{pack_headers}
use liso.Response.{resp_abort, resp_new, resp_reset}
use liso.Response.Build.Small.{StdFiles}
use liso.Cgi.{cgi_new, cgi_reset}
use liso.Conn.{Conn, smart_recv, smart_send, cn_new}
use liso.Conn.Safe.{Safe, Sound-Safe}
use liso.Conn.Safe.Writes.{error_page-fits}
use liso.Conn.Static.{error_page}
use liso.Pool.{pl_new, pl_ready, pl_add_conn}
use liso.Lisod.{Incoming, new_client, liso_accept_conn, liso_accept, establish, add_accepted}
use liso.Lisod.Serve.{
  Io, serve_conn, recv_stage, transitions, prepare_static, start_cgi, stop_reading, feed_cgi,
  serve_dynamic, serve_static,
}
use liso.Lisod.Serve.Safe.Std.{StdIo}
use liso.Lisod.Loop.{
  turn_rounds, rounds_from, Turn, main_turn, after_select, accept_on, serve_all, serve_from,
}
use liso.Lisod.Memory.Accept.{StdIncoming}
use liso.Lisod.Memory.{StdTurn, InBounds, Runs, Runs-Safe}
use liso.Tests.Data.{
  full_conn, full_alloc, length-blank, one_page, client, hang_up, a_req, a_resp, a_cgi,
}
use liso.Tests.Server.{full_conn-Sound, listeners, quiet, begun}

nil-packed : length (pack_headers []) ≤ 118
unfolding pack_headers
nil-packed = omega arith

pub full_conn-Safe : Safe full_conn
full_conn-Safe = Sound-Safe full_conn full_conn-Sound (record {
  fresh = inr (refl, refl);
  aborted = inl (omega arith);
  dynamic = inl (omega arith);
  relaying = inl (omega arith);
  packed = nil-packed;
  small = omega arith;
})

pub one_page-StdFiles : StdFiles one_page
one_page-StdFiles = record { sizes = λ path st e. ground arith; dates = λ t. omega arith }

abbrev refused : Conn
refused = record full_conn {
  req = record full_conn.req { phase = req_abort };
  resp = record full_conn.resp { phase = resp_abort; status = 404 };
}

refused-Safe : Safe refused
refused-Safe = record {
  rooms = full_conn-Safe.rooms;
  content = tt;
  orders = record {
    fresh = inl (omega arith);
    aborted = inr refl;
    dynamic = inl (omega arith);
    relaying = inl (omega arith);
    packed = nil-packed;
    small = omega arith;
  };
}

error_page-fits_example :
    ((error_page refused (codes "Thu")).sz < bufsz)
    × (bufsz ≤ length (error_page refused (codes "Thu")).mem)
error_page-fits_example = error_page-fits refused (codes "Thu") refused-Safe (omega arith)

-- A client whose connection has buffers of their full size.
abbrev roomy : Incoming
roomy = record (client 5) {
  raw = record {
    req = a_req;
    resp = a_resp;
    cgi = a_cgi;
    last_alloc = full_alloc;
    alloc = full_alloc;
  };
}

roomy-Std : StdIncoming roomy
roomy-Std = record {
  alloc = omega (arith, length-blank 8192);
  last_alloc = omega (arith, length-blank 8192);
}

abbrev leaving : Io
leaving = record hang_up { alloc = full_alloc; reset_alloc = full_alloc }

leaving-Std : StdIo leaving
unfolding smart_recv smart_send
leaving-Std = record {
  recv_most = λ ssl n bytes e. ground arith;
  send_most = λ ssl bytes n e. ground arith;
  read_most = λ bytes e. cc;
  room = omega (arith, length-blank 8192);
  reset_room = omega (arith, length-blank 8192);
  files = one_page-StdFiles;
  date = omega arith;
}

abbrev arrival : Turn
arrival = record quiet { plain = roomy; secure = roomy; rounds = λ n. leaving }

arrival-Std : StdTurn arrival
arrival-Std = record { plain = roomy-Std; secure = roomy-Std; rounds = λ n. leaving-Std }

arrival-InBounds : InBounds listeners arrival begun
unfolding turn_rounds rounds_from main_turn pl_ready pl_new after_select accept_on liso_accept_conn
    liso_accept establish add_accepted new_client pl_add_conn serve_all serve_from serve_conn
    recv_stage transitions prepare_static start_cgi stop_reading feed_cgi serve_dynamic serve_static
    cn_new req_new req_reset resp_new resp_reset cgi_new cgi_reset buf_new
arrival-InBounds = (refl, tt)

Runs-Safe_example : Safe (new_client (pl_new 3 4) roomy 80 5)
unfolding main_turn pl_ready pl_new after_select accept_on liso_accept_conn liso_accept establish
    add_accepted new_client pl_add_conn serve_all serve_from serve_conn recv_stage transitions
    prepare_static start_cgi stop_reading feed_cgi serve_dynamic serve_static cn_new req_new
    req_reset resp_new resp_reset cgi_new cgi_reset buf_new
Runs-Safe_example =
    Runs-Safe {l = listeners} 0 (new_client (pl_new 3 4) roomy 80 5)
      (Runs.turn arrival arrival-Std arrival-InBounds Runs.start) refl
