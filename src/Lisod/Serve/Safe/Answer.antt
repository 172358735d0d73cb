-- ===== src/Lisod/Serve/Safe/Answer.antt =====
-- The making of a response, static or by a CGI program, on the invariant of Conn/Safe.
use liso.Base.{◌≡◌, refl, inl, inr, [], ◌∷◌, ◌++◌, true, arith, length, Bool-cases, ◌&&◌, not}
use liso.CString.{Str}
use liso.Buffer.{Buf, buf_reset}
use liso.Buffer.Laws.{length-write_at}
use liso.Request.{req_done, in_phase, is_static}
use liso.Response.{resp_in, resp_ready, resp_header}
use liso.Response.Bounds.{length-resp_hdr}
use liso.Response.Build.{resp_build}
use liso.Response.Build.Small.{resp_build_small}
use liso.Response.Serial.{resp_hdr}
use liso.Cgi.{cgi_at, cgi_ready, Spawn, cgi_init}
use liso.Conn.{Ctx}
use liso.Conn.Safe.{Safe, done-Content}
use liso.Conn.Static.{fill_header, cn_prepare_static_header}
use liso.Conn.Dynamic.{cn_init_cgi, set_cgi}
use liso.Pool.{Pool}
use liso.Lisod.{liso_conn_err, liso_cgi_inited}
use liso.Lisod.Serve.{Io, prepare_static, start_cgi, stop_reading, transitions}
use liso.Lisod.Serve.Safe.{conn_err-Safe}
use liso.Lisod.Serve.Safe.Std.{StdIo, Keeps}
use liso.Lisod.Serve.Safe.Relay.{feed-Safe}

-- A buffer filled with a text that fits.
fill_header-sz :
    (b : Buf) (t : Str)
    → ((fill_header b t).sz ≡ length t)
      × ((fill_header b t).data_p ≡ 0)
      × (length (fill_header b t).mem ≡ length b.mem)
unfolding fill_header buf_reset
fill_header-sz b t = (refl, refl, length-write_at b.mem 0 (t ++ 0 ∷ []))

header-Safe :
    (io : Io) (x : Ctx Pool)
    → StdIo io
    → Safe x.conn
    → in_phase x.conn.req.phase req_done ≡ true
    → resp_in x.conn.resp.phase resp_ready ≡ true
    → Safe (cn_prepare_static_header x io.files io.now liso_conn_err).1.conn
unfolding cn_prepare_static_header
header-Safe io x std s done ready =
    let empty : x.conn.resp.hdrs ≡ [] = ground (arith, s.orders.fresh) in
    let (packed, small, phase) =
      resp_build_small io.files std.files x.conn.resp x.conn.req empty s.orders.small in
    let built = resp_build io.files x.conn.resp x.conn.req in
    elim (Bool-cases (not built.1)) [
      | inl bad ↦ rw bad (
          conn_err-Safe (record x { conn = record x.conn { resp = built.0 } }) built.0.status
            (s.rooms) packed small)
      | inr ok ↦
          let resp = record built.0 { phase = resp_header } in
          let text = resp_hdr resp io.now in
          let fits = length-resp_hdr resp io.now std.date small packed in
          let (sz, start, mem) = fill_header-sz x.conn.buf text in
          let a = s.rooms.allocated in
          rw ok (record {
            rooms = record {
              allocated = omega arith;
              last_allocated = s.rooms.last_allocated;
              last_high = s.rooms.last_high;
            };
            content =
                done-Content x.conn.req.phase x.conn.req (fill_header x.conn.buf text)
                  (ground arith) (omega arith) (omega arith);
            orders = record {
              fresh = inl (omega arith);
              aborted = inl (omega arith);
              dynamic = ground (arith, s.orders.dynamic);
              relaying = ground (arith, s.orders.dynamic);
              packed = packed;
              small = small;
            };
          })
    ]

prepare-Safe : (io : Io) (x : Ctx Pool) → StdIo io → Keeps x (prepare_static io x)
unfolding prepare_static
prepare-Safe io x std s =
    elim (Bool-cases (
      is_static x.conn.req.type_
      && in_phase x.conn.req.phase req_done
      && resp_in x.conn.resp.phase resp_ready)) [
        | inl e ↦ rw e (header-Safe io x std s (ground arith) (ground arith))
        | inr e ↦ rw e s
      ]

-- The start of a program leaves request, response and buffer alone, unless it fails.
cgi-Safe :
    (x : Ctx Pool) (spawn : Spawn)
    → cgi_at x.conn.cgi.phase cgi_ready ≡ true
    → Keeps x (cn_init_cgi x spawn liso_cgi_inited liso_conn_err).1
unfolding cn_init_cgi liso_cgi_inited liso_conn_err set_cgi
cgi-Safe x spawn ready s = elim (Bool-cases (cgi_init x.conn.cgi spawn).1) [
  | inl e ↦ rw e (record {
    rooms = s.rooms;
    content = s.content;
    orders = record {
      fresh = s.orders.fresh;
      aborted = s.orders.aborted;
      dynamic = ground (arith, s.orders.dynamic);
      relaying = inl (omega arith);
      packed = s.orders.packed;
      small = s.orders.small;
    };
  })
  | inr e ↦ rw e (record {
    rooms = s.rooms;
    content = tt;
    orders = record {
      fresh = inl (omega arith);
      aborted = inr refl;
      dynamic = inr (inr (omega arith));
      relaying = inr (inl refl);
      packed = s.orders.packed;
      small = s.orders.small;
    };
  })
]

start-Safe : (io : Io) (x : Ctx Pool) → Keeps x (start_cgi io x)
unfolding start_cgi
start-Safe io x s =
    elim (Bool-cases (not (is_static x.conn.req.type_) && cgi_at x.conn.cgi.phase cgi_ready)) [
      | inl e ↦ rw e (cgi-Safe x io.spawn (ground arith) s)
      | inr e ↦ rw e s
    ]

stop-Safe : (x : Ctx Pool) → Keeps x (stop_reading x)
unfolding stop_reading
stop-Safe x s = elim (Bool-cases (in_phase x.conn.req.phase req_done)) [
  | inl e ↦ rw e s
  | inr e ↦ rw e s
]

pub transitions-Safe : (io : Io) (x : Ctx Pool) → StdIo io → Keeps x (transitions io x)
unfolding transitions
transitions-Safe io x std s =
    feed-Safe io _ (stop-Safe _ (start-Safe io _ (prepare-Safe io x std s)))
