-- ===== src/Lisod/Serve/Safe.antt =====
-- Receiving, and the callbacks of lisod.c, on the invariant of Conn/Safe.
pub mod Std
pub mod Relay
pub mod Answer
pub mod Reset
pub mod Page
pub mod Send
pub mod Round
use liso.Base.{
  ℕ, ◌+◌, ◌≤◌, ◌<◌, ◌^◌, ◌≡◌, ◌≢◌, refl, ◌⊎◌, inl, inr, [], ◌∷◌, Bool, true, false, arith, length,
  Bool-cases, Option, none, some, ◌&&◌, ◌||◌, not, List, ◌==◌, if◌then◌else◌,
}
use liso.Buffer.{Alloc, bufsz, buf_reset, buf_end}
use liso.Buffer.Laws.{length-write_at}
use liso.Request.{
  req_reset, req_start, req_header, req_body, req_done, ReqPhase, req_abort, phase_code, in_phase,
}
use liso.Request.Pack.{pack_headers}
use liso.Response.{resp_reset}
use liso.Header.{hdr_reset}
use liso.Cgi.{cgi_reset}
use liso.Conn.{Conn, Ctx, Ret, alive, closed, Net, smart_recv, nonpositive}
use liso.Conn.Recv.{
  Accept, refused, again, accepted, parse_received, parse_body, cn_parse_req, append_recv,
  take_recv, ssl_handshake, recv_ignore, room, cn_recv, set_phase,
}
use liso.Conn.Recv.Sound.{Rooms, Sound, Grown}
use liso.Conn.Recv.Call.{GivesAtMost, recv-Sound}
use liso.Conn.Safe.{Content, Orders, Safe, Sound-Safe, Safe-Sound, received-Orders, body-Orders}
use liso.Pool.{Pool, pl_reset_conn}
use liso.Lisod.{restore_rest, await_write, liso_reset_or_close, liso_conn_err, liso_drop_conn}
use liso.Lisod.Serve.{Io, recv_stage}
use liso.Lisod.Serve.Receive.{
  conn_err-Fits, drop-Sound, reset-Sound, restore_rest-Sound, await_write-conn,
}

-- What holds of a connection that is left alive.
abbrev pub Lives : (Conn → Type 0) → Ret × Ctx Pool → Type 0
Lives P (alive, y) = P y.conn
Lives P (closed, y) = Unit

pub drop-Lives : (P : Conn → Type 0) (x : Ctx Pool) → Lives P (liso_drop_conn x)
unfolding liso_drop_conn
drop-Lives P x = tt

-- The response keeps its fields and its length.
conn_err-Orders :
    (x : Ctx Pool) (k : ℕ)
    → length (pack_headers x.conn.resp.hdrs) ≤ 118
    → x.conn.resp.clen < 2 ^ 63
    → Orders (liso_conn_err x k).1.conn
unfolding liso_conn_err
conn_err-Orders x k packed small = record {
  fresh = inl (omega arith);
  aborted = inr refl;
  dynamic = inr (inr (omega arith));
  relaying = inr (inl refl);
  packed = packed;
  small = small;
}

pub conn_err-Safe :
    (x : Ctx Pool) (k : ℕ)
    → Rooms x.conn
    → length (pack_headers x.conn.resp.hdrs) ≤ 118
    → x.conn.resp.clen < 2 ^ 63
    → Safe (liso_conn_err x k).1.conn
unfolding liso_conn_err
conn_err-Safe x k r packed small = record {
  rooms = r;
  content = tt;
  orders = conn_err-Orders x k packed small;
}

settle-Orders :
    (x : Ctx Pool) (o : Conn × Option ℕ)
    → Orders o.0
    → let out : Ret × Ctx Pool = elim o.1 [
      | some code ↦ liso_conn_err (record x { conn = o.0 }) code
      | none ↦ (alive, record x { conn = parse_body o.0 })
    ] in
      Orders out.1.conn
settle-Orders x (c, none) o = body-Orders c o
settle-Orders x (c, some k) o = conn_err-Orders (record x { conn = c }) k o.packed o.small

pub parse_req-Orders :
    (x : Ctx Pool) (a : Alloc) (last : ℕ)
    → Orders x.conn
    → Orders (cn_parse_req x a last liso_conn_err).1.conn
unfolding cn_parse_req
parse_req-Orders x a last o =
    elim (Bool-cases
      (in_phase x.conn.req.phase req_start || in_phase x.conn.req.phase req_header)) [
        | inl e ↦ settle-Orders x _ (rw e (received-Orders x.conn a last (ground arith) o))
        | inr e ↦ settle-Orders x _ (rw e o)
      ]

append-Orders : (c : Conn) (bytes : List ℕ) → Orders c → Orders (append_recv c bytes)
unfolding append_recv
append-Orders c bytes o = record {
  fresh = o.fresh;
  aborted = o.aborted;
  dynamic = o.dynamic;
  relaying = o.relaying;
  packed = o.packed;
  small = o.small;
}

take-Orders :
    (x : Ctx Pool) (a : Alloc) (o : Option (List ℕ))
    → Orders x.conn
    → Lives Orders (take_recv x a o liso_conn_err liso_drop_conn)
unfolding take_recv
take-Orders x a none o = drop-Lives Orders _
take-Orders x a (some []) o = drop-Lives Orders _
take-Orders x a (some (c ∷ cs)) o =
    parse_req-Orders (record x { conn = append_recv x.conn (c ∷ cs) }) a (buf_end x.conn.buf)
      (append-Orders x.conn (c ∷ cs) o)

handshake-Safe :
    (x : Ctx Pool) (a : Accept) → Safe x.conn → Lives Safe (ssl_handshake x a liso_drop_conn)
unfolding ssl_handshake
handshake-Safe x refused s = drop-Lives Safe _
handshake-Safe x again s = s
handshake-Safe x accepted s = s

-- The phase, from its test.
abort_of : (p : ReqPhase) → in_phase p req_abort ≡ true → p ≡ req_abort
abort_of req_start h = ground arith
abort_of req_header h = ground arith
abort_of req_body h = ground arith
abort_of req_done h = ground arith
abort_of req_abort h = refl

-- With the request aborted, a receive overwrites the start of the buffer.
ignore-Safe :
    (x : Ctx Pool) (net : Net)
    → Safe x.conn
    → x.conn.req.phase ≡ req_abort
    → Lives Safe (recv_ignore x net liso_drop_conn)
unfolding recv_ignore
ignore-Safe x net s p = go (smart_recv net x.conn.ssl bufsz) refl
  where
    go :
        (o : Option (List ℕ))
        → smart_recv net x.conn.ssl bufsz ≡ o
        → Lives Safe (recv_ignore x net liso_drop_conn)
    go none e = rw (e, recv_ignore) (drop-Lives Safe x)
    go (some []) e = rw (e, recv_ignore) (drop-Lives Safe x)
    go (some (c ∷ cs)) e =
        let r = s.rooms.allocated in
        rw (e, recv_ignore)
          (record {
            rooms = record {
              allocated = omega (arith, length-write_at x.conn.buf.mem 0 (c ∷ cs));
              last_allocated = s.rooms.last_allocated;
              last_high = s.rooms.last_high;
            };
            content = rw p tt;
            orders = s.orders;
          })

-- Soundness and the order of the phases, together.
join : (r : Ret × Ctx Pool) → Sound r.1.conn → Lives Orders r → Lives Safe r
join (alive, y) s o = Sound-Safe y.conn s o
join (closed, y) s o = tt

conn_err-phase : (x : Ctx Pool) (k : ℕ) → (liso_conn_err x k).1.conn.req.phase ≡ req_abort
unfolding liso_conn_err
conn_err-phase x k = refl

pub conn_err-code : (x : Ctx Pool) (k : ℕ) → phase_code (liso_conn_err x k).1.conn.req.phase ≡ 5
unfolding liso_conn_err
conn_err-code x k = refl

full-Safe :
    (x : Ctx Pool) (net : Net)
    → Safe x.conn
    → Lives Safe (recv_ignore (liso_conn_err x 400).1 net liso_drop_conn)
full-Safe x net s =
    ignore-Safe (liso_conn_err x 400).1 net
      (conn_err-Safe x 400 s.rooms s.orders.packed s.orders.small) (conn_err-phase x 400)

-- `cn_recv` in every phase.
recv-Safe :
    (x : Ctx Pool) (net : Net) (acc : Accept) (a : Alloc)
    → Safe x.conn
    → GivesAtMost net
    → bufsz ≤ length a.bytes
    → Lives Safe (cn_recv x net acc a liso_conn_err liso_drop_conn)
unfolding cn_recv
recv-Safe x net acc a s most space = elim (Bool-cases (x.conn.ssl && not x.conn.ssl_accepted)) [
  | inl e ↦ rw e (handshake-Safe x acc s)
  | inr e ↦ elim (Bool-cases (in_phase x.conn.req.phase req_abort)) [
    | inl p ↦ rw (e, p) (ignore-Safe x net s (abort_of x.conn.req.phase p))
    | inr p ↦ elim (Bool-cases (nonpositive (room x.conn.buf))) [
      | inl q ↦ rw (e, p, q) (full-Safe x net s)
      | inr q ↦
          let got = smart_recv net x.conn.ssl (room x.conn.buf) in
          let sound =
            recv-Sound liso_conn_err liso_drop_conn conn_err-Fits drop-Sound x net acc a
              (Safe-Sound x.conn s p) most space in
          rw (e, p, q)
            (join (take_recv x a got liso_conn_err liso_drop_conn) (rw (e, p, q) at sound)
              (take-Orders x a got s.orders))
    ]
  ]
]

pub recv_stage-Safe :
    (io : Io) (x : Ctx Pool)
    → Safe x.conn
    → GivesAtMost io.recv_net
    → bufsz ≤ length io.alloc.bytes
    → Lives Safe (recv_stage io x)
unfolding recv_stage
recv_stage-Safe io x s most space = elim (Bool-cases (x.world.read_ready x.conn.fd)) [
  | inl e ↦ rw e (recv-Safe x io.recv_net io.ssl_accept io.alloc s most space)
  | inr e ↦ rw e s
]
